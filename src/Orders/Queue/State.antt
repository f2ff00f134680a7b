-- ===== src/Orders/Queue/State.antt =====
-- internal/erp/hasavshevet/queue.go: the state of the order queue and of the disk under it. The
-- mutexes make each operation one step, so it is a function from the state before to the state
-- after. Logging is left out.
use digi_erp_connector.Base.{
  ℕ, ◌++◌, Text, Bool, true, false, Option, none, some, List, [], ◌∷◌, if◌then◌else◌, leb, ◌==◌,
  length, Outcome, ok, err,
}
use digi_erp_connector.Base.Dict
use digi_erp_connector.Base.Int.{ℤ}
use digi_erp_connector.Base.Decimal.{format}
use digi_erp_connector.Orders.Types.{
  Error, queue_full, OrderRequest, JobStatus, queued, running, done, unknown, OrderState, Entry,
  written, reserved, retryable,
}
use digi_erp_connector.Orders.Types.{
  JobStatus.failed as job_failed, OrderState.failed as state_failed,
}
use digi_erp_connector.Orders.Counter.{CounterFile}
use digi_erp_connector.Orders.Index.{IndexDir}

-- What os.Lstat says of an order's history copy.
pub data FileStat : Type 0 where
  absent present unclear : FileStat

-- lastOrderNumber.json, DataDir/orders/index, the names under sendOrderDir/history with whether
-- each is a folder, and each order's history/<n>/IMOVEIN_<n>.doc.
pub record Disk : Type 0 where
  pub counter : CounterFile
  pub index : IndexDir
  pub history : List (Text × Bool)
  pub document : ℕ → FileStat

-- A processing error: its text, and whether it is marked ErrOrderNotWritten.
pub record OrderFailure : Type 0 where
  pub not_written : Bool
  pub message : Text

pub record JobResult : Type 0 where
  pub id : Text
  pub status : JobStatus
  pub order_number : ℤ
  pub written_files : List Text
  pub failure : Option OrderFailure

pub record Job (F : Type 0) : Type 0 where
  pub id : Text
  pub order_number : ℤ
  pub req : OrderRequest F
  pub entry : Option Entry

-- OrderQueue: `ch` is the channel, `indexed` says whether UseKeyIndex was called.
pub record Queue (F : Type 0) : Type 0 where
  pub ch : List (Job F)
  pub jobs : List (Text × JobResult)
  pub by_number : List (ℕ × Text)
  pub shared_numbers : List ℕ
  pub closed : Bool
  pub indexed : Bool
  pub recovered : Bool
  pub scanned : Bool
  pub highest : ℕ
  pub disk : Disk

-- What the queue is built with: the key's file stem (hex SHA-256) and the request's fingerprint
-- (hex SHA-256 of its JSON), which are the standard library's, whether the sender has a number
-- store, and whether sendOrderDir is set.
pub record Setup (F : Type 0) : Type 0 where
  pub stem : Text → Text
  pub request_hash : OrderRequest F → Text
  pub has_store : Bool
  pub order_dir_set : Bool

-- What the environment decides in one call: whether the index folder can be prepared and listed,
-- the history folder listed, the counter moved by a recovery, an entry saved, the counter moved
-- past a new number; the time; a random job id.
pub record Io : Type 0 where
  pub prepared : Bool
  pub listed : Bool
  pub history_listed : Bool
  pub repairs : Bool
  pub saves : Bool
  pub counter_writes : Bool
  pub now : Text
  pub random_id : Text

pub record Acceptance : Type 0 where
  pub job_id : Text
  pub status : JobStatus
  pub replay : Bool

abbrev pub default_queue_size : ℕ
default_queue_size = 64

module _ {F : Type 0} where
  -- NewOrderQueue on a disk, with UseKeyIndex when `indexed`.
  unfoldable pub new_queue : Disk → Bool → Queue F
  new_queue d indexed = record {
    ch = [];
    jobs = [];
    by_number = [];
    shared_numbers = [];
    closed = false;
    indexed = indexed;
    recovered = false;
    scanned = false;
    highest = 0;
    disk = d;
  }

  abbrev pub is_full : Queue F → Bool
  is_full q = leb default_queue_size (length q.ch)

  unfoldable pub set_status :
      Queue F → Text → JobStatus → ℤ → List Text → Option OrderFailure → Queue F
  set_status q id status n files failure = record q {
    jobs =
        Dict.insert id
          (record {
            id = id;
            status = status;
            order_number = n;
            written_files = files;
            failure = failure;
          })
          q.jobs;
  }

  -- Record the job as queued and send it; a full channel takes nothing and the job is forgotten.
  unfoldable pub enqueue : Queue F → Job F → Queue F × Outcome Error Acceptance
  unfolding set_status
  enqueue q job =
      let q' = set_status q job.id queued job.order_number [] none in
      if is_full q then (record q' { jobs = Dict.delete job.id q'.jobs }, err queue_full) else (
        record q' { ch = q.ch ++ (job ∷ []) },
        ok (record { job_id = job.id; status = queued; replay = false }),
      )

  unfoldable pub stop : Queue F → Queue F
  stop q = record q { closed = true }

is_active : JobStatus → Bool
is_active queued = true
is_active running = true
is_active _ = false

job_is_active : Option JobResult → Bool
unfolding is_active
job_is_active none = false
job_is_active (some r) = is_active r.status

-- Whether order n is queued or running in this process.
unfoldable pub job_active : {F : Type 0} → Queue F → ℕ → Bool
unfolding job_is_active
job_active q n = job_is_active (Dict.lookup (format n) q.jobs)

-- The status that an entry stands for when no job in memory says more.
unfoldable pub entry_status : OrderState → JobStatus
entry_status written = done
entry_status state_failed = job_failed
entry_status retryable = job_failed
entry_status reserved = unknown

-- A map from order numbers: the entry put in last counts.
unfoldable pub lookup_number : ℕ → List (ℕ × Text) → Option Text
lookup_number n [] = none
lookup_number n ((m, s) ∷ l) = if m == n then some s else lookup_number n l

unfoldable pub contains_number : ℕ → List ℕ → Bool
contains_number n [] = false
contains_number n (m ∷ l) = if m == n then true else contains_number n l
