-- ===== src/Orders/Queue/Worker.antt =====
-- internal/erp/hasavshevet/queue.go: what the worker records of a job, and Status and Unfinished,
-- which read it.
use digi_erp_connector.Base.{
  ℕ, utf8_len, ◌+◌, ◌-◌, Text, text_eq, Bool, true, false, Option, none, some, List, [], ◌∷◌,
  if◌then◌else◌, leb, ◌==◌, Outcome, ok, err,
}
use digi_erp_connector.Base.Dict
use digi_erp_connector.Base.Int.{ℤ, pos, negsuc}
use digi_erp_connector.Base.Decimal.{format, parse_int64}
use digi_erp_connector.Orders.Types.{
  Error, Entry, OrderState, reserved, written, retryable, JobStatus, queued, running, done, unknown,
  OrderState.failed as state_failed, JobStatus.failed as job_failed,
}
use digi_erp_connector.Orders.Index.{save, load_stem}
use digi_erp_connector.Orders.Queue.State.{
  Queue, Setup, Job, JobResult, OrderFailure, set_status, lookup_number, entry_status,
}

-- What the sender returns for a job: the order's number and the files it wrote, or an error.
pub data Processed : Type 0 where
  wrote : ℤ → List Text → Processed
  stopped : OrderFailure → Processed

-- The longest prefix of whole characters in so many bytes of UTF-8: a cut at a byte count after
-- which the broken character is dropped.
unfoldable pub utf8_prefix : ℕ → Text → Text
unfolding utf8_len
utf8_prefix budget [] = []
utf8_prefix budget (c ∷ s) =
    let more = utf8_prefix (budget - utf8_len c) s in
    if leb (utf8_len c) budget then c ∷ more else []

abbrev pub max_order_error_text : ℕ
max_order_error_text = 1000

-- orderErrorText
unfoldable pub order_error_text : OrderFailure → Text
order_error_text f = utf8_prefix max_order_error_text f.message

-- The entry as recordOutcome leaves it before the save.
unfoldable pub with_outcome : Entry → Processed → Text → Entry
unfolding order_error_text
with_outcome e (wrote n files) now = record e { state = written; files = files; finished_at = now }
with_outcome e (stopped f) now = record e {
  state = if f.not_written then retryable else state_failed;
  error = order_error_text f;
  finished_at = now;
}

module _ {F : Type 0} (setup : Setup F) where
  unfoldable pub record_entry : Queue F → Bool → Text → Option Entry → Processed → Queue F
  record_entry q saves now none p = q
  record_entry q saves now (some e) p =
      if q.indexed
      then record q {
        disk = record (q.disk) {
          index = (save setup.stem q.disk.index saves (with_outcome e p now)).0;
        };
      }
      else q

  -- recordOutcome: a save that fails leaves the entry as it is on disk.
  unfoldable pub record_outcome : Queue F → Bool → Text → Job F → Processed → Queue F
  unfolding record_entry
  record_outcome q saves now job p = record_entry q saves now job.entry p

  unfoldable pub set_final : Queue F → Job F → Processed → Queue F
  set_final q job (wrote n files) = set_status q job.id done n files none
  set_final q job (stopped f) = set_status q job.id job_failed job.order_number [] (some f)

  -- The worker's steps for one job: it takes the import lock and marks the job running, and when
  -- the sender returns it records the outcome, the index first.
  unfoldable pub begin_job : Queue F → Job F → Queue F
  begin_job q job = set_status q job.id running job.order_number [] none

  unfoldable pub finish_job : Queue F → Bool → Text → Job F → Processed → Queue F
  unfolding record_outcome set_final
  finish_job q saves now job p = set_final (record_outcome q saves now job p) job p

  -- A job that the worker gives up before starting it: recorded as not written.
  unfoldable pub abandon : Queue F → Bool → Text → Job F → Text → Queue F
  unfolding record_outcome
  abandon q saves now job cause =
      let f : OrderFailure = record { not_written = true; message = cause } in
      set_status (record_outcome q saves now job (stopped f)) job.id job_failed job.order_number []
        (some f)

  -- abandonQueued: every job still in the channel when the worker exits.
  unfoldable pub abandon_all : Queue F → Bool → Text → List (Job F) → Text → Queue F
  abandon_all q saves now [] cause = q
  abandon_all q saves now (job ∷ rest) cause =
      abandon_all (abandon q saves now job cause) saves now rest cause

  unfoldable pub abandon_queued : Queue F → Bool → Text → Text → Queue F
  unfolding abandon_all
  abandon_queued q saves now cause = abandon_all (record q { ch = [] }) saves now q.ch cause

  answer_failure : Entry → OrderState → Option OrderFailure
  answer_failure e state_failed = some (record { not_written = false; message = e.error })
  answer_failure e retryable = some (record { not_written = false; message = e.error })
  answer_failure e reserved = none
  answer_failure e written = none

  from_entry : Text → ℕ → Outcome Error (Option Entry) → Option JobResult
  unfolding answer_failure
  from_entry id n (err x) = some (record {
    id = id;
    status = unknown;
    order_number = pos n;
    written_files = [];
    failure = none;
  })
  from_entry id n (ok none) = none
  from_entry id n (ok (some e)) =
      if e.number == n
      then some (record {
        id = id;
        status = entry_status e.state;
        order_number = pos n;
        written_files = e.files;
        failure = answer_failure e e.state;
      })
      else none

  by_stem : Queue F → Text → ℕ → Option Text → Option JobResult
  unfolding from_entry
  by_stem q id n none = none
  by_stem q id n (some s) =
      if q.indexed then from_entry id n (load_stem setup.stem q.disk.index s) else none

  by_parsed : Queue F → Text → Option ℤ → Option JobResult
  unfolding by_stem
  by_parsed q id none = none
  by_parsed q id (some (negsuc n)) = none
  by_parsed q id (some (pos n)) =
      if text_eq (format n) id then by_stem q id n (lookup_number n q.by_number) else none

  by_memory : Queue F → Text → Option JobResult → Option JobResult
  unfolding by_parsed
  by_memory q id (some r) = some r
  by_memory q id none = by_parsed q id (parse_int64 id)

  -- Status: the job in memory, or what its index entry says.
  unfoldable pub status : Queue F → Text → Option JobResult
  unfolding by_memory
  status q id = by_memory q id (Dict.lookup id q.jobs)

count_status : JobStatus → ℕ × ℕ → ℕ × ℕ
count_status queued (n, m) = (n + 1, m)
count_status running (n, m) = (n, m + 1)
count_status _ (n, m) = (n, m)

count_jobs : List (Text × JobResult) → ℕ × ℕ
unfolding count_status
count_jobs [] = (0, 0)
count_jobs ((id, r) ∷ rest) = count_status r.status (count_jobs rest)

-- Unfinished: how many jobs are queued, and how many running.
unfoldable pub unfinished : {F : Type 0} → Queue F → ℕ × ℕ
unfolding count_jobs
unfinished q = count_jobs q.jobs
