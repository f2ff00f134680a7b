-- ===== src/Orders/Queue/Steps.antt =====
-- internal/erp/hasavshevet/queue.go: the queue, its worker and restarts as a step relation. The
-- steps are the critical sections of closeMu and the worker's own, in any order; the worker holds
-- one job at a time. `opened` records the order numbers whose files the sender has opened.
use digi_erp_connector.Base.{
  ℕ, Outcome, ok, err, ◌≡◌, Text, Bool, true, false, Option, none, some, List, [], ◌∷◌,
  if◌then◌else◌,
}
use digi_erp_connector.Base.Int.{ℤ}
use digi_erp_connector.Orders.Types.{OrderRequest}
use digi_erp_connector.Orders.Queue.State.{
  Queue, OrderFailure, FileStat, Setup, Io, Disk, Job, new_queue, stop,
}
use digi_erp_connector.Orders.Counter.{CounterFile}
use digi_erp_connector.Orders.Sender.Outside.{Outside, SenderConfig, SendIo}
use digi_erp_connector.Orders.Sender.Process.{
  Sent, OrderFile, OrderResult, process_order_with_number,
}
use digi_erp_connector.Orders.Queue.Recover.{recover}
use digi_erp_connector.Orders.Queue.Accept.{accept}
use digi_erp_connector.Orders.Queue.Worker.{
  Processed, wrote, stopped, begin_job, finish_job, abandon, abandon_queued,
}

pub record System (F : Type 0) : Type 0 where
  pub queue : Queue F
  pub hand : Option (Job F)
  pub opened : List ℤ

-- What the worker keeps of a run of the sender.
abbrev pub processed_of : Outcome OrderFailure OrderResult → Processed
processed_of (ok r) = wrote r.order_number r.written_files
processed_of (err f) = stopped f

abbrev pub opens_any : List OrderFile → Bool
opens_any [] = false
opens_any (f ∷ fs) = true

abbrev pub note_opened : Bool → ℤ → List ℤ → List ℤ
note_opened opened n l = if opened then n ∷ l else l

module _ {F : Type 0} (setup : Setup F) (windows1255 : ℕ → Option ℕ) (outside : Outside F)
    (config : SenderConfig) where
  -- The worker's run of the sender on a job, in the environment `io`.
  abbrev pub run_job : SendIo F → System F → Job F → Sent
  run_job io s job =
      process_order_with_number windows1255 outside config io s.queue.disk job.req job.order_number

  pub data Step (s : System F) : System F → Type 0 where
    accepts :
        (io : Io) (req : OrderRequest F)
        → Step s (record s { queue = (accept setup s.queue io req).0 })
    recovers : (io : Io) → Step s (record s { queue = (recover setup s.queue io).0 })
    stops : Step s (record s { queue = stop s.queue })
    -- The worker takes the next job off the channel; it now waits for the import lock.
    takes :
        (job : Job F) (rest : List (Job F))
        → s.hand ≡ none
        → s.queue.ch ≡ job ∷ rest
        → Step s (record s { queue = record (s.queue) { ch = rest }; hand = some job })
    begins :
        (job : Job F)
        → s.hand ≡ some job
        → Step s (record s { queue = begin_job setup s.queue job })
    -- The sender runs and returns, and the worker records what it returned.
    finishes :
        (job : Job F) (io : SendIo F) (saves : Bool) (now : Text)
        → s.hand ≡ some job
        → Step s (record {
          queue =
              finish_job setup
                (record (s.queue) { disk = (run_job io s job).disk })
                saves
                now
                job
                (processed_of (run_job io s job).result);
          hand = none;
          opened =
              note_opened (opens_any (run_job io s job).opened) (run_job io s job).number s.opened;
        })
    -- The worker's context ends: the job in hand, and then those in the channel, are given up.
    abandons :
        (job : Job F) (saves : Bool) (now cause : Text)
        → s.hand ≡ some job
        → Step s (record s { queue = abandon setup s.queue saves now job cause; hand = none })
    abandons_queued :
        (saves : Bool) (now cause : Text)
        → s.hand ≡ none
        → Step s (record s { queue = abandon_queued setup s.queue saves now cause })
    -- The process dies, perhaps after the sender opened a file of the job in hand, and starts
    -- again. The index is as it was; the counter and the order folder may be anything.
    restarts :
        (opened : Bool) (counter : CounterFile) (history : List (Text × Bool))
        (document : ℕ → FileStat)
        → Step s (record {
          queue =
              new_queue
                (record {
                  counter = counter;
                  index = s.queue.disk.index;
                  history = history;
                  document = document;
                })
                true;
          hand = none;
          opened = elim (s.hand) [
            | none ↦ s.opened
            | some job ↦ note_opened opened job.order_number s.opened
          ];
        })

  pub data Reach (s : System F) : System F → Type 0 where
    here : Reach s s
    next : {t u : System F} → Reach s t → Step t u → Reach s u

-- The first start of a connector with the key index on a disk.
abbrev pub start : {F : Type 0} → Disk → System F
start d = record { queue = new_queue d true; hand = none; opened = [] }
