-- ===== src/Orders/Queue/Once/Worked.antt =====
-- internal/erp/hasavshevet/queue.go: the invariant of the queue, the jobs on their way and the numbers opened, and what
-- the worker's records do to it.
use digi_erp_connector.Base.{
  ◌≡◌, refl, sym, subst, ◌∙◌, Text, Bool, true, false, Option, none, some, List, [], ◌∷◌,
}
use digi_erp_connector.Base.Int.{ℤ}
use digi_erp_connector.Orders.Types.{JobStatus, done, JobStatus.failed as job_failed}
use digi_erp_connector.Orders.Queue.State.{Setup, Job, Queue, OrderFailure, set_status}
use digi_erp_connector.Orders.Queue.Worker.{
  Processed, wrote, stopped, finish_job, abandon, abandon_all, record_outcome, set_final,
}
use digi_erp_connector.Orders.Queue.Recover.Bounds.{Bounded}
use digi_erp_connector.Orders.Queue.Steps.{note_opened}
use digi_erp_connector.Orders.Queue.Once.{Core}
use digi_erp_connector.Orders.Queue.Once.Preserve.{finish-Core, same_some}
use digi_erp_connector.Orders.Queue.Once.Recording.{
  IsHonest, Recorded-Bounded, record_outcome-Recorded, record_outcome-ch,
}

-- The jobs on their way: the one in the worker's hand, then the channel.
abbrev pub on_the_way : {F : Type 0} → Option (Job F) → List (Job F) → List (Job F)
on_the_way none ch = ch
on_the_way (some job) ch = job ∷ ch

module _ {F : Type 0} (setup : Setup F) where
  -- The invariant of a queue, the jobs on their way and the numbers opened.
  pub record Fine (q : Queue F) (live : List (Job F)) (opened : List ℤ) : Type 0 where
    pub indexed : q.indexed ≡ true
    pub bounded : Bounded setup q
    pub core : Core setup q.disk.index live opened

  -- The worker's record of the job in front.
  pub record-Fine :
      (q : Queue F) (saves : Bool) (now : Text) (job : Job F) (rest : List (Job F))
      (opened : List ℤ) (p : Processed) (flag : Bool)
      → IsHonest flag p
      → Fine q (job ∷ rest) opened
      → Fine
          (record_outcome setup q saves now job p)
          rest
          (note_opened flag job.order_number opened)
  record-Fine q saves now job rest opened p flag h v =
      let s = v.core.saved.0 in
      let r = record_outcome-Recorded setup q saves now job p flag s v.indexed h in
      record {
        indexed = r.indexed ∙ v.indexed;
        bounded =
            Recorded-Bounded setup q (record_outcome setup q saves now job p) s.entry flag r s.loads
              v.bounded;
        core =
            finish-Core setup q.disk.index (record_outcome setup q saves now job p).disk.index rest
              opened job r.entry v.core (λ old has. rw (same_some (sym has ∙ s.job_entry)) r.same)
              r.law flag r.honest;
      }

  -- What the worker's status changes leave alone.
  status-Fine :
      (q : Queue F) (id : Text) (st : JobStatus) (n : ℤ) (files : List Text)
      (f : Option OrderFailure) (live : List (Job F)) (opened : List ℤ)
      → Fine q live opened
      → Fine (set_status q id st n files f) live opened
  unfolding set_status
  status-Fine q id st n files f live opened v = record {
    indexed = v.indexed;
    bounded = v.bounded;
    core = v.core;
  }

  status-ch :
      (q : Queue F) (id : Text) (st : JobStatus) (n : ℤ) (files : List Text)
      (f : Option OrderFailure)
      → (set_status q id st n files f).ch ≡ q.ch
  unfolding set_status
  status-ch q id st n files f = refl

  pub at_ch :
      (q : Queue F) (rest : List (Job F)) (opened : List ℤ)
      → q.ch ≡ rest
      → Fine q rest opened
      → Fine q q.ch opened
  at_ch q rest opened e = subst (λ l. Fine q l opened) (sym e)

  pub finish-Fine :
      (q : Queue F) (saves : Bool) (now : Text) (job : Job F) (opened : List ℤ) (p : Processed)
      (flag : Bool)
      → IsHonest flag p
      → Fine q (job ∷ q.ch) opened
      → Fine
          (finish_job setup q saves now job p)
          (finish_job setup q saves now job p).ch
          (note_opened flag job.order_number opened)
  unfolding finish_job set_final
  finish-Fine q saves now job opened (wrote n files) flag h v =
      let q' = record_outcome setup q saves now job (wrote n files) in
      let same =
        status-ch q' job.id done n files none
        ∙ record_outcome-ch setup q saves now job (wrote n files) in
      at_ch (set_final setup q' job (wrote n files)) q.ch _ same (
        status-Fine q' job.id done n files none q.ch _
          (record-Fine q saves now job q.ch opened (wrote n files) flag h v))
  finish-Fine q saves now job opened (stopped f) flag h v =
      let q' = record_outcome setup q saves now job (stopped f) in
      let same =
        status-ch q' job.id job_failed job.order_number [] (some f)
        ∙ record_outcome-ch setup q saves now job (stopped f) in
      at_ch (set_final setup q' job (stopped f)) q.ch _ same (
        status-Fine q' job.id job_failed job.order_number [] (some f) q.ch _
          (record-Fine q saves now job q.ch opened (stopped f) flag h v))

  pub abandon-Fine :
      (q : Queue F) (saves : Bool) (now : Text) (job : Job F) (cause : Text) (rest : List (Job F))
      (opened : List ℤ)
      → Fine q (job ∷ rest) opened
      → Fine (abandon setup q saves now job cause) rest opened
  unfolding abandon
  abandon-Fine q saves now job cause rest opened v =
      let f : OrderFailure = record { not_written = true; message = cause } in
      status-Fine (record_outcome setup q saves now job (stopped f)) job.id job_failed
        job.order_number [] (some f) rest opened
        (record-Fine q saves now job rest opened (stopped f) false (λ _. refl) v)

  pub abandon-ch :
      (q : Queue F) (saves : Bool) (now : Text) (job : Job F) (cause : Text)
      → (abandon setup q saves now job cause).ch ≡ q.ch
  unfolding abandon
  abandon-ch q saves now job cause =
      let f : OrderFailure = record { not_written = true; message = cause } in
      status-ch (record_outcome setup q saves now job (stopped f)) job.id job_failed
        job.order_number [] (some f)
      ∙ record_outcome-ch setup q saves now job (stopped f)

  pub abandon_all-Fine :
      (q : Queue F) (saves : Bool) (now : Text) (l : List (Job F)) (cause : Text) (opened : List ℤ)
      → Fine q l opened
      → Fine (abandon_all setup q saves now l cause) [] opened
  unfolding abandon_all
  abandon_all-Fine q saves now [] cause opened v = v
  abandon_all-Fine q saves now (job ∷ rest) cause opened v =
      abandon_all-Fine (abandon setup q saves now job cause) saves now rest cause opened
        (abandon-Fine q saves now job cause rest opened v)

  pub abandon_all-ch :
      (q : Queue F) (saves : Bool) (now : Text) (l : List (Job F)) (cause : Text)
      → (abandon_all setup q saves now l cause).ch ≡ q.ch
  unfolding abandon_all
  abandon_all-ch q saves now [] cause = refl
  abandon_all-ch q saves now (job ∷ rest) cause =
      abandon_all-ch (abandon setup q saves now job cause) saves now rest cause
      ∙ abandon-ch q saves now job cause
