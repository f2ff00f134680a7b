-- ===== src/Orders/Queue/Accept.antt =====
-- internal/erp/hasavshevet/queue.go: Accept and what it calls, all under closeMu.
pub mod Sends
pub mod Effects
pub mod Repeats
use digi_erp_connector.Base.{
  ℕ, ◌+◌, Text, codes, text_eq, is_empty, Bool, true, false, not, ◌&&◌, Option, none, some, [], ◌∷◌,
  if◌then◌else◌, leb, Outcome, ok, err,
}
use digi_erp_connector.Base.Dict
use digi_erp_connector.Base.Int.{ℤ, pos, negsuc}
use digi_erp_connector.Base.Decimal.{format, format_int64}
use digi_erp_connector.Orders.Types.{
  Error, no_number_store, history_id_required, queue_full, queue_closed, counter_moved_back,
  OrderRequest, Entry, OrderState, reserved, retryable, JobStatus,
}
use digi_erp_connector.Orders.Types.{JobStatus.failed as job_failed}
use digi_erp_connector.Orders.Counter.{peek, next, advance_past}
use digi_erp_connector.Orders.Index.{load, save}
use digi_erp_connector.Orders.Queue.State.{
  Queue, Setup, Io, Job, JobResult, Acceptance, FileStat, absent, is_full, enqueue, job_active,
  entry_status, lookup_number, contains_number,
}
use digi_erp_connector.Orders.Queue.Recover.{recover_locked}
use digi_erp_connector.Orders.Queue.Worker.{record_outcome, stopped}

is_retryable : OrderState → Bool
is_retryable retryable = true
is_retryable _ = false

is_absent : FileStat → Bool
is_absent absent = true
is_absent _ = false

held_by_other : Option Text → Text → Bool
held_by_other none s = false
held_by_other (some t) s = not (text_eq t s)

status_of : Option JobResult → JobStatus → JobStatus
status_of none s = s
status_of (some r) s = r.status

module _ {F : Type 0} (setup : Setup F) where
  abbrev Answer : Type 0
  Answer = Queue F × Outcome Error Acceptance

  -- replay answers a key that the index already holds; it changes nothing.
  unfoldable pub replay : Queue F → Entry → Acceptance
  unfolding status_of
  replay q e = record {
    job_id = format e.number;
    status = status_of (Dict.lookup (format e.number) q.jobs) (entry_status e.state);
    replay = true;
  }

  -- Whether a retryable entry's number is not safely its own to write.
  unfoldable pub requeue_conflict : Queue F → Entry → Bool
  unfolding is_absent held_by_other
  requeue_conflict q e =
      if is_absent (q.disk.document e.number)
      then if contains_number e.number q.shared_numbers
        then true
        else held_by_other (lookup_number e.number q.by_number) (setup.stem e.key)
      else true

  -- A refusal of the channel, which a free slot rules out, is recorded as not written.
  reply : Io → Job F → Bool → Answer → Answer
  reply io job replayed (q, ok a) = (q, ok (record a { replay = replayed }))
  reply io job replayed (q, err x) = (
    record_outcome setup q io.saves io.now job
        (stopped (record { not_written = true; message = codes "never queued" })),
    err x,
  )

  -- Queue the job of a saved entry.
  send : Queue F → Io → Job F → Bool → Answer
  unfolding reply
  send q io job replayed = reply io job replayed (enqueue q job)

  abbrev requeued_entry : Entry → OrderRequest F → Entry
  requeued_entry e req = record e {
    state = reserved;
    error = [];
    finished_at = [];
    retries = e.retries + 1;
    request_hash = setup.request_hash req;
  }

  pub requeue_checked : Queue F → Io → Entry → OrderRequest F → Answer
  unfolding send
  requeue_checked q io e req =
      if requeue_conflict q e
      then (q, ok (record { job_id = format e.number; status = job_failed; replay = true }))
      else if is_full q
      then (q, err queue_full)
      else let e' = requeued_entry e req in
        let (index, saved) = save setup.stem q.disk.index io.saves e' in
        let q' = record q {
          disk = record (q.disk) { index = index };
          by_number = (e.number, setup.stem e.key) ∷ q.by_number;
        } in
        let job : Job F = record {
          id = format e.number;
          order_number = pos e.number;
          req = req;
          entry = some e';
        } in
        elim saved [ err x ↦ (q, err x) | ok _ ↦ send q' io job true ]

  -- requeueLocked: a retryable order again, under its own number.
  requeue : Queue F → Io → Entry → OrderRequest F → Answer
  unfolding requeue_checked
  requeue q io e req =
      if q.recovered
      then requeue_checked q io e req
      else let (q', r) = recover_locked setup q io in
        elim r [
          | ok _ ↦ requeue_checked q' io e req
          | err x ↦ if q'.scanned then requeue_checked q' io e req else (q', err x)
        ]

  abbrev new_entry : Io → OrderRequest F → ℕ → Entry
  new_entry io req n = record {
    key = req.history_id;
    number = n;
    state = reserved;
    request_hash = setup.request_hash req;
    files = [];
    error = [];
    retries = 0;
    reserved_at = io.now;
    finished_at = [];
  }

  -- A new order under number n: the entry, then the counter, then the queue. When the counter
  -- cannot be moved the order goes ahead, and nothing more is issued until a recovery.
  pub reserve : Queue F → Io → OrderRequest F → ℕ → Answer
  unfolding send
  reserve q io req n =
      let e = new_entry io req n in
      let (index, saved) = save setup.stem q.disk.index io.saves e in
      let (counter, moved) = advance_past q.disk.counter io.counter_writes n in
      let q' = record q {
        disk = record (q.disk) { index = index; counter = counter };
        by_number = (n, setup.stem req.history_id) ∷ q.by_number;
        highest = n;
        recovered = elim moved [ ok _ ↦ q.recovered | err _ ↦ false ];
      } in
      let job : Job F = record { id = format n; order_number = pos n; req = req; entry = some e } in
      elim saved [ err x ↦ (q, err x) | ok _ ↦ send q' io job false ]

  -- The number that the counter offers; one that was issued before is refused.
  offer : Queue F → Io → OrderRequest F → Outcome Error ℤ → Answer
  unfolding reserve
  offer q io req (err x) = (q, err x)
  offer q io req (ok (negsuc n)) = (record q { recovered = false }, err counter_moved_back)
  offer q io req (ok (pos n)) =
      if leb n q.highest
      then (record q { recovered = false }, err counter_moved_back)
      else reserve q io req n

  issue : Queue F → Io → OrderRequest F → Answer
  unfolding offer
  issue q io req = if is_full q then (q, err queue_full) else offer q io req (peek q.disk.counter)

  accept_new : Queue F → Io → OrderRequest F → Answer
  unfolding issue
  accept_new q io req =
      if q.recovered
      then issue q io req
      else let (q', r) = recover_locked setup q io in
        elim r [ ok _ ↦ issue q' io req | err x ↦ (q', err x) ]

  answer_loaded : Queue F → Io → OrderRequest F → Outcome Error (Option Entry) → Answer
  unfolding requeue accept_new is_retryable
  answer_loaded q io req (err x) = (q, err x)
  answer_loaded q io req (ok none) = accept_new q io req
  answer_loaded q io req (ok (some e)) =
      if is_retryable e.state && not (job_active q e.number)
      then requeue q io e req
      else (q, ok (replay q e))

  accept_keyed : Queue F → Io → OrderRequest F → Answer
  unfolding answer_loaded
  accept_keyed q io req =
      if not setup.has_store
      then (q, err no_number_store)
      else if is_empty req.history_id
      then (q, err history_id_required)
      else answer_loaded q io req (load setup.stem q.disk.index req.history_id)

  -- Without a key index: reserveJobIdentity takes the next number and its print is the job id.
  accept_unkeyed : Queue F → Io → OrderRequest F → Answer
  accept_unkeyed q io req =
      if is_full q
      then (q, err queue_full)
      else if setup.has_store
      then (let (counter, taken) = next q.disk.counter io.counter_writes in
          let q' = record q { disk = record (q.disk) { counter = counter } } in
          elim taken [
            | err x ↦ (q', err x)
            | ok n ↦
                enqueue q'
                  (record { id = format_int64 n; order_number = n; req = req; entry = none })
          ])
      else enqueue q (record { id = io.random_id; order_number = pos 0; req = req; entry = none })

  -- Accept
  unfoldable pub accept : Queue F → Io → OrderRequest F → Answer
  unfolding accept_keyed accept_unkeyed
  accept q io req =
      if q.closed
      then (q, err queue_closed)
      else if q.indexed
      then accept_keyed q io req
      else accept_unkeyed q io req
