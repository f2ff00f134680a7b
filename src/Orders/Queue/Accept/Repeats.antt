-- ===== src/Orders/Queue/Accept/Repeats.antt =====
-- internal/erp/hasavshevet/queue.go: how Accept answers a repeat and a key whose entry cannot be
-- trusted, and what a repeat is told after the order was written.
use digi_erp_connector.Base.{
  ◌≡◌, ◌≢◌, refl, sym, ap, subst, ◌∙◌, ◌⊎◌, inl, inr, arith, Text, text_eq, text_eq_refl, is_empty,
  true, false, not, ◌&&◌, Option, none, some, List, if_true, if_false, Outcome, ok, err,
}
use digi_erp_connector.Base.Dict
use digi_erp_connector.Base.Decimal.{format}
use digi_erp_connector.Base.Int.{ℤ}
use digi_erp_connector.Orders.Types.{
  Error, index_not_saved, index_unreadable, Entry, OrderRequest, OrderState, reserved, written,
  retryable, done, unknown, JobStatus,
}
use digi_erp_connector.Orders.Types.{
  OrderState.failed as state_failed, JobStatus.failed as job_failed,
}
use digi_erp_connector.Orders.Index.{
  IndexDir, DirItem, file, json, marshal, path_for, load, load_stem, save,
}
use digi_erp_connector.Orders.Index.Untrusted.{IsUntrusted, load_untrusted, load_marshalled}
use digi_erp_connector.Orders.Index.Laws.{IsEntry, load_own, load_stem-save}
use digi_erp_connector.Orders.Queue.State.{
  Setup, Disk, JobResult, set_status, Queue, Io, Job, Acceptance, job_active, new_queue,
  entry_status,
}
use digi_erp_connector.Orders.Queue.Accept.{
  accept, status_of, accept_keyed, answer_loaded, replay, is_retryable,
}
use digi_erp_connector.Orders.Queue.Worker.{
  finish_job, record_entry, set_final, record_outcome, with_outcome, wrote,
}

module _ {F : Type 0} (setup : Setup F) where
  -- Accept with a key reads the key's entry and answers by it.
  accept_loaded :
      (q : Queue F) (io : Io) (req : OrderRequest F)
      → q.closed ≡ false
      → q.indexed ≡ true
      → setup.has_store ≡ true
      → is_empty req.history_id ≡ false
      → accept setup q io req
        ≡ answer_loaded setup q io req (load setup.stem q.disk.index req.history_id)
  unfolding accept accept_keyed
  accept_loaded q io req not_closed indexed store key =
      if_false _ _ not_closed ∙ if_true _ _ indexed ∙ if_false _ _ (ap not store) ∙ if_false _ _ key

  not_retryable : (s : OrderState) → s ≢ retryable → is_retryable s ≡ false
  unfolding is_retryable
  not_retryable s h = ground arith

  accept-replay :
      (q : Queue F) (io : Io) (req : OrderRequest F) (e : Entry)
      → q.closed ≡ false
      → q.indexed ≡ true
      → setup.has_store ≡ true
      → is_empty req.history_id ≡ false
      → load setup.stem q.disk.index req.history_id ≡ ok (some e)
      → (e.state ≢ retryable) ⊎ (job_active q e.number ≡ true)
      → accept setup q io req ≡ (q, ok (replay setup q e))
  accept-replay q io req e not_closed indexed store key l settled =
      accept_loaded q io req not_closed indexed store key
      ∙ ap (answer_loaded setup q io req) l
      ∙ answer settled
    where
      no_again :
          (e.state ≢ retryable) ⊎ (job_active q e.number ≡ true)
          → (is_retryable e.state && not (job_active q e.number)) ≡ false
      no_again (inl other) = ground (arith, not_retryable e.state other)
      no_again (inr active) = ground arith

      answer :
          (e.state ≢ retryable) ⊎ (job_active q e.number ≡ true)
          → answer_loaded setup q io req (ok (some e)) ≡ (q, ok (replay setup q e))
      answer h = unfold answer_loaded in if_false _ _ (no_again h)

  -- What a key's entry says of its job when the queue has none of that number in memory.
  pub data Tells : OrderState → JobStatus → Type 0 where
    written_done : Tells written done
    failed_failed : Tells state_failed job_failed
    retryable_failed : Tells retryable job_failed
    reserved_unknown : Tells reserved unknown

  -- The status of an entry's job: the one in memory, or what the entry tells.
  pub data Stands (q : Queue F) (e : Entry) : JobStatus → Type 0 where
    in_memory :
        (r : JobResult) → Dict.lookup (format e.number) q.jobs ≡ some r → Stands q e r.status
    from_index :
        (s : JobStatus)
        → Dict.lookup (format e.number) q.jobs ≡ none
        → Tells e.state s
        → Stands q e s

  entry_status-Tells : (s : OrderState) → Tells s (entry_status s)
  unfolding entry_status
  entry_status-Tells written = written_done
  entry_status-Tells state_failed = failed_failed
  entry_status-Tells retryable = retryable_failed
  entry_status-Tells reserved = reserved_unknown

  status_of-Stands :
      (q : Queue F) (e : Entry) (o : Option JobResult)
      → Dict.lookup (format e.number) q.jobs ≡ o
      → Stands q e (status_of o (entry_status e.state))
  unfolding status_of
  status_of-Stands q e none h = from_index _ h (entry_status-Tells e.state)
  status_of-Stands q e (some r) h = in_memory r h

  -- With the key index, an open queue and a number store, when the file of a key is what a save of
  -- an entry of that key writes, and the entry is not retryable or its number is still queued or
  -- running, a repeat of the key is answered as a replay with the entry's number and the status of
  -- its job, which is the one in memory or else what the entry's state tells, and nothing changes:
  -- no file, no counter, no job.
  pub accept_repeat :
      (q : Queue F) (io : Io) (req : OrderRequest F) (e : Entry)
      → q.closed ≡ false
      → q.indexed ≡ true
      → setup.has_store ≡ true
      → IsEntry e
      → e.key ≡ req.history_id
      → Dict.lookup (path_for (setup.stem e.key)) q.disk.index
        ≡ some (file (json (marshal e) false))
      → (e.state ≢ retryable) ⊎ (job_active q e.number ≡ true)
      → (s : JobStatus) × (accept setup q io req
          ≡ (q, ok (record { job_id = format e.number; status = s; replay = true })))
        × Stands q e s
  accept_repeat q io req e not_closed indexed store v own there settled =
      let l : load setup.stem q.disk.index req.history_id ≡ ok (some e) =
        subst (λ k. load setup.stem q.disk.index k ≡ ok (some e)) own
          (load_marshalled setup.stem q.disk.index e v there) in
      let key = subst (λ k. is_empty k ≡ false) own v.has_key in
      (
        status_of (Dict.lookup (format e.number) q.jobs) (entry_status e.state),
        accept-replay q io req e not_closed indexed store key l settled ∙ (unfold replay in refl),
        status_of-Stands q e _ refl,
      )

  -- With the key index, an open queue and a number store, a key whose file is a folder, cannot be
  -- read, is no JSON object of an entry, has more data behind it, or is an entry of another key,
  -- of a number below 1, of no known state or of negative retries, is refused as unreadable, and
  -- nothing changes: no number is issued for it.
  pub accept_untrusted :
      (q : Queue F) (io : Io) (req : OrderRequest F) (item : DirItem)
      → q.closed ≡ false
      → q.indexed ≡ true
      → setup.has_store ≡ true
      → is_empty req.history_id ≡ false
      → Dict.lookup (path_for (setup.stem req.history_id)) q.disk.index ≡ some item
      → IsUntrusted req.history_id item
      → accept setup q io req ≡ (q, err index_unreadable)
  accept_untrusted q io req item not_closed indexed store key there bad =
      accept_loaded q io req not_closed indexed store key
      ∙ ap (answer_loaded setup q io req)
          (load_untrusted setup.stem q.disk.index req.history_id item there bad)
      ∙ (unfold answer_loaded in refl)

  finish_job_index :
      (q : Queue F) (job : Job F) (e : Entry) (n : ℤ) (files : List Text) (now : Text)
      → q.indexed ≡ true
      → job.entry ≡ some e
      → (finish_job setup q true now job (wrote n files)).disk.index
        ≡ (save setup.stem q.disk.index true (with_outcome e (wrote n files) now)).0
  unfolding finish_job set_final set_status record_outcome
  finish_job_index q job e n files now indexed has =
      ap (λ o. (record_entry setup q true now o (wrote n files)).disk.index) has
      ∙ (unfold record_entry in ap (λ (r : Queue F). r.disk.index) (if_true _ _ indexed))

  -- Once the sender returned the files of an order and the index entry was saved, a repeat of its
  -- key after a restart is answered as done, with the order's own number.
  pub accept-finish_job :
      (q : Queue F) (io : Io) (req : OrderRequest F) (job : Job F) (e : Entry) (n : ℤ)
      (files : List Text) (now : Text)
      → q.indexed ≡ true
      → setup.has_store ≡ true
      → job.entry ≡ some e
      → IsEntry e
      → req.history_id ≡ e.key
      → (save setup.stem q.disk.index true (with_outcome e (wrote n files) now)).1 ≡ ok tt
      → (accept setup
          (new_queue (finish_job setup q true now job (wrote n files)).disk true)
          io
          req).1
        ≡ ok (record { job_id = format e.number; status = done; replay = true })
  accept-finish_job q io req job e n files now indexed store has v same saved =
      ap (λ (r : Queue F × Outcome Error Acceptance). r.1)
        (accept-replay q' io req e' closed opened store key own (inl other))
      ∙ ap ok answer
    where
      e' : Entry
      e' = with_outcome e (wrote n files) now

      d' : Disk
      d' = (finish_job setup q true now job (wrote n files)).disk

      q' : Queue F
      q' = new_queue d' true

      v' : IsEntry e'
      v' = unfold with_outcome in record { has_key = v.has_key; positive = v.positive }

      closed : q'.closed ≡ false
      closed = unfold new_queue in refl

      opened : q'.indexed ≡ true
      opened = unfold new_queue in refl

      key : is_empty req.history_id ≡ false
      key = subst (λ k. is_empty k ≡ false) (sym same) v.has_key

      kept : e'.key ≡ e.key
      kept = unfold with_outcome in refl

      its_own : text_eq (setup.stem e'.key) (setup.stem req.history_id) ≡ true
      its_own =
          unfold with_outcome in
          subst (λ k. text_eq (setup.stem e.key) (setup.stem k) ≡ true) (sym same)
            (text_eq_refl (setup.stem e.key))

      at :
          load_stem setup.stem (save setup.stem q.disk.index true e').0 (setup.stem req.history_id)
          ≡ ok (some e')
      at = elim (load_stem-save setup.stem q.disk.index true e' v') [
        | inr refused ↦
            let clash : err index_not_saved ≡ ok tt =
              sym (ap (λ (r : IndexDir × Outcome Error (Unit {0})). r.1) refused) ∙ saved in
            absurd (cc)
        | inl (_, law) ↦ law (setup.stem req.history_id) ∙ if_true _ _ its_own
      ]

      own : load setup.stem q'.disk.index req.history_id ≡ ok (some e')
      own =
          unfold new_queue in
          load_own setup.stem q'.disk.index req.history_id e'
            (subst (λ i. load_stem setup.stem i (setup.stem req.history_id) ≡ ok (some e'))
              (sym (finish_job_index q job e n files now indexed has)) at)
            (kept ∙ sym same)

      other : e'.state ≢ retryable
      other = unfold with_outcome in λ h. cc

      answer :
          replay setup q' e' ≡ record { job_id = format e.number; status = done; replay = true }
      answer = unfold replay new_queue with_outcome Dict.lookup entry_status status_of in refl
