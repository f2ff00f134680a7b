-- ===== src/Orders/Queue/Accept/Effects.antt =====
-- internal/erp/hasavshevet/queue.go: the effect of Accept with the key index, branch by branch.
use digi_erp_connector.Base.{
  if_both, if_split, ◌≡◌, refl, sym, subst, inl, arith, is_empty, true, false, not, ◌&&◌, Option,
  none, some, if◌then◌else◌, leb, leb→lt, Outcome, ok, err,
}
use digi_erp_connector.Base.Int.{ℤ, pos, negsuc}
use digi_erp_connector.Orders.Types.{Error, Entry, OrderRequest, OrderState, retryable}
use digi_erp_connector.Orders.Counter.{peek}
use digi_erp_connector.Orders.Index.{load_stem, load}
use digi_erp_connector.Orders.Index.Laws.{IsEntry, load_stem-IsEntry, load-none, load-some}
use digi_erp_connector.Orders.Queue.State.{Queue, Setup, Io, Acceptance, is_full, job_active}
use digi_erp_connector.Orders.Queue.Recover.{recover_locked}
use digi_erp_connector.Orders.Queue.Recover.Bounds.{
  Loads, Bounded, Keeps, Keeps-refl, IsVisible, recover_locked-Keeps, recover_locked_ok,
}
use digi_erp_connector.Orders.Queue.Accept.{
  accept, accept_keyed, accept_new, answer_loaded, issue, offer, requeue, requeue_checked,
  is_retryable,
}
use digi_erp_connector.Orders.Queue.Accept.Sends.{
  Effect, reserve-Effect, requeue_checked-Effect, Keeps-Effect,
}

module _ {F : Type 0} (setup : Setup F) where
  requeue-Effect :
      (q : Queue F) (io : Io) (e : Entry) (req : OrderRequest F)
      → IsVisible setup
      → IsEntry e
      → e.state ≡ retryable
      → Loads setup q.disk.index (setup.stem e.key) e
      → e.key ≡ req.history_id
      → Effect setup req q (requeue setup q io e req).0
  requeue-Effect q io e req vis v retry l own =
      unfold requeue in
      if_both P q.recovered (requeue_checked-Effect setup q io e req v retry l own)
        (after (recover_locked setup q io).1)
    where
      P : Queue F × Outcome Error Acceptance → Type 0
      P r = Effect setup req q r.0

      q' : Queue F
      q' = (recover_locked setup q io).0

      k : Keeps setup q q'
      k = recover_locked-Keeps setup q io vis

      go : Effect setup req q (requeue_checked setup q' io e req).0
      go = Keeps-Effect setup k (
          requeue_checked-Effect setup q' io e req v retry
            (subst (λ d. Loads setup d (setup.stem e.key) e) (sym k.index) l) own)

      after :
          (r : Outcome Error (Unit {0}))
          → P (elim r [
            | ok _ ↦ requeue_checked setup q' io e req
            | err x ↦ if q'.scanned then requeue_checked setup q' io e req else (q', err x)
          ])
      after (ok _) = go
      after (err x) = if_both P q'.scanned go (inl k)

  offer-Effect :
      (q : Queue F) (io : Io) (req : OrderRequest F) (o : Outcome Error ℤ)
      → is_full q ≡ false
      → is_empty req.history_id ≡ false
      → load_stem setup.stem q.disk.index (setup.stem req.history_id) ≡ ok none
      → q.recovered ≡ true
      → Bounded setup q
      → Effect setup req q (offer setup q io req o).0
  offer-Effect q io req (err x) room key new rec b = unfold offer in inl (Keeps-refl setup q)
  offer-Effect q io req (ok (negsuc n)) room key new rec b =
      unfold offer in
      inl (record { index = refl; ch = refl; indexed = refl; bounded = λ b r. absurd (cc) })
  offer-Effect q io req (ok (pos n)) room key new rec b =
      unfold offer in
      if_split P (leb n q.highest)
        (λ low.
          inl (record { index = refl; ch = refl; indexed = refl; bounded = λ b r. absurd (cc) }))
        (λ above. reserve-Effect setup q io req n room key new rec (leb→lt n q.highest above) b)
    where
      P : Queue F × Outcome Error Acceptance → Type 0
      P r = Effect setup req q r.0

  issue-Effect :
      (q : Queue F) (io : Io) (req : OrderRequest F)
      → is_empty req.history_id ≡ false
      → load_stem setup.stem q.disk.index (setup.stem req.history_id) ≡ ok none
      → q.recovered ≡ true
      → Bounded setup q
      → Effect setup req q (issue setup q io req).0
  issue-Effect q io req key new rec b =
      unfold issue in
      if_split (λ (r : Queue F × Outcome Error Acceptance). Effect setup req q r.0) (is_full q)
        (λ full. inl (Keeps-refl setup q))
        (λ room. offer-Effect q io req (peek q.disk.counter) room key new rec b)

  accept_new-Effect :
      (q : Queue F) (io : Io) (req : OrderRequest F)
      → IsVisible setup
      → is_empty req.history_id ≡ false
      → load_stem setup.stem q.disk.index (setup.stem req.history_id) ≡ ok none
      → Bounded setup q
      → Effect setup req q (accept_new setup q io req).0
  accept_new-Effect q io req vis key new b =
      unfold accept_new in
      if_split P q.recovered (λ rec. issue-Effect q io req key new rec b)
        (λ _. after (recover_locked setup q io).1 (recover_locked_ok setup q io))
    where
      P : Queue F × Outcome Error Acceptance → Type 0
      P r = Effect setup req q r.0

      q' : Queue F
      q' = (recover_locked setup q io).0

      k : Keeps setup q q'
      k = recover_locked-Keeps setup q io vis

      after :
          (r : Outcome Error (Unit {0}))
          → (r ≡ ok tt → q'.recovered ≡ true)
          → P (elim r [ ok _ ↦ issue setup q' io req | err x ↦ (q', err x) ])
      after (ok _) rec = Keeps-Effect setup k (
          issue-Effect q' io req key
            (subst (λ d. load_stem setup.stem d (setup.stem req.history_id) ≡ ok none) (sym k.index)
              new)
            (rec refl) (k.bounded b))
      after (err x) rec = inl k

  is_retryable_inv : (st : OrderState) → is_retryable st ≡ true → st ≡ retryable
  unfolding is_retryable
  is_retryable_inv st h = ground arith

  answer_loaded-Effect :
      (q : Queue F) (io : Io) (req : OrderRequest F) (o : Outcome Error (Option Entry))
      → IsVisible setup
      → is_empty req.history_id ≡ false
      → load setup.stem q.disk.index req.history_id ≡ o
      → Bounded setup q
      → Effect setup req q (answer_loaded setup q io req o).0
  answer_loaded-Effect q io req (err x) vis key l b =
      unfold answer_loaded in inl (Keeps-refl setup q)
  answer_loaded-Effect q io req (ok none) vis key l b =
      unfold answer_loaded in
      accept_new-Effect q io req vis key (load-none setup.stem q.disk.index req.history_id l) b
  answer_loaded-Effect q io req (ok (some e)) vis key l b =
      let (at, own) = load-some setup.stem q.disk.index req.history_id e l in
      let (v, named) = load_stem-IsEntry setup.stem q.disk.index (setup.stem req.history_id) e at in
      unfold answer_loaded in
      if_split (λ (r : Queue F × Outcome Error Acceptance). Effect setup req q r.0)
        (is_retryable e.state && not (job_active q e.number))
        (λ again.
          requeue-Effect q io e req vis v (is_retryable_inv e.state (ground arith))
            (subst (λ k. Loads setup q.disk.index (setup.stem k) e) (sym own) at) own)
        (λ _. inl (Keeps-refl setup q))

  -- With the key index, file names that do not begin with a dot, and a highest number that is no
  -- lower than any readable entry's if the queue is recovered, Accept either leaves the index and
  -- the channel as they were, or saves one reserved entry of the request's key and hash and queues
  -- the request under its number: a new number above every readable entry's, for a key that had no
  -- entry, or the number that the key's retryable entry already holds.
  pub accept-Effect :
      (q : Queue F) (io : Io) (req : OrderRequest F)
      → IsVisible setup
      → q.indexed ≡ true
      → Bounded setup q
      → Effect setup req q (accept setup q io req).0
  unfolding accept_keyed
  accept-Effect q io req vis indexed b =
      unfold accept in
      if_both P q.closed (inl (Keeps-refl setup q))
        (if_split P q.indexed (λ _. keyed) (λ unkeyed. absurd (cc)))
    where
      P : Queue F × Outcome Error Acceptance → Type 0
      P r = Effect setup req q r.0

      keyed : P (accept_keyed setup q io req)
      keyed = if_both P (not setup.has_store) (inl (Keeps-refl setup q)) (
          if_split P (is_empty req.history_id) (λ _. inl (Keeps-refl setup q))
            (λ key.
              answer_loaded-Effect q io req (load setup.stem q.disk.index req.history_id) vis key
                refl b))
