-- ===== src/Receipts/Writer/Gapless/Recovering.antt =====
-- internal/erp/hasavshevet/receipt_writer.go: a recovery keeps the invariant, and one that succeeds
-- leaves every entry written and the store past all of them.
use digi_erp_connector.Base.{
  arith, ℕ, ◌+◌, ◌≤◌, ◌<◌, ◌≡◌, refl, sym, ap, subst, ◌∙◌, ◌⊎◌, inl, inr, Text, Bool, true, false,
  not, Option, none, some, List, [], ◌∷◌, Outcome, ok, err, All, leb, Outcome-cases, leb→le, leb→lt,
  if_both, if_split, if_true, if_false,
}
use digi_erp_connector.Base.Sort
use digi_erp_connector.Base.Int.{pos}
use digi_erp_connector.Documents.Kupain.Tables.{max_receipt_number}
use digi_erp_connector.Receipts.Number.{StoreFile, StoreError, read, peek, advance_past}
use digi_erp_connector.Receipts.Number.Advance.{
  next_store, read-next_store, Advanced, refused, passed, moved, advance_past-Advanced,
}
use digi_erp_connector.Receipts.Types.{
  Receipt, reserved, written, ReceiptError, data_in_use, data_not_locked,
}
use digi_erp_connector.Receipts.Index.{ReceiptDir, all, rank}
use digi_erp_connector.Receipts.Index.Laws.{Loads, load-IsReceipt}
use digi_erp_connector.Receipts.Index.Listing.{all-All, all-complete, all-Pairwise}
use digi_erp_connector.Receipts.Writer.State.{
  LockAnswer, lock_taken, lock_in_use, lock_error, ReceiptDisk, ReceiptWriter, WriterConfig,
  ReceiptOutside, ReceiptIo, importer,
}
use digi_erp_connector.Receipts.Writer.Complete.{complete}
use digi_erp_connector.Receipts.Writer.Recover
use digi_erp_connector.Receipts.Writer.Recover.{
  past_highest, Done, complete_all, completed, recovery_notes, is_reserved,
}
use digi_erp_connector.Receipts.Writer.Gapless.{moved-Core}
use digi_erp_connector.Receipts.Writer.Gapless.Completing.{
  Kept, Completed, stayed, finished, complete-Completed,
}
use digi_erp_connector.Receipts.Writer.Gapless.Keeping.{Fine, same-Fine, complete-Fine}
use digi_erp_connector.Receipts.Writer.Gapless.Turns.{
  written_or_reserved, Pending, Pending-all, Turn, completed-Turn, skipped-Turn,
}

-- What a recovery leaves.
pub record Result (first next : ℕ) (r : Done) : Type 0 where
  pub fine : Fine first next r.0
  pub recovered : r.1 ≡ ok tt → r.0.recovered ≡ true

module _ (outside : ReceiptOutside) (config : WriterConfig) (io : ReceiptIo) (d : ReceiptDir) where
  complete_all-Result :
      {first next : ℕ} (es : List Receipt) (w : ReceiptWriter)
      → Turn d next es w
      → Fine first next w
      → Result first next (complete_all outside config io es w)
  unfolding complete_all
  complete_all-Result [] w t v = record {
    fine = record {
      at = v.at;
      store = v.store;
      not_above = v.not_above;
      core = v.core;
      fresh = λ _. t.below;
      settled =
          λ _ k f l. elim (t.pending k f l) [ inl st ↦ st | inr p ↦ absurd (unfold Pending in p) ];
    };
    recovered = λ _. refl;
  }
  complete_all-Result {first} {next} (e ∷ es) w t v = elim (written_or_reserved e.state) [
    | inl st ↦
        subst (Result first next) (sym (if_false _ _ (is_written st)))
          (complete_all-Result es w (skipped-Turn d e es w t st) v)
    | inr res ↦
        let (old, l, n, unrun) = t.now e.key e (t.left.0.0) in
        let valid = (load-IsReceipt d e.key e (t.left.0.0)).0 in
        let notes = recovery_notes (importer outside config) in
        let done = complete-Completed outside config io w e notes valid in
        let v' = complete-Fine w e old _ l (sym n) (unrun (t.left.0.1 res)) done v in
        subst (Result first next) (sym (if_true _ _ (waits res)))
          (go res (complete outside config io w e notes) done v' (λ w'. complete_all-Result es w'))
  ]
    where
      is_written : e.state ≡ written → is_reserved e.state ≡ false
      is_written st = ap is_reserved st ∙ (unfold is_reserved in refl)

      waits : e.state ≡ reserved → is_reserved e.state ≡ true
      waits res = ap is_reserved res ∙ (unfold is_reserved in refl)

      go :
          e.state ≡ reserved
          → (r : ReceiptWriter × Outcome ReceiptError Receipt) → Completed w e r
          → Fine first next r.0
          → ((w' : ReceiptWriter)
              → Turn d next es w'
              → Fine first next w'
              → Result first next (complete_all outside config io es w'))
          → Result first next (completed outside config io (complete_all outside config io es) r)
      go res r (stayed w' x k i) v' deeper =
          unfold completed in record { fine = v'; recovered = λ h. absurd (cc) }
      go res r (finished w' e' k law same) v' deeper =
          unfold completed in deeper w' (completed-Turn d e es w w' e' t res law same) v'

module _ (outside : ReceiptOutside) (config : WriterConfig) (io : ReceiptIo) where
  -- The first turn: every entry that loads is in the list.
  first-Turn :
      {first next : ℕ} (w : ReceiptWriter) (listed : Bool) (es : List Receipt)
      → all w.disk.index listed ≡ ok es
      → ((k : Text) (e : Receipt) → Loads w.disk.index k e → e.number < next)
      → Fine first next w
      → Turn w.disk.index next es w
  first-Turn w listed es a below v = record {
    left = all-All _ w.disk.index listed es a (λ k e l.
        let own = (load-IsReceipt w.disk.index k e l).1 in
        let here : Loads w.disk.index e.key e = subst (λ x. Loads w.disk.index x e) (sym own) l in
        (here, v.core.unrun k e l));
    now = λ k e l. (e, l, refl, λ h. h);
    below = below;
    pending = λ k f l.
        let own = (load-IsReceipt w.disk.index k f l).1 in
        subst (λ x. (f.state ≡ written) ⊎ Pending es x) own
          (all-complete (λ e. (e.state ≡ written) ⊎ Pending es e.key) w.disk.index listed es k f a
            (v.core.visible k f l) l (Pending-all es));
  }

  last?-All :
      (P : Receipt → Type 0) (es : List Receipt) {a : Receipt}
      → Sort.last? rank es ≡ some a
      → All P es
      → P a
  last?-All P [] h p = absurd (cc)
  last?-All P (x ∷ []) {a} h p = let same : x ≡ a = cc in subst P same p.0
  last?-All P (x ∷ y ∷ l) h p = last?-All P (y ∷ l) h p.1

  -- With no entry at all.
  empty-Result :
      {first next : ℕ} (w : ReceiptWriter) (listed : Bool)
      → all w.disk.index listed ≡ ok []
      → Fine first next w
      → Result first next (record w { recovered = true }, ok tt)
  empty-Result {first} {next} w listed a v = record {
    fine = record {
      at = v.at;
      store = v.store;
      not_above = v.not_above;
      core = v.core;
      fresh = λ _ k e l. absurd (nothing k e l);
      settled = λ _ k e l. absurd (nothing k e l);
    };
    recovered = λ _. refl;
  }
    where
      nothing : (k : Text) (e : Receipt) → Loads w.disk.index k e → ⊥
      nothing k e l = all-complete (λ _. ⊥) w.disk.index listed [] k e a (v.core.visible k e l) l tt

  -- The store past the highest number, and then the loop.
  moved-Result :
      {first next : ℕ} (w : ReceiptWriter) (listed : Bool) (es : List Receipt) (highest : Receipt)
      (at : Text) (s : StoreFile × Outcome StoreError (Unit {0}))
      → all w.disk.index listed ≡ ok es
      → w.disk.store ≡ next_store next at
      → next ≤ max_receipt_number
      → Loads w.disk.index highest.key highest
      → highest.number ≡ next
      → Advanced next at highest.number s
      → Fine first next w
      → (m : ℕ) × Result first m (Recover.moved outside config io es w s)
  moved-Result {first} {next} w listed es highest at s a st fits l top (refused x) v = (
    next,
    record {
      fine =
          unfold Recover.moved in
          same-Fine w _ (record { store = sym st; runs = refl; recovered = refl }) refl v;
      recovered = unfold Recover.moved in λ h. absurd (cc);
    },
  )
  moved-Result w listed es highest at s a st fits l top (passed low) v =
      absurd (omega (arith, low, top))
  moved-Result {first} {next} w listed es highest at s a st fits l top (moved eq) v =
      let w' : ReceiptWriter = record w {
        disk = record (w.disk) { store = next_store (next + 1) at };
      } in
      let below : (k : Text) (e : Receipt) → Loads w.disk.index k e → e.number < next + 1 =
        λ k e g. (let (_, high) = v.core.in_range k e g in omega (arith, high)) in
      let v' : Fine first (next + 1) w' = record {
        at = at;
        store = refl;
        not_above = omega (arith, fits);
        core = moved-Core w.disk.index highest.key highest l top v.core;
        fresh = λ _. below;
        settled = v.settled;
      } in
      (
        next + 1,
        (unfold Recover.moved in
            complete_all-Result outside config io w.disk.index es w'
              (first-Turn w' listed es a below v') v'),
      )

  past_highest-Result :
      {first next : ℕ} (w : ReceiptWriter) (listed : Bool) (es : List Receipt) (highest : Receipt)
      → all w.disk.index listed ≡ ok es
      → Sort.last? rank es ≡ some highest
      → Fine first next w
      → (m : ℕ) × Result first m (past_highest outside config io es w highest (peek w.disk.store))
  unfolding past_highest peek
  past_highest-Result {first} {next} w listed es highest a last v =
      elim (Outcome-cases (read w.disk.store)) [
        | inr (x, e) ↦ rw e (next, record { fine = v; recovered = λ h. absurd (cc) })
        | inl (m, e) ↦ rw e (offered m e)
      ]
    where
      loaded : Loads w.disk.index highest.key highest
      loaded =
          last?-All (λ h. Loads w.disk.index h.key h) es last
            (all-All _ w.disk.index listed es a (λ k h l.
              subst (λ x. Loads w.disk.index x h) (sym ((load-IsReceipt w.disk.index k h l).1)) l))

      highest_of_all : (k : Text) (e : Receipt) → Loads w.disk.index k e → e.number ≤ highest.number
      highest_of_all k e l =
          all-complete (λ x. x.number ≤ highest.number) w.disk.index listed es k e a
            (v.core.visible k e l) l
            (unfold rank in Sort.last?_highest rank es (all-Pairwise w.disk.index listed es a) last)

      offered :
          (m : ℕ)
          → read w.disk.store ≡ ok m
          → (t : ℕ) × Result first t (past_highest outside config io es w highest (ok m))
      offered m e =
          let low : 0 < next =
            (let p = v.core.seeded in let q = v.core.not_below in omega (arith, p, q)) in
          let (same, fits) =
            read-next_store next m v.at low v.not_above (ap read (sym v.store) ∙ e) in
          let (_, high) = v.core.in_range highest.key highest loaded in
          if_split (λ r. (t : ℕ) × Result first t r) (leb m highest.number)
            (λ le.
              let most = leb→le m highest.number le in
              let top : highest.number ≡ next = omega (arith, most, same, high) in
              moved-Result w listed es highest v.at _ a v.store fits loaded top
                (subst
                  (λ f.
                    Advanced next v.at highest.number
                      (advance_past f (io.moves highest.number) (pos highest.number)))
                  (sym v.store)
                  (advance_past-Advanced next v.at highest.number (io.moves highest.number) low
                    v.not_above high))
                v)
            (λ gt.
              let below : (k : Text) (h : Receipt) → Loads w.disk.index k h → h.number < next =
                λ k h l.
                  (let u = highest_of_all k h l in
                    let g = leb→lt m highest.number gt in omega (arith, u, g, same)) in
              (
                next,
                complete_all-Result outside config io w.disk.index es w
                    (first-Turn w listed es a below v) v,
              ))

  with_entries-Result :
      {first next : ℕ} (w : ReceiptWriter) (listed : Bool) (o : Outcome ReceiptError (List Receipt))
      → all w.disk.index listed ≡ o
      → Fine first next w
      → (m : ℕ) × Result first m (Recover.with_entries outside config io w o)
  unfolding Recover.with_entries
  with_entries-Result {first} {next} w listed (err x) a v =
      (next, record { fine = v; recovered = λ h. absurd (cc) })
  with_entries-Result {first} {next} w listed (ok es) a v = go (Sort.last? rank es) refl
    where
      go :
          (o : Option Receipt)
          → Sort.last? rank es ≡ o
          → (m : ℕ) × Result first m (Recover.with_highest outside config io es w o)
      go none last =
          let nil : es ≡ [] = Sort.last?-eq-none rank es last in
          unfold Recover.with_highest in (next, empty-Result w listed (a ∙ ap ok nil) v)
      go (some highest) last =
          unfold Recover.with_highest in past_highest-Result w listed es highest a last v

  -- The data lock changes nothing that the invariant speaks of.
  abbrev Locked : ReceiptWriter → Done → Type 0
  Locked w r = Kept w r.0 × (r.0.disk ≡ w.disk)

  lock_data-Locked : (w : ReceiptWriter) → Locked w (Recover.lock_data outside config io w)
  unfolding Recover.lock_data
  lock_data-Locked w =
      let same : Kept w w = record { store = refl; runs = refl; recovered = refl } in
      if_both (Locked w) w.locked (same, refl)
        (if_both (Locked w) (not io.prepares) (same, refl) (answer io.data_lock))
    where
      answer :
          (a : LockAnswer)
          → Locked w (elim a as (λ _. Done) [
            | lock_taken ↦ (record w { locked = true }, ok tt)
            | lock_in_use ↦ (w, err data_in_use)
            | lock_error ↦ (w, err data_not_locked)
          ])
      answer lock_taken = (record { store = refl; runs = refl; recovered = refl }, refl)
      answer lock_in_use = (record { store = refl; runs = refl; recovered = refl }, refl)
      answer lock_error = (record { store = refl; runs = refl; recovered = refl }, refl)

  with_lock-Result :
      {first next : ℕ} (w : ReceiptWriter) (r : Done)
      → Locked w r
      → Fine first next w
      → (m : ℕ) × Result first m (Recover.with_lock outside config io r)
  unfolding Recover.with_lock
  with_lock-Result {first} {next} w (w', err x) (k, d) v = (
    next,
    record {
      fine = same-Fine w w' k (ap (λ (x : ReceiptDisk). x.index) d) v;
      recovered = λ h. absurd (cc);
    },
  )
  with_lock-Result w (w', ok _) (k, d) v =
      with_entries-Result w' io.listed _ refl
        (same-Fine w w' k (ap (λ (x : ReceiptDisk). x.index) d) v)

  pub recover_receipts_locked-Result :
      {first next : ℕ} (w : ReceiptWriter)
      → Fine first next w
      → (m : ℕ) × Result first m (Recover.recover_receipts_locked outside config io w)
  unfolding Recover.recover_receipts_locked
  recover_receipts_locked-Result w v =
      with_lock-Result w (Recover.lock_data outside config io w) (lock_data-Locked w) v
