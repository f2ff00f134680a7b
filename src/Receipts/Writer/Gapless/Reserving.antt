-- ===== src/Receipts/Writer/Gapless/Reserving.antt =====
-- internal/erp/hasavshevet/receipt_writer.go: a first receipt, from its entry to the importer, keeps the invariant.
use digi_erp_connector.Base.{
  arith, ℕ, ◌+◌, ◌≤◌, ◌<◌, ◌≡◌, refl, sym, ap, subst, ◌∙◌, ◌⊎◌, inl, inr, Text, codes, text_eq,
  text_eq_refl, Bool, true, false, none, List, [], Outcome, ok, err, has_prefix,
}
use digi_erp_connector.Base.Int.{pos}
use digi_erp_connector.Documents.Kupain.{ReceiptRequest}
use digi_erp_connector.Documents.Kupain.Tables.{max_receipt_number}
use digi_erp_connector.Receipts.Number.{StoreFile, StoreError, advance_past}
use digi_erp_connector.Receipts.Number.Advance.{
  next_store, Advanced, refused, passed, moved, advance_past-Advanced,
}
use digi_erp_connector.Receipts.Types.{
  Receipt, written, not_run, ReceiptError, index_not_saved, Notice,
}
use digi_erp_connector.Receipts.Index.{ReceiptDir, load, save, path}
use digi_erp_connector.Receipts.Index.Laws.{
  Loads, IsSave, loads_cases, loads_here, load-IsReceipt, load-save,
}
use digi_erp_connector.Receipts.Writer.State.{
  ReceiptWriter, WriterConfig, ReceiptOutside, ReceiptIo,
}
use digi_erp_connector.Receipts.Writer.Complete.{complete}
use digi_erp_connector.Receipts.Writer.Write
use digi_erp_connector.Receipts.Writer.Gapless.{moved-Core, new-Core}
use digi_erp_connector.Receipts.Writer.Gapless.Completing.{
  Completed, stayed, finished, complete-Completed,
}
use digi_erp_connector.Receipts.Writer.Gapless.Running.{run_import-Imported}
use digi_erp_connector.Receipts.Writer.Gapless.Keeping.{Fine, same-Fine, complete-Fine, import-Fine}

-- The writer, not recovered.
abbrev forget : ReceiptWriter → ReceiptWriter
forget w = record w { recovered = false }

forget-Completed :
    (w : ReceiptWriter) (e : Receipt) (r : ReceiptWriter × Outcome ReceiptError Receipt)
    → Completed w e r
    → Completed (forget w) e (forget r.0, r.1)
forget-Completed w e r (stayed w' x k i) =
    stayed (forget w') x (record { store = k.store; runs = k.runs; recovered = refl }) i
forget-Completed w e r (finished w' e' k law same) =
    finished (forget w') e' (record { store = k.store; runs = k.runs; recovered = refl }) law same

module _ (outside : ReceiptOutside) (config : WriterConfig) (io : ReceiptIo) where
  -- The invariant after a call, at some next number.
  abbrev Fine? : ℕ → Write.Reply outside config io → Type 0
  Fine? first r = (m : ℕ) × Fine first m r.0

  with_import-Fine :
      {first next : ℕ} (replayed : Bool) (notes : List Notice) (w : ReceiptWriter) (e : Receipt)
      → Loads w.disk.index e.key e
      → e.state ≡ written
      → Fine first next w
      → Fine first next (Write.with_import outside config io replayed notes w e).0
  unfolding Write.with_import
  with_import-Fine replayed notes w e l st v =
      import-Fine w _ e l st
        (run_import-Imported outside config io w e ((load-IsReceipt w.disk.index e.key e l).0)) v

  -- The files of a first receipt, its entry being the only one that is not written: `w` is the writer
  -- after the store moved.
  first-Fine :
      {first next : ℕ} (w : ReceiptWriter) (e : Receipt)
      (r : ReceiptWriter × Outcome ReceiptError Receipt)
      → Loads w.disk.index e.key e
      → e.import_state ≡ not_run
      → ((k : Text) (f : Receipt) → Loads w.disk.index k f → f.number < next)
      → ((k : Text) (f : Receipt)
          → text_eq e.key k ≡ false
          → Loads w.disk.index k f
          → f.state ≡ written)
      → Completed w e r
      → Fine first next (forget w)
      → Fine first next
          (Write.unrecovered outside config io (Write.finished outside config io false [] r)).0
  unfolding Write.finished Write.unrecovered
  first-Fine w e r l unrun below others (stayed w' x k i) v =
      complete-Fine (forget w) e e (forget w', err x) l refl unrun
        (forget-Completed w e (w', err x) (stayed w' x k i)) v
  first-Fine {first} {next} w e r l unrun below others (finished w' e' k law (key, number, run, st))
        v =
      with_import-Fine false [] w' e' here st (record {
        at = v'.at;
        store = v'.store;
        not_above = v'.not_above;
        core = v'.core;
        fresh = λ _ j f g. elim (loads_cases w.disk.index w'.disk.index e' j f law g) [
          | inl (_, same) ↦
              let low = below e.key e l in
              let eq = ap (λ (x : Receipt). x.number) same ∙ number in omega (arith, low, eq)
          | inr (_, there) ↦ below j f there
        ];
        settled = λ _ j f g. elim (loads_cases w.disk.index w'.disk.index e' j f law g) [
          | inl (_, same) ↦ ap (λ (x : Receipt). x.state) same ∙ st
          | inr (differ, there) ↦ others j f (subst (λ t. text_eq t j ≡ false) key differ) there
        ];
      })
    where
      v' : Fine first next (forget w')
      v' =
          complete-Fine (forget w) e e (forget w', ok e') l refl unrun
            (forget-Completed w e (w', ok e') (finished w' e' k law (key, number, run, st))) v

      here : Loads w'.disk.index e'.key e'
      here = loads_here w.disk.index w'.disk.index e' law

  -- The store moves past the new receipt's number, or not.
  moved_on-Fine :
      {first next : ℕ} (w : ReceiptWriter) (e : Receipt) (at : Text)
      (s : StoreFile × Outcome StoreError (Unit {0}))
      → Advanced next at next s
      → w.disk.store ≡ next_store next at
      → next ≤ max_receipt_number
      → Loads w.disk.index e.key e
      → e.number ≡ next
      → e.import_state ≡ not_run
      → ((k : Text) (f : Receipt)
          → text_eq e.key k ≡ false
          → Loads w.disk.index k f
          → f.state ≡ written)
      → Fine first next (forget w)
      → Fine? first (Write.moved_on outside config io w e s)
  unfolding Write.moved_on
  moved_on-Fine {first} {next} w e at s (refused x) st fits l number unrun others v = (
    next,
    same-Fine (forget w) _ (record { store = sym st; runs = refl; recovered = refl }) refl v,
  )
  moved_on-Fine w e at s (passed low) st fits l number unrun others v = absurd (omega (arith, low))
  moved_on-Fine {first} {next} w e at s (moved _) st fits l number unrun others v =
      let w' : ReceiptWriter = record w {
        disk = record (w.disk) { store = next_store (next + 1) at };
      } in
      let below : (k : Text) (f : Receipt) → Loads w.disk.index k f → f.number < next + 1 =
        λ k f g. (let (_, high) = v.core.in_range k f g in omega (arith, high)) in
      let v' : Fine first (next + 1) (forget w') = record {
        at = at;
        store = refl;
        not_above = omega (arith, fits);
        core = moved-Core w.disk.index e.key e l number v.core;
        fresh = λ _. below;
        settled = λ r. absurd (cc);
      } in
      (
        next + 1,
        first-Fine w' e (complete outside config io w' e []) l unrun below others
            (complete-Completed outside config io w' e []
              ((load-IsReceipt w.disk.index e.key e l).0))
            v',
      )

  -- A new entry is saved, or nothing happens.
  pub reserve_receipt-Fine :
      {first next : ℕ} (w : ReceiptWriter) (key : Text) (req : ReceiptRequest)
      → load w.disk.index key ≡ ok none
      → has_prefix (path key) (codes ".") ≡ false
      → 0 < next
      → next ≤ max_receipt_number
      → w.recovered ≡ true
      → Fine first next w
      → Fine? first (Write.reserve_receipt outside config io w key req next)
  unfolding Write.reserve_receipt
  reserve_receipt-Fine {first} {next} w key req nothing visible low fits rec v =
      go (save w.disk.index (io.saves e) e)
        (load-save w.disk.index (io.saves e) e (record { positive = low; in_range = fits }))
    where
      e : Receipt
      e = Write.new_receipt outside config io key req next

      go :
          (p : ReceiptDir × Outcome ReceiptError (Unit {0}))
          → ((p.1 ≡ ok tt) × IsSave w.disk.index p.0 e) ⊎ (p ≡ (w.disk.index, err index_not_saved))
          → Fine? first (elim p.1 as (λ _. Write.Reply outside config io) [
            | err x ↦ (record w { disk = record (w.disk) { index = p.0 } }, err x)
            | ok _ ↦
                Write.moved_on outside config io
                  (record w { disk = record (w.disk) { index = p.0 } })
                  e
                  (advance_past w.disk.store (io.moves next) (pos next))
          ])
      go (index, ok _) (inl (_, law)) =
          let w' : ReceiptWriter = record w { disk = record (w.disk) { index = index } } in
          let v' : Fine first next (forget w') = record {
            at = v.at;
            store = v.store;
            not_above = v.not_above;
            core = new-Core w.disk.index index e law nothing refl visible refl (v.fresh rec) v.core;
            fresh = λ r. absurd (cc);
            settled = λ r. absurd (cc);
          } in
          moved_on-Fine w' e v.at _
            (subst (λ f. Advanced next v.at next (advance_past f (io.moves next) (pos next)))
              (sym v.store)
              (advance_past-Advanced next v.at next (io.moves next) low v.not_above (omega arith)))
            v.store fits (loads_here w.disk.index index e law) refl refl
            (λ k f differ l. elim (loads_cases w.disk.index index e k f law l) [
              | inl (here, _) ↦
                  let clash : text_eq e.key k ≡ true =
                    subst (λ x. text_eq e.key x ≡ true) here (text_eq_refl e.key) in
                  absurd (cc (clash, differ))
              | inr (_, there) ↦ v.settled rec k f there
            ])
            v'
      go (index, err x) (inl (h, _)) = absurd (cc)
      go (index, ok _) (inr h) =
          let clash = ap (λ (q : ReceiptDir × Outcome ReceiptError (Unit {0})). q.1) h in
          absurd (cc)
      go (index, err x) (inr h) = (
        next,
        same-Fine w _ (record { store = refl; runs = refl; recovered = refl })
            (ap (λ (q : ReceiptDir × Outcome ReceiptError (Unit {0})). q.0) h) v,
      )
