-- ===== src/Receipts/Writer/Gapless/Running.antt =====
-- internal/erp/hasavshevet/receipt_writer.go: what runImport does to the index and the runs.
use digi_erp_connector.Base.{
  ◌≡◌, ◌≢◌, refl, ap, ◌⊎◌, inl, inr, Bool, true, false, ◌&&◌, List, [], ◌∷◌, Outcome, ok, err,
  if_both, if_split,
}
use digi_erp_connector.Receipts.Types.{
  Receipt, ImportState, not_run, started, ran_ok, ran_failed, ReceiptError, Notice,
  start_not_recorded, index_not_saved,
}
use digi_erp_connector.Receipts.Index.{ReceiptDir, save}
use digi_erp_connector.Receipts.Index.Laws.{IsReceipt, IsSave, load-save}
use digi_erp_connector.Receipts.Writer.State.{
  ReceiptWriter, WriterConfig, ReceiptOutside, ReceiptIo, ImportRun, importer,
}
use digi_erp_connector.Receipts.Writer.Run.{
  run_import, start_run, save_run, with_run, has_not_run, has_runner,
}

-- Two entries of one receipt, the second with a run of the importer.
pub record IsRun (e f : Receipt) : Type 0 where
  pub key : f.key ≡ e.key
  pub number : f.number ≡ e.number
  pub state : f.state ≡ e.state
  pub has_run : f.import_state ≢ not_run

-- What runImport does: nothing, or a failed attempt to record the start, or the importer runs once
-- and the entry says so.
pub data Imported (w : ReceiptWriter) (e : Receipt) : ReceiptWriter → Type 0 where
  idle : Imported w e w
  ran :
      (w' : ReceiptWriter) (started_index : ReceiptDir) (e' : Receipt)
      → e.import_state ≡ not_run
      → IsRun e e'
      → IsSave w.disk.index started_index e'
      → w'.disk.store ≡ w.disk.store
      → w'.recovered ≡ w.recovered
      → w'.runs ≡ e.number ∷ w.runs
      → (w'.disk.index ≡ started_index)
        ⊎ ((f : Receipt) × IsRun e f × IsSave started_index w'.disk.index f)
      → Imported w e w'

with_run-IsRun : (e f : Receipt) (r : ImportRun) → IsRun e f → IsRun e (with_run f r)
unfolding with_run
with_run-IsRun e f r h =
    if_both (IsRun e) _
      (record { key = h.key; number = h.number; state = h.state; has_run = λ n. cc })
      (record { key = h.key; number = h.number; state = h.state; has_run = λ n. cc })

not_run_yet : (s : ImportState) → has_not_run s ≡ true → s ≡ not_run
unfolding has_not_run
not_run_yet not_run h = refl
not_run_yet started h = absurd (cc)
not_run_yet ran_ok h = absurd (cc)
not_run_yet ran_failed h = absurd (cc)

both_true : (b c : Bool) → (b && c) ≡ true → c ≡ true
both_true true c h = h
both_true false c h = absurd (cc)

module _ (outside : ReceiptOutside) (config : WriterConfig) (io : ReceiptIo) where
  -- The save of the outcome goes through or leaves the index as it is.
  outcome_saved :
      (w : ReceiptWriter) (f : Receipt)
      → IsReceipt f
      → ((save_run outside config io w f).0.disk.index ≡ w.disk.index)
        ⊎ IsSave w.disk.index (save_run outside config io w f).0.disk.index f
  unfolding save_run
  outcome_saved w f v = elim (load-save w.disk.index (io.saves f) f v) [
    | inl (_, law) ↦ inr law
    | inr refused ↦ inl (ap (λ (q : ReceiptDir × Outcome ReceiptError (Unit {0})). q.0) refused)
  ]

  start_run-Imported :
      (w : ReceiptWriter) (e : Receipt)
      → IsReceipt e
      → e.import_state ≡ not_run
      → Imported w e (start_run outside config io w e).0
  unfolding start_run
  start_run-Imported w e v unrun =
      go (save w.disk.index (io.saves e') e') (load-save w.disk.index (io.saves e') e' v')
    where
      e' : Receipt
      e' = record e { import_state = started }

      v' : IsReceipt e'
      v' = record { positive = v.positive; in_range = v.in_range }

      first_run : IsRun e e'
      first_run = record { key = refl; number = refl; state = refl; has_run = λ n. cc }

      f : Receipt
      f = with_run e' (io.import_run e.number)

      last_run : IsRun e f
      last_run = with_run-IsRun e e' (io.import_run e.number) first_run

      f-IsReceipt : IsReceipt f
      f-IsReceipt = record {
        positive = rw (last_run.number) (v.positive);
        in_range = rw (last_run.number) (v.in_range);
      }

      go :
          (p : ReceiptDir × Outcome ReceiptError (Unit {0}))
          → ((p.1 ≡ ok tt) × IsSave w.disk.index p.0 e') ⊎ (p ≡ (w.disk.index, err index_not_saved))
          → Imported w e
              (elim p.1 as (λ _. ReceiptWriter × Receipt × List Notice) [
                | err x ↦ (w, e, start_not_recorded (importer outside config) ∷ [])
                | ok _ ↦
                    save_run outside config io
                      (record w {
                        disk = record (w.disk) { index = p.0 };
                        runs = e.number ∷ w.runs;
                      })
                      f
              ]).0
      go (index, ok _) (inl (_, law)) =
          let w' : ReceiptWriter = record w {
            disk = record (w.disk) { index = index };
            runs = e.number ∷ w.runs;
          } in
          let saved : ((save_run outside config io w' f).0.disk.index ≡ index)
              ⊎ ((g : Receipt) × IsRun e g
                  × IsSave index (save_run outside config io w' f).0.disk.index g) =
            elim (outcome_saved w' f f-IsReceipt) [
              | inl same ↦ inl same
              | inr l ↦ inr (f, last_run, l)
            ] in
          ran _ index e' unrun first_run law (unfold save_run in refl) (unfold save_run in refl)
            (unfold save_run in refl) saved
      go (index, err x) (inl (h, _)) = absurd (cc)
      go (index, ok _) (inr h) =
          let clash = ap (λ (q : ReceiptDir × Outcome ReceiptError (Unit {0})). q.1) h in
          absurd (cc)
      go (index, err x) (inr h) = idle

  pub run_import-Imported :
      (w : ReceiptWriter) (e : Receipt)
      → IsReceipt e
      → Imported w e (run_import outside config io w e).0
  unfolding run_import
  run_import-Imported w e v =
      if_split (λ (r : ReceiptWriter × Receipt × List Notice). Imported w e r.0)
        (has_runner (importer outside config) && has_not_run e.import_state)
        (λ go. start_run-Imported w e v (not_run_yet e.import_state (both_true _ _ go))) (λ _. idle)
