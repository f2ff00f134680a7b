-- ===== src/Receipts/Writer/Gapless/Keeping.antt =====
-- internal/erp/hasavshevet/receipt_writer.go: the invariant of the receipt writer, and that complete and
-- runImport keep it.
use digi_erp_connector.Base.{
  arith, ℕ, ◌+◌, ◌≤◌, ◌<◌, ◌≡◌, ◌≢◌, refl, sym, ap, subst, ◌∙◌, inl, inr, Text, true, false, ◌∷◌,
  Outcome, All,
}
use digi_erp_connector.Documents.Kupain.Tables.{max_receipt_number}
use digi_erp_connector.Receipts.Number.Advance.{next_store}
use digi_erp_connector.Receipts.Types.{Receipt, written, not_run, ReceiptError}
use digi_erp_connector.Receipts.Index.Laws.{Loads, IsSave, loads_cases, loads_here}
use digi_erp_connector.Receipts.Writer.State.{ReceiptWriter}
use digi_erp_connector.Receipts.Writer.Gapless.{Core, IsSpent, IsUpdate, update-Core, run-Core}
use digi_erp_connector.Receipts.Writer.Gapless.Completing.{Kept, Completed, stayed, finished}
use digi_erp_connector.Receipts.Writer.Gapless.Running.{Imported, idle, ran, IsRun}

-- The invariant: while recovered, the store is past every entry, and every entry is written.
pub record Fine (first next : ℕ) (w : ReceiptWriter) : Type 0 where
  pub at : Text
  pub store : w.disk.store ≡ next_store next at
  pub not_above : next ≤ max_receipt_number + 1
  pub core : Core first w.disk.index next w.runs
  pub fresh :
      w.recovered ≡ true → (k : Text) (e : Receipt) → Loads w.disk.index k e → e.number < next
  pub settled :
      w.recovered ≡ true → (k : Text) (e : Receipt) → Loads w.disk.index k e → e.state ≡ written

-- A change that saves an entry of a receipt again.
pub updated-Fine :
    {first next : ℕ} (w w' : ReceiptWriter) (e old : Receipt) (v : Fine first next w)
    (law : IsSave w.disk.index w'.disk.index e)
    → IsUpdate w.disk.index w'.disk.index e law old
    → (old.state ≡ written → e.state ≡ written)
    → Kept w w'
    → Fine first next w'
updated-Fine {first} {next} w w' e old v law u keeps k = record {
  at = v.at;
  store = k.store ∙ v.store;
  not_above = v.not_above;
  core =
      subst (λ r. Core first w'.disk.index next r) (sym k.runs)
        (update-Core w.disk.index w'.disk.index e law old u v.core);
  fresh = λ r j f l.
      let r' = sym k.recovered ∙ r in
      elim (loads_cases w.disk.index w'.disk.index e j f law l) [
        | inl (here, same) ↦
            let before = v.fresh r' e.key old u.loads in
            let eq = ap (λ (x : Receipt). x.number) same ∙ u.number in omega (arith, before, eq)
        | inr (_, there) ↦ v.fresh r' j f there
      ];
  settled = λ r j f l.
      let r' = sym k.recovered ∙ r in
      elim (loads_cases w.disk.index w'.disk.index e j f law l) [
        | inl (here, same) ↦
            ap (λ (x : Receipt). x.state) same ∙ keeps (v.settled r' e.key old u.loads)
        | inr (_, there) ↦ v.settled r' j f there
      ];
}

-- Nothing that the invariant speaks of changes.
pub same-Fine :
    {first next : ℕ} (w w' : ReceiptWriter)
    → Kept w w'
    → w'.disk.index ≡ w.disk.index
    → Fine first next w
    → Fine first next w'
same-Fine w w' k i v = record {
  at = v.at;
  store = k.store ∙ v.store;
  not_above = v.not_above;
  core = rw (i, k.runs) v.core;
  fresh = λ r. rw i (v.fresh (sym k.recovered ∙ r));
  settled = λ r. rw i (v.settled (sym k.recovered ∙ r));
}

-- What is left of the invariant when the writer is no longer recovered.
pub unrecovered-Fine :
    {first next : ℕ} (w : ReceiptWriter)
    → Fine first next w
    → Fine first next (record w { recovered = false })
unrecovered-Fine w v = record {
  at = v.at;
  store = v.store;
  not_above = v.not_above;
  core = v.core;
  fresh = λ r. absurd (cc);
  settled = λ r. absurd (cc);
}

-- One call of complete on an entry that stands for the one on disk: the same receipt, and neither was
-- imported.
pub complete-Fine :
    {first next : ℕ} (w : ReceiptWriter) (e old : Receipt)
    (r : ReceiptWriter × Outcome ReceiptError Receipt)
    → Loads w.disk.index e.key old
    → e.number ≡ old.number
    → old.import_state ≡ not_run
    → Completed w e r
    → Fine first next w
    → Fine first next r.0
complete-Fine w e old r l number unrun (stayed w' x k i) v = same-Fine w w' k i v
complete-Fine w e old r l number unrun (finished w' e' k law (key, same, run, st)) v =
    updated-Fine w w' e' old v law
      (record {
        loads = rw key l;
        number = same ∙ number;
        keeps_run = λ h. absurd (h unrun);
        unrun = λ h. cc;
      })
      (λ _. st) k

-- An entry of the receipt `e`, which is written and on disk, is saved with a run of the importer.
run_saved-Fine :
    {first next : ℕ} (w w' : ReceiptWriter) (e f old : Receipt)
    → IsRun e f
    → e.state ≡ written
    → IsSave w.disk.index w'.disk.index f
    → Loads w.disk.index e.key old
    → old.number ≡ e.number
    → Kept w w'
    → Fine first next w
    → Fine first next w'
run_saved-Fine w w' e f old r st law l number k v =
    updated-Fine w w' f old v law
      (record {
        loads = rw (r.key) l;
        number = r.number ∙ sym number;
        keeps_run = λ _. r.has_run;
        unrun = λ h. let clash = sym h ∙ r.state ∙ st in absurd (cc);
      })
      (λ _. r.state ∙ st) k

-- The importer was started for the receipt of an entry on disk that says so.
started-Fine :
    {first next : ℕ} (w : ReceiptWriter) (n : ℕ)
    → IsSpent w.disk.index n
    → All (λ m. n ≢ m) w.runs
    → Fine first next w
    → Fine first next (record w { runs = n ∷ w.runs })
started-Fine w n s others v = record {
  at = v.at;
  store = v.store;
  not_above = v.not_above;
  core = record {
    seeded = v.core.seeded;
    not_below = v.core.not_below;
    held = v.core.held;
    in_range = v.core.in_range;
    unique = v.core.unique;
    visible = v.core.visible;
    unrun = v.core.unrun;
    spent = (s, v.core.spent);
    once = (others, v.core.once);
  };
  fresh = v.fresh;
  settled = v.settled;
}

pub import-Fine :
    {first next : ℕ} (w w' : ReceiptWriter) (e : Receipt)
    → Loads w.disk.index e.key e
    → e.state ≡ written
    → Imported w e w'
    → Fine first next w
    → Fine first next w'
import-Fine w w' e l st idle v = v
import-Fine {first} {next} w w' e l st (ran u index e' unrun r law store recovered runs after) v =
    elim after [
      | inl same ↦
          same-Fine w₂ w' (record { store = store; runs = runs; recovered = recovered }) same v₂
      | inr (f, g, law') ↦
          run_saved-Fine w₂ w' e f e' g st law' (subst (λ k. Loads index k e') r.key here) r.number
            (record { store = store; runs = runs; recovered = recovered }) v₂
    ]
  where
    w₁ : ReceiptWriter
    w₁ = record w { disk = record (w.disk) { index = index } }

    v₁ : Fine first next w₁
    v₁ =
        run_saved-Fine w w₁ e e' e r st law l refl
          (record { store = refl; runs = refl; recovered = refl }) v

    here : Loads index e'.key e'
    here = loads_here w.disk.index index e' law

    w₂ : ReceiptWriter
    w₂ = record w₁ { runs = e.number ∷ w.runs }

    v₂ : Fine first next w₂
    v₂ =
        started-Fine w₁ e.number
          (record {
            key = e'.key;
            entry = e';
            loads = here;
            number = r.number;
            has_run = r.has_run;
          })
          (run-Core w.disk.index e.key e l unrun v.core) v₁
