-- ===== src/Receipts/Writer/Safety.antt =====
-- internal/erp/hasavshevet/receipt_writer.go: runs of the receipt writer and its restarts, from a store
-- that was seeded and an empty index.
use digi_erp_connector.Base.{
  ℕ, ◌≤◌, ◌<◌, ◌≡◌, ◌≢◌, refl, arith, Text, true, false, [], All, Pairwise, if_both,
}
use digi_erp_connector.Base.Dict
use digi_erp_connector.Documents.Kupain.Tables.{max_receipt_number}
use digi_erp_connector.Receipts.Number.Advance.{next_store}
use digi_erp_connector.Receipts.Types.{Receipt, written}
use digi_erp_connector.Receipts.Index.{load}
use digi_erp_connector.Receipts.Index.Laws.{Loads}
use digi_erp_connector.Receipts.Writer.State.{
  ReceiptWriter, WriterConfig, ReceiptOutside, new_receipt_writer,
}
use digi_erp_connector.Receipts.Writer.Recover.{Done, recover_receipts, close}
use digi_erp_connector.Receipts.Writer.Steps.{
  ReceiptStep, writes, recovers, closes, restarts, ReceiptReach, at_start, later, seeded_writer,
}
use digi_erp_connector.Receipts.Writer.Gapless.{IsHeld, IsSpent}
use digi_erp_connector.Receipts.Writer.Gapless.Keeping.{Fine, same-Fine, unrecovered-Fine}
use digi_erp_connector.Receipts.Writer.Gapless.Recovering.{recover_receipts_locked-Result}
use digi_erp_connector.Receipts.Writer.Gapless.Writing.{write_receipt-Fine}

nothing_loads : (k : Text) (e : Receipt) → Loads [] k e → ⊥
unfolding load Dict.lookup
nothing_loads k e l = absurd (cc)

seeded-Fine :
    (first : ℕ) (at : Text)
    → 0 < first
    → first ≤ max_receipt_number
    → Fine first first (seeded_writer first at)
unfolding new_receipt_writer
seeded-Fine first at low high = record {
  at = at;
  store = refl;
  not_above = omega (arith, high);
  core = record {
    seeded = low;
    not_below = omega arith;
    held = λ m a b. absurd (omega (arith, a, b));
    in_range = λ k e l. absurd (nothing_loads k e l);
    unique = λ k j e f l g s. absurd (nothing_loads k e l);
    visible = λ k e l. absurd (nothing_loads k e l);
    unrun = λ k e l. absurd (nothing_loads k e l);
    spent = tt;
    once = tt;
  };
  fresh = λ r. absurd (cc);
  settled = λ r. absurd (cc);
}

module _ (outside : ReceiptOutside) (config : WriterConfig) where
  Step-Fine :
      {first next : ℕ} {w u : ReceiptWriter}
      → ReceiptStep outside config w u
      → Fine first next w
      → (m : ℕ) × Fine first m u
  Step-Fine {w} (writes io req) v = write_receipt-Fine outside config io w req v
  Step-Fine {first} {next} {w} (recovers io) v =
      unfold recover_receipts in
      if_both (λ (r : Done). (m : ℕ) × Fine first m r.0) io.import_lock
        (let (m, r) = recover_receipts_locked-Result outside config io w v in (m, r.fine)) (next, v)
  Step-Fine {first} {next} {w} (closes io) v =
      unfold close in
      if_both (λ (r : Done). (m : ℕ) × Fine first m r.0) io.import_lock
        (
          next,
          unrecovered-Fine (record w { locked = false })
              (same-Fine w (record w { locked = false })
                (record { store = refl; runs = refl; recovered = refl }) refl v),
        )
        (next, v)
  Step-Fine {first} {next} {w} (restarts files folders) v =
      unfold new_receipt_writer in
      (
        next,
        record {
          at = v.at;
          store = v.store;
          not_above = v.not_above;
          core = v.core;
          fresh = λ r. absurd (cc);
          settled = λ r. absurd (cc);
        },
      )

  Reach-Fine :
      {first next : ℕ} {w u : ReceiptWriter}
      → ReceiptReach outside config w u
      → Fine first next w
      → (m : ℕ) × Fine first m u
  Reach-Fine {next} at_start v = (next, v)
  Reach-Fine (later r s) v = let (m, u) = Reach-Fine r v in Step-Fine s u

  -- In every run of the receipt writer and its restarts from a store seeded with a number in range
  -- and an empty index, the store offers a next number such that every number from the seed up to
  -- it is held by an index entry, no entry holds a number outside of the seed and that next
  -- number, and no two keys hold one number.
  pub numbers_gapless :
      (first : ℕ) (at : Text) (w : ReceiptWriter)
      → 0 < first
      → first ≤ max_receipt_number
      → ReceiptReach outside config (seeded_writer first at) w
      → (next : ℕ) × ((at' : Text) × (w.disk.store ≡ next_store next at'))
        × ((m : ℕ) → first ≤ m → m < next → IsHeld w.disk.index m)
        × ((k : Text) (e : Receipt)
            → Loads w.disk.index k e
            → (first ≤ e.number) × (e.number ≤ next))
        × ((k j : Text) (e f : Receipt)
            → Loads w.disk.index k e
            → Loads w.disk.index j f
            → e.number ≡ f.number
            → k ≡ j)
  numbers_gapless first at w low high r =
      let (next, v) = Reach-Fine r (seeded-Fine first at low high) in
      (next, (v.at, v.store), v.core.held, v.core.in_range, v.core.unique)

  -- In every run of the receipt writer and its restarts from a store seeded with a number in range
  -- and an empty index, the importer is started at most once for each receipt, and each receipt
  -- that it was started for has an entry that says so.
  pub imported_once :
      (first : ℕ) (at : Text) (w : ReceiptWriter)
      → 0 < first
      → first ≤ max_receipt_number
      → ReceiptReach outside config (seeded_writer first at) w
      → Pairwise (λ (m n : ℕ). m ≢ n) w.runs × All (IsSpent w.disk.index) w.runs
  imported_once first at w low high r =
      let (_, v) = Reach-Fine r (seeded-Fine first at low high) in (v.core.once, v.core.spent)

  -- In every run of the receipt writer and its restarts from a store seeded with a number in range
  -- and an empty index, while the writer is recovered every entry that can be read is written: a
  -- reserved number is finished before a new one is issued.
  pub recovered_written :
      (first : ℕ) (at : Text) (w : ReceiptWriter)
      → 0 < first
      → first ≤ max_receipt_number
      → ReceiptReach outside config (seeded_writer first at) w
      → w.recovered ≡ true
      → (k : Text) (e : Receipt) → Loads w.disk.index k e
      → e.state ≡ written
  recovered_written first at w low high r rec =
      let (_, v) = Reach-Fine r (seeded-Fine first at low high) in v.settled rec
