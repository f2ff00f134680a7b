-- ===== src/Receipts/Writer/Gapless/Writing.antt =====
-- internal/erp/hasavshevet/receipt_writer.go: a call of Write keeps the invariant.
use digi_erp_connector.Base.{
  arith, ℕ, ◌<◌, ◌≡◌, refl, sym, ap, subst, ◌∙◌, inl, inr, Text, codes, true, false, Option, none,
  some, List, Outcome, ok, err, has_prefix, if_both, if_split, if◌then◌else◌, Outcome-cases,
}
use digi_erp_connector.Base.Int.{pos}
use digi_erp_connector.Documents.Layout.{Bytes}
use digi_erp_connector.Documents.Kupain.{ReceiptRequest, WriteError, build_kupain_record}
use digi_erp_connector.Documents.Kupain.CardNames.{Warning}
use digi_erp_connector.Receipts.Number.{read, peek}
use digi_erp_connector.Receipts.Number.Advance.{read-next_store}
use digi_erp_connector.Receipts.Types.{
  Receipt, ReceiptState, reserved, written, ReceiptError, Notice,
}
use digi_erp_connector.Receipts.Index.{load, path}
use digi_erp_connector.Receipts.Index.Key.{canonical_receipt_key}
use digi_erp_connector.Receipts.Index.Key.Laws.{canonical-again}
use digi_erp_connector.Receipts.Writer.State.{
  ReceiptWriter, WriterConfig, ReceiptOutside, ReceiptIo, FolderStat, absent, present, unclear,
}
use digi_erp_connector.Receipts.Writer.Recover.{Done, recover_receipts_locked}
use digi_erp_connector.Receipts.Writer.Write
use digi_erp_connector.Receipts.Writer.Gapless.Keeping.{Fine}
use digi_erp_connector.Receipts.Writer.Gapless.Recovering.{Result, recover_receipts_locked-Result}
use digi_erp_connector.Receipts.Writer.Gapless.Reserving.{reserve_receipt-Fine}

module _ (outside : ReceiptOutside) (config : WriterConfig) (io : ReceiptIo) where
  abbrev Fine? : ℕ → Write.Reply outside config io → Type 0
  Fine? first r = (m : ℕ) × Fine first m r.0

  numbered-Fine :
      {first next : ℕ} (w : ReceiptWriter) (key : Text) (req : ReceiptRequest)
      → load w.disk.index key ≡ ok none
      → has_prefix (path key) (codes ".") ≡ false
      → w.recovered ≡ true
      → Fine first next w
      → Fine? first (Write.numbered outside config io w key req (peek w.disk.store))
  unfolding Write.numbered peek
  numbered-Fine {first} {next} w key req nothing visible rec v =
      elim (Outcome-cases (read w.disk.store)) [
        | inr (x, e) ↦ rw e (next, v)
        | inl (n, e) ↦ rw e (folder n e (w.disk.folders n))
      ]
    where
      low : 0 < next
      low = let p = v.core.seeded in let q = v.core.not_below in omega (arith, p, q)

      folder :
          (n : ℕ)
          → read w.disk.store ≡ ok n
          → (f : FolderStat) → Fine? first (Write.checked_folder outside config io w key req n f)
      folder n e present = unfold Write.checked_folder in (next, v)
      folder n e unclear = unfold Write.checked_folder in (next, v)
      folder n e absent =
          let (same, fits) =
            read-next_store next n v.at low v.not_above (ap read (sym v.store) ∙ e) in
          unfold Write.checked_folder in
          subst (λ k. Fine? first (Write.reserve_receipt outside config io w key req k)) (sym same)
            (reserve_receipt-Fine outside config io w key req nothing visible low fits rec v)

  answer_state-Fine :
      {first next : ℕ} (w : ReceiptWriter) (e : Receipt) (notes : List Notice) (st : ReceiptState)
      → st ≡ written
      → Fine first next w
      → Fine? first (Write.answer_state outside config io w e notes st)
  unfolding Write.answer_state
  answer_state-Fine w e notes reserved st v = absurd (cc)
  answer_state-Fine {first} {next} w e notes written st v = (next, v)

  answer_loaded-Fine :
      {first next : ℕ} (w : ReceiptWriter) (key : Text) (req : ReceiptRequest)
      (o : Outcome ReceiptError (Option Receipt))
      → load w.disk.index key ≡ o
      → has_prefix (path key) (codes ".") ≡ false
      → w.recovered ≡ true
      → Fine first next w
      → Fine? first (Write.answer_loaded outside config io w key req o)
  unfolding Write.answer_loaded
  answer_loaded-Fine {first} {next} w key req (err x) l visible rec v = (next, v)
  answer_loaded-Fine w key req (ok none) l visible rec v = numbered-Fine w key req l visible rec v
  answer_loaded-Fine w key req (ok (some e)) l visible rec v =
      unfold Write.answer_repeat in answer_state-Fine w e _ e.state (v.settled rec key e l) v

  after_recovery-Fine :
      {first next : ℕ} (key : Text) (req : ReceiptRequest) (r : Done)
      → has_prefix (path key) (codes ".") ≡ false
      → Result first next r
      → Fine? first (Write.after_recovery outside config io key req r)
  unfolding Write.after_recovery
  after_recovery-Fine {first} {next} key req (w, err x) visible v = (next, v.fine)
  after_recovery-Fine key req (w, ok _) visible v =
      answer_loaded-Fine w key req (load w.disk.index key) refl visible (v.recovered refl) v.fine

  write_locked-Fine :
      {first next : ℕ} (w : ReceiptWriter) (key : Text) (req : ReceiptRequest)
      → has_prefix (path key) (codes ".") ≡ false
      → Fine first next w
      → Fine? first (Write.write_locked outside config io w key req)
  unfolding Write.write_locked
  write_locked-Fine {first} {next} w key req visible v =
      let (m, r) = recovery in after_recovery-Fine key req _ visible r
    where
      recovery :
          (m : ℕ) × Result first m
            (if w.recovered then (w, ok tt) else recover_receipts_locked outside config io w)
      recovery =
          if_split (λ r. (m : ℕ) × Result first m r) w.recovered
            (λ rec. (next, record { fine = v; recovered = λ _. rec }))
            (λ _. recover_receipts_locked-Result outside config io w v)

  pub write_receipt-Fine :
      {first next : ℕ} (w : ReceiptWriter) (req : ReceiptRequest)
      → Fine first next w
      → Fine? first (Write.write_receipt outside config io w req)
  unfolding Write.write_receipt
  write_receipt-Fine {first} {next} w req v = keyed (canonical_receipt_key req.idempotency_key) refl
    where
      keyed :
          (o : Option Text)
          → canonical_receipt_key req.idempotency_key ≡ o
          → Fine? first (Write.with_key outside config io w req o)
      keyed none h = unfold Write.with_key in (next, v)
      keyed (some key) h =
          unfold Write.with_key in
          built (build_kupain_record outside.unicode req (pos 1) config.card_names)
        where
          visible : has_prefix (path key) (codes ".") ≡ false
          visible = (canonical-again req.idempotency_key key h).1

          built :
              (o : Outcome WriteError (Bytes × List Warning))
              → Fine? first (Write.locked_after outside config io w key req o)
          built (err x) = unfold Write.locked_after in (next, v)
          built (ok _) =
              unfold Write.locked_after in
              if_both (Fine? first) io.import_lock (write_locked-Fine w key req visible v) (next, v)
