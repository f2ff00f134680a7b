-- ===== src/Receipts/Writer/Write.antt =====
-- internal/erp/hasavshevet/receipt_writer.go: Write and its answer.
use digi_erp_connector.Base.{
  ℕ, ◌++◌, Text, text_eq, Bool, true, false, ◌&&◌, Option, none, some, List, [], ◌∷◌, if◌then◌else◌,
  ◌==◌, Outcome, ok, err,
}
use digi_erp_connector.Base.Int.{ℤ, pos, negsuc}
use digi_erp_connector.Documents.Layout.{Bytes}
use digi_erp_connector.Documents.Kupain.{ReceiptRequest, WriteError, build_kupain_record}
use digi_erp_connector.Documents.Kupain.CardNames.{Warning}
use digi_erp_connector.Receipts.Number.{StoreFile, StoreError, peek, advance_past}
use digi_erp_connector.Receipts.Types.{
  Receipt, ReceiptState, reserved, written, ImportState, not_run, Notice, first_one_differs,
  ReceiptError, bad_key, refused, import_lock_not_taken, store_failed, number_issued_before,
  history_not_checked,
}
use digi_erp_connector.Receipts.Index.{load, save}
use digi_erp_connector.Receipts.Index.Key.{canonical_receipt_key}
use digi_erp_connector.Receipts.Writer.State.{
  ReceiptWriter, WriterConfig, ReceiptOutside, ReceiptIo, FolderStat, absent, present, unclear,
}
use digi_erp_connector.Receipts.Writer.Complete.{complete}
use digi_erp_connector.Receipts.Writer.Run.{run_import}
use digi_erp_connector.Receipts.Writer.Recover.{recover_receipts_locked, Done}

pub record ReceiptResult : Type 0 where
  pub receipt_number : ℕ
  pub idempotency_key : Text
  pub import_state : ImportState
  pub warnings : List Notice
  pub files : List Text
  pub replayed : Bool

int_eq : ℤ → ℤ → Bool
int_eq (pos m) (pos n) = m == n
int_eq (negsuc m) (negsuc n) = m == n
int_eq _ _ = false

-- sameReceiptRequest: every field but the key.
unfoldable pub same_receipt_request : ReceiptRequest → ReceiptRequest → Bool
unfolding int_eq
same_receipt_request a b =
    text_eq a.account_key b.account_key
    && text_eq a.settled_date b.settled_date
    && int_eq a.amount_minor b.amount_minor
    && int_eq a.installments b.installments
    && text_eq a.card_issuer b.card_issuer
    && text_eq a.card_brand b.card_brand
    && text_eq a.last4 b.last4
    && text_eq a.confirmation_code b.confirmation_code
    && text_eq a.provider_uid b.provider_uid
    && text_eq a.remarks b.remarks
    && text_eq a.agent_key b.agent_key
    && text_eq a.name b.name
    && text_eq a.address b.address
    && text_eq a.phone b.phone
    && text_eq a.email b.email

-- result
unfoldable pub result : Receipt → Bool → List Notice → ReceiptResult
result e replayed notes = record {
  receipt_number = e.number;
  idempotency_key = e.key;
  import_state = e.import_state;
  warnings = e.warnings ++ notes;
  files = e.files;
  replayed = replayed;
}

module _ (outside : ReceiptOutside) (config : WriterConfig) (io : ReceiptIo) where
  abbrev pub Reply : Type 0
  Reply = ReceiptWriter × Outcome ReceiptError ReceiptResult

  -- The importer after the files, and the answer.
  unfoldable pub with_import : Bool → List Notice → ReceiptWriter → Receipt → Reply
  unfolding result
  with_import replayed notes w e =
      let (w', e', more) = run_import outside config io w e in
      (w', ok (result e' replayed (notes ++ more)))

  unfoldable pub finished :
      Bool → List Notice → ReceiptWriter × Outcome ReceiptError Receipt → Reply
  unfolding with_import
  finished replayed notes (w, err x) = (w, err x)
  finished replayed notes (w, ok e) = with_import replayed notes w e

  unfoldable pub repeat_notes : Receipt → ReceiptRequest → List Notice
  repeat_notes e req =
      if same_receipt_request e.request req then [] else first_one_differs e.key e.number ∷ []

  -- A key that was seen before: a receipt that is only reserved is completed first.
  unfoldable pub answer_state : ReceiptWriter → Receipt → List Notice → ReceiptState → Reply
  unfolding finished result
  answer_state w e notes reserved = finished true notes (complete outside config io w e [])
  answer_state w e notes written = (w, ok (result e true notes))

  unfoldable pub answer_repeat : ReceiptWriter → Receipt → ReceiptRequest → Reply
  unfolding answer_state repeat_notes
  answer_repeat w e req = answer_state w e (repeat_notes e req) e.state

  abbrev pub new_receipt : Text → ReceiptRequest → ℕ → Receipt
  new_receipt key req n = record {
    key = key;
    number = n;
    state = reserved;
    request = req;
    files = [];
    import_state = not_run;
    import_detail = [];
    warnings = [];
    reserved_at = io.reserved_now;
    written_at = [];
  }

  -- A first receipt whose files cannot be put in place stays reserved, and the next call recovers.
  unfoldable pub unrecovered : Reply → Reply
  unrecovered (w, ok r) = (w, ok r)
  unrecovered (w, err x) = (record w { recovered = false }, err x)

  unfoldable pub moved_on :
      ReceiptWriter → Receipt → StoreFile × Outcome StoreError (Unit {0}) → Reply
  unfolding unrecovered finished
  moved_on w e (store_after, err x) = (
    record w { disk = record (w.disk) { store = store_after }; recovered = false },
    err (store_failed x),
  )
  moved_on w e (store_after, ok _) = unrecovered (
      finished false [] (
        complete outside config io (record w { disk = record (w.disk) { store = store_after } }) e
          []))

  -- Receipt n for the key: its entry, then the store, then the files.
  unfoldable pub reserve_receipt : ReceiptWriter → Text → ReceiptRequest → ℕ → Reply
  unfolding moved_on
  reserve_receipt w key req n =
      let e = new_receipt key req n in
      let (index, saved) = save w.disk.index (io.saves e) e in
      let w' = record w { disk = record (w.disk) { index = index } } in
      elim saved [
        | err x ↦ (w', err x)
        | ok _ ↦ moved_on w' e (advance_past w.disk.store (io.moves n) (pos n))
      ]

  unfoldable pub checked_folder : ReceiptWriter → Text → ReceiptRequest → ℕ → FolderStat → Reply
  unfolding reserve_receipt
  checked_folder w key req n present = (w, err (number_issued_before n))
  checked_folder w key req n unclear = (w, err (history_not_checked n))
  checked_folder w key req n absent = reserve_receipt w key req n

  unfoldable pub numbered : ReceiptWriter → Text → ReceiptRequest → Outcome StoreError ℕ → Reply
  unfolding checked_folder
  numbered w key req (err x) = (w, err (store_failed x))
  numbered w key req (ok n) = checked_folder w key req n (w.disk.folders n)

  unfoldable pub answer_loaded :
      ReceiptWriter → Text → ReceiptRequest → Outcome ReceiptError (Option Receipt) → Reply
  unfolding answer_repeat numbered
  answer_loaded w key req (err x) = (w, err x)
  answer_loaded w key req (ok (some e)) = answer_repeat w e req
  answer_loaded w key req (ok none) = numbered w key req (peek w.disk.store)

  unfoldable pub after_recovery : Text → ReceiptRequest → Done → Reply
  unfolding answer_loaded
  after_recovery key req (w, err x) = (w, err x)
  after_recovery key req (w, ok _) = answer_loaded w key req (load w.disk.index key)

  -- Under the import lock.
  unfoldable pub write_locked : ReceiptWriter → Text → ReceiptRequest → Reply
  unfolding after_recovery
  write_locked w key req =
      after_recovery key req
        (if w.recovered then (w, ok tt) else recover_receipts_locked outside config io w)

  unfoldable pub locked_after :
      ReceiptWriter → Text → ReceiptRequest → Outcome WriteError (Bytes × List Warning) → Reply
  unfolding write_locked
  locked_after w key req (err x) = (w, err (refused x))
  locked_after w key req (ok _) =
      if io.import_lock then write_locked w key req else (w, err import_lock_not_taken)

  unfoldable pub with_key : ReceiptWriter → ReceiptRequest → Option Text → Reply
  unfolding locked_after
  with_key w req none = (w, err bad_key)
  with_key w req (some key) =
      locked_after w key req (build_kupain_record outside.unicode req (pos 1) config.card_names)

  -- Write
  unfoldable pub write_receipt : ReceiptWriter → ReceiptRequest → Reply
  unfolding with_key canonical_receipt_key
  write_receipt w req = with_key w req (canonical_receipt_key req.idempotency_key)
