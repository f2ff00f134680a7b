-- ===== src/Receipts/Writer/Answers.antt =====
-- internal/erp/hasavshevet/receipt_writer.go: how Write answers, call by call.
use digi_erp_connector.Base.{
  Option, Outcome, [], ◌∷◌, ◌++◌, if_split, ◌≡◌, refl, ap, ◌∙◌, Text, true, false, none, some, List,
  if_true, if_false, ok, err,
}
use digi_erp_connector.Base.Int.{pos}
use digi_erp_connector.Documents.Layout.{Bytes}
use digi_erp_connector.Documents.Kupain.{ReceiptRequest, WriteError, build_kupain_record}
use digi_erp_connector.Documents.Kupain.CardNames.{Warning}
use digi_erp_connector.Receipts.Types.{
  Receipt, written, ReceiptError, bad_key, refused, import_lock_not_taken, index_unreadable, Notice,
  first_one_differs,
}
use digi_erp_connector.Base.Dict
use digi_erp_connector.Documents.Kupain.Checked.{IsTakeable, build-IsTakeable}
use digi_erp_connector.Receipts.Index.{ReceiptItem, file, json, marshal, path, load}
use digi_erp_connector.Receipts.Index.Laws.{IsReceipt}
use digi_erp_connector.Receipts.Index.Untrusted.{IsUntrusted, load_untrusted, load_marshalled}
use digi_erp_connector.Receipts.Index.Key.Laws.{uuid_form, HasForm, canonical-HasForm}
use digi_erp_connector.Receipts.Index.Key.{canonical_receipt_key}
use digi_erp_connector.Receipts.Writer.State.{
  ReceiptWriter, WriterConfig, ReceiptOutside, ReceiptIo,
}
use digi_erp_connector.Receipts.Writer.Write

module _ (outside : ReceiptOutside) (config : WriterConfig) (io : ReceiptIo) where
  -- With a canonical key, a request that builds and the import lock, the call goes on to the index.
  locked_call :
      (w : ReceiptWriter) (req : ReceiptRequest) (key : Text) {doc : Bytes × List Warning}
      → canonical_receipt_key req.idempotency_key ≡ some key
      → build_kupain_record outside.unicode req (pos 1) config.card_names ≡ ok doc
      → io.import_lock ≡ true
      → w.recovered ≡ true
      → Write.write_receipt outside config io w req
        ≡ Write.answer_loaded outside config io w key req (load w.disk.index key)
  unfolding Write.write_receipt
  locked_call w req key k b locked rec =
      ap (Write.with_key outside config io w req) k
      ∙ (unfold Write.with_key in ap (Write.locked_after outside config io w key req) b)
      ∙ (unfold Write.locked_after Write.write_locked in
          if_true _ _ locked
          ∙ ap (Write.after_recovery outside config io key req) (if_true _ _ rec)
          ∙ (unfold Write.after_recovery in refl))

  answer_written :
      (w : ReceiptWriter) (req : ReceiptRequest) (key : Text) (e : Receipt)
      → e.state ≡ written
      → Write.answer_loaded outside config io w key req (ok (some e))
        ≡ (w, ok (Write.result e true (Write.repeat_notes outside config io e req)))
  unfolding Write.answer_loaded Write.answer_repeat Write.answer_state
  answer_written w req key e st =
      ap (Write.answer_state outside config io w e (Write.repeat_notes outside config io e req)) st

  -- The notice on a repeat: none if the request is the first one but for its key.
  pub data Repeats (e : Receipt) (req : ReceiptRequest) : List Notice → Type 0 where
    same_request : Write.same_receipt_request e.request req ≡ true → Repeats e req []
    other_request :
        Write.same_receipt_request e.request req ≡ false
        → Repeats e req (first_one_differs e.key e.number ∷ [])

  repeat_notes-Repeats :
      (e : Receipt) (req : ReceiptRequest)
      → Repeats e req (Write.repeat_notes outside config io e req)
  unfolding Write.repeat_notes
  repeat_notes-Repeats e req =
      if_split (Repeats e req) (Write.same_receipt_request e.request req) same_request other_request

  -- With a request that builds, the import lock and a recovered writer, when the file of the
  -- request's canonical key is what a save of a written entry of that key writes, the repeat is
  -- answered with that entry's number, key, files and import state, as a replay, with its warnings
  -- and one more if the request differs from the first, and nothing changes: no number, no file,
  -- no run of the importer.
  pub write_repeat :
      (w : ReceiptWriter) (req : ReceiptRequest) (e : Receipt) {doc : Bytes × List Warning}
      → canonical_receipt_key req.idempotency_key ≡ some e.key
      → build_kupain_record outside.unicode req (pos 1) config.card_names ≡ ok doc
      → io.import_lock ≡ true
      → w.recovered ≡ true
      → IsReceipt e
      → Dict.lookup (path e.key) w.disk.index ≡ some (file (json (marshal e) false))
      → e.state ≡ written
      → (notes : List Notice) × (Write.write_receipt outside config io w req ≡ (
        w,
        ok (record {
          receipt_number = e.number;
          idempotency_key = e.key;
          import_state = e.import_state;
          warnings = e.warnings ++ notes;
          files = e.files;
          replayed = true;
        }),
      ))
        × Repeats e req notes
  write_repeat w req e k b locked rec v there st = (
    Write.repeat_notes outside config io e req,
    locked_call w req e.key k b locked rec
        ∙ ap (Write.answer_loaded outside config io w e.key req)
            (load_marshalled w.disk.index e v there)
        ∙ answer_written w req e.key e st
        ∙ (unfold Write.result in refl),
    repeat_notes-Repeats e req,
  )

  -- With a canonical key, a request that builds, the import lock and a recovered writer, a key
  -- whose file is a folder, cannot be read, is no JSON object of an entry, has more data behind
  -- it, or is an entry of another key, of a number out of range, of no known state or of no known
  -- import state, is refused as unreadable, and nothing changes.
  pub write_untrusted :
      (w : ReceiptWriter) (req : ReceiptRequest) (key : Text) (item : ReceiptItem)
      {doc : Bytes × List Warning}
      → canonical_receipt_key req.idempotency_key ≡ some key
      → build_kupain_record outside.unicode req (pos 1) config.card_names ≡ ok doc
      → io.import_lock ≡ true
      → w.recovered ≡ true
      → Dict.lookup (path key) w.disk.index ≡ some item
      → IsUntrusted key item
      → Write.write_receipt outside config io w req ≡ (w, err index_unreadable)
  write_untrusted w req key item k b locked rec there bad =
      locked_call w req key k b locked rec
      ∙ ap (Write.answer_loaded outside config io w key req)
          (load_untrusted w.disk.index key item there bad)
      ∙ (unfold Write.answer_loaded in refl)

  -- What Write refuses before it looks at the index.
  pub data IsRefused (req : ReceiptRequest) : Type 0 where
    no_uuid : ¬ HasForm uuid_form req.idempotency_key → IsRefused req
    not_takeable : ¬ IsTakeable req → IsRefused req
    no_lock : io.import_lock ≡ false → IsRefused req

  -- A request whose key has not the form of a UUID, one whose amount is not from 1 to the highest,
  -- whose installments are not 1 or whose last4 has not four characters, and one that does not get
  -- the import lock are refused with nothing changed.
  pub refused_untouched :
      (w : ReceiptWriter) (req : ReceiptRequest)
      → IsRefused req
      → (x : ReceiptError) × (Write.write_receipt outside config io w req ≡ (w, err x))
  unfolding Write.write_receipt
  refused_untouched w req h = keyed (canonical_receipt_key req.idempotency_key) refl
    where
      Untouched : Write.Reply outside config io → Type 0
      Untouched r = (x : ReceiptError) × (r ≡ (w, err x))

      unlocked :
          (key : Text) (doc : Bytes × List Warning)
          → canonical_receipt_key req.idempotency_key ≡ some key
          → build_kupain_record outside.unicode req (pos 1) config.card_names ≡ ok doc
          → IsRefused req
          → io.import_lock ≡ false
      unlocked key doc k b (no_uuid other) =
          absurd (other (canonical-HasForm req.idempotency_key key k))
      unlocked key doc k b (not_takeable other) =
          absurd (other (build-IsTakeable outside.unicode req (pos 1) config.card_names doc b))
      unlocked key doc k b (no_lock off) = off

      built :
          (key : Text) (o : Outcome WriteError (Bytes × List Warning))
          → canonical_receipt_key req.idempotency_key ≡ some key
          → build_kupain_record outside.unicode req (pos 1) config.card_names ≡ o
          → Untouched (Write.locked_after outside config io w key req o)
      built key (err x) k b = unfold Write.locked_after in (refused x, refl)
      built key (ok doc) k b =
          unfold Write.locked_after in
          (import_lock_not_taken, if_false _ _ (unlocked key doc k b h))

      keyed :
          (o : Option Text)
          → canonical_receipt_key req.idempotency_key ≡ o
          → Untouched (Write.with_key outside config io w req o)
      keyed none k = unfold Write.with_key in (bad_key, refl)
      keyed (some key) k =
          unfold Write.with_key in
          built key (build_kupain_record outside.unicode req (pos 1) config.card_names) k refl
