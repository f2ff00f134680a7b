-- ===== src/Receipts/Index/Untrusted.antt =====
-- internal/erp/hasavshevet/receipt_index.go: the files that a load refuses, by what is in them, and
-- the file of an entry as it was saved.
use digi_erp_connector.Base.{
  ◌≡◌, ◌≢◌, ◌<◌, refl, ap, ◌∙◌, ℕ, Text, codes, text_eq, text_eq_ne, arith, ltb, ◌||◌, true, false,
  Option, none, some, if_both, if_false, if_true, Outcome, ok, err,
}
use digi_erp_connector.Base.Dict
use digi_erp_connector.Base.Int.{ℤ, pos, negsuc}
use digi_erp_connector.Documents.Kupain.Tables.{max_receipt_number}
use digi_erp_connector.Receipts.Types.{
  ReceiptError, index_unreadable, Receipt, ReceiptState, ImportState,
}
use digi_erp_connector.Receipts.Index.{
  ReceiptDir, ReceiptItem, folder, locked, file, ReceiptFile, json, not_json, RawReceipt, path,
  marshal, decode, decode_fields, load, found_item, parse_state, parse_import,
}
use digi_erp_connector.Receipts.Index.Laws.{IsReceipt, decode-marshal, found_item-file}

-- None of the texts of a state, and none of those of an import state.
pub record IsNoState (s : Text) : Type 0 where
  pub reserved : s ≢ codes "reserved"
  pub written : s ≢ codes "written"

pub record IsNoImport (s : Text) : Type 0 where
  pub not_run : s ≢ codes "not_run"
  pub started : s ≢ codes "started"
  pub ran_ok : s ≢ codes "ok"
  pub ran_failed : s ≢ codes "failed"

-- A number that is no receipt's.
pub data IsNoNumber : ℤ → Type 0 where
  negative : (n : ℕ) → IsNoNumber (negsuc n)
  zero_number : IsNoNumber (pos 0)
  too_high : (n : ℕ) → max_receipt_number < n → IsNoNumber (pos n)

-- What stands under the file name of a key and is not an entry of that key.
pub data IsUntrusted (key : Text) : ReceiptItem → Type 0 where
  is_folder : IsUntrusted key folder
  is_locked : IsUntrusted key locked
  no_object : IsUntrusted key (file not_json)
  more_data : (r : RawReceipt) → IsUntrusted key (file (json r true))
  other_key : (r : RawReceipt) → r.key ≢ key → IsUntrusted key (file (json r false))
  no_number : (r : RawReceipt) → IsNoNumber r.number → IsUntrusted key (file (json r false))
  no_state : (r : RawReceipt) → IsNoState r.state → IsUntrusted key (file (json r false))
  no_import : (r : RawReceipt) → IsNoImport r.import_state → IsUntrusted key (file (json r false))

parse_state-none : (s : Text) → IsNoState s → parse_state s ≡ none
unfolding parse_state
parse_state-none s h =
    if_false _ _ (text_eq_ne s _ h.reserved) ∙ if_false _ _ (text_eq_ne s _ h.written)

parse_import-none : (s : Text) → IsNoImport s → parse_import s ≡ none
unfolding parse_import
parse_import-none s h =
    if_false _ _ (text_eq_ne s _ h.not_run)
    ∙ if_false _ _ (text_eq_ne s _ h.started)
    ∙ if_false _ _ (text_eq_ne s _ h.ran_ok)
    ∙ if_false _ _ (text_eq_ne s _ h.ran_failed)

no_state_refused :
    (r : RawReceipt) (n : ℤ) (o : Option ImportState)
    → decode_fields r n none o ≡ err index_unreadable
unfolding decode_fields
no_state_refused r (pos n) o = refl
no_state_refused r (negsuc n) o = refl

no_import_refused :
    (r : RawReceipt) (n : ℤ) (o : Option ReceiptState)
    → decode_fields r n o none ≡ err index_unreadable
unfolding decode_fields
no_import_refused r (pos n) none = refl
no_import_refused r (pos n) (some st) = refl
no_import_refused r (negsuc n) o = refl

no_number_refused :
    (r : RawReceipt) (n : ℤ) (o : Option ReceiptState) (p : Option ImportState)
    → IsNoNumber n
    → decode_fields r n o p ≡ err index_unreadable
unfolding decode_fields
no_number_refused r _ o p (negative n) = refl
no_number_refused r _ none p zero_number = refl
no_number_refused r _ (some st) none zero_number = refl
no_number_refused r _ (some st) (some im) zero_number = refl
no_number_refused r _ none p (too_high n h) = refl
no_number_refused r _ (some st) none (too_high n h) = refl
no_number_refused r _ (some st) (some im) (too_high n h) =
    let out : (ltb n 1 || ltb max_receipt_number n) ≡ true = ground arith in if_true _ _ out

abbrev Refused : Outcome ReceiptError Receipt → Type 0
Refused o = o ≡ err index_unreadable

fields-Refused :
    (r : RawReceipt) (key : Text)
    → Refused (decode_fields r r.number (parse_state r.state) (parse_import r.import_state))
    → Refused (decode (json r false) key)
unfolding decode
fields-Refused r key h = if_both Refused (text_eq r.key key) h refl

file-Refused :
    (key : Text) (c : ReceiptFile)
    → Refused (decode c key)
    → found_item (some (file c)) key ≡ err index_unreadable
unfolding found_item
file-Refused key c h = rw (h, found_item) refl

item_refused :
    (key : Text) (item : ReceiptItem)
    → IsUntrusted key item
    → found_item (some item) key ≡ err index_unreadable
unfolding found_item decode
item_refused key _ is_folder = refl
item_refused key _ is_locked = refl
item_refused key _ no_object = refl
item_refused key _ (more_data r) = refl
item_refused key _ (other_key r h) =
    file-Refused key (json r false) (unfold decode in if_false _ _ (text_eq_ne r.key key h))
item_refused key _ (no_number r h) =
    file-Refused key (json r false) (fields-Refused r key (no_number_refused r r.number _ _ h))
item_refused key _ (no_state r h) = file-Refused key (json r false) (
    fields-Refused r key (
      ap (λ o. decode_fields r r.number o (parse_import r.import_state))
        (parse_state-none r.state h)
      ∙ no_state_refused r r.number _))
item_refused key _ (no_import r h) = file-Refused key (json r false) (
    fields-Refused r key (
      ap (λ o. decode_fields r r.number (parse_state r.state) o)
        (parse_import-none r.import_state h)
      ∙ no_import_refused r r.number _))

-- Such a file makes the load of its key an error.
pub load_untrusted :
    (d : ReceiptDir) (key : Text) (item : ReceiptItem)
    → Dict.lookup (path key) d ≡ some item
    → IsUntrusted key item
    → load d key ≡ err index_unreadable
unfolding load
load_untrusted d key item there bad = ap (λ o. found_item o key) there ∙ item_refused key item bad

-- The file that a save writes is loaded as its entry.
pub load_marshalled :
    (d : ReceiptDir) (e : Receipt)
    → IsReceipt e
    → Dict.lookup (path e.key) d ≡ some (file (json (marshal e) false))
    → load d e.key ≡ ok (some e)
unfolding load
load_marshalled d e v there =
    ap (λ o. found_item o e.key) there
    ∙ found_item-file (json (marshal e) false) e.key e (decode-marshal e v)
