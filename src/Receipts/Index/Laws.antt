-- ===== src/Receipts/Index/Laws.antt =====
-- internal/erp/hasavshevet/receipt_index.go: what a save leaves for the loads that follow.
use digi_erp_connector.Base.{
  ◌<◌, ◌≤◌, ◌≡◌, refl, subst, ◌⊎◌, inl, inr, arith, Text, text_eq, text_eq_iff, text_eq_refl,
  text_eq_sound, Bool, true, false, Option, none, some, if◌then◌else◌, ok, err, Bool-cases,
}
use mathlib.Core.List.{append_cancel_right}
use digi_erp_connector.Base.Int.{pos}
use digi_erp_connector.Base.Dict
use digi_erp_connector.Documents.Kupain.Tables.{max_receipt_number}
use digi_erp_connector.Receipts.Types.{
  Receipt, ReceiptState, reserved, written, ImportState, not_run, started, ran_ok, ran_failed,
  index_not_saved,
}
use digi_erp_connector.Receipts.Index.{
  ReceiptDir, ReceiptItem, folder, locked, file, ReceiptFile, json, not_json, path, json_suffix,
  marshal, decode, decode_fields, load, found_item, save, parse_state, state_text, parse_import,
  import_text, RawReceipt,
}

-- What every entry that the writer holds satisfies: decodeReceiptIndexEntry checks it.
pub record IsReceipt (e : Receipt) : Type 0 where
  pub positive : 0 < e.number
  pub in_range : e.number ≤ max_receipt_number

abbrev pub Loads : ReceiptDir → Text → Receipt → Type 0
Loads d key e = load d key ≡ ok (some e)

parse-state_text : (s : ReceiptState) → parse_state (state_text s) ≡ some s
unfolding parse_state state_text text_eq
parse-state_text reserved = refl
parse-state_text written = refl

parse-import_text : (s : ImportState) → parse_import (import_text s) ≡ some s
unfolding parse_import import_text text_eq
parse-import_text not_run = refl
parse-import_text started = refl
parse-import_text ran_ok = refl
parse-import_text ran_failed = refl

decode_fields-marshal :
    (e : Receipt)
    → IsReceipt e
    → decode_fields (marshal e) (pos e.number) (some e.state) (some e.import_state) ≡ ok e
unfolding decode_fields
decode_fields-marshal e v =
    let low : 0 < e.number = v.positive in
    let high : e.number ≤ max_receipt_number = v.in_range in ground arith

path_injective : (s t : Text) → path s ≡ path t → s ≡ t
unfolding path
path_injective s t h = append_cancel_right s t json_suffix h

path_differs : (s t : Text) → text_eq s t ≡ false → text_eq (path s) (path t) ≡ false
path_differs s t h = elim (Bool-cases (text_eq (path s) (path t))) [
  | inr differ ↦ differ
  | inl same ↦ let e = path_injective s t (text_eq_sound _ _ same) in cc (h, (text_eq_iff s t).1 e)
]

-- An entry is read back whole from what `save` writes for it.
pub decode-marshal : (e : Receipt) → IsReceipt e → decode (json (marshal e) false) e.key ≡ ok e
unfolding decode
decode-marshal e v =
    rw (text_eq_refl e.key, parse-state_text e.state, parse-import_text e.import_state)
      (decode_fields-marshal e v)

saved : ReceiptDir → Receipt → ReceiptDir
saved d e = Dict.insert (path e.key) (file (json (marshal e) false)) d

save_cases :
    (d : ReceiptDir) (writes : Bool) (e : Receipt)
    → (save d writes e ≡ (saved d e, ok tt)) ⊎ (save d writes e ≡ (d, err index_not_saved))
unfolding save saved
save_cases d writes e = ground arith

pub found_item-file :
    (c : ReceiptFile) (key : Text) (e : Receipt)
    → decode c key ≡ ok e
    → found_item (some (file c)) key ≡ ok (some e)
unfolding found_item
found_item-file c key e h = ground arith

load-saved :
    (d : ReceiptDir) (e : Receipt)
    → IsReceipt e
    → (k : Text) → load (saved d e) k ≡ (if text_eq e.key k then ok (some e) else load d k)
unfolding saved
load-saved d e v k = elim (Bool-cases (text_eq e.key k)) [
  | inl same ↦ rw same (
      subst (λ t. load (Dict.insert (path e.key) (file (json (marshal e) false)) d) t ≡ ok (some e))
        (text_eq_sound _ _ same)
        (unfold load in
          rw (Dict.lookup-insert_self (path e.key) (file (json (marshal e) false)) d)
            (found_item-file (json (marshal e) false) e.key e (decode-marshal e v))))
  | inr differ ↦ rw differ (
      unfold load in
      rw (
        Dict.lookup-insert_ne (path e.key) (path k) (file (json (marshal e) false)) d
          (path_differs _ _ differ)))
]

-- `d'` is `d` with the entry `e` saved.
abbrev pub IsSave : ReceiptDir → ReceiptDir → Receipt → Type 0
IsSave d d' e = (k : Text) → load d' k ≡ (if text_eq e.key k then ok (some e) else load d k)

-- Saving an entry whose number is in range either succeeds, and then its key loads exactly that
-- entry and every other key loads what it did before, or fails and leaves the index as it was.
pub load-save :
    (d : ReceiptDir) (writes : Bool) (e : Receipt)
    → IsReceipt e
    → (((save d writes e).1 ≡ ok tt) × IsSave d (save d writes e).0 e)
      ⊎ (save d writes e ≡ (d, err index_not_saved))
load-save d writes e v = elim (save_cases d writes e) [
  | inl done ↦ inl (rw done refl, λ k. rw done (load-saved d e v k))
  | inr refused ↦ inr refused
]

-- What loads after a save is the saved entry or was there before.
pub loads_cases :
    (d d' : ReceiptDir) (e : Receipt) (k : Text) (f : Receipt)
    → IsSave d d' e
    → Loads d' k f
    → ((e.key ≡ k) × (f ≡ e)) ⊎ ((text_eq e.key k ≡ false) × Loads d k f)
loads_cases d d' e k f law l = elim (Bool-cases (text_eq e.key k)) [
  | inl same ↦ inl (text_eq_sound _ _ same, ground (arith, law k))
  | inr differ ↦ inr (differ, ground (arith, law k))
]

pub loads_here : (d d' : ReceiptDir) (e : Receipt) → IsSave d d' e → Loads d' e.key e
loads_here d d' e law = ground (arith, law e.key, text_eq_refl e.key)

pub loads_there :
    (d d' : ReceiptDir) (e : Receipt) (k : Text) (f : Receipt)
    → IsSave d d' e
    → text_eq e.key k ≡ false
    → Loads d k f
    → Loads d' k f
loads_there d d' e k f law differ l = ground (arith, law k)

pub loads_one : (d : ReceiptDir) (k : Text) (e f : Receipt) → Loads d k e → Loads d k f → e ≡ f
loads_one d k e f h g = cc (h, g)

decode_fields-IsReceipt :
    (r : RawReceipt) (e : Receipt)
    → decode_fields r r.number (parse_state r.state) (parse_import r.import_state) ≡ ok e
    → IsReceipt e × (e.key ≡ r.key)
unfolding decode_fields
decode_fields-IsReceipt r e d = ground arith

decode-IsReceipt :
    (c : ReceiptFile) (key : Text) (e : Receipt) → decode c key ≡ ok e → IsReceipt e × (e.key ≡ key)
unfolding decode
decode-IsReceipt not_json key e h = cc
decode-IsReceipt (json r true) key e h = cc
decode-IsReceipt (json r false) key e h =
    ground (arith, text_eq_iff r.key key, decode_fields-IsReceipt r e)

-- What loads is an entry whose key its file is named for.
pub load-IsReceipt :
    (d : ReceiptDir) (key : Text) (e : Receipt) → Loads d key e → IsReceipt e × (e.key ≡ key)
unfolding load
load-IsReceipt d key e h = found (Dict.lookup (path key) d) h
  where
    found : (o : Option ReceiptItem) → found_item o key ≡ ok (some e) → IsReceipt e × (e.key ≡ key)
    found none g = cc
    found (some folder) g = cc
    found (some locked) g = cc
    found (some (file c)) g = decode-IsReceipt c key e (ground arith)
