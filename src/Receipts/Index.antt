-- ===== src/Receipts/Index.antt =====
-- internal/erp/hasavshevet/receipt_index.go: the idempotency index of the receipts, one JSON file for
-- each key. A file is what encoding/json reads from it.
pub mod Key
pub mod Laws
pub mod Untrusted
pub mod Listing
use digi_erp_connector.Base.{
  ℕ, suc, zero, ◌++◌, Text, codes, text_eq, is_empty, Bool, true, false, ◌||◌, Option, none, some,
  List, [], ◌∷◌, if◌then◌else◌, ltb, ◌==◌, Outcome, ok, err, has_prefix, strip_suffix,
}
use digi_erp_connector.Base.Int.{ℤ, pos, negsuc}
use digi_erp_connector.Base.Dict
use digi_erp_connector.Base.Sort
use digi_erp_connector.Documents.Kupain.{ReceiptRequest}
use digi_erp_connector.Documents.Kupain.Tables.{max_receipt_number}
use digi_erp_connector.Receipts.Types.{
  Receipt, ReceiptState, reserved, written, ImportState, not_run, started, ran_ok, ran_failed,
  Notice, ReceiptError, index_unreadable, index_not_listed, index_not_saved,
}

-- The fields of an entry file as encoding/json decodes them.
pub record RawReceipt : Type 0 where
  pub key : Text
  pub number : ℤ
  pub state : Text
  pub request : ReceiptRequest
  pub files : List Text
  pub import_state : Text
  pub import_detail : Text
  pub warnings : List Notice
  pub reserved_at : Text
  pub written_at : Text

-- A file that does not decode (not JSON, an unknown field), or an object and whether more
-- data follows it.
pub data ReceiptFile : Type 0 where
  not_json : ReceiptFile
  json : RawReceipt → Bool → ReceiptFile

-- What a name of the index directory stands for; `locked` cannot be read.
pub data ReceiptItem : Type 0 where
  folder : ReceiptItem
  locked : ReceiptItem
  file : ReceiptFile → ReceiptItem

abbrev pub ReceiptDir : Type 0
ReceiptDir = List (Text × ReceiptItem)

abbrev pub json_suffix : Text
json_suffix = codes ".json"

unfoldable pub path : Text → Text
path key = key ++ json_suffix

unfoldable pub state_text : ReceiptState → Text
state_text reserved = codes "reserved"
state_text written = codes "written"

unfoldable pub import_text : ImportState → Text
import_text not_run = codes "not_run"
import_text started = codes "started"
import_text ran_ok = codes "ok"
import_text ran_failed = codes "failed"

unfoldable pub parse_state : Text → Option ReceiptState
parse_state s =
    if text_eq s (codes "reserved")
    then some reserved
    else if text_eq s (codes "written")
    then some written
    else none

unfoldable pub parse_import : Text → Option ImportState
parse_import s =
    if text_eq s (codes "not_run")
    then some not_run
    else if text_eq s (codes "started")
    then some started
    else if text_eq s (codes "ok")
    then some ran_ok
    else if text_eq s (codes "failed")
    then some ran_failed
    else none

-- The last tests of the decoder: the number, the state and the import state.
unfoldable pub decode_fields :
    RawReceipt → ℤ → Option ReceiptState → Option ImportState → Outcome ReceiptError Receipt
decode_fields r (negsuc n) _ _ = err index_unreadable
decode_fields r (pos n) none _ = err index_unreadable
decode_fields r (pos n) (some st) none = err index_unreadable
decode_fields r (pos n) (some st) (some im) =
    if ltb n 1 || ltb max_receipt_number n
    then err index_unreadable
    else ok (record {
      key = r.key;
      number = n;
      state = st;
      request = r.request;
      files = r.files;
      import_state = im;
      import_detail = r.import_detail;
      warnings = r.warnings;
      reserved_at = r.reserved_at;
      written_at = r.written_at;
    })

-- The object that json.MarshalIndent writes for an entry.
abbrev pub marshal : Receipt → RawReceipt
marshal e = record {
  key = e.key;
  number = pos e.number;
  state = state_text e.state;
  request = e.request;
  files = e.files;
  import_state = import_text e.import_state;
  import_detail = e.import_detail;
  warnings = e.warnings;
  reserved_at = e.reserved_at;
  written_at = e.written_at;
}

-- decodeReceiptIndexEntry
unfoldable pub decode : ReceiptFile → Text → Outcome ReceiptError Receipt
unfolding decode_fields parse_state parse_import
decode not_json key = err index_unreadable
decode (json r true) key = err index_unreadable
decode (json r false) key =
    if text_eq r.key key
    then decode_fields r r.number (parse_state r.state) (parse_import r.import_state)
    else err index_unreadable

pub found_item : Option ReceiptItem → Text → Outcome ReceiptError (Option Receipt)
unfolding decode
found_item none key = ok none
found_item (some folder) key = err index_unreadable
found_item (some locked) key = err index_unreadable
found_item (some (file c)) key = elim (decode c key) [ ok e ↦ ok (some e) | err x ↦ err x ]

-- The entry of a canonical key; none when there is no such file.
unfoldable pub load : ReceiptDir → Text → Outcome ReceiptError (Option Receipt)
unfolding found_item path
load d key = found_item (Dict.lookup (path key) d) key

save_at :
    Option ReceiptItem → ReceiptDir → Bool → Receipt → ReceiptDir × Outcome ReceiptError (Unit {0})
unfolding path
save_at (some folder) d writes e = (d, err index_not_saved)
save_at _ d writes e =
    if writes
    then (Dict.insert (path e.key) (file (json (marshal e) false)) d, ok tt)
    else (d, err index_not_saved)

-- atomicfile.Write of the entry: the whole file, or (`writes` is false) none of it. A folder of that
-- name is not replaced.
unfoldable pub save : ReceiptDir → Bool → Receipt → ReceiptDir × Outcome ReceiptError (Unit {0})
unfolding save_at
save d writes e = save_at (Dict.lookup (path e.key) d) d writes e

is_folder : ReceiptItem → Bool
is_folder folder = true
is_folder locked = false
is_folder (file _) = false

-- The key of a directory item that is an entry; none for a folder, a temp file or another name.
listed_key : Text → ReceiptItem → Option Text
unfolding is_folder
listed_key name item =
    if is_folder item
    then none
    else if has_prefix name (codes ".")
    then none
    else strip_suffix name json_suffix

unfoldable pub rank : Receipt → ℕ
rank e = e.number

add_loaded :
    Outcome ReceiptError (Option Receipt)
    → Outcome ReceiptError (List Receipt)
    → Outcome ReceiptError (List Receipt)
add_loaded (err x) rest = err x
add_loaded (ok none) rest = rest
add_loaded (ok (some e)) (err x) = err x
add_loaded (ok (some e)) (ok es) = ok (e ∷ es)

add_item :
    ReceiptDir
    → Option Text
    → Outcome ReceiptError (List Receipt)
    → Outcome ReceiptError (List Receipt)
unfolding add_loaded
add_item d none rest = rest
add_item d (some key) rest = add_loaded (load d key) rest

-- The loop over the directory: the first entry that cannot be read ends it.
collect : ReceiptDir → ReceiptDir → Outcome ReceiptError (List Receipt)
unfolding add_item listed_key
collect d [] = ok []
collect d ((name, item) ∷ rest) = add_item d (listed_key name item) (collect d rest)

-- Whether two neighbours have one number.
shares_from : ℕ → List Receipt → Bool
shares_from n [] = false
shares_from n (e ∷ es) = (e.number == n) || shares_from e.number es

shares_number : List Receipt → Bool
unfolding shares_from
shares_number [] = false
shares_number (e ∷ es) = shares_from e.number es

unshared : Outcome ReceiptError (List Receipt) → Outcome ReceiptError (List Receipt)
unfolding shares_number rank
unshared (err x) = err x
unshared (ok es) =
    let entries = Sort.sort rank es in
    if shares_number entries then err index_unreadable else ok entries

-- Every entry, sorted by number; `listed` says that the directory could be read.
unfoldable pub all : ReceiptDir → Bool → Outcome ReceiptError (List Receipt)
unfolding collect unshared
all d listed = if listed then unshared (collect d d) else err index_not_listed
