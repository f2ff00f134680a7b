-- ===== src/Orders/Index.antt =====
-- internal/erp/hasavshevet/order_index.go: the historyId → order number index, one JSON file for
-- each key. A file is what encoding/json reads from it. `stem` is the hex SHA-256 of a key
-- (crypto/sha256), a parameter: nothing is assumed of it, so two keys may share a file.
pub mod Listing
pub mod Laws
pub mod Untrusted
use digi_erp_connector.Base.{
  ℕ, suc, zero, ◌++◌, Text, codes, text_eq, is_empty, Bool, true, false, Option, none, some, List,
  if◌then◌else◌, Outcome, ok, err,
}
use digi_erp_connector.Base.Int.{ℤ, pos, negsuc}
use digi_erp_connector.Base.Dict
use digi_erp_connector.Orders.Types.{
  Error, index_unreadable, index_not_saved, Entry, OrderState, reserved, written, retryable, failed,
}

-- The fields of an entry file as encoding/json decodes them.
pub record RawEntry : Type 0 where
  pub key : Text
  pub number : ℤ
  pub state : Text
  pub request_hash : Text
  pub files : List Text
  pub error : Text
  pub retries : ℤ
  pub reserved_at : Text
  pub finished_at : Text

-- A file that does not decode (not JSON, an unknown field), or an object and whether more
-- data follows it.
pub data FileContent : Type 0 where
  not_json : FileContent
  json : RawEntry → Bool → FileContent

-- What a name of the index directory stands for; `locked` cannot be read.
pub data DirItem : Type 0 where
  folder : DirItem
  locked : DirItem
  file : FileContent → DirItem

abbrev pub IndexDir : Type 0
IndexDir = List (Text × DirItem)

abbrev pub json_suffix : Text
json_suffix = codes ".json"

unfoldable pub path_for : Text → Text
path_for s = s ++ json_suffix

unfoldable pub state_text : OrderState → Text
state_text reserved = codes "reserved"
state_text written = codes "written"
state_text retryable = codes "retryable"
state_text failed = codes "failed"

unfoldable pub parse_state : Text → Option OrderState
parse_state s =
    if text_eq s (codes "reserved")
    then some reserved
    else if text_eq s (codes "written")
    then some written
    else if text_eq s (codes "retryable")
    then some retryable
    else if text_eq s (codes "failed")
    then some failed
    else none

-- The last tests of the decoder: the number, the state and the retries.
decode_fields : RawEntry → ℤ → Option OrderState → ℤ → Outcome Error Entry
decode_fields r (pos (suc n)) (some st) (pos retries) = ok (record {
  key = r.key;
  number = suc n;
  state = st;
  request_hash = r.request_hash;
  files = r.files;
  error = r.error;
  retries = retries;
  reserved_at = r.reserved_at;
  finished_at = r.finished_at;
})
decode_fields r (pos (suc n)) (some st) (negsuc _) = err index_unreadable
decode_fields r (pos (suc n)) none _ = err index_unreadable
decode_fields r (pos zero) _ _ = err index_unreadable
decode_fields r (negsuc _) _ _ = err index_unreadable

-- The object that json.MarshalIndent writes for an entry.
abbrev pub marshal : Entry → RawEntry
marshal e = record {
  key = e.key;
  number = pos e.number;
  state = state_text e.state;
  request_hash = e.request_hash;
  files = e.files;
  error = e.error;
  retries = pos e.retries;
  reserved_at = e.reserved_at;
  finished_at = e.finished_at;
}

module _ (stem : Text → Text) where
  -- decodeOrderIndexEntry
  unfoldable pub decode : FileContent → Text → Outcome Error Entry
  unfolding decode_fields parse_state
  decode not_json s = err index_unreadable
  decode (json r true) s = err index_unreadable
  decode (json r false) s =
      if is_empty r.key
      then err index_unreadable
      else if text_eq (stem r.key) s
      then decode_fields r r.number (parse_state r.state) r.retries
      else err index_unreadable

  pub found_item : Option DirItem → Text → Outcome Error (Option Entry)
  found_item none s = ok none
  found_item (some folder) s = err index_unreadable
  found_item (some locked) s = err index_unreadable
  found_item (some (file c)) s = elim (decode c s) [ ok e ↦ ok (some e) | err x ↦ err x ]

  -- The entry stored under a file stem; none when there is no such file.
  unfoldable pub load_stem : IndexDir → Text → Outcome Error (Option Entry)
  unfolding found_item path_for
  load_stem d s = found_item (Dict.lookup (path_for s) d) s

  for_key : Text → Outcome Error (Option Entry) → Outcome Error (Option Entry)
  for_key k (err x) = err x
  for_key k (ok none) = ok none
  for_key k (ok (some e)) = if text_eq e.key k then ok (some e) else err index_unreadable

  -- The entry of a key; another key's entry under its stem is an error.
  unfoldable pub load : IndexDir → Text → Outcome Error (Option Entry)
  unfolding for_key
  load d k = for_key k (load_stem d (stem k))

  save_at : Option DirItem → IndexDir → Bool → Entry → IndexDir × Outcome Error (Unit {0})
  unfolding path_for
  save_at (some folder) d writes e = (d, err index_not_saved)
  save_at _ d writes e =
      if writes
      then (Dict.insert (path_for (stem e.key)) (file (json (marshal e) false)) d, ok tt)
      else (d, err index_not_saved)

  -- atomicfile.Write of the entry: the whole file, or (`writes` is false) none of it. A folder
  -- of that name is not replaced.
  unfoldable pub save : IndexDir → Bool → Entry → IndexDir × Outcome Error (Unit {0})
  unfolding save_at
  save d writes e = save_at (Dict.lookup (path_for (stem e.key)) d) d writes e
