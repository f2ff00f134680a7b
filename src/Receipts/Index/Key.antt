-- ===== src/Receipts/Index/Key.antt =====
-- internal/erp/hasavshevet/receipt_index.go: canonicalReceiptKey.
pub mod Laws
use digi_erp_connector.Base.{
  ℕ, suc, ◌+◌, Text, Bool, true, false, not, ◌||◌, ◌&&◌, Option, none, some, List, [], ◌∷◌, map,
  if◌then◌else◌, leb, ◌==◌, length,
}

-- The places of the dashes
is_dash_place : ℕ → Bool
is_dash_place i = (i == 8) || (i == 13) || (i == 18) || (i == 23)

is_hex_digit : ℕ → Bool
is_hex_digit c =
    (leb b'0' c && leb c b'9') || (leb b'a' c && leb c b'f') || (leb b'A' c && leb c b'F')

is_key_char : ℕ → ℕ → Bool
unfolding is_dash_place is_hex_digit
is_key_char i c = if is_dash_place i then c == b'-' else is_hex_digit c

-- The loop over the bytes from place i on.
all_key_chars : ℕ → Text → Bool
unfolding is_key_char
all_key_chars i [] = true
all_key_chars i (c ∷ s) = is_key_char i c && all_key_chars (suc i) s

-- strings.ToLower of one of these characters.
lower : ℕ → ℕ
lower c = if leb b'A' c && leb c b'Z' then c + 32 else c

-- A UUID in its 8-4-4-4-12 hex form, lower-cased. A text of 36 characters that are all ASCII has 36
-- bytes, and a text with another character is refused either way.
unfoldable pub canonical_receipt_key : Text → Option Text
unfolding all_key_chars lower
canonical_receipt_key key =
    if not (length key == 36)
    then none
    else if all_key_chars 0 key
    then some (map lower key)
    else none
