-- ===== src/Documents/Encoding.antt =====
-- internal/erp/hasavshevet/encode1255.go: the strict Windows-1255 encoding of the receipts.
pub mod Laws
use digi_erp_connector.Base.{
  ℕ, suc, ◌+◌, Text, codes, utf8_len, Bool, true, false, ◌||◌, ◌&&◌, not, Option, none, some, List,
  [], ◌∷◌, ◌++◌, is_empty, if◌then◌else◌, ◌==◌, leb, ltb, length, Outcome, ok, err, ◌>>=◌,
}
use digi_erp_connector.Documents.Layout.{Bytes}

-- The Unicode tables that the code calls: unicode.IsSpace, norm.NFC.String, and the byte of a
-- character in charmap.Windows1255; and time.Parse of a YYYY-MM-DD day, written dd/mm/YYYY.
pub record Unicode : Type 0 where
  pub is_space : ℕ → Bool
  pub nfc : Text → Text
  pub windows1255 : ℕ → Option ℕ
  pub day_text : Text → Option Text

-- Why a value cannot be written.
pub data Reason : Type 0 where
  unencodable : ℕ → ℕ → Reason  -- the character and its byte offset
  too_long : ℕ → ℕ → Reason  -- the bytes it has, and the most allowed
  is_required : Reason
  out_of_range : Reason
  not_a_date : Reason
  must_be_one : Reason
  not_digits : Reason

-- FieldError
pub record FieldError : Type 0 where
  pub field : Text
  pub reason : Reason

contains_rune : ℕ → List ℕ → Bool
contains_rune r [] = false
contains_rune r (c ∷ cs) = (c == r) || contains_rune r cs

abbrev stripped_runes : List ℕ
stripped_runes =
    0x200E ∷ 0x200F ∷ 0x202A ∷ 0x202B ∷ 0x202C ∷ 0x202D ∷ 0x202E ∷ 0x2066 ∷ 0x2067 ∷ 0x2068 ∷ 0x2069
    ∷ 0x061C ∷ 0x200C ∷ 0x200D ∷ 0xFEFF ∷ 0x00AD ∷ b'\'' ∷ []

unfoldable pub is_stripped : ℕ → Bool
unfolding contains_rune
is_stripped r = contains_rune r stripped_runes

-- The loop of normalize1255; `after_return` says that the character before was a carriage return,
-- which takes a line feed with it.
unfoldable pub clean : Bool → Text → Text
unfolding is_stripped
clean after_return [] = []
clean after_return (r ∷ s) =
    let rest = clean false s in
    let returned = clean true s in
    if after_return && (r == 10)
    then rest
    else if r == 13
    then codes ". " ++ returned
    else if r == 10
    then codes ". " ++ rest
    else if (r == 9) || (r == 0xA0)
    then b' ' ∷ rest
    else if is_stripped r
    then rest
    else r ∷ rest

-- strings.TrimFunc
trim_start : (ℕ → Bool) → Text → Text
trim_start f [] = []
trim_start f (c ∷ s) = let rest = trim_start f s in if f c then rest else c ∷ s

trim_end : (ℕ → Bool) → Text → Text
trim_end f [] = []
trim_end f (c ∷ s) = let rest = trim_end f s in if f c && is_empty rest then [] else c ∷ rest

unfoldable pub trim_func : (ℕ → Bool) → Text → Text
unfolding trim_start trim_end
trim_func f s = trim_end f (trim_start f s)

encode_step : (r offset : ℕ) → Option ℕ → Outcome Reason Bytes → Outcome Reason Bytes
encode_step r offset none rest = err (unencodable r offset)
encode_step r offset (some b) rest = do bs ← rest; ok (b ∷ bs)

module _ (u : Unicode) where
  unfoldable pub normalize1255 : Text → Text
  unfolding clean
  normalize1255 s = clean false (u.nfc s)

  -- strings.TrimSpace
  unfoldable pub trim_space : Text → Text
  unfolding trim_func
  trim_space s = trim_func u.is_space s

  unfoldable pub trim_edges : Text → Text
  unfolding trim_func is_stripped
  trim_edges s = trim_func (λ r. u.is_space r || is_stripped r) s

  -- The loop of encode1255Strict from a byte offset on: the error is the first one met.
  unfoldable pub encode_from : ℕ → Text → Outcome Reason Bytes
  unfolding encode_step
  encode_from offset [] = ok []
  encode_from offset (r ∷ s) =
      let rest = encode_from (offset + utf8_len r) s in
      if ltb r 0x20 || (r == 0x7F)
      then err (unencodable r offset)
      else encode_step r offset (u.windows1255 r) rest

  unfoldable pub encode1255_strict : Text → Outcome Reason Bytes
  unfolding encode_from
  encode1255_strict s = encode_from 0 s

  within : Text → ℕ → Outcome Reason Bytes → Outcome FieldError Bytes
  within field most (err reason) = err (record { field = field; reason = reason })
  within field most (ok b) =
      if ltb most (length b)
      then err (record { field = field; reason = too_long (length b) most })
      else ok b

  unfoldable pub encode_field : Text → Text → ℕ → Outcome FieldError Bytes
  unfolding within encode1255_strict normalize1255
  encode_field field value most = within field most (encode1255_strict (normalize1255 value))
