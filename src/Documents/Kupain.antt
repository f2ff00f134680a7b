-- ===== src/Documents/Kupain.antt =====
-- internal/erp/hasavshevet/kupain.go: KUPAIN.doc, the record of one receipt, and KUPAIN.prm. A Go
-- map with texts for keys is a list of pairs, in the order in which the loop meets them.
pub mod Tables
pub mod CardNames
pub mod Laws
pub mod Checked
pub mod Record
use digi_erp_connector.Base.{
  ℕ, suc, ◌+◌, ◌-◌, ◌/◌, ◌%◌, Text, codes, Bool, true, false, not, ◌||◌, ◌&&◌, Option, none, some,
  List, [], ◌∷◌, ◌++◌, is_empty, is_digit, if◌then◌else◌, ◌==◌, leb, ltb, length, replicate,
  Outcome, ok, err, ◌>>=◌, ◌>>◌, guard,
}
use digi_erp_connector.Base.Int.{ℤ, pos, negsuc}
use digi_erp_connector.Base.Decimal.{format}
use digi_erp_connector.Documents.Layout.{Bytes, space, line_feed, hebrew}
use digi_erp_connector.Documents.Encoding.{
  Unicode, Reason, is_required, out_of_range, not_a_date, must_be_one, not_digits, FieldError,
  encode_field, encode1255_strict, normalize1255, trim_edges, trim_space,
}
use digi_erp_connector.Documents.Kupain.Tables.{
  KupainField, kupain_fields, kupain_width, kupain_receipt_type, max_amount_minor,
  max_receipt_number,
}
use digi_erp_connector.Documents.Kupain.CardNames.{ReceiptCardNames, Warning, card_name}

-- ReceiptRequest
pub record ReceiptRequest : Type 0 where
  pub idempotency_key : Text
  pub account_key : Text
  pub settled_date : Text
  pub amount_minor : ℤ
  pub installments : ℤ
  pub card_issuer : Text
  pub card_brand : Text
  pub last4 : Text
  pub confirmation_code : Text
  pub provider_uid : Text
  pub remarks : Text
  pub agent_key : Text
  pub name : Text
  pub address : Text
  pub phone : Text
  pub email : Text

-- A *FieldError, or a *CardNamesConfigError with its table, name and reason.
pub data WriteError : Type 0 where
  field_error : FieldError → WriteError
  card_names_config : Text → Text → Reason → WriteError

abbrev refuse {ℓ} : {A : Type ℓ} → Text → Reason → Outcome WriteError A
refuse field reason = err (field_error (record { field = field; reason = reason }))

unfoldable pub check : Bool → Text → Reason → Outcome WriteError (Unit {0})
check good field reason = if good then ok tt else refuse field reason

-- The values that are set so far, the last first.
abbrev pub Values : Type 0
Values = List (ℕ × Bytes)

-- vals[num]; a field that is not set is nil.
unfoldable pub value_of : ℕ → Values → Bytes
value_of num [] = []
value_of num ((n, b) ∷ vals) = let earlier = value_of num vals in if n == num then b else earlier

unfoldable pub all_digits : Text → Bool
all_digits [] = true
all_digits (c ∷ s) = is_digit c && all_digits s

-- isCardCode and isFourASCIIDigits: digits are one byte each, so a text of digits has as many bytes
-- as characters.
unfoldable pub is_card_code : Text → Bool
unfolding all_digits
is_card_code s = leb (length s) 2 && all_digits s

unfoldable pub is_four_ascii_digits : Text → Bool
unfolding all_digits
is_four_ascii_digits s = (length s == 4) && all_digits s

-- fmt's %02d of a number below 100
unfoldable pub two_digits : ℕ → Text
two_digits n = (b'0' + n / 10) ∷ (b'0' + n % 10) ∷ []

unfoldable pub format_amount : ℤ → Outcome WriteError Text
unfolding two_digits
format_amount (negsuc n) = refuse (codes "amountMinor") out_of_range
format_amount (pos minor) =
    if ltb minor 1 || ltb max_amount_minor minor
    then refuse (codes "amountMinor") out_of_range
    else ok (format (minor / 100) ++ (b'.' ∷ two_digits (minor % 100)))

check_number : ℤ → Outcome WriteError Text
check_number (negsuc n) = refuse (codes "receiptNumber") out_of_range
check_number (pos n) =
    if ltb n 1 || ltb max_receipt_number n
    then refuse (codes "receiptNumber") out_of_range
    else ok (format n)

is_one : ℤ → Bool
is_one (pos n) = n == 1
is_one (negsuc n) = false

day_or_refuse : Option Text → Outcome WriteError Text
day_or_refuse none = refuse (codes "settledDate") not_a_date
day_or_refuse (some d) = ok d

stored : ℕ → Values → Outcome FieldError Bytes → Outcome WriteError Values
stored num vals (ok b) = ok ((num, b) ∷ vals)
stored num vals (err e) = err (field_error e)

stored_name : Text → Text → Values → Outcome FieldError Bytes → Outcome WriteError Values
stored_name table name vals (ok b) = ok ((17, b) ∷ vals)
stored_name table name vals (err e) = err (card_names_config table name e.reason)

module _ (u : Unicode) where
  -- The closure `put`
  put : ℕ → Text → Text → Values → Outcome WriteError Values
  unfolding stored
  put num wire value vals =
      stored num vals (encode_field u wire (trim_edges u value) (kupain_width num))

  -- The closure `required`
  required : Text → Text → Outcome WriteError (Unit {0})
  required wire value =
      if is_empty (trim_space u (normalize1255 u (trim_edges u value)))
      then refuse wire is_required
      else ok tt

  -- F17: a name that cannot be written is the configuration's fault.
  put_card_name : Text → Text → Values → Outcome WriteError Values
  unfolding stored_name
  put_card_name table name vals =
      stored_name table name vals (encode_field u table (trim_edges u name) (kupain_width 17))

  -- F2 to F7
  document_values : ReceiptRequest → ℤ → Outcome WriteError Values
  unfolding check_number day_or_refuse required put
  document_values req number = do
    required (codes "accountKey") req.account_key
    v2 ← put 2 (codes "accountKey") req.account_key []
    n ← check_number number
    v3 ← put 3 (codes "receiptNumber") n v2
    v4 ← put 4 (codes "receiptType") kupain_receipt_type v3
    day ← day_or_refuse (u.day_text req.settled_date)
    v5 ← put 5 (codes "settledDate") day v4
    let v6 = (6, value_of 5 v5) ∷ v5
    required (codes "remarks") req.remarks
    put 7 (codes "remarks") req.remarks v6

  -- F12 to F17
  payment_values :
      ReceiptRequest → ReceiptCardNames → Values → Outcome WriteError (Values × List Warning)
  unfolding is_one put put_card_name check
  payment_values req names v7 = do
    amount ← format_amount req.amount_minor
    v12 ← put 12 (codes "amountMinor") amount v7
    check (is_one req.installments) (codes "installments") must_be_one
    v16 ← put 16 (codes "installments") (codes "1") v12
    check (is_card_code req.card_issuer) (codes "cardIssuer") not_digits
    check (is_card_code req.card_brand) (codes "cardBrand") not_digits
    let (name, table, warnings) = card_name u req.card_issuer req.card_brand names
    v17 ← put_card_name table name v16
    ok (v17, warnings)

  -- F20 to F27
  account_values : ReceiptRequest → Values → Outcome WriteError Values
  unfolding required put
  account_values req v17 = do
    v20 ← put 20 (codes "agentKey") req.agent_key v17
    required (codes "confirmationCode") req.confirmation_code
    v22 ← put 22 (codes "confirmationCode") req.confirmation_code v20
    v23 ← put 23 (codes "providerUid") req.provider_uid v22
    required (codes "name") req.name
    v24 ← put 24 (codes "name") req.name v23
    v25 ← put 25 (codes "address") req.address v24
    put 27 (codes "phone") req.phone v25

  -- F28, F42 and F43
  contact_values : ReceiptRequest → Values → Outcome WriteError Values
  unfolding put check
  contact_values req v27 = do
    check (is_four_ascii_digits req.last4) (codes "last4") not_digits
    v28 ← put 28 (codes "last4") req.last4 v27
    v42 ← put 42 (codes "email") req.email v28
    put 43 (codes "confirmationCode") req.confirmation_code v42

  -- The values of buildKUPAINRecord, in the order of its checks, and the warnings.
  unfoldable pub kupain_values :
      ReceiptRequest → ℤ → ReceiptCardNames → Outcome WriteError (Values × List Warning)
  unfolding document_values payment_values account_values contact_values
  kupain_values req number names = do
    v7 ← document_values req number
    p ← payment_values req names v7
    v27 ← account_values req (p.0)
    v43 ← contact_values req v27
    ok (v43, p.1)

-- The last loop of buildKUPAINRecord. The panic after it, for a length other than 1259, is left
-- out.
unfoldable pub write_fields : List KupainField → Values → Bytes
write_fields [] vals = []
write_fields (f ∷ fs) vals =
    let rest = write_fields fs vals in
    let v = value_of f.num vals in
    if f.width == 0 then rest else (v ++ replicate (f.width + 1 - length v) space) ++ rest

written : Outcome WriteError (Values × List Warning) → Outcome WriteError (Bytes × List Warning)
unfolding write_fields
written (err e) = err e
written (ok (vals, warnings)) = ok (write_fields kupain_fields vals, warnings)

with_line_feed :
    Outcome WriteError (Bytes × List Warning) → Outcome WriteError (Bytes × List Warning)
with_line_feed (err e) = err e
with_line_feed (ok (bytes, warnings)) = ok (bytes ++ (line_feed ∷ []), warnings)

-- buildKUPAINRecord
unfoldable pub build_kupain_record :
    Unicode → ReceiptRequest → ℤ → ReceiptCardNames → Outcome WriteError (Bytes × List Warning)
unfolding written kupain_values
build_kupain_record u req number names = written (kupain_values u req number names)

-- generateKUPAINDOC
unfoldable pub generate_kupain_doc :
    Unicode → ReceiptRequest → ℤ → ReceiptCardNames → Outcome WriteError (Bytes × List Warning)
unfolding with_line_feed build_kupain_record
generate_kupain_doc u req number names = with_line_feed (build_kupain_record u req number names)

-- A line of KUPAIN.prm: the first and last position, or 0 and 0, and the title.
pub record PrmLine : Type 0 where
  pub first : ℕ
  pub last : ℕ
  pub title : Text

-- The loop of generateKUPAINPRM: the lines, and its `pos` at the end.
unfoldable pub prm_lines : ℕ → List KupainField → List PrmLine × ℕ
prm_lines at [] = ([], at)
prm_lines at (f ∷ fs) =
    let empty = f.width == 0 in
    let last = at + f.width - 1 in
    let (rest, end_pos) = prm_lines (if empty then at else last + 2) fs in
    (
      record { first = if empty then 0 else at; last = if empty then 0 else last; title = f.title }
          ∷ rest,
      end_pos,
    )

line_text : PrmLine → Text
line_text l = format l.first ++ (b' ' ∷ (format l.last ++ (codes " ;" ++ l.title)))

-- The lines of the file, each encoded and ended; a title that is not Windows-1255 is a panic in
-- the source, here the error.
encode_lines : Unicode → List PrmLine → Outcome Reason Bytes
unfolding line_text
encode_lines u [] = ok []
encode_lines u (l ∷ ls) = do
  b ← encode1255_strict u (line_text l)
  rest ← encode_lines u ls
  ok (b ++ (line_feed ∷ rest))

unfoldable pub kupain_prm_lines : List PrmLine × ℕ
unfolding prm_lines
kupain_prm_lines = prm_lines 1 kupain_fields

-- generateKUPAINPRM
unfoldable pub generate_kupain_prm : Unicode → Outcome Reason Bytes
unfolding encode_lines kupain_prm_lines
generate_kupain_prm u = do
  head ← encode1255_strict u (format (kupain_prm_lines.1) ++ hebrew " ;`exj xyend - 1")
  rest ← encode_lines u (kupain_prm_lines.0)
  ok (head ++ (line_feed ∷ rest))
