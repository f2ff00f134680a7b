-- ===== src/Documents/Fields.antt =====
-- internal/erp/hasavshevet/document_fields.go: the document fields of an order, and the check that
-- each fits its IMOVEIN line.
pub mod Laws
pub mod Vat
use digi_erp_connector.Base.{
  ℕ, zero, suc, ◌-◌, ◌*◌, Text, codes, text_eq, is_empty, Bool, true, false, not, ◌||◌, ◌&&◌,
  Option, none, some, List, [], ◌∷◌, ◌++◌, if◌then◌else◌, ◌==◌, leb, ltb, length, Outcome, ok, err,
}
use digi_erp_connector.Base.Int.{ℤ, pos, int_is_zero, int_lt}
use digi_erp_connector.Base.Decimal.{parse_int64, format_int64}
use digi_erp_connector.Documents.Imovein.{width}
use digi_erp_connector.Documents.Encoding.{FieldError, out_of_range}
use digi_erp_connector.Documents.Kupain.{all_digits}
use digi_erp_connector.Orders.Types.{OrderRequest}

abbrev bad_field {ℓ} : {A : Type ℓ} → Text → Outcome FieldError A
bad_field name = err (record { field = name; reason = out_of_range })

-- The loop of maxForWidth
unfoldable pub power_of_ten : ℕ → ℕ
power_of_ten zero = 1
power_of_ten (suc n) = 10 * power_of_ten n

unfoldable pub max_for_width : ℕ → ℕ
unfolding power_of_ten width
max_for_width line = power_of_ten (width line) - 1

unfoldable pub all_ascii_digits : Text → Bool
unfolding all_digits
all_ascii_digits s = not (is_empty s) && all_digits s

-- strings.Cut at the first point: what stands before it, and what stands after it if there is one.
unfoldable pub cut_point : Text → Text × Option Text
cut_point [] = ([], none)
cut_point (c ∷ s) =
    let (whole, frac) = cut_point s in if c == b'.' then ([], some s) else (c ∷ whole, frac)

bad_fraction : Option Text → Bool
unfolding all_ascii_digits
bad_fraction none = false
bad_fraction (some frac) = is_empty frac || ltb 2 (length frac) || not (all_ascii_digits frac)

-- Zeros up to two decimals
two_decimals : Option Text → Text
two_decimals none = codes "00"
two_decimals (some []) = codes "00"
two_decimals (some (c ∷ [])) = c ∷ codes "0"
two_decimals (some (c ∷ d ∷ s)) = c ∷ d ∷ s

vat_text : Option ℤ → Option Text → Outcome FieldError Text
unfolding two_decimals
vat_text none frac = bad_field (codes "vatPercent")
vat_text (some n) frac =
    let out = format_int64 n ++ (b'.' ∷ two_decimals frac) in
    if ltb (width 18) (length out) then bad_field (codes "vatPercent") else ok out

format_parts : Text × Option Text → Outcome FieldError Text
unfolding vat_text bad_fraction
format_parts (whole, frac) =
    if is_empty whole || not (all_ascii_digits whole) || bad_fraction frac
    then bad_field (codes "vatPercent")
    else vat_text (parse_int64 whole) frac

-- FormatVatPercent
unfoldable pub format_vat_percent : Text → Outcome FieldError Text
unfolding format_parts
format_vat_percent s = format_parts (cut_point s)

is_own_text : Text → Outcome FieldError Text → Bool
is_own_text s (ok t) = text_eq t s
is_own_text s (err e) = false

-- ValidateDocumentFields
unfoldable pub validate_document_fields :
    {F : Type 0} → OrderRequest F → Outcome FieldError (Unit {0})
unfolding is_own_text
validate_document_fields req =
    if not (int_is_zero req.document_id)
      && (int_lt req.document_id (pos 1) || int_lt (pos (max_for_width 4)) req.document_id)
    then bad_field (codes "documentId")
    else if not (int_is_zero req.warehouse)
        && (int_lt req.warehouse (pos 1) || int_lt (pos (max_for_width 12)) req.warehouse)
    then bad_field (codes "warehouse")
    else if not (is_empty req.vat_percent)
        && not (is_own_text req.vat_percent (format_vat_percent req.vat_percent))
    then bad_field (codes "vatPercent")
    else if not (is_empty req.asmahta2)
        && (ltb (width 8) (length req.asmahta2) || not (all_ascii_digits req.asmahta2))
    then bad_field (codes "asmahta2")
    else ok tt
