-- ===== src/Documents/Fields/Laws.antt =====
-- internal/erp/hasavshevet/document_fields.go: the checked fields beside the widths of their lines.
use digi_erp_connector.Base.{
  ℕ, suc, ◌+◌, ◌^◌, ◌≤◌, ◌≡◌, ◌⊎◌, inl, inr, refl, ap, subst, arith, Text, text_eq_sound, is_empty,
  true, false, not, ◌||◌, ◌&&◌, Option, none, some, [], ◌∷◌, ◌++◌, ◌==◌, ltb, ltb→le, length,
  Outcome, ok, err, if_err-ok,
}
use digi_erp_connector.Base.Int.{ℤ, pos, negsuc, int_is_zero, int_lt}
use digi_erp_connector.Base.Decimal.{parse_int64, format, format_int64, length-format}
use digi_erp_connector.Documents.Imovein.{width}
use digi_erp_connector.Documents.Encoding.{FieldError}
use digi_erp_connector.Documents.Fields.{
  power_of_ten, max_for_width, all_ascii_digits, cut_point, bad_fraction, two_decimals, vat_text,
  format_parts, format_vat_percent, is_own_text, validate_document_fields,
}
use digi_erp_connector.Orders.Types.{OrderRequest}

length-vat_text :
    (o : Option ℤ) (frac : Option Text) (t : Text) → vat_text o frac ≡ ok t → length t ≤ width 18
unfolding vat_text
length-vat_text none frac t h = absurd (cc)
length-vat_text (some n) frac t h =
    let out = format_int64 n ++ (b'.' ∷ two_decimals frac) in
    let (short, same) = if_err-ok (ltb (width 18) (length out)) _ (ok out) h in
    let out_is : out ≡ t = cc in
    subst (λ x. length x ≤ width 18) out_is (ltb→le (width 18) (length out) short)

length-format_parts :
    (p : Text × Option Text) (t : Text) → format_parts p ≡ ok t → length t ≤ width 18
unfolding format_parts
length-format_parts (whole, frac) t h = length-vat_text (parse_int64 whole) frac t (
    (if_err-ok (is_empty whole || not (all_ascii_digits whole) || bad_fraction frac) _
      (vat_text (parse_int64 whole) frac) h).1)

own_text : (s : Text) (o : Outcome FieldError Text) → is_own_text s o ≡ true → o ≡ ok s
unfolding is_own_text
own_text s (ok t) h = ap ok (text_eq_sound t s h)
own_text s (err e) h = absurd (cc)

-- A document number that is absent, or positive and printed within the width of its line.
abbrev pub FitsLine : ℕ → ℤ → Type 0
FitsLine line d =
    (d ≡ pos 0) ⊎ ((n : ℕ) × (d ≡ pos n) × (1 ≤ n) × (length (format_int64 d) ≤ width line))

-- A number that is absent, or from 1 to the highest of its line, is written in its line's width.
fits_line :
    (d : ℤ) (line most w : ℕ)
    → width line ≡ suc w
    → max_for_width line ≡ most
    → most + 1 ≡ 10 ^ suc w
    → (not (int_is_zero d) && (int_lt d (pos 1) || int_lt (pos (max_for_width line)) d)) ≡ false
    → FitsLine line d
fits_line (negsuc n) line most w e m b h = absurd (cc)
fits_line (pos n) line most w e m b h =
    let within =
      in_range n most (subst (λ x. (not (n == 0) && (ltb n 1 || ltb x n)) ≡ false) m h) in
    elim within [
      | inl absent ↦ inl (ap pos absent)
      | inr (low, high) ↦
          let short : length (format n) ≤ suc w = length-format n w (omega arith) in
          inr (n, refl, low, unfold format_int64 in rw e short)
    ]
  where
    in_range :
        (n most : ℕ)
        → (not (n == 0) && (ltb n 1 || ltb most n)) ≡ false
        → (n ≡ 0) ⊎ ((1 ≤ n) × (n ≤ most))
    in_range n most g = ground arith

vat_fits :
    (s : Text)
    → (not (is_empty s) && not (is_own_text s (format_vat_percent s))) ≡ false
    → length s ≤ width 18
unfolding format_vat_percent
vat_fits [] h = omega arith
vat_fits (c ∷ s) h =
    let own : is_own_text (c ∷ s) (format_vat_percent (c ∷ s)) ≡ true = ground arith in
    length-format_parts (cut_point (c ∷ s)) (c ∷ s)
      (own_text (c ∷ s) (format_vat_percent (c ∷ s)) own)

digits_fit :
    (s : Text)
    → (not (is_empty s) && (ltb (width 8) (length s) || not (all_ascii_digits s))) ≡ false
    → length s ≤ width 8
digits_fit [] h = omega arith
digits_fit (c ∷ s) h =
    let short : ltb (width 8) (length (c ∷ s)) ≡ false = ground arith in
    ltb→le (width 8) (length (c ∷ s)) short

module _ {F : Type 0} where
  -- The document fields of a request that passes the check fit their IMOVEIN lines: documentId and
  -- warehouse are 0 or positive with a print that fits lines 4 and 12, vatPercent fits line 18 and
  -- asmahta2 line 8, so padW1255 cuts none of them.
  pub validate_document_fields-ok :
      (req : OrderRequest F)
      → validate_document_fields req ≡ ok tt
      → FitsLine 4 req.document_id
        × FitsLine 12 req.warehouse
        × (length req.vat_percent ≤ width 18)
        × (length req.asmahta2 ≤ width 8)
  unfolding validate_document_fields width max_for_width power_of_ten
  validate_document_fields-ok req h =
      let (d, h1) =
        if_err-ok
          (not (int_is_zero req.document_id)
            && (int_lt req.document_id (pos 1) || int_lt (pos (max_for_width 4)) req.document_id))
          _ _ h in
      let (w, h2) =
        if_err-ok
          (not (int_is_zero req.warehouse)
            && (int_lt req.warehouse (pos 1) || int_lt (pos (max_for_width 12)) req.warehouse))
          _ _ h1 in
      let (v, h3) =
        if_err-ok
          (not (is_empty req.vat_percent)
            && not (is_own_text req.vat_percent (format_vat_percent req.vat_percent)))
          _ _ h2 in
      let (a, h4) =
        if_err-ok
          (not (is_empty req.asmahta2)
            && (ltb (width 8) (length req.asmahta2) || not (all_ascii_digits req.asmahta2)))
          _ _ h3 in
      (
        fits_line req.document_id 4 99 1 refl refl (omega arith) d,
        fits_line req.warehouse 12 999999999 8 refl refl (omega arith) w,
        vat_fits req.vat_percent v,
        digits_fit req.asmahta2 a,
      )
