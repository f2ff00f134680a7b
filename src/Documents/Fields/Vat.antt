-- ===== src/Documents/Fields/Vat.antt =====
-- internal/erp/hasavshevet/document_fields.go: FormatVatPercent on its own results.
use digi_erp_connector.Base.{
  ℕ, ◌≤◌, ◌≡◌, ◌≢◌, refl, ap, ◌∙◌, subst, arith, Text, is_empty, Bool, true, false, not, ◌||◌,
  Option, none, some, [], ◌∷◌, ◌++◌, ◌==◌, ltb, length, ok, if_err-ok, if_false, All, is_digit,
  Option-cases, inl, inr,
}
use digi_erp_connector.Base.Int.{pos, max_int64}
use digi_erp_connector.Base.Decimal.{
  IsDigit, parse_int64, format, format_int64, format-All, format-ne-nil, parse_int64-format,
  parse_int64_bound, parse_int64-pos,
}
use digi_erp_connector.Documents.Imovein.{width}
use digi_erp_connector.Documents.Kupain.{all_digits}
use digi_erp_connector.Documents.Fields.{
  all_ascii_digits, cut_point, bad_fraction, two_decimals, vat_text, format_parts,
  format_vat_percent,
}

all_digits-All : (s : Text) → all_digits s ≡ true → All IsDigit s
unfolding all_digits
all_digits-All [] h = tt
all_digits-All (c ∷ s) h = (ground arith, all_digits-All s (ground arith))

All-all_digits : (s : Text) → All IsDigit s → all_digits s ≡ true
unfolding all_digits
All-all_digits [] h = refl
All-all_digits (c ∷ s) (d, h) = ground (arith, All-all_digits s h)

-- The first point is behind the digits.
cut_point-append : (ds f : Text) → All IsDigit ds → cut_point (ds ++ (b'.' ∷ f)) ≡ (ds, some f)
unfolding cut_point
cut_point-append [] f h = refl
cut_point-append (c ∷ ds) f (d, h) =
    let no_point : (c == b'.') ≡ false = ground arith in rw (cut_point-append ds f h, no_point) refl

format-all_ascii_digits : (n : ℕ) → all_ascii_digits (format n) ≡ true
unfolding all_ascii_digits
format-all_ascii_digits n =
    rw (All-all_digits (format n) (format-All n), some_digit (format n) (format-ne-nil n)) refl
  where
    some_digit : (s : Text) → s ≢ [] → is_empty s ≡ false
    some_digit [] ne = absurd (ne refl)
    some_digit (c ∷ s) ne = refl

-- Decimals that pass are written as two digits.
TwoDigits : Text → Type 0
TwoDigits t = (a b : ℕ) × (t ≡ a ∷ b ∷ []) × IsDigit a × IsDigit b

two_decimals-TwoDigits :
    (frac : Option Text) → bad_fraction frac ≡ false → TwoDigits (two_decimals frac)
unfolding TwoDigits two_decimals bad_fraction all_ascii_digits all_digits
two_decimals-TwoDigits none h = (b'0', b'0', refl, refl, refl)
two_decimals-TwoDigits (some []) h = absurd (cc)
two_decimals-TwoDigits (some (c ∷ [])) h = (c, b'0', refl, ground arith, refl)
two_decimals-TwoDigits (some (c ∷ d ∷ [])) h = (c, d, refl, ground arith, ground arith)
two_decimals-TwoDigits (some (c ∷ d ∷ e ∷ s)) h = absurd (ground arith)

bad_fraction-TwoDigits : (t : Text) → TwoDigits t → bad_fraction (some t) ≡ false
unfolding TwoDigits bad_fraction all_ascii_digits all_digits
bad_fraction-TwoDigits t (a, b, e, da, db) = rw (e, da, db) refl

two_decimals-again : (t : Text) → TwoDigits t → two_decimals (some t) ≡ t
unfolding TwoDigits two_decimals
two_decimals-again t (a, b, e, da, db) = rw e refl

none_bad : (a b c : Bool) → a ≡ false → b ≡ true → c ≡ false → (a || not b || c) ≡ false
none_bad a b c first second third = rw (first, second, third) refl

-- The parts of a text in the form are its own.
again_lem :
    (n : ℕ) (ff : Text)
    → n ≤ max_int64
    → TwoDigits ff
    → ltb (width 18) (length (format n ++ (b'.' ∷ ff))) ≡ false
    → format_vat_percent (format n ++ (b'.' ∷ ff)) ≡ ok (format n ++ (b'.' ∷ ff))
unfolding format_vat_percent format_parts vat_text format_int64
again_lem n ff bound two short =
    ap format_parts (cut_point-append (format n) ff (format-All n))
    ∙ (if_false _ _ good
        ∙ (ap (λ o. vat_text o (some ff)) (parse_int64-format n bound)
            ∙ (rw (two_decimals-again ff two) (if_false _ _ short))))
  where
    good :
        (is_empty (format n) || not (all_ascii_digits (format n)) || bad_fraction (some ff)) ≡ false
    good =
        let digits = format-all_ascii_digits n in
        let fraction = bad_fraction-TwoDigits ff two in
        let some_digit : is_empty (format n) ≡ false =
          (unfold all_ascii_digits in ground (arith, digits)) in
        none_bad (is_empty (format n)) (all_ascii_digits (format n)) (bad_fraction (some ff))
          some_digit digits fraction

parts_again :
    (whole : Text) (frac : Option Text) (t : Text)
    → format_parts (whole, frac) ≡ ok t
    → format_vat_percent t ≡ ok t
unfolding format_parts
parts_again [] frac t h = absurd (cc)
parts_again (c ∷ w) frac t h =
    let (good, worded) =
      if_err-ok (not (all_ascii_digits (c ∷ w)) || bad_fraction frac) _
        (vat_text (parse_int64 (c ∷ w)) frac) h in
    let digit : is_digit c ≡ true = (unfold all_ascii_digits all_digits in ground (arith, good)) in
    let fraction : bad_fraction frac ≡ false = ground (arith, good) in
    elim (Option-cases (parse_int64 (c ∷ w))) [
      | inl none_read ↦
          let failed : vat_text none frac ≡ ok t =
            subst (λ o. vat_text o frac ≡ ok t) none_read worded in
          absurd (unfold vat_text in cc)
      | inr (z, read) ↦
          let (n, natural) = parse_int64-pos c w z digit read in
          let is_pos : parse_int64 (c ∷ w) ≡ some (pos n) = read ∙ ap some natural in
          let said : vat_text (some (pos n)) frac ≡ ok t =
            subst (λ o. vat_text o frac ≡ ok t) is_pos worded in
          said_again n frac t (parse_int64_bound (c ∷ w) is_pos) fraction said
    ]
  where
    said_again :
        (n : ℕ) (frac : Option Text) (t : Text)
        → n ≤ max_int64
        → bad_fraction frac ≡ false
        → vat_text (some (pos n)) frac ≡ ok t
        → format_vat_percent t ≡ ok t
    said_again n frac t bound fraction said =
        unfold vat_text format_int64 in
        let out = format n ++ (b'.' ∷ two_decimals frac) in
        let (short, same) = if_err-ok (ltb (width 18) (length out)) _ (ok out) said in
        let out_is : out ≡ t = cc in
        subst (λ x. format_vat_percent x ≡ ok x) out_is
          (again_lem n (two_decimals frac) bound (two_decimals-TwoDigits frac fraction) short)

-- A VAT text that FormatVatPercent gives is taken by it again, unchanged.
pub format_vat_percent-again :
    (s t : Text) → format_vat_percent s ≡ ok t → format_vat_percent t ≡ ok t
format_vat_percent-again s t h =
    parts_again (cut_point s).0 (cut_point s).1 t (unfold format_vat_percent in h)
