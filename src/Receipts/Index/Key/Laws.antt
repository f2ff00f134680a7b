-- ===== src/Receipts/Index/Key/Laws.antt =====
-- internal/erp/hasavshevet/receipt_index.go: what canonicalReceiptKey lets through.
use digi_erp_connector.Base.{
  ℕ, suc, ◌≤◌, ◌⊎◌, if◌then◌else◌, ==_iff, ◌≡◌, refl, ap, subst, ◌∙◌, inl, inr, arith, codes,
  Bool-cases, Text, Bool, true, false, ◌&&◌, some, [], ◌∷◌, map, ◌==◌, length, has_prefix,
}
use digi_erp_connector.Receipts.Index.{path}
use digi_erp_connector.Receipts.Index.Key.{
  canonical_receipt_key, all_key_chars, is_key_char, is_dash_place, is_hex_digit, lower,
}

hex_lower : (c : ℕ) → is_hex_digit c ≡ true → is_hex_digit (lower c) ≡ true
unfolding is_hex_digit lower
hex_lower c h = ground arith

hex_lower_again : (c : ℕ) → is_hex_digit c ≡ true → lower (lower c) ≡ lower c
unfolding is_hex_digit lower
hex_lower_again c h = ground arith

dash_lower : (c : ℕ) → (c == b'-') ≡ true → lower c ≡ c
unfolding lower
dash_lower c h = ground arith

char_lower :
    (i c : ℕ)
    → is_key_char i c ≡ true
    → (is_key_char i (lower c) ≡ true) × (lower (lower c) ≡ lower c)
unfolding is_key_char
char_lower i c = elim (Bool-cases (is_dash_place i)) [
  | inl dash ↦ rw dash (λ h. let e = dash_lower c h in (ap (λ x. x == b'-') e ∙ h, ap lower e))
  | inr hex ↦ rw hex (λ h. (hex_lower c h, hex_lower_again c h))
]

and_both : (a b : Bool) → (a && b) ≡ true → (a ≡ true) × (b ≡ true)
and_both true b h = (refl, h)
and_both false b h = absurd (cc)

all_lower :
    (i : ℕ) (s : Text)
    → all_key_chars i s ≡ true
    → (all_key_chars i (map lower s) ≡ true) × (map lower (map lower s) ≡ map lower s)
unfolding all_key_chars
all_lower i [] h = (refl, refl)
all_lower i (c ∷ s) h =
    let (first, rest) = and_both (is_key_char i c) (all_key_chars (suc i) s) h in
    let (f, e) = char_lower i c first in
    let (r, d) = all_lower (suc i) s rest in (ground (arith, f, r), cc (e, d))

length-map : (f : ℕ → ℕ) (s : Text) → length (map f s) ≡ length s
length-map f [] = refl
length-map f (c ∷ s) = ap suc (length-map f s)

-- What a key that is let through looks like.
canonical_cases :
    (key k : Text)
    → canonical_receipt_key key ≡ some k
    → (length key ≡ 36) × (all_key_chars 0 key ≡ true) × (map lower key ≡ k)
unfolding canonical_receipt_key
canonical_cases key k h = ground arith

-- The form of a UUID: a dash stands for itself, any other character for a hex digit.
abbrev pub uuid_form : Text
uuid_form = codes "hhhhhhhh-hhhh-hhhh-hhhh-hhhhhhhhhhhh"

-- A digit, or a letter from a to f in either case.
abbrev pub IsHexDigit : ℕ → Type 0
IsHexDigit c = ((b'0' ≤ c) × (c ≤ b'9')) ⊎ ((b'a' ≤ c) × (c ≤ b'f')) ⊎ ((b'A' ≤ c) × (c ≤ b'F'))

-- A text of a form, character by character.
abbrev pub HasForm : Text → Text → Type 0
HasForm [] [] = Unit
HasForm [] (c ∷ s) = ⊥
HasForm (f ∷ fs) [] = ⊥
HasForm (f ∷ fs) (c ∷ s) = (if f == b'-' then c ≡ b'-' else IsHexDigit c) × HasForm fs s

form_from : ℕ → ℕ → Text
form_from i ℕ.zero = []
form_from i (suc n) = (if is_dash_place i then b'-' else b'h') ∷ form_from (suc i) n

hex_digit : (c : ℕ) → is_hex_digit c ≡ true → IsHexDigit c
unfolding is_hex_digit
hex_digit c h = ground arith

form_char :
    (i c : ℕ)
    → is_key_char i c ≡ true
    → if (if is_dash_place i then b'-' else b'h') == b'-' then c ≡ b'-' else IsHexDigit c
unfolding is_key_char
form_char i c = elim (Bool-cases (is_dash_place i)) [
  | inl dash ↦ rw dash (λ h. (==_iff c b'-').0 h)
  | inr hex ↦ rw hex (λ h. hex_digit c h)
]

form_from-HasForm :
    (i n : ℕ) (s : Text) → length s ≡ n → all_key_chars i s ≡ true → HasForm (form_from i n) s
unfolding form_from all_key_chars
form_from-HasForm i ℕ.zero [] len h = tt
form_from-HasForm i ℕ.zero (c ∷ s) len h = absurd (omega (arith, len))
form_from-HasForm i (suc n) [] len h = absurd (omega (arith, len))
form_from-HasForm i (suc n) (c ∷ s) len h =
    let (first, rest) = and_both (is_key_char i c) (all_key_chars (suc i) s) h in
    (form_char i c first, form_from-HasForm (suc i) n s (omega (arith, len)) rest)

uuid_form_lem : form_from 0 36 ≡ uuid_form
unfolding form_from is_dash_place
uuid_form_lem = refl

-- A key that is let through has the form of a UUID.
pub canonical-HasForm : (key k : Text) → canonical_receipt_key key ≡ some k → HasForm uuid_form key
canonical-HasForm key k h =
    let (len, chars, same) = canonical_cases key k h in
    subst (λ f. HasForm f key) uuid_form_lem (form_from-HasForm 0 36 key len chars)

-- A key that canonicalReceiptKey gives is given again, unchanged, and the name of its file does
-- not begin with a dot.
pub canonical-again :
    (key k : Text)
    → canonical_receipt_key key ≡ some k
    → (canonical_receipt_key k ≡ some k) × (has_prefix (path k) (codes ".") ≡ false)
canonical-again key k h =
    let (len, chars, same) = canonical_cases key k h in
    let (again, fixed) = all_lower 0 key chars in
    subst (λ t. (canonical_receipt_key t ≡ some t) × (has_prefix (path t) (codes ".") ≡ false)) same
      (again_lem len again fixed, visible key len chars)
  where
    again_lem :
        length key ≡ 36
        → all_key_chars 0 (map lower key) ≡ true
        → map lower (map lower key) ≡ map lower key
        → canonical_receipt_key (map lower key) ≡ some (map lower key)
    again_lem len again fixed =
        unfold canonical_receipt_key in rw (length-map lower key, len, again, fixed) refl

    hex_visible : (c : ℕ) → is_hex_digit c ≡ true → (lower c == b'.') ≡ false
    hex_visible c g = unfold is_hex_digit lower in ground arith

    visible :
        (s : Text)
        → length s ≡ 36
        → all_key_chars 0 s ≡ true
        → has_prefix (path (map lower s)) (codes ".") ≡ false
    visible [] len g = absurd (omega (arith, len))
    visible (c ∷ s) len g =
        let hex : is_hex_digit c ≡ true =
          (unfold all_key_chars is_key_char is_dash_place in ground arith) in
        unfold path has_prefix in rw (hex_visible c hex) refl
