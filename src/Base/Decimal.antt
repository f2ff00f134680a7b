-- ===== src/Base/Decimal.antt =====
-- strconv.FormatInt of a number from 0 up, and strconv.ParseInt, both in base 10 and 64 bits.
use Prim.Native.Nat.{ℕ, zero, suc, ◌+◌, ◌-◌, ◌*◌, ◌/◌, ◌%◌, ◌≤◌, ◌<◌, ◌^◌}
use mathlib.Core.Path.{◌≡◌, refl, ◌∙◌, sym}
use mathlib.Core.Logic.{◌≢◌, inl, inr}
use mathlib.Core.Bool.{true, false}
use mathlib.Core.Option.{Option, none, some}
use mathlib.Core.List.{[], ◌∷◌, cons-ne-nil}
use native.Mathlib.Omega.{arith}
use native.Mathlib.Nat.{pow-suc}
use digi_erp_connector.Base.Tests.{◌==◌, leb, if◌then◌else◌, Bool-cases}
use digi_erp_connector.Base.Lists.{All, length}
use digi_erp_connector.Base.Strings.{Text, codes, is_digit}
use digi_erp_connector.Base.Int.{ℤ, pos, negsuc, max_int64}

-- The digits of `n` in front of `acc`; the fuel is more than `n`.
show_digits : ℕ → ℕ → Text → Text
show_digits zero n acc = acc
show_digits (suc f) n acc =
    let more = show_digits f (n / 10) ((b'0' + n % 10) ∷ acc) in
    if leb n 9 then (b'0' + n) ∷ acc else more

unfoldable pub format : ℕ → Text
unfolding show_digits
format n = show_digits (suc n) n []

-- The same of any int64.
unfoldable pub format_int64 : ℤ → Text
format_int64 (pos n) = format n
format_int64 (negsuc n) = b'-' ∷ format (n + 1)

-- The number that decimal digits spell behind `n`; none at another character.
unfoldable pub read_digits : ℕ → Text → Option ℕ
read_digits n [] = some n
read_digits n (c ∷ s) = if is_digit c then read_digits (n * 10 + (c - b'0')) s else none

read_unsigned : Text → Option ℕ
unfolding read_digits
read_unsigned [] = none
read_unsigned (c ∷ s) = read_digits 0 (c ∷ s)

non_negative : Option ℕ → Option ℤ
non_negative none = none
non_negative (some n) = if leb n max_int64 then some (pos n) else none

negative : Option ℕ → Option ℤ
negative none = none
negative (some zero) = some (pos 0)
negative (some (suc n)) = if leb n max_int64 then some (negsuc n) else none

unfoldable pub parse_int64 : Text → Option ℤ
unfolding read_unsigned non_negative negative
parse_int64 [] = none
parse_int64 (c ∷ s) =
    if c == b'-'
    then negative (read_unsigned s)
    else if c == b'+'
    then non_negative (read_unsigned s)
    else non_negative (read_unsigned (c ∷ s))

abbrev pub IsDigit : ℕ → Type 0
IsDigit c = is_digit c ≡ true

read_digits-show :
    (f n : ℕ) (acc : Text) → n < f → read_digits 0 (show_digits f n acc) ≡ read_digits n acc
unfolding show_digits read_digits
read_digits-show zero n acc h = elim h [ ]
read_digits-show (suc f) n acc h =
    ground (arith, read_digits-show f (n / 10) ((b'0' + n % 10) ∷ acc))

show_digits-All : (f n : ℕ) (acc : Text) → All IsDigit acc → All IsDigit (show_digits f n acc)
unfolding show_digits
show_digits-All zero n acc h = h
show_digits-All (suc f) n acc h = elim (Bool-cases (leb n 9)) [
  | inl small ↦ rw small (ground arith, h)
  | inr large ↦ rw large (show_digits-All f (n / 10) _ (ground arith, h))
]

show_digits-ne-nil : (f n : ℕ) (acc : Text) → acc ≢ [] → show_digits f n acc ≢ []
unfolding show_digits
show_digits-ne-nil zero n acc h = h
show_digits-ne-nil (suc f) n acc h = elim (Bool-cases (leb n 9)) [
  | inl small ↦ rw small (cons-ne-nil _ _)
  | inr large ↦ rw large (show_digits-ne-nil f (n / 10) _ (cons-ne-nil _ _))
]

pub format-ne-nil : (n : ℕ) → format n ≢ []
unfolding format
format-ne-nil n = elim (Bool-cases (leb n 9)) [
  | inl small ↦ rw small (cons-ne-nil _ _)
  | inr large ↦ rw large (show_digits-ne-nil n (n / 10) _ (cons-ne-nil _ _))
]

pub format-All : (n : ℕ) → All IsDigit (format n)
unfolding format
format-All n = show_digits-All (suc n) n [] tt

length-show_digits :
    (f n w : ℕ) (acc : Text)
    → n < f
    → n < 10 ^ suc w
    → length (show_digits f n acc) ≤ suc w + length acc
unfolding show_digits
length-show_digits zero n w acc h b = absurd (omega arith)
length-show_digits (suc f) n zero acc h b = elim (Bool-cases (leb n 9)) [
  | inl small ↦ rw small (omega arith)
  | inr large ↦ absurd (ground arith)
]
length-show_digits (suc f) n (suc w) acc h b =
    let shifted = pow-suc 10 (suc w) in
    elim (Bool-cases (leb n 9)) [
      | inl small ↦ rw small (omega arith)
      | inr large ↦
          let some_left : 9 < n = ground arith in
          rw large (
            omega (
              arith,
              length-show_digits f (n / 10) w ((b'0' + n % 10) ∷ acc) (omega arith) (omega arith),
            ))
    ]

-- A number below 10 ^ w, for w above 0, has at most w digits.
pub length-format : (n w : ℕ) → n < 10 ^ suc w → length (format n) ≤ suc w
unfolding format
length-format n w b = omega (arith, length-show_digits (suc n) n w [] (omega arith) b)

parse_int64_of_digits :
    (s : Text) {n : ℕ}
    → s ≢ []
    → All IsDigit s
    → read_digits 0 s ≡ some n
    → n ≤ max_int64
    → parse_int64 s ≡ some (pos n)
unfolding parse_int64
parse_int64_of_digits [] ne d r b = absurd (ne refl)
parse_int64_of_digits (c ∷ s) ne d r b = ground arith

pub read_digits-format : (n : ℕ) → read_digits 0 (format n) ≡ some n
unfolding format read_digits
read_digits-format n = read_digits-show (suc n) n [] (omega arith)

-- An int64 from 0 up is read back from its decimal print.
pub parse_int64-format : (n : ℕ) → n ≤ max_int64 → parse_int64 (format n) ≡ some (pos n)
parse_int64-format n h =
    parse_int64_of_digits (format n) (format-ne-nil n) (format-All n) (read_digits-format n) h

some_eq : {m n : ℕ} → some m ≡ some n → m ≡ n
some_eq h = cc

non_negative_bound : (o : Option ℕ) {n : ℕ} → non_negative o ≡ some (pos n) → n ≤ max_int64
unfolding non_negative
non_negative_bound none h = cc
non_negative_bound (some m) h = ground arith

negative_bound : (o : Option ℕ) {n : ℕ} → negative o ≡ some (pos n) → n ≤ max_int64
unfolding negative
negative_bound none h = cc
negative_bound (some zero) h = ground arith
negative_bound (some (suc m)) h = ground arith

non_negative-pos : (o : Option ℕ) (z : ℤ) → non_negative o ≡ some z → (n : ℕ) × (z ≡ pos n)
unfolding non_negative
non_negative-pos none z h = absurd (cc)
non_negative-pos (some m) z h = elim (Bool-cases (leb m max_int64)) [
  | inl fits ↦ (m, ground arith)
  | inr large ↦ absurd (ground arith)
]

-- What begins with a digit is no negative number.
pub parse_int64-pos :
    (c : ℕ) (s : Text) (z : ℤ)
    → is_digit c ≡ true
    → parse_int64 (c ∷ s) ≡ some z
    → (n : ℕ) × (z ≡ pos n)
unfolding parse_int64
parse_int64-pos c s z d h =
    let no_minus : (c == b'-') ≡ false = ground arith in
    let no_plus : (c == b'+') ≡ false = ground arith in
    let plain : non_negative (read_unsigned (c ∷ s)) ≡ some z = ground arith in
    non_negative-pos (read_unsigned (c ∷ s)) z plain

-- What is parsed fits an int64.
pub parse_int64_bound : (s : Text) {n : ℕ} → parse_int64 s ≡ some (pos n) → n ≤ max_int64
unfolding parse_int64
parse_int64_bound [] h = cc
parse_int64_bound (c ∷ s) h = ground (
  arith,
  negative_bound (read_unsigned s),
  non_negative_bound (read_unsigned s),
  non_negative_bound (read_unsigned (c ∷ s)),
)

-- Two numbers with one print are one number.
pub format-injective : (m n : ℕ) → format m ≡ format n → m ≡ n
format-injective m n e = some_eq (sym (read_digits-format m) ∙ (rw e (read_digits-format n)))

format_1024 : format 1024 ≡ codes "1024"
unfolding format
format_1024 = refl

parse_signs :
    (parse_int64 (codes "-9223372036854775808") ≡ some (negsuc max_int64))
    × (parse_int64 (codes "9223372036854775808") ≡ none)
    × (parse_int64 (codes "+7") ≡ some (pos 7))
    × (parse_int64 (codes "1.5") ≡ none)
unfolding parse_int64
parse_signs = (refl, refl, refl, refl)
