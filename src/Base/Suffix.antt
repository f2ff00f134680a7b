-- ===== src/Base/Suffix.antt =====
-- strings.HasSuffix and strings.TrimSuffix in one: the text in front of the suffix, if it ends so.
use Prim.Native.Nat.{ℕ}
use mathlib.Core.Path.{◌≡◌, refl, ap}
use mathlib.Core.Logic.{inl, inr}
use mathlib.Core.Bool.{true}
use mathlib.Core.Option.{Option, none, some}
use mathlib.Core.List.{[], ◌∷◌, ◌++◌}
use native.Mathlib.Omega.{arith}
use digi_erp_connector.Base.Tests.{if◌then◌else◌, Bool-cases}
use digi_erp_connector.Base.Lists.{length, length-append}
use digi_erp_connector.Base.Strings.{Text, text_eq, text_eq_refl, text_eq_sound}

abbrev prepend : ℕ → Option Text → Option Text
prepend c none = none
prepend c (some s) = some (c ∷ s)

unfoldable pub strip_suffix : Text → Text → Option Text
strip_suffix [] t = if text_eq [] t then some [] else none
strip_suffix (c ∷ s) t = if text_eq (c ∷ s) t then some [] else prepend c (strip_suffix s t)

longer_differs : (c : ℕ) (s t : Text) → text_eq (c ∷ (s ++ t)) t ≡ true → ⊥
longer_differs c s t h =
    omega (arith, ap length (text_eq_sound (c ∷ (s ++ t)) t h), length-append s t)

-- A text with the suffix behind it is trimmed to itself.
pub strip_suffix-append : (s t : Text) → strip_suffix (s ++ t) t ≡ some s
unfolding strip_suffix
strip_suffix-append [] [] = unfold text_eq in refl
strip_suffix-append [] (d ∷ t) = rw (text_eq_refl (d ∷ t))
strip_suffix-append (c ∷ s) t = elim (Bool-cases (text_eq (c ∷ (s ++ t)) t)) [
  | inl same ↦ absurd (longer_differs c s t same)
  | inr differ ↦ rw (differ, strip_suffix-append s t)
]
