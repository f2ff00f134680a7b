-- ===== src/Base/Sort.antt =====
-- sort.Slice by a number: one of the orders that it may leave (it is not stable).
use Prim.Native.Nat.{ℕ, ◌≤◌}
use mathlib.Core.Path.{◌≡◌, refl}
use mathlib.Core.Logic.{inl, inr}
use mathlib.Core.Option.{Option, none, some}
use mathlib.Core.List.{List, [], ◌∷◌}
use native.Mathlib.Omega.{arith}
use digi_erp_connector.Base.Tests.{if◌then◌else◌, leb, leb→le, leb→lt, Bool-cases}
use digi_erp_connector.Base.Lists.{All, All-map, Pairwise}

module _ {ℓ} {A : Type ℓ} (rank : A → ℕ) where
  put : A → List A → List A
  put a [] = a ∷ []
  put a (b ∷ l) = if leb (rank a) (rank b) then a ∷ b ∷ l else b ∷ put a l

  unfoldable pub sort : List A → List A
  unfolding put
  sort [] = []
  sort (a ∷ l) = put a (sort l)

module _ {ℓ} {A : Type ℓ} (rank : A → ℕ) where
  -- The last item, the one of the highest rank in a sorted list.
  abbrev pub last? : List A → Option A
  last? [] = none
  last? (a ∷ []) = some a
  last? (a ∷ b ∷ l) = last? (b ∷ l)

module _ {ℓ κ} {A : Type ℓ} (P : A → Type κ) (rank : A → ℕ) where
  put-All : (a : A) (l : List A) → P a → All P l → All P (put rank a l)
  unfolding put
  put-All a [] pa h = (pa, h)
  put-All a (b ∷ l) pa h = elim (Bool-cases (leb (rank a) (rank b))) [
    | inl le ↦ rw le (pa, h)
    | inr gt ↦ rw gt (h.0, put-All a l pa h.1)
  ]

  put-All_inv : (a : A) (l : List A) → All P (put rank a l) → P a × All P l
  unfolding put
  put-All_inv a [] = λ h. h
  put-All_inv a (b ∷ l) = elim (Bool-cases (leb (rank a) (rank b))) [
    | inl le ↦ rw le (λ h. h)
    | inr gt ↦ rw gt (λ h. let (pa, pl) = put-All_inv a l h.1 in (pa, (h.0, pl)))
  ]

  pub sort-All : (l : List A) → All P l → All P (sort rank l)
  unfolding sort
  sort-All [] h = h
  sort-All (a ∷ l) h = put-All a (sort rank l) h.0 (sort-All l h.1)

  pub sort-All_inv : (l : List A) → All P (sort rank l) → All P l
  unfolding sort
  sort-All_inv [] h = h
  sort-All_inv (a ∷ l) h = let (pa, pl) = put-All_inv a (sort rank l) h in (pa, sort-All_inv l pl)

module _ {ℓ} {A : Type ℓ} (rank : A → ℕ) where
  abbrev pub InOrder : A → A → Type 0
  InOrder a b = rank a ≤ rank b

  put-Pairwise : (a : A) (l : List A) → Pairwise InOrder l → Pairwise InOrder (put rank a l)
  unfolding put
  put-Pairwise a [] h = (tt, tt)
  put-Pairwise a (b ∷ l) h = elim (Bool-cases (leb (rank a) (rank b))) [
    | inl le ↦ rw le (
      ((leb→le _ _ le), All-map (λ x (g : rank b ≤ rank x). omega (arith, leb→le _ _ le)) l h.0),
      h,
    )
    | inr gt ↦ rw gt (
      put-All (λ x. rank b ≤ rank x) rank a l (omega (arith, leb→lt _ _ gt)) h.0,
      put-Pairwise a l h.1,
    )
  ]

  pub sort-Pairwise : (l : List A) → Pairwise InOrder (sort rank l)
  unfolding sort
  sort-Pairwise [] = tt
  sort-Pairwise (a ∷ l) = put-Pairwise a (sort rank l) (sort-Pairwise l)

  -- Nothing in a sorted list is above its last item.
  pub last?_highest :
      (l : List A) {a : A}
      → Pairwise InOrder l
      → last? rank l ≡ some a
      → All (λ x. rank x ≤ rank a) l
  last?_highest [] h e = tt
  last?_highest (x ∷ []) h e = (ground arith, tt)
  last?_highest (x ∷ y ∷ l) h e = let below = last?_highest (y ∷ l) h.1 e in (omega arith, below)

  pub last?-eq-none : (l : List A) → last? rank l ≡ none → l ≡ []
  last?-eq-none [] h = refl
  last?-eq-none (x ∷ []) h = cc
  last?-eq-none (x ∷ y ∷ l) h = let e = last?-eq-none (y ∷ l) h in cc
