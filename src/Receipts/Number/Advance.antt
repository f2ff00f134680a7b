-- ===== src/Receipts/Number/Advance.antt =====
-- internal/erp/hasavshevet/receipt_number.go: what advancePast leaves in a store that was written by
-- the program.
use digi_erp_connector.Base.{
  ℕ, ◌+◌, ◌≤◌, ◌<◌, ◌≡◌, ◌≢◌, refl, sym, subst, ◌⊎◌, inl, inr, arith, Text, is_empty, Bool, true,
  false, [], ◌∷◌, ltb, if_split, Outcome, ok, err, Outcome-cases,
}
use digi_erp_connector.Base.Int.{pos, suc_int64}
use digi_erp_connector.Base.Decimal.{format, format_int64, format-ne-nil, parse_int64-format}
use digi_erp_connector.Documents.Kupain.Tables.{max_receipt_number}
use digi_erp_connector.Receipts.Number.{
  StoreFile, StoreError, store, not_persisted, read, in_range, write, advance_past, advance_from,
  seeded_at_of,
}

abbrev pub next_store : ℕ → Text → StoreFile
next_store n at = store (format_int64 (pos n)) at

-- What is read from a store is the number in it, and no more than the last one.
pub read-next_store :
    (n m : ℕ) (at : Text)
    → 0 < n
    → n ≤ max_receipt_number + 1
    → read (next_store n at) ≡ ok m
    → (m ≡ n) × (n ≤ max_receipt_number)
unfolding read in_range format_int64
read-next_store n m at low high =
    rw (not_nil (format n) (format-ne-nil n), parse_int64-format n (omega arith))
      (λ h. ground arith)
  where
    not_nil : (s : Text) → s ≢ [] → is_empty s ≡ false
    not_nil [] ne = absurd (ne refl)
    not_nil (c ∷ s) ne = refl

-- A move past n of a store that offers `next`, at least n.
pub data Advanced (next : ℕ) (at : Text) (n : ℕ)
    : StoreFile × Outcome StoreError (Unit {0}) → Type 0 where
  refused : (x : StoreError) → Advanced next at n (next_store next at, err x)
  passed : n < next → Advanced next at n (next_store next at, ok tt)
  moved : n ≡ next → Advanced next at n (next_store (next + 1) at, ok tt)

suc_small : (n : ℕ) → n ≤ max_receipt_number → suc_int64 n ≡ pos (n + 1)
unfolding suc_int64
suc_small n h = ground arith

write_cases :
    (f : StoreFile) (writes : Bool) (n : ℕ) (at : Text)
    → 0 < n
    → n ≤ max_receipt_number + 1
    → (write f writes (pos n) at ≡ (store (format_int64 (pos n)) at, ok tt))
      ⊎ (write f writes (pos n) at ≡ (f, err not_persisted))
unfolding write
write_cases f true n at low high = inl (ground arith)
write_cases f false n at low high = inr (ground arith)

advance_from-Advanced :
    (next : ℕ) (at : Text) (n : ℕ) (writes : Bool)
    → 0 < next
    → next ≤ max_receipt_number
    → n ≤ next
    → Advanced next at n (advance_from (next_store next at) writes (pos n) (ok next))
unfolding advance_from seeded_at_of
advance_from-Advanced next at n writes low fits below =
    if_split (Advanced next at n) (ltb n next) (λ lt. passed (ground arith))
      (λ ge.
        let same : n ≡ next = ground arith in
        rw (suc_small n (ground arith))
          (elim (write_cases (next_store next at) writes (n + 1) at (omega arith)
            (omega (arith, fits, same))) [
              | inl done ↦ rw (done, same) (moved refl)
              | inr failed ↦ rw failed (refused not_persisted)
            ]))

pub advance_past-Advanced :
    (next : ℕ) (at : Text) (n : ℕ) (writes : Bool)
    → 0 < next
    → next ≤ max_receipt_number + 1
    → n ≤ next
    → Advanced next at n (advance_past (next_store next at) writes (pos n))
unfolding advance_past
advance_past-Advanced next at n writes low high below =
    elim (Outcome-cases (read (next_store next at))) [
      | inr (x, e) ↦ rw e (unfold advance_from in refused x)
      | inl (m, e) ↦ rw e (
          let (same, fits) = read-next_store next m at low high e in
          subst (λ k. Advanced next at n (advance_from (next_store next at) writes (pos n) (ok k)))
            (sym same) (advance_from-Advanced next at n writes low fits below))
    ]
