-- ===== src/Receipts/Number/Laws.antt =====
-- internal/erp/hasavshevet/receipt_number.go: what each store operation leaves in the file.
use digi_erp_connector.Base.{
  ℕ, zero, suc, ◌+◌, ◌≤◌, ◌<◌, ◌≡◌, ◌≢◌, refl, ap, ◌∙◌, arith, Text, is_empty, Bool, true, false,
  ◌||◌, Option, none, some, List, [], ◌∷◌, ltb, if◌then◌else◌, if_both, Outcome, ok, err,
}
use digi_erp_connector.Base.Int.{ℤ, pos, negsuc, suc_int64}
use digi_erp_connector.Base.Decimal.{
  parse_int64, format, format_int64, format-ne-nil, parse_int64-format,
}
use digi_erp_connector.Documents.Kupain.Tables.{max_receipt_number}
use digi_erp_connector.Receipts.Number.{
  StoreFile, StoreError, missing, unreadable, other, store, store_unavailable, read, in_range,
  write, seeded_at_of, peek, advance_past, advance_from, seed, seed_file,
}

-- A stored number from 1 to the last one is read back.
pub read-store :
    (n : ℕ) (at : Text)
    → 0 < n
    → n ≤ max_receipt_number
    → read (store (format_int64 (pos n)) at) ≡ ok n
unfolding read in_range format_int64
read-store n at low high =
    rw (not_nil (format n) (format-ne-nil n), parse_int64-format n (omega arith)) (ground arith)
  where
    not_nil : (s : Text) → s ≢ [] → is_empty s ≡ false
    not_nil [] ne = absurd (ne refl)
    not_nil (c ∷ s) ne = refl

-- A seed changes no file that is there, whatever it holds: a store is seeded once.
pub seed_kept :
    (f : StoreFile) (statted writes : Bool) (n : ℤ) (now : Text)
    → f ≢ missing
    → (seed f statted writes n now).0 ≡ f
unfolding seed
seed_kept f statted writes (negsuc n) now there = refl
seed_kept f statted writes (pos n) now there =
    if_both Same (ltb n 1 || ltb max_receipt_number n) refl (kept f there)
  where
    Same : StoreFile × Outcome StoreError (Unit {0}) → Type 0
    Same r = r.0 ≡ f

    kept : (g : StoreFile) → g ≢ missing → (seed_file g statted writes n now).0 ≡ g
    kept missing there = absurd (there refl)
    kept unreadable there =
        unfold seed_file in
        if_both (λ (r : StoreFile × Outcome StoreError (Unit {0})). r.0 ≡ unreadable) statted refl
          refl
    kept other there =
        unfold seed_file in
        if_both (λ (r : StoreFile × Outcome StoreError (Unit {0})). r.0 ≡ other) statted refl refl
    kept (store raw at) there =
        unfold seed_file in
        if_both (λ (r : StoreFile × Outcome StoreError (Unit {0})). r.0 ≡ store raw at) statted refl
          refl

-- A file that holds no next number: none, one that cannot be read or is not the store's object, or
-- one whose number is missing, is no int64, or is not from 1 to the last one.
pub data IsUnusable : StoreFile → Type 0 where
  no_file : IsUnusable missing
  not_readable : IsUnusable unreadable
  no_store : IsUnusable other
  no_field : (at : Text) → IsUnusable (store [] at)
  no_number : (raw at : Text) → parse_int64 raw ≡ none → IsUnusable (store raw at)
  negative : (raw at : Text) (n : ℕ) → parse_int64 raw ≡ some (negsuc n) → IsUnusable (store raw at)
  zero_number : (raw at : Text) → parse_int64 raw ≡ some (pos 0) → IsUnusable (store raw at)
  too_high :
      (raw at : Text) (n : ℕ)
      → parse_int64 raw ≡ some (pos n)
      → max_receipt_number < n
      → IsUnusable (store raw at)

in_range_refused :
    (raw at : Text)
    → in_range (parse_int64 raw) ≡ err store_unavailable
    → read (store raw at) ≡ err store_unavailable
unfolding read
in_range_refused raw at h =
    if_both (λ (o : Outcome StoreError ℕ). o ≡ err store_unavailable) (is_empty raw) refl h

above_refused : (n : ℕ) → max_receipt_number < n → in_range (some (pos n)) ≡ err store_unavailable
unfolding in_range
above_refused n h = ground arith

read-IsUnusable : (f : StoreFile) → IsUnusable f → read f ≡ err store_unavailable
unfolding read in_range
read-IsUnusable _ no_file = refl
read-IsUnusable _ not_readable = refl
read-IsUnusable _ no_store = refl
read-IsUnusable _ (no_field at) = refl
read-IsUnusable _ (no_number raw at h) = in_range_refused raw at (ap in_range h)
read-IsUnusable _ (negative raw at n h) = in_range_refused raw at (ap in_range h)
read-IsUnusable _ (zero_number raw at h) = in_range_refused raw at (ap in_range h)
read-IsUnusable _ (too_high raw at n h high) =
    in_range_refused raw at (ap in_range h ∙ above_refused n high)

-- A receipt store that is missing, cannot be read, is not the store's object, or holds no number
-- from 1 to the last one is refused as unavailable by Peek and advancePast, and left as found.
pub unusable_kept :
    (f : StoreFile) (writes : Bool) (n : ℤ)
    → IsUnusable f
    → (peek f ≡ err store_unavailable) × (advance_past f writes n ≡ (f, err store_unavailable))
unfolding peek advance_past
unusable_kept f writes n bad =
    let r = read-IsUnusable f bad in
    (r, ap (advance_from f writes n) r ∙ (unfold advance_from in refl))

advance_past_lem :
    (f : StoreFile) (next : ℕ)
    → read f ≡ ok next
    → next ≤ max_receipt_number
    → 0 < next
    → advance_past f true (pos next)
      ≡ (store (format_int64 (pos (next + 1))) (seeded_at_of f), ok tt)
unfolding advance_past suc_int64 write
advance_past_lem f next r high low =
    ap (advance_from f true (pos next)) r ∙ (unfold advance_from in ground arith)

pub read-bounds : (f : StoreFile) {n : ℕ} → read f ≡ ok n → (0 < n) × (n ≤ max_receipt_number)
unfolding read
read-bounds missing h = absurd (cc)
read-bounds unreadable h = absurd (cc)
read-bounds other h = absurd (cc)
read-bounds (store raw at) h = ranged (is_empty raw) (parse_int64 raw) h
  where
    ranged :
        (b : Bool) (o : Option ℤ) {n : ℕ}
        → (if b then err store_unavailable else in_range o) ≡ ok n
        → (0 < n) × (n ≤ max_receipt_number)
    ranged true o g = absurd (cc)
    ranged false none g = unfold in_range in absurd (cc)
    ranged false (some (negsuc n)) g = unfold in_range in absurd (cc)
    ranged false (some (pos m)) g = unfold in_range in ground arith

moved_on : StoreFile → Outcome StoreError ℕ → StoreFile
moved_on f (ok n) = (advance_past f true (pos n)).0
moved_on f (err e) = f

-- One receipt's number, by Peek and then advancePast with a write that works.
unfoldable pub take_receipt : StoreFile → StoreFile × Outcome StoreError ℕ
unfolding moved_on
take_receipt f = (moved_on f (peek f), peek f)

-- The numbers that `k` receipts get, one after the other, and the store after them.
unfoldable pub take_receipts : ℕ → StoreFile → StoreFile × List (Outcome StoreError ℕ)
take_receipts zero f = (f, [])
take_receipts (suc k) f =
    let (f', n) = take_receipt f in let (f'', ns) = take_receipts k f' in (f'', n ∷ ns)

unfoldable pub numbered : ℕ → ℕ → List (Outcome StoreError ℕ)
numbered zero n = []
numbered (suc k) n = ok n ∷ numbered k (n + 1)

take_receipt_lem :
    (f : StoreFile) (next : ℕ)
    → read f ≡ ok next
    → take_receipt f ≡ (store (format_int64 (pos (next + 1))) (seeded_at_of f), ok next)
unfolding take_receipt peek moved_on
take_receipt_lem f next r =
    let (low, high) = read-bounds f r in
    ap (λ (o : Outcome StoreError ℕ). (moved_on f o, o)) r
    ∙ ap (λ (s : StoreFile × Outcome StoreError (Unit {0})). (s.0, ok next))
        (advance_past_lem f next r high low)

-- While receipt numbers last, receipts taken one after the other get the stored number and those
-- after it, with no gap and no repeat.
pub take_receipts-numbered :
    (k : ℕ) (f : StoreFile) (next : ℕ)
    → read f ≡ ok next
    → next + k ≤ max_receipt_number + 1
    → (take_receipts k f).1 ≡ numbered k next
unfolding take_receipts numbered
take_receipts-numbered zero f next r h = refl
take_receipts-numbered (suc zero) f next r h = rw (take_receipt_lem f next r) refl
take_receipts-numbered (suc (suc k)) f next r h =
    let f' = store (format_int64 (pos (next + 1))) (seeded_at_of f) in
    let after = read-store (next + 1) (seeded_at_of f) (omega arith) (omega arith) in
    rw (take_receipt_lem f next r) (
      ap (λ (l : List (Outcome StoreError ℕ)). ok next ∷ l)
        (take_receipts-numbered (suc k) f' (next + 1) after (omega arith)))
