-- ===== src/Orders/Counter/Laws.antt =====
-- internal/erp/hasavshevet/order_number.go: what each counter operation leaves in the file.
use digi_erp_connector.Base.{
  ℕ, zero, suc, ◌+◌, ◌≤◌, ◌<◌, ◌≡◌, refl, ap, ◌∙◌, Bool, true, false, max, arith, Outcome, ok, err,
  Option, none, some, Text, if◌then◌else◌, leb, leb→le, leb→lt, Bool-cases, List, [], ◌∷◌,
  Outcome-cases, inl, inr, ◌⊎◌,
}
use digi_erp_connector.Base.Int.{ℤ, pos, negsuc, max_int64, suc_int64}
use digi_erp_connector.Base.Decimal.{
  parse_int64, format_int64, parse_int64-format, parse_int64_bound,
}
use digi_erp_connector.Orders.Types.{Error, counter_not_written, counter_unreadable}
use digi_erp_connector.Orders.Counter.{
  CounterFile, missing, unreadable, not_json, field, read, write, next, peek, advance_past,
  at_least_zero,
}

-- A number that `write` stored is read back.
pub read-write : (f : CounterFile) (n : ℕ) → n ≤ max_int64 → read (write f true (pos n)).0 ≡ ok n
unfolding read write format_int64
read-write f n h = rw (parse_int64-format n h)

at_least_zero_of_parse :
    (o : Option ℤ) (raw : Text) {n : ℕ}
    → parse_int64 raw ≡ o
    → at_least_zero o ≡ ok n
    → parse_int64 raw ≡ some (pos n)
unfolding at_least_zero
at_least_zero_of_parse none raw e h = cc
at_least_zero_of_parse (some (pos m)) raw e h = cc
at_least_zero_of_parse (some (negsuc m)) raw e h = cc

-- What is read is an int64.
pub read_bound : (f : CounterFile) {n : ℕ} → read f ≡ ok n → n ≤ max_int64
unfolding read
read_bound missing h = ground arith
read_bound unreadable h = cc
read_bound not_json h = cc
read_bound (field raw) h =
    parse_int64_bound raw (at_least_zero_of_parse (parse_int64 raw) raw refl h)

-- A peeked number from 0 up is the last one and one more, and fits an int64.
pub peek_inv :
    (f : CounterFile) {n : ℕ}
    → peek f ≡ ok (pos n)
    → (last : ℕ) × (read f ≡ ok last) × (n ≡ last + 1) × (n ≤ max_int64)
unfolding peek suc_int64
peek_inv f {n} h = elim (Outcome-cases (read f)) [
  | inl (last, e) ↦ (last, e, ground arith, ground (arith, read_bound f e))
  | inr (x, e) ↦ cc
]

advance_past_lem :
    (f : CounterFile) (writes : Bool) (n : ℕ) {last : ℕ}
    → read f ≡ ok last
    → advance_past f writes n ≡ (if leb n last then (f, ok tt) else write f writes (pos n))
unfolding advance_past
advance_past_lem f writes n r = rw (r, advance_past)

-- Moving a readable counter past a number leaves the higher of that number and the last number
-- issued when the operation reports success, and leaves the file as it was when it does not.
pub read-advance_past :
    (f : CounterFile) (writes : Bool) (n last : ℕ)
    → n ≤ max_int64
    → read f ≡ ok last
    → (((advance_past f writes n).1 ≡ ok tt) × (read (advance_past f writes n).0 ≡ ok (max n last)))
      ⊎ (((advance_past f writes n).1 ≡ err counter_not_written)
          × ((advance_past f writes n).0 ≡ f))
read-advance_past f writes n last b r =
    rw (advance_past_lem f writes n r) (elim (Bool-cases (leb n last)) [
      | inl old ↦ rw old (inl (refl, rw r (ground (arith, leb→le n last old))))
      | inr new ↦ rw new (store writes (leb→lt n last new))
    ])
  where
    store :
        (w : Bool)
        → last < n
        → (((write f w (pos n)).1 ≡ ok tt) × (read (write f w (pos n)).0 ≡ ok (max n last)))
          ⊎ (((write f w (pos n)).1 ≡ err counter_not_written) × ((write f w (pos n)).0 ≡ f))
    store true lt = inl (unfold write in refl, rw (read-write f n b) (ground arith))
    store false lt = inr (unfold write in (refl, refl))

-- A file that holds no last number: it cannot be read, it is no JSON object, or what stands behind
-- "lastOrderNumber" is no whole number from 0 up that fits an int64.
pub data IsDamaged : CounterFile → Type 0 where
  not_readable : IsDamaged unreadable
  no_object : IsDamaged not_json
  no_number : (raw : Text) → parse_int64 raw ≡ none → IsDamaged (field raw)
  negative : (raw : Text) (n : ℕ) → parse_int64 raw ≡ some (negsuc n) → IsDamaged (field raw)

read-IsDamaged : (f : CounterFile) → IsDamaged f → read f ≡ err counter_unreadable
unfolding read
read-IsDamaged _ not_readable = refl
read-IsDamaged _ no_object = refl
read-IsDamaged _ (no_number raw h) = ap at_least_zero h ∙ (unfold at_least_zero in refl)
read-IsDamaged _ (negative raw n h) = ap at_least_zero h ∙ (unfold at_least_zero in refl)

refused_lem :
    (f : CounterFile) (writes : Bool) (n : ℕ) {e : Error}
    → read f ≡ err e
    → (next f writes ≡ (f, err e)) × (peek f ≡ err e) × (advance_past f writes n ≡ (f, err e))
unfolding next peek advance_past
refused_lem f writes n r = (rw (r, next), rw (r, peek), rw (r, advance_past))

-- A counter file that cannot be read, is no JSON object, or holds no whole number from 0 up is
-- refused as unreadable by Next, Peek and advancePast, and left exactly as found: it is never
-- taken for an absent one.
pub unreadable_untouched :
    (f : CounterFile) (writes : Bool) (n : ℕ)
    → IsDamaged f
    → (next f writes ≡ (f, err counter_unreadable))
      × (peek f ≡ err counter_unreadable)
      × (advance_past f writes n ≡ (f, err counter_unreadable))
unreadable_untouched f writes n bad = refused_lem f writes n (read-IsDamaged f bad)

-- The counter after taking `k` numbers with writes that work, and the numbers, in order.
unfoldable pub take_numbers : ℕ → CounterFile → CounterFile × List (Outcome Error ℤ)
take_numbers zero f = (f, [])
take_numbers (suc k) f =
    let (f', n) = next f true in let (f'', ns) = take_numbers k f' in (f'', n ∷ ns)

unfoldable pub consecutive : ℕ → ℕ → List (Outcome Error ℤ)
consecutive zero n = []
consecutive (suc k) n = ok (pos n) ∷ consecutive k (n + 1)

next_lem :
    (f : CounterFile) {last : ℕ}
    → read f ≡ ok last
    → last < max_int64
    → next f true ≡ ((write f true (pos (last + 1))).0, ok (pos (last + 1)))
unfolding next write suc_int64
next_lem f r h = rw (r, next) (ground arith)

-- Taking numbers while int64 lasts issues last + 1, last + 2, …, with no gap and no repeat, and
-- the file then holds the last one.
pub take_numbers-consecutive :
    (k : ℕ) (f : CounterFile) (last : ℕ)
    → read f ≡ ok last
    → last + k ≤ max_int64
    → ((take_numbers k f).1 ≡ consecutive k (last + 1))
      × (read (take_numbers k f).0 ≡ ok (last + k))
unfolding take_numbers consecutive
take_numbers-consecutive zero f last r h = (refl, rw r (ground arith))
take_numbers-consecutive (suc k) f last r h =
    let f' = (write f true (pos (last + 1))).0 in
    let (rest, end) =
      take_numbers-consecutive k f' (last + 1) (read-write f (last + 1) (omega arith))
        (omega arith) in
    rw (next_lem f r (omega arith)) (rw rest refl, rw end (ground arith))
