-- ===== src/Platform/AtomicFile/Laws.antt =====
-- internal/platform/atomicfile/atomicfile.go: how the renames end and what Write leaves on the disk.
use digi_erp_connector.Base.{
  ℕ, zero, suc, ◌+◌, ◌-◌, ◌*◌, ◌≤◌, ◌<◌, ◌≡◌, refl, ap, subst, ◌∙◌, if_true, if_false, ◌⊎◌, inl,
  inr, arith, Text, true, false, not, ◌||◌, Option, none, some, ◌==◌, Bool-cases,
}
use digi_erp_connector.Platform.AtomicFile.{
  OsError, Renamed, transient_rename_error, tried, rename_from, rename_retrying, rename_attempts,
  rename_backoff,
}

-- The sleeps of `n` failed attempts, the first of them `delay`.
unfoldable pub delays : ℕ → ℕ → ℕ
delays delay zero = 0
delays delay (suc n) = delay + delays (delay * 2) n

eq_or_lt : (a b : ℕ) → a ≤ b → (a ≡ b) ⊎ (suc a ≤ b)
eq_or_lt a b h = omega arith

module _ (goos : Text) (rename : ℕ → Option OsError) where
  -- An attempt that failed with an error worth another one.
  abbrev pub IsHeldOpen : Option OsError → Type 0
  IsHeldOpen none = ⊥
  IsHeldOpen (some e) = transient_rename_error goos e ≡ true

  -- An answer after which the loop ends at this attempt.
  abbrev pub IsLast : ℕ → Option OsError → Type 0
  IsLast k none = Unit
  IsLast k (some e) = (k ≡ rename_attempts) ⊎ (transient_rename_error goos e ≡ false)

  -- How a loop that begins at `first` with this delay ends.
  pub record Ended (first delay : ℕ) (r : Renamed) : Type 0 where
    pub answer : r.outcome ≡ rename r.attempts
    pub from_first : first ≤ r.attempts
    pub at_most : r.attempts ≤ rename_attempts
    pub earlier : (k : ℕ) → first ≤ k → k < r.attempts → IsHeldOpen (rename k)
    pub ends : IsLast r.attempts (rename r.attempts)
    pub time : r.slept ≡ delays delay (r.attempts - first)

  at_first :
      (first delay : ℕ) (o : Option OsError)
      → o ≡ rename first
      → first ≤ rename_attempts
      → IsLast first o
      → Ended first delay (record { outcome = o; attempts = first; slept = 0 })
  at_first first delay o same h l = record {
    answer = same;
    from_first = omega arith;
    at_most = h;
    earlier = λ k a b. absurd (omega arith);
    ends = subst (IsLast first) same l;
    time = let e : first - first ≡ 0 = omega arith in rw e (unfold delays in refl);
  }

  later :
      (first delay : ℕ) (r : Renamed)
      → IsHeldOpen (rename first)
      → Ended (suc first) (delay * 2) r
      → Ended first delay (record r { slept = delay + r.slept })
  later first delay r held deeper = record {
    answer = deeper.answer;
    from_first = let h = deeper.from_first in omega arith;
    at_most = deeper.at_most;
    earlier = λ k a b. elim (eq_or_lt first k a) [
      | inl e ↦ subst (λ j. IsHeldOpen (rename j)) e held
      | inr h ↦ deeper.earlier k h b
    ];
    ends = deeper.ends;
    time =
        let h = deeper.from_first in
        let e : r.attempts - first ≡ suc (r.attempts - suc first) = omega arith in
        rw e (unfold delays in ap (λ t. delay + t) deeper.time);
  }

  tried-Ended :
      (fuel first delay : ℕ) (o : Option OsError) (rest : Option Renamed)
      → o ≡ rename first
      → suc fuel + first ≡ 7
      → ((suc first ≤ rename_attempts)
          → (r : Renamed) × (rest ≡ some r) × Ended (suc first) (delay * 2) r)
      → (r : Renamed) × (tried goos first delay o rest ≡ some r) × Ended first delay r
  unfolding tried
  tried-Ended fuel first delay none rest same h deeper =
      (_, refl, at_first first delay none same (omega arith) tt)
  tried-Ended fuel first delay (some e) rest same h deeper =
      elim (Bool-cases ((first == rename_attempts) || not (transient_rename_error goos e))) [
        | inl stop ↦
            (_, if_true _ _ stop, at_first first delay (some e) same (omega arith) (ground arith))
        | inr again ↦
            let more : suc first ≤ 6 = ground arith in
            let held : transient_rename_error goos e ≡ true = ground arith in
            let (r, found, ended) = deeper more in
            (
              _,
              if_false _ _ again ∙ rw found refl,
              later first delay r (subst IsHeldOpen same held) ended,
            )
      ]

  rename_from-Ended :
      (fuel first delay : ℕ)
      → fuel + first ≡ 7
      → first ≤ rename_attempts
      → (r : Renamed) × (rename_from goos rename fuel first delay ≡ some r) × Ended first delay r
  unfolding rename_from
  rename_from-Ended zero first delay h l = absurd (omega arith)
  rename_from-Ended (suc fuel) first delay h l =
      tried-Ended fuel first delay (rename first) _ refl h
        (λ more. rename_from-Ended fuel (suc first) (delay * 2) (omega arith) more)

-- Five sleeps take 775 milliseconds.
delays-bound : (n : ℕ) → n ≤ 5 → delays rename_backoff n ≤ 775
unfolding delays
delays-bound zero h = omega arith
delays-bound (suc zero) h = omega arith
delays-bound (suc (suc zero)) h = omega arith
delays-bound (suc (suc (suc zero))) h = omega arith
delays-bound (suc (suc (suc (suc zero)))) h = omega arith
delays-bound (suc (suc (suc (suc (suc zero))))) h = omega arith
delays-bound (suc (suc (suc (suc (suc (suc n)))))) h = absurd (omega arith)

-- Whatever the operating system answers, renameRetrying ends: after at most six attempts, each
-- before the last one refused because the target was held open on Windows, it returns the answer
-- of the last attempt, which is a success, another failure, or that of the sixth; it has slept the
-- doubling delays between them, at most 775 milliseconds in all.
pub rename_retrying-ends :
    (goos : Text) (rename : ℕ → Option OsError)
    → (r : Renamed) × (rename_retrying goos rename ≡ some r)
      × Ended goos rename 1 rename_backoff r
      × (r.slept ≤ 775)
unfolding rename_retrying
rename_retrying-ends goos rename =
    let (r, found, ended) = rename_from-Ended goos rename 6 1 25 (omega arith) (omega arith) in
    let h = ended.at_most in
    let bound = delays-bound (r.attempts - 1) (omega arith) in
    let time = ended.time in (r, found, ended, omega arith)
