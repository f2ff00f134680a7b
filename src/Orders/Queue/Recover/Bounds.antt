-- ===== src/Orders/Queue/Recover/Bounds.antt =====
-- internal/erp/hasavshevet/queue.go, recoverLocked: what a recovery changes, and that afterwards no
-- readable entry of the index holds a number above the highest one known.
use digi_erp_connector.Base.{
  if_both, ℕ, ◌≤◌, ◌≡◌, refl, sym, subst, ◌∙◌, ◌⊎◌, inl, inr, max, arith, Text, codes, true, false,
  not, Option, some, List, [], ◌==◌, Outcome, ok, err, Bool-cases, Option-cases, All, All-map,
  has_prefix, Pairwise,
}
use digi_erp_connector.Base.Sort
use digi_erp_connector.Base.Int.{ℤ}
use digi_erp_connector.Orders.Types.{Error, Entry}
use digi_erp_connector.Orders.Counter.{peek}
use digi_erp_connector.Orders.Index.{IndexDir, load_stem, path_for}
use digi_erp_connector.Orders.Index.Laws.{load_stem-IsEntry}
use digi_erp_connector.Orders.Index.Listing.{all, rank, all-complete, all-Pairwise}
use digi_erp_connector.Orders.Queue.State.{Queue, Setup, Io}
use digi_erp_connector.Orders.Queue.Recover.{
  recover_locked, settle, repair, recovered_at, highest_issued, scan_numbers, highest_history,
}

module _ {F : Type 0} (setup : Setup F) where
  abbrev pub Loads : IndexDir → Text → Entry → Type 0
  Loads d s e = load_stem setup.stem d s ≡ ok (some e)

  -- No readable entry is above the highest number known, once recovered.
  abbrev pub Bounded : Queue F → Type 0
  Bounded q =
      q.recovered ≡ true → (s : Text) (e : Entry) → Loads q.disk.index s e → e.number ≤ q.highest

  -- A step that queues nothing and leaves the index alone.
  pub record Keeps (q q' : Queue F) : Type 0 where
    pub index : q'.disk.index ≡ q.disk.index
    pub ch : q'.ch ≡ q.ch
    pub indexed : q'.indexed ≡ q.indexed
    pub bounded : Bounded q → Bounded q'

  pub Keeps-refl : (q : Queue F) → Keeps q q
  Keeps-refl q = record { index = refl; ch = refl; indexed = refl; bounded = λ b. b }

  -- A name of hex digits does not begin with a dot.
  abbrev pub IsVisible : Type 0
  IsVisible = (k : Text) → has_prefix (path_for (setup.stem k)) (codes ".") ≡ false

  issued_bounds :
      (history : ℕ) (l : List Entry)
      → Pairwise (Sort.InOrder rank) l
      → All (λ x. x.number ≤ highest_issued history (Sort.last? rank l)) l
  unfolding highest_issued
  issued_bounds history l sorted = elim (Option-cases (Sort.last? rank l)) [
    | inl nothing ↦ rw (Sort.last?-eq-none rank l nothing) tt
    | inr (a, last) ↦ rw last (
        All-map {Q = λ (x : Entry). x.number ≤ max a.number history}
          (λ x (h : rank x ≤ rank a). unfold rank in omega arith) l
          (Sort.last?_highest rank l sorted last))
  ]

  -- The listing's highest entry bounds every entry that loads.
  listed_bounded :
      (d : IndexDir)
      → IsVisible
      → (history : ℕ) (s : Text) (e : Entry) → Loads d s e
      → e.number ≤ highest_issued history (Sort.last? rank (all setup.stem d).0)
  listed_bounded d visible history s e l =
      let named = (load_stem-IsEntry setup.stem d s e l).1 in
      all-complete setup.stem
        (λ x. x.number ≤ highest_issued history (Sort.last? rank (all setup.stem d).0)) d s e
        (subst (λ t. has_prefix (path_for t) (codes ".") ≡ false) named (visible e.key)) l
        (issued_bounds history (all setup.stem d).0 (all-Pairwise setup.stem d))

  -- What the counter step of a recovery leaves: the index, and the highest number if it ends well.
  record Settled (q q' : Queue F) (highest : ℕ) : Type 0 where
    index : q'.disk.index ≡ q.disk.index
    ch : q'.ch ≡ q.ch
    indexed : q'.indexed ≡ q.indexed
    at :
        ((q'.recovered ≡ true) × (q'.highest ≡ highest))
        ⊎ ((q'.recovered ≡ q.recovered) × (q'.highest ≡ q.highest))

  repair-Settled :
      (q : Queue F) (io : Io) (highest : ℕ) (o : Outcome Error ℤ)
      → Settled q (repair q io highest o).0 highest
  unfolding repair
  repair-Settled q io highest (err e) = ground arith
  repair-Settled q io highest (ok next) = ground arith

  settle-Settled :
      (q : Queue F) (io : Io) (last : Option Entry) (history : ℕ)
      → Settled q (settle q io last (ok history)).0 (highest_issued history last)
  settle-Settled q io last history = elim (Bool-cases (highest_issued history last == 0)) [
    | inl zero ↦ unfold settle in rw zero (unfold recovered_at in ground arith)
    | inr more ↦
        unfold settle in
        rw more (repair-Settled q io (highest_issued history last) (peek q.disk.counter))
  ]

  settled-Keeps :
      (q : Queue F) (io : Io) (o : Outcome Error ℕ)
      → IsVisible
      → Keeps q (settle q io (Sort.last? rank (all setup.stem q.disk.index).0) o).0
  settled-Keeps q io (err e) v =
      unfold settle in record { index = refl; ch = refl; indexed = refl; bounded = λ b. b }
  settled-Keeps q io (ok history) v =
      let last = Sort.last? rank (all setup.stem q.disk.index).0 in
      let done = settle-Settled q io last history in
      record {
        index = done.index;
        ch = done.ch;
        indexed = done.indexed;
        bounded = λ b r s e l.
            let l' : Loads q.disk.index s e = subst (λ d. Loads d s e) done.index l in
            elim done.at [
              | inl (_, high) ↦ rw high (listed_bounded q.disk.index v history s e l')
              | inr (same, high) ↦ rw high (b (sym same ∙ r) s e l')
            ];
      }

  -- A recovery, whether or not it ends well, keeps the index and the channel, and no readable
  -- entry is above the highest number it reports.
  pub recover_locked-Keeps :
      (q : Queue F) (io : Io) → IsVisible → Keeps q (recover_locked setup q io).0
  unfolding recover_locked
  recover_locked-Keeps q io v = if_both P (not setup.has_store) (Keeps-refl q) (
      if_both P (not io.prepared) (Keeps-refl q) (if_both P (not io.listed) (Keeps-refl q) settled))
    where
      P : Queue F × Outcome Error (Unit {0}) → Type 0
      P r = Keeps q r.0

      found : List (ℕ × Text) × List ℕ
      found = scan_numbers setup.stem (all setup.stem q.disk.index).0 [] []

      scanned : Queue F
      scanned = record q { by_number = found.0; shared_numbers = found.1; scanned = true }

      history : Outcome Error ℕ
      history = highest_history setup.order_dir_set io.history_listed q.disk.history

      settled :
          Keeps q (settle scanned io (Sort.last? rank (all setup.stem q.disk.index).0) history).0
      settled =
          let k = settled-Keeps scanned io history v in
          record { index = k.index; ch = k.ch; indexed = k.indexed; bounded = k.bounded }

  repair_ok :
      (q : Queue F) (io : Io) (highest : ℕ) (o : Outcome Error ℤ)
      → (repair q io highest o).1 ≡ ok tt
      → (repair q io highest o).0.recovered ≡ true
  unfolding repair
  repair_ok q io highest (err e) h = cc
  repair_ok q io highest (ok next) h = ground arith

  settle_ok :
      (q : Queue F) (io : Io) (last : Option Entry) (o : Outcome Error ℕ)
      → (settle q io last o).1 ≡ ok tt
      → (settle q io last o).0.recovered ≡ true
  settle_ok q io last (err e) = unfold settle in λ h. cc
  settle_ok q io last (ok history) = elim (Bool-cases (highest_issued history last == 0)) [
    | inl zero ↦ unfold settle in rw zero (λ h. unfold recovered_at in refl)
    | inr more ↦
        unfold settle in
        rw more (repair_ok q io (highest_issued history last) (peek q.disk.counter))
  ]

  -- A recovery that reports success leaves the queue recovered.
  pub recover_locked_ok :
      (q : Queue F) (io : Io)
      → (recover_locked setup q io).1 ≡ ok tt
      → (recover_locked setup q io).0.recovered ≡ true
  unfolding recover_locked
  recover_locked_ok q io =
      if_both P (not setup.has_store) (λ h. cc)
        (if_both P (not io.prepared) (λ h. cc)
          (if_both P (not io.listed) (λ h. cc)
            (settle_ok (record q { by_number = found.0; shared_numbers = found.1; scanned = true })
              io (Sort.last? rank (all setup.stem q.disk.index).0)
              (highest_history setup.order_dir_set io.history_listed q.disk.history))))
    where
      P : Queue F × Outcome Error (Unit {0}) → Type 0
      P r = r.1 ≡ ok tt → r.0.recovered ≡ true

      found : List (ℕ × Text) × List ℕ
      found = scan_numbers setup.stem (all setup.stem q.disk.index).0 [] []
