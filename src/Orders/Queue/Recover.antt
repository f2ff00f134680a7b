-- ===== src/Orders/Queue/Recover.antt =====
-- internal/erp/hasavshevet/queue.go: recoverLocked and highestHistoryNumber.
pub mod Bounds
use digi_erp_connector.Base.{
  ℕ, Text, text_eq, Bool, true, false, not, ◌&&◌, Option, none, some, List, [], ◌∷◌, if◌then◌else◌,
  leb, max, Outcome, ok, err, ◌==◌,
}
use digi_erp_connector.Base.Sort
use digi_erp_connector.Base.Int.{ℤ, pos, negsuc}
use digi_erp_connector.Base.Decimal.{format, parse_int64}
use digi_erp_connector.Orders.Types.{
  Error, no_number_store, index_not_prepared, index_not_listed, history_not_listed, Entry,
}
use digi_erp_connector.Orders.Counter.{peek, advance_past}
use digi_erp_connector.Orders.Index.Listing.{all, rank}
use digi_erp_connector.Orders.Queue.State.{Queue, Setup, Io, lookup_number}

-- One name under history: it counts when it is a folder named by a number as FormatInt writes it.
history_number : Text → Bool → Option ℤ → ℕ
history_number name is_dir (some (pos n)) = if is_dir && text_eq (format n) name then n else 0
history_number name is_dir (some (negsuc n)) = 0
history_number name is_dir none = 0

highest_of : List (Text × Bool) → ℕ
unfolding history_number
highest_of [] = 0
highest_of ((name, is_dir) ∷ rest) =
    max (history_number name is_dir (parse_int64 name)) (highest_of rest)

-- The highest order number with a folder under sendOrderDir/history, 0 when there is none.
unfoldable pub highest_history : Bool → Bool → List (Text × Bool) → Outcome Error ℕ
unfolding highest_of
highest_history dir_set listed names =
    if dir_set then if listed then ok (highest_of names) else err history_not_listed else ok 0

differs : Option Text → Text → Bool
differs none s = false
differs (some t) s = not (text_eq t s)

module _ (stem : Text → Text) where
  -- The loop over the sorted entries: the number map, and the numbers that two stems claim.
  unfoldable pub scan_numbers : List Entry → List (ℕ × Text) → List ℕ → List (ℕ × Text) × List ℕ
  unfolding differs
  scan_numbers [] by_number shared = (by_number, shared)
  scan_numbers (e ∷ es) by_number shared =
      let s = stem e.key in
      scan_numbers es ((e.number, s) ∷ by_number)
        (if differs (lookup_number e.number by_number) s then e.number ∷ shared else shared)

above : ℤ → ℕ → Bool
above (pos n) highest = leb n highest
above (negsuc n) highest = true

highest_issued : ℕ → Option Entry → ℕ
highest_issued history none = history
highest_issued history (some e) = max e.number history

module _ {F : Type 0} where
  recovered_at : Queue F → ℕ → Queue F × Outcome Error (Unit {0})
  recovered_at q highest = (record q { highest = highest; recovered = true }, ok tt)

  -- Move the counter past `highest` when it does not offer more.
  repair : Queue F → Io → ℕ → Outcome Error ℤ → Queue F × Outcome Error (Unit {0})
  unfolding above recovered_at
  repair q io highest (err e) = (q, err e)
  repair q io highest (ok next) =
      if above next highest
      then (let (counter, moved) = advance_past q.disk.counter io.repairs highest in
          let q' = record q { disk = record (q.disk) { counter = counter } } in
          elim moved [ ok _ ↦ recovered_at q' highest | err e ↦ (q', err e) ])
      else recovered_at q highest

  settle : Queue F → Io → Option Entry → Outcome Error ℕ → Queue F × Outcome Error (Unit {0})
  unfolding repair highest_issued
  settle q io last (err e) = (q, err e)
  settle q io last (ok history) =
      let highest = highest_issued history last in
      if highest == 0 then recovered_at q 0 else repair q io highest (peek q.disk.counter)

  -- Read the key index, and move the counter past the highest number issued.
  unfoldable pub recover_locked : Setup F → Queue F → Io → Queue F × Outcome Error (Unit {0})
  unfolding settle
  recover_locked setup q io =
      if not setup.has_store
      then (q, err no_number_store)
      else if not io.prepared
      then (q, err index_not_prepared)
      else if not io.listed
      then (q, err index_not_listed)
      else let entries = (all setup.stem q.disk.index).0 in
        let (by_number, shared) = scan_numbers setup.stem entries [] [] in
        settle (record q { by_number = by_number; shared_numbers = shared; scanned = true }) io
          (Sort.last? rank entries)
          (highest_history setup.order_dir_set io.history_listed q.disk.history)

  -- Recover: nothing without a key index.
  unfoldable pub recover : Setup F → Queue F → Io → Queue F × Outcome Error (Unit {0})
  unfolding recover_locked
  recover setup q io = if q.indexed then recover_locked setup q io else (q, ok tt)
