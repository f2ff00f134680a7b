-- ===== src/Orders/Counter.antt =====
-- internal/erp/hasavshevet/order_number.go: the order number counter in lastOrderNumber.json.
-- The mutex makes each operation one step. A write is atomicfile.Write: it replaces the file or,
-- when it fails (`writes` is false), leaves it; its failure is the environment's choice.
pub mod Laws
use digi_erp_connector.Base.{
  ℕ, ◌+◌, Text, Bool, true, false, Option, none, some, leb, if◌then◌else◌, Outcome, ok, err,
}
use digi_erp_connector.Base.Int.{ℤ, pos, negsuc, suc_int64}
use digi_erp_connector.Base.Decimal.{parse_int64, format_int64}
use digi_erp_connector.Orders.Types.{Error, counter_unreadable, counter_not_written}

-- What a read of the file finds: `field` is the raw JSON text behind "lastOrderNumber", empty
-- when the object has no such key.
pub data CounterFile : Type 0 where
  missing : CounterFile
  unreadable : CounterFile
  not_json : CounterFile
  field : Text → CounterFile

-- A whole number of at least 0, as `read` insists.
at_least_zero : Option ℤ → Outcome Error ℕ
at_least_zero none = err counter_unreadable
at_least_zero (some (pos n)) = ok n
at_least_zero (some (negsuc n)) = err counter_unreadable

unfoldable pub read : CounterFile → Outcome Error ℕ
unfolding at_least_zero
read missing = ok 0
read unreadable = err counter_unreadable
read not_json = err counter_unreadable
read (field raw) = at_least_zero (parse_int64 raw)

unfoldable pub write : CounterFile → Bool → ℤ → CounterFile × Outcome Error (Unit {0})
write f writes last =
    if writes then (field (format_int64 last), ok tt) else (f, err counter_not_written)

next_from : CounterFile → Bool → Outcome Error ℕ → CounterFile × Outcome Error ℤ
next_from f writes (err e) = (f, err e)
next_from f writes (ok last) =
    let (f', wrote) = write f writes (suc_int64 last) in
    (f', elim wrote [ ok _ ↦ ok (suc_int64 last) | err e ↦ err e ])

-- Take the next number: increment and persist.
unfoldable pub next : CounterFile → Bool → CounterFile × Outcome Error ℤ
unfolding next_from write
next f writes = next_from f writes (read f)

-- The number that the next order will get.
unfoldable pub peek : CounterFile → Outcome Error ℤ
peek f = elim (read f) [ ok last ↦ ok (suc_int64 last) | err e ↦ err e ]

advance_from : CounterFile → Bool → ℕ → Outcome Error ℕ → CounterFile × Outcome Error (Unit {0})
advance_from f writes n (err e) = (f, err e)
advance_from f writes n (ok last) = if leb n last then (f, ok tt) else write f writes (pos n)

-- Record that `n` has been issued; never lowers the counter.
unfoldable pub advance_past : CounterFile → Bool → ℕ → CounterFile × Outcome Error (Unit {0})
unfolding advance_from write
advance_past f writes n = advance_from f writes n (read f)
