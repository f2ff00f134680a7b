-- ===== src/Receipts/Number.antt =====
-- internal/erp/hasavshevet/receipt_number.go: the store of the next receipt number. The mutex makes
-- each operation one step. A write is atomicfile.Write: it replaces the file or, when it fails
-- (`writes` is false), leaves it.
pub mod Laws
pub mod Advance
use digi_erp_connector.Base.{
  ℕ, ◌+◌, Text, [], is_empty, Bool, true, false, ◌||◌, Option, none, some, ltb, if◌then◌else◌,
  Outcome, ok, err,
}
use digi_erp_connector.Base.Int.{ℤ, pos, negsuc, suc_int64}
use digi_erp_connector.Base.Decimal.{parse_int64, format_int64}
use digi_erp_connector.Documents.Kupain.Tables.{max_receipt_number}

-- ErrStoreUnavailable; "persist receipt number store"; the refusals of Seed.
pub data StoreError : Type 0 where
  store_unavailable not_persisted seed_out_of_range already_exists not_checked : StoreError

-- What the file holds: `store` is an object of the two known fields with nothing behind it, with
-- the raw JSON text of nextReceiptNumber, empty when the key is missing, and seededAt; `other` is
-- anything else that was read.
pub data StoreFile : Type 0 where
  missing unreadable other : StoreFile
  store : Text → Text → StoreFile

in_range : Option ℤ → Outcome StoreError ℕ
in_range none = err store_unavailable
in_range (some (negsuc n)) = err store_unavailable
in_range (some (pos n)) =
    if ltb n 1
    then err store_unavailable
    else if ltb max_receipt_number n
    then err store_unavailable
    else ok n

-- The number; the file's other field is `seeded_at`.
unfoldable pub read : StoreFile → Outcome StoreError ℕ
unfolding in_range
read missing = err store_unavailable
read unreadable = err store_unavailable
read other = err store_unavailable
read (store raw seeded_at) =
    if is_empty raw then err store_unavailable else in_range (parse_int64 raw)

seeded_at_of : StoreFile → Text
seeded_at_of (store raw at) = at
seeded_at_of _ = []

unfoldable pub write : StoreFile → Bool → ℤ → Text → StoreFile × Outcome StoreError (Unit {0})
write f writes (negsuc n) seeded_at = (f, err store_unavailable)
write f writes (pos n) seeded_at =
    if ltb n 1 || ltb (max_receipt_number + 1) n
    then (f, err store_unavailable)
    else if writes
    then (store (format_int64 (pos n)) seeded_at, ok tt)
    else (f, err not_persisted)

unfoldable pub peek : StoreFile → Outcome StoreError ℕ
unfolding read
peek f = read f

advance_from :
    StoreFile → Bool → ℤ → Outcome StoreError ℕ → StoreFile × Outcome StoreError (Unit {0})
unfolding write seeded_at_of
advance_from f writes n (err e) = (f, err e)
advance_from f writes (negsuc n) (ok next) = (f, ok tt)
advance_from f writes (pos n) (ok next) =
    if ltb n next then (f, ok tt) else write f writes (suc_int64 n) (seeded_at_of f)

-- advancePast
unfoldable pub advance_past : StoreFile → Bool → ℤ → StoreFile × Outcome StoreError (Unit {0})
unfolding advance_from read
advance_past f writes n = advance_from f writes n (read f)

-- The test that the file is not there; `statted` says that os.Lstat could tell.
seed_file : StoreFile → Bool → Bool → ℕ → Text → StoreFile × Outcome StoreError (Unit {0})
unfolding write
seed_file missing statted writes n now =
    if statted then write missing writes (pos n) now else (missing, err not_checked)
seed_file f statted writes n now = if statted then (f, err already_exists) else (f, err not_checked)

unfoldable pub seed : StoreFile → Bool → Bool → ℤ → Text → StoreFile × Outcome StoreError (Unit {0})
unfolding seed_file
seed f statted writes (negsuc n) now = (f, err seed_out_of_range)
seed f statted writes (pos n) now =
    if ltb n 1 || ltb max_receipt_number n
    then (f, err seed_out_of_range)
    else seed_file f statted writes n now
