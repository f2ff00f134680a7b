-- ===== src/Platform/AtomicFile.antt =====
-- internal/platform/atomicfile/atomicfile.go: Write and the retried rename.
--
-- A disk maps the paths of files to their bytes; directories and permissions are left out. What
-- the operating system answers to each call is a field of WriteIo. A call that fails leaves the
-- disk as it was, except for a write, which may have put some of the bytes.
pub mod Laws
pub mod Replaced
use digi_erp_connector.Base.{
  ℕ, zero, suc, ◌+◌, ◌*◌, Text, Bool, false, not, ◌&&◌, ◌||◌, Option, none, some, List, [], ◌∷◌,
  ◌==◌, codes, text_eq, take, Outcome, ok, err, if◌then◌else◌,
}
use digi_erp_connector.Base.Dict.{lookup, insert, delete}
use digi_erp_connector.Documents.Layout.{Bytes}

abbrev pub Disk : Type 0
Disk = List (Text × Bytes)

-- An error of the operating system: a number, or an error without one.
pub data OsError : Type 0 where
  errno : ℕ → OsError
  no_errno : OsError

abbrev pub error_access_denied : ℕ
error_access_denied = 5

abbrev pub error_sharing_violation : ℕ
error_sharing_violation = 32

abbrev pub rename_attempts : ℕ
rename_attempts = 6

-- In milliseconds.
abbrev pub rename_backoff : ℕ
rename_backoff = 25

-- The errors of Write.
pub data AtomicError : Type 0 where
  no_directory no_temp_file temp_not_written not_replaced : OsError → AtomicError

-- What the operating system answers in one call of Write: none is no error. A write that fails
-- has put so many bytes. `rename k` answers the k-th attempt.
pub record WriteIo : Type 0 where
  pub make_dirs : Option OsError
  pub create_temp : Outcome OsError Text
  pub write_data : Option (ℕ × OsError)
  pub sync : Option OsError
  pub close : Option OsError
  pub rename : ℕ → Option OsError
  pub removes_temp : Bool

-- errors.Is with one of the two numbers.
unfoldable pub is_held_open : OsError → Bool
is_held_open (errno n) = (n == error_access_denied) || (n == error_sharing_violation)
is_held_open no_errno = false

unfoldable pub transient_rename_error : Text → OsError → Bool
transient_rename_error goos e = text_eq goos (codes "windows") && is_held_open e

-- How a loop of renames ended: its last answer, the number of that attempt, and the time slept.
pub record Renamed : Type 0 where
  pub outcome : Option OsError
  pub attempts : ℕ
  pub slept : ℕ

-- One turn of the loop of renameRetrying; `rest` is what the next turns give.
unfoldable pub tried : Text → ℕ → ℕ → Option OsError → Option Renamed → Option Renamed
tried goos attempt delay none rest = some (record { outcome = none; attempts = attempt; slept = 0 })
tried goos attempt delay (some e) rest =
    if (attempt == rename_attempts) || not (transient_rename_error goos e)
    then some (record { outcome = some e; attempts = attempt; slept = 0 })
    else elim rest [ none ↦ none | some r ↦ some (record r { slept = delay + r.slept }) ]

-- The loop, which has no bound of its own: none is a loop that is not done after `fuel` turns.
unfoldable pub rename_from : Text → (ℕ → Option OsError) → ℕ → ℕ → ℕ → Option Renamed
rename_from goos rename zero attempt delay = none
rename_from goos rename (suc fuel) attempt delay =
    tried goos attempt delay (rename attempt)
      (rename_from goos rename fuel (suc attempt) (delay * 2))

-- With fuel for `rename_attempts` turns.
unfoldable pub rename_retrying : Text → (ℕ → Option OsError) → Option Renamed
rename_retrying goos rename = rename_from goos rename rename_attempts 1 rename_backoff

-- os.Rename within a directory: the file takes the place of the one at `path`.
unfoldable pub moved : Text → Text → Disk → Option Bytes → Disk
moved tmp path disk none = disk
moved tmp path disk (some b) = insert path b (delete tmp disk)

unfoldable pub move_file : Text → Text → Disk → Disk
move_file tmp path disk = moved tmp path disk (lookup tmp disk)

-- The rest of writeAndClose after the answer of tmp.Write.
unfoldable pub data_written :
    Text → Bytes → WriteIo → Disk → Option (ℕ × OsError) → Disk × Option OsError
data_written tmp data_bytes io disk (some (n, e)) = (insert tmp (take n data_bytes) disk, some e)
data_written tmp data_bytes io disk none =
    (insert tmp data_bytes disk, elim io.sync [ some e ↦ some e | none ↦ io.close ])

unfoldable pub write_and_close : Text → Bytes → WriteIo → Disk → Disk × Option OsError
write_and_close tmp data_bytes io disk = data_written tmp data_bytes io disk io.write_data

-- `_ = os.Remove(tmpName)`
unfoldable pub removed : Text → WriteIo → Disk → Disk
removed tmp io disk = if io.removes_temp then delete tmp disk else disk

unfoldable pub renamed :
    Text → Text → WriteIo → Disk → Option OsError → Disk × Outcome AtomicError (Unit {0})
renamed tmp path io disk (some e) = (removed tmp io disk, err (not_replaced e))
renamed tmp path io disk none = (move_file tmp path disk, ok tt)

unfoldable pub replaced :
    Text → Text → WriteIo → Disk → Option Renamed → Option (Disk × Outcome AtomicError (Unit {0}))
replaced tmp path io disk none = none
replaced tmp path io disk (some r) = some (renamed tmp path io disk r.outcome)

unfoldable pub temp_written :
    Text
    → Text
    → Text
    → WriteIo
    → Disk × Option OsError
    → Option (Disk × Outcome AtomicError (Unit {0}))
temp_written goos tmp path io (disk, some e) = some (removed tmp io disk, err (temp_not_written e))
temp_written goos tmp path io (disk, none) =
    replaced tmp path io disk (rename_retrying goos io.rename)

-- The rest of Write after the answer of os.CreateTemp.
unfoldable pub temp_created :
    Text
    → Text
    → Bytes
    → WriteIo
    → Disk
    → Outcome OsError Text
    → Option (Disk × Outcome AtomicError (Unit {0}))
temp_created goos path data_bytes io disk (err e) = some (disk, err (no_temp_file e))
temp_created goos path data_bytes io disk (ok tmp) =
    temp_written goos tmp path io (write_and_close tmp data_bytes io (insert tmp [] disk))

-- The rest of Write after the answer of os.MkdirAll.
unfoldable pub dirs_made :
    Text
    → Text
    → Bytes
    → WriteIo
    → Disk
    → Option OsError
    → Option (Disk × Outcome AtomicError (Unit {0}))
dirs_made goos path data_bytes io disk (some e) = some (disk, err (no_directory e))
dirs_made goos path data_bytes io disk none =
    temp_created goos path data_bytes io disk io.create_temp

unfoldable pub write_file :
    Text → Text → Bytes → WriteIo → Disk → Option (Disk × Outcome AtomicError (Unit {0}))
write_file goos path data_bytes io disk = dirs_made goos path data_bytes io disk io.make_dirs
