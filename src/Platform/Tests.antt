-- ===== src/Platform/Tests.antt =====
-- The atomic write on concrete disks.
use digi_erp_connector.Base.{
  ℕ, ◌≡◌, ◌≤◌, refl, Text, codes, Option, none, some, true, false, text_eq, subst, [], ◌∷◌, Outcome,
  ok, if◌then◌else◌, ltb,
}
use digi_erp_connector.Platform.AtomicFile.{
  Disk, OsError, errno, AtomicError, WriteIo, Renamed, rename_retrying, rename_backoff, rename_from,
  tried, transient_rename_error, is_held_open, write_file,
}
use digi_erp_connector.Platform.AtomicFile.Laws.{Ended, rename_retrying-ends}
use digi_erp_connector.Platform.AtomicFile.Replaced.{Wrote, write_file-Wrote}

abbrev windows : Text
windows = codes "windows"

abbrev target : Text
target = codes "data/config.yaml"

abbrev temp : Text
temp = codes "data/.config.yaml.tmp-1"

-- A reader holds the target open for two attempts.
abbrev held_twice : ℕ → Option OsError
held_twice k = if ltb k 3 then some (errno 32) else none

abbrev always_held : ℕ → Option OsError
always_held k = some (errno 5)

abbrev io : WriteIo
io = record {
  make_dirs = none;
  create_temp = ok temp;
  write_data = none;
  sync = none;
  close = none;
  rename = held_twice;
  removes_temp = true;
}

abbrev disk : Disk
disk = (target, 1 ∷ 2 ∷ []) ∷ []

third_attempt :
    rename_retrying windows held_twice ≡ some (record { outcome = none; attempts = 3; slept = 75 })
unfolding rename_retrying rename_from tried transient_rename_error is_held_open text_eq
third_attempt = refl

gave_up :
    rename_retrying windows always_held
    ≡ some (record { outcome = some (errno 5); attempts = 6; slept = 775 })
unfolding rename_retrying rename_from tried transient_rename_error is_held_open text_eq
gave_up = refl

elsewhere_at_once :
    rename_retrying (codes "linux") held_twice
    ≡ some (record { outcome = some (errno 32); attempts = 1; slept = 0 })
unfolding rename_retrying rename_from tried transient_rename_error is_held_open text_eq
elsewhere_at_once = refl

temp_apart : (tmp : Text) → io.create_temp ≡ ok tmp → text_eq tmp target ≡ false
unfolding text_eq
temp_apart tmp h = let same : temp ≡ tmp = cc in subst (λ t. text_eq t target ≡ false) same refl

rename_retrying-ends_example :
    (r : Renamed) × (rename_retrying windows held_twice ≡ some r)
    × Ended windows held_twice 1 rename_backoff r
    × (r.slept ≤ 775)
rename_retrying-ends_example = rename_retrying-ends windows held_twice

write_file-Wrote_example :
    (w : Disk × Outcome AtomicError (Unit {0})) × (write_file windows target (7 ∷ []) io disk
      ≡ some w)
    × Wrote target (7 ∷ []) io disk w
write_file-Wrote_example = write_file-Wrote windows target (7 ∷ []) io disk temp_apart
