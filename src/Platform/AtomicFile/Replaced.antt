-- ===== src/Platform/AtomicFile/Replaced.antt =====
-- internal/platform/atomicfile/atomicfile.go: what Write leaves on the disk.
use digi_erp_connector.Base.{
  ℕ, ◌≡◌, refl, ◌∙◌, ap, Text, true, false, take, Option, none, some, [], text_eq, text_eq_refl,
  text_eq_swap, Outcome, ok, err, if_true, if_false, if_split,
}
use digi_erp_connector.Base.Dict.{
  lookup, insert, delete, lookup-insert_self, lookup-insert_ne, lookup-delete,
}
use digi_erp_connector.Documents.Layout.{Bytes}
use digi_erp_connector.Platform.AtomicFile.{
  Disk, OsError, AtomicError, not_replaced, temp_not_written, no_directory, no_temp_file, WriteIo,
  move_file, moved, renamed, data_written, temp_created, dirs_made, write_and_close, removed,
  replaced, temp_written, write_file,
}
use digi_erp_connector.Platform.AtomicFile.Laws.{rename_retrying-ends}

lookup-delete_self : (k : Text) (d : Disk) → lookup k (delete k d) ≡ none
lookup-delete_self k d = lookup-delete k k d ∙ if_true _ _ (text_eq_refl k)

lookup-delete_ne :
    (k j : Text) (d : Disk) → text_eq k j ≡ false → lookup j (delete k d) ≡ lookup j d
lookup-delete_ne k j d h = lookup-delete k j d ∙ if_false _ _ h

module _ (path : Text) (data_bytes : Bytes) (io : WriteIo) (disk : Disk) where
  -- How Write may leave the disk. After an error no file but the temporary one differs, and that
  -- one is gone if it could be removed; after a success the file holds the new bytes, the
  -- temporary file is gone, and no other file differs.
  pub data Wrote : Disk × Outcome AtomicError (Unit {0}) → Type 0 where
    untouched : (x : AtomicError) → Wrote (disk, err x)
    cleaned :
        (tmp : Text) (d : Disk) (x : AtomicError)
        → ((q : Text) → text_eq tmp q ≡ false → lookup q d ≡ lookup q disk)
        → lookup path d ≡ lookup path disk
        → (io.removes_temp ≡ true → lookup tmp d ≡ none)
        → Wrote (d, err x)
    in_place :
        (tmp : Text) (d : Disk)
        → lookup path d ≡ some data_bytes
        → lookup tmp d ≡ none
        → ((q : Text) → text_eq tmp q ≡ false → text_eq path q ≡ false → lookup q d ≡ lookup q disk)
        → Wrote (d, ok tt)

  -- A disk that differs in the temporary file only.
  abbrev OnlyTemp : Text → Disk → Type 0
  OnlyTemp tmp d = (q : Text) → text_eq tmp q ≡ false → lookup q d ≡ lookup q disk

  insert-OnlyTemp :
      (tmp : Text) (b : Bytes) (d : Disk) → OnlyTemp tmp d → OnlyTemp tmp (insert tmp b d)
  insert-OnlyTemp tmp b d only q h = lookup-insert_ne tmp q b d h ∙ only q h

  removed-Wrote :
      (tmp : Text) (d : Disk) (x : AtomicError)
      → text_eq tmp path ≡ false
      → OnlyTemp tmp d
      → Wrote (removed tmp io d, err x)
  unfolding removed
  removed-Wrote tmp d x apart only =
      if_split (λ e. Wrote (e, err x)) io.removes_temp
        (λ _.
          let gone : OnlyTemp tmp (delete tmp d) = λ q h. lookup-delete_ne tmp q d h ∙ only q h in
          cleaned tmp (delete tmp d) x gone (gone path apart) (λ _. lookup-delete_self tmp d))
        (λ kept. cleaned tmp d x only (only path apart) (λ h. absurd (cc (h, kept))))

  moved-Wrote :
      (tmp : Text) (d : Disk) (o : Option Bytes)
      → text_eq tmp path ≡ false
      → o ≡ some data_bytes
      → OnlyTemp tmp d
      → Wrote (moved tmp path d o, ok tt)
  unfolding moved
  moved-Wrote tmp d none apart held only = absurd (cc)
  moved-Wrote tmp d (some b) apart held only =
      in_place tmp (insert path b (delete tmp d)) (lookup-insert_self path b (delete tmp d) ∙ held)
        (lookup-insert_ne path tmp b (delete tmp d) (text_eq_swap tmp path apart)
          ∙ lookup-delete_self tmp d)
        (λ q h p.
          lookup-insert_ne path q b (delete tmp d) p ∙ lookup-delete_ne tmp q d h ∙ only q h)

  renamed-Wrote :
      (tmp : Text) (d : Disk) (o : Option OsError)
      → text_eq tmp path ≡ false
      → lookup tmp d ≡ some data_bytes
      → OnlyTemp tmp d
      → Wrote (renamed tmp path io d o)
  unfolding renamed move_file
  renamed-Wrote tmp d (some e) apart held only = removed-Wrote tmp d (not_replaced e) apart only
  renamed-Wrote tmp d none apart held only = moved-Wrote tmp d (lookup tmp d) apart held only

  module _ (goos : Text) where
    -- Write gives a result, and it is one of those.
    abbrev pub Ends : Option (Disk × Outcome AtomicError (Unit {0})) → Type 0
    Ends o = (w : Disk × Outcome AtomicError (Unit {0})) × (o ≡ some w) × Wrote w

    temp_written-Ends :
        (tmp : Text) (d : Disk) (o : Option OsError)
        → text_eq tmp path ≡ false
        → (o ≡ none → lookup tmp d ≡ some data_bytes)
        → OnlyTemp tmp d
        → Ends (temp_written goos tmp path io (d, o))
    unfolding temp_written replaced
    temp_written-Ends tmp d (some x) apart held only =
        (_, refl, removed-Wrote tmp d (temp_not_written x) apart only)
    temp_written-Ends tmp d none apart held only =
        let (r, found, ended, slept) = rename_retrying-ends goos io.rename in
        (_, ap (replaced tmp path io d) found, renamed-Wrote tmp d r.outcome apart (held refl) only)

    data_written-Ends :
        (tmp : Text) (o : Option (ℕ × OsError))
        → text_eq tmp path ≡ false
        → Ends
            (temp_written goos tmp path io (data_written tmp data_bytes io (insert tmp [] disk) o))
    unfolding data_written
    data_written-Ends tmp none apart =
        temp_written-Ends tmp _ _ apart
          (λ _. lookup-insert_self tmp data_bytes (insert tmp [] disk))
          (insert-OnlyTemp tmp data_bytes _ (insert-OnlyTemp tmp [] disk (λ q h. refl)))
    data_written-Ends tmp (some (n, e)) apart =
        temp_written-Ends tmp _ (some e) apart (λ h. absurd (cc))
          (insert-OnlyTemp tmp (take n data_bytes) _ (insert-OnlyTemp tmp [] disk (λ q h. refl)))

    temp_created-Ends :
        (o : Outcome OsError Text)
        → ((tmp : Text) → o ≡ ok tmp → text_eq tmp path ≡ false)
        → Ends (temp_created goos path data_bytes io disk o)
    unfolding temp_created write_and_close
    temp_created-Ends (err e) fresh = (_, refl, untouched (no_temp_file e))
    temp_created-Ends (ok tmp) fresh = data_written-Ends tmp io.write_data (fresh tmp refl)

    dirs_made-Ends :
        (o : Option OsError)
        → ((tmp : Text) → io.create_temp ≡ ok tmp → text_eq tmp path ≡ false)
        → Ends (dirs_made goos path data_bytes io disk o)
    unfolding dirs_made
    dirs_made-Ends (some e) fresh = (_, refl, untouched (no_directory e))
    dirs_made-Ends none fresh = temp_created-Ends io.create_temp fresh

-- If the temporary file is not the target itself, Write returns; after an error no file but the
-- temporary one differs, which is gone if it could be removed; after a success the target holds
-- exactly the new bytes, the temporary file is gone and no other file differs.
pub write_file-Wrote :
    (goos path : Text) (data_bytes : Bytes) (io : WriteIo) (disk : Disk)
    → ((tmp : Text) → io.create_temp ≡ ok tmp → text_eq tmp path ≡ false)
    → (w : Disk × Outcome AtomicError (Unit {0})) × (write_file goos path data_bytes io disk
        ≡ some w)
      × Wrote path data_bytes io disk w
unfolding write_file
write_file-Wrote goos path data_bytes io disk fresh =
    dirs_made-Ends path data_bytes io disk goos io.make_dirs fresh
