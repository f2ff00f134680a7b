-- ===== src/Receipts/Writer/Recover.antt =====
-- internal/erp/hasavshevet/receipt_writer.go: recoverLocked, lockDataLocked, Recover and CloseContext.
use digi_erp_connector.Base.{
  ℕ, Bool, true, false, not, Option, none, some, List, [], ◌∷◌, if◌then◌else◌, leb, Outcome, ok,
  err,
}
use digi_erp_connector.Base.Sort
use digi_erp_connector.Base.Int.{pos}
use digi_erp_connector.Receipts.Number.{StoreFile, StoreError, peek, advance_past}
use digi_erp_connector.Receipts.Types.{
  Receipt, ReceiptState, reserved, written, Importer, no_runner, receipt_bat, receipt_has_exe,
  Notice, recovered_without, ReceiptError, data_in_use, data_not_locked, store_failed,
  import_lock_not_taken,
}
use digi_erp_connector.Receipts.Index.{all, rank}
use digi_erp_connector.Receipts.Writer.State.{
  ReceiptWriter, WriterConfig, ReceiptOutside, ReceiptIo, lock_taken, lock_in_use, lock_error,
  importer,
}
use digi_erp_connector.Receipts.Writer.Complete.{complete}

unfoldable pub is_reserved : ReceiptState → Bool
is_reserved reserved = true
is_reserved written = false

abbrev pub Done : Type 0
Done = ReceiptWriter × Outcome ReceiptError (Unit {0})

unfoldable pub recovery_notes : Importer → List Notice
recovery_notes no_runner = []
recovery_notes receipt_bat = recovered_without receipt_bat ∷ []
recovery_notes receipt_has_exe = recovered_without receipt_has_exe ∷ []

module _ (outside : ReceiptOutside) (config : WriterConfig) (io : ReceiptIo) where
  -- lockDataLocked
  unfoldable pub lock_data : ReceiptWriter → Done
  lock_data w =
      if w.locked
      then (w, ok tt)
      else if not io.prepares
      then (w, err data_not_locked)
      else elim (io.data_lock) [
        | lock_taken ↦ (record w { locked = true }, ok tt)
        | lock_in_use ↦ (w, err data_in_use)
        | lock_error ↦ (w, err data_not_locked)
      ]

  unfoldable pub completed :
      (ReceiptWriter → Done) → ReceiptWriter × Outcome ReceiptError Receipt → Done
  completed rest (w, err x) = (w, err x)
  completed rest (w, ok e) = rest w

  -- The loop over the entries: every reserved one is completed.
  unfoldable pub complete_all : List Receipt → ReceiptWriter → Done
  unfolding completed is_reserved recovery_notes
  complete_all [] w = (record w { recovered = true }, ok tt)
  complete_all (e ∷ es) w =
      if is_reserved e.state
      then completed (complete_all es)
          (complete outside config io w e (recovery_notes (importer outside config)))
      else complete_all es w

  unfoldable pub moved :
      List Receipt → ReceiptWriter → StoreFile × Outcome StoreError (Unit {0}) → Done
  unfolding complete_all
  moved entries w (store_after, err x) =
      (record w { disk = record (w.disk) { store = store_after } }, err (store_failed x))
  moved entries w (store_after, ok _) =
      complete_all entries (record w { disk = record (w.disk) { store = store_after } })

  -- The store is moved past the highest number, then the entries are completed.
  unfoldable pub past_highest : List Receipt → ReceiptWriter → Receipt → Outcome StoreError ℕ → Done
  unfolding moved complete_all
  past_highest entries w highest (err x) = (w, err (store_failed x))
  past_highest entries w highest (ok next) =
      if leb next highest.number
      then moved entries w
          (advance_past w.disk.store (io.moves highest.number) (pos highest.number))
      else complete_all entries w

  unfoldable pub with_highest : List Receipt → ReceiptWriter → Option Receipt → Done
  unfolding past_highest
  with_highest entries w none = (record w { recovered = true }, ok tt)
  with_highest entries w (some highest) = past_highest entries w highest (peek w.disk.store)

  unfoldable pub with_entries : ReceiptWriter → Outcome ReceiptError (List Receipt) → Done
  unfolding with_highest
  with_entries w (err x) = (w, err x)
  with_entries w (ok entries) = with_highest entries w (Sort.last? rank entries)

  unfoldable pub with_lock : Done → Done
  unfolding with_entries
  with_lock (w, err x) = (w, err x)
  with_lock (w, ok _) = with_entries w (all w.disk.index io.listed)

  -- recoverLocked
  unfoldable pub recover_receipts_locked : ReceiptWriter → Done
  unfolding with_lock lock_data
  recover_receipts_locked w = with_lock (lock_data w)

  -- Recover, under the import lock.
  unfoldable pub recover_receipts : ReceiptWriter → Done
  unfolding recover_receipts_locked
  recover_receipts w =
      if io.import_lock then recover_receipts_locked w else (w, err import_lock_not_taken)

  -- CloseContext: the data lock is let go. How its unlock ends changes nothing.
  unfoldable pub close : ReceiptWriter → Done
  close w =
      if io.import_lock
      then (record w { recovered = false; locked = false }, ok tt)
      else (w, err import_lock_not_taken)
