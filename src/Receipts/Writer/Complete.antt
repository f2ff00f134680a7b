-- ===== src/Receipts/Writer/Complete.antt =====
-- internal/erp/hasavshevet/receipt_writer.go: complete, writeIfDifferent and privateDirs.
use digi_erp_connector.Base.{
  ℕ, ◌++◌, text_eq, Bool, false, Option, none, some, List, [], ◌∷◌, map, if◌then◌else◌, ◌==◌,
  Outcome, ok, err,
}
use digi_erp_connector.Base.Int.{pos}
use digi_erp_connector.Documents.Layout.{Bytes}
use digi_erp_connector.Documents.Encoding.{Reason}
use digi_erp_connector.Documents.Kupain.{
  WriteError, field_error, card_names_config, generate_kupain_doc, generate_kupain_prm,
}
use digi_erp_connector.Documents.Kupain.CardNames.{Warning}
use digi_erp_connector.Receipts.Types.{
  Receipt, written, Notice, builder, ReceiptError, stored_unbuildable, stored_card_names,
  prm_unencodable, directory_not_made, file_not_written,
}
use digi_erp_connector.Receipts.Index.{save}
use digi_erp_connector.Receipts.Writer.State.{
  ReceiptPath, history_doc, history_prm, receipts_prm, receipt_doc, path_eq, present, FolderMade,
  not_made, not_private, private_made, ReceiptDisk, ReceiptWriter, WriterConfig, ReceiptOutside,
  ReceiptIo, path_text,
}

-- A file put in place
unfoldable pub put_file :
    ReceiptPath → Bytes → (ReceiptPath → Option Bytes) → ReceiptPath → Option Bytes
put_file p bytes files q = if path_eq p q then some bytes else files q

unfoldable pub holds : Option Bytes → Bytes → Bool
holds none bytes = false
holds (some current) bytes = text_eq current bytes

module _ (outside : ReceiptOutside) (config : WriterConfig) (io : ReceiptIo) where
  -- writeIfDifferent, for a file of receipt n.
  unfoldable pub write_if_different :
      ℕ → ReceiptPath → Bytes → ReceiptDisk → ReceiptDisk × Outcome ReceiptError (Unit {0})
  unfolding holds put_file
  write_if_different n p bytes d =
      if holds (d.files p) bytes
      then (d, ok tt)
      else if io.writes n p
      then (record d { files = put_file p bytes d.files }, ok tt)
      else (d, err (file_not_written (path_text outside config p)))

  unfoldable pub next_file :
      (ReceiptDisk → ReceiptDisk × Outcome ReceiptError (Unit {0}))
      → ReceiptDisk × Outcome ReceiptError (Unit {0})
      → ReceiptDisk × Outcome ReceiptError (Unit {0})
  next_file rest (d, err x) = (d, err x)
  next_file rest (d, ok _) = rest d

  -- The loop over the files of receipt n.
  unfoldable pub write_all :
      ℕ → List (ReceiptPath × Bytes) → ReceiptDisk → ReceiptDisk × Outcome ReceiptError (Unit {0})
  unfolding next_file
  write_all n [] d = (d, ok tt)
  write_all n ((p, bytes) ∷ fs) d = next_file (write_all n fs) (write_if_different n p bytes d)

  -- The four files of receipt n, in the order in which they are put in place.
  abbrev pub receipt_files : ℕ → Bytes → Bytes → List (ReceiptPath × Bytes)
  receipt_files n doc prm =
      (history_doc n, doc) ∷ (history_prm n, prm) ∷ (receipts_prm, prm) ∷ (receipt_doc n, doc) ∷ []

  -- An error of the stored request: a *FieldError is kept out of the chain.
  unbuildable : ℕ → WriteError → ReceiptError
  unbuildable n (field_error f) = stored_unbuildable n f
  unbuildable n (card_names_config t name r) = stored_card_names n (card_names_config t name r)

  unfoldable pub written_entry : Receipt → List Warning → List Notice → Receipt
  written_entry e warnings notes = record e {
    state = written;
    files =
        map (path_text outside config)
          (receipt_doc e.number ∷ receipts_prm ∷ history_doc e.number ∷ history_prm e.number ∷ []);
    warnings = map builder warnings ++ notes;
    written_at = io.written_now e.number;
  }

  unfoldable pub save_written :
      ReceiptWriter
      → Receipt
      → ReceiptDisk × Outcome ReceiptError (Unit {0})
      → ReceiptWriter × Outcome ReceiptError Receipt
  save_written w e (d, err x) = (record w { disk = d }, err x)
  save_written w e (d, ok _) =
      let (index, saved) = save d.index (io.saves e) e in
      (record w { disk = record d { index = index } }, elim saved [ ok _ ↦ ok e | err x ↦ err x ])

  with_folder : ℕ → ReceiptDisk → ReceiptDisk
  with_folder n d = record d { folders = λ m. if m == n then present else d.folders m }

  -- privateDirs of the history folder, and what comes after it.
  unfoldable pub in_folder :
      (ReceiptDisk → ReceiptWriter × Outcome ReceiptError Receipt)
      → ReceiptWriter
      → ℕ
      → FolderMade
      → ReceiptWriter × Outcome ReceiptError Receipt
  unfolding with_folder
  in_folder rest w n not_made = (w, err (directory_not_made n))
  in_folder rest w n not_private =
      (record w { disk = with_folder n w.disk }, err (directory_not_made n))
  in_folder rest w n private_made = rest (with_folder n w.disk)

  unfoldable pub put_in_place :
      ReceiptWriter
      → Receipt
      → List Notice
      → Bytes × List Warning
      → Outcome Reason Bytes
      → ReceiptWriter × Outcome ReceiptError Receipt
  unfolding save_written written_entry in_folder
  put_in_place w e notes (doc, warnings) (err r) = (w, err (prm_unencodable r))
  put_in_place w e notes (doc, warnings) (ok prm) =
      in_folder
        (λ d.
          save_written w (written_entry e warnings notes)
            (write_all e.number (receipt_files e.number doc prm) d))
        w e.number (io.makes_dir e.number)

  unfoldable pub built :
      ReceiptWriter
      → Receipt
      → List Notice
      → Outcome WriteError (Bytes × List Warning)
      → ReceiptWriter × Outcome ReceiptError Receipt
  unfolding put_in_place unbuildable
  built w e notes (err x) = (w, err (unbuildable e.number x))
  built w e notes (ok doc) = put_in_place w e notes doc (generate_kupain_prm outside.unicode)

  -- complete: the files in place, then the entry saved as written.
  unfoldable pub complete :
      ReceiptWriter → Receipt → List Notice → ReceiptWriter × Outcome ReceiptError Receipt
  unfolding built
  complete w e notes =
      built w e notes
        (generate_kupain_doc outside.unicode e.request (pos e.number) config.card_names)
