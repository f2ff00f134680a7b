-- ===== src/Receipts/Writer/Gapless/Completing.antt =====
-- internal/erp/hasavshevet/receipt_writer.go: what complete does to the index and the store.
use digi_erp_connector.Base.{
  ℕ, ◌≡◌, refl, ap, subst, ◌∙◌, ◌⊎◌, inl, inr, List, [], ◌∷◌, Outcome, ok, err, if_both,
}
use digi_erp_connector.Documents.Layout.{Bytes}
use digi_erp_connector.Documents.Encoding.{Reason}
use digi_erp_connector.Documents.Kupain.{WriteError}
use digi_erp_connector.Documents.Kupain.CardNames.{Warning}
use digi_erp_connector.Receipts.Types.{
  Receipt, written, ReceiptError, Notice, index_not_saved, directory_not_made, prm_unencodable,
}
use digi_erp_connector.Receipts.Index.{ReceiptDir, save}
use digi_erp_connector.Receipts.Index.Laws.{IsReceipt, IsSave, load-save}
use digi_erp_connector.Receipts.Writer.State.{
  ReceiptWriter, WriterConfig, ReceiptOutside, ReceiptIo, ReceiptDisk, ReceiptPath, FolderMade,
  not_made, not_private, private_made,
}
use digi_erp_connector.Receipts.Writer.Complete.{
  write_if_different, write_all, complete, next_file, save_written, written_entry, put_in_place,
  in_folder, built, receipt_files,
}

-- Nothing but the files, the folders and the index may differ.
pub record Kept (w w' : ReceiptWriter) : Type 0 where
  pub store : w'.disk.store ≡ w.disk.store
  pub runs : w'.runs ≡ w.runs
  pub recovered : w'.recovered ≡ w.recovered

-- What one call of complete does: an error leaves the index alone, and a success saves the entry as
-- written.
pub data Completed (w : ReceiptWriter) (e : Receipt)
    : ReceiptWriter × Outcome ReceiptError Receipt → Type 0 where
  stayed :
      (w' : ReceiptWriter) (x : ReceiptError)
      → Kept w w'
      → w'.disk.index ≡ w.disk.index
      → Completed w e (w', err x)
  finished :
      (w' : ReceiptWriter) (e' : Receipt)
      → Kept w w'
      → IsSave w.disk.index w'.disk.index e'
      → (e'.key ≡ e.key)
        × (e'.number ≡ e.number)
        × (e'.import_state ≡ e.import_state)
        × (e'.state ≡ written)
      → Completed w e (w', ok e')

-- A step on the disk that changes neither the index nor the store.
pub record DiskKept (d d' : ReceiptDisk) : Type 0 where
  pub store : d'.store ≡ d.store
  pub index : d'.index ≡ d.index

module _ (outside : ReceiptOutside) (config : WriterConfig) (io : ReceiptIo) where
  write_if_different-DiskKept :
      (n : ℕ) (p : ReceiptPath) (bytes : Bytes) (d : ReceiptDisk)
      → DiskKept d (write_if_different outside config io n p bytes d).0
  unfolding write_if_different
  write_if_different-DiskKept n p bytes d =
      if_both (λ (r : ReceiptDisk × Outcome ReceiptError (Unit {0})). DiskKept d r.0) _
        (record { store = refl; index = refl })
        (if_both (λ (r : ReceiptDisk × Outcome ReceiptError (Unit {0})). DiskKept d r.0)
          (io.writes n p) (record { store = refl; index = refl })
          (record { store = refl; index = refl }))

  write_all-DiskKept :
      (n : ℕ) (fs : List (ReceiptPath × Bytes)) (d : ReceiptDisk)
      → DiskKept d (write_all outside config io n fs d).0
  unfolding write_all
  write_all-DiskKept n [] d = record { store = refl; index = refl }
  write_all-DiskKept n ((p, bytes) ∷ fs) d =
      go (write_if_different outside config io n p bytes d)
        (write_if_different-DiskKept n p bytes d) (λ d'. write_all-DiskKept n fs d')
    where
      go :
          (r : ReceiptDisk × Outcome ReceiptError (Unit {0}))
          → DiskKept d r.0
          → ((d' : ReceiptDisk) → DiskKept d' (write_all outside config io n fs d').0)
          → DiskKept d (next_file outside config io (write_all outside config io n fs) r).0
      go (d', err x) k deeper = unfold next_file in k
      go (d', ok _) k deeper =
          let more = deeper d' in
          unfold next_file in record { store = more.store ∙ k.store; index = more.index ∙ k.index }

  -- The save of the written entry, after the files.
  save_written-Completed :
      (w : ReceiptWriter) (e e' : Receipt) (r : ReceiptDisk × Outcome ReceiptError (Unit {0}))
      → DiskKept w.disk r.0
      → IsReceipt e'
      → (e'.key ≡ e.key)
        × (e'.number ≡ e.number)
        × (e'.import_state ≡ e.import_state)
        × (e'.state ≡ written)
      → Completed w e (save_written outside config io w e' r)
  unfolding save_written
  save_written-Completed w e e' (d, err x) k v same =
      stayed _ x (record { store = k.store; runs = refl; recovered = refl }) k.index
  save_written-Completed w e e' (d, ok _) k v same =
      go (save d.index (io.saves e') e') (load-save d.index (io.saves e') e' v)
    where
      go :
          (p : ReceiptDir × Outcome ReceiptError (Unit {0}))
          → ((p.1 ≡ ok tt) × IsSave d.index p.0 e') ⊎ (p ≡ (d.index, err index_not_saved))
          → Completed w e (
            record w { disk = record d { index = p.0 } },
            elim p.1 [ ok _ ↦ ok e' | err x ↦ err x ],
          )
      go (index, ok _) (inl (_, law)) =
          finished _ e' (record { store = k.store; runs = refl; recovered = refl })
            (subst (λ i. IsSave i index e') k.index law) same
      go (index, err x) (inl (h, _)) = absurd (cc)
      go (index, ok _) (inr h) =
          let clash = ap (λ (q : ReceiptDir × Outcome ReceiptError (Unit {0})). q.1) h in
          absurd (cc)
      go (index, err x) (inr h) =
          stayed _ x (record { store = k.store; runs = refl; recovered = refl })
            (ap (λ (q : ReceiptDir × Outcome ReceiptError (Unit {0})). q.0) h ∙ k.index)

  in_folder-Completed :
      (w : ReceiptWriter) (e : Receipt) (n : ℕ)
      (rest : ReceiptDisk → ReceiptWriter × Outcome ReceiptError Receipt) (m : FolderMade)
      → ((d : ReceiptDisk) → DiskKept w.disk d → Completed w e (rest d))
      → Completed w e (in_folder outside config io rest w n m)
  unfolding in_folder
  in_folder-Completed w e n rest not_made h =
      stayed w (directory_not_made n) (record { store = refl; runs = refl; recovered = refl }) refl
  in_folder-Completed w e n rest not_private h =
      stayed _ (directory_not_made n) (record { store = refl; runs = refl; recovered = refl }) refl
  in_folder-Completed w e n rest private_made h = h _ (record { store = refl; index = refl })

  put_in_place-Completed :
      (w : ReceiptWriter) (e : Receipt) (notes : List Notice) (doc : Bytes × List Warning)
      (prm : Outcome Reason Bytes)
      → IsReceipt e
      → Completed w e (put_in_place outside config io w e notes doc prm)
  unfolding put_in_place
  put_in_place-Completed w e notes (doc, warnings) (err r) v =
      stayed w (prm_unencodable r) (record { store = refl; runs = refl; recovered = refl }) refl
  put_in_place-Completed w e notes (doc, warnings) (ok prm) v =
      let fs = receipt_files outside config io e.number doc prm in
      let e' = written_entry outside config io e warnings notes in
      let after : ReceiptDisk → ReceiptDisk × Outcome ReceiptError (Unit {0}) =
        λ d. write_all outside config io e.number fs d in
      in_folder-Completed w e e.number (λ d. save_written outside config io w e' (after d))
        (io.makes_dir e.number)
        (λ d k.
          let all = write_all-DiskKept e.number fs d in
          save_written-Completed w e e' (after d)
            (record { store = all.store ∙ k.store; index = all.index ∙ k.index })
            (unfold written_entry in record { positive = v.positive; in_range = v.in_range })
            (unfold written_entry in (refl, refl, refl, refl)))

  pub complete-Completed :
      (w : ReceiptWriter) (e : Receipt) (notes : List Notice)
      → IsReceipt e
      → Completed w e (complete outside config io w e notes)
  unfolding complete
  complete-Completed w e notes v = go _
    where
      go :
          (o : Outcome WriteError (Bytes × List Warning))
          → Completed w e (built outside config io w e notes o)
      go (err x) =
          unfold built in stayed w _ (record { store = refl; runs = refl; recovered = refl }) refl
      go (ok doc) = unfold built in put_in_place-Completed w e notes doc _ v
