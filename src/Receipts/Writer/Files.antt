-- ===== src/Receipts/Writer/Files.antt =====
-- internal/erp/hasavshevet/receipt_writer.go: the files that complete puts in place, and their order.
use digi_erp_connector.Base.{
  ℕ, ◌≡◌, ◌≢◌, refl, ap, ◌∙◌, ◌⊎◌, inl, inr, text_eq_sound, true, false, Option, none, some, List,
  [], ◌∷◌, if_split, if_true, if_false, if_both, Pairwise, ==_iff, Outcome, ok, err, All,
}
use digi_erp_connector.Documents.Layout.{Bytes}
use digi_erp_connector.Base.Int.{pos}
use digi_erp_connector.Documents.Encoding.{Reason}
use digi_erp_connector.Documents.Kupain.{WriteError, generate_kupain_doc, generate_kupain_prm}
use digi_erp_connector.Documents.Kupain.CardNames.{Warning}
use digi_erp_connector.Receipts.Index.{save}
use digi_erp_connector.Receipts.Types.{Receipt, ReceiptError, Notice, file_not_written}
use digi_erp_connector.Receipts.Writer.State.{
  ReceiptPath, history_doc, history_prm, receipts_prm, receipt_doc, path_eq, FolderMade, not_made,
  not_private, private_made, ReceiptDisk, ReceiptWriter, WriterConfig, ReceiptOutside, ReceiptIo,
}
use digi_erp_connector.Receipts.Writer.Complete.{
  put_file, write_if_different, write_all, next_file, receipt_files, complete, holds, save_written,
  put_in_place, in_folder, written_entry, built,
}

path_eq_refl : (p : ReceiptPath) → path_eq p p ≡ true
unfolding path_eq
path_eq_refl (history_doc n) = (==_iff n n).1 refl
path_eq_refl (history_prm n) = (==_iff n n).1 refl
path_eq_refl receipts_prm = refl
path_eq_refl (receipt_doc n) = (==_iff n n).1 refl

-- A file is there and holds these bytes.
abbrev pub Holds? : ReceiptDisk → ReceiptPath × Bytes → Type 0
Holds? d f = d.files f.0 ≡ some f.1

-- The disk after one file of the loop: it is in place, and no other file is touched.
pub record Placed (d d' : ReceiptDisk) (p : ReceiptPath) (bytes : Bytes) : Type 0 where
  pub there : Holds? d' (p, bytes)
  pub others : (q : ReceiptPath) → path_eq p q ≡ false → d'.files q ≡ d.files q

holds_sound : (o : Option Bytes) (bytes : Bytes) → holds o bytes ≡ true → o ≡ some bytes
unfolding holds
holds_sound none bytes h = absurd (cc)
holds_sound (some current) bytes h = ap some (text_eq_sound current bytes h)

put_file-Placed :
    (d : ReceiptDisk) (p : ReceiptPath) (bytes : Bytes)
    → Placed d (record d { files = put_file p bytes d.files }) p bytes
unfolding put_file
put_file-Placed d p bytes = record {
  there = if_true _ _ (path_eq_refl p);
  others = λ q h. if_false _ _ h;
}

-- The last of the files, which no file before it is.
IsLast : List (ReceiptPath × Bytes) → ReceiptPath → Type 0
IsLast [] q = ⊥
IsLast (f ∷ []) q = f.0 ≡ q
IsLast (f ∷ g ∷ fs) q = (path_eq f.0 q ≡ false) × IsLast (g ∷ fs) q

abbrev Outside : ReceiptPath → List (ReceiptPath × Bytes) → Type 0
Outside q = All (λ f. path_eq f.0 q ≡ false)

-- What the loop over files leaves: all in place, or the last one untouched.
data WroteAll (d : ReceiptDisk) (fs : List (ReceiptPath × Bytes))
    : ReceiptDisk × Outcome ReceiptError (Unit {0}) → Type 0 where
  all_placed :
      (d' : ReceiptDisk)
      → All (Holds? d') fs
      → ((q : ReceiptPath) → Outside q fs → d'.files q ≡ d.files q)
      → WroteAll d fs (d', ok tt)
  cut_off :
      (d' : ReceiptDisk) (x : ReceiptError)
      → fs ≢ []
      → ((q : ReceiptPath) → IsLast fs q → d'.files q ≡ d.files q)
      → WroteAll d fs (d', err x)

module _ (outside : ReceiptOutside) (config : WriterConfig) (io : ReceiptIo) where
  data WroteOne (d : ReceiptDisk) (p : ReceiptPath) (bytes : Bytes)
      : ReceiptDisk × Outcome ReceiptError (Unit {0}) → Type 0 where
    in_place : (d' : ReceiptDisk) → Placed d d' p bytes → WroteOne d p bytes (d', ok tt)
    failed : (x : ReceiptError) → WroteOne d p bytes (d, err x)

  write_if_different-WroteOne :
      (n : ℕ) (p : ReceiptPath) (bytes : Bytes) (d : ReceiptDisk)
      → WroteOne d p bytes (write_if_different outside config io n p bytes d)
  unfolding write_if_different
  write_if_different-WroteOne n p bytes d =
      if_split (WroteOne d p bytes) (holds (d.files p) bytes)
        (λ same.
          in_place d (record { there = holds_sound (d.files p) bytes same; others = λ q h. refl }))
        (λ _.
          if_both (WroteOne d p bytes) (io.writes n p) (in_place _ (put_file-Placed d p bytes))
            (failed (file_not_written _)))

  next_file-WroteAll :
      (n : ℕ) (d : ReceiptDisk) (p : ReceiptPath) (bytes : Bytes) (fs : List (ReceiptPath × Bytes))
      (r : ReceiptDisk × Outcome ReceiptError (Unit {0}))
      → All (λ g. path_eq g.0 p ≡ false) fs
      → WroteOne d p bytes r
      → ((d' : ReceiptDisk) → WroteAll d' fs (write_all outside config io n fs d'))
      → WroteAll d
          ((p, bytes) ∷ fs)
          (next_file outside config io (write_all outside config io n fs) r)
  unfolding next_file
  next_file-WroteAll n d p bytes fs r apart (failed x) deeper = cut_off d x (λ h. cc) (λ q _. refl)
  next_file-WroteAll n d p bytes fs r apart (in_place d' placed) deeper =
      joined fs apart (write_all outside config io n fs d') (deeper d')
    where
      joined :
          (fs : List (ReceiptPath × Bytes))
          → All (λ g. path_eq g.0 p ≡ false) fs
          → (r : ReceiptDisk × Outcome ReceiptError (Unit {0})) → WroteAll d' fs r
          → WroteAll d ((p, bytes) ∷ fs) r
      joined fs apart r (all_placed d'' held others) =
          all_placed d'' ((others p apart ∙ placed.there, held))
            (λ q o. others q o.1 ∙ placed.others q o.0)
      joined [] apart r (cut_off d'' x some_file untouched) = absurd (some_file refl)
      joined (g ∷ gs) apart r (cut_off d'' x some_file untouched) =
          unfold IsLast in cut_off d'' x (λ h. cc) (λ q l. untouched q l.1 ∙ placed.others q l.0)

  write_all-WroteAll :
      (n : ℕ) (fs : List (ReceiptPath × Bytes)) (d : ReceiptDisk)
      → Pairwise (λ f g. path_eq g.0 f.0 ≡ false) fs
      → WroteAll d fs (write_all outside config io n fs d)
  unfolding write_all
  write_all-WroteAll n [] d apart = all_placed d tt (λ q _. refl)
  write_all-WroteAll n ((p, bytes) ∷ fs) d (first, rest) =
      next_file-WroteAll n d p bytes fs _ first (write_if_different-WroteOne n p bytes d)
        (λ d'. write_all-WroteAll n fs d' rest)

  -- The four files of a receipt are apart, and its .doc is the last.
  files_apart :
      (n : ℕ) (doc prm : Bytes)
      → Pairwise
          (λ (f g : ReceiptPath × Bytes). path_eq g.0 f.0 ≡ false)
          (receipt_files outside config io n doc prm)
        × IsLast (receipt_files outside config io n doc prm) (receipt_doc n)
  unfolding path_eq IsLast
  files_apart n doc prm = (
    ((refl, (refl, (refl, tt))), ((refl, (refl, tt)), ((refl, tt), (tt, tt)))),
    (refl, (refl, (refl, refl))),
  )

  -- The four files of a receipt are in place, with one document and one parameter file.
  pub record InPlace (e : Receipt) (d : ReceiptDisk) : Type 0 where
    pub doc : Bytes
    pub prm : Bytes
    pub warnings : List Warning
    pub doc_built :
        generate_kupain_doc outside.unicode e.request (pos e.number) config.card_names
        ≡ ok (doc, warnings)
    pub prm_built : generate_kupain_prm outside.unicode ≡ ok prm
    pub held : All (Holds? d) (receipt_files outside config io e.number doc prm)

  -- The .doc is as it was, or all four files are in place; and a success is the latter.
  abbrev pub DocLast : ReceiptDisk → Receipt → ReceiptWriter × Outcome ReceiptError Receipt → Type 0
  DocLast d e r =
      ((r.0.disk.files (receipt_doc e.number) ≡ d.files (receipt_doc e.number))
        ⊎ InPlace e r.0.disk)
      × ((e' : Receipt) → r.1 ≡ ok e' → InPlace e r.0.disk)

  saved-DocLast :
      (d : ReceiptDisk) (w : ReceiptWriter) (e e' : Receipt) (doc prm : Bytes)
      (warnings : List Warning) (r : ReceiptDisk × Outcome ReceiptError (Unit {0}))
      → generate_kupain_doc outside.unicode e.request (pos e.number) config.card_names
        ≡ ok (doc, warnings)
      → generate_kupain_prm outside.unicode ≡ ok prm
      → WroteAll d (receipt_files outside config io e.number doc prm) r
      → DocLast d e (save_written outside config io w e' r)
  unfolding save_written
  saved-DocLast d w e e' doc prm warnings r b c (all_placed d' held others) =
      let whole : InPlace e (record d' { index = (save d'.index (io.saves e') e').0 }) = record {
        doc = doc;
        prm = prm;
        warnings = warnings;
        doc_built = b;
        prm_built = c;
        held = held;
      } in
      (inr whole, (λ f h. whole))
  saved-DocLast d w e e' doc prm warnings r b c (cut_off d' x some_file untouched) = (
    inl (untouched (receipt_doc e.number) (files_apart e.number doc prm).1),
    (λ f h. absurd (cc)),
  )

  in_folder-DocLast :
      (w : ReceiptWriter) (e : Receipt)
      (rest : ReceiptDisk → ReceiptWriter × Outcome ReceiptError Receipt) (m : FolderMade)
      → ((d : ReceiptDisk)
          → ((q : ReceiptPath) → d.files q ≡ w.disk.files q)
          → DocLast d e (rest d))
      → DocLast w.disk e (in_folder outside config io rest w e.number m)
  unfolding in_folder
  in_folder-DocLast w e rest not_made h = (inl refl, (λ f g. absurd (cc)))
  in_folder-DocLast w e rest not_private h = (inl refl, (λ f g. absurd (cc)))
  in_folder-DocLast w e rest private_made h = h _ (λ q. refl)

  placed-DocLast :
      (w : ReceiptWriter) (e : Receipt) (notes : List Notice) (doc : Bytes)
      (warnings : List Warning) (o : Outcome Reason Bytes)
      → generate_kupain_doc outside.unicode e.request (pos e.number) config.card_names
        ≡ ok (doc, warnings)
      → generate_kupain_prm outside.unicode ≡ o
      → DocLast w.disk e (put_in_place outside config io w e notes (doc, warnings) o)
  unfolding put_in_place
  placed-DocLast w e notes doc warnings (err x) b c = (inl refl, (λ f h. absurd (cc)))
  placed-DocLast w e notes doc warnings (ok prm) b c =
      let fs = receipt_files outside config io e.number doc prm in
      let e' = written_entry outside config io e warnings notes in
      in_folder-DocLast w e
        (λ d. save_written outside config io w e' (write_all outside config io e.number fs d))
        (io.makes_dir e.number)
        (λ d same.
          saved-DocLast d w e e' doc prm warnings _ b c
            (write_all-WroteAll e.number fs d (files_apart e.number doc prm).0))

  -- Whatever a call of complete meets, the receipt's .doc is as it was before or all four files of
  -- the receipt hold the bytes built from the stored request, and after a success they do.
  pub doc_last :
      (w : ReceiptWriter) (e : Receipt) (notes : List Notice)
      → DocLast w.disk e (complete outside config io w e notes)
  unfolding complete
  doc_last w e notes =
      go (generate_kupain_doc outside.unicode e.request (pos e.number) config.card_names) refl
    where
      go :
          (o : Outcome WriteError (Bytes × List Warning))
          → generate_kupain_doc outside.unicode e.request (pos e.number) config.card_names ≡ o
          → DocLast w.disk e (built outside config io w e notes o)
      go (err x) b = unfold built in (inl refl, (λ f h. absurd (cc)))
      go (ok (doc, warnings)) b =
          unfold built in
          placed-DocLast w e notes doc warnings (generate_kupain_prm outside.unicode) b refl
