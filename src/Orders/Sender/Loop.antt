-- ===== src/Orders/Sender/Loop.antt =====
-- internal/erp/hasavshevet/send_order.go: the loop that writes the four files.
use digi_erp_connector.Base.{
  sym, ◌∙◌, ℕ, ◌≡◌, ◌≢◌, refl, ap, ◌∙◌, Text, true, Option, List, [], ◌∷◌, ◌++◌, map, append_assoc,
  append-nil, Outcome, ok, err,
}
use digi_erp_connector.Orders.Queue.State.{OrderFailure}
use digi_erp_connector.Orders.Sender.Outside.{
  Outside, SenderConfig, SendIo, FileWrite, not_opened, cut_short, complete,
}
use digi_erp_connector.Orders.Sender.Process.{
  Written, OrderFile, wrote_file, write_files, nothing_yet,
}

abbrev pub paths : List OrderFile → List Text
paths l = map (λ (f : OrderFile). f.path) l

module _ {F : Type 0} (windows1255 : ℕ → Option ℕ) (outside : Outside F) (config : SenderConfig)
    (io : SendIo F) where
  -- What a loop over `fs` after `written` may leave: on success every file was opened and is
  -- listed; an error that is marked came before any file was opened.
  pub record Loop (fs : List OrderFile) (written : List Text) (w : Written) : Type 0 where
    pub all : (l : List Text) → w.outcome ≡ ok l → (w.opened ≡ fs) × (l ≡ written ++ paths fs)
    pub marked :
        (f : OrderFailure)
        → w.outcome ≡ err f
        → f.not_written ≡ true
        → (w.opened ≡ []) × (written ≡ [])
    pub unopened :
        (f : OrderFailure) → w.outcome ≡ err f → w.opened ≡ [] → written ≡ [] → f.not_written ≡ true
    pub prefix : (rest : List OrderFile) × (w.opened ++ rest ≡ fs)

  nothing_yet-nil : (written : List Text) → nothing_yet written ≡ true → written ≡ []
  nothing_yet-nil [] h = refl
  nothing_yet-nil (p ∷ ps) h = absurd (cc)

  pub err_marked :
      {A : Type 0} (f g : OrderFailure)
      → (let o : Outcome OrderFailure A = err f in o ≡ err g)
      → f.not_written ≡ g.not_written
  err_marked f g h = let same : f ≡ g = cc in ap (λ (x : OrderFailure). x.not_written) same

  append_one-nil : (written : List Text) (p : Text) → written ++ (p ∷ []) ≢ []
  append_one-nil [] p h = absurd (cc)
  append_one-nil (q ∷ qs) p h = absurd (cc)

  wrote_file-Loop :
      (f : OrderFile) (fs : List OrderFile) (written : List Text) (a : FileWrite) (rest : Written)
      → Loop fs (written ++ (f.path ∷ [])) rest
      → Loop (f ∷ fs) written (wrote_file windows1255 outside config io f written a rest)
  wrote_file-Loop f fs written not_opened rest deeper = record {
    all = λ l h. absurd (cc);
    marked = λ g h m. (refl, nothing_yet-nil written (err_marked _ g h ∙ m));
    unopened = λ g h o w. sym (err_marked _ g h) ∙ ap nothing_yet w;
    prefix = (f ∷ fs, refl);
  }
  wrote_file-Loop f fs written cut_short rest deeper = record {
    all = λ l h. absurd (cc);
    marked = λ g h m. absurd (cc (err_marked _ g h, m));
    unopened = λ g h o w. absurd (cc);
    prefix = (fs, refl);
  }
  wrote_file-Loop f fs written complete rest deeper = record {
    all = λ l h.
        let (o, e) = deeper.all l h in
        (ap (λ r. f ∷ r) o, e ∙ append_assoc written (f.path ∷ []) (paths fs));
    marked = λ g h m. absurd (append_one-nil written f.path ((deeper.marked g h m).1));
    unopened = λ g h o w. absurd (cc);
    prefix = let (r, e) = deeper.prefix in (r, ap (λ r. f ∷ r) e);
  }

  pub write_files-Loop :
      (fs : List OrderFile) (written : List Text)
      → Loop fs written (write_files windows1255 outside config io fs written)
  unfolding write_files
  write_files-Loop [] written = record {
    all = λ l h. (refl, cc (h, append-nil written));
    marked = λ f h. absurd (cc);
    unopened = λ f h o w. absurd (cc);
    prefix = ([], refl);
  }
  write_files-Loop (f ∷ fs) written =
      wrote_file-Loop f fs written (io.write f.path) _
        (write_files-Loop fs (written ++ (f.path ∷ [])))
