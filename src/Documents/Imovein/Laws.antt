-- ===== src/Documents/Imovein/Laws.antt =====
-- internal/erp/hasavshevet/imovein.go: DOC records beside IMOVEIN.prm, and padW1255.
use digi_erp_connector.Base.{
  ℕ, zero, suc, ◌+◌, ◌*◌, ◌-◌, ◌≤◌, length-take, subst, ◌≡◌, refl, sym, ap, ◌∙◌, arith, Text,
  Option, List, [], ◌∷◌, ◌++◌, map, length, take, replicate, length-append, length-replicate,
  if◌then◌else◌, ◌==◌, append-nil,
}
use digi_erp_connector.Documents.Layout.{Bytes, concat, joined, spans, cut, cut-spans, space}
use digi_erp_connector.Documents.Imovein.{
  StockHeader, StockMove, PrmRow, width, doc_values, encode_windows1255, encode_rune, fit,
  pad_w1255, padded, build_doc_record, generate_doc, all_prm_rows, prm_total_record_length,
}

-- The rows with a place in the record.
unfoldable pub active : List PrmRow → List (ℕ × ℕ)
active [] = []
active (r ∷ rs) = let rest = active rs in if r.first == 0 then rest else (r.first, r.last) ∷ rest

take-replicate : (n m : ℕ) (a : ℕ) → n ≤ m → take n (replicate m a) ≡ replicate n a
take-replicate zero m a h = refl
take-replicate (suc n) zero a h = absurd (omega arith)
take-replicate (suc n) (suc m) a h = ap (λ l. a ∷ l) (take-replicate n m a (omega arith))

module _ (windows1255 : ℕ → Option ℕ) where
  fit_lem :
      (s : Text) (n m : ℕ)
      → n ≤ m
      → fit windows1255 s n ++ replicate (n - length (fit windows1255 s n)) space
        ≡ take n (encode_windows1255 windows1255 s ++ replicate m space)
  unfolding fit encode_windows1255
  fit_lem [] n m h =
      let all_room : n - 0 ≡ n = omega arith in rw all_room (sym (take-replicate n m space h))
  fit_lem (r ∷ s) zero m h = refl
  fit_lem (r ∷ s) (suc n) m h =
      let shorter : suc n - suc (length (fit windows1255 s n)) ≡ n - length (fit windows1255 s n) =
        omega arith in
      rw shorter (ap (λ l. encode_rune windows1255 r ∷ l) (fit_lem s n m (omega arith)))

  -- For every text and width, padW1255 gives the first `width` bytes of the encoded text followed
  -- by `width` spaces.
  pub pad_w1255_lem :
      (s : Text) (n : ℕ)
      → pad_w1255 windows1255 s n ≡ take n (encode_windows1255 windows1255 s ++ replicate n space)
  unfolding pad_w1255
  pad_w1255_lem s zero = refl
  pad_w1255_lem s (suc n) = fit_lem s (suc n) (suc n) (omega arith)

  -- A padded value has exactly the width.
  length-pad_w1255 : (s : Text) (n : ℕ) → length (pad_w1255 windows1255 s n) ≡ n
  length-pad_w1255 s n = rw (pad_w1255_lem s n) (
      length-take n (encode_windows1255 windows1255 s ++ replicate n space)
      ∙ omega (
        arith,
        length-append (encode_windows1255 windows1255 s) (replicate n space),
        length-replicate n space,
      ))

  line_width : ℕ × Text → ℕ
  line_width (line, value) = width line

  length-padded :
      (vs : List (ℕ × Text)) → map length (map (padded windows1255) vs) ≡ map line_width vs
  unfolding padded line_width
  length-padded [] = refl
  length-padded ((line, value) ∷ vs) =
      rw (length-pad_w1255 value (width line), length-padded vs) refl

  sum : List ℕ → ℕ
  sum [] = 0
  sum (w ∷ ws) = w + sum ws

  length-concat : (bs : List Bytes) → length (concat bs) ≡ sum (map length bs)
  unfolding concat sum
  length-concat [] = refl
  length-concat (b ∷ bs) = length-append b (concat bs) ∙ ap (λ n. length b + n) (length-concat bs)

  -- Every DOC record has the 2891 bytes that line 1 of IMOVEIN.prm declares, whatever the values.
  pub length-build_doc_record :
      (h : StockHeader) (m : StockMove)
      → length (build_doc_record windows1255 h m) ≡ prm_total_record_length
  unfolding build_doc_record doc_values sum line_width width
  length-build_doc_record h m =
      length-concat (map (padded windows1255) (doc_values h m))
      ∙ ap sum (length-padded (doc_values h m))

  -- A DOC file has 2892 bytes for each of the order's lines.
  pub length-generate_doc :
      (h : StockHeader) (moves : List StockMove)
      → length (generate_doc windows1255 h moves) ≡ length moves * (prm_total_record_length + 1)
  unfolding generate_doc
  length-generate_doc h [] = refl
  length-generate_doc h (m ∷ moves) =
      let r = build_doc_record windows1255 h m in
      length-append (r ++ (10 ∷ [])) (generate_doc windows1255 h moves)
      ∙ omega (
        arith,
        length-append r (10 ∷ []),
        length-build_doc_record h m,
        length-generate_doc h moves,
      )

  concat-joined : (bs : List Bytes) → joined 0 bs ≡ concat bs
  unfolding concat joined
  concat-joined [] = refl
  concat-joined (b ∷ bs) = rw (append-nil b, concat-joined bs) refl

  declared :
      (h : StockHeader) (m : StockMove)
      → spans 0 1 (map line_width (doc_values h m)) ≡ active all_prm_rows
  unfolding spans active all_prm_rows line_width width doc_values
  declared h m = refl

  -- Whatever the values, cutting a DOC record at the positions that IMOVEIN.prm declares gives
  -- back the padded values of the lines, each in its place and in order.
  pub cut-build_doc_record :
      (h : StockHeader) (m : StockMove)
      → map (cut (build_doc_record windows1255 h m)) (active all_prm_rows)
        ≡ map (padded windows1255) (doc_values h m)
  cut-build_doc_record h m =
      let cells = map (padded windows1255) (doc_values h m) in
      let found : map (cut (joined 0 cells)) (spans 0 1 (map length cells)) ≡ cells =
        cut-spans 0 [] cells in
      let places : spans 0 1 (map length cells) ≡ active all_prm_rows =
        ap (spans 0 1) (length-padded (doc_values h m)) ∙ declared h m in
      let whole : joined 0 cells ≡ build_doc_record windows1255 h m =
        unfold build_doc_record in concat-joined cells in
      subst (λ (ps : List (ℕ × ℕ)). map (cut (build_doc_record windows1255 h m)) ps ≡ cells) places
        (subst (λ (b : Bytes). map (cut b) (spans 0 1 (map length cells)) ≡ cells) whole found)
