-- ===== src/Documents/Kupain/Record.antt =====
-- internal/erp/hasavshevet/kupain.go: the KUPAIN record as a whole, beside KUPAIN.prm.
use digi_erp_connector.Base.{
  ℕ, zero, suc, ◌+◌, ◌-◌, ◌≤◌, ◌≡◌, refl, ap, sym, ◌∙◌, subst, arith, All, All-append, Text, some,
  List, [], ◌∷◌, ◌++◌, map, append_assoc, if◌then◌else◌, ◌==◌, ==_iff, length, replicate,
  length-append, length-replicate, Outcome, ok, err, Holds-ok, Bool-cases, if_both, inl, inr,
}
use digi_erp_connector.Base.Int.{ℤ}
use digi_erp_connector.Documents.Layout.{Bytes, joined, spans, cut, cut-spans, space, line_feed}
use digi_erp_connector.Documents.Encoding.{Unicode, encode_field, normalize1255}
use digi_erp_connector.Documents.Encoding.Laws.{encode_field-ok}
use digi_erp_connector.Documents.Kupain.Tables.{
  KupainField, kupain_fields, kupain_width, kupain_record_length,
}
use digi_erp_connector.Documents.Kupain.CardNames.{ReceiptCardNames, Warning}
use digi_erp_connector.Documents.Kupain.{
  ReceiptRequest, WriteError, Values, value_of, kupain_values, write_fields, written,
  with_line_feed, build_kupain_record, generate_kupain_doc, PrmLine, kupain_prm_lines,
}
use digi_erp_connector.Documents.Kupain.Laws.{kupain_values-All}

-- The lines with a place in the record.
unfoldable pub active : List PrmLine → List (ℕ × ℕ)
active [] = []
active (l ∷ ls) = let rest = active ls in if l.first == 0 then rest else (l.first, l.last) ∷ rest

-- The values of the fields with a place, each filled up to its width.
unfoldable pub cells : List KupainField → Values → List Bytes
cells [] vals = []
cells (f ∷ fs) vals =
    let rest = cells fs vals in
    let v = value_of f.num vals in
    if f.width == 0 then rest else (v ++ replicate (f.width - length v) space) ∷ rest

widths : List KupainField → List ℕ
widths [] = []
widths (f ∷ fs) = let rest = widths fs in if f.width == 0 then rest else f.width ∷ rest

abbrev Fits : ℕ × Bytes → Type 0
Fits p = length p.1 ≤ kupain_width p.0

value_of-Fits :
    (vals : Values) (num : ℕ) → All Fits vals → length (value_of num vals) ≤ kupain_width num
unfolding value_of
value_of-Fits [] num h = omega arith
value_of-Fits ((n, b) ∷ vals) num (fit, h) = elim (Bool-cases (n == num)) [
  | inl same ↦ rw same (subst (λ m. length b ≤ kupain_width m) ((==_iff n num).0 same) fit)
  | inr other ↦ rw other (value_of-Fits vals num h)
]

abbrev Room : Values → KupainField → Type 0
Room vals f = length (value_of f.num vals) ≤ f.width

rooms :
    (vals : Values) (fs : List KupainField)
    → map (λ (f : KupainField). f.width) fs ≡ map (λ (f : KupainField). kupain_width f.num) fs
    → All Fits vals
    → All (Room vals) fs
rooms vals [] e h = tt
rooms vals (f ∷ fs) e h =
    let own : f.width ≡ kupain_width f.num = cc in
    let others : map (λ (f : KupainField). f.width) fs
        ≡ map (λ (f : KupainField). kupain_width f.num) fs =
      cc in
    (
      subst (λ w. length (value_of f.num vals) ≤ w) (sym own) (value_of-Fits vals f.num h),
      rooms vals fs others h,
    )

replicate-suc : (n : ℕ) (a : ℕ) → replicate (suc n) a ≡ replicate n a ++ (a ∷ [])
replicate-suc zero a = refl
replicate-suc (suc n) a = ap (λ l. a ∷ l) (replicate-suc n a)

fill :
    (v : Bytes) (w : ℕ)
    → length v ≤ w
    → v ++ replicate (w + 1 - length v) space
      ≡ (v ++ replicate (w - length v) space) ++ (space ∷ [])
fill v w h =
    let one_more : w + 1 - length v ≡ suc (w - length v) = omega arith in
    rw
      (
        one_more,
        replicate-suc (w - length v) space,
        append_assoc v (replicate (w - length v) space) (space ∷ []),
      )
      refl

write_fields-joined :
    (fs : List KupainField) (vals : Values)
    → All (Room vals) fs
    → write_fields fs vals ≡ joined 1 (cells fs vals)
unfolding write_fields joined cells
write_fields-joined [] vals h = refl
write_fields-joined (f ∷ fs) vals (fit, h) = elim (Bool-cases (f.width == 0)) [
  | inl none_written ↦ rw none_written (write_fields-joined fs vals h)
  | inr is_written ↦
      rw (is_written, fill (value_of f.num vals) f.width fit, write_fields-joined fs vals h) refl
]

length-cells :
    (fs : List KupainField) (vals : Values)
    → All (Room vals) fs
    → map length (cells fs vals) ≡ widths fs
unfolding cells widths
length-cells [] vals h = refl
length-cells (f ∷ fs) vals (fit, h) =
    let v = value_of f.num vals in
    let full : length (v ++ replicate (f.width - length v) space) ≡ f.width = omega (
      arith,
      length-append v (replicate (f.width - length v) space),
      length-replicate (f.width - length v) space,
    ) in
    elim (Bool-cases (f.width == 0)) [
      | inl none_written ↦ rw none_written (length-cells fs vals h)
      | inr is_written ↦ rw (is_written, full, length-cells fs vals h) refl
    ]

total : List ℕ → ℕ
total [] = 0
total (w ∷ ws) = w + 1 + total ws

length-joined : (cs : List Bytes) → length (joined 1 cs) ≡ total (map length cs)
unfolding joined total
length-joined [] = refl
length-joined (c ∷ cs) =
    length-append (c ++ (space ∷ [])) (joined 1 cs)
    ∙ omega (arith, length-append c (space ∷ []), length-joined cs)

declared : spans 1 1 (widths kupain_fields) ≡ active (kupain_prm_lines.0)
unfolding spans widths active kupain_prm_lines
declared = refl

in_table :
    map (λ (f : KupainField). f.width) kupain_fields
    ≡ map (λ (f : KupainField). kupain_width f.num) kupain_fields
unfolding kupain_width
in_table = refl

sum_of_widths : total (widths kupain_fields) ≡ kupain_record_length
unfolding total widths
sum_of_widths = refl

-- The record of values that fit.
abbrev pub WellWritten : Values → Bytes → Type 0
WellWritten vals bytes =
    (length bytes ≡ kupain_record_length)
    × (map (cut bytes) (active (kupain_prm_lines.0)) ≡ cells kupain_fields vals)

write_fields-WellWritten :
    (vals : Values) → All Fits vals → WellWritten vals (write_fields kupain_fields vals)
write_fields-WellWritten vals h =
    let cs = cells kupain_fields vals in
    let fits : All (Room vals) kupain_fields = rooms vals kupain_fields in_table h in
    let sizes : map length cs ≡ widths kupain_fields = length-cells kupain_fields vals fits in
    let whole : joined 1 cs ≡ write_fields kupain_fields vals =
      sym (write_fields-joined kupain_fields vals fits) in
    let places : spans 1 1 (map length cs) ≡ active (kupain_prm_lines.0) =
      ap (spans 1 1) sizes ∙ declared in
    (
      ap length (sym whole) ∙ (length-joined cs ∙ (ap total sizes ∙ sum_of_widths)),
      subst (λ (ps : List (ℕ × ℕ)). map (cut (write_fields kupain_fields vals)) ps ≡ cs) places
          (subst (λ (b : Bytes). map (cut b) (spans 1 1 (map length cs)) ≡ cs) whole
            (cut-spans 1 [] cs)),
    )

module _ (u : Unicode) where
  written-ok :
      (o : Outcome WriteError (Values × List Warning)) {bytes : Bytes} {warnings : List Warning}
      → written o ≡ ok (bytes, warnings)
      → (vals : Values) × (o ≡ ok (vals, warnings)) × (write_fields kupain_fields vals ≡ bytes)
  unfolding written
  written-ok (err e) h = absurd (cc)
  written-ok (ok (vals, ws)) h =
      let same : ws ≡ _ = cc in (vals, ap (λ (w : List Warning). ok (vals, w)) same, cc)

  encoded-Fits :
      (num : ℕ) (wire value : Text) (b : Bytes)
      → encode_field u wire value (kupain_width num) ≡ ok b
      → Fits (num, b)
  encoded-Fits num wire value b h =
      let (_, short, _) = encode_field-ok u wire value (kupain_width num) b h in short

  copied-Fits : (vals : Values) → All Fits vals → Fits (6, value_of 5 vals)
  copied-Fits vals h =
      let in_5 : length (value_of 5 vals) ≤ kupain_width 5 = value_of-Fits vals 5 h in
      unfold kupain_width in in_5

  -- Every record that is built has exactly 1259 bytes, so the panic on another length is never
  -- reached; and cutting it at the positions that KUPAIN.prm declares gives back the values of the
  -- request, each filled up with spaces to its width, none cut short.
  pub build_kupain_record-ok :
      (req : ReceiptRequest) (number : ℤ) (names : ReceiptCardNames) (bytes : Bytes)
      (warnings : List Warning)
      → build_kupain_record u req number names ≡ ok (bytes, warnings)
      → (vals : Values) × (kupain_values u req number names ≡ ok (vals, warnings))
        × WellWritten vals bytes
  unfolding build_kupain_record
  build_kupain_record-ok req number names bytes warnings h =
      let (vals, found, same) = written-ok (kupain_values u req number names) h in
      let fits : All Fits vals =
        Holds-ok (λ (p : Values × List Warning). All Fits p.0) (kupain_values u req number names)
          found (kupain_values-All u Fits encoded-Fits copied-Fits req number names) in
      (vals, found, subst (WellWritten vals) same (write_fields-WellWritten vals fits))

-- Windows-1255 has the ASCII controls where ASCII has them: no other character has their bytes.
abbrev pub KeepsControls : Unicode → Type 0
KeepsControls u = (r b : ℕ) → 0x20 ≤ r → u.windows1255 r ≡ some b → 0x20 ≤ b

abbrev pub Printable : Bytes → Type 0
Printable bs = All (λ c. 0x20 ≤ c) bs

module _ (u : Unicode) (keeps : KeepsControls u) where
  spelled-Printable :
      (s : Text) (bs : Bytes) → map u.windows1255 s ≡ map some bs → Printable s → Printable bs
  spelled-Printable [] [] e h = tt
  spelled-Printable [] (b ∷ bs) e h = absurd (cc)
  spelled-Printable (r ∷ s) [] e h = absurd (cc)
  spelled-Printable (r ∷ s) (b ∷ bs) e (high, h) =
      let own : u.windows1255 r ≡ some b = cc in
      let others : map u.windows1255 s ≡ map some bs = cc in
      (keeps r b high own, spelled-Printable s bs others h)

  abbrev ValuePrintable : ℕ × Bytes → Type 0
  ValuePrintable p = Printable p.1

  encoded-Printable :
      (num : ℕ) (wire value : Text) (b : Bytes)
      → encode_field u wire value (kupain_width num) ≡ ok b
      → Printable b
  encoded-Printable num wire value b h =
      let (spelled, _, high) = encode_field-ok u wire value (kupain_width num) b h in
      spelled-Printable (normalize1255 u value) b spelled high

  value_of-Printable :
      (vals : Values) (num : ℕ) → All ValuePrintable vals → Printable (value_of num vals)
  unfolding value_of
  value_of-Printable [] num h = tt
  value_of-Printable ((n, b) ∷ vals) num (p, h) =
      if_both Printable (n == num) p (value_of-Printable vals num h)

  spaces-Printable : (n : ℕ) → Printable (replicate n space)
  spaces-Printable zero = tt
  spaces-Printable (suc n) = (omega arith, spaces-Printable n)

  write_fields-Printable :
      (fs : List KupainField) (vals : Values)
      → All ValuePrintable vals
      → Printable (write_fields fs vals)
  unfolding write_fields
  write_fields-Printable [] vals h = tt
  write_fields-Printable (f ∷ fs) vals h =
      let v = value_of f.num vals in
      let rest = write_fields-Printable fs vals h in
      if_both Printable (f.width == 0) rest (
        All-append (λ c. 0x20 ≤ c) (v ++ replicate (f.width + 1 - length v) space)
          (write_fields fs vals)
          (All-append (λ c. 0x20 ≤ c) v (replicate (f.width + 1 - length v) space)
            (value_of-Printable vals f.num h) (spaces-Printable (f.width + 1 - length v)))
          rest)

  with_line_feed-ok :
      (o : Outcome WriteError (Bytes × List Warning)) {bytes : Bytes} {warnings : List Warning}
      → with_line_feed o ≡ ok (bytes, warnings)
      → (b : Bytes) × (o ≡ ok (b, warnings)) × (bytes ≡ b ++ (line_feed ∷ []))
  unfolding with_line_feed
  with_line_feed-ok (err e) h = absurd (cc)
  with_line_feed-ok (ok (b, ws)) h =
      let same : ws ≡ _ = cc in (b, ap (λ (w : List Warning). ok (b, w)) same, cc)

  -- Where Windows-1255 keeps the control codes for the control characters, a KUPAIN file that is
  -- written is one record of 1259 bytes without a control code below 0x20, and one line feed: no
  -- value can break the one-record-per-line form.
  pub generate_kupain_doc-ok :
      (req : ReceiptRequest) (number : ℤ) (names : ReceiptCardNames) (bytes : Bytes)
      (warnings : List Warning)
      → generate_kupain_doc u req number names ≡ ok (bytes, warnings)
      → (b : Bytes) × (bytes ≡ b ++ (line_feed ∷ []))
        × (length b ≡ kupain_record_length)
        × Printable b
  unfolding generate_kupain_doc
  generate_kupain_doc-ok req number names bytes warnings h =
      let (b, built, whole) = with_line_feed-ok (build_kupain_record u req number names) h in
      let (vals, found, (size, _)) = build_kupain_record-ok u req number names b warnings built in
      let (vals', found', same) =
        written-ok u (kupain_values u req number names) (unfold build_kupain_record in built) in
      let printable : All ValuePrintable vals' =
        Holds-ok (λ (p : Values × List Warning). All ValuePrintable p.0)
          (kupain_values u req number names) found'
          (kupain_values-All u ValuePrintable encoded-Printable
            (λ vals h. value_of-Printable vals 5 h) req number names) in
      (b, whole, size, subst Printable same (write_fields-Printable kupain_fields vals' printable))
