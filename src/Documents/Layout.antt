-- ===== src/Documents/Layout.antt =====
-- internal/erp/hasavshevet: fixed-width records. What imovein.go and kupain.go share: bytes, the
-- positions that a .prm file declares, and the cut of a record at such positions.
use Prim.Native.String.{String}
use digi_erp_connector.Base.{
  leb, ◌&&◌, if◌then◌else◌, ℕ, ◌+◌, ◌-◌, ◌*◌, ◌≡◌, All, refl, ap, ◌∙◌, arith, Text, codes, List, [],
  ◌∷◌, ◌++◌, map, append_assoc, length, take, drop, replicate, length-append, length-replicate,
}

abbrev pub Bytes : Type 0
Bytes = List ℕ

-- One character of the 7-bit Hebrew code SI 960, whose bytes 0x60 to 0x7A are the Hebrew letters.
hebrew_code : ℕ → ℕ
hebrew_code c = if leb 0x60 c && leb c 0x7A then c - 0x60 + 0x5D0 else c

-- A Hebrew literal, written in SI 960.
unfoldable pub hebrew : String → Text
unfolding hebrew_code
hebrew s = map hebrew_code (codes s)

abbrev pub space : ℕ
space = b' '

abbrev pub line_feed : ℕ
line_feed = 10

-- The bytes of several writes to one buffer.
unfoldable pub concat : List Bytes → Bytes
concat [] = []
concat (b ∷ bs) = b ++ concat bs

pub length-concat_same :
    (n : ℕ) (bs : List Bytes) → All (λ b. length b ≡ n) bs → length (concat bs) ≡ length bs * n
unfolding concat
length-concat_same n [] h = omega arith
length-concat_same n (b ∷ bs) (first, rest) =
    length-append b (concat bs) ∙ omega (arith, first, length-concat_same n bs rest)

-- Cells one after the other, each followed by `gap` spaces.
unfoldable pub joined : ℕ → List Bytes → Bytes
joined gap [] = []
joined gap (c ∷ cs) = (c ++ replicate gap space) ++ joined gap cs

-- The first and last position, from 1, of each of the widths that stand at `start` and after.
unfoldable pub spans : ℕ → ℕ → List ℕ → List (ℕ × ℕ)
spans gap start [] = []
spans gap start (w ∷ ws) = (start, start + w - 1) ∷ spans gap (start + w + gap) ws

-- The bytes of a record from one position to another, both from 1 and both included.
unfoldable pub cut : Bytes → ℕ × ℕ → Bytes
cut record_bytes (first, last) = take (last + 1 - first) (drop (first - 1) record_bytes)

drop-append : {A : Type 0} → (xs ys : List A) → drop (length xs) (xs ++ ys) ≡ ys
drop-append [] ys = refl
drop-append (x ∷ xs) ys = drop-append xs ys

take-append : {A : Type 0} → (xs ys : List A) → take (length xs) (xs ++ ys) ≡ xs
take-append [] ys = refl
take-append (x ∷ xs) ys = ap (λ l. x ∷ l) (take-append xs ys)

-- A cell is what lies between its positions.
cut_cell :
    (before c after : Bytes)
    → cut (before ++ (c ++ after)) (length before + 1, length before + 1 + length c - 1) ≡ c
unfolding cut
cut_cell before c after =
    let back : length before + 1 - 1 ≡ length before = omega arith in
    let wide : length before + 1 + length c - 1 + 1 - (length before + 1) ≡ length c =
      omega arith in
    rw (back, wide, drop-append before (c ++ after)) (take-append c after)

-- Cutting cells that stand behind `before` at the spans of their widths gives the cells.
pub cut-spans :
    (gap : ℕ) (before : Bytes) (cells : List Bytes)
    → map (cut (before ++ joined gap cells)) (spans gap (length before + 1) (map length cells))
      ≡ cells
unfolding spans joined
cut-spans gap before [] = refl
cut-spans gap before (c ∷ cs) =
    let filler = replicate gap space in
    let rest = joined gap cs in
    let behind = before ++ (c ++ filler) in
    let first : cut (before ++ ((c ++ filler) ++ rest))
          (length before + 1, length before + 1 + length c - 1)
        ≡ c =
      rw (append_assoc c filler rest) (cut_cell before c (filler ++ rest)) in
    let start : length behind + 1 ≡ length before + 1 + length c + gap = omega (
      arith,
      length-append before (c ++ filler),
      length-append c filler,
      length-replicate gap space,
    ) in
    let others : map (cut (before ++ ((c ++ filler) ++ rest)))
          (spans gap (length before + 1 + length c + gap) (map length cs))
        ≡ cs =
      rw (← start, ← append_assoc before (c ++ filler) rest) (cut-spans gap behind cs) in
    rw (first, others) refl
