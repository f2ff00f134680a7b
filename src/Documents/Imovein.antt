-- ===== src/Documents/Imovein.antt =====
-- internal/erp/hasavshevet/imovein.go: the IMOVEIN.doc and IMOVEIN.prm that an order is written to.
-- The Windows-1255 byte of a character, if it has one, is golang.org/x/text's: a parameter.
pub mod Tables
pub mod Laws
use digi_erp_connector.Base.{
  ℕ, zero, suc, ◌+◌, ◌-◌, Text, codes, Option, none, some, List, [], ◌∷◌, ◌++◌, map, if◌then◌else◌,
  ◌==◌, length, replicate,
}
use digi_erp_connector.Base.Int.{ℤ}
use digi_erp_connector.Base.Decimal.{format, format_int64}
use digi_erp_connector.Documents.Layout.{Bytes, concat, space, line_feed, hebrew}
use digi_erp_connector.Documents.Imovein.Tables.{imove_in_field_lengths, imove_in_field_titles}

-- A Go map with numbers for keys: a missing key has the zero value.
entry {ℓ} : {A : Type ℓ} → List (ℕ × A) → A → ℕ → A
entry [] zero_value i = zero_value
entry ((j, a) ∷ rest) zero_value i =
    let later = entry rest zero_value i in if j == i then a else later

unfoldable pub width : ℕ → ℕ
unfolding entry
width i = entry imove_in_field_lengths 0 i

unfoldable pub title : ℕ → Text
unfolding entry
title i = entry imove_in_field_titles [] i

abbrev pub prm_total_record_length : ℕ
prm_total_record_length = 2891

-- stockHeader
pub record StockHeader : Type 0 where
  pub account_key : Text
  pub my_id : ℤ
  pub document_id : ℤ
  pub account_name : Text
  pub address : Text
  pub city : Text
  pub asmahta2 : Text
  pub short_date : Text
  pub agent : Text
  pub ware_house : ℤ
  pub discount_prc_r : Text
  pub vat_prc : Text
  pub copies : Text
  pub currency : Text
  pub rate : Text
  pub phone : Text
  pub remarks : Text
  pub h_protect : Text
  pub extra_text1 : Text
  pub extra_text2 : Text
  pub extra_text3 : Text
  pub extra_text4 : Text
  pub extra_text5 : Text
  pub extra_sum1 : Text
  pub extra_sum2 : Text
  pub extra_sum3 : Text
  pub extra_date1 : Text
  pub extra_date2 : Text
  pub extra_num1 : Text
  pub extra_num2 : Text

-- stockMove
pub record StockMove : Type 0 where
  pub item_key : Text
  pub item_name : Text
  pub quantity : Text
  pub packs : Text
  pub price : Text
  pub discount_prc : Text
  pub unit : Text

-- The values that buildDOCRecord writes, in its order, each with its line of the table; line 63
-- has width 0 and is left out.
unfoldable pub doc_values : StockHeader → StockMove → List (ℕ × Text)
doc_values h m =
    (2, h.account_key)
    ∷ (3, format_int64 h.my_id)
    ∷ (4, format_int64 h.document_id)
    ∷ (5, h.account_name)
    ∷ (6, h.address)
    ∷ (7, h.city)
    ∷ (8, h.asmahta2)
    ∷ (9, h.short_date)
    ∷ (10, h.short_date)
    ∷ (11, h.agent)
    ∷ (12, format_int64 h.ware_house)
    ∷ (13, [])
    ∷ (14, [])
    ∷ (15, [])
    ∷ (16, [])
    ∷ (17, h.discount_prc_r)
    ∷ (18, h.vat_prc)
    ∷ (19, h.copies)
    ∷ (20, h.currency)
    ∷ (21, h.rate)
    ∷ (22, m.item_key)
    ∷ (23, m.quantity)
    ∷ (24, m.price)
    ∷ (25, h.currency)
    ∷ (26, m.discount_prc)
    ∷ (27, h.rate)
    ∷ (28, m.item_name)
    ∷ (29, m.unit)
    ∷ (30, [])
    ∷ (31, [])
    ∷ (32, [])
    ∷ (33, m.packs)
    ∷ (34, codes "0")
    ∷ (35, h.phone)
    ∷ (36, h.short_date)
    ∷ (37, h.remarks)
    ∷ (38, [])
    ∷ (39, [])
    ∷ (40, [])
    ∷ (41, [])
    ∷ (42, [])
    ∷ (43, [])
    ∷ (44, [])
    ∷ (45, h.extra_text1)
    ∷ (46, h.extra_text2)
    ∷ (47, h.extra_text3)
    ∷ (48, h.extra_text4)
    ∷ (49, h.extra_text5)
    ∷ (50, h.extra_sum1)
    ∷ (51, h.extra_sum2)
    ∷ (52, h.extra_sum3)
    ∷ (53, [])
    ∷ (54, [])
    ∷ (55, [])
    ∷ (56, [])
    ∷ (57, [])
    ∷ (58, [])
    ∷ (59, [])
    ∷ (60, h.h_protect)
    ∷ (61, [])
    ∷ (62, [])
    ∷ (64, [])
    ∷ (65, [])
    ∷ (66, [])
    ∷ (67, [])
    ∷ (68, [])
    ∷ (69, [])
    ∷ (70, [])
    ∷ (71, [])
    ∷ (72, [])
    ∷ (73, [])
    ∷ (74, [])
    ∷ (75, [])
    ∷ (76, [])
    ∷ (77, [])
    ∷ (78, [])
    ∷ (79, h.extra_date1)
    ∷ (80, h.extra_date2)
    ∷ (81, h.extra_num1)
    ∷ (82, h.extra_num2)
    ∷ (83, [])
    ∷ (84, [])
    ∷ (85, [])
    ∷ (86, [])
    ∷ (87, [])
    ∷ []

module _ (windows1255 : ℕ → Option ℕ) where
  -- encodeRune1255
  unfoldable pub encode_rune : ℕ → ℕ
  encode_rune r = elim (windows1255 r) [ none ↦ b'?' | some b ↦ b ]

  -- encodeWindows1255
  unfoldable pub encode_windows1255 : Text → Bytes
  unfolding encode_rune
  encode_windows1255 s = map encode_rune s

  -- The first loop of padW1255: it stops when `room` bytes are there.
  unfoldable pub fit : Text → ℕ → Bytes
  unfolding encode_rune
  fit [] room = []
  fit (r ∷ s) zero = []
  fit (r ∷ s) (suc room) = encode_rune r ∷ fit s room

  -- padW1255
  unfoldable pub pad_w1255 : Text → ℕ → Bytes
  unfolding fit
  pad_w1255 value zero = []
  pad_w1255 value (suc w) =
      let result = fit value (suc w) in result ++ replicate (suc w - length result) space

  unfoldable pub padded : ℕ × Text → Bytes
  unfolding pad_w1255 width
  padded (line, value) = pad_w1255 value (width line)

  -- buildDOCRecord
  unfoldable pub build_doc_record : StockHeader → StockMove → Bytes
  unfolding concat padded doc_values
  build_doc_record h m = concat (map padded (doc_values h m))

  -- generateDOC: its error is always nil.
  unfoldable pub generate_doc : StockHeader → List StockMove → Bytes
  unfolding build_doc_record
  generate_doc h [] = []
  generate_doc h (m ∷ moves) = (build_doc_record h m ++ (line_feed ∷ [])) ++ generate_doc h moves

-- A row of IMOVEIN.prm: the first and last position, or 0 and 0, and the title.
pub record PrmRow : Type 0 where
  pub first : ℕ
  pub last : ℕ
  pub title : Text

title_or_unknown : Text → ℕ → Text
title_or_unknown [] i = codes "Unknown - " ++ format i
title_or_unknown (c ∷ s) i = c ∷ s

-- The loop of generatePRM over `count` lines from line i on, with its `pos`.
unfoldable pub prm_rows : ℕ → ℕ → ℕ → List PrmRow
unfolding width title title_or_unknown
prm_rows zero i pos = []
prm_rows (suc count) i pos =
    let w = width i in
    let empty = w == 0 in
    let last = pos + w - 1 in
    let rest = prm_rows count (i + 1) (if empty then pos else last + 1) in
    record {
      first = if empty then 0 else pos;
      last = if empty then 0 else last;
      title = title_or_unknown (title i) i;
    }
    ∷ rest

row_text : PrmRow → Text
row_text r =
    format r.first ++ (b' ' ∷ (format r.last ++ (codes " ;" ++ (r.title ++ (line_feed ∷ [])))))

-- The lines 2 to 87.
unfoldable pub all_prm_rows : List PrmRow
unfolding prm_rows
all_prm_rows = prm_rows 86 2 1

-- generatePRM
unfoldable pub generate_prm : (ℕ → Option ℕ) → Bytes
unfolding encode_windows1255 all_prm_rows concat row_text
generate_prm windows1255 = encode_windows1255 windows1255 (
    (format prm_total_record_length ++ (hebrew " ;`exj xyend - 1" ++ (line_feed ∷ [])))
    ++ concat (map row_text all_prm_rows))
