-- ===== src/Documents/Kupain/Tables.antt =====
-- internal/erp/hasavshevet/kupain.go: the fields of the KUPAIN record and the card names.
use digi_erp_connector.Base.{ℕ, Text, codes, List, [], ◌∷◌, if◌then◌else◌, ◌==◌}
use digi_erp_connector.Documents.Layout.{hebrew}

-- kupainField
pub record KupainField : Type 0 where
  pub num : ℕ
  pub width : ℕ
  pub title : Text

abbrev kupain_field : ℕ → ℕ → Text → KupainField
kupain_field n w t = record { num = n; width = w; title = t }

abbrev pub kupain_fields : List KupainField
kupain_fields =
    kupain_field 2 15 (hebrew "ntzg lweg - 2")
    ∷ kupain_field 3 9 (hebrew "nqtx wald - 3")
    ∷ kupain_field 4 3 (hebrew "qeb zperd - 4")
    ∷ kupain_field 5 10 (hebrew "z`xij dwald - 5")
    ∷ kupain_field 6 10 (hebrew "z`xij rxj (txreo) - 6")
    ∷ kupain_field 7 250 (hebrew "txhim - 7")
    ∷ kupain_field 8 9 (hebrew "nqtx yw - 8")
    ∷ kupain_field 9 3 (hebrew "nqtx apw - 9")
    ∷ kupain_field 10 5 (hebrew "nqtx qpis - 10")
    ∷ kupain_field 11 9 (hebrew "nqtx gyaeo apw - 11")
    ∷ kupain_field 12 9 (hebrew "qkem aywlim - 12")
    ∷ kupain_field 13 9 (hebrew "qkem nhg - 13")
    ∷ kupain_field 14 5 (hebrew "nhar neail awald - 14")
    ∷ kupain_field 15 5 (hebrew "nhar yrxej azperd - 15")
    ∷ kupain_field 16 2 (hebrew "nqtx zylenim a`yx`i - 16")
    ∷ kupain_field 17 25 (hebrew "ym kxhiq d`yx`i - 17")
    ∷ kupain_field 18 11 (hebrew "zrecz fdez - 18")
    ∷ kupain_field 19 250 (hebrew "txhim anqnj - 19")
    ∷ kupain_field 20 9 (hebrew "qeko - 20")
    ∷ kupain_field 21 9 (hebrew "qpis - 21")
    ∷ kupain_field 22 9 (hebrew "`qnkz` pbciz - 22")
    ∷ kupain_field 23 250 (hebrew "drxez - 23")
    ∷ kupain_field 24 50 (hebrew "ym gyaeo - 24")
    ∷ kupain_field 25 50 (hebrew "kzeaz - 25")
    ∷ kupain_field 26 50 (hebrew "rix - 26")
    ∷ kupain_field 27 50 (hebrew "hlteo - 27")
    ∷ kupain_field 28 4 (hebrew "`xar qtxez - 28")
    ∷ kupain_field 29 9 (hebrew "zylem x`yeo - 29")
    ∷ kupain_field 30 0 (hebrew "drxd peqtz 1 - 30")
    ∷ kupain_field 31 0 (hebrew "drxd peqtz 2 - 31")
    ∷ kupain_field 32 0 (hebrew "32 - drxd peqtz 3")
    ∷ kupain_field 33 0 (hebrew "drxd peqtz 4 - 33")
    ∷ kupain_field 34 0 (hebrew "drxd peqtz 5 - 34")
    ∷ kupain_field 35 0 (hebrew "qkem peqs 1 - 35")
    ∷ kupain_field 36 0 (hebrew "qkem peqs 2 - 36")
    ∷ kupain_field 37 0 (hebrew "qkem peqs 3 - 37")
    ∷ kupain_field 38 0 (hebrew "38- z`xij peqs 1")
    ∷ kupain_field 39 0 (hebrew "z`xij peqs 2 - 39")
    ∷ kupain_field 40 0 (hebrew "40- nqtx peqs 1")
    ∷ kupain_field 41 0 (hebrew "nqtx peqs 2 - 41")
    ∷ kupain_field 42 50 (hebrew "42 - kzeaz niil")
    ∷ kupain_field 43 50 (hebrew "43 - nqtx yeax")
    ∷ []

width_in : List KupainField → ℕ → ℕ
width_in [] num = 0
width_in (f ∷ fs) num = let later = width_in fs num in if f.num == num then f.width else later

-- kupainWidth: a number that is not in the table is a panic in the source; only the table's
-- numbers are asked for.
unfoldable pub kupain_width : ℕ → ℕ
unfolding width_in
kupain_width num = width_in kupain_fields num

abbrev pub kupain_record_length : ℕ
kupain_record_length = 1259

abbrev pub kupain_receipt_type : Text
kupain_receipt_type = codes "33"

abbrev pub max_amount_minor : ℕ
max_amount_minor = 99999999

abbrev pub max_receipt_number : ℕ
max_receipt_number = 999999999

-- defaultIssuerCardNames and defaultBrandCardNames
abbrev pub default_issuer_card_names : List (Text × Text)
default_issuer_card_names =
    (codes "1", hebrew "iyx`kxh")
    ∷ (codes "2", hebrew "eifd")
    ∷ (codes "5", hebrew "`lt` w`xc/l`eni w`xc")
    ∷ []

abbrev pub default_brand_card_names : List (Text × Text)
default_brand_card_names = (codes "4", hebrew "`nxiwo `wqtxq") ∷ (codes "3", hebrew "ciipxq") ∷ []
