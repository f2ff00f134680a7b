-- ===== src/Documents/Imovein/Tables.antt =====
-- internal/erp/hasavshevet/imovein.go: the two tables of the IMOVEIN record. A key "line<i>" of the
-- source's maps is the number i.
use digi_erp_connector.Base.{ℕ, Text, codes, List, [], ◌∷◌, ◌++◌}
use digi_erp_connector.Documents.Layout.{hebrew}

-- imoveInFieldLengths
abbrev pub imove_in_field_lengths : List (ℕ × ℕ)
imove_in_field_lengths =
    (2, 15)
    ∷ (3, 9)
    ∷ (4, 2)
    ∷ (5, 50)
    ∷ (6, 50)
    ∷ (7, 50)
    ∷ (8, 9)
    ∷ (9, 10)
    ∷ (10, 10)
    ∷ (11, 9)
    ∷ (12, 9)
    ∷ (13, 250)
    ∷ (14, 9)
    ∷ (15, 9)
    ∷ (16, 1)
    ∷ (17, 5)
    ∷ (18, 5)
    ∷ (19, 2)
    ∷ (20, 4)
    ∷ (21, 10)
    ∷ (22, 20)
    ∷ (23, 10)
    ∷ (24, 10)
    ∷ (25, 4)
    ∷ (26, 5)
    ∷ (27, 10)
    ∷ (28, 100)
    ∷ (29, 5)
    ∷ (30, 6)
    ∷ (31, 20)
    ∷ (32, 5)
    ∷ (33, 10)
    ∷ (34, 1)
    ∷ (35, 30)
    ∷ (36, 10)
    ∷ (37, 250)
    ∷ (38, 9)
    ∷ (39, 8)
    ∷ (40, 10)
    ∷ (41, 20)
    ∷ (42, 20)
    ∷ (43, 10)
    ∷ (44, 20)
    ∷ (45, 50)
    ∷ (46, 50)
    ∷ (47, 50)
    ∷ (48, 50)
    ∷ (49, 50)
    ∷ (50, 13)
    ∷ (51, 13)
    ∷ (52, 13)
    ∷ (53, 9)
    ∷ (54, 9)
    ∷ (55, 9)
    ∷ (56, 50)
    ∷ (57, 50)
    ∷ (58, 13)
    ∷ (59, 13)
    ∷ (60, 9)
    ∷ (61, 9)
    ∷ (62, 50)
    ∷ (63, 0)
    ∷ (64, 100)
    ∷ (65, 100)
    ∷ (66, 50)
    ∷ (67, 8)
    ∷ (68, 100)
    ∷ (69, 15)
    ∷ (70, 10)
    ∷ (71, 20)
    ∷ (72, 9)
    ∷ (73, 5)
    ∷ (74, 250)
    ∷ (75, 250)
    ∷ (76, 3)
    ∷ (77, 3)
    ∷ (78, 5)
    ∷ (79, 10)
    ∷ (80, 10)
    ∷ (81, 13)
    ∷ (82, 13)
    ∷ (83, 10)
    ∷ (84, 10)
    ∷ (85, 13)
    ∷ (86, 13)
    ∷ (87, 250)
    ∷ []

-- imoveInFieldTitles
abbrev pub imove_in_field_titles : List (ℕ × Text)
imove_in_field_titles =
    (2, hebrew "ntzg lweg - 2")
    ∷ (3, hebrew "`qnkz` - 3")
    ∷ (4, hebrew "qeb nqnj - 4")
    ∷ (5, hebrew "ym lweg - 5")
    ∷ (6, hebrew "kzeaz 1 - 6")
    ∷ (7, hebrew "kzeaz 2 - 7")
    ∷ (8, hebrew "`qnkz` 2 - 8")
    ∷ (9, hebrew "z`xij `qnkz` - 9")
    ∷ (10, hebrew "z`xij rxj - 10")
    ∷ (11, hebrew "qeko - 11")
    ∷ (12, hebrew "ngqo - 12")
    ∷ (13, hebrew "txhim - 13")
    ∷ (14, hebrew "ngqo lapim - 14")
    ∷ (15, hebrew "qeko lapim - 15")
    ∷ (16, hebrew "ngixeo lapim - 16")
    ∷ (17, hebrew "dpgd klliz % - 17")
    ∷ (18, hebrew "nr\"n  %- 18")
    ∷ (19, hebrew "nq' rezwim - 19")
    ∷ (20, hebrew "nhar - 20")
    ∷ (21, hebrew "yrx - 21")
    ∷ (22, hebrew "ntzg txih - 22")
    ∷ (23, hebrew "knez - 23")
    ∷ (24, hebrew "ngix - 24")
    ∷ (25, hebrew "nhar - 25")
    ∷ (26, hebrew "dpgd % - 26")
    ∷ (27, hebrew "yrx - 27")
    ∷ (28, hebrew "ym txih - 28")
    ∷ (29, hebrew "igicz nicd - 29")
    ∷ (30, hebrew "nq wpid - 30 %")
    ∷ (31, hebrew "ntzg gliti - 31")
    ∷ (32, hebrew "32-rnld %")
    ∷ (33, hebrew "`xifez - 33")
    ∷ (34, hebrew "thex nnr\"n- 34")
    ∷ (35, hebrew "hlteo - 35")
    ∷ (36, hebrew "z`xij peqs - 36")
    ∷ (37, hebrew "drxez - 37")
    ∷ (38, hebrew "38-`qnkz` 3")
    ∷ (39, hebrew "wec zngix - 39")
    ∷ (40, hebrew "40-z`xij ztebd")
    ∷ (41, hebrew "`veed - 41")
    ∷ (42, hebrew "`izex - 42")
    ∷ (43, hebrew "tb zews - 43")
    ∷ (44, hebrew "nqtx haer - 44")
    ∷ (45, hebrew "hwqh peqs kezxz1 -45")
    ∷ (46, hebrew "hwqh peqs kezxz2 -46")
    ∷ (47, hebrew "hwqh peqs kezxz 3 -47")
    ∷ (48, hebrew "48- hwqh peqs kezxz 4")
    ∷ (49, hebrew "49- hwqh peqs kezxz 5")
    ∷ (50, hebrew "50 -qkem peqs kezxz 1")
    ∷ (51, hebrew "qkem peqs kezxz 2 -51")
    ∷ (52, hebrew "qkem peqs kezxz 3 - 52")
    ∷ (53, hebrew "53 -we dtvd")
    ∷ (54, hebrew "54 -nqtx yexd")
    ∷ (55, hebrew "55 -nqtx yexz aqiq")
    ∷ (56, hebrew "56 - drxd peqtz azperd1")
    ∷ (57, hebrew "57 - drxd peqtz azperd 2")
    ∷ (58, hebrew "58 - qkem peqs azperd 1")
    ∷ (59, hebrew "59 - qkem peqs azperd 2")
    ∷ (60, hebrew "60 -reqw nexyd - 874")
    ∷ (61, hebrew "61 -nfdd zperd aqiq")
    ∷ (62, hebrew "62 -ce`\"l `iy wyx")
    ∷ (63, codes "63 -refnum")
    ∷ (64, hebrew "64-weau kezxz")
    ∷ (65, hebrew "65 -weau zperd")
    ∷ (66, hebrew "66 -`iy wyx")
    ∷ (67, hebrew "67 -wec zngix zperd")
    ∷ (68, hebrew "68 -ym txih gleti")
    ∷ (69, codes "69" ++ (9 ∷ hebrew "-kxhiq dkpqez / dev`ez"))
    ∷ (70, hebrew "70 -z`xij rxj azperd")
    ∷ (71, hebrew "71 -txhim azperd")
    ∷ (72, hebrew "72 -ngqo azperd")
    ∷ (73, hebrew "73 -nhar yrxej")
    ∷ (74, hebrew "74 -kzeaz liive`")
    ∷ (75, hebrew "75 -drxez liive`")
    ∷ (76, hebrew "76 -qeb zperd")
    ∷ (77, hebrew "77 -qeb zperd thex")
    ∷ (78, hebrew "78 -yrx lyrxej")
    ∷ (79, hebrew "79 z`xij peqs 1 kezxz-")
    ∷ (80, hebrew "80 z`xij peqs 2 kezxz-")
    ∷ (81, hebrew "81 -nqtx peqs 1 kezxz")
    ∷ (82, hebrew "82 -nqtx peqs 2 kezxz")
    ∷ (83, hebrew "83 z`xij peqs 1 zperd-")
    ∷ (84, hebrew "84 -z`xij peqs 2 zperd")
    ∷ (85, hebrew "85 nqtx peqs 1 zperd-")
    ∷ (86, hebrew "86 -nqtx peqs 2 zperd")
    ∷ (87, hebrew "87 -nqtx dwv`d")
    ∷ []
