-- ===== src/Orders/Tests/Files.antt =====
-- The order counter and the key index on concrete files.
use digi_erp_connector.Base.{
  ◌⊎◌, ◌≤◌, All, has_prefix, Pairwise, ◌≡◌, refl, arith, Text, codes, true, false, some, [], ◌∷◌,
  text_eq, ok, err, if◌then◌else◌,
}
use mathlib.Core.List.{Mem}
use digi_erp_connector.Base.Dict
use digi_erp_connector.Base.Decimal.{parse_int64, read_digits}
use digi_erp_connector.Orders.Types.{
  Entry, written, index_not_saved, counter_not_written, counter_unreadable,
}
use digi_erp_connector.Orders.Counter.{field, unreadable, peek, read, advance_past, next}
use digi_erp_connector.Orders.Index.{
  IndexDir, json, file, marshal, load_stem, save, path_for, decode, parse_state, state_text,
}
use digi_erp_connector.Orders.Index.Listing.{all, all_lem}
use digi_erp_connector.Orders.Index.Laws.{load_stem-save}
use digi_erp_connector.Orders.Counter.Laws.{
  not_readable, read-advance_past, take_numbers, consecutive, take_numbers-consecutive,
  unreadable_untouched,
}
use digi_erp_connector.Orders.Tests.Data.{setup, order}

abbrev index_of : Entry → IndexDir
index_of e = (codes "ak1.json", file (json (marshal e) false)) ∷ []

abbrev written_order : Entry
written_order = record (order (codes "k1") 42) { state = written }

-- The counter.
reads_41 : read (field (codes "41")) ≡ ok 41
unfolding read parse_int64 read_digits
reads_41 = refl

read-advance_past_example :
    (((advance_past (field (codes "41")) true 50).1 ≡ ok tt)
      × (read (advance_past (field (codes "41")) true 50).0 ≡ ok 50))
    ⊎ (((advance_past (field (codes "41")) true 50).1 ≡ err counter_not_written)
        × ((advance_past (field (codes "41")) true 50).0 ≡ field (codes "41")))
read-advance_past_example = read-advance_past (field (codes "41")) true 50 41 (omega arith) reads_41

take_numbers-consecutive_example :
    ((take_numbers 3 (field (codes "41"))).1 ≡ consecutive 3 42)
    × (read (take_numbers 3 (field (codes "41"))).0 ≡ ok 44)
take_numbers-consecutive_example =
    take_numbers-consecutive 3 (field (codes "41")) 41 reads_41 (omega arith)

unreadable_untouched_example :
    (next unreadable true ≡ (unreadable, err counter_unreadable))
    × (peek unreadable ≡ err counter_unreadable)
    × (advance_past unreadable true 5 ≡ (unreadable, err counter_unreadable))
unreadable_untouched_example = unreadable_untouched unreadable true 5 not_readable

-- The index.
load_stem-save_example :
    (((save setup.stem [] true written_order).1 ≡ ok tt)
      × ((s : Text)
          → load_stem setup.stem (save setup.stem [] true written_order).0 s ≡ (
              if text_eq (codes "ak1") s
              then ok (some written_order)
              else load_stem setup.stem [] s)))
    ⊎ (save setup.stem [] true written_order ≡ ([], err index_not_saved))
load_stem-save_example =
    load_stem-save setup.stem [] true written_order
      (record { has_key = refl; positive = omega arith })

loads_written :
    load_stem setup.stem (index_of written_order) (codes "ak1") ≡ ok (some written_order)
unfolding load_stem Dict.lookup path_for text_eq decode parse_state state_text
loads_written = refl

ak1_visible : has_prefix (path_for (codes "ak1")) (codes ".") ≡ false
unfolding path_for has_prefix
ak1_visible = refl

all_lem_example :
    Mem written_order (all setup.stem (index_of written_order)).0
    × Pairwise (λ (a b : Entry). a.number ≤ b.number) (all setup.stem (index_of written_order)).0
    × All
        (λ x. load_stem setup.stem (index_of written_order) (setup.stem x.key) ≡ ok (some x))
        (all setup.stem (index_of written_order)).0
all_lem_example =
    all_lem setup.stem (index_of written_order) (codes "ak1") written_order ak1_visible
      loads_written
