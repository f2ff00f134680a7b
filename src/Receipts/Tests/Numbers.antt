-- ===== src/Receipts/Tests/Numbers.antt =====
-- The receipt number store on concrete files.
use digi_erp_connector.Base.{◌≡◌, refl, arith, codes, [], true, ok, err}
use digi_erp_connector.Base.Int.{pos}
use digi_erp_connector.Base.Decimal.{parse_int64, read_digits}
use digi_erp_connector.Receipts.Number.{
  StoreFile, other, store, store_unavailable, read, peek, advance_past, seed,
}
use digi_erp_connector.Receipts.Number.Laws.{
  no_store, seed_kept, unusable_kept, take_receipts, numbered, take_receipts-numbered,
}

abbrev seeded : StoreFile
seeded = store (codes "1000") []

reads_1000 : read seeded ≡ ok 1000
unfolding read parse_int64 read_digits
reads_1000 = refl

seed_kept_example : (seed seeded true true (pos 7) []).0 ≡ seeded
seed_kept_example = seed_kept seeded true true (pos 7) [] (λ h. cc)

unusable_kept_example :
    (peek other ≡ err store_unavailable)
    × (advance_past other true (pos 7) ≡ (other, err store_unavailable))
unusable_kept_example = unusable_kept other true (pos 7) no_store

take_receipts-numbered_example : (take_receipts 3 seeded).1 ≡ numbered 3 1000
take_receipts-numbered_example = take_receipts-numbered 3 seeded 1000 reads_1000 (omega arith)
