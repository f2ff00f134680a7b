-- ===== src/Receipts/Writer/Run.antt =====
-- internal/erp/hasavshevet/receipt_writer.go: runImport.
use digi_erp_connector.Base.{
  ℕ, utf8_len, ◌-◌, ◌++◌, Text, codes, is_empty, Bool, true, false, not, ◌||◌, ◌&&◌, Option, none,
  some, List, [], ◌∷◌, replicate, if◌then◌else◌, leb, ok, err,
}
use digi_erp_connector.Base.Int.{ℤ, pos}
use digi_erp_connector.Base.Decimal.{format_int64}
use digi_erp_connector.Receipts.Types.{
  Receipt, ImportState, not_run, started, ran_ok, ran_failed, Importer, no_runner, Notice,
  start_not_recorded, outcome_not_recorded,
}
use digi_erp_connector.Receipts.Index.{save}
use digi_erp_connector.Receipts.Writer.State.{
  ReceiptWriter, WriterConfig, ReceiptOutside, ReceiptIo, ImportRun, importer,
}

abbrev pub max_import_detail : ℕ
max_import_detail = 1000

-- A cut at a byte count, as the entry's JSON keeps it: each byte of a character that was cut becomes
-- U+FFFD.
unfoldable pub cut_detail : ℕ → Text → Text
cut_detail budget [] = []
cut_detail budget (c ∷ s) =
    let more = cut_detail (budget - utf8_len c) s in
    if leb (utf8_len c) budget then c ∷ more else replicate budget 0xFFFD

error_part : Option Text → Text
error_part none = []
error_part (some e) = codes " error=" ++ e

import_detail_of : ImportRun → Text
unfolding error_part cut_detail
import_detail_of r = cut_detail max_import_detail (
    codes "exit="
    ++ (format_int64 r.exit_code
        ++ (error_part r.exec_error
            ++ (if is_empty r.output then [] else codes " output=" ++ r.output))))

is_none : Option Text → Bool
is_none none = true
is_none (some e) = false

is_zero : ℤ → Bool
is_zero (pos ℕ.zero) = true
is_zero _ = false

-- The entry after a run of the importer.
unfoldable pub with_run : Receipt → ImportRun → Receipt
unfolding import_detail_of is_none is_zero
with_run e r =
    if not (is_none r.exec_error) || not (is_zero r.exit_code)
    then record e { import_state = ran_failed; import_detail = import_detail_of r }
    else record e { import_state = ran_ok }

unfoldable pub has_not_run : ImportState → Bool
has_not_run not_run = true
has_not_run _ = false

unfoldable pub has_runner : Importer → Bool
has_runner no_runner = false
has_runner _ = true

module _ (outside : ReceiptOutside) (config : WriterConfig) (io : ReceiptIo) where
  abbrev pub Ran : Type 0
  Ran = ReceiptWriter × Receipt × List Notice

  unfoldable pub save_run : ReceiptWriter → Receipt → Ran
  save_run w e =
      let (index, saved) = save w.disk.index (io.saves e) e in
      (
        record w { disk = record (w.disk) { index = index } },
        e,
        elim saved [ ok _ ↦ [] | err x ↦ outcome_not_recorded e.import_state ∷ [] ],
      )

  -- The start is recorded, or nothing is run; then the importer runs, and its outcome is recorded.
  unfoldable pub start_run : ReceiptWriter → Receipt → Ran
  unfolding save_run with_run
  start_run w e =
      let e' = record e { import_state = started } in
      let (index, saved) = save w.disk.index (io.saves e') e' in
      elim saved [
        | err x ↦ (w, e, start_not_recorded (importer outside config) ∷ [])
        | ok _ ↦
            save_run
              (record w { disk = record (w.disk) { index = index }; runs = e.number ∷ w.runs })
              (with_run e' (io.import_run e.number))
      ]

  -- runImport
  unfoldable pub run_import : ReceiptWriter → Receipt → Ran
  unfolding start_run has_not_run has_runner
  run_import w e =
      if has_runner (importer outside config) && has_not_run e.import_state
      then start_run w e
      else (w, e, [])
