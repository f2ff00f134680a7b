-- ===== src/Receipts/Writer/Steps.antt =====
-- internal/erp/hasavshevet/receipt_writer.go: the receipt writer and its restarts as a step relation.
-- The import lock makes each call one step.
use digi_erp_connector.Base.{ℕ, Text, Option, []}
use digi_erp_connector.Base.Int.{pos}
use digi_erp_connector.Base.Decimal.{format_int64}
use digi_erp_connector.Documents.Layout.{Bytes}
use digi_erp_connector.Documents.Kupain.{ReceiptRequest}
use digi_erp_connector.Receipts.Number.{store}
use digi_erp_connector.Receipts.Writer.State.{
  ReceiptWriter, WriterConfig, ReceiptOutside, ReceiptIo, ReceiptPath, FolderStat,
  new_receipt_writer,
}
use digi_erp_connector.Receipts.Writer.Recover.{recover_receipts, close}
use digi_erp_connector.Receipts.Writer.Write.{write_receipt}

module _ (outside : ReceiptOutside) (config : WriterConfig) where
  pub data ReceiptStep (w : ReceiptWriter) : ReceiptWriter → Type 0 where
    writes :
        (io : ReceiptIo) (req : ReceiptRequest)
        → ReceiptStep w (write_receipt outside config io w req).0
    recovers : (io : ReceiptIo) → ReceiptStep w (recover_receipts outside config io w).0
    closes : (io : ReceiptIo) → ReceiptStep w (close outside config io w).0
    -- The process ends, or dies after a call in which an operation of the environment failed, and
    -- another starts. The store and the index are as they were; the files may be anything.
    restarts :
        (files : ReceiptPath → Option Bytes) (folders : ℕ → FolderStat)
        → ReceiptStep w (
            new_receipt_writer
              (record {
                store = w.disk.store;
                index = w.disk.index;
                files = files;
                folders = folders;
              })
              w.runs)

  pub data ReceiptReach (w : ReceiptWriter) : ReceiptWriter → Type 0 where
    at_start : ReceiptReach w w
    later : {v u : ReceiptWriter} → ReceiptReach w v → ReceiptStep v u → ReceiptReach w u

-- The first start on a store that was seeded with `first`.
abbrev pub seeded_writer : ℕ → Text → ReceiptWriter
seeded_writer first seeded_at =
    new_receipt_writer
      (record {
        store = store (format_int64 (pos first)) seeded_at;
        index = [];
        files = λ _. Option.none;
        folders = λ _. FolderStat.absent;
      })
      []
