-- ===== src/Receipts/Types.antt =====
-- internal/erp/hasavshevet/receipt_index.go, receipt_writer.go: the entries of the receipt index, and
-- the errors and notices of the writer.
use digi_erp_connector.Base.{ℕ, Text, List}
use digi_erp_connector.Documents.Encoding.{FieldError, Reason}
use digi_erp_connector.Documents.Kupain.{ReceiptRequest, WriteError}
use digi_erp_connector.Documents.Kupain.CardNames.{Warning}
use digi_erp_connector.Receipts.Number.{StoreError}

pub data ReceiptState : Type 0 where
  reserved written : ReceiptState

pub data ImportState : Type 0 where
  not_run started ran_ok ran_failed : ImportState

-- receiptImporter: the configured runner.
pub data Importer : Type 0 where
  no_runner receipt_bat receipt_has_exe : Importer

-- A warning of a receipt: the builder's, or a note of the writer, by what it says.
pub data Notice : Type 0 where
  builder : Warning → Notice
  recovered_without : Importer → Notice
  first_one_differs : Text → ℕ → Notice
  start_not_recorded : Importer → Notice
  outcome_not_recorded : ImportState → Notice
  other_text : Text → Notice

-- receiptIndexEntry, as decodeReceiptIndexEntry lets it through.
pub record Receipt : Type 0 where
  pub key : Text
  pub number : ℕ
  pub state : ReceiptState
  pub request : ReceiptRequest
  pub files : List Text
  pub import_state : ImportState
  pub import_detail : Text
  pub warnings : List Notice
  pub reserved_at : Text
  pub written_at : Text

-- The errors of the receipt side, by what tells them apart.
pub data ReceiptError : Type 0 where
  bad_key : ReceiptError  -- a *FieldError for idempotencyKey
  refused : WriteError → ReceiptError  -- the request does not build
  import_lock_not_taken : ReceiptError
  data_in_use : ReceiptError  -- ErrReceiptDataInUse
  data_not_locked : ReceiptError
  index_unreadable : ReceiptError  -- ErrReceiptIndexUnreadable
  index_not_listed : ReceiptError
  index_not_saved : ReceiptError
  store_failed : StoreError → ReceiptError
  number_issued_before : ℕ → ReceiptError  -- ErrStoreUnavailable: a history folder is there
  history_not_checked : ℕ → ReceiptError  -- ErrStoreUnavailable
  stored_unbuildable : ℕ → FieldError → ReceiptError  -- ErrStoredReceiptUnbuildable
  stored_card_names : ℕ → WriteError → ReceiptError
  prm_unencodable : Reason → ReceiptError  -- a panic in the source
  directory_not_made : ℕ → ReceiptError
  file_not_written : Text → ReceiptError
