-- ===== src/Receipts/Writer/State.antt =====
-- internal/erp/hasavshevet/receipt_writer.go: the state of the receipt writer and of the disk under it.
-- The import lock makes each operation one step, a function from the state before to the state
-- after. Logging is left out.
use digi_erp_connector.Base.{
  ℕ, ◌++◌, Text, codes, is_empty, Bool, true, false, not, ◌&&◌, Option, List, [], ◌∷◌,
  if◌then◌else◌, ◌==◌, Outcome, ok, err,
}
use digi_erp_connector.Base.Int.{ℤ}
use digi_erp_connector.Base.Decimal.{format}
use digi_erp_connector.Documents.Layout.{Bytes}
use digi_erp_connector.Documents.Encoding.{Unicode, trim_space}
use digi_erp_connector.Documents.Kupain.CardNames.{ReceiptCardNames}
use digi_erp_connector.Receipts.Number.{StoreFile}
use digi_erp_connector.Receipts.Types.{Importer, no_runner, receipt_bat, receipt_has_exe, Receipt}
use digi_erp_connector.Receipts.Index.{ReceiptDir}

-- The four files of a receipt: its history copies, KUPAIN.prm and KUPAIN_n.doc.
pub data ReceiptPath : Type 0 where
  history_doc history_prm : ℕ → ReceiptPath
  receipts_prm : ReceiptPath
  receipt_doc : ℕ → ReceiptPath

unfoldable pub path_eq : ReceiptPath → ReceiptPath → Bool
path_eq (history_doc m) (history_doc n) = m == n
path_eq (history_prm m) (history_prm n) = m == n
path_eq receipts_prm receipts_prm = true
path_eq (receipt_doc m) (receipt_doc n) = m == n
path_eq _ _ = false

-- What os.Lstat says of a receipt's history folder.
pub data FolderStat : Type 0 where
  absent present unclear : FolderStat

-- The number store, DataDir/receipts/index, the receipt files as they are read, and the history
-- folders.
pub record ReceiptDisk : Type 0 where
  pub store : StoreFile
  pub index : ReceiptDir
  pub files : ReceiptPath → Option Bytes
  pub folders : ℕ → FolderStat

-- ReceiptWriter: `locked` says that the data lock is held. `runs` lists the receipts for which the
-- importer was started, the last one first.
pub record ReceiptWriter : Type 0 where
  pub recovered : Bool
  pub locked : Bool
  pub disk : ReceiptDisk
  pub runs : List ℕ

-- ReceiptWriterConfig
pub record WriterConfig : Type 0 where
  pub send_receipt_dir : Text
  pub data_dir : Text
  pub has_receipt_bat_file : Text
  pub has_exe_path : Text
  pub has_receipt_param_file : Text
  pub card_names : ReceiptCardNames

-- The standard library: the characters, and filepath.Join.
pub record ReceiptOutside : Type 0 where
  pub unicode : Unicode
  pub join : List Text → Text

-- How one run of the importer ends.
pub record ImportRun : Type 0 where
  pub exit_code : ℤ
  pub output : Text
  pub exec_error : Option Text

pub data LockAnswer : Type 0 where
  lock_taken lock_in_use lock_error : LockAnswer

-- How privateDirs of a history folder ends: os.MkdirAll fails, or the chmod after it, or neither.
pub data FolderMade : Type 0 where
  not_made not_private private_made : FolderMade

-- What the environment decides in one call: whether the import lock is got, the folders of the data
-- lock made, the data lock taken, the index listed; whether an entry is saved, the store moved past
-- a number, a history folder made, a file of a receipt written; how a run of the importer ends; the
-- times.
pub record ReceiptIo : Type 0 where
  pub import_lock : Bool
  pub prepares : Bool
  pub data_lock : LockAnswer
  pub listed : Bool
  pub saves : Receipt → Bool
  pub moves : ℕ → Bool
  pub makes_dir : ℕ → FolderMade
  pub writes : ℕ → ReceiptPath → Bool
  pub import_run : ℕ → ImportRun
  pub reserved_now : Text
  pub written_now : ℕ → Text

-- NewReceiptWriter on a disk, after the runs of earlier processes.
unfoldable pub new_receipt_writer : ReceiptDisk → List ℕ → ReceiptWriter
new_receipt_writer d runs = record { recovered = false; locked = false; disk = d; runs = runs }

pub data ConfigError : Type 0 where
  no_receipt_dir no_data_dir two_importers no_has_exe : ConfigError

module _ (outside : ReceiptOutside) (config : WriterConfig) where
  abbrev is_set : Text → Bool
  is_set s = not (is_empty (trim_space outside.unicode s))

  -- The checks of NewReceiptWriter
  unfoldable pub check_config : Outcome ConfigError (Unit {0})
  check_config =
      if not (is_set config.send_receipt_dir)
      then err no_receipt_dir
      else if not (is_set config.data_dir)
      then err no_data_dir
      else if is_set config.has_receipt_param_file
      then if is_set config.has_receipt_bat_file
        then err two_importers
        else if not (is_set config.has_exe_path)
        then err no_has_exe
        else ok tt
      else ok tt

  -- importer
  unfoldable pub importer : Importer
  importer =
      if is_set config.has_receipt_bat_file
      then receipt_bat
      else if is_set config.has_receipt_param_file && is_set config.has_exe_path
      then receipt_has_exe
      else no_runner

  base_name : ℕ → Text
  base_name n = codes "KUPAIN_" ++ format n

  -- historyPath
  history_path : ℕ → Text
  history_path n =
      outside.join (config.data_dir ∷ codes "history" ∷ codes "receipts" ∷ format n ∷ [])

  unfoldable pub path_text : ReceiptPath → Text
  unfolding base_name history_path
  path_text (history_doc n) = outside.join (history_path n ∷ (base_name n ++ codes ".doc") ∷ [])
  path_text (history_prm n) = outside.join (history_path n ∷ (base_name n ++ codes ".prm") ∷ [])
  path_text receipts_prm = outside.join (config.send_receipt_dir ∷ codes "KUPAIN.prm" ∷ [])
  path_text (receipt_doc n) =
      outside.join (config.send_receipt_dir ∷ (base_name n ++ codes ".doc") ∷ [])
