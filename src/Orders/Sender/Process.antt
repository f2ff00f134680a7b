-- ===== src/Orders/Sender/Process.antt =====
-- internal/erp/hasavshevet/send_order.go: ProcessOrder, processOrderWithNumber and writeOrderFile.
use digi_erp_connector.Base.{
  ℕ, Text, codes, is_empty, Bool, true, false, not, Option, List, [], ◌∷◌, ◌++◌, if◌then◌else◌,
  ◌==◌, Outcome, ok, err,
}
use digi_erp_connector.Base.Int.{ℤ, pos}
use digi_erp_connector.Base.Decimal.{format_int64}
use digi_erp_connector.Documents.Encoding.{trim_space}
use digi_erp_connector.Documents.Layout.{Bytes}
use digi_erp_connector.Documents.Imovein.{generate_doc, generate_prm}
use digi_erp_connector.Orders.Types.{OrderRequest}
use digi_erp_connector.Orders.Counter.{CounterFile, next}
use digi_erp_connector.Orders.Queue.State.{Disk, FileStat, present, OrderFailure}
use digi_erp_connector.Orders.Sender.Outside.{
  Outside, SenderConfig, SendIo, SendError, AccountInfo, FileWrite, not_opened, cut_short, complete,
  dir_not_configured, no_number_store, no_number, history_dir_not_created, file_not_written,
}
use digi_erp_connector.Orders.Sender.Check.{validate_order_request}
use digi_erp_connector.Orders.Sender.Account.{resolve_account, rate_of}
use digi_erp_connector.Orders.Sender.Header.{stock_header, stock_moves}

-- AccountInfo, the exported mirror of accountInfo.
pub record ExportedAccountInfo : Type 0 where
  pub account_key : Text
  pub full_name : Text
  pub address : Text
  pub city : Text
  pub phone : Text

pub record OrderResult : Type 0 where
  pub order_number : ℤ
  pub written_files : List Text
  pub account : ExportedAccountInfo

-- One of the files to write.
pub record OrderFile : Type 0 where
  pub path : Text
  pub content : Bytes

-- The importer that is started: the batch file, or has.exe.
pub data Importer : Type 0 where
  no_importer : Importer
  bat_file : Text → Importer
  has_exe : Text → Importer

-- What a run leaves: its result, the number it ran under, the disk, the files it opened in their
-- order, and the importer it started.
pub record Sent : Type 0 where
  pub number : ℤ
  pub result : Outcome OrderFailure OrderResult
  pub disk : Disk
  pub opened : List OrderFile
  pub importer : Importer

pub record Written : Type 0 where
  pub outcome : Outcome OrderFailure (List Text)
  pub opened : List OrderFile

abbrev pub nothing_yet : List Text → Bool
nothing_yet [] = true
nothing_yet (p ∷ ps) = false

unfoldable pub document_opened : ℤ → List OrderFile → (ℕ → FileStat) → ℕ → FileStat
document_opened (pos m) (doc ∷ prm ∷ history_doc ∷ rest) before n =
    if m == n then present else before n
document_opened _ _ before n = before n

-- The disk after a run: the number's history folder is there, and its order document too once the
-- third file was opened.
abbrev pub with_history : ℤ → List OrderFile → Disk → Disk
with_history n opened disk = record disk {
  history = (format_int64 n, true) ∷ disk.history;
  document = document_opened n opened disk.document;
}

module _ {F : Type 0} (windows1255 : ℕ → Option ℕ) (outside : Outside F) (config : SenderConfig)
    (io : SendIo F) where
  abbrev pub failure : Bool → SendError → OrderFailure
  failure marked e = record { not_written = marked; message = outside.error_text e }

  -- One turn of the loop: the failure, or the turns after it.
  abbrev pub wrote_file : OrderFile → List Text → FileWrite → Written → Written
  wrote_file f written not_opened rest = record {
    outcome = err (failure (nothing_yet written) (file_not_written f.path));
    opened = [];
  }
  wrote_file f written cut_short rest = record {
    outcome = err (failure false (file_not_written f.path));
    opened = f ∷ [];
  }
  wrote_file f written complete rest = record { outcome = rest.outcome; opened = f ∷ rest.opened }

  -- The loop over the files, after `written`.
  unfoldable pub write_files : List OrderFile → List Text → Written
  write_files [] written = record { outcome = ok written; opened = [] }
  write_files (f ∷ fs) written =
      wrote_file f written (io.write f.path) (write_files fs (written ++ (f.path ∷ [])))

  -- The four files, in the order in which they are written.
  unfoldable pub order_files : ℤ → Bytes → Bytes → List OrderFile
  order_files n doc prm =
      let dir = config.send_order_dir in
      let history_dir = outside.join (dir ∷ codes "history" ∷ format_int64 n ∷ []) in
      let name = codes "IMOVEIN_" ++ format_int64 n in
      record { path = outside.join (dir ∷ codes "IMOVEIN.doc" ∷ []); content = doc }
      ∷ record { path = outside.join (dir ∷ codes "IMOVEIN.prm" ∷ []); content = prm }
      ∷ record { path = outside.join (history_dir ∷ (name ++ codes ".doc") ∷ []); content = doc }
      ∷ record { path = outside.join (history_dir ∷ (name ++ codes ".prm") ∷ []); content = prm }
      ∷ []

  -- The importer that a run with all its files starts; how it ends changes nothing.
  unfoldable pub importer_of : Outcome OrderFailure (List Text) → Importer
  importer_of (err e) = no_importer
  importer_of (ok files) =
      if not (is_empty (trim_space outside.unicode config.has_bat_file))
      then bat_file config.has_bat_file
      else if not (is_empty (trim_space outside.unicode config.has_exe_path))
      then has_exe config.has_exe_path
      else no_importer

  -- A run that ends before a file is tried: its error is marked.
  abbrev pub stopped_early : Disk → ℤ → SendError → Sent
  stopped_early disk n e = record {
    number = n;
    result = err (failure true e);
    disk = disk;
    opened = [];
    importer = no_importer;
  }

  abbrev pub result_of :
      ℤ → AccountInfo → Outcome OrderFailure (List Text) → Outcome OrderFailure OrderResult
  result_of n account (err e) = err e
  result_of n account (ok files) = ok (record {
    order_number = n;
    written_files = files;
    account = record {
      account_key = account.account_key;
      full_name = account.full_name;
      address = account.address;
      city = account.city;
      phone = account.phone;
    };
  })

  -- From the account on: the documents, the folder, the files and the importer.
  unfoldable pub write_order : Disk → OrderRequest F → ℤ → Outcome SendError AccountInfo → Sent
  write_order disk req n (err e) = stopped_early disk n e
  write_order disk req n (ok account) =
      let rate = rate_of outside config io req in
      let header = stock_header outside n account req rate io.now in
      let doc = generate_doc windows1255 header (stock_moves outside req.details) in
      let prm = generate_prm windows1255 in
      if not io.makes_dir
      then stopped_early disk n history_dir_not_created
      else let w = write_files (order_files n doc prm) [] in
        record {
          number = n;
          result = result_of n account w.outcome;
          disk = with_history n w.opened disk;
          opened = w.opened;
          importer = importer_of w.outcome;
        }

  -- nextOrderNumber
  unfoldable pub next_order_number : CounterFile → CounterFile × Outcome SendError ℤ
  next_order_number counter =
      if config.has_store
      then (let (counter', taken) = next counter io.counter_writes in
          (counter', elim taken [ ok n ↦ ok n | err e ↦ err no_number ]))
      else (counter, err no_number_store)

  unfoldable pub write_numbered : Disk → OrderRequest F → Outcome SendError ℤ → Sent
  unfolding write_order
  write_numbered disk req (err e) = stopped_early disk (pos 0) e
  write_numbered disk req (ok n) = write_order disk req n (resolve_account outside config io req)

  abbrev pub is_zero : ℤ → Bool
  is_zero (pos ℕ.zero) = true
  is_zero _ = false

  unfoldable pub checked : Disk → OrderRequest F → ℤ → Outcome SendError (Unit {0}) → Sent
  unfolding write_numbered next_order_number
  checked disk req n (err e) = stopped_early disk n e
  checked disk req n (ok _) =
      if is_zero n
      then (let (counter, taken) = next_order_number disk.counter in
          write_numbered (record disk { counter = counter }) req taken)
      else write_numbered disk req (ok n)

  -- processOrderWithNumber: 0 is no number yet.
  unfoldable pub process_order_with_number : Disk → OrderRequest F → ℤ → Sent
  unfolding checked
  process_order_with_number disk req n =
      if is_empty (trim_space outside.unicode config.send_order_dir)
      then stopped_early disk n dir_not_configured
      else checked disk req n (validate_order_request outside.float req)

  process_from : Disk → OrderRequest F → Outcome SendError ℤ → Sent
  unfolding process_order_with_number
  process_from disk req (err e) = record {
    number = pos 0;
    result = err (failure false e);
    disk = disk;
    opened = [];
    importer = no_importer;
  }
  process_from disk req (ok n) = process_order_with_number disk req n

  -- ProcessOrder
  unfoldable pub process_order : Disk → OrderRequest F → Sent
  unfolding process_from next_order_number
  process_order disk req =
      let (counter, taken) = next_order_number disk.counter in
      process_from (record disk { counter = counter }) req taken
