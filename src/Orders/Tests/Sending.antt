-- ===== src/Orders/Tests/Sending.antt =====
-- A concrete sender, and runs of it.
use digi_erp_connector.Base.{
  ◌↔◌, ℕ, ◌≡◌, refl, codes, true, false, Option, none, some, [], ◌∷◌, if◌then◌else◌, ◌==◌, ltb, ok,
  err, text_eq,
}
use digi_erp_connector.Base.Int.{pos}
use digi_erp_connector.Base.Decimal.{format, format_int64}
use digi_erp_connector.Documents.Layout.{concat}
use digi_erp_connector.Documents.Encoding.{trim_space}
use digi_erp_connector.Documents.Fields.{validate_document_fields}
use digi_erp_connector.Orders.Sender.Check.{validate_order_request}
use digi_erp_connector.Orders.Sender.Account.{resolve_account}
use digi_erp_connector.Orders.Sender.Laws.{IsWhole, failed_unopened, order_documents}
use digi_erp_connector.Orders.Sender.Loop.{paths}
use digi_erp_connector.Orders.Sender.Outside.{Outside, SenderConfig, SendIo, not_opened, complete}
use digi_erp_connector.Orders.Sender.Process.{
  ExportedAccountInfo, process_order_with_number, write_files, order_files, Sent, no_importer,
}
use digi_erp_connector.Orders.Tests.Data.{disk, request}

-- ASCII, amounts that are all one, and a clock that stands at one day.
abbrev pub ascii : ℕ → Option ℕ
ascii c = if ltb c 0x80 then some c else none

abbrev pub outside : Outside (Unit {0})
outside = record {
  unicode = record {
    is_space = λ c. c == 32;
    nfc = λ s. s;
    windows1255 = ascii;
    day_text = λ _. none;
  };
  float = record {
    is_zero = λ _. false;
    is_positive = λ _. true;
    at_least_100 = λ _. false;
    literal_99_99 = tt;
    one = tt;
    two_places = λ _. codes "1.00";
    four_places = λ _. codes "1.0000";
  };
  parse_time = λ _ _. some (record { day = 22; month = 11; year = 2026 });
  join = concat;
  error_text = λ _. codes "error";
}

abbrev pub config : SenderConfig
config = record {
  send_order_dir = codes "out/";
  database = [];
  has_database = false;
  has_store = true;
  has_bat_file = codes "digi.bat";
  has_exe_path = [];
}

abbrev pub send_io : SendIo (Unit {0})
send_io = record {
  now = record { day = 22; month = 11; year = 2026 };
  counter_writes = true;
  find_account = λ _ _. err (codes "none");
  find_rate = λ _ _. none;
  makes_dir = true;
  write = λ _. complete;
}

abbrev sent : Sent
sent = process_order_with_number ascii outside config send_io disk request (pos 42)

-- A file of the order that cannot be opened, and one that is cut short.
abbrev blocked : Sent
blocked =
    process_order_with_number ascii outside (config) (record send_io { write = λ _. not_opened })
      disk request (pos 42)

order_paths :
    paths sent.opened
    ≡ codes "out/IMOVEIN.doc"
      ∷ codes "out/IMOVEIN.prm"
      ∷ codes "out/history42IMOVEIN_42.doc"
      ∷ codes "out/history42IMOVEIN_42.prm"
      ∷ []
unfolding process_order_with_number trim_space validate_order_request text_eq
    validate_document_fields resolve_account write_files order_files concat format_int64 format
order_paths = refl

blocked_result : blocked.result ≡ err (record { not_written = true; message = codes "error" })
unfolding process_order_with_number trim_space validate_order_request text_eq
    validate_document_fields resolve_account write_files order_files
blocked_result = refl

abbrev first_account : ExportedAccountInfo
first_account = record {
  account_key = codes "C1";
  full_name = codes "Name";
  address = [];
  city = [];
  phone = [];
}

sent_result :
    sent.result
    ≡ ok (record {
      order_number = pos 42;
      written_files = paths sent.opened;
      account = first_account;
    })
unfolding process_order_with_number trim_space validate_order_request text_eq
    validate_document_fields resolve_account write_files order_files
sent_result = refl

failed_unopened_example : ((true ≡ true) ↔ (blocked.opened ≡ [])) × (blocked.importer ≡ no_importer)
failed_unopened_example =
    failed_unopened ascii outside config (record send_io { write = λ _. not_opened }) disk request
      (pos 42) (record { not_written = true; message = codes "error" }) blocked_result

order_documents_example :
    IsWhole ascii outside config send_io request
      (pos 42)
      sent.opened
      (record { order_number = pos 42; written_files = paths sent.opened; account = first_account })
order_documents_example =
    order_documents ascii outside config send_io disk request (pos 42)
      (record { order_number = pos 42; written_files = paths sent.opened; account = first_account })
      (λ h. absurd (cc)) sent_result
