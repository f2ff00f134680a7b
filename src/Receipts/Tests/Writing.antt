-- ===== src/Receipts/Tests/Writing.antt =====
-- The receipt writer on a concrete receipt.
use digi_erp_connector.Base.{
  has_prefix, ℕ, ◌≤◌, ◌<◌, ◌≡◌, ◌≢◌, refl, arith, Text, codes, true, false, none, some, List, [],
  ◌∷◌, ◌++◌, ltb, ◌==◌, if◌then◌else◌, ok, err, text_eq, utf8_len, All, Pairwise,
}
use digi_erp_connector.Base.Dict
use digi_erp_connector.Base.Int.{pos, suc_int64}
use digi_erp_connector.Base.Decimal.{format, format_int64, parse_int64, read_digits}
use digi_erp_connector.Documents.Layout.{Bytes, hebrew}
use digi_erp_connector.Documents.Encoding.{
  encode_field, encode1255_strict, encode_from, normalize1255, trim_edges, trim_space,
}
use digi_erp_connector.Documents.Kupain.{
  generate_kupain_prm, kupain_prm_lines, ReceiptRequest, build_kupain_record, is_card_code,
  is_four_ascii_digits, format_amount, generate_kupain_doc,
}
use digi_erp_connector.Documents.Kupain.Tables.{kupain_width}
use digi_erp_connector.Documents.Kupain.CardNames.{card_name, Warning}
use digi_erp_connector.Receipts.Types.{
  Receipt, written, ran_ok, index_unreadable, ReceiptError, Notice,
}
use digi_erp_connector.Receipts.Index.{
  all, save, not_json, json, marshal, file, load, path, decode, parse_state, parse_import,
  state_text, import_text,
}
use digi_erp_connector.Receipts.Index.Key.{canonical_receipt_key}
use digi_erp_connector.Receipts.Index.Key.Laws.{canonical-again}
use digi_erp_connector.Receipts.Index.Laws.{Loads}
use digi_erp_connector.Receipts.Writer.State.{
  ReceiptWriter, WriterConfig, ReceiptOutside, ReceiptIo, private_made, lock_taken, absent, path_eq,
  importer, new_receipt_writer,
}
use digi_erp_connector.Receipts.Writer.Write.{write_receipt}
use digi_erp_connector.Receipts.Writer.Complete.{complete, write_all, write_if_different, put_file}
use digi_erp_connector.Receipts.Writer.Run.{run_import, with_run}
use digi_erp_connector.Receipts.Writer.Recover.{recover_receipts_locked}
use digi_erp_connector.Base.Sort
use digi_erp_connector.Receipts.Number.{peek, read, advance_past, write}
use digi_erp_connector.Receipts.Number.Advance.{next_store}
use digi_erp_connector.Receipts.Writer.Steps.{ReceiptReach, at_start, later, writes, seeded_writer}
use digi_erp_connector.Receipts.Writer.Gapless.{IsHeld, IsSpent}
use digi_erp_connector.Receipts.Writer.Safety.{numbers_gapless, imported_once, recovered_written}
use digi_erp_connector.Receipts.Writer.Answers.{
  Repeats, no_uuid, write_repeat, write_untrusted, refused_untouched,
}
use digi_erp_connector.Receipts.Index.Untrusted.{no_object}
use digi_erp_connector.Receipts.Writer.Files.{doc_last, DocLast}

-- Characters below 256 are their own bytes, and the others that of the question mark.
abbrev outside : ReceiptOutside
outside = record {
  unicode = record {
    is_space = λ c. c == 32;
    nfc = λ s. s;
    windows1255 = λ c. some (if ltb c 0x100 then c else b'?');
    day_text = λ _. some (codes "22/11/2026");
  };
  join = λ _. [];
}

abbrev config : WriterConfig
config = record {
  send_receipt_dir = codes "herp";
  data_dir = codes "data";
  has_receipt_bat_file = codes "receipt.bat";
  has_exe_path = [];
  has_receipt_param_file = [];
  card_names = record { issuer = []; brand = [] };
}

abbrev io : ReceiptIo
io = record {
  import_lock = true;
  prepares = true;
  data_lock = lock_taken;
  listed = true;
  saves = λ _. true;
  moves = λ _. true;
  makes_dir = λ _. private_made;
  writes = λ _ _. true;
  import_run = λ _. record { exit_code = pos 0; output = []; exec_error = none };
  reserved_now = codes "now";
  written_now = λ _. codes "now";
}

abbrev key : Text
key = codes "00000000-0000-0000-0000-00000000000a"

abbrev request : ReceiptRequest
request = record {
  idempotency_key = codes "00000000-0000-0000-0000-00000000000A";
  account_key = codes "C1";
  settled_date = codes "2026-11-22";
  amount_minor = pos 710700;
  installments = pos 1;
  card_issuer = codes "9";
  card_brand = [];
  last4 = codes "1234";
  confirmation_code = codes "0001";
  provider_uid = [];
  remarks = codes "invoice 7";
  agent_key = [];
  name = codes "Name";
  address = [];
  phone = [];
  email = [];
}

key_of_request : canonical_receipt_key request.idempotency_key ≡ some key
unfolding canonical_receipt_key
key_of_request = refl

builds :
    (doc : Bytes × List Warning) × (build_kupain_record outside.unicode request
        (pos 1)
        config.card_names
      ≡ ok doc)
unfolding build_kupain_record trim_space normalize1255 trim_edges encode_field kupain_width format
    format_amount is_card_code card_name parse_int64 Dict.lookup text_eq is_four_ascii_digits
builds = (_, refl)

canonical-again_example :
    (canonical_receipt_key key ≡ some key) × (has_prefix (path key) (codes ".") ≡ false)
canonical-again_example = canonical-again request.idempotency_key key key_of_request

-- Receipt 7 is written, and its request repeated.
abbrev once_written : ReceiptWriter
once_written = (write_receipt outside config io (seeded_writer 7 []) request).0

abbrev repeated : ReceiptWriter
repeated = (write_receipt outside config io once_written request).0

abbrev run : ReceiptReach outside config (seeded_writer 7 []) repeated
run = later (later at_start (writes io request)) (writes io request)

recovered_first : (once_written.recovered ≡ true) × (once_written.runs ≡ 7 ∷ [])
unfolding write_receipt canonical_receipt_key build_kupain_record trim_space normalize1255
    trim_edges encode_field kupain_width format format_amount is_card_code card_name parse_int64
    Dict.lookup text_eq is_four_ascii_digits new_receipt_writer recover_receipts_locked all
    Sort.sort load peek read read_digits format_int64 save advance_past write suc_int64 complete
    generate_kupain_doc generate_kupain_prm kupain_prm_lines encode1255_strict encode_from utf8_len
    write_all write_if_different put_file path_eq run_import importer with_run hebrew Dict.insert
recovered_first = (refl, refl)

loaded : (e : Receipt) × Loads once_written.disk.index key e × (e.state ≡ written)
unfolding write_receipt canonical_receipt_key build_kupain_record trim_space normalize1255
    trim_edges encode_field kupain_width format format_amount is_card_code card_name parse_int64
    Dict.lookup text_eq is_four_ascii_digits new_receipt_writer recover_receipts_locked all
    Sort.sort load peek read read_digits format_int64 save advance_past write suc_int64 complete
    generate_kupain_doc generate_kupain_prm kupain_prm_lines encode1255_strict encode_from utf8_len
    write_all write_if_different put_file path_eq run_import importer with_run hebrew Dict.insert
    decode parse_state parse_import state_text import_text path
loaded = (_, refl, refl)

abbrev damaged : ReceiptWriter
damaged = record {
  recovered = true;
  locked = true;
  disk = record {
    store = next_store 8 [];
    index = (codes "00000000-0000-0000-0000-00000000000a.json", file not_json) ∷ [];
    files = λ _. none;
    folders = λ _. absent;
  };
  runs = [];
}

finds_damaged : Dict.lookup (path key) damaged.disk.index ≡ some (file not_json)
unfolding Dict.lookup path text_eq
finds_damaged = refl

numbers_gapless_example :
    (next : ℕ) × ((at' : Text) × (repeated.disk.store ≡ next_store next at'))
    × ((m : ℕ) → 7 ≤ m → m < next → IsHeld repeated.disk.index m)
    × ((k : Text) (e : Receipt)
        → Loads repeated.disk.index k e
        → (7 ≤ e.number) × (e.number ≤ next))
    × ((k j : Text) (e f : Receipt)
        → Loads repeated.disk.index k e
        → Loads repeated.disk.index j f
        → e.number ≡ f.number
        → k ≡ j)
numbers_gapless_example =
    numbers_gapless outside config 7 [] repeated (omega arith) (omega arith) run

imported_once_example :
    Pairwise (λ (m n : ℕ). m ≢ n) repeated.runs × All (IsSpent repeated.disk.index) repeated.runs
imported_once_example = imported_once outside config 7 [] repeated (omega arith) (omega arith) run

recovered_written_example : loaded.0.state ≡ written
recovered_written_example =
    recovered_written outside config 7 [] once_written (omega arith) (omega arith)
      (later at_start (writes io request)) recovered_first.0 key loaded.0 loaded.1

-- A writer whose index holds receipt 7.
abbrev receipt_7 : Receipt
receipt_7 = record {
  key = key;
  number = 7;
  state = written;
  request = request;
  files = [];
  import_state = ran_ok;
  import_detail = [];
  warnings = [];
  reserved_at = codes "now";
  written_at = codes "now";
}

abbrev holding : ReceiptWriter
holding = record {
  recovered = true;
  locked = true;
  disk = record {
    store = next_store 8 [];
    index =
        (codes "00000000-0000-0000-0000-00000000000a.json", file (json (marshal receipt_7) false))
        ∷ [];
    files = λ _. none;
    folders = λ _. absent;
  };
  runs = [];
}

finds_receipt_7 :
    Dict.lookup (path key) holding.disk.index ≡ some (file (json (marshal receipt_7) false))
unfolding Dict.lookup path text_eq
finds_receipt_7 = refl

write_repeat_example :
    (notes : List Notice) × (write_receipt outside config io holding request ≡ (
      holding,
      ok (record {
        receipt_number = 7;
        idempotency_key = key;
        import_state = ran_ok;
        warnings = [] ++ notes;
        files = [];
        replayed = true;
      }),
    ))
    × Repeats outside config io receipt_7 request notes
write_repeat_example =
    write_repeat outside config io holding request receipt_7 key_of_request builds.1 refl refl
      (record { positive = omega arith; in_range = omega arith }) finds_receipt_7 refl

write_untrusted_example :
    write_receipt outside config io damaged request ≡ (damaged, err index_unreadable)
write_untrusted_example =
    write_untrusted outside config io damaged request key (file not_json) key_of_request builds.1
      refl refl finds_damaged no_object

refused_untouched_example :
    (x : ReceiptError) × (write_receipt outside config io once_written
        (record request { idempotency_key = codes "7" })
      ≡ (once_written, err x))
refused_untouched_example =
    refused_untouched outside config io once_written
      (record request { idempotency_key = codes "7" }) (no_uuid (λ h. h.1))

doc_last_example :
    DocLast outside config io once_written.disk loaded.0
      (complete outside config io once_written loaded.0 [])
doc_last_example = doc_last outside config io once_written loaded.0 []
