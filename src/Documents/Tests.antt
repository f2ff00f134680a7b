-- ===== src/Documents/Tests.antt =====
-- A concrete order and a concrete receipt, written to their files.
use digi_erp_connector.Base.{
  ℕ, ◌≤◌, ◌≡◌, refl, arith, All, codes, Option, none, some, List, [], ◌∷◌, ◌++◌, map, length, take,
  replicate, ltb, ◌==◌, if◌then◌else◌, Outcome, ok, err, utf8_len, text_eq,
}
use digi_erp_connector.Documents.Fields.{
  format_vat_percent, cut_point, all_ascii_digits, power_of_ten, max_for_width,
  validate_document_fields,
}
use digi_erp_connector.Documents.Fields.Laws.{FitsLine, validate_document_fields-ok}
use digi_erp_connector.Documents.Fields.Vat.{format_vat_percent-again}
use digi_erp_connector.Documents.Imovein.{width}
use digi_erp_connector.Base.Decimal.{format_int64}
use digi_erp_connector.Orders.Types.{OrderRequest}
use digi_erp_connector.Base.Dict
use digi_erp_connector.Base.Int.{pos, negsuc}
use digi_erp_connector.Base.Decimal.{format, parse_int64, read_digits}
use digi_erp_connector.Documents.Layout.{Bytes, cut, hebrew, line_feed}
use digi_erp_connector.Documents.Imovein.{
  StockHeader, StockMove, build_doc_record, generate_doc, doc_values, padded, pad_w1255,
  encode_windows1255, all_prm_rows,
}
use digi_erp_connector.Documents.Imovein.Laws.{
  active, pad_w1255_lem, length-build_doc_record, length-generate_doc, cut-build_doc_record,
}
use digi_erp_connector.Documents.Encoding.{
  out_of_range, Unicode, encode_field, encode1255_strict, encode_from, normalize1255, clean,
  is_stripped, trim_func, trim_edges, trim_space,
}
use digi_erp_connector.Documents.Encoding.Laws.{Spells, encode_field-ok}
use digi_erp_connector.Documents.Kupain.{
  ReceiptRequest, Values, WriteError, value_of, kupain_values, build_kupain_record,
  generate_kupain_doc, write_fields, all_digits, is_card_code, is_four_ascii_digits, check,
  format_amount, two_digits,
}
use digi_erp_connector.Documents.Kupain.Tables.{kupain_width}
use digi_erp_connector.Documents.Kupain.CardNames.{
  ReceiptCardNames, Warning, no_card_name, card_name, lookup_card_name, overridden,
  canonical_card_code,
}
use digi_erp_connector.Documents.Kupain.Record.{
  WellWritten, Printable, KeepsControls, build_kupain_record-ok, generate_kupain_doc-ok,
}

-- Unicode cut down to ASCII.
abbrev ascii : ℕ → Option ℕ
ascii c = if ltb c 0x80 then some c else none

abbrev unicode : Unicode
unicode = record {
  is_space = λ c. c == 32;
  nfc = λ s. s;
  windows1255 = ascii;
  day_text = λ _. some (codes "22/11/2026");
}

abbrev header : StockHeader
header = record {
  account_key = codes "C1";
  my_id = pos 42;
  document_id = pos 30;
  account_name = codes "Name";
  address = [];
  city = [];
  asmahta2 = codes "42";
  short_date = codes "22/11/2026";
  agent = [];
  ware_house = pos 1;
  discount_prc_r = codes "0.00";
  vat_prc = codes "18.00";
  copies = codes "1";
  currency = [];
  rate = codes "1.0000";
  phone = [];
  remarks = [];
  h_protect = [];
  extra_text1 = [];
  extra_text2 = [];
  extra_text3 = [];
  extra_text4 = [];
  extra_text5 = [];
  extra_sum1 = [];
  extra_sum2 = [];
  extra_sum3 = [];
  extra_date1 = [];
  extra_date2 = [];
  extra_num1 = [];
  extra_num2 = [];
}

abbrev move : StockMove
move = record {
  item_key = codes "SKU-1";
  item_name = codes "Item";
  quantity = codes "2.00";
  packs = [];
  price = codes "9.90";
  discount_prc = codes "0.00";
  unit = [];
}

pad_w1255_lem_example :
    pad_w1255 ascii (codes "abcdef") 4
    ≡ take 4 (encode_windows1255 ascii (codes "abcdef") ++ replicate 4 b' ')
pad_w1255_lem_example = pad_w1255_lem ascii (codes "abcdef") 4

length-build_doc_record_example : length (build_doc_record ascii header move) ≡ 2891
length-build_doc_record_example = length-build_doc_record ascii header move

length-generate_doc_example : length (generate_doc ascii header (move ∷ move ∷ [])) ≡ 5784
length-generate_doc_example = length-generate_doc ascii header (move ∷ move ∷ [])

cut-build_doc_record_example :
    map (cut (build_doc_record ascii header move)) (active all_prm_rows)
    ≡ map (padded ascii) (doc_values header move)
cut-build_doc_record_example = cut-build_doc_record ascii header move

accepted : encode_field unicode (codes "remarks") (codes "a'b") 4 ≡ ok (codes "ab")
unfolding encode_field encode1255_strict encode_from normalize1255 clean is_stripped utf8_len
accepted = refl

encode_field-ok_example :
    Spells unicode (normalize1255 unicode (codes "a'b")) (codes "ab")
    × (length (codes "ab") ≤ 4)
    × All (λ c. 0x20 ≤ c) (normalize1255 unicode (codes "a'b"))
encode_field-ok_example =
    encode_field-ok unicode (codes "remarks") (codes "a'b") 4 (codes "ab") accepted

abbrev receipt : ReceiptRequest
receipt = record {
  idempotency_key = codes "k";
  account_key = codes "C1";
  settled_date = codes "2026-11-22";
  amount_minor = pos 710700;
  installments = pos 1;
  card_issuer = codes "9";
  card_brand = [];
  last4 = codes "1234";
  confirmation_code = codes "0001";
  provider_uid = [];
  remarks = codes "invoice 7";
  agent_key = [];
  name = codes "Name";
  address = [];
  phone = [];
  email = [];
}

abbrev no_names : ReceiptCardNames
no_names = record { issuer = []; brand = [] }

abbrev bytes_of : Outcome WriteError (Bytes × List Warning) → Bytes
bytes_of (ok (b, warnings)) = b
bytes_of (err e) = []

abbrev warned : List Warning
warned = no_card_name (codes "9") [] ∷ []

builds :
    build_kupain_record unicode receipt (pos 7) no_names
    ≡ ok (bytes_of (build_kupain_record unicode receipt (pos 7) no_names), warned)
unfolding build_kupain_record kupain_values write_fields value_of encode_field encode1255_strict
    encode_from normalize1255 clean is_stripped utf8_len trim_func trim_edges trim_space all_digits
    is_card_code is_four_ascii_digits check format_amount two_digits kupain_width card_name
    lookup_card_name overridden canonical_card_code parse_int64 read_digits format text_eq
    Dict.lookup hebrew
builds = refl

abbrev record_bytes : Bytes
record_bytes = bytes_of (build_kupain_record unicode receipt (pos 7) no_names)

build_kupain_record-ok_example :
    (vals : Values) × (kupain_values unicode receipt (pos 7) no_names ≡ ok (vals, warned))
    × WellWritten vals record_bytes
build_kupain_record-ok_example =
    build_kupain_record-ok unicode receipt (pos 7) no_names record_bytes warned builds

ascii_keeps : KeepsControls unicode
ascii_keeps r b high own = ground arith

generates :
    generate_kupain_doc unicode receipt (pos 7) no_names
    ≡ ok (record_bytes ++ (line_feed ∷ []), warned)
unfolding generate_kupain_doc
generates = rw builds refl

generate_kupain_doc-ok_example :
    (b : Bytes) × (record_bytes ++ (line_feed ∷ []) ≡ b ++ (line_feed ∷ []))
    × (length b ≡ 1259)
    × Printable b
generate_kupain_doc-ok_example =
    generate_kupain_doc-ok unicode ascii_keeps receipt (pos 7) no_names
      (record_bytes ++ (line_feed ∷ [])) warned generates

abbrev order_request : OrderRequest (Unit {0})
order_request = record {
  document_type = codes "ORDER";
  user_ext_id = codes "C1";
  due_date = [];
  created_date = [];
  comment = [];
  discount = tt;
  history_id = codes "k1";
  total = tt;
  currency = [];
  customer_email = [];
  details = [];
  account = none;
  document_id = pos 30;
  warehouse = pos 7;
  vat_percent = codes "17.00";
  asmahta2 = codes "123456789";
}

takes_vat : format_vat_percent (codes "017.5") ≡ ok (codes "17.50")
unfolding format_vat_percent cut_point all_ascii_digits all_digits parse_int64 read_digits
    format_int64 format width
takes_vat = refl

checks_fields : validate_document_fields order_request ≡ ok tt
unfolding validate_document_fields max_for_width power_of_ten text_eq format_vat_percent cut_point
    all_ascii_digits all_digits parse_int64 read_digits format_int64 format width
checks_fields = refl

refuses_negative :
    validate_document_fields (record order_request { document_id = negsuc 4 })
    ≡ err (record { field = codes "documentId"; reason = out_of_range })
unfolding validate_document_fields max_for_width power_of_ten width
refuses_negative = refl

validate_document_fields-ok_example :
    FitsLine 4 (pos 30)
    × FitsLine 12 (pos 7)
    × (length (codes "17.00") ≤ width 18)
    × (length (codes "123456789") ≤ width 8)
validate_document_fields-ok_example = validate_document_fields-ok order_request checks_fields

format_vat_percent-again_example : format_vat_percent (codes "17.50") ≡ ok (codes "17.50")
format_vat_percent-again_example =
    format_vat_percent-again (codes "017.5") (codes "17.50") takes_vat
