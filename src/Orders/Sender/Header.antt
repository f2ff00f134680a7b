-- ===== src/Orders/Sender/Header.antt =====
-- internal/erp/hasavshevet/send_order.go: buildIMOVEIN.
use digi_erp_connector.Base.{
  ℕ, Text, codes, text_eq, is_empty, Option, none, some, List, [], ◌∷◌, ◌++◌, if◌then◌else◌, ◌==◌,
  ltb, take, length,
}
use digi_erp_connector.Base.Int.{ℤ, pos, int_is_zero}
use digi_erp_connector.Base.Decimal.{format, format_int64}
use digi_erp_connector.Documents.Layout.{hebrew}
use digi_erp_connector.Documents.Imovein.{StockHeader, StockMove}
use digi_erp_connector.Orders.Types.{OrderRequest, OrderLineItem}
use digi_erp_connector.Orders.Sender.Outside.{
  Float64, Outside, Day, rfc3339, no_zone, date_only, AccountInfo,
}

-- strings.ReplaceAll(s, "'", ""), and of "\n" by ". "
unfoldable pub without_quotes : Text → Text
without_quotes [] = []
without_quotes (c ∷ s) = let rest = without_quotes s in if c == b'\'' then rest else c ∷ rest

unfoldable pub stops_for_lines : Text → Text
stops_for_lines [] = []
stops_for_lines (c ∷ s) =
    let rest = stops_for_lines s in if c == 10 then codes ". " ++ rest else c ∷ rest

unfoldable pub sanitize_field : Text → Text
unfolding without_quotes stops_for_lines
sanitize_field s = stops_for_lines (without_quotes s)

unfoldable pub sanitize_comment : Text → ℕ → Text
unfolding sanitize_field
sanitize_comment s max_len =
    let t = sanitize_field s in if ltb max_len (length t) then take max_len t else t

-- fmt's %02d and %04d of a number from 0 up
two_digits : ℕ → Text
two_digits n = if ltb n 10 then b'0' ∷ format n else format n

four_digits : ℕ → Text
four_digits n =
    if ltb n 10
    then codes "000" ++ format n
    else if ltb n 100
    then codes "00" ++ format n
    else if ltb n 1000
    then b'0' ∷ format n
    else format n

first_of : Option Day → Option Day → Option Day → Day → Day
first_of (some d) _ _ fallback = d
first_of none (some d) _ fallback = d
first_of none none (some d) fallback = d
first_of none none none fallback = fallback

short_date : Day → Text
unfolding two_digits four_digits
short_date d = two_digits d.day ++ (b'/' ∷ (two_digits d.month ++ (b'/' ∷ four_digits d.year)))

-- The document code and the warehouse of a document type and currency.
type_codes : Text → Text → ℕ × ℕ
type_codes document_type currency =
    if text_eq document_type (codes "ORDER")
    then (if text_eq currency (hebrew "y\"g") then 30 else 32, 1)
    else if text_eq document_type (codes "QUOATE")
    then (40, 1)
    else if text_eq document_type (codes "RETURN")
    then (74, 1)
    else (0, 0)

or_else_number : ℤ → ℕ → ℤ
or_else_number given usual = if int_is_zero given then pos usual else given

or_else_text : Text → Text → Text
or_else_text given usual = if is_empty given then usual else given

module _ {F : Type 0} (outside : Outside F) where
  abbrev floats : Float64 F
  floats = outside.float

  -- parseTimeOrNow
  unfoldable pub parse_time_or_now : Text → Day → Day
  unfolding first_of
  parse_time_or_now s fallback =
      first_of (outside.parse_time rfc3339 s) (outside.parse_time no_zone s)
        (outside.parse_time date_only s) fallback

  stock_move : OrderLineItem F → StockMove
  unfolding sanitize_field
  stock_move d = record {
    item_key = d.sku;
    item_name = sanitize_field d.title;
    quantity = floats.two_places d.quantity;
    packs = if floats.is_positive d.packs then floats.two_places d.packs else [];
    price = floats.two_places d.original_price;
    discount_prc = floats.two_places d.discount;
    unit = hebrew "ig'";
  }

  unfoldable pub stock_moves : List (OrderLineItem F) → List StockMove
  unfolding stock_move
  stock_moves [] = []
  stock_moves (d ∷ ds) = stock_move d ∷ stock_moves ds

  -- The header that buildIMOVEIN gives; its moves are `stock_moves`.
  unfoldable pub stock_header : ℤ → AccountInfo → OrderRequest F → F → Day → StockHeader
  unfolding parse_time_or_now short_date sanitize_field sanitize_comment type_codes or_else_number
      or_else_text
  stock_header order_num account req rate now =
      let (document_code, warehouse) = type_codes req.document_type req.currency in
      let discount =
        if floats.at_least_100 req.discount then floats.literal_99_99 else req.discount in
      record {
        account_key = account.account_key;
        my_id = order_num;
        document_id = or_else_number req.document_id document_code;
        account_name = sanitize_field account.full_name;
        address = sanitize_field account.address;
        city = sanitize_field account.city;
        asmahta2 = or_else_text req.asmahta2 (format_int64 order_num);
        short_date = short_date (parse_time_or_now req.created_date now);
        agent = account.agent;
        ware_house = or_else_number req.warehouse warehouse;
        discount_prc_r = floats.two_places discount;
        vat_prc = or_else_text req.vat_percent (codes "18.00");
        copies = codes "1";
        currency = req.currency;
        rate = floats.four_places rate;
        phone = sanitize_field account.phone;
        remarks = sanitize_comment req.comment 250;
        h_protect = account.h_protect;
        extra_text1 = [];
        extra_text2 = [];
        extra_text3 = [];
        extra_text4 = [];
        extra_text5 = [];
        extra_sum1 = [];
        extra_sum2 = [];
        extra_sum3 = [];
        extra_date1 = [];
        extra_date2 = [];
        extra_num1 = [];
        extra_num2 = [];
      }
