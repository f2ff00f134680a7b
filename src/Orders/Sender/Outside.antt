-- ===== src/Orders/Sender/Outside.antt =====
-- internal/erp/hasavshevet/send_order.go: what the sender takes from outside the repository, what it
-- is built with, and its errors.
use digi_erp_connector.Base.{ℕ, Text, Bool, Option, List, Outcome}
use digi_erp_connector.Documents.Encoding.{Unicode, FieldError}

-- What the code does with a float64: the tests on it, the literals 99.99 and 1.0, and fmt's %.2f and
-- %.4f.
pub record Float64 (F : Type 0) : Type 0 where
  pub is_zero : F → Bool
  pub is_positive : F → Bool
  pub at_least_100 : F → Bool
  pub literal_99_99 : F
  pub one : F
  pub two_places : F → Text
  pub four_places : F → Text

-- The day of a time.Time.
pub record Day : Type 0 where
  pub day : ℕ
  pub month : ℕ
  pub year : ℕ

-- The layouts that parseTimeOrNow hands to time.Parse.
pub data TimeLayout : Type 0 where
  rfc3339 no_zone date_only : TimeLayout

-- accountInfo
pub record AccountInfo : Type 0 where
  pub account_key : Text
  pub full_name : Text
  pub address : Text
  pub city : Text
  pub phone : Text
  pub agent : Text
  pub h_protect : Text

-- The errors of one run, in the order in which the code meets them.
pub data SendError : Type 0 where
  dir_not_configured : SendError
  missing_fields : List Text → SendError
  invalid_document_type : Text → SendError
  invalid_field : FieldError → SendError
  sku_required quantity_zero title_required : ℕ → SendError
  no_number_store : SendError
  no_number : SendError
  no_account_key : SendError
  no_database : SendError
  no_database_name : SendError
  unsafe_database_name : Text → SendError
  account_not_read : Text → SendError
  history_dir_not_created : SendError
  file_not_written : Text → SendError

-- How an attempt to write one order file ends: os.OpenFile fails, or the write or the close fails
-- after it, or all the bytes are in the file.
pub data FileWrite : Type 0 where
  not_opened cut_short complete : FileWrite

-- The standard library: the characters, time.Parse, filepath.Join, and the text of an error.
pub record Outside (F : Type 0) : Type 0 where
  pub unicode : Unicode
  pub float : Float64 F
  pub parse_time : TimeLayout → Text → Option Day
  pub join : List Text → Text
  pub error_text : SendError → Text

-- The configuration: `has_database` says that there is a connection, `has_store` a number store.
pub record SenderConfig : Type 0 where
  pub send_order_dir : Text
  pub database : Text
  pub has_database : Bool
  pub has_store : Bool
  pub has_bat_file : Text
  pub has_exe_path : Text

-- What the environment answers in one run: the database, the counter's file, the folder, the files.
pub record SendIo (F : Type 0) : Type 0 where
  pub now : Day
  pub counter_writes : Bool
  pub find_account : Text → Text → Outcome Text AccountInfo
  pub find_rate : Text → Text → Option F
  pub makes_dir : Bool
  pub write : Text → FileWrite
