-- ===== src/Orders/Types.antt =====
-- internal/erp/hasavshevet: the types that the order counter, the key index, the queue and the
-- sender share. An order's amounts are float64 in the source; `F` stands for that type.
use digi_erp_connector.Base.{ℕ, List, Option, Text}
use digi_erp_connector.Base.Int.{ℤ}

-- The errors that the order side returns, by the sentinel or the message that tells them apart.
pub data Error : Type 0 where
  counter_unreadable : Error  -- ErrOrderCounterUnreadable
  counter_not_written : Error  -- "persist order counter"
  index_unreadable : Error  -- ErrOrderIndexUnreadable
  index_not_saved : Error  -- "persist order index entry"
  index_not_prepared : Error  -- "prepare the order index"
  index_not_listed : Error  -- "list the order index"
  history_not_listed : Error  -- "list sendOrderDir/history"
  counter_moved_back : Error  -- "lastOrderNumber.json offers order … nothing reserved"
  no_number_store : Error
  history_id_required : Error
  queue_closed : Error  -- ErrQueueClosed
  queue_full : Error  -- ErrQueueFull

-- What OrderLineItem carries.
pub record OrderLineItem (F : Type 0) : Type 0 where
  pub title : Text
  pub sku : Text
  pub quantity : F
  pub packs : F
  pub original_price : F
  pub single_price : F
  pub total_price : F
  pub discount : F

pub record AccountDetails : Type 0 where
  pub account_key : Text
  pub full_name : Text
  pub address : Text
  pub city : Text
  pub phone : Text
  pub agent : Text
  pub h_protect : Text

-- In `document_id` and `warehouse` 0 is "absent".
pub record OrderRequest (F : Type 0) : Type 0 where
  pub document_type : Text
  pub user_ext_id : Text
  pub due_date : Text
  pub created_date : Text
  pub comment : Text
  pub discount : F
  pub history_id : Text
  pub total : F
  pub currency : Text
  pub customer_email : Text
  pub details : List (OrderLineItem F)
  pub account : Option AccountDetails
  pub document_id : ℤ
  pub warehouse : ℤ
  pub vat_percent : Text
  pub asmahta2 : Text

pub data JobStatus : Type 0 where
  queued running done failed unknown : JobStatus

-- orderState of the key index.
pub data OrderState : Type 0 where
  reserved written retryable failed : OrderState

-- orderIndexEntry as the queue holds it: decodeOrderIndexEntry lets no number below 1 and no
-- negative retry count through, so both are natural numbers.
pub record Entry : Type 0 where
  pub key : Text
  pub number : ℕ
  pub state : OrderState
  pub request_hash : Text
  pub files : List Text
  pub error : Text
  pub retries : ℕ
  pub reserved_at : Text
  pub finished_at : Text
