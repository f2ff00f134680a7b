-- ===== src/Orders/Sender/Check.antt =====
-- internal/erp/hasavshevet/send_order.go: validateOrderRequest, and IsSafeDBName.
use digi_erp_connector.Base.{
  ℕ, suc, Text, codes, text_eq, is_empty, Bool, true, false, not, ◌||◌, ◌&&◌, List, [], ◌∷◌, ◌++◌,
  if◌then◌else◌, leb, ◌==◌, Outcome, ok, err, ◌>>◌,
}
use digi_erp_connector.Documents.Encoding.{FieldError}
use digi_erp_connector.Documents.Fields.{validate_document_fields}
use digi_erp_connector.Orders.Types.{OrderRequest, OrderLineItem}
use digi_erp_connector.Orders.Sender.Outside.{
  Float64, SendError, missing_fields, invalid_document_type, invalid_field, sku_required,
  quantity_zero, title_required,
}

when_empty : Text → Text → List Text
when_empty value name = if is_empty value then name ∷ [] else []

no_items {ℓ} : {A : Type ℓ} → List A → Bool
no_items [] = true
no_items (x ∷ xs) = false

is_document_type : Text → Bool
is_document_type t =
    text_eq t (codes "ORDER") || text_eq t (codes "QUOATE") || text_eq t (codes "RETURN")

field_check : Outcome FieldError (Unit {0}) → Outcome SendError (Unit {0})
field_check (ok _) = ok tt
field_check (err e) = err (invalid_field e)

is_db_name_char : ℕ → Bool
is_db_name_char c =
    (leb b'a' c && leb c b'z')
    || (leb b'A' c && leb c b'Z')
    || (leb b'0' c && leb c b'9')
    || (c == b'_')

all_db_name_chars : Text → Bool
unfolding is_db_name_char
all_db_name_chars [] = true
all_db_name_chars (c ∷ s) = is_db_name_char c && all_db_name_chars s

unfoldable pub is_safe_db_name : Text → Bool
unfolding all_db_name_chars
is_safe_db_name name = not (is_empty name) && all_db_name_chars name

module _ {F : Type 0} (float : Float64 F) where
  missing_of : OrderRequest F → List Text
  unfolding when_empty no_items
  missing_of req =
      when_empty req.document_type (codes "documentType")
      ++ (when_empty req.user_ext_id (codes "userExtId")
          ++ (when_empty req.due_date (codes "dueDate")
              ++ (when_empty req.created_date (codes "createdDate")
                  ++ (when_empty req.history_id (codes "historyId")
                      ++ (if no_items req.details
                          then codes "details (must be non-empty array)" ∷ []
                          else [])))))

  -- The loop over the order's lines, from line i on.
  check_items : ℕ → List (OrderLineItem F) → Outcome SendError (Unit {0})
  check_items i [] = ok tt
  check_items i (d ∷ ds) =
      let rest = check_items (suc i) ds in
      if is_empty d.sku
      then err (sku_required i)
      else if float.is_zero d.quantity
      then err (quantity_zero i)
      else if is_empty d.title
      then err (title_required i)
      else rest

  -- validateOrderRequest
  unfoldable pub validate_order_request : OrderRequest F → Outcome SendError (Unit {0})
  unfolding missing_of no_items is_document_type field_check check_items
  validate_order_request req =
      let missing = missing_of req in
      if not (no_items missing)
      then err (missing_fields missing)
      else if not (is_document_type req.document_type)
      then err (invalid_document_type req.document_type)
      else field_check (validate_document_fields req) >> check_items 0 req.details
