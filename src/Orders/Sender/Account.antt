-- ===== src/Orders/Sender/Account.antt =====
-- internal/erp/hasavshevet/send_order.go: the account of an order, and the currency rate.
use digi_erp_connector.Base.{
  Text, is_empty, not, ◌&&◌, Option, none, some, if◌then◌else◌, Outcome, ok, err,
}
use digi_erp_connector.Documents.Encoding.{trim_space}
use digi_erp_connector.Orders.Types.{OrderRequest, AccountDetails}
use digi_erp_connector.Orders.Sender.Outside.{
  Outside, SenderConfig, SendIo, AccountInfo, SendError, no_account_key, no_database,
  no_database_name, unsafe_database_name, account_not_read,
}
use digi_erp_connector.Orders.Sender.Check.{is_safe_db_name}

module _ {F : Type 0} (outside : Outside F) (config : SenderConfig) (io : SendIo F) where
  abbrev trimmed : Text → Text
  trimmed s = trim_space outside.unicode s

  account_read : Outcome Text AccountInfo → Outcome SendError AccountInfo
  account_read (ok a) = ok a
  account_read (err reason) = err (account_not_read reason)

  -- queryAccount, with the error that resolveAccount puts around its own.
  unfoldable pub query_account : Text → Text → Outcome SendError AccountInfo
  unfolding account_read
  query_account db_name user_ext_id =
      if is_safe_db_name db_name
      then account_read (io.find_account db_name user_ext_id)
      else err (unsafe_database_name db_name)

  from_details : OrderRequest F → AccountDetails → Outcome SendError AccountInfo
  from_details req a =
      let own = trimmed a.account_key in
      let key = if is_empty own then trimmed req.user_ext_id else own in
      if is_empty key
      then err no_account_key
      else ok (record {
        account_key = key;
        full_name = a.full_name;
        address = a.address;
        city = a.city;
        phone = a.phone;
        agent = a.agent;
        h_protect = a.h_protect;
      })

  from_database : OrderRequest F → Outcome SendError AccountInfo
  unfolding query_account
  from_database req =
      if not config.has_database
      then err no_database
      else if is_empty (trimmed config.database)
      then err no_database_name
      else query_account (trimmed config.database) req.user_ext_id

  account_or_database : OrderRequest F → Option AccountDetails → Outcome SendError AccountInfo
  unfolding from_details from_database
  account_or_database req (some a) = from_details req a
  account_or_database req none = from_database req

  -- resolveAccount
  unfoldable pub resolve_account : OrderRequest F → Outcome SendError AccountInfo
  unfolding account_or_database
  resolve_account req = account_or_database req req.account

  or_one : Option F → F
  or_one none = outside.float.one
  or_one (some r) = if outside.float.is_zero r then outside.float.one else r

  -- queryRate: 1.0 where there is no rate to be had, and the caller's 1.0 on an error.
  unfoldable pub rate_of : OrderRequest F → F
  unfolding or_one
  rate_of req =
      let db_name = trimmed config.database in
      if config.has_database && not (is_empty db_name)
      then if is_safe_db_name db_name
        then or_one (io.find_rate db_name req.currency)
        else outside.float.one
      else outside.float.one
