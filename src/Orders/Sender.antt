-- ===== src/Orders/Sender.antt =====
-- internal/erp/hasavshevet/send_order.go: the sender of one order. The account and the header, the
-- checks, and the run of processOrderWithNumber have a child each.
pub mod Outside
pub mod Check
pub mod Account
pub mod Header
pub mod Process
pub mod Loop
pub mod Laws
