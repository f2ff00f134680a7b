-- ===== src/Orders.antt =====
-- internal/erp/hasavshevet: the order side. A module per source file, and the queue in several.
pub mod Types
pub mod Counter
pub mod Index
pub mod Sender
pub mod Queue
mod Tests
