-- ===== src/Receipts.antt =====
-- internal/erp/hasavshevet/receipt_number.go, receipt_index.go and receipt_writer.go: the receipts.
pub mod Number
pub mod Types
pub mod Index
pub mod Writer
mod Tests
