-- ===== src/Receipts/Writer.antt =====
-- internal/erp/hasavshevet/receipt_writer.go: the receipt writer.
pub mod State
pub mod Complete
pub mod Run
pub mod Recover
pub mod Write
pub mod Steps
pub mod Gapless
pub mod Safety
pub mod Answers
pub mod Files
