-- ===== src/Receipts/Tests.antt =====
-- The receipts on concrete files.
mod Numbers
mod Writing
