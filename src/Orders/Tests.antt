-- ===== src/Orders/Tests.antt =====
-- Concrete runs of the order side.
mod Data
mod Sending
mod Runs
mod Answers
mod Files
