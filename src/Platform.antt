-- ===== src/Platform.antt =====
-- internal/platform: the packages that stand between the connector and the operating system.
pub mod AtomicFile
mod Tests
