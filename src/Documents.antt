-- ===== src/Documents.antt =====
-- internal/erp/hasavshevet: the files that the connector writes for the Hasavshevet importer.
pub mod Layout
pub mod Imovein
pub mod Encoding
pub mod Kupain
pub mod Fields
mod Tests
