-- ===== src/Pii.antt =====
-- Detection, pseudonymisation and restoring of personal data (crates/drgtw-pii).
pub mod Kind
pub mod Decimal
pub mod Slice
pub mod Checksums
pub mod Engine
pub mod Ner
pub mod EntityMap
pub mod Stream
pub mod Body
mod Tests
