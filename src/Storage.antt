-- ===== src/Storage.antt =====
-- The SQLite database of a desktop profile (crates/storage).
pub mod Model
pub mod Codec
pub mod Outbox
pub mod Profile
pub mod Removal
pub mod Identity
pub mod Remote
pub mod Page
pub mod Sync
pub mod Conflict
pub mod Invariant
pub mod Counting
pub mod Intents
pub mod Examples
