-- ===== src/Core.antt =====
-- The shared core of the program (crates/core).
pub mod ContentKey
pub mod Content
pub mod LanguageCode
mod Examples
