-- ===== src/Desktop.antt =====
-- The desktop program (apps/desktop).
pub mod CaptureGate
pub mod Confirmation
pub mod SyncEngine
pub mod LookupCard
mod Examples
