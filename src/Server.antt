-- ===== src/Server.antt =====
-- The synchronization server (apps/server/src).
pub mod Database
pub mod Rows
pub mod Stats
pub mod Ack
pub mod Apply
pub mod Push
pub mod Touches
pub mod Changes
pub mod FavoriteState
pub mod Inversion
pub mod Grows
pub mod Invariant
pub mod Sessions
pub mod Limiter
pub mod Examples
