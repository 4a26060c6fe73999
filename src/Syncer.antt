-- ===== src/Syncer.antt =====
-- The reconciler (internal/syncer).
pub mod Debounce
pub mod Cache
pub mod Backoff
pub mod Types
pub mod Calls
pub mod Ownership
pub mod Stopped
pub mod Lookups
pub mod Write
pub mod Existing
pub mod Visit
pub mod Collection
pub mod Orphans
pub mod Listed
pub mod Deletion
pub mod Run
