-- ===== src/Sync.antt =====
-- src/routes/sync: the sync endpoint and its parts.
pub mod Versioning
pub mod Types
pub mod Batching
pub mod Deletes
pub mod Todo
pub mod Paging
pub mod Devices
pub mod Config
pub mod Limits
pub mod ScopeAuth
pub mod StreamLimits
pub mod PublishConn
