-- ===== src/Sync/Config.antt =====
-- src/routes/sync/config.rs: the upload of configs. `Statements` is the table and what is written to
-- it, `Batch` the prefetch, `Resolve` the target of a write.
pub mod Statements
pub mod Find
pub mod Batch
pub mod Loaded
pub mod Resolve
pub mod Answers
pub mod Frames
pub mod Free
pub mod Steps
pub mod Cached
pub mod Pending
pub mod Buffer
pub mod Issue
pub mod Push
pub mod Tracks
pub mod Tokens
pub mod Join
pub mod JoinInPlace
pub mod Process
pub mod Changes
pub mod Alone
pub mod Doom
pub mod DoomedRoutes
pub mod Lookups
pub mod Follow
pub mod Landing
pub mod Branches
pub mod Routes
pub mod Finish
pub mod Equivalence
pub mod FlatEquivalence
pub mod Buffered
pub mod SyncItems
pub mod ItemsAlone
pub mod Items
