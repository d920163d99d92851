-- ===== src/Tests.antt =====
-- The theorems at concrete inputs, and runs of the definitions.
pub mod Todo
pub mod Paging
pub mod Limits
pub mod Auth
pub mod Streams
pub mod Config
