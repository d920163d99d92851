-- ===== src/Sync/Todo.antt =====
-- src/routes/sync/todo: the todo half of a sync.
pub mod Table
pub mod Pending
pub mod Decide
pub mod Process
pub mod OneByOne
pub mod Runs
pub mod Batched
pub mod Invariant
pub mod Steps
pub mod Equivalence
pub mod Rows
pub mod Keeps
pub mod Ownership
pub mod Faults
pub mod InTurn
pub mod Lists
pub mod Items
