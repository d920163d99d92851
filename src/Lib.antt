-- ===== src/Lib.antt =====
-- teddy.fyi API: the sync service of two families of apps, in Rust over Postgres and Redis. A client
-- posts the changes that it made offline to one endpoint (src/routes/sync/handler.rs); the body is
-- bounded (limits.rs) and its scope authorized (scope_auth.rs), each table's processor applies the
-- changes in a transaction, and the reply carries what changed on the server since the client's
-- cursor, a page at a time. Tablets without an account of their own are paired with one
-- (src/auth/device.rs), and calls of Gemini are paid from a daily allowance
-- (src/routes/ai/budget.rs).
--
-- What is modelled where, paths from the repository's root:
-- - Sync/Todo: src/routes/sync/todo/todo_lists.rs and todo_items.rs. Table has the statements, as
--   functions on a table; Pending the buffered run and its `flush`; Decide what one change asks for;
--   Process the loop, which both processors are; Lists and Items the two of them. OneByOne is the
--   loop that issues each write at once, which Runs, Batched, Invariant and Steps lead up to in
--   Equivalence.
--   Rows, Keeps and Ownership are about the rows of a table, Faults about a payload that carries another
--   id, updates of one row, and updates without data, InTurn about one row over many requests.
-- - Sync/Batching, Sync/Versioning, Sync/Deletes, Sync/Types, Errors: batching.rs, versioning.rs,
--   deletes.rs and types.rs of src/routes/sync.
-- - Sync/Paging: src/routes/sync/paging.rs; Cut and Trim are about a list in order. Fetch is the
--   config download of src/routes/sync/config.rs, Resumed what a later page leaves out, and Download
--   the client that asks until it is done.
-- - Sync/Config: the upload half of src/routes/sync/config.rs. Statements has the table and one row's
--   statements, Batch and Resolve the prefetch and where a write lands, Pending the run and what issues
--   it, Buffer `write_config`, Process and Changes `process_config_changes`, and SyncItems
--   `process_config_sync_items`. Loaded, Answers, Free, Frames, Steps and Cached are about the
--   prefetch. Alone and ItemsAlone are the two forms one change at a time; Issue, Push, Tracks, Tokens,
--   Join, JoinInPlace, Lookups, Follow, Landing, Branches, Doom and Finish serve both, Routes and
--   DoomedRoutes lead up to Equivalence, and Items to FlatEquivalence. Buffered is about what the loop
--   reads while writes are in its run.
-- - Sync/Devices: src/routes/sync/device.rs. Cap is about a registration, Registered about the set of
--   devices that a batch reads once.
-- - Sync/Limits: src/routes/sync/limits.rs. Depth is the walk over a JSON value, and Acceptable what a
--   body may carry.
-- - Sync/StreamLimits: src/routes/sync/stream_limits.rs. Slots is the relation between the counts and
--   the slots that are held.
-- - Sync/PublishConn: src/routes/sync/publish_conn.rs. Generations is about callers that share the
--   connection, in any order of their steps.
-- - Sync/ScopeAuth and Auth/Product: src/routes/sync/scope_auth.rs and src/auth/product.rs.
-- - Auth/Device: src/auth/device.rs. SpentOnce and Guesses are about many requests; a claim, which is no
--   transaction, is there its statements, each a step of its own.
-- - Auth/UserCode: the codes that src/auth/device.rs draws, shows and reads, and Typed what is typed for
--   one.
-- - Ai/Budget: src/routes/ai/budget.rs. Charges is about many calls in a row.
-- - Prelude and Json carry what the others share. Tests holds the theorems at concrete inputs.
--
-- How the code is read. An `i32` or `i64` is an integer and a `usize` a number, with saturation and
-- ceilings written out. A fallible function returns `Result`, and what a transaction leaves of one is
-- `committed`. An error's message is reduced to the id that it names. A transaction, and a section
-- under a mutex, is one step on its state; so is a start of a pairing, and a charge of Gemini's
-- allowance, though its pipeline is not atomic over the two counters. The statements of a claim are
-- steps of their own. A statement does what Postgres documents: `ON CONFLICT DO UPDATE` refuses a
-- command that names a row twice, a todo item whose list is not there is refused, and `version + 1` is
-- refused past the largest `int4`. A connection that fails, and transactions that run at once, are left
-- out, but for the lost answers of Redis in Ai/Budget. The rows of a config download are listed in the
-- order of its query.
--
-- Fuel. `json_depth` walks with a unit of fuel for each node of the value, since each is popped once.
-- The client of Download asks for at most a given number of pages; each page that is cut short holds
-- a row, so one more than there are rows left will do.
--
-- The statements of a config upload apply the rows of their vectors in order, and refuse a row that
-- would break a key, or that the statement names twice.
--
-- Parameters: what serde derives for a payload, the length of a serialized value, the icons that
-- Gemini chose, the hash of a device code, the ids that uuid draws, parses or hashes, what else is
-- drawn at random, the lists that items may name, and the connections of Redis with what they answer.
--
-- Not modelled: the grocery tables, the upload of drawings, the other downloads, the handler's three
-- futures and its status endpoint, fan-out and streams over Redis, sessions and tokens, the routes for
-- lists, devices and users, the reaping jobs, and logging, metrics and wiring.
pub mod Prelude
pub mod Json
pub mod Errors
pub mod Sync
pub mod Ai
pub mod Auth
pub mod Tests
