-- ===== src/Sync/Todo/Process.antt =====
-- `process_todo_list_changes` and `process_todo_changes` (src/routes/sync/todo/todo_lists.rs,
-- todo_items.rs). Both are this loop, over the columns of their table.
use teddy_fyi_api_rust.Prelude.{String, Option, List, [], ◌∷◌, ◌++◌, if◌then◌else◌, length}
use teddy_fyi_api_rust.Prelude.Int.{pos}
use teddy_fyi_api_rust.Json.{Value}
use teddy_fyi_api_rust.Errors.{Result, ok, ◌>>=◌}
use teddy_fyi_api_rust.Sync.Types.{ChangeDelta, SuccessResult, synced}
use teddy_fyi_api_rust.Sync.Batching.{RunTracker, empty_run, needs_flush, record_write, clear}
use teddy_fyi_api_rust.Sync.Todo.Table.{Row, Table, Request}
use teddy_fyi_api_rust.Sync.Todo.Pending.{Pending, empty_pending, flush}
use teddy_fyi_api_rust.Sync.Todo.Decide.{
  WriteKind, upsert, version_bump, delete_kind, same_kind, Item, Write, put, bump, remove, kind_of,
  target, Action, nothing, echo, acknowledge, write, existing_map, decide,
}

-- The state of the loop. A row that is echoed is paired with the id that asked for it.
pub record Batch (C : Type 0) : Type 0 where
  pub table : Table C
  pub runs : RunTracker WriteKind
  pub pending : Pending C
  pub success_ids : List String
  pub upload_status : List SuccessResult
  pub remote_changes : List (String × Row C)

pub record Outcome (C : Type 0) : Type 0 where
  pub table : Table C
  pub success_ids : List String
  pub upload_status : List SuccessResult
  pub remote_changes : List (String × Row C)

module _ {C : Type 0} (req : Request C) where
  unfoldable pub flush_run : Batch C → Result (Batch C)
  flush_run b = do
    flushed ← flush req b.pending b.table b.upload_status
    ok (record b {
      table = flushed.0;
      runs = clear b.runs;
      pending = empty_pending;
      upload_status = flushed.1;
    })

  -- The write joins the run; a delete's version is a placeholder until the flush.
  unfoldable pub push : Batch C → String → Write C → Batch C
  push b change_id (put u) = record b {
    runs = record_write b.runs upsert u.id;
    pending = record (b.pending) { ups = b.pending.ups ++ u ∷ [] };
    success_ids = b.success_ids ++ change_id ∷ [];
    upload_status = b.upload_status ++ synced change_id u.version ∷ [];
  }
  push b change_id (bump id version) = record b {
    runs = record_write b.runs version_bump id;
    pending = record (b.pending) { bumps = b.pending.bumps ++ (id, version) ∷ [] };
    success_ids = b.success_ids ++ change_id ∷ [];
    upload_status = b.upload_status ++ synced change_id version ∷ [];
  }
  push b change_id (remove id) = record b {
    runs = record_write b.runs delete_kind id;
    pending = record (b.pending) { dels = b.pending.dels ++ (id, length b.upload_status) ∷ [] };
    success_ids = b.success_ids ++ change_id ∷ [];
    upload_status = b.upload_status ++ synced change_id (pos 0) ∷ [];
  }

  unfoldable pub buffer : Batch C → String → Write C → Result (Batch C)
  buffer b change_id w =
      if needs_flush same_kind b.runs (kind_of w) (target w)
      then (do b' ← flush_run b; ok (push b' change_id w))
      else ok (push b change_id w)

  unfoldable pub perform : Batch C → String → Action C → Result (Batch C)
  perform b change_id nothing = ok b
  perform b change_id (echo row) = ok (record b {
    success_ids = b.success_ids ++ change_id ∷ [];
    remote_changes = b.remote_changes ++ (change_id, row) ∷ [];
  })
  perform b change_id (acknowledge version) = ok (record b {
    success_ids = b.success_ids ++ change_id ∷ [];
    upload_status = b.upload_status ++ synced change_id version ∷ [];
  })
  perform b change_id (write w) = buffer b change_id w

  unfoldable pub start : Table C → Batch C
  start t = record {
    table = t;
    runs = empty_run;
    pending = empty_pending;
    success_ids = [];
    upload_status = [];
    remote_changes = [];
  }

  unfoldable pub settle : Batch C → Result (Outcome C)
  settle b = do
    flushed ← flush req b.pending b.table b.upload_status
    ok (record {
      table = flushed.0;
      success_ids = b.success_ids;
      upload_status = flushed.1;
      remote_changes = b.remote_changes;
    })

module _ {C : Type 0} (from_value : Value → Option (Item C))
    (prepare : ChangeDelta → Item C → Item C × String) (req : Request C) where
  unfoldable pub run_changes : Table C → List ChangeDelta → Batch C → Result (Outcome C)
  run_changes existing [] b = settle req b
  run_changes existing (change ∷ changes) b = do
    action ← decide from_value prepare req.user_id existing change
    b' ← perform req b change.id action
    run_changes existing changes b'

  unfoldable pub process_changes : List ChangeDelta → Table C → Result (Outcome C)
  process_changes changes t = run_changes (existing_map changes t) changes (start req t)
