-- ===== src/Sync/Todo/OneByOne.antt =====
-- The loop that the batched processors of src/routes/sync/todo stand for: every write is a statement
-- of its own, issued as soon as the change asks for it.
use teddy_fyi_api_rust.Prelude.{String, List, [], ◌∷◌, ◌++◌}
use teddy_fyi_api_rust.Prelude.Int.{ℤ}
use teddy_fyi_api_rust.Json.{Value}
use teddy_fyi_api_rust.Prelude.{Option}
use teddy_fyi_api_rust.Errors.{Result, ok, ◌>>=◌}
use teddy_fyi_api_rust.Sync.Types.{ChangeDelta, synced}
use teddy_fyi_api_rust.Sync.Todo.Table.{
  Table, Request, insert_on_conflict, bump_row, soft_delete, deleted_version,
}
use teddy_fyi_api_rust.Sync.Todo.Pending.{reported_version}
use teddy_fyi_api_rust.Sync.Todo.Decide.{
  Item, Write, put, bump, remove, Action, nothing, echo, acknowledge, write, existing_map, decide,
}
use teddy_fyi_api_rust.Sync.Todo.Process.{Outcome}

module _ {C : Type 0} (req : Request C) where
  -- The statement of one write, and the version that it reports.
  unfoldable pub write_now : Write C → Table C → Result (Table C × ℤ)
  write_now (put u) t = do t' ← insert_on_conflict req (u ∷ []) t; ok (t', u.version)
  write_now (bump id version) t = ok (bump_row req (id, version) t, version)
  write_now (remove id) t = do
    t' ← soft_delete req (id ∷ []) t
    ok (t', reported_version (deleted_version req t) id)

  unfoldable pub perform_now : Outcome C → String → Action C → Result (Outcome C)
  perform_now o change_id nothing = ok o
  perform_now o change_id (echo row) = ok (record o {
    success_ids = o.success_ids ++ change_id ∷ [];
    remote_changes = o.remote_changes ++ (change_id, row) ∷ [];
  })
  perform_now o change_id (acknowledge version) = ok (record o {
    success_ids = o.success_ids ++ change_id ∷ [];
    upload_status = o.upload_status ++ synced change_id version ∷ [];
  })
  perform_now o change_id (write w) = do
    now ← write_now w o.table
    ok (record o {
      table = now.0;
      success_ids = o.success_ids ++ change_id ∷ [];
      upload_status = o.upload_status ++ synced change_id now.1 ∷ [];
    })

  unfoldable pub begin : Table C → Outcome C
  begin t = record { table = t; success_ids = []; upload_status = []; remote_changes = [] }

module _ {C : Type 0} (from_value : Value → Option (Item C))
    (prepare : ChangeDelta → Item C → Item C × String) (req : Request C) where
  unfoldable pub one_by_one : Table C → List ChangeDelta → Outcome C → Result (Outcome C)
  one_by_one existing [] o = ok o
  one_by_one existing (change ∷ changes) o = do
    action ← decide from_value prepare req.user_id existing change
    o' ← perform_now req o change.id action
    one_by_one existing changes o'

  unfoldable pub process_one_by_one : List ChangeDelta → Table C → Result (Outcome C)
  process_one_by_one changes t = one_by_one (existing_map changes t) changes (begin req t)
