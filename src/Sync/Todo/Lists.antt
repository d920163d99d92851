-- ===== src/Sync/Todo/Lists.antt =====
-- `process_todo_list_changes` (src/routes/sync/todo/todo_lists.rs).
use teddy_fyi_api_rust.Prelude.{String, Bool, true, Option, List}
use teddy_fyi_api_rust.Prelude.Int.{ℤ}
use teddy_fyi_api_rust.Json.{Value}
use teddy_fyi_api_rust.Errors.{Result}
use teddy_fyi_api_rust.Sync.Types.{ChangeDelta}
use teddy_fyi_api_rust.Sync.Todo.Table.{Table, Caller, Request, with_references}
use teddy_fyi_api_rust.Sync.Todo.Decide.{Item}
use teddy_fyi_api_rust.Sync.Todo.Process.{Outcome, process_changes}

-- The columns of `todo_lists` that no code reads.
pub record TodoListColumns : Type 0 where
  pub name : String
  pub color_hex : String

-- `TodoListData`. The owner and the sync state that a client sends are not read.
pub record TodoListData : Type 0 where
  pub id : String
  pub name : String
  pub color_hex : String
  pub user_id : Option String
  pub created_at : ℤ
  pub sync_state : String
  pub version : ℤ
  pub is_deleted : Bool

unfoldable pub list_item : TodoListData → Item TodoListColumns
list_item d = record {
  id = d.id;
  columns = record { name = d.name; color_hex = d.color_hex };
  created_at = d.created_at;
  version = d.version;
  is_deleted = d.is_deleted;
}

-- A list is written as it was sent, by the client that sent it.
unfoldable pub prepare_list :
    String → ChangeDelta → Item TodoListColumns → Item TodoListColumns × String
prepare_list client_id change item = (item, client_id)

module _ (from_value : Value → Option (Item TodoListColumns)) (caller : Caller) where
  -- A list refers to no other table.
  abbrev req : Request TodoListColumns
  req = with_references caller (λ columns. true)

  unfoldable pub process_todo_list_changes :
      List ChangeDelta → Table TodoListColumns → Result (Outcome TodoListColumns)
  process_todo_list_changes changes t =
      process_changes from_value (prepare_list req.client_id) req changes t
