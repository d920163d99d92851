-- ===== src/Tests/Todo.antt =====
-- src/routes/sync/todo and src/routes/sync/versioning.rs at concrete inputs.
use teddy_fyi_api_rust.Prelude.{
  ℕ, ◌≡◌, ◌≢◌, refl, String, false, Option, none, some, List, [], ◌∷◌, str_eq, arith, if◌then◌else◌,
  true, Bool, ◌+◌, ◌≤◌, ◌<◌, ◌⊎◌,
}
use teddy_fyi_api_rust.Prelude.Int.{pos, ◌≤ℤ◌, ◌+ℤ◌}
use teddy_fyi_api_rust.Json.{Value, string, is_null}
use teddy_fyi_api_rust.Errors.{Result, ok, err, committed}
use teddy_fyi_api_rust.Sync.Versioning.{seed_version, advance_version, saturating_add}
use teddy_fyi_api_rust.Sync.Todo.InTurn.{after_requests, OwnRow, Readable, updates_in_turn}
use teddy_fyi_api_rust.Sync.Types.{ChangeDelta, insert, update, delete, synced, is_update}
use teddy_fyi_api_rust.Sync.Batching.{needs_flush, empty_run, record_write, clear}
use teddy_fyi_api_rust.Sync.Deletes.{ack_unsynced_delete}
use teddy_fyi_api_rust.Sync.Todo.Pending.{
  flush, empty_pending, patch_status, reported_version, set_version,
}
use teddy_fyi_api_rust.Sync.Todo.Table.{
  Row, Table, Caller, Request, with_references, bump_row, bump_rows, contains, delete_row, deleted,
  deleted_version, dangles, has_repeat, insert_on_conflict, overflows, row_overflows, soft_delete,
  upsert_row, upsert_rows, written,
}
use teddy_fyi_api_rust.Sync.Todo.Decide.{
  Item, decide, write, bump, owns, existing_map, same_kind, kind_of, decide_bump, decide_delete,
  decide_need_update, decide_upsert, decide_write, has_no_data, next_version, target,
}
use teddy_fyi_api_rust.Sync.Todo.Process.{
  Outcome, process_changes, run_changes, perform, buffer, start, push, flush_run, settle,
}
use teddy_fyi_api_rust.Sync.Todo.OneByOne.{process_one_by_one}
use teddy_fyi_api_rust.Sync.Todo.Rows.{AllChanges, NamesItself}
use teddy_fyi_api_rust.Sync.Todo.Lists.{TodoListColumns}
use teddy_fyi_api_rust.Sync.Todo.Items.{TodoColumns, process_todo_changes, bulk_takes_no_icon}
use teddy_fyi_api_rust.Sync.Todo.Equivalence.{process_changes_one_by_one}
use teddy_fyi_api_rust.Sync.Todo.Ownership.{foreign_row_kept, rows_survive}
use teddy_fyi_api_rust.Sync.Todo.Faults.{
  no_version_bump, upsert_takes_over, OwnUpdate, updates_share_version,
}

-- A payload that is a text stands for the list of that id.
abbrev parse : Value → Option (Item TodoListColumns)
parse (string s) = some (record {
  id = s;
  columns = record { name = "renamed"; color_hex = "#ffffff" };
  created_at = pos 50;
  version = pos 3;
  is_deleted = false;
})
parse _ = none

abbrev parse_todo : Value → Option (Item TodoColumns)
parse_todo (string s) = some (record {
  id = s;
  columns = record {
    title = "milk";
    is_completed = false;
    position = pos 0;
    scheduled_date = none;
    recurrence_rule = none;
    scheduled_at = pos 0;
    parent_id = none;
    is_daily = false;
    due_date = none;
    description = none;
    list_id = none;
    priority = pos 0;
    icon = none;
  };
  created_at = pos 50;
  version = pos 3;
  is_deleted = false;
})
parse_todo _ = none

abbrev ada : Caller
ada = record { user_id = "ada"; client_id = "tablet"; server_timestamp = pos 100 }

abbrev request : Request TodoListColumns
request = with_references ada (λ columns. true)

abbrev row_of : String → ℕ → Row TodoListColumns
row_of owner version = record {
  user_id = some owner;
  columns = record { name = "old"; color_hex = "#000000" };
  created_at = pos 10;
  sync_state = "SYNCED";
  version = pos version;
  is_deleted = false;
  updated_at = pos 20;
  updated_by_client = none;
}

-- ada owns "a" and "b", bob owns "z".
abbrev table : Table TodoListColumns
table id =
    if str_eq id "a"
    then some (row_of "ada" 4)
    else if str_eq id "b"
    then some (row_of "ada" 7)
    else if str_eq id "z"
    then some (row_of "bob" 9)
    else none

abbrev rename : String → ChangeDelta
rename id = record { id = id; operation_type = update; version = pos 1; payload = some (string id) }

abbrev drop : String → ChangeDelta
drop id = record { id = id; operation_type = delete; version = pos 1; payload = none }

-- An update, a delete of another row, one that the server never had, and an update of a deleted row.
abbrev changes : List ChangeDelta
changes = rename "a" ∷ drop "b" ∷ drop "n" ∷ rename "b" ∷ []

abbrev prepare : ChangeDelta → Item TodoListColumns → Item TodoListColumns × String
prepare change item = (item, "tablet")

abbrev outcome_of : Result (Outcome TodoListColumns) → Outcome TodoListColumns
outcome_of (ok o) = o
outcome_of (err e) = record {
  table = λ id. none;
  success_ids = [];
  upload_status = [];
  remote_changes = [];
}

run_statuses :
    (outcome_of (process_changes parse prepare request changes table)).upload_status
    ≡ synced "a" (pos 5) ∷ synced "b" (pos 8) ∷ synced "n" (pos 1) ∷ synced "b" (pos 8) ∷ []
unfolding process_changes run_changes decide is_update existing_map owns advance_version perform
    buffer needs_flush start empty_run push record_write same_kind kind_of flush_run flush is_null
    ◌+ℤ◌ clear ack_unsynced_delete decide_bump decide_delete decide_need_update decide_upsert
    decide_write has_no_data next_version target empty_pending patch_status reported_version
    set_version settle bump_row bump_rows contains delete_row deleted deleted_version has_repeat
    dangles insert_on_conflict overflows row_overflows soft_delete upsert_row upsert_rows written
    saturating_add seed_version
run_statuses = refl

abbrev outcome : Outcome TodoListColumns
outcome = outcome_of (process_changes parse prepare request changes table)

run_ok : process_changes parse prepare request changes table ≡ ok outcome
unfolding process_changes run_changes decide is_update existing_map owns advance_version perform
    buffer needs_flush start empty_run push record_write same_kind kind_of flush_run flush is_null
    ◌+ℤ◌ clear ack_unsynced_delete decide_bump decide_delete decide_need_update decide_upsert
    decide_write has_no_data next_version target empty_pending patch_status reported_version
    set_version settle bump_row bump_rows contains delete_row deleted deleted_version has_repeat
    dangles insert_on_conflict overflows row_overflows soft_delete upsert_row upsert_rows written
    saturating_add seed_version
run_ok = refl

names_itself : AllChanges (NamesItself parse prepare "ada") changes
names_itself = (
  λ v item p q. ground arith,
  (λ v item p q. ground arith, (λ v item p q. ground arith, (λ v item p q. ground arith, tt))),
)

process_changes_one_by_one_example :
    committed (process_changes parse prepare request changes table)
    ≡ committed (process_one_by_one parse prepare request changes table)
process_changes_one_by_one_example = process_changes_one_by_one parse prepare request changes table

foreign_row_kept_example : outcome.table "z" ≡ some (row_of "bob" 9)
unfolding owns
foreign_row_kept_example =
    foreign_row_kept parse prepare request table "z" (row_of "bob" 9) refl changes outcome refl
      names_itself run_ok

rows_survive_example :
    (r : Row TodoListColumns) × (outcome.table "b" ≡ some r)
    × (pos 7 ≤ℤ r.version)
    × (r.created_at ≡ pos 10)
rows_survive_example =
    rows_survive parse prepare request table "b" (row_of "ada" 7) refl changes outcome names_itself
      run_ok

-- A fresh id, with bob's row in the payload.
abbrev takeover : ChangeDelta
takeover = record {
  id = "fresh";
  operation_type = insert;
  version = pos 0;
  payload = some (string "z");
}

upsert_takes_over_example :
    (o : Outcome TodoListColumns) × (row : Row TodoListColumns) × (committed
        (process_changes parse prepare request (takeover ∷ []) table)
      ≡ some o)
    × (o.table "z" ≡ some row)
    × (row.user_id ≡ some "ada")
    × (row.columns ≡ record { name = "renamed"; color_hex = "#ffffff" })
unfolding seed_version
upsert_takes_over_example =
    upsert_takes_over parse prepare request table takeover (string "z")
      (record {
        id = "z";
        columns = record { name = "renamed"; color_hex = "#ffffff" };
        created_at = pos 50;
        version = pos 3;
        is_deleted = false;
      })
      (row_of "bob" 9) refl refl refl refl refl refl refl

no_version_bump_example :
    decide parse prepare "ada" table
      (record { id = "a"; operation_type = update; version = pos 1; payload = none })
    ≢ ok (write (bump "a" (pos 5)))
no_version_bump_example =
    no_version_bump parse prepare request table
      (record { id = "a"; operation_type = update; version = pos 1; payload = none }) "a" (pos 5)

abbrev no_lists : String → Bool
no_lists id = false

-- A row that refers to one which is not there is refused, and its batch with it.
dangling_refused :
    committed (
      process_changes parse prepare
        (with_references ada (λ columns. str_eq columns.name "old"))
        (rename "a" ∷ [])
        table)
    ≡ none
unfolding process_changes run_changes decide is_update existing_map owns advance_version perform
    buffer needs_flush start empty_run push record_write same_kind kind_of flush_run flush is_null
    ◌+ℤ◌ clear decide_need_update decide_upsert decide_write has_no_data next_version target
    empty_pending settle contains has_repeat dangles insert_on_conflict saturating_add
dangling_refused = refl

bulk_takes_no_icon_example :
    process_todo_changes parse_todo ada no_lists
      (λ id. some "🥛")
      (rename "m" ∷ rename "n" ∷ rename "o" ∷ [])
      (λ id. none)
    ≡ process_todo_changes parse_todo ada no_lists
        (λ id. none)
        (rename "m" ∷ rename "n" ∷ rename "o" ∷ [])
        (λ id. none)
bulk_takes_no_icon_example =
    bulk_takes_no_icon parse_todo ada no_lists (λ id. some "🥛")
      (rename "m" ∷ rename "n" ∷ rename "o" ∷ []) (λ id. none) (omega arith)

abbrev renamed : Item TodoListColumns
renamed = record {
  id = "a";
  columns = record { name = "renamed"; color_hex = "#ffffff" };
  created_at = pos 50;
  version = pos 3;
  is_deleted = false;
}

rename-OwnUpdate : OwnUpdate parse prepare request table (pos 5) (rename "a") renamed
unfolding is_null owns advance_version saturating_add ◌+ℤ◌
rename-OwnUpdate = record {
  value = string "a";
  row = row_of "ada" 4;
  is_an_update = refl;
  carries = refl;
  not_null = refl;
  reads = refl;
  held = refl;
  owned = refl;
  advances = refl;
  refers = refl;
}

updates_share_version_example :
    (o : Outcome TodoListColumns) × (committed
        (process_changes parse prepare request (rename "a" ∷ rename "a" ∷ []) table)
      ≡ some o)
    × (o.upload_status ≡ synced "a" (pos 5) ∷ synced "a" (pos 5) ∷ [])
updates_share_version_example =
    updates_share_version parse prepare request table (pos 5) (rename "a") (rename "a") renamed
      renamed refl rename-OwnUpdate rename-OwnUpdate

rename-Readable : Readable parse prepare request (rename "a") renamed
unfolding is_null
rename-Readable = record {
  value = string "a";
  is_an_update = refl;
  carries = refl;
  not_null = refl;
  reads = refl;
  names = refl;
  refers = refl;
}

table-OwnRow : OwnRow parse prepare request (rename "a") table 4
unfolding owns
table-OwnRow = record { row = row_of "ada" 4; held = refl; owned = refl; version = refl }

updates_in_turn_example :
    ((4 + 3 ≤ 2_000_000_000)
      × ((t' : Table TodoListColumns) × (after_requests parse prepare request (rename "a") 3 table
            ≡ some t')
          × OwnRow parse prepare request (rename "a") t' (4 + 3)))
    ⊎ ((2_000_000_000 < 4 + 3) × (after_requests parse prepare request (rename "a") 3 table ≡ none))
updates_in_turn_example =
    updates_in_turn parse prepare request (rename "a") renamed rename-Readable 3 4 table
      table-OwnRow (omega arith)
