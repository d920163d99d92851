-- ===== src/Sync/Todo/Items.antt =====
-- `process_todo_changes` (src/routes/sync/todo/todo_items.rs), and which items take an icon that the
-- server chose (src/routes/sync/todo/icons.rs).
use teddy_fyi_api_rust.Prelude.{
  true, ℕ, ◌≤◌, ◌≡◌, ap, sym, ◌∙◌, fun_ext, String, Bool, not, ◌&&◌, Option, none, some, List,
  str_eq, ltb, length, if◌then◌else◌, arith,
}
use teddy_fyi_api_rust.Prelude.Int.{ℤ}
use teddy_fyi_api_rust.Prelude.Strings.{is_blank}
use teddy_fyi_api_rust.Json.{Value}
use teddy_fyi_api_rust.Errors.{Result}
use teddy_fyi_api_rust.Sync.Types.{ChangeDelta}
use teddy_fyi_api_rust.Sync.Todo.Table.{Table, Caller, Request, with_references}
use teddy_fyi_api_rust.Sync.Todo.Decide.{Item}
use teddy_fyi_api_rust.Sync.Todo.Process.{Outcome, process_changes}

-- The columns of `todo_items` that a client sends and the server keeps.
pub record TodoColumns : Type 0 where
  pub title : String
  pub is_completed : Bool
  pub position : ℤ
  pub scheduled_date : Option String
  pub recurrence_rule : Option String
  pub scheduled_at : ℤ
  pub parent_id : Option String
  pub is_daily : Bool
  pub due_date : Option ℤ
  pub description : Option String
  pub list_id : Option String
  pub priority : ℤ
  pub icon : Option String

unfoldable pub wants_server_icon : TodoColumns → ℕ → Bool
wants_server_icon item batch_len =
    ltb batch_len 3
    && str_eq (elim item.icon [ none ↦ "" | some icon ↦ icon ]) ""
    && not (is_blank item.title)

-- An item that wants an icon, and has one resolved for its change, is written with it, in the name of
-- the server.
unfoldable pub take_icon :
    (String → Option String)
    → String
    → ℕ
    → ChangeDelta
    → Item TodoColumns
    → Item TodoColumns × String
unfolding wants_server_icon
take_icon resolved_icons client_id batch_len change item =
    if wants_server_icon item.columns batch_len
    then elim (resolved_icons change.id) [
      | some icon ↦
          (record item { columns = record (item.columns) { icon = some icon } }, "SERVER-AI")
      | none ↦ (item, client_id)
    ]
    else (item, client_id)

module _ (from_value : Value → Option (Item TodoColumns)) (caller : Caller)
    (lists : String → Bool) where
  -- `"listId" REFERENCES "todo_lists"("id")`: `lists` are the ids that `todo_lists` holds.
  abbrev req : Request TodoColumns
  req =
      with_references caller (λ columns. elim columns.list_id [ none ↦ true | some id ↦ lists id ])

  unfoldable pub process_todo_changes :
      (String → Option String) → List ChangeDelta → Table TodoColumns → Result (Outcome TodoColumns)
  process_todo_changes resolved_icons changes t =
      process_changes from_value (take_icon resolved_icons req.client_id (length changes)) req
        changes t

  take_icon-bulk :
      (icons : String → Option String) (n : ℕ) (change : ChangeDelta) (item : Item TodoColumns)
      → 3 ≤ n
      → take_icon icons req.client_id n change item ≡ (item, req.client_id)
  unfolding take_icon
  take_icon-bulk icons n change item h = ground arith

  -- A batch of three changes or more is processed as if no icon had been resolved, whatever the map
  -- of resolved icons holds.
  pub bulk_takes_no_icon :
      (icons : String → Option String) (changes : List ChangeDelta) (t : Table TodoColumns)
      → 3 ≤ length changes
      → process_todo_changes icons changes t ≡ process_todo_changes (λ id. none) changes t
  unfolding process_todo_changes
  bulk_takes_no_icon icons changes t h =
      ap (λ p. process_changes from_value p req changes t)
        (fun_ext λ c. fun_ext λ i.
          take_icon-bulk icons (length changes) c i h
          ∙ sym (take_icon-bulk (λ id. none) (length changes) c i h))
