-- ===== src/Sync/Todo/Decide.antt =====
-- What one change of a todo table asks for (the loop body of src/routes/sync/todo/todo_lists.rs and
-- todo_items.rs up to its write). The parameters are what serde derives for the payload's type, and
-- what a processor does to an item before it is written.
use teddy_fyi_api_rust.Prelude.{
  String, Bool, true, false, Option, none, some, List, [], ◌∷◌, ◌&&◌, str_eq, if◌then◌else◌,
}
use teddy_fyi_api_rust.Prelude.Int.{ℤ}
use teddy_fyi_api_rust.Json.{Value, is_null}
use teddy_fyi_api_rust.Errors.{Result, ok, err, forbidden, bad_request, ◌>>=◌}
use teddy_fyi_api_rust.Sync.Versioning.{advance_version, seed_version}
use teddy_fyi_api_rust.Sync.Types.{delete, is_update, ChangeDelta}
use teddy_fyi_api_rust.Sync.Todo.Table.{Row, Table, Upsert}

pub data WriteKind : Type 0 where
  upsert version_bump delete_kind : WriteKind

-- `PartialEq` of the kinds.
unfoldable pub same_kind : WriteKind → WriteKind → Bool
same_kind upsert upsert = true
same_kind version_bump version_bump = true
same_kind delete_kind delete_kind = true
same_kind _ _ = false

-- A payload as it was deserialized: the fields that the processor reads or writes.
pub record Item (C : Type 0) : Type 0 where
  pub id : String
  pub columns : C
  pub created_at : ℤ
  pub version : ℤ
  pub is_deleted : Bool

pub data Write (C : Type 0) : Type 0 where
  put : Upsert C → Write C
  bump : String → ℤ → Write C
  remove : String → Write C

unfoldable pub kind_of : {C : Type 0} → Write C → WriteKind
kind_of (put u) = upsert
kind_of (bump id v) = version_bump
kind_of (remove id) = delete_kind

unfoldable pub target : {C : Type 0} → Write C → String
target (put u) = u.id
target (bump id v) = id
target (remove id) = id

-- What one change asks for, decided from the rows read before the loop.
pub data Action (C : Type 0) : Type 0 where
  nothing : Action C
  -- the row as the server holds it goes back to the client
  echo : Row C → Action C
  acknowledge : ℤ → Action C
  write : Write C → Action C

-- `row.user_id.as_deref() == Some(user_id)`
unfoldable pub owns : {C : Type 0} → String → Row C → Bool
owns user row = elim row.user_id [ none ↦ false | some owner ↦ str_eq owner user ]

-- `existing_map`: the rows that the changes name, as they were when the loop began.
unfoldable pub existing_map : {C : Type 0} → List ChangeDelta → Table C → Table C
existing_map [] t id = none
existing_map (change ∷ changes) t id =
    if str_eq id change.id then t id else existing_map changes t id

-- `change.data.is_none() || change.data is null`
unfoldable pub has_no_data : ChangeDelta → Bool
unfolding is_null
has_no_data change = elim change.payload [ none ↦ true | some v ↦ is_null v ]

module _ {C : Type 0} (from_value : Value → Option (Item C))
    (prepare : ChangeDelta → Item C → Item C × String) (user : String) where
  -- The version of an upsert: the server's row decides, or the client seeds a new one.
  unfoldable pub next_version : ChangeDelta → Item C → Option (Row C) → Result ℤ
  next_version change item none = seed_version change.id item.version
  next_version change item (some row) =
      if owns user row then advance_version change.id row.version else err (forbidden item.id)

  unfoldable pub decide_upsert : ChangeDelta → Option (Row C) → Option (Item C) → Result (Action C)
  unfolding next_version
  decide_upsert change old none = err (bad_request change.id)
  decide_upsert change old (some item) = do
    let prepared = prepare change item
    version ← next_version change prepared.0 old
    ok (
        write (
          put (record {
            id = prepared.0.id;
            columns = prepared.0.columns;
            created_at = prepared.0.created_at;
            version = version;
            is_deleted = prepared.0.is_deleted;
            updated_by = prepared.1;
          })))

  -- An update with no data asks for the row.
  unfoldable pub decide_need_update : ChangeDelta → Option (Row C) → Result (Action C)
  decide_need_update change none = ok nothing
  decide_need_update change (some row) =
      if owns user row then ok (echo row) else err (forbidden change.id)

  unfoldable pub decide_bump : ChangeDelta → Option (Row C) → Result (Action C)
  decide_bump change none = ok nothing
  decide_bump change (some row) =
      if owns user row
      then (do version ← advance_version change.id row.version; ok (write (bump change.id version)))
      else err (forbidden change.id)

  -- A deleted row is acknowledged before its owner is looked at.
  unfoldable pub decide_delete : ChangeDelta → Option (Row C) → Result (Action C)
  decide_delete change none = ok (write (remove change.id))
  decide_delete change (some row) =
      if row.is_deleted
      then ok (acknowledge row.version)
      else if owns user row
      then ok (write (remove change.id))
      else err (forbidden change.id)

  -- The branch for inserts and updates.
  unfoldable pub decide_write : ChangeDelta → Option (Row C) → Result (Action C)
  unfolding has_no_data decide_need_update decide_upsert decide_bump
  decide_write change old =
      if is_update change.operation_type && has_no_data change
      then decide_need_update change old
      else elim change.payload [
        | some v ↦ decide_upsert change old (from_value v)
        | none ↦ if is_update change.operation_type then decide_bump change old else ok nothing
      ]

  unfoldable pub decide : Table C → ChangeDelta → Result (Action C)
  unfolding decide_write decide_delete
  decide existing change = elim change.operation_type [
    | delete ↦ decide_delete change (existing change.id)
    | _ ↦ decide_write change (existing change.id)
  ]
