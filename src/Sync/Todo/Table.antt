-- ===== src/Sync/Todo/Table.antt =====
-- The tables `todo_lists` and `todo_items`, and the statements that src/routes/sync/todo issues on
-- them. The columns that no code reads are one value of a type `C`: name and colour of a list; title,
-- dates, priority and so on of an item. A table is a function from the primary key.
use teddy_fyi_api_rust.Prelude.{
  String, Bool, true, false, not, Option, none, some, List, [], ◌∷◌, map, ◌||◌, str_eq,
  if◌then◌else◌,
}
use teddy_fyi_api_rust.Prelude.Int.{ℤ, pos, ◌+ℤ◌, leb_ℤ}
use teddy_fyi_api_rust.Errors.{Result, ok, err, database, DatabaseError}
use teddy_fyi_api_rust.Sync.Versioning.{max_i32}

pub record Row (C : Type 0) : Type 0 where
  pub user_id : Option String
  pub columns : C
  pub created_at : ℤ
  pub sync_state : String
  pub version : ℤ
  pub is_deleted : Bool
  pub updated_at : ℤ
  pub updated_by_client : Option String

abbrev pub Table : Type 0 → Type 0
Table C = String → Option (Row C)

-- One entry of the `up_*` column vectors.
pub record Upsert (C : Type 0) : Type 0 where
  pub id : String
  pub columns : C
  pub created_at : ℤ
  pub version : ℤ
  pub is_deleted : Bool
  pub updated_by : String

-- The authenticated user, its client, and the one clock reading of its request.
pub record Caller : Type 0 where
  pub user_id : String
  pub client_id : String
  pub server_timestamp : ℤ

-- The caller that writes to a table of columns `C`, and whether the rows that some columns refer to
-- are there: the foreign keys of the table, on tables that its statements do not write.
pub record Request (C : Type 0) : Type 0 where
  pub user_id : String
  pub client_id : String
  pub server_timestamp : ℤ
  pub references : C → Bool

abbrev pub with_references : {C : Type 0} → Caller → (C → Bool) → Request C
with_references caller references = record {
  user_id = caller.user_id;
  client_id = caller.client_id;
  server_timestamp = caller.server_timestamp;
  references = references;
}

-- Some row refers to one that is not there.
unfoldable pub dangles : {C : Type 0} → (C → Bool) → List (Upsert C) → Bool
dangles references [] = false
dangles references (u ∷ us) = not (references u.columns) || dangles references us

unfoldable pub contains : List String → String → Bool
contains [] id = false
contains (x ∷ xs) id = str_eq id x || contains xs id

unfoldable pub has_repeat : List String → Bool
has_repeat [] = false
has_repeat (x ∷ xs) = contains xs x || has_repeat xs

-- `version + 1` is out of range for an `int4` that holds the largest one.
unfoldable pub row_overflows : {C : Type 0} → Option (Row C) → Bool
row_overflows none = false
row_overflows (some row) = leb_ℤ max_i32 row.version

unfoldable pub overflows : {C : Type 0} → List String → Table C → Bool
unfolding row_overflows
overflows [] t = false
overflows (id ∷ ids) t = row_overflows (t id) || overflows ids t

module _ {C : Type 0} (req : Request C) where
  -- `INSERT ... ON CONFLICT (id) DO UPDATE SET ...`: every column but the id and `createdAt`.
  unfoldable pub written : Upsert C → Option (Row C) → Row C
  written u old = record {
    user_id = some req.user_id;
    columns = u.columns;
    created_at = elim old [ none ↦ u.created_at | some row ↦ row.created_at ];
    sync_state = "SYNCED";
    version = u.version;
    is_deleted = u.is_deleted;
    updated_at = req.server_timestamp;
    updated_by_client = some u.updated_by;
  }

  unfoldable pub upsert_row : Upsert C → Table C → Table C
  unfolding written
  upsert_row u t id = if str_eq id u.id then some (written u (t id)) else t id

  unfoldable pub upsert_rows : List (Upsert C) → Table C → Table C
  unfolding upsert_row
  upsert_rows [] t = t
  upsert_rows (u ∷ us) t = upsert_rows us (upsert_row u t)

  -- One command that names a row twice, or that leaves a reference dangling, is refused by the
  -- database.
  unfoldable pub insert_on_conflict : List (Upsert C) → Table C → Result (Table C)
  unfolding upsert_rows contains has_repeat dangles
  insert_on_conflict us t =
      if has_repeat (map (λ u. u.id) us)
      then err (database DatabaseError.other)
      else if dangles req.references us
      then err (database DatabaseError.other)
      else ok (upsert_rows us t)

  bumped : ℤ → Row C → Row C
  bumped version row = record row {
    version = version;
    updated_at = req.server_timestamp;
    updated_by_client = some req.client_id;
    sync_state = "SYNCED";
  }

  -- `UPDATE ... SET version = v.version, ... WHERE id = v.id`
  unfoldable pub bump_row : String × ℤ → Table C → Table C
  unfolding bumped
  bump_row (key, version) t id =
      if str_eq id key
      then elim (t id) [ none ↦ none | some row ↦ some (bumped version row) ]
      else t id

  unfoldable pub bump_rows : List (String × ℤ) → Table C → Table C
  unfolding bump_row
  bump_rows [] t = t
  bump_rows (b ∷ bs) t = bump_rows bs (bump_row b t)

  unfoldable pub deleted : Row C → Row C
  unfolding ◌+ℤ◌
  deleted row = record row {
    is_deleted = true;
    version = row.version +ℤ pos 1;
    updated_at = req.server_timestamp;
    updated_by_client = some req.client_id;
  }

  unfoldable pub delete_row : Option (Row C) → Option (Row C)
  unfolding deleted
  delete_row none = none
  delete_row (some row) = some (deleted row)

  -- `UPDATE ... SET is_deleted = TRUE, version = version + 1, ... WHERE id = ANY(ids)`
  unfoldable pub soft_delete : List String → Table C → Result (Table C)
  unfolding contains delete_row overflows
  soft_delete ids t =
      if overflows ids t
      then err (database DatabaseError.other)
      else ok (λ id. if contains ids id then delete_row (t id) else t id)

  -- The `RETURNING id, version` of that statement, as the map that the caller makes of it.
  unfoldable pub deleted_version : Table C → String → Option ℤ
  unfolding deleted
  deleted_version t id = elim (t id) [ none ↦ none | some row ↦ some (deleted row).version ]
