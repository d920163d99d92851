-- ===== src/Sync/Config/Statements.antt =====
-- The table `configs` and the statements that src/routes/sync/config.rs writes to it with, for one row
-- each. The table is the list of its rows.
use teddy_fyi_api_rust.Prelude.{
  String, Bool, true, ◌&&◌, Option, none, some, List, [], ◌∷◌, map, str_eq, if◌then◌else◌,
}
use teddy_fyi_api_rust.Prelude.Int.{ℤ}
use teddy_fyi_api_rust.Sync.Paging.Fetch.{ConfigRow}

-- The account and the client that upload, and the server's one clock reading.
pub record ConfigRequest : Type 0 where
  pub user_id : String
  pub client_id : String
  pub server_ms : ℤ

-- What a write gives a row beside its id.
pub record ConfigWrite : Type 0 where
  pub device_uuid : String
  pub version : ℤ
  pub is_deleted : Bool
  pub key : String
  pub value : String

-- `fetch_optional`: the first row that a query finds.
unfoldable pub find : (ConfigRow → Bool) → List ConfigRow → Option ConfigRow
find p [] = none
find p (row ∷ rows) = if p row then some row else find p rows

-- `id = $1`
abbrev pub has_id : String → ConfigRow → Bool
has_id id row = str_eq row.id id

-- `id = $1 AND user_id = $2`
abbrev pub has_owned_id : String → String → ConfigRow → Bool
has_owned_id user id row = str_eq row.id id && str_eq row.user_id user

-- `id = $1 AND user_id = $2 AND device_uuid = $3`
abbrev pub has_device_id : String → String → String → ConfigRow → Bool
has_device_id user id device row = has_owned_id user id row && str_eq row.device_uuid device

-- `user_id = $1 AND device_uuid = $2 AND key = $3`
abbrev pub has_key : String → String → String → ConfigRow → Bool
has_key user device key row =
    str_eq row.user_id user && (str_eq row.device_uuid device && str_eq row.key key)

abbrev pub change_where : (ConfigRow → Bool) → (ConfigRow → ConfigRow) → ConfigRow → ConfigRow
change_where p f row = if p row then f row else row

module _ (req : ConfigRequest) where
  unfoldable pub inserted : String → ConfigWrite → ConfigRow
  inserted id w = record {
    id = id;
    user_id = req.user_id;
    device_uuid = w.device_uuid;
    client_uuid = req.client_id;
    version = w.version;
    is_deleted = w.is_deleted;
    last_modified = req.server_ms;
    sync_state = some "SYNCED";
    key = w.key;
    value = w.value;
  }

  unfoldable pub insert_config : String → ConfigWrite → List ConfigRow → List ConfigRow
  unfolding inserted
  insert_config id w rows = inserted id w ∷ rows

  -- `UPDATE ... SET id = $1, ... WHERE id = $11 AND user_id = $12`: the row keeps its account.
  unfoldable pub moved : String → ConfigWrite → ConfigRow → ConfigRow
  unfolding inserted
  moved new_id w row = record (inserted new_id w) { user_id = row.user_id }

  unfoldable pub update_config : String → String → ConfigWrite → List ConfigRow → List ConfigRow
  unfolding moved
  update_config id new_id w rows =
      map (change_where (has_owned_id req.user_id id) (moved new_id w)) rows

  -- `SET version, client_uuid, last_modified, sync_state = 'SYNCED'`
  unfoldable pub bumped_config : ℤ → ConfigRow → ConfigRow
  bumped_config version row = record row {
    version = version;
    client_uuid = req.client_id;
    last_modified = req.server_ms;
    sync_state = some "SYNCED";
  }

  unfoldable pub bump_config : String → String → ℤ → List ConfigRow → List ConfigRow
  unfolding bumped_config
  bump_config id device version rows =
      map (change_where (has_device_id req.user_id id device) (bumped_config version)) rows

  -- `SET is_deleted = TRUE, version, client_uuid, last_modified, sync_state = 'PENDING_DELETE'`
  unfoldable pub deleted_config : ℤ → ConfigRow → ConfigRow
  deleted_config version row = record row {
    is_deleted = true;
    version = version;
    client_uuid = req.client_id;
    last_modified = req.server_ms;
    sync_state = some "PENDING_DELETE";
  }

  unfoldable pub delete_config : String → String → ℤ → List ConfigRow → List ConfigRow
  unfolding deleted_config
  delete_config id device version rows =
      map (change_where (has_device_id req.user_id id device) (deleted_config version)) rows
