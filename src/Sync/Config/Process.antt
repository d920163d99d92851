-- ===== src/Sync/Config/Process.antt =====
-- `process_config_changes` (src/routes/sync/config.rs): the upload of a batch of config changes. What
-- serde and uuid do with a payload, an id or a draw is a parameter.
use teddy_fyi_api_rust.Prelude.{
  ℕ, String, Bool, true, ◌&&◌, Option, none, some, List, [], ◌∷◌, ◌++◌, if◌then◌else◌,
}
use teddy_fyi_api_rust.Prelude.Int.{ℤ}
use teddy_fyi_api_rust.Json.{Value, is_null}
use teddy_fyi_api_rust.Errors.{Result, ok, err, bad_request, ◌>>=◌}
use teddy_fyi_api_rust.Sync.Types.{delete, is_update, DeviceChangeDelta}
use teddy_fyi_api_rust.Sync.Versioning.{advance_version, seed_version}
use teddy_fyi_api_rust.Sync.Deletes.{ack_unsynced_delete}
use teddy_fyi_api_rust.Sync.Batching.{contains_id}
use teddy_fyi_api_rust.Sync.Devices.{Device, ItemDeviceRule, resolve_item_device_cached}
use teddy_fyi_api_rust.Sync.Paging.Fetch.{ConfigRow}
use teddy_fyi_api_rust.Sync.Config.Statements.{ConfigRequest, ConfigWrite}
use teddy_fyi_api_rust.Sync.Config.Batch.{ConfigTarget, row_for, note_version_bump}
use teddy_fyi_api_rust.Sync.Config.Resolve.{resolve_config_target}
use teddy_fyi_api_rust.Sync.Config.Pending.{ConfigPending, InPlace}
use teddy_fyi_api_rust.Sync.Config.Buffer.{
  ConfigKind, version_bump, delete_kind, ConfigData, Uploading, id_token, key_token, record_all,
  any_needs_flush, acknowledge, echo, flush_if, write_config,
}

-- Which branch of the loop a change takes.
pub data ConfigRoute : Type 0 where
  ignored refused_payload row_asked bump_version soft_delete : ConfigRoute
  upserted : ConfigData → ConfigRoute

unfoldable pub lacks_data : DeviceChangeDelta → Bool
unfolding is_null
lacks_data change = elim change.payload [ none ↦ true | some v ↦ is_null v ]

unfoldable pub route_upsert : (Value → Option ConfigData) → DeviceChangeDelta → ConfigRoute
unfolding lacks_data is_update
route_upsert from_value change =
    if is_update change.operation_type && lacks_data change
    then row_asked
    else elim change.payload [
      | some v ↦ elim (from_value v) [ none ↦ refused_payload | some item ↦ upserted item ]
      | none ↦ if is_update change.operation_type then bump_version else ignored
    ]

unfoldable pub route : (Value → Option ConfigData) → DeviceChangeDelta → ConfigRoute
unfolding route_upsert
route from_value change = elim change.operation_type [
  | delete ↦ soft_delete
  | _ ↦ route_upsert from_value change
]

abbrev pub or_else : Option String → Option String → Option String
or_else none b = b
or_else (some a) b = some a

unfoldable pub next_config_version : String → ConfigTarget → ConfigData → Result ℤ
next_config_version change_id target item = elim target.existing [
  | some e ↦ advance_version change_id e.version
  | none ↦ seed_version change_id item.version
]

unfoldable pub config_write : String → ℤ → ConfigData → ConfigWrite
config_write device version item = record {
  device_uuid = device;
  version = version;
  is_deleted = item.is_deleted;
  key = item.key;
  value = item.value;
}

unfoldable pub with_devices : List Device → Uploading → Uploading
with_devices ds s = record s { told = record (s.told) { devices = ds } }

-- The entry of a write in place joins the vectors of its kind.
unfoldable pub push_in_place : ConfigKind → InPlace → ConfigPending → ConfigPending
push_in_place delete_kind entry p = record p { del = p.del ++ entry ∷ [] }
push_in_place _ entry p = record p { bump = p.bump ++ entry ∷ [] }

-- The account that uploads, under which rule its rows name their devices, and what it may read.
pub record Uploader : Type 0 where
  pub request : ConfigRequest
  pub device_rule : ItemDeviceRule
  pub device_filter : Option String
  pub max_devices : ℕ

unfoldable pub row_tokens : String → String → ConfigRow → List String
unfolding id_token key_token
row_tokens id device row = id_token id ∷ key_token device row.key ∷ []

unfoldable pub push_row :
    ConfigKind → String → String → String → ConfigRow → ℤ → Uploading → Uploading
unfolding record_all row_tokens acknowledge push_in_place
push_row kind change_id id device row version s = record s {
  pending =
      push_in_place kind record { id = id; version = version; device_uuid = device } s.pending;
  runs = record_all s.runs kind (row_tokens id device row);
  told = acknowledge change_id version s.told;
}

-- What both forms of the upload share, for a change by its id and the row's.
module _ (who : Uploader) where
  -- A version bump or a soft delete of the row that was found.
  unfoldable pub write_in_place :
      ConfigKind → String → String → String → ConfigRow → Uploading → Result Uploading
  unfolding flush_if any_needs_flush row_tokens push_row note_version_bump
  write_in_place kind change_id id device row s = do
    version ← advance_version change_id row.version
    flushed ←
        flush_if who.request (any_needs_flush s.runs kind (row_tokens id device row))
          (record s { batch = note_version_bump s.batch device id row.key })
    ok (push_row kind change_id id device row version flushed)

  unfoldable pub land : String → ConfigData → String → ConfigTarget → Uploading → Result Uploading
  unfolding next_config_version write_config config_write acknowledge
  land change_id item device target s = do
    version ← next_config_version change_id target item
    written ← write_config who.request target (config_write device version item) s
    ok (record written { told = acknowledge change_id version written.told })

  unfoldable pub resolve_device :
      List String → String → Option String → Uploading → Result (String × Uploading)
  unfolding resolve_item_device_cached with_devices
  resolve_device registered change_id named s = do
    resolved ←
        resolve_item_device_cached who.max_devices registered who.device_rule who.request.user_id
          named change_id s.told.devices
    ok (resolved.0, with_devices resolved.1 s)

module _ (from_value : Value → Option ConfigData) (parse_or_hash_uuid : String → String)
    (new_v4 : DeviceChangeDelta → String) (who : Uploader) where
  abbrev req : ConfigRequest
  req = who.request

  unfoldable pub upsert : DeviceChangeDelta → ConfigData → String → Uploading → Result Uploading
  unfolding flush_if contains_id key_token resolve_config_target land
  upsert change item device s = do
    s' ← flush_if req (contains_id s.runs (key_token device item.key)) s
    land who change.id item device
        (resolve_config_target s'.batch (new_v4 change) req.user_id device
          (parse_or_hash_uuid change.id) item.key s'.rows)
        s'

  -- The loop body behind its first guard.
  unfoldable pub process_route :
      List String → DeviceChangeDelta → ConfigRoute → Uploading → Result Uploading
  unfolding row_for resolve_device upsert write_in_place echo acknowledge
  process_route registered change ignored s = ok s
  process_route registered change refused_payload s = err (bad_request change.id)
  process_route registered change row_asked s =
      elim (row_for s.batch req.user_id (parse_or_hash_uuid change.id) who.device_filter s.rows) [
        | none ↦ ok s
        | some row ↦ ok (record s { told = echo change.id row s.told })
      ]
  process_route registered change (upserted item) s = do
    resolved ←
        resolve_device who registered change.id (or_else change.device_uuid item.device_uuid) s
    upsert change item resolved.0 resolved.1
  process_route registered change bump_version s = do
    (device, s') ← resolve_device who registered change.id change.device_uuid s
    elim (row_for s'.batch req.user_id (parse_or_hash_uuid change.id) (some device) s'.rows) [
      | none ↦ ok s'
      | some row ↦
          write_in_place who version_bump change.id (parse_or_hash_uuid change.id) device row s'
    ]
  process_route registered change soft_delete s = do
    (device, s') ← resolve_device who registered change.id change.device_uuid s
    elim (row_for s'.batch req.user_id (parse_or_hash_uuid change.id) (some device) s'.rows) [
      | none ↦
          ok (record s' { told = acknowledge change.id (ack_unsynced_delete change.id) s'.told })
      | some row ↦
          write_in_place who delete_kind change.id (parse_or_hash_uuid change.id) device row s'
    ]

  unfoldable pub process_config_change :
      List String → DeviceChangeDelta → Uploading → Result Uploading
  unfolding flush_if contains_id id_token process_route route
  process_config_change registered change s = do
    s' ← flush_if req (contains_id s.runs (id_token (parse_or_hash_uuid change.id))) s
    process_route registered change (route from_value change) s'
