-- ===== src/Sync/Config/SyncItems.antt =====
-- `process_config_sync_items` (src/routes/sync/config.rs): the flat form of an upload of configs. What
-- uuid draws for an item is a parameter.
use teddy_fyi_api_rust.Prelude.{
  String, Bool, ◌||◌, none, some, List, [], ◌∷◌, ◌++◌, map, str_eq, if◌then◌else◌,
}
use teddy_fyi_api_rust.Errors.{Result, ok, ◌>>=◌}
use teddy_fyi_api_rust.Sync.Types.{ConfigSyncItem}
use teddy_fyi_api_rust.Sync.Deletes.{ack_unsynced_delete}
use teddy_fyi_api_rust.Sync.Batching.{empty_run, contains_id}
use teddy_fyi_api_rust.Sync.Devices.{registered_device_set}
use teddy_fyi_api_rust.Sync.Paging.Fetch.{ConfigRow}
use teddy_fyi_api_rust.Sync.Config.Statements.{ConfigRequest}
use teddy_fyi_api_rust.Sync.Config.Batch.{ConfigTarget, load, row_for}
use teddy_fyi_api_rust.Sync.Config.Resolve.{resolve_config_target}
use teddy_fyi_api_rust.Sync.Config.Pending.{no_writes}
use teddy_fyi_api_rust.Sync.Config.Buffer.{
  delete_kind, ConfigData, Told, Uploading, id_token, key_token, flush_if, acknowledge,
}
use teddy_fyi_api_rust.Sync.Config.Process.{Uploader, write_in_place, land, resolve_device}
use teddy_fyi_api_rust.Sync.Config.Changes.{found, has_writes}

unfoldable pub is_delete : ConfigSyncItem → Bool
is_delete item = item.is_deleted || str_eq item.sync_state "PENDING_DELETE"

unfoldable pub item_data : ConfigSyncItem → ConfigData
item_data item = record {
  device_uuid = item.device_uuid;
  version = item.version;
  is_deleted = item.is_deleted;
  key = item.key;
  value = item.value;
}

-- Where the server's id won, that row is named too.
unfoldable pub also_adopted : String → String → Told → Told
also_adopted new_id item_id told =
    if str_eq new_id item_id
    then told
    else record told { success_ids = told.success_ids ++ new_id ∷ [] }

unfoldable pub item_devices : List ConfigSyncItem → List String
item_devices [] = []
item_devices (item ∷ items) = found item.device_uuid ++ item_devices items

module _ (new_v4 : ConfigSyncItem → String) (who : Uploader) where
  abbrev req : ConfigRequest
  req = who.request

  unfoldable pub delete_item : ConfigSyncItem → String → Uploading → Result Uploading
  unfolding row_for acknowledge ack_unsynced_delete write_in_place
  delete_item item device s = elim (row_for s.batch req.user_id item.id (some device) s.rows) [
    | none ↦ ok (record s { told = acknowledge item.id (ack_unsynced_delete item.id) s.told })
    | some row ↦ write_in_place who delete_kind item.id item.id device row s
  ]

  unfoldable pub upsert_item : ConfigSyncItem → String → ConfigTarget → Uploading → Result Uploading
  unfolding land item_data also_adopted
  upsert_item item device target s = do
    written ← land who item.id (item_data item) device target s
    ok (record written { told = also_adopted target.new_id item.id written.told })

  -- The loop body behind its guards.
  unfoldable pub store_item : ConfigSyncItem → String → Uploading → Result Uploading
  unfolding is_delete delete_item upsert_item resolve_config_target
  store_item item device s =
      if is_delete item
      then delete_item item device s
      else upsert_item item device
          (resolve_config_target s.batch (new_v4 item) req.user_id device item.id item.key s.rows) s

  unfoldable pub process_config_sync_item :
      List String → ConfigSyncItem → Uploading → Result Uploading
  unfolding flush_if contains_id id_token key_token resolve_device store_item
  process_config_sync_item registered item s = do
    s' ← flush_if req (contains_id s.runs (id_token item.id)) s
    resolved ← resolve_device who registered item.id item.device_uuid s'
    landed ← flush_if req (contains_id resolved.1.runs (key_token resolved.0 item.key)) resolved.1
    store_item item resolved.0 landed

  unfoldable pub process_items : List String → List ConfigSyncItem → Uploading → Result Uploading
  unfolding process_config_sync_item
  process_items registered [] s = ok s
  process_items registered (item ∷ items) s = do
    s' ← process_config_sync_item registered item s
    process_items registered items s'

  unfoldable pub begin_items : List ConfigSyncItem → List ConfigRow → Told → Uploading
  unfolding load empty_run
  begin_items items rows told = record {
    batch = load req.user_id (map (λ i. i.id) items) (map (λ i. i.key) items) rows;
    pending = no_writes;
    runs = empty_run;
    rows = rows;
    told = told;
    broadcasts = [];
  }

  unfoldable pub process_config_sync_items :
      List ConfigSyncItem → List ConfigRow → Told → Result Uploading
  unfolding process_items begin_items item_devices has_writes flush_if registered_device_set
  process_config_sync_items items rows told =
      let registered =
        registered_device_set who.device_rule req.user_id (item_devices items) told.devices in
      do
        s ← process_items registered items (begin_items items rows told)
        flush_if req (has_writes s.pending) s
