-- ===== src/Sync/Config/ItemsAlone.antt =====
-- The flat form of an upload of configs (src/routes/sync/config.rs), one item at a time.
use teddy_fyi_api_rust.Prelude.{String, none, some, List, [], ◌∷◌, if◌then◌else◌}
use teddy_fyi_api_rust.Errors.{Result, ok, ◌>>=◌}
use teddy_fyi_api_rust.Sync.Types.{ConfigSyncItem}
use teddy_fyi_api_rust.Sync.Deletes.{ack_unsynced_delete}
use teddy_fyi_api_rust.Sync.Config.Statements.{ConfigRequest}
use teddy_fyi_api_rust.Sync.Config.Batch.{ConfigTarget, row_for_uncached}
use teddy_fyi_api_rust.Sync.Config.Resolve.{resolve_config_target_uncached}
use teddy_fyi_api_rust.Sync.Config.Buffer.{delete_kind, acknowledge}
use teddy_fyi_api_rust.Sync.Config.Process.{Uploader}
use teddy_fyi_api_rust.Sync.Config.Alone.{Alone, in_place_alone, land_alone, resolve_alone}
use teddy_fyi_api_rust.Sync.Config.SyncItems.{is_delete, item_data, also_adopted}

module _ (new_v4 : ConfigSyncItem → String) (who : Uploader) where
  abbrev req : ConfigRequest
  req = who.request

  unfoldable pub delete_item_alone : ConfigSyncItem → String → Alone → Result Alone
  unfolding row_for_uncached acknowledge ack_unsynced_delete in_place_alone
  delete_item_alone item device a =
      elim (row_for_uncached req.user_id item.id (some device) a.rows) [
        | none ↦ ok (record a { told = acknowledge item.id (ack_unsynced_delete item.id) a.told })
        | some row ↦ in_place_alone who delete_kind item.id item.id device row a
      ]

  unfoldable pub upsert_item_alone : ConfigSyncItem → String → ConfigTarget → Alone → Result Alone
  unfolding land_alone item_data also_adopted
  upsert_item_alone item device target a = do
    written ← land_alone who item.id (item_data item) device target a
    ok (record written { told = also_adopted target.new_id item.id written.told })

  unfoldable pub store_item_alone : ConfigSyncItem → String → Alone → Result Alone
  unfolding is_delete delete_item_alone upsert_item_alone resolve_config_target_uncached
  store_item_alone item device a =
      if is_delete item
      then delete_item_alone item device a
      else upsert_item_alone item device
          (resolve_config_target_uncached (new_v4 item) req.user_id device item.id item.key a.rows)
          a

  unfoldable pub item_alone : ConfigSyncItem → Alone → Result Alone
  unfolding resolve_alone store_item_alone
  item_alone item a = do
    resolved ← resolve_alone who item.id item.device_uuid a
    store_item_alone item resolved.0 resolved.1

  unfoldable pub items_alone : List ConfigSyncItem → Alone → Result Alone
  unfolding item_alone
  items_alone [] a = ok a
  items_alone (item ∷ items) a = do a' ← item_alone item a; items_alone items a'
