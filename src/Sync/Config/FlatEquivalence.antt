-- ===== src/Sync/Config/FlatEquivalence.antt =====
-- The flat form of an upload of configs (src/routes/sync/config.rs), with its prefetch and its runs,
-- against its items one at a time.
use teddy_fyi_api_rust.Prelude.{◌≡◌, refl, ap, ◌∙◌, subst, String, List, [], ◌∷◌, map}
use teddy_fyi_api_rust.Errors.{committed}
use teddy_fyi_api_rust.Sync.Types.{ConfigSyncItem}
use teddy_fyi_api_rust.Sync.Batching.{empty_run, clear}
use teddy_fyi_api_rust.Sync.Devices.{Device}
use teddy_fyi_api_rust.Sync.Devices.Registered.{IsSteady}
use teddy_fyi_api_rust.Sync.Paging.Fetch.{ConfigRow}
use teddy_fyi_api_rust.Sync.Config.Statements.{ConfigRequest}
use teddy_fyi_api_rust.Sync.Config.Loaded.{IsKeyed}
use teddy_fyi_api_rust.Sync.Config.Cached.{load-Sound}
use teddy_fyi_api_rust.Sync.Config.Buffer.{Told, Uploading}
use teddy_fyi_api_rust.Sync.Config.Process.{Uploader}
use teddy_fyi_api_rust.Sync.Config.Alone.{Alone}
use teddy_fyi_api_rust.Sync.Config.SyncItems.{
  item_devices, process_config_sync_item, process_items, begin_items, process_config_sync_items,
}
use teddy_fyi_api_rust.Sync.Config.ItemsAlone.{item_alone, items_alone}
use teddy_fyi_api_rust.Sync.Config.Tracks.{IsAt, IsDoomed, no_writes-Tracks}
use teddy_fyi_api_rust.Sync.Config.Doom.{Dead, Dead-bind}
use teddy_fyi_api_rust.Sync.Config.Branches.{Agree, set}
use teddy_fyi_api_rust.Sync.Config.Finish.{outcome, finish, bind-Alike, settled}
use teddy_fyi_api_rust.Sync.Config.Items.{item-Dead, item-Alike}

module _ (new_v4 : ConfigSyncItem → String) (who : Uploader) where
  abbrev req : ConfigRequest
  req = who.request

  items-Dead :
      (registered : List String) (items : List ConfigSyncItem) (s : Uploading)
      → IsDoomed req s
      → Dead req (process_items new_v4 who registered items s)
  unfolding process_items
  items-Dead registered [] s d = d
  items-Dead registered (i ∷ is) s d =
      Dead-bind req (process_config_sync_item new_v4 who registered i s)
        (process_items new_v4 who registered is) (item-Dead new_v4 who registered i s d)
        (items-Dead registered is)

  module _ (candidates : List String) (ds : List Device) where
    items-Alike :
        (items : List ConfigSyncItem) (s : Uploading) (a : Alone)
        → IsAt req s a.rows
        → s.told ≡ a.told
        → IsSteady ds who.device_rule a.told.devices
        → Agree who candidates ds
            (process_items new_v4 who (set who candidates ds) items s)
            (items_alone new_v4 who items a)
    unfolding process_items items_alone
    items-Alike [] s a at told steady = (at, told, steady)
    items-Alike (i ∷ is) s a at told steady =
        bind-Alike who candidates ds
          (process_config_sync_item new_v4 who (set who candidates ds) i s)
          (item_alone new_v4 who i a) (process_items new_v4 who (set who candidates ds) is)
          (items_alone new_v4 who is)
          (subst
            (λ t.
              Agree who candidates ds
                (process_config_sync_item new_v4 who (set who candidates ds) i s)
                (item_alone new_v4 who i record { rows = a.rows; told = t }))
            told
            (item-Alike new_v4 who candidates ds i s a.rows at
              (λ h. ap (λ t. t.devices) told ∙ steady h)))
          (items-Alike is) (items-Dead (set who candidates ds) is)

  -- From a table that keeps both of its keys, the flat form of an upload of configs, with its one
  -- prefetch, its runs of buffered writes and its set of known devices, leaves the rows, registers the
  -- devices and gives the acknowledgements that its items do one at a time, each by statements of its
  -- own; and it fails where they do.
  pub process_config_sync_items-items_alone :
      (items : List ConfigSyncItem) (rows : List ConfigRow) (told : Told)
      → IsKeyed rows
      → committed (outcome (process_config_sync_items new_v4 who items rows told))
        ≡ committed (items_alone new_v4 who items record { rows = rows; told = told })
  unfolding process_config_sync_items begin_items clear empty_run finish
  process_config_sync_items-items_alone items rows told keyed =
      let candidates = item_devices items in
      let s = begin_items new_v4 who items rows told in
      let a : Alone = record { rows = rows; told = told } in
      settled who candidates told.devices
        (process_items new_v4 who (set who candidates told.devices) items s)
        (items_alone new_v4 who items a)
        (items-Alike candidates told.devices items s a
          (no_writes-Tracks req s.batch s.runs rows
            (load-Sound req.user_id (map (λ i. i.id) items) (map (λ i. i.key) items) rows keyed))
          refl (λ _. refl))
