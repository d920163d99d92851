-- ===== src/Sync/Config/Items.antt =====
-- One item of the flat form of an upload of configs (src/routes/sync/config.rs), with the prefetch and the
-- run, against the same item on its own.
use teddy_fyi_api_rust.Prelude.{
  ◌≡◌, refl, ap, ◌∙◌, subst, String, false, none, some, List, inl, inr, Bool-cases, str_eq,
}
use teddy_fyi_api_rust.Errors.{Result, ok, err, ◌>>=◌}
use teddy_fyi_api_rust.Sync.Types.{ConfigSyncItem}
use teddy_fyi_api_rust.Sync.Batching.{contains_id}
use teddy_fyi_api_rust.Sync.Devices.{Device}
use teddy_fyi_api_rust.Sync.Devices.Registered.{IsSteady}
use teddy_fyi_api_rust.Sync.Paging.Fetch.{ConfigRow}
use teddy_fyi_api_rust.Sync.Config.Statements.{ConfigRequest, find, has_id}
use teddy_fyi_api_rust.Sync.Config.Batch.{row_for, row_for_uncached}
use teddy_fyi_api_rust.Sync.Config.Free.{resolve_config_target_uncached-FreeIf}
use teddy_fyi_api_rust.Sync.Config.Resolve.{resolve_config_target, resolve_config_target_uncached}
use teddy_fyi_api_rust.Sync.Config.Buffer.{
  Told, Uploading, id_token, key_token, flush_if, acknowledge,
}
use teddy_fyi_api_rust.Sync.Config.Process.{Uploader, with_devices, land, resolve_device}
use teddy_fyi_api_rust.Sync.Config.Alone.{Alone, land_alone}
use teddy_fyi_api_rust.Sync.Config.SyncItems.{
  is_delete, item_data, also_adopted, delete_item, upsert_item, store_item,
  process_config_sync_item,
}
use teddy_fyi_api_rust.Sync.Config.ItemsAlone.{
  delete_item_alone, upsert_item_alone, store_item_alone, item_alone,
}
use teddy_fyi_api_rust.Sync.Config.Tracks.{IsAt, IsDoomed, flush_if-Passed}
use teddy_fyi_api_rust.Sync.Config.Lookups.{Passed-absent, row_for-at, resolve_config_target-at}
use teddy_fyi_api_rust.Sync.Config.Doom.{
  Dead, Dead-bind, flush_if-Dead, write_delete-Dead, land-Dead, resolve_device-Dead, found-Dead,
}
use teddy_fyi_api_rust.Sync.Config.Landing.{land-Follows, delete-Follows}
use teddy_fyi_api_rust.Sync.Config.Branches.{Agree, set, device-Follows, found-Follows}

module _ (new_v4 : ConfigSyncItem → String) (who : Uploader) where
  abbrev req : ConfigRequest
  req = who.request

  store_item-Dead :
      (item : ConfigSyncItem) (device : String) (s : Uploading)
      → IsDoomed req s
      → Dead req (store_item new_v4 who item device s)
  unfolding store_item delete_item upsert_item
  store_item-Dead item device s d = elim (Bool-cases (is_delete item)) [
    | inl y ↦ rw y (
        found-Dead who (row_for s.batch req.user_id item.id (some device) s.rows) _ _ d
          (λ row. write_delete-Dead who item.id item.id device row s d))
    | inr n ↦
        let target =
          resolve_config_target s.batch (new_v4 item) req.user_id device item.id item.key s.rows in
        rw n (
          Dead-bind req (land who item.id (item_data item) device target s)
            (λ written.
              ok (record written { told = also_adopted target.new_id item.id written.told }))
            (land-Dead who item.id (item_data item) device target s d) (λ u h. h))
  ]

  pub item-Dead :
      (registered : List String) (item : ConfigSyncItem) (s : Uploading)
      → IsDoomed req s
      → Dead req (process_config_sync_item new_v4 who registered item s)
  unfolding process_config_sync_item
  item-Dead registered item s d =
      Dead-bind req (flush_if req (contains_id s.runs (id_token item.id)) s) _
        (flush_if-Dead req (contains_id s.runs (id_token item.id)) s d)
        (λ s' d'.
          resolve_device-Dead who registered item.id item.device_uuid s' _ d' (λ device u du.
            Dead-bind req (flush_if req (contains_id u.runs (key_token device item.key)) u)
              (store_item new_v4 who item device)
              (flush_if-Dead req (contains_id u.runs (key_token device item.key)) u du)
              (store_item-Dead item device)))

  module _ (candidates : List String) (ds : List Device) where
    abbrev Alike : Result Uploading → Result Alone → Type 0
    Alike = Agree who candidates ds

    told-Alike :
        (f : Told → Told) (r : Result Uploading) (q : Result Alone)
        → ((t : Told) → (f t).devices ≡ t.devices)
        → Alike r q
        → Alike
            (r >>= λ u. ok (record u { told = f u.told }))
            (q >>= λ a. ok (record a { told = f a.told }))
    told-Alike f (ok u) (ok a) keeps h = (h.0, ap f h.1, λ e. keeps a.told ∙ h.2 e)
    told-Alike f (ok u) (err _) keeps h = h
    told-Alike f (err _) (ok a) keeps h = absurd h
    told-Alike f (err _) (err _) keeps h = tt

    adopted-devices :
        (new_id id : String) (t : Told) → (also_adopted new_id id t).devices ≡ t.devices
    unfolding also_adopted
    adopted-devices new_id id t = elim (Bool-cases (str_eq new_id id)) [
      | inl y ↦ rw y refl
      | inr n ↦ rw n refl
    ]

    store_item-Alike :
        (item : ConfigSyncItem) (device : String) (s : Uploading) (rows : List ConfigRow)
        → IsAt req s rows
        → IsSteady ds who.device_rule s.told.devices
        → s.runs.ids (id_token item.id) ≡ false
        → s.runs.ids (key_token device item.key) ≡ false
        → Alike
            (store_item new_v4 who item device s)
            (store_item_alone new_v4 who item device record { rows = rows; told = s.told })
    unfolding store_item store_item_alone delete_item delete_item_alone upsert_item
        upsert_item_alone acknowledge item_data
    store_item-Alike item device s rows at steady absent key_absent =
        elim (Bool-cases (is_delete item)) [
          | inl y ↦
              rw (y, delete_item, row_for-at req s rows at item.id absent (some device))
                (found-Follows who candidates ds
                  (row_for_uncached req.user_id item.id (some device) rows) _ _ _ _
                  (λ _. (at, refl, steady))
                  (λ row e.
                    delete-Follows who candidates ds item.id s rows at steady item.id device row e))
          | inr n ↦
              let target =
                resolve_config_target_uncached (new_v4 item) req.user_id device item.id item.key
                  rows in
              rw
                (
                  n,
                  resolve_config_target-at req s rows at item.id absent device item.key key_absent
                      (new_v4 item),
                )
                (told-Alike (also_adopted target.new_id item.id)
                  (land who item.id (item_data item) device target s)
                  (land_alone who item.id (item_data item) device target
                    record { rows = rows; told = s.told })
                  (adopted-devices target.new_id item.id)
                  (land-Follows who candidates ds item.id s rows at steady (item_data item) device
                    target (find (has_id (new_v4 item)) rows ≡ none)
                    (resolve_config_target_uncached-FreeIf req.user_id device item.key rows
                      at.sound.keyed (new_v4 item) item.id)))
        ]

    pub item-Alike :
        (item : ConfigSyncItem) (s : Uploading) (rows : List ConfigRow)
        → IsAt req s rows
        → IsSteady ds who.device_rule s.told.devices
        → Alike
            (process_config_sync_item new_v4 who (set who candidates ds) item s)
            (item_alone new_v4 who item record { rows = rows; told = s.told })
    unfolding process_config_sync_item item_alone
    item-Alike item s rows at steady =
        let (s', passed) = flush_if-Passed req (contains_id s.runs (id_token item.id)) s rows at in
        let absent = Passed-absent req (id_token item.id) s s' rows passed in
        rw passed.run (
          subst
            (λ t.
              Alike
                (resolve_device who (set who candidates ds) item.id item.device_uuid s'
                  >>= λ resolved. placed resolved.0 resolved.1)
                (item_alone new_v4 who item record { rows = rows; told = t }))
            passed.told
            (device-Follows who candidates ds item.id item.device_uuid s' rows
              (λ resolved. placed resolved.0 resolved.1)
              (λ resolved. store_item_alone new_v4 who item resolved.0 resolved.1) passed.at
              (λ h. ap (λ t. t.devices) passed.told ∙ steady h)
              (λ device after st. guarded device (with_devices after s') passed.at st absent)))
      where
        placed : String → Uploading → Result Uploading
        placed device u = do
          landed ← flush_if req (contains_id u.runs (key_token device item.key)) u
          store_item new_v4 who item device landed

        guarded :
            (device : String) (u : Uploading)
            → IsAt req u rows
            → IsSteady ds who.device_rule u.told.devices
            → u.runs.ids (id_token item.id) ≡ false
            → Alike
                (placed device u)
                (store_item_alone new_v4 who item device record { rows = rows; told = u.told })
        guarded device u at_u st absent =
            let (v, passed) =
              flush_if-Passed req (contains_id u.runs (key_token device item.key)) u rows at_u in
            rw passed.run (
              subst
                (λ t.
                  Alike (store_item new_v4 who item device v)
                    (store_item_alone new_v4 who item device record { rows = rows; told = t }))
                passed.told
                (store_item-Alike item device v rows passed.at
                  (λ h. ap (λ t. t.devices) passed.told ∙ st h)
                  (passed.fewer (id_token item.id) absent)
                  (Passed-absent req (key_token device item.key) u v rows passed)))
