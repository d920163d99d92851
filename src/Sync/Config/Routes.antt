-- ===== src/Sync/Config/Routes.antt =====
-- One change of an upload (src/routes/sync/config.rs), by each branch of the loop, against the same change
-- on its own.
use teddy_fyi_api_rust.Prelude.{◌≡◌, refl, ap, ◌∙◌, subst, String, false, Option, some, List}
use teddy_fyi_api_rust.Json.{Value}
use teddy_fyi_api_rust.Errors.{Result}
use teddy_fyi_api_rust.Sync.Types.{DeviceChangeDelta}
use teddy_fyi_api_rust.Sync.Batching.{contains_id}
use teddy_fyi_api_rust.Sync.Devices.{Device}
use teddy_fyi_api_rust.Sync.Devices.Registered.{IsSteady}
use teddy_fyi_api_rust.Sync.Paging.Fetch.{ConfigRow}
use teddy_fyi_api_rust.Sync.Config.Statements.{ConfigRequest}
use teddy_fyi_api_rust.Sync.Config.Resolve.{resolve_config_target, resolve_config_target_uncached}
use teddy_fyi_api_rust.Sync.Config.Batch.{row_for_uncached}
use teddy_fyi_api_rust.Sync.Config.Buffer.{
  ConfigData, Uploading, id_token, key_token, acknowledge, echo,
}
use teddy_fyi_api_rust.Sync.Config.Process.{
  Uploader, ConfigRoute, ignored, refused_payload, row_asked, bump_version, soft_delete, upserted,
  or_else, with_devices, process_route, land, upsert, process_config_change, route,
}
use teddy_fyi_api_rust.Sync.Config.Alone.{Alone, route_alone, upsert_alone, land_alone}
use teddy_fyi_api_rust.Sync.Config.Tracks.{IsAt, flush_if-Passed}
use teddy_fyi_api_rust.Sync.Config.Lookups.{Passed-absent, row_for-at}
use teddy_fyi_api_rust.Sync.Config.Branches.{Agree, set, device-Follows, found-Follows}
use teddy_fyi_api_rust.Sync.Config.Landing.{target-Follows, bump-Follows, delete-Follows}

module _ (from_value : Value → Option ConfigData) (parse_or_hash_uuid : String → String)
    (new_v4 : DeviceChangeDelta → String) (who : Uploader) (candidates : List String)
    (ds : List Device) (change : DeviceChangeDelta) where
  abbrev req : ConfigRequest
  req = who.request

  abbrev Same : Result Uploading → Result Alone → Type 0
  Same = Agree who candidates ds

  abbrev known : List String
  known = set who candidates ds

  abbrev id : String
  id = parse_or_hash_uuid change.id

  upsert-Follows :
      (item : ConfigData) (device : String) (s : Uploading) (rows : List ConfigRow)
      → IsAt req s rows
      → IsSteady ds who.device_rule s.told.devices
      → s.runs.ids (id_token id) ≡ false
      → Same (upsert from_value parse_or_hash_uuid new_v4 who change item device s) (
          upsert_alone from_value parse_or_hash_uuid new_v4 who change item device
            record { rows = rows; told = s.told })
  unfolding upsert upsert_alone
  upsert-Follows item device s rows at steady absent =
      let b = contains_id s.runs (key_token device item.key) in
      let (s', passed) = flush_if-Passed req b s rows at in
      let target =
        resolve_config_target_uncached (new_v4 change) req.user_id device id item.key rows in
      rw passed.run (
        subst
          (λ t.
            Same
              (land who change.id item device
                (resolve_config_target s'.batch (new_v4 change) req.user_id device id item.key
                  s'.rows)
                s')
              (land_alone who change.id item device target record { rows = rows; told = t }))
          passed.told
          (target-Follows who candidates ds change.id s' rows passed.at
            (λ h. ap (λ t. t.devices) passed.told ∙ steady h) id device (new_v4 change) item
            (passed.fewer (id_token id) absent)
            (Passed-absent req (key_token device item.key) s s' rows passed)))

  route-Follows :
      (r : ConfigRoute) (s : Uploading) (rows : List ConfigRow)
      → IsAt req s rows
      → IsSteady ds who.device_rule s.told.devices
      → s.runs.ids (id_token id) ≡ false
      → Same (process_route from_value parse_or_hash_uuid new_v4 who known change r s) (
          route_alone from_value parse_or_hash_uuid new_v4 who change r
            record { rows = rows; told = s.told })
  unfolding process_route route_alone with_devices echo acknowledge
  route-Follows ignored s rows at steady absent = (at, refl, steady)
  route-Follows refused_payload s rows at steady absent = tt
  route-Follows row_asked s rows at steady absent =
      rw (process_route, row_for-at req s rows at id absent who.device_filter)
        (found-Follows who candidates ds (row_for_uncached req.user_id id who.device_filter rows) _
          _ _ _ (λ _. (at, refl, steady)) (λ row e. (at, refl, steady)))
  route-Follows (upserted item) s rows at steady absent =
      device-Follows who candidates ds change.id (or_else change.device_uuid item.device_uuid) s
        rows _ _ at steady
        (λ device after st. upsert-Follows item device (with_devices after s) rows at st absent)
  route-Follows bump_version s rows at steady absent =
      device-Follows who candidates ds change.id change.device_uuid s rows _ _ at steady
        (λ device after st.
          rw (row_for-at req (with_devices after s) rows at id absent (some device)) (
            found-Follows who candidates ds (row_for_uncached req.user_id id (some device) rows) _ _
              _ _ (λ _. (at, refl, st))
              (λ row e.
                bump-Follows who candidates ds change.id (with_devices after s) rows at st id device
                  row e)))
  route-Follows soft_delete s rows at steady absent =
      device-Follows who candidates ds change.id change.device_uuid s rows _ _ at steady
        (λ device after st.
          rw (row_for-at req (with_devices after s) rows at id absent (some device)) (
            found-Follows who candidates ds (row_for_uncached req.user_id id (some device) rows) _ _
              _ _ (λ _. (at, refl, st))
              (λ row e.
                delete-Follows who candidates ds change.id (with_devices after s) rows at st id
                  device row e)))

  pub process_config_change-Follows :
      (s : Uploading) (rows : List ConfigRow)
      → IsAt req s rows
      → IsSteady ds who.device_rule s.told.devices
      → Same (process_config_change from_value parse_or_hash_uuid new_v4 who known change s) (
          route_alone from_value parse_or_hash_uuid new_v4 who change
            (route from_value change)
            record { rows = rows; told = s.told })
  unfolding process_config_change
  process_config_change-Follows s rows at steady =
      let b = contains_id s.runs (id_token id) in
      let (s', passed) = flush_if-Passed req b s rows at in
      rw passed.run (
        subst
          (λ t.
            Same
              (process_route from_value parse_or_hash_uuid new_v4 who known change
                (route from_value change) s')
              (route_alone from_value parse_or_hash_uuid new_v4 who change (route from_value change)
                record { rows = rows; told = t }))
          passed.told
          (route-Follows (route from_value change) s' rows passed.at
            (λ h. ap (λ t. t.devices) passed.told ∙ steady h)
            (Passed-absent req (id_token id) s s' rows passed)))
