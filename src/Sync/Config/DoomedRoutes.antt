-- ===== src/Sync/Config/DoomedRoutes.antt =====
-- One change of an upload (src/routes/sync/config.rs) whose run the database will refuse.
use teddy_fyi_api_rust.Prelude.{String, Option, some, List}
use teddy_fyi_api_rust.Json.{Value}
use teddy_fyi_api_rust.Sync.Types.{DeviceChangeDelta}
use teddy_fyi_api_rust.Sync.Batching.{contains_id}
use teddy_fyi_api_rust.Sync.Config.Statements.{ConfigRequest}
use teddy_fyi_api_rust.Sync.Config.Batch.{row_for}
use teddy_fyi_api_rust.Sync.Config.Buffer.{ConfigData, Uploading, id_token, key_token, flush_if}
use teddy_fyi_api_rust.Sync.Config.Process.{
  Uploader, ConfigRoute, ignored, refused_payload, row_asked, bump_version, soft_delete, upserted,
  or_else, upsert, process_route, process_config_change, route,
}
use teddy_fyi_api_rust.Sync.Config.Tracks.{IsDoomed}
use teddy_fyi_api_rust.Sync.Config.Doom.{
  Dead, Dead-bind, flush_if-Dead, write_bump-Dead, write_delete-Dead, land-Dead,
  resolve_device-Dead, found-Dead,
}

module _ (from_value : Value → Option ConfigData) (parse_or_hash_uuid : String → String)
    (new_v4 : DeviceChangeDelta → String) (who : Uploader) where
  abbrev req : ConfigRequest
  req = who.request

  upsert-Dead :
      (change : DeviceChangeDelta) (item : ConfigData) (device : String) (s : Uploading)
      → IsDoomed req s
      → Dead req (upsert from_value parse_or_hash_uuid new_v4 who change item device s)
  unfolding upsert
  upsert-Dead change item device s d =
      Dead-bind req (flush_if req (contains_id s.runs (key_token device item.key)) s) _
        (flush_if-Dead req (contains_id s.runs (key_token device item.key)) s d)
        (λ s' d'. land-Dead who change.id item device _ s' d')

  process_route-Dead :
      (registered : List String) (change : DeviceChangeDelta) (r : ConfigRoute) (s : Uploading)
      → IsDoomed req s
      → Dead req (process_route from_value parse_or_hash_uuid new_v4 who registered change r s)
  unfolding process_route
  process_route-Dead registered change ignored s d = d
  process_route-Dead registered change refused_payload s d = tt
  process_route-Dead registered change row_asked s d =
      found-Dead who
        (row_for s.batch req.user_id (parse_or_hash_uuid change.id) who.device_filter s.rows) _ _ d
        (λ _. d)
  process_route-Dead registered change (upserted item) s d =
      resolve_device-Dead who registered change.id (or_else change.device_uuid item.device_uuid) s _
        d (λ device s' d'. upsert-Dead change item device s' d')
  process_route-Dead registered change bump_version s d =
      resolve_device-Dead who registered change.id change.device_uuid s _ d (λ device s' d'.
        found-Dead who
          (row_for s'.batch req.user_id (parse_or_hash_uuid change.id) (some device) s'.rows) _ _ d'
          (λ row. write_bump-Dead who change.id (parse_or_hash_uuid change.id) device row s' d'))
  process_route-Dead registered change soft_delete s d =
      resolve_device-Dead who registered change.id change.device_uuid s _ d (λ device s' d'.
        found-Dead who
          (row_for s'.batch req.user_id (parse_or_hash_uuid change.id) (some device) s'.rows) _ _ d'
          (λ row. write_delete-Dead who change.id (parse_or_hash_uuid change.id) device row s' d'))

  pub process_config_change-Dead :
      (registered : List String) (change : DeviceChangeDelta) (s : Uploading)
      → IsDoomed req s
      → Dead req
          (process_config_change from_value parse_or_hash_uuid new_v4 who registered change s)
  unfolding process_config_change
  process_config_change-Dead registered change s d =
      Dead-bind req _ _
        (flush_if-Dead req (contains_id s.runs (id_token (parse_or_hash_uuid change.id))) s d)
        (λ s' d'. process_route-Dead registered change (route from_value change) s' d')
