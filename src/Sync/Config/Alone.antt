-- ===== src/Sync/Config/Alone.antt =====
-- What an upload of configs (src/routes/sync/config.rs) amounts to: each change on its own, by the
-- statements that the prefetch and the runs replace.
use teddy_fyi_api_rust.Prelude.{String, Option, none, some, List, [], ◌∷◌}
use teddy_fyi_api_rust.Prelude.Int.{ℤ}
use teddy_fyi_api_rust.Json.{Value}
use teddy_fyi_api_rust.Errors.{Result, ok, err, bad_request, ◌>>=◌}
use teddy_fyi_api_rust.Sync.Types.{DeviceChangeDelta}
use teddy_fyi_api_rust.Sync.Versioning.{advance_version}
use teddy_fyi_api_rust.Sync.Deletes.{ack_unsynced_delete}
use teddy_fyi_api_rust.Sync.Devices.{resolve_item_device}
use teddy_fyi_api_rust.Sync.Paging.Fetch.{ConfigRow}
use teddy_fyi_api_rust.Sync.Config.Statements.{
  ConfigRequest, ConfigWrite, bump_config, delete_config,
}
use teddy_fyi_api_rust.Sync.Config.Batch.{ConfigTarget, row_for_uncached}
use teddy_fyi_api_rust.Sync.Config.Resolve.{resolve_config_target_uncached}
use teddy_fyi_api_rust.Sync.Config.Pending.{issue_insert, issue_update}
use teddy_fyi_api_rust.Sync.Config.Buffer.{
  ConfigKind, version_bump, delete_kind, ConfigData, Told, acknowledge, echo,
}
use teddy_fyi_api_rust.Sync.Config.Process.{
  ConfigRoute, ignored, refused_payload, row_asked, bump_version, soft_delete, upserted, route,
  or_else, next_config_version, config_write, Uploader,
}

pub record Alone : Type 0 where
  pub rows : List ConfigRow
  pub told : Told

module _ (req : ConfigRequest) where
  unfoldable pub issue_target :
      ConfigTarget → ConfigWrite → List ConfigRow → Result (List ConfigRow)
  unfolding issue_insert issue_update
  issue_target target w rows = elim target.existing [
    | none ↦ issue_insert req target.new_id w rows
    | some e ↦ issue_update req e.id target.new_id w rows
  ]

  unfoldable pub issue_in_place : ConfigKind → String → String → ℤ → List ConfigRow → List ConfigRow
  unfolding bump_config delete_config
  issue_in_place delete_kind id device version rows = delete_config req id device version rows
  issue_in_place _ id device version rows = bump_config req id device version rows

module _ (who : Uploader) where
  unfoldable pub in_place_alone :
      ConfigKind → String → String → String → ConfigRow → Alone → Result Alone
  unfolding issue_in_place acknowledge
  in_place_alone kind change_id id device row a = do
    version ← advance_version change_id row.version
    ok record {
      rows = issue_in_place who.request kind id device version a.rows;
      told = acknowledge change_id version a.told;
    }

  unfoldable pub land_alone : String → ConfigData → String → ConfigTarget → Alone → Result Alone
  unfolding issue_target acknowledge next_config_version config_write
  land_alone change_id item device target a = do
    version ← next_config_version change_id target item
    rows ← issue_target who.request target (config_write device version item) a.rows
    ok record { rows = rows; told = acknowledge change_id version a.told }

  unfoldable pub resolve_alone : String → Option String → Alone → Result (String × Alone)
  unfolding resolve_item_device
  resolve_alone change_id named a = do
    resolved ←
        resolve_item_device who.max_devices who.device_rule who.request.user_id named change_id
          a.told.devices
    ok (resolved.0, record a { told = record (a.told) { devices = resolved.1 } })

module _ (from_value : Value → Option ConfigData) (parse_or_hash_uuid : String → String)
    (new_v4 : DeviceChangeDelta → String) (who : Uploader) where
  abbrev req : ConfigRequest
  req = who.request

  unfoldable pub upsert_alone : DeviceChangeDelta → ConfigData → String → Alone → Result Alone
  unfolding resolve_config_target_uncached land_alone
  upsert_alone change item device a =
      land_alone who change.id item device
        (resolve_config_target_uncached (new_v4 change) req.user_id device
          (parse_or_hash_uuid change.id) item.key a.rows)
        a

  unfoldable pub route_alone : DeviceChangeDelta → ConfigRoute → Alone → Result Alone
  unfolding row_for_uncached resolve_alone upsert_alone in_place_alone echo acknowledge
  route_alone change ignored a = ok a
  route_alone change refused_payload a = err (bad_request change.id)
  route_alone change row_asked a =
      elim (row_for_uncached req.user_id (parse_or_hash_uuid change.id) who.device_filter a.rows) [
        | none ↦ ok a
        | some row ↦ ok (record a { told = echo change.id row a.told })
      ]
  route_alone change (upserted item) a = do
    resolved ← resolve_alone who change.id (or_else change.device_uuid item.device_uuid) a
    upsert_alone change item resolved.0 resolved.1
  route_alone change bump_version a = do
    (device, a') ← resolve_alone who change.id change.device_uuid a
    elim (row_for_uncached req.user_id (parse_or_hash_uuid change.id) (some device) a'.rows) [
      | none ↦ ok a'
      | some row ↦
          in_place_alone who version_bump change.id (parse_or_hash_uuid change.id) device row a'
    ]
  route_alone change soft_delete a = do
    (device, a') ← resolve_alone who change.id change.device_uuid a
    elim (row_for_uncached req.user_id (parse_or_hash_uuid change.id) (some device) a'.rows) [
      | none ↦
          ok (record a' { told = acknowledge change.id (ack_unsynced_delete change.id) a'.told })
      | some row ↦
          in_place_alone who delete_kind change.id (parse_or_hash_uuid change.id) device row a'
    ]

  unfoldable pub process_alone : List DeviceChangeDelta → Alone → Result Alone
  unfolding route_alone route
  process_alone [] a = ok a
  process_alone (c ∷ cs) a = do a' ← route_alone c (route from_value c) a; process_alone cs a'
