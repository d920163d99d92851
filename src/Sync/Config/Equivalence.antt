-- ===== src/Sync/Config/Equivalence.antt =====
-- The upload of configs (src/routes/sync/config.rs), with its prefetch and its runs, against its changes
-- one at a time.
use teddy_fyi_api_rust.Prelude.{◌≡◌, refl, ap, ◌∙◌, subst, String, Option, List, [], ◌∷◌, map}
use teddy_fyi_api_rust.Json.{Value}
use teddy_fyi_api_rust.Errors.{Result, committed}
use teddy_fyi_api_rust.Sync.Types.{DeviceChangeDelta}
use teddy_fyi_api_rust.Sync.Batching.{empty_run, clear}
use teddy_fyi_api_rust.Sync.Devices.{Device}
use teddy_fyi_api_rust.Sync.Devices.Registered.{IsSteady}
use teddy_fyi_api_rust.Sync.Paging.Fetch.{ConfigRow}
use teddy_fyi_api_rust.Sync.Config.Statements.{ConfigRequest}
use teddy_fyi_api_rust.Sync.Config.Loaded.{IsKeyed}
use teddy_fyi_api_rust.Sync.Config.Cached.{load-Sound}
use teddy_fyi_api_rust.Sync.Config.Buffer.{ConfigData, Told, Uploading}
use teddy_fyi_api_rust.Sync.Config.Process.{Uploader, process_config_change, route}
use teddy_fyi_api_rust.Sync.Config.Changes.{
  batch_devices, batch_keys, begin_upload, process_each, process_config_changes,
}
use teddy_fyi_api_rust.Sync.Config.Alone.{Alone, route_alone, process_alone}
use teddy_fyi_api_rust.Sync.Config.Tracks.{IsAt, IsDoomed, no_writes-Tracks}
use teddy_fyi_api_rust.Sync.Config.Doom.{Dead, Dead-bind}
use teddy_fyi_api_rust.Sync.Config.DoomedRoutes.{process_config_change-Dead}
use teddy_fyi_api_rust.Sync.Config.Finish.{outcome, finish, bind-Alike, settled}
use teddy_fyi_api_rust.Sync.Config.Branches.{Agree, set}
use teddy_fyi_api_rust.Sync.Config.Routes.{process_config_change-Follows}

module _ (from_value : Value → Option ConfigData) (parse_or_hash_uuid : String → String)
    (parse : String → Option String) (new_v4 : DeviceChangeDelta → String) (who : Uploader) where
  abbrev req : ConfigRequest
  req = who.request

  module _ (candidates : List String) (ds : List Device) where
    abbrev Alike : Result Uploading → Result Alone → Type 0
    Alike = Agree who candidates ds

    unfoldable pub each : List DeviceChangeDelta → Uploading → Result Uploading
    each = process_each from_value parse_or_hash_uuid parse new_v4 who (set who candidates ds)

    each-Dead :
        (changes : List DeviceChangeDelta) (s : Uploading)
        → IsDoomed req s
        → Dead req (each changes s)
    unfolding each process_each
    each-Dead [] s d = d
    each-Dead (c ∷ cs) s d =
        Dead-bind req
          (process_config_change from_value parse_or_hash_uuid new_v4 who (set who candidates ds) c
            s)
          (each cs)
          (process_config_change-Dead from_value parse_or_hash_uuid new_v4 who
            (set who candidates ds) c s d)
          (each-Dead cs)

    pub each-Alike :
        (changes : List DeviceChangeDelta) (s : Uploading) (a : Alone)
        → IsAt req s a.rows
        → s.told ≡ a.told
        → IsSteady ds who.device_rule a.told.devices
        → Alike (each changes s) (process_alone from_value parse_or_hash_uuid new_v4 who changes a)
    unfolding each process_each process_alone
    each-Alike [] s a at told steady = (at, told, steady)
    each-Alike (c ∷ cs) s a at told steady =
        bind-Alike who candidates ds
          (process_config_change from_value parse_or_hash_uuid new_v4 who (set who candidates ds) c
            s)
          (route_alone from_value parse_or_hash_uuid new_v4 who c (route from_value c) a) (each cs)
          (process_alone from_value parse_or_hash_uuid new_v4 who cs)
          (subst
            (λ t.
              Alike
                (process_config_change from_value parse_or_hash_uuid new_v4 who
                  (set who candidates ds) c s)
                (route_alone from_value parse_or_hash_uuid new_v4 who c (route from_value c)
                  record { rows = a.rows; told = t }))
            told
            (process_config_change-Follows from_value parse_or_hash_uuid new_v4 who candidates ds c
              s a.rows at (λ h. ap (λ t. t.devices) told ∙ steady h)))
          (each-Alike cs) (each-Dead cs)

  -- From a table that keeps both of its keys, an upload of configs, with its one prefetch, its runs of
  -- buffered writes and its set of known devices, leaves the rows, registers the devices, reports the
  -- versions and acknowledgements and echoes the rows that its changes do one at a time, each by
  -- statements of its own; and it fails where they do.
  pub process_config_changes-process_alone :
      (changes : List DeviceChangeDelta) (rows : List ConfigRow) (told : Told)
      → IsKeyed rows
      → committed (
          outcome (
            process_config_changes from_value parse_or_hash_uuid parse new_v4 who changes rows
              told))
        ≡ committed (
            process_alone from_value parse_or_hash_uuid new_v4 who changes
              record { rows = rows; told = told })
  unfolding process_config_changes begin_upload clear empty_run each finish
  process_config_changes-process_alone changes rows told keyed =
      let candidates = batch_devices parse changes in
      let s = begin_upload from_value parse_or_hash_uuid parse new_v4 who changes rows told in
      let a : Alone = record { rows = rows; told = told } in
      settled who candidates told.devices (each candidates told.devices changes s)
        (process_alone from_value parse_or_hash_uuid new_v4 who changes a)
        (each-Alike candidates told.devices changes s a
          (no_writes-Tracks req s.batch s.runs rows (
            load-Sound req.user_id (map (λ c. parse_or_hash_uuid c.id) changes) (batch_keys changes)
              rows keyed))
          refl (λ _. refl))
