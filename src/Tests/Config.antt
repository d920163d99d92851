-- ===== src/Tests/Config.antt =====
-- The theorems on the upload of configs and on devices at concrete inputs, and runs of the definitions.
use teddy_fyi_api_rust.Prelude.{
  ◌≡◌, refl, sym, ◌∙◌, String, Bool, true, false, Option, none, some, List, [], ◌∷◌, inl, inr,
}
use teddy_fyi_api_rust.Prelude.Int.{pos}
use teddy_fyi_api_rust.Prelude.Membership.{IsIn}
use teddy_fyi_api_rust.Json.{Value, string}
use teddy_fyi_api_rust.Errors.{Result, ok, err, committed, too_many_requests}
use teddy_fyi_api_rust.Sync.Types.{insert, delete, ConfigSyncItem, DeviceChangeDelta, synced}
use teddy_fyi_api_rust.Sync.Versioning.{advance_version, seed_version}
use teddy_fyi_api_rust.Sync.Deletes.{ack_unsynced_delete}
use teddy_fyi_api_rust.Sync.Devices.{
  Device, request_device, row_must_name, ensure_device, resolve_item_device,
  resolve_item_device_cached, registered_device_set,
}
use teddy_fyi_api_rust.Sync.Devices.Cap.{Registration, ensure_device-Registration}
use teddy_fyi_api_rust.Sync.Devices.Registered.{resolve_item_device_cached_lem}
use teddy_fyi_api_rust.Sync.Paging.Fetch.{ConfigRow}
use teddy_fyi_api_rust.Sync.Config.Statements.{ConfigRequest, find, has_id, has_key}
use teddy_fyi_api_rust.Sync.Config.Batch.{load, row_for, row_for_uncached}
use teddy_fyi_api_rust.Sync.Config.Loaded.{IsKeyed}
use teddy_fyi_api_rust.Sync.Config.Free.{IsFree}
use teddy_fyi_api_rust.Sync.Config.Resolve.{resolve_config_target, resolve_config_target_uncached}
use teddy_fyi_api_rust.Sync.Config.Buffer.{
  ConfigData, Told, Uploading, id_token, key_token, flush_if,
}
use teddy_fyi_api_rust.Sync.Config.Process.{Uploader, with_devices}
use teddy_fyi_api_rust.Sync.Config.Changes.{process_config_changes, process_each, begin_upload}
use teddy_fyi_api_rust.Sync.Config.Alone.{Alone, process_alone}
use teddy_fyi_api_rust.Sync.Config.Buffered.{reached, issued, row_for-issued, resolved-IsFree}
use teddy_fyi_api_rust.Sync.Batching.{empty_run, contains_id}
use teddy_fyi_api_rust.Sync.Config.Pending.{no_writes}
use teddy_fyi_api_rust.Sync.Config.Finish.{outcome}
use teddy_fyi_api_rust.Sync.Config.SyncItems.{process_config_sync_items}
use teddy_fyi_api_rust.Sync.Config.ItemsAlone.{items_alone}
use teddy_fyi_api_rust.Sync.Config.FlatEquivalence.{process_config_sync_items-items_alone}
use teddy_fyi_api_rust.Sync.Config.Equivalence.{process_config_changes-process_alone}

abbrev ana : ConfigRequest
ana = record { user_id = "ana"; client_id = "tablet"; server_ms = pos 5000 }

abbrev theme : ConfigRow
theme = record {
  id = "r1";
  user_id = "ana";
  device_uuid = "d1";
  client_uuid = "phone";
  version = pos 3;
  is_deleted = false;
  last_modified = pos 100;
  sync_state = some "SYNCED";
  key = "theme";
  value = "light";
}

abbrev table : List ConfigRow
table = theme ∷ []

table-IsKeyed : IsKeyed table
table-IsKeyed = record { one_id = λ id. only (has_id id); one_key = λ u d k. only (has_key u d k) }
  where
    only :
        (p : ConfigRow → Bool) (r s : ConfigRow)
        → IsIn r table
        → IsIn s table
        → p r ≡ true
        → p s ≡ true
        → r ≡ s
    only p r s (inl a) (inl b) c d = a ∙ sym b
    only p r s (inl a) (inr b) c d = absurd b
    only p r s (inr a) b c d = absurd a

abbrev tablet : Device
tablet = record { id = "d1"; user_id = "ana"; name = "Tablet" }

abbrev uploader : Uploader
uploader = record {
  request = ana;
  device_rule = request_device "d1";
  device_filter = none;
  max_devices = 10;
}

-- Every text is a dark theme for the tablet.
abbrev dark : Value → Option ConfigData
dark (string v) =
    some
      record { device_uuid = none; version = pos 0; is_deleted = false; key = "theme"; value = v }
dark _ = none

abbrev changes : List DeviceChangeDelta
changes =
    record {
      id = "r2";
      operation_type = insert;
      version = pos 0;
      device_uuid = none;
      payload = some (string "dark");
    }
    ∷ record {
      id = "r2";
      operation_type = delete;
      version = pos 0;
      device_uuid = none;
      payload = none;
    }
    ∷ record {
      id = "r1";
      operation_type = delete;
      version = pos 0;
      device_uuid = none;
      payload = none;
    }
    ∷ []

abbrev untold : Told
untold = record { devices = tablet ∷ []; success_ids = []; upload_status = []; remote_changes = [] }

-- The row takes the client's id, is deleted under it, and the id that it had names nothing.
uploaded : Option Alone
uploaded = committed (
    outcome (
      process_config_changes dark (λ s. s) (λ s. some s) (λ c. "drawn") uploader changes table
        untold))

uploaded_versions :
    elim uploaded [ none ↦ [] | some a ↦ a.told.upload_status ]
    ≡ synced "r2" (pos 4) ∷ synced "r2" (pos 5) ∷ synced "r1" (pos 1) ∷ []
unfolding uploaded process_config_changes advance_version ack_unsynced_delete
uploaded_versions = refl

process_config_changes-process_alone_example :
    committed (
      outcome (
        process_config_changes dark
          (λ s. s)
          (λ s. some s)
          (λ c. "drawn")
          uploader
          changes
          table
          untold))
    ≡ committed (
        process_alone dark
          (λ s. s)
          (λ c. "drawn")
          uploader
          changes
          record { rows = table; told = untold })
process_config_changes-process_alone_example =
    process_config_changes-process_alone dark (λ s. s) (λ s. some s) (λ c. "drawn") uploader changes
      table untold table-IsKeyed

abbrev item : String → String → String → String → ConfigSyncItem
item id key value state = record {
  id = id;
  device_uuid = some "d1";
  key = key;
  value = value;
  sync_state = state;
  version = pos 0;
  is_deleted = false;
  last_modified = pos 0;
}

-- A new key, the key that the table holds under another id, and deletes of both rows.
abbrev items : List ConfigSyncItem
items =
    item "r3" "font" "serif" "PENDING"
    ∷ item "r2" "theme" "dark" "PENDING"
    ∷ item "r3" "font" "" "PENDING_DELETE"
    ∷ item "r1" "theme" "" "PENDING_DELETE"
    ∷ []

uploaded_items : Option Alone
uploaded_items =
    committed (outcome (process_config_sync_items (λ i. "drawn") uploader items table untold))

uploaded_items_versions :
    elim uploaded_items [ none ↦ [] | some a ↦ a.told.upload_status ]
    ≡ synced "r3" (pos 0) ∷ synced "r2" (pos 4) ∷ synced "r3" (pos 1) ∷ synced "r1" (pos 1) ∷ []
unfolding uploaded_items process_config_sync_items advance_version ack_unsynced_delete seed_version
uploaded_items_versions = refl

process_config_sync_items-items_alone_example :
    committed (outcome (process_config_sync_items (λ i. "drawn") uploader items table untold))
    ≡ committed (items_alone (λ i. "drawn") uploader items record { rows = table; told = untold })
process_config_sync_items-items_alone_example =
    process_config_sync_items-items_alone (λ i. "drawn") uploader items table untold table-IsKeyed

-- Two updates of the row that is there.
abbrev again : List DeviceChangeDelta
again =
    record {
      id = "r1";
      operation_type = insert;
      version = pos 3;
      device_uuid = none;
      payload = some (string "dark");
    }
    ∷ record {
      id = "r1";
      operation_type = insert;
      version = pos 3;
      device_uuid = none;
      payload = some (string "black");
    }
    ∷ []

abbrev first : List DeviceChangeDelta
first =
    record {
      id = "r1";
      operation_type = insert;
      version = pos 3;
      device_uuid = none;
      payload = some (string "dark");
    }
    ∷ []

abbrev nowhere : Uploading
nowhere = record {
  batch = load "ana" [] [] [];
  pending = no_writes;
  runs = empty_run;
  rows = [];
  told = untold;
  broadcasts = [];
}

abbrev state_of : Result Uploading → Uploading
state_of (ok s) = s
state_of (err e) = nowhere

-- The first of them is in the run.
abbrev between : Uploading
between = state_of (
    reached dark (λ s. s) (λ s. some s) (λ c. "drawn") uploader again first table untold
      table-IsKeyed)

run_between :
    reached dark
      (λ s. s)
      (λ s. some s)
      (λ c. "drawn")
      uploader
      again
      first
      table
      untold
      table-IsKeyed
    ≡ ok between
unfolding process_each begin_upload advance_version
run_between = refl

-- One statement has left the row at its next version.
abbrev left : Alone
left =
    elim (committed (
      issued dark (λ s. s) (λ s. some s) (λ c. "drawn") uploader again first table untold
        table-IsKeyed)) [ none ↦ record { rows = []; told = untold } | some a ↦ a ]

alone_left :
    issued dark
      (λ s. s)
      (λ s. some s)
      (λ c. "drawn")
      uploader
      again
      first
      table
      untold
      table-IsKeyed
    ≡ ok left
unfolding process_alone advance_version
alone_left = refl

-- The guard issues the run, which holds a write of the row.
abbrev behind_guard : Uploading
behind_guard = state_of (flush_if ana (contains_id between.runs (id_token "r1")) between)

guard_issues : flush_if ana (contains_id between.runs (id_token "r1")) between ≡ ok behind_guard
unfolding process_each begin_upload advance_version flush_if contains_id id_token
guard_issues = refl

row_for-issued_example :
    row_for behind_guard.batch "ana" "r1" none behind_guard.rows
    ≡ row_for_uncached "ana" "r1" none left.rows
row_for-issued_example =
    row_for-issued dark (λ s. s) (λ s. some s) (λ c. "drawn") uploader again first table untold
      table-IsKeyed between left run_between alone_left "r1" behind_guard guard_issues none

-- Another id and another key leave the run as it is.
guard_passes : flush_if ana (contains_id between.runs (id_token "r2")) between ≡ ok between
unfolding process_each begin_upload advance_version flush_if contains_id id_token
guard_passes = refl

key_guard_passes :
    flush_if ana
      (contains_id between.runs (key_token "d1" "font"))
      (with_devices (tablet ∷ []) between)
    ≡ ok (with_devices (tablet ∷ []) between)
unfolding process_each begin_upload advance_version flush_if contains_id key_token with_devices
key_guard_passes = refl

resolved-IsFree_example :
    (resolve_config_target
        (with_devices (tablet ∷ []) between).batch
        "drawn"
        "ana"
        "d1"
        "r2"
        "font"
        (with_devices (tablet ∷ []) between).rows
      ≡ resolve_config_target_uncached "drawn" "ana" "d1" "r2" "font" left.rows)
    × IsFree "ana" "d1" "font" left.rows (
        resolve_config_target
          (with_devices (tablet ∷ []) between).batch
          "drawn"
          "ana"
          "d1"
          "r2"
          "font"
          (with_devices (tablet ∷ []) between).rows)
unfolding find process_alone advance_version
resolved-IsFree_example =
    resolved-IsFree dark (λ s. s) (λ s. some s) (λ c. "drawn") uploader again first table untold
      table-IsKeyed between left run_between alone_left "r2" between guard_passes "drawn" "d1"
      "font" (tablet ∷ []) (with_devices (tablet ∷ []) between) key_guard_passes refl

ensure_device-Registration_example :
    Registration 1 "ana" "d2" (tablet ∷ []) (ensure_device 1 "ana" "d2" none (tablet ∷ []))
ensure_device-Registration_example = ensure_device-Registration 1 "ana" "d2" (tablet ∷ []) none

at_the_cap : ensure_device 1 "ana" "d2" none (tablet ∷ []) ≡ err too_many_requests
unfolding ensure_device
at_the_cap = refl

resolve_item_device_cached_lem_example :
    resolve_item_device_cached 10
      (registered_device_set row_must_name "ana" ("d1" ∷ []) (tablet ∷ []))
      row_must_name
      "ana"
      (some "d1")
      "r2"
      (tablet ∷ [])
    ≡ resolve_item_device 10 row_must_name "ana" (some "d1") "r2" (tablet ∷ [])
resolve_item_device_cached_lem_example =
    resolve_item_device_cached_lem 10 "ana" ("d1" ∷ []) (tablet ∷ []) (tablet ∷ []) (λ id h. h)
      row_must_name (some "d1") "r2"
