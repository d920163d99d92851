-- ===== src/Sync/Config/Changes.antt =====
-- `process_config_changes` (src/routes/sync/config.rs) from its prefetch to its last flush.
use teddy_fyi_api_rust.Prelude.{
  String, Bool, true, false, not, ◌&&◌, Option, none, some, List, [], ◌∷◌, ◌++◌, map,
}
use teddy_fyi_api_rust.Json.{Value, get, as_str}
use teddy_fyi_api_rust.Errors.{Result, ok, ◌>>=◌}
use teddy_fyi_api_rust.Sync.Types.{DeviceChangeDelta}
use teddy_fyi_api_rust.Sync.Batching.{empty_run}
use teddy_fyi_api_rust.Sync.Devices.{registered_device_set}
use teddy_fyi_api_rust.Sync.Paging.Fetch.{ConfigRow}
use teddy_fyi_api_rust.Sync.Config.Batch.{load}
use teddy_fyi_api_rust.Sync.Config.Pending.{ConfigPending, no_writes}
use teddy_fyi_api_rust.Sync.Config.Buffer.{ConfigData, Told, Uploading, flush_if}
use teddy_fyi_api_rust.Sync.Config.Process.{Uploader, process_config_change}

abbrev pub found : Option String → List String
found none = []
found (some s) = s ∷ []

-- `data.get(name).and_then(|v| v.as_str())`
unfoldable pub peek_text : String → DeviceChangeDelta → Option String
unfolding get as_str
peek_text name change = elim change.payload [
  | none ↦ none
  | some v ↦ elim (get v name) [ none ↦ none | some field ↦ as_str field ]
]

unfoldable pub batch_keys : List DeviceChangeDelta → List String
unfolding peek_text
batch_keys [] = []
batch_keys (c ∷ cs) = found (peek_text "key" c) ++ batch_keys cs

-- `parse` is `Uuid::parse_str`.
unfoldable pub batch_devices : (String → Option String) → List DeviceChangeDelta → List String
unfolding peek_text
batch_devices parse [] = []
batch_devices parse (c ∷ cs) =
    found c.device_uuid
    ++ found (elim (peek_text "device_uuid" c) [ none ↦ none | some s ↦ parse s ])
    ++ batch_devices parse cs

unfoldable pub is_nil : {A : Type 0} → List A → Bool
is_nil [] = true
is_nil (_ ∷ _) = false

-- `!pending.is_empty()`
unfoldable pub has_writes : ConfigPending → Bool
unfolding is_nil
has_writes p = not (is_nil p.ins && (is_nil p.upd && (is_nil p.bump && is_nil p.del)))

module _ (from_value : Value → Option ConfigData) (parse_or_hash_uuid : String → String)
    (parse : String → Option String) (new_v4 : DeviceChangeDelta → String) (who : Uploader) where
  unfoldable pub process_each : List String → List DeviceChangeDelta → Uploading → Result Uploading
  unfolding process_config_change
  process_each registered [] s = ok s
  process_each registered (c ∷ cs) s = do
    s' ← process_config_change from_value parse_or_hash_uuid new_v4 who registered c s
    process_each registered cs s'

  -- The state that the loop begins in.
  unfoldable pub begin_upload : List DeviceChangeDelta → List ConfigRow → Told → Uploading
  unfolding load batch_keys empty_run
  begin_upload changes rows told = record {
    batch =
        load who.request.user_id (map (λ c. parse_or_hash_uuid c.id) changes) (batch_keys changes)
          rows;
    pending = no_writes;
    runs = empty_run;
    rows = rows;
    told = told;
    broadcasts = [];
  }

  unfoldable pub process_config_changes :
      List DeviceChangeDelta → List ConfigRow → Told → Result Uploading
  unfolding process_each begin_upload batch_devices has_writes flush_if registered_device_set
  process_config_changes changes rows told =
      let registered =
        registered_device_set who.device_rule who.request.user_id (batch_devices parse changes)
          told.devices in
      do
        s ← process_each registered changes (begin_upload changes rows told)
        flush_if who.request (has_writes s.pending) s
