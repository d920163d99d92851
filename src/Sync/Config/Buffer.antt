-- ===== src/Sync/Config/Buffer.antt =====
-- `write_config` (src/routes/sync/config.rs) and what it is made of: the state of an upload, its runs, and
-- what a write adds to them. `client_last_modified`, which no code reads, is left out.
use Prim.Native.String.{◌++◌ as text_append}
use teddy_fyi_api_rust.Prelude.{
  String, Bool, true, false, ◌||◌, Option, none, some, List, [], ◌∷◌, ◌++◌, str_eq, if◌then◌else◌,
}
use teddy_fyi_api_rust.Prelude.Int.{ℤ}
use teddy_fyi_api_rust.Errors.{Result, ok, ◌>>=◌}
use teddy_fyi_api_rust.Sync.Types.{update, SuccessResult, synced}
use teddy_fyi_api_rust.Sync.Batching.{RunTracker, needs_flush, record_write, clear}
use teddy_fyi_api_rust.Sync.Devices.{Device}
use teddy_fyi_api_rust.Sync.Paging.Fetch.{ConfigRow, ConfigChangeDelta, state_of, sync_item}
use teddy_fyi_api_rust.Sync.Config.Statements.{ConfigRequest, ConfigWrite, inserted}
use teddy_fyi_api_rust.Sync.Config.Batch.{ConfigBatch, ConfigTarget, note_write}
use teddy_fyi_api_rust.Sync.Config.Pending.{
  ConfigPending, ConfigBroadcast, no_writes, flush_configs, issue_update,
}

pub data ConfigKind : Type 0 where
  insert_kind update_in_place version_bump delete_kind : ConfigKind

unfoldable pub same_config_kind : ConfigKind → ConfigKind → Bool
same_config_kind insert_kind insert_kind = true
same_config_kind update_in_place update_in_place = true
same_config_kind version_bump version_bump = true
same_config_kind delete_kind delete_kind = true
same_config_kind _ _ = false

-- `format!("id:{}", id)` and `format!("key:{}/{}", device, key)`
unfoldable pub id_token : String → String
id_token id = text_append "id:" id

unfoldable pub key_token : String → String → String
key_token device key = text_append "key:" (text_append device (text_append "/" key))

unfoldable pub write_tokens : String → ConfigTarget → String → List String
unfolding id_token key_token
write_tokens device target key = elim target.existing [
  | none ↦ id_token target.new_id ∷ key_token device key ∷ []
  | some e ↦
      id_token target.new_id ∷ key_token device key ∷ id_token e.id ∷ key_token device e.key ∷ []
]

-- What a request has been told so far, and the devices it has registered.
pub record Told : Type 0 where
  pub devices : List Device
  pub success_ids : List String
  pub upload_status : List SuccessResult
  pub remote_changes : List ConfigChangeDelta

-- The state of the loop.
pub record Uploading : Type 0 where
  pub batch : ConfigBatch
  pub pending : ConfigPending
  pub runs : RunTracker ConfigKind
  pub rows : List ConfigRow
  pub told : Told
  pub broadcasts : List ConfigBroadcast

-- `ConfigData`, as far as an upload reads it.
pub record ConfigData : Type 0 where
  pub device_uuid : Option String
  pub version : ℤ
  pub is_deleted : Bool
  pub key : String
  pub value : String

unfoldable pub record_all : RunTracker ConfigKind → ConfigKind → List String → RunTracker ConfigKind
unfolding record_write
record_all runs kind [] = runs
record_all runs kind (t ∷ ts) = record_all (record_write runs kind t) kind ts

-- `tokens.iter().any(|token| runs.needs_flush(&kind, token))`
unfoldable pub any_needs_flush : RunTracker ConfigKind → ConfigKind → List String → Bool
unfolding needs_flush same_config_kind
any_needs_flush runs kind [] = false
any_needs_flush runs kind (t ∷ ts) =
    needs_flush same_config_kind runs kind t || any_needs_flush runs kind ts

unfoldable pub acknowledge : String → ℤ → Told → Told
acknowledge change_id version told = record told {
  upload_status = told.upload_status ++ synced change_id version ∷ [];
  success_ids = told.success_ids ++ change_id ∷ [];
}

unfoldable pub echo : String → ConfigRow → Told → Told
echo change_id row told = record told {
  remote_changes =
      told.remote_changes
      ++ record {
        id = change_id;
        operation_type = update;
        version = row.version;
        device_uuid = some row.device_uuid;
        payload = record row { sync_state = some (state_of row) };
      }
        ∷ [];
  success_ids = told.success_ids ++ change_id ∷ [];
}

module _ (req : ConfigRequest) where
  unfoldable pub flush_run : Uploading → Result Uploading
  unfolding flush_configs clear
  flush_run s = do
    flushed ← flush_configs req s.pending s.rows
    ok (record s {
      pending = no_writes;
      runs = clear s.runs;
      rows = flushed.0;
      broadcasts = s.broadcasts ++ flushed.1;
    })

  unfoldable pub flush_if : Bool → Uploading → Result Uploading
  unfolding flush_run
  flush_if true s = flush_run s
  flush_if false s = ok s

  unfoldable pub push_insert : String → ConfigWrite → List String → Uploading → Uploading
  unfolding record_all
  push_insert id w tokens s = record s {
    pending = record (s.pending) { ins = s.pending.ins ++ (id, w) ∷ [] };
    runs = record_all s.runs insert_kind tokens;
  }

  unfoldable pub push_update : String → ConfigWrite → List String → Uploading → Uploading
  unfolding record_all
  push_update id w tokens s = record s {
    pending = record (s.pending) { upd = s.pending.upd ++ (id, w) ∷ [] };
    runs = record_all s.runs update_in_place tokens;
  }

  -- A write that moves a row onto another id is issued on its own.
  unfoldable pub rename_now : String → String → ConfigWrite → Uploading → Result Uploading
  unfolding flush_run issue_update
  rename_now id new_id w s = do
    flushed ← flush_run s
    rows ← issue_update req id new_id w flushed.rows
    ok (record flushed { rows = rows })

  unfoldable pub buffer_config : ConfigTarget → ConfigWrite → Uploading → Result Uploading
  unfolding flush_if any_needs_flush write_tokens push_insert push_update rename_now
  buffer_config target w s =
      let tokens = write_tokens w.device_uuid target w.key in
      elim target.existing [
        | none ↦ (do
          flushed ← flush_if (any_needs_flush s.runs insert_kind tokens) s
          ok (push_insert target.new_id w tokens flushed))
        | some e ↦
            if str_eq e.id target.new_id
            then (do
              flushed ← flush_if (any_needs_flush s.runs update_in_place tokens) s
              ok (push_update e.id w tokens flushed))
            else rename_now e.id target.new_id w s
      ]

  unfoldable pub write_config : ConfigTarget → ConfigWrite → Uploading → Result Uploading
  unfolding buffer_config note_write inserted sync_item
  write_config target w s = do
    buffered ← buffer_config target w s
    ok (record buffered {
      batch = note_write buffered.batch w.device_uuid target w.key;
      broadcasts =
          buffered.broadcasts
          ++ record { device_uuid = w.device_uuid; item = sync_item (inserted req target.new_id w) }
            ∷ [];
    })
