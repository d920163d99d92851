-- ===== src/Sync/Config/Buffered.antt =====
-- What an upload of configs (src/routes/sync/config.rs) reads in the middle of its loop, while writes are
-- still in its run.
use teddy_fyi_api_rust.Prelude.{◌≡◌, refl, sym, subst, String, Option, none, List, map, arith}
use teddy_fyi_api_rust.Json.{Value}
use teddy_fyi_api_rust.Errors.{Result, ok}
use teddy_fyi_api_rust.Sync.Types.{DeviceChangeDelta}
use teddy_fyi_api_rust.Sync.Batching.{empty_run, clear, contains_id}
use teddy_fyi_api_rust.Sync.Devices.{Device}
use teddy_fyi_api_rust.Sync.Paging.Fetch.{ConfigRow}
use teddy_fyi_api_rust.Sync.Config.Statements.{ConfigRequest, find, has_id}
use teddy_fyi_api_rust.Sync.Config.Batch.{row_for, row_for_uncached}
use teddy_fyi_api_rust.Sync.Config.Loaded.{IsKeyed}
use teddy_fyi_api_rust.Sync.Config.Free.{IsFree, resolve_config_target_uncached-IsFree}
use teddy_fyi_api_rust.Sync.Config.Resolve.{resolve_config_target, resolve_config_target_uncached}
use teddy_fyi_api_rust.Sync.Config.Cached.{load-Sound}
use teddy_fyi_api_rust.Sync.Config.Buffer.{
  ConfigData, Told, Uploading, id_token, key_token, flush_if,
}
use teddy_fyi_api_rust.Sync.Config.Process.{Uploader, with_devices}
use teddy_fyi_api_rust.Sync.Config.Changes.{batch_devices, batch_keys, begin_upload, process_each}
use teddy_fyi_api_rust.Sync.Config.Alone.{Alone, process_alone}
use teddy_fyi_api_rust.Sync.Config.Tracks.{IsAt, Passed, flush_if-Passed, no_writes-Tracks}
use teddy_fyi_api_rust.Sync.Config.Lookups.{Passed-absent, row_for-at, resolve_config_target-at}
use teddy_fyi_api_rust.Sync.Config.Branches.{set}
use teddy_fyi_api_rust.Sync.Config.Equivalence.{each, each-Alike}

-- A guard of the loop passes where the table was to be `rows`.
passed_at :
    (req : ConfigRequest) (t : String) (s s' : Uploading) (rows : List ConfigRow)
    → IsAt req s rows
    → flush_if req (contains_id s.runs t) s ≡ ok s'
    → Passed req (contains_id s.runs t) s s' rows
passed_at req t s s' rows at h =
    let (v, passed) = flush_if-Passed req (contains_id s.runs t) s rows at in
    let same : v ≡ s' = ground (arith, passed.run, h) in
    subst (λ u. Passed req (contains_id s.runs t) s u rows) same passed

module _ (from_value : Value → Option ConfigData) (parse_or_hash_uuid : String → String)
    (parse : String → Option String) (new_v4 : DeviceChangeDelta → String) (who : Uploader)
    (batch done : List DeviceChangeDelta) (rows : List ConfigRow) (told : Told)
    (keyed : IsKeyed rows) where
  abbrev req : ConfigRequest
  req = who.request

  -- The upload of `batch` once its loop has gone through the changes `done`.
  abbrev pub reached : Result Uploading
  reached =
      process_each from_value parse_or_hash_uuid parse new_v4 who
        (set who (batch_devices parse batch) told.devices) done
        (begin_upload from_value parse_or_hash_uuid parse new_v4 who batch rows told)

  -- The same changes one at a time.
  abbrev pub issued : Result Alone
  issued =
      process_alone from_value parse_or_hash_uuid new_v4 who done
        record { rows = rows; told = told }

  module _ (s : Uploading) (a : Alone) (run : reached ≡ ok s) (alone : issued ≡ ok a) where
    reached_at : IsAt req s a.rows
    unfolding begin_upload clear empty_run each
    reached_at =
        let s0 = begin_upload from_value parse_or_hash_uuid parse new_v4 who batch rows told in
        let alike =
          each-Alike from_value parse_or_hash_uuid parse new_v4 who (batch_devices parse batch)
            told.devices done s0 record { rows = rows; told = told }
            (no_writes-Tracks req s0.batch s0.runs rows (
              load-Sound req.user_id (map (λ c. parse_or_hash_uuid c.id) batch) (batch_keys batch)
                rows keyed))
            refl (λ _. refl) in
        (rw (run, alone) at alike).0

    module _ (id : String) (s1 : Uploading)
        (guarded : flush_if req (contains_id s.runs (id_token id)) s ≡ ok s1) where
      by_id : Passed req (contains_id s.runs (id_token id)) s s1 a.rows
      by_id = passed_at req (id_token id) s s1 a.rows reached_at guarded

      -- Wherever the loop of an upload stands, its writes buffered or not, a row that is looked up
      -- behind the guard on its id is the one that a statement would find in the table that the
      -- changes so far leave one at a time, where they go through.
      pub row_for-issued :
          (device_filter : Option String)
          → row_for s1.batch req.user_id id device_filter s1.rows
            ≡ row_for_uncached req.user_id id device_filter a.rows
      row_for-issued device_filter =
          row_for-at req s1 a.rows by_id.at id (Passed-absent req (id_token id) s s1 a.rows by_id)
            device_filter

      -- Wherever the loop of an upload stands, its writes buffered or not, the target of a write behind
      -- the guards on its id and on its key is the one that the statements would give in the table that
      -- the changes so far leave one at a time, where they go through; and in that table an insert
      -- there finds neither its id nor its key in use, and an update finds neither in use outside the
      -- row that it writes, if no row has the id that is drawn.
      pub resolved-IsFree :
          (fresh device key : String) (after : List Device) (s2 : Uploading)
          → flush_if req (contains_id s1.runs (key_token device key)) (with_devices after s1)
            ≡ ok s2
          → find (has_id fresh) a.rows ≡ none
          → (resolve_config_target s2.batch fresh req.user_id device id key s2.rows
              ≡ resolve_config_target_uncached fresh req.user_id device id key a.rows)
            × IsFree req.user_id device key a.rows
                (resolve_config_target s2.batch fresh req.user_id device id key s2.rows)
      unfolding with_devices
      resolved-IsFree fresh device key after s2 key_guarded unused =
          let by_key =
            passed_at req (key_token device key) (with_devices after s1) s2 a.rows by_id.at
              key_guarded in
          let same =
            resolve_config_target-at req s2 a.rows by_key.at id
              (by_key.fewer (id_token id) (Passed-absent req (id_token id) s s1 a.rows by_id))
              device key
              (Passed-absent req (key_token device key) (with_devices after s1) s2 a.rows by_key)
              fresh in
          (
            same,
            subst (IsFree req.user_id device key a.rows) (sym same) (
                resolve_config_target_uncached-IsFree req.user_id device key a.rows
                  by_key.at.sound.keyed fresh id unused),
          )
