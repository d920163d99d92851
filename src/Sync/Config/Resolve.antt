-- ===== src/Sync/Config/Resolve.antt =====
-- Where an uploaded config lands (src/routes/sync/config.rs): `resolve_config_target` from the
-- prefetch, and the statements it falls back to. `fresh` is what `Uuid::new_v4` returns.
use teddy_fyi_api_rust.Prelude.{
  String, Bool, true, false, Option, none, some, List, str_eq, ◌&&◌, if◌then◌else◌,
}
use teddy_fyi_api_rust.Sync.Paging.Fetch.{ConfigRow}
use teddy_fyi_api_rust.Sync.Config.Statements.{
  find, has_id, has_device_id, has_key, ConfigRequest, ConfigWrite, insert_config, update_config,
}
use teddy_fyi_api_rust.Sync.Config.Batch.{
  ConfigBatch, ConfigTarget, ExistingConfig, has, id_at, target_is_fresh, keep_if,
}

unfoldable pub choose_new_id : String → Option ExistingConfig → Bool → String → String
choose_new_id fresh (some row) true submitted_id = row.id
choose_new_id fresh none true submitted_id = fresh
choose_new_id fresh _ false submitted_id = submitted_id

abbrev pub existing_of : Option ConfigRow → Option ExistingConfig
existing_of none = none
existing_of (some row) = some record { id = row.id; version = row.version; key = row.key }

-- `by_key.or(by_id)`
abbrev pub or_row : Option ConfigRow → Option ConfigRow → Option ConfigRow
or_row none b = b
or_row (some row) b = some row

abbrev pub is_some : Option ConfigRow → Bool
is_some none = false
is_some (some _) = true

unfoldable pub target_of :
    String → Option ConfigRow → Option ConfigRow → Bool → String → ConfigTarget
unfolding choose_new_id
target_of fresh by_key by_id id_taken submitted_id =
    let existing = existing_of (or_row by_key by_id) in
    record { existing = existing; new_id = choose_new_id fresh existing id_taken submitted_id }

unfoldable pub resolve_config_target_uncached :
    String → String → String → String → String → List ConfigRow → ConfigTarget
unfolding find target_of
resolve_config_target_uncached fresh user device submitted_id key rows =
    target_of fresh (find (has_key user device key) rows)
      (find (has_device_id user submitted_id device) rows)
      (is_some (find (has_id submitted_id) rows)) submitted_id

abbrev pub row_of : Option String → List ConfigRow → Option ConfigRow
row_of none rows = none
row_of (some id) rows = find (has_id id) rows

unfoldable pub resolve_config_target :
    ConfigBatch → String → String → String → String → String → List ConfigRow → ConfigTarget
unfolding target_is_fresh id_at find target_of has resolve_config_target_uncached
resolve_config_target batch fresh user device submitted_id key rows =
    if target_is_fresh batch submitted_id device key
    then target_of fresh (row_of (id_at batch.by_key (device, key)) batch.by_id)
        (keep_if (λ row. str_eq row.user_id user && str_eq row.device_uuid device)
          (find (has_id submitted_id) batch.by_id))
        (has batch.taken_ids submitted_id) submitted_id
    else resolve_config_target_uncached fresh user device submitted_id key rows

-- What `write_config` writes for a target: an update of the row that is there, or an insert.
unfoldable pub write_target :
    ConfigRequest → ConfigTarget → ConfigWrite → List ConfigRow → List ConfigRow
unfolding insert_config update_config
write_target req target w rows = elim target.existing [
  | none ↦ insert_config req target.new_id w rows
  | some existing ↦ update_config req existing.id target.new_id w rows
]
