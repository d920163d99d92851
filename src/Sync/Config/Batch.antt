-- ===== src/Sync/Config/Batch.antt =====
-- `ConfigBatch` (src/routes/sync/config.rs): the rows that an upload reads once before its loop, and
-- the record of what it has written since. A hash map is the list of its insertions, the last first.
use teddy_fyi_api_rust.Prelude.{
  String, Bool, true, false, not, ◌&&◌, ◌||◌, Option, none, some, List, [], ◌∷◌, map, str_eq,
  filter, if◌then◌else◌,
}
use teddy_fyi_api_rust.Prelude.Int.{ℤ}
use teddy_fyi_api_rust.Sync.Paging.Fetch.{ConfigRow}
use teddy_fyi_api_rust.Sync.Config.Statements.{find, has_id, has_owned_id}

-- A device and a key.
abbrev pub Place : Type 0
Place = String × String

abbrev pub place_eq : Place → Place → Bool
place_eq a b = str_eq a.0 b.0 && str_eq a.1 b.1

unfoldable pub has : List String → String → Bool
has [] id = false
has (x ∷ xs) id = str_eq x id || has xs id

unfoldable pub has_place : List Place → Place → Bool
has_place [] p = false
has_place (x ∷ xs) p = place_eq x p || has_place xs p

unfoldable pub id_at : List (Place × String) → Place → Option String
id_at [] p = none
id_at ((place, id) ∷ xs) p = if place_eq place p then some id else id_at xs p

pub record ConfigBatch : Type 0 where
  pub by_id : List ConfigRow
  pub by_key : List (Place × String)
  pub taken_ids : List String
  pub prefetched_ids : List String
  pub prefetched_keys : List String
  pub stale_ids : List String
  pub stale_keys : List Place

pub record ExistingConfig : Type 0 where
  pub id : String
  pub version : ℤ
  pub key : String

-- Where a write lands, and the id that the row carries after it.
pub record ConfigTarget : Type 0 where
  pub existing : Option ExistingConfig
  pub new_id : String

unfoldable pub remember : ConfigBatch → ConfigRow → ConfigBatch
remember batch row = record batch {
  by_key = ((row.device_uuid, row.key), row.id) ∷ batch.by_key;
  by_id = row ∷ batch.by_id;
}

unfoldable pub remember_all : ConfigBatch → List ConfigRow → ConfigBatch
unfolding remember
remember_all batch [] = batch
remember_all batch (row ∷ rows) = remember_all (remember batch row) rows

unfoldable pub empty_batch : List String → List String → List String → ConfigBatch
empty_batch ids keys taken = record {
  by_id = [];
  by_key = [];
  taken_ids = taken;
  prefetched_ids = ids;
  prefetched_keys = keys;
  stale_ids = [];
  stale_keys = [];
}

-- The queries of an empty list of ids or of keys find nothing, as the code does without them.
unfoldable pub load : String → List String → List String → List ConfigRow → ConfigBatch
unfolding remember_all has empty_batch
load user ids keys rows =
    let taken = map (λ row. row.id) (filter (λ row. has ids row.id) rows) in
    remember_all
      (remember_all (empty_batch ids keys taken)
        (filter (λ row. has ids row.id && str_eq row.user_id user) rows))
      (filter (λ row. str_eq row.user_id user && has keys row.key) rows)

unfoldable pub id_is_fresh : ConfigBatch → String → Bool
unfolding has
id_is_fresh batch id = has batch.prefetched_ids id && not (has batch.stale_ids id)

unfoldable pub target_is_fresh : ConfigBatch → String → String → String → Bool
unfolding id_is_fresh has_place has
target_is_fresh batch id device key =
    id_is_fresh batch id
    && (has batch.prefetched_keys key && not (has_place batch.stale_keys (device, key)))

abbrev pub in_device : Option String → ConfigRow → Bool
in_device none row = true
in_device (some device) row = str_eq row.device_uuid device

abbrev pub keep_if : (ConfigRow → Bool) → Option ConfigRow → Option ConfigRow
keep_if p none = none
keep_if p (some row) = if p row then some row else none

-- The statement that `row_for` falls back to.
unfoldable pub row_for_uncached :
    String → String → Option String → List ConfigRow → Option ConfigRow
unfolding find
row_for_uncached user id device_filter rows =
    find (λ row. has_owned_id user id row && in_device device_filter row) rows

unfoldable pub row_for :
    ConfigBatch → String → String → Option String → List ConfigRow → Option ConfigRow
unfolding find id_is_fresh row_for_uncached
row_for batch user id device_filter rows =
    if id_is_fresh batch id
    then keep_if (λ row. str_eq row.user_id user && in_device device_filter row)
        (find (has_id id) batch.by_id)
    else row_for_uncached user id device_filter rows

unfoldable pub note_write : ConfigBatch → String → ConfigTarget → String → ConfigBatch
note_write batch device target key = elim target.existing [
  | none ↦ record batch {
    stale_ids = target.new_id ∷ batch.stale_ids;
    stale_keys = (device, key) ∷ batch.stale_keys;
  }
  | some existing ↦ record batch {
    stale_ids = existing.id ∷ target.new_id ∷ batch.stale_ids;
    stale_keys = (device, existing.key) ∷ (device, key) ∷ batch.stale_keys;
  }
]

unfoldable pub note_version_bump : ConfigBatch → String → String → String → ConfigBatch
note_version_bump batch device id key = record batch {
  stale_ids = id ∷ batch.stale_ids;
  stale_keys = (device, key) ∷ batch.stale_keys;
}
