-- ===== src/Sync/Devices.antt =====
-- src/routes/sync/device.rs: which device a request and an uploaded row belong to. The table `devices`
-- is the list of its rows in the order of their creation; an id that is drawn is an argument.
pub mod Cap
pub mod Registered
use teddy_fyi_api_rust.Prelude.{
  ℕ, suc, String, Bool, true, false, not, ◌&&◌, ◌||◌, Option, none, some, List, [], ◌∷◌, ◌++◌, map,
  leb, ◌==◌, str_eq, filter, length, if◌then◌else◌,
}
use teddy_fyi_api_rust.Prelude.Strings.{trim, len}
use teddy_fyi_api_rust.Errors.{
  Result, ok, err, bad_request, forbidden, not_found, too_many_requests, ◌>>=◌, ◌>>◌,
}

pub record Device : Type 0 where
  pub id : String
  pub user_id : String
  pub name : String

-- `RequestDevice` carries the tablet that the request speaks for.
pub data ItemDeviceRule : Type 0 where
  request_device : String → ItemDeviceRule
  row_must_name : ItemDeviceRule

abbrev pub default_device_name : String
default_device_name = "Tablet"

unfoldable pub contains : List String → String → Bool
contains [] id = false
contains (x ∷ xs) id = str_eq x id || contains xs id

unfoldable pub find_device : (Device → Bool) → List Device → Option Device
find_device p [] = none
find_device p (d ∷ ds) = if p d then some d else find_device p ds

abbrev pub names : String → Device → Bool
names id d = str_eq d.id id

abbrev pub owned_by : String → Device → Bool
owned_by user d = str_eq d.user_id user

-- `SELECT COUNT(*) FROM devices WHERE user_id = $1`
unfoldable pub registered_count : String → List Device → ℕ
registered_count user ds = length (filter (owned_by user) ds)

-- `name.map(str::trim).filter(|n| !n.is_empty())`
unfoldable pub clean_name : Option String → Option String
clean_name none = none
clean_name (some name) = let n = trim name in if len n == 0 then none else some n

abbrev pub unwrap_or : Option String → String → String
unwrap_or none d = d
unwrap_or (some n) d = n

-- `UPDATE devices SET name = $1 WHERE id = $2`, where a name came that is not the stored one.
unfoldable pub rename : Option String → Device → List Device → List Device
rename none row ds = ds
rename (some name) row ds =
    if str_eq name row.name
    then ds
    else map (λ d. if str_eq d.id row.id then record d { name = name } else d) ds

-- Unknown ids and ids of other accounts are reported alike.
unfoldable pub require_registered_device : String → String → List Device → Result (Unit {0})
unfolding find_device
require_registered_device user id ds = elim (find_device (λ d. names id d && owned_by user d) ds) [
  | none ↦ err (not_found id)
  | some _ ↦ ok tt
]

module _ (max_devices_per_account : ℕ) where
  unfoldable pub ensure_device :
      String → String → Option String → List Device → Result (List Device)
  unfolding find_device registered_count clean_name rename
  ensure_device user id name ds = elim (find_device (names id) ds) [
    | some row ↦
        if str_eq row.user_id user then ok (rename (clean_name name) row ds) else err (forbidden id)
    | none ↦
        if leb max_devices_per_account (registered_count user ds)
        then err too_many_requests
        else ok (
            ds
            ++ record {
              id = id;
              user_id = user;
              name = unwrap_or (clean_name name) default_device_name;
            }
              ∷ [])
  ]

  unfoldable pub resolve_item_device :
      ItemDeviceRule → String → Option String → String → List Device → Result (String × List Device)
  unfolding ensure_device require_registered_device
  resolve_item_device (request_device own) user (some id) item_id ds =
      if str_eq id own then ok (id, ds) else (do ds' ← ensure_device user id none ds; ok (id, ds'))
  resolve_item_device (request_device own) user none item_id ds = ok (own, ds)
  resolve_item_device row_must_name user (some id) item_id ds =
      require_registered_device user id ds >> ok (id, ds)
  resolve_item_device row_must_name user none item_id ds = err (bad_request item_id)

  unfoldable pub resolve_item_device_cached :
      List String
      → ItemDeviceRule
      → String
      → Option String
      → String
      → List Device
      → Result (String × List Device)
  unfolding resolve_item_device
  resolve_item_device_cached registered row_must_name user (some id) item_id ds =
      if contains registered id
      then ok (id, ds)
      else resolve_item_device row_must_name user (some id) item_id ds
  resolve_item_device_cached registered rule user item_device item_id ds =
      resolve_item_device rule user item_device item_id ds

  unfoldable pub fallback_device :
      String → String → Option String → List Device → String × List Device
  unfolding find_device clean_name
  fallback_device fresh user name ds = elim (find_device (owned_by user) ds) [
    | some row ↦ (row.id, ds)
    | none ↦ (
      fresh,
      ds
          ++ record {
            id = fresh;
            user_id = user;
            name = unwrap_or (clean_name name) default_device_name;
          }
            ∷ [],
    )
  ]

  unfoldable pub resolve_sync_device :
      String → String → Option String → Option String → List Device → Result (String × List Device)
  unfolding ensure_device fallback_device
  resolve_sync_device fresh user (some id) name ds = do
    ds' ← ensure_device user id name ds
    ok (id, ds')
  resolve_sync_device fresh user none name ds = ok (fallback_device fresh user name ds)

-- The set is empty unless rows must name their device.
unfoldable pub registered_device_set :
    ItemDeviceRule → String → List String → List Device → List String
registered_device_set (request_device own) user candidates ds = []
registered_device_set row_must_name user candidates ds =
    map (λ d. d.id) (filter (λ d. contains candidates d.id && owned_by user d) ds)

-- `existing_fallback_device`: that of `fallback_device`, without registering one.
unfoldable pub existing_fallback_device : String → List Device → Option String
unfolding find_device
existing_fallback_device user ds = elim (find_device (owned_by user) ds) [
  | none ↦ none
  | some row ↦ some row.id
]
