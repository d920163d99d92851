-- ===== src/Sync/Devices/Registered.antt =====
-- The devices that a batch looks up once (src/routes/sync/device.rs) against the lookup of each row's.
use teddy_fyi_api_rust.Prelude.{
  ℕ, ◌≡◌, refl, sym, subst, String, Bool, true, false, ◌&&◌, Option, none, some, List, [], ◌∷◌, map,
  arith, str_eq_iff, filter, inl, inr, Bool-cases,
}
use teddy_fyi_api_rust.Errors.{ok}
use teddy_fyi_api_rust.Sync.Devices.{
  Device, ItemDeviceRule, request_device, row_must_name, contains, find_device, names, owned_by,
  require_registered_device, registered_device_set, resolve_item_device, resolve_item_device_cached,
}

abbrev pub is_registered : String → List Device → String → Bool
is_registered user ds id = elim (find_device (λ d. names id d && owned_by user d) ds) [
  | none ↦ false
  | some _ ↦ true
]

-- Whatever is in the set is registered to the account.
prefetched_registered :
    (p : Device → Bool) (user : String) (ds : List Device) (id : String)
    → contains (map (λ d. d.id) (filter (λ d. p d && owned_by user d) ds)) id ≡ true
    → is_registered user ds id ≡ true
unfolding find_device contains
prefetched_registered p user [] id h = cc
prefetched_registered p user (d ∷ ds) id h =
    ground (arith, prefetched_registered p user ds id, str_eq_iff d.id id)

module _ (limit : ℕ) (user : String) (candidates : List String) (ds now : List Device)
    (kept : (id : String)
      → is_registered user ds id ≡ true
      → is_registered user now id ≡ true) where
  -- The set of the devices that a batch names, read at its start, answers for a row what the statement
  -- for that row would, refusals included, as long as no device of the account has gone since.
  pub resolve_item_device_cached_lem :
      (rule : ItemDeviceRule) (item_device : Option String) (item_id : String)
      → resolve_item_device_cached limit
          (registered_device_set rule user candidates ds)
          rule
          user
          item_device
          item_id
          now
        ≡ resolve_item_device limit rule user item_device item_id now
  unfolding resolve_item_device_cached resolve_item_device require_registered_device
      registered_device_set
  resolve_item_device_cached_lem (request_device own) none item_id = refl
  resolve_item_device_cached_lem (request_device own) (some id) item_id = refl
  resolve_item_device_cached_lem row_must_name none item_id = refl
  resolve_item_device_cached_lem row_must_name (some id) item_id =
      let set = registered_device_set row_must_name user candidates ds in
      elim (Bool-cases (contains set id)) [
        | inr n ↦ rw n refl
        | inl h ↦
            ground (
              arith,
              h,
              kept id (prefetched_registered (λ d. contains candidates d.id) user ds id h),
            )
      ]

-- What a batch relies on: where rows must name their device, no device has come or gone.
abbrev pub IsSteady : List Device → ItemDeviceRule → List Device → Type 0
IsSteady ds rule devices = rule ≡ row_must_name → devices ≡ ds

module _ (limit : ℕ) (user : String) (candidates : List String) (ds now : List Device) where
  pub resolve_item_device_cached_steady :
      (rule : ItemDeviceRule) (item_device : Option String) (item_id : String)
      → IsSteady ds rule now
      → resolve_item_device_cached limit
          (registered_device_set rule user candidates ds)
          rule
          user
          item_device
          item_id
          now
        ≡ resolve_item_device limit rule user item_device item_id now
  unfolding resolve_item_device_cached registered_device_set
  resolve_item_device_cached_steady (request_device own) none item_id h = refl
  resolve_item_device_cached_steady (request_device own) (some id) item_id h = refl
  resolve_item_device_cached_steady row_must_name item_device item_id h =
      resolve_item_device_cached_lem limit user candidates ds now
        (λ id k. subst (λ t. is_registered user t id ≡ true) (sym (h refl)) k) row_must_name
        item_device item_id

  pub resolve_item_device-IsSteady :
      (rule : ItemDeviceRule) (item_device : Option String) (item_id device : String)
      (after : List Device)
      → IsSteady ds rule now
      → resolve_item_device limit rule user item_device item_id now ≡ ok (device, after)
      → IsSteady ds rule after
  unfolding resolve_item_device require_registered_device
  resolve_item_device-IsSteady (request_device own) item_device item_id device after h e = λ q. cc
  resolve_item_device-IsSteady row_must_name none item_id device after h e = cc
  resolve_item_device-IsSteady row_must_name (some id) item_id device after h e =
      λ q. ground (arith, e, h q)
