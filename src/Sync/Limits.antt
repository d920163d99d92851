-- ===== src/Sync/Limits.antt =====
-- src/routes/sync/limits.rs: what a sync body may carry, checked before anything is written. The
-- length of a value's serialized form is serde's, and a parameter.
pub mod Depth
pub mod Acceptable
use teddy_fyi_api_rust.Prelude.{
  ℕ, zero, suc, ◌+◌, max, String, Option, none, some, List, [], ◌∷◌, ltb, if◌then◌else◌, length,
}
use teddy_fyi_api_rust.Prelude.Strings.{len}
use teddy_fyi_api_rust.Json.{
  Value, null, bool, number, string, array, object, Items, nil, cons, Fields, end, field, get,
  as_str,
}
use teddy_fyi_api_rust.Errors.{Result, ok, err, bad_request, ◌>>=◌, ◌>>◌}
use teddy_fyi_api_rust.Sync.Types.{DeviceChangeDelta, ConfigSyncItem, DrawingSyncItem, SyncRequest}

pub record SyncLimits : Type 0 where
  pub max_drawing_data_bytes : ℕ
  pub max_drawing_data_depth : ℕ
  pub max_config_key_bytes : ℕ
  pub max_config_value_bytes : ℕ
  pub max_items_per_collection : ℕ
  pub max_items_total : ℕ
  pub download_page_size : ℕ

abbrev pub default_limits : SyncLimits
default_limits = record {
  max_drawing_data_bytes = 524288;
  max_drawing_data_depth = 32;
  max_config_key_bytes = 128;
  max_config_value_bytes = 8192;
  max_items_per_collection = 10000;
  max_items_total = 20000;
  download_page_size = 200;
}

-- The nodes still to visit, each with its depth; the top of the stack is the head of the list.
unfoldable pub push_items : Items → ℕ → List (Value × ℕ) → List (Value × ℕ)
push_items nil depth stack = stack
push_items (cons v items) depth stack = push_items items depth ((v, depth) ∷ stack)

unfoldable pub push_fields : Fields → ℕ → List (Value × ℕ) → List (Value × ℕ)
push_fields end depth stack = stack
push_fields (field k v fields) depth stack = push_fields fields depth ((v, depth) ∷ stack)

unfoldable pub push_children : Value → ℕ → List (Value × ℕ) → List (Value × ℕ)
unfolding push_items push_fields
push_children (array items) depth stack = push_items items (suc depth) stack
push_children (object fields) depth stack = push_fields fields (suc depth) stack
push_children _ depth stack = stack

-- The `while` loop; one unit of fuel for each node that is popped.
unfoldable pub walk : ℕ → List (Value × ℕ) → ℕ → Option ℕ
unfolding push_children
walk fuel [] max_depth = some max_depth
walk zero ((node, depth) ∷ stack) max_depth = none
walk (suc fuel) ((node, depth) ∷ stack) max_depth =
    walk fuel (push_children node depth stack) (max max_depth depth)

unfoldable mutual
  pub nodes : Value → ℕ
  nodes (array items) = suc (nodes_of_items items)
  nodes (object fields) = suc (nodes_of_fields fields)
  nodes null = 1
  nodes (bool b) = 1
  nodes (number n) = 1
  nodes (string s) = 1

  pub nodes_of_items : Items → ℕ
  nodes_of_items nil = 0
  nodes_of_items (cons v items) = nodes v + nodes_of_items items

  pub nodes_of_fields : Fields → ℕ
  nodes_of_fields end = 0
  nodes_of_fields (field k v fields) = nodes v + nodes_of_fields fields

-- With a unit of fuel for each node of the value.
unfoldable pub json_depth : Value → ℕ
unfolding nodes walk
json_depth v = elim (walk (nodes v) ((v, 1) ∷ []) 0) [ none ↦ 0 | some depth ↦ depth ]

-- `for x in xs { check(x)?; }`
unfoldable pub check_all : {A : Type 0} → (A → Result (Unit {0})) → List A → Result (Unit {0})
check_all check [] = ok tt
check_all check (x ∷ xs) = do check x; check_all check xs

module _ (serialized_len : Value → ℕ) (limits : SyncLimits) where
  unfoldable pub check_drawing_data : String → Value → Result (Unit {0})
  unfolding json_depth
  check_drawing_data id drawing =
      if ltb limits.max_drawing_data_bytes (serialized_len drawing)
      then err (bad_request id)
      else if ltb limits.max_drawing_data_depth (json_depth drawing)
      then err (bad_request id)
      else ok tt

  unfoldable pub check_drawing_item : DrawingSyncItem → Result (Unit {0})
  check_drawing_item item = check_drawing_data item.id item.drawing

  -- The blob stands under the payload's own `data` key.
  unfoldable pub check_drawing_change : DeviceChangeDelta → Result (Unit {0})
  unfolding get
  check_drawing_change change = elim change.payload [
    | none ↦ ok tt
    | some payload ↦ elim (get payload "data") [
      | none ↦ ok tt
      | some blob ↦ check_drawing_data change.id blob
    ]
  ]

  unfoldable pub check_config_fields : String → String → String → Result (Unit {0})
  check_config_fields id key value =
      if ltb limits.max_config_key_bytes (len key)
      then err (bad_request id)
      else if ltb limits.max_config_value_bytes (len value)
      then err (bad_request id)
      else ok tt

  unfoldable pub check_config_item : ConfigSyncItem → Result (Unit {0})
  check_config_item item = check_config_fields item.id item.key item.value

  -- `payload.get(name).and_then(|v| v.as_str()).unwrap_or("")`
  unfoldable pub text_of : Value → String → String
  unfolding get as_str
  text_of payload name = elim (get payload name) [
    | none ↦ ""
    | some v ↦ elim (as_str v) [ none ↦ "" | some s ↦ s ]
  ]

  unfoldable pub check_config_change : DeviceChangeDelta → Result (Unit {0})
  unfolding text_of
  check_config_change change = elim change.payload [
    | none ↦ ok tt
    | some payload ↦ check_config_fields change.id (text_of payload "key") (text_of payload "value")
  ]

  unfoldable pub collections : SyncRequest → List (String × ℕ)
  collections payload =
      ("todoListChanges", length payload.todo_list_changes)
      ∷ ("todoChanges", length payload.todo_changes)
      ∷ ("groceryListChanges", length payload.grocery_list_changes)
      ∷ ("groceryListMemberChanges", length payload.grocery_list_member_changes)
      ∷ ("storeChanges", length payload.store_changes)
      ∷ ("categoryChanges", length payload.category_changes)
      ∷ ("groceryChanges", length payload.grocery_changes)
      ∷ ("groceryItemStoreInfoChanges", length payload.grocery_item_store_info_changes)
      ∷ ("configChanges", length payload.config_changes)
      ∷ ("drawingChanges", length payload.drawing_changes)
      ∷ ("configs", length payload.configs)
      ∷ ("drawings", length payload.drawings)
      ∷ []

  -- The first collection over its limit is named.
  unfoldable pub check_each : List (String × ℕ) → Result (Unit {0})
  check_each [] = ok tt
  check_each ((name, count) ∷ counts) =
      if ltb limits.max_items_per_collection count
      then err (bad_request name)
      else check_each counts

  unfoldable pub total : List (String × ℕ) → ℕ
  total [] = 0
  total ((name, count) ∷ counts) = count + total counts

  unfoldable pub check_total : ℕ → Result (Unit {0})
  check_total count =
      if ltb limits.max_items_total count then err (bad_request "request") else ok tt

  unfoldable pub check_item_counts : SyncRequest → Result (Unit {0})
  unfolding collections check_each check_total total
  check_item_counts payload = do
    check_each (collections payload)
    check_total (total (collections payload))

  unfoldable pub validate_sync_payload : SyncRequest → Result (Unit {0})
  validate_sync_payload payload = do
    check_item_counts payload
    check_all check_drawing_item payload.drawings
    check_all check_drawing_change payload.drawing_changes
    check_all check_config_item payload.configs
    check_all check_config_change payload.config_changes
