-- ===== src/Sync/Types.antt =====
-- The parts of src/routes/sync/types.rs that the processors share.
use teddy_fyi_api_rust.Prelude.{String, Option, Bool, true, false, List}
use teddy_fyi_api_rust.Prelude.Int.{ℤ}
use teddy_fyi_api_rust.Json.{Value}

pub data OperationType : Type 0 where
  insert update delete : OperationType

-- `matches!(change.operation_type, OperationType::Update)`
unfoldable pub is_update : OperationType → Bool
is_update update = true
is_update _ = false

-- The change deltas of the todo tables are one record: `TodoListChangeDelta`, `TodoChangeDelta`.
pub record ChangeDelta : Type 0 where
  pub id : String
  pub operation_type : OperationType
  pub version : ℤ
  pub payload : Option Value

pub record SuccessResult : Type 0 where
  pub id : String
  pub version : ℤ
  pub sync_state : String

abbrev pub synced : String → ℤ → SuccessResult
synced id version = record { id = id; version = version; sync_state = "SYNCED" }

pub record ConfigSyncItem : Type 0 where
  pub id : String
  pub device_uuid : Option String
  pub key : String
  pub value : String
  pub sync_state : String
  pub version : ℤ
  pub is_deleted : Bool
  pub last_modified : ℤ

-- `ConfigChangeDelta` and `DrawingChangeDelta` are one record.
pub record DeviceChangeDelta : Type 0 where
  pub id : String
  pub operation_type : OperationType
  pub version : ℤ
  pub device_uuid : Option String
  pub payload : Option Value

pub record StoreInfoChangeDelta : Type 0 where
  pub id : String
  pub grocery_item_id : String
  pub store_id : String
  pub operation_type : OperationType
  pub version : ℤ
  pub payload : Option Value

pub record DrawingSyncItem : Type 0 where
  pub id : String
  pub user_id : Option String
  pub device_uuid : Option String
  pub created_at : ℤ
  pub drawing : Value
  pub sync_state : String
  pub version : ℤ
  pub is_deleted : Bool
  pub last_modified : ℤ

-- The change collections of a `SyncRequest`.
pub record SyncRequest : Type 0 where
  pub todo_list_changes : List ChangeDelta
  pub todo_changes : List ChangeDelta
  pub grocery_list_changes : List ChangeDelta
  pub grocery_list_member_changes : List ChangeDelta
  pub store_changes : List ChangeDelta
  pub category_changes : List ChangeDelta
  pub grocery_changes : List ChangeDelta
  pub grocery_item_store_info_changes : List StoreInfoChangeDelta
  pub config_changes : List DeviceChangeDelta
  pub drawing_changes : List DeviceChangeDelta
  pub configs : List ConfigSyncItem
  pub drawings : List DrawingSyncItem
