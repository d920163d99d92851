-- ===== src/Json.antt =====
-- A `serde_json::Value`, as far as the source takes one apart by its constructors.
use teddy_fyi_api_rust.Prelude.{
  ℕ, String, Bool, true, false, Option, none, some, str_eq, if◌then◌else◌,
}

-- Numbers are kept as an opaque code: no code that is modelled reads one.
mutual
  pub data Value : Type 0 where
    null : Value
    bool : Bool → Value
    number : ℕ → Value
    string : String → Value
    array : Items → Value
    object : Fields → Value

  pub data Items : Type 0 where
    nil : Items
    cons : Value → Items → Items

  pub data Fields : Type 0 where
    end : Fields
    field : String → Value → Fields → Fields

-- `Value::is_null`
unfoldable pub is_null : Value → Bool
is_null null = true
is_null _ = false

find_field : String → Fields → Option Value
find_field k end = none
find_field k (field j v rest) = if str_eq j k then some v else find_field k rest

-- `Value::get` with a string index: only an object has fields.
unfoldable pub get : Value → String → Option Value
unfolding find_field
get (object fields) k = find_field k fields
get _ k = none

-- `Value::as_str`
unfoldable pub as_str : Value → Option String
as_str (string s) = some s
as_str _ = none
