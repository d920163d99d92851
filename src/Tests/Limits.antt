-- ===== src/Tests/Limits.antt =====
-- src/routes/sync/limits.rs and src/routes/sync/scope_auth.rs at concrete inputs.
use teddy_fyi_api_rust.Prelude.{ℕ, ◌≡◌, ◌↔◌, ◌⊎◌, refl, none, some, [], ◌∷◌}
use teddy_fyi_api_rust.Prelude.Int.{pos}
use teddy_fyi_api_rust.Json.{Value, array, object, number, nil, cons, end, field}
use teddy_fyi_api_rust.Errors.{AppError, err, ok, into_response}
use teddy_fyi_api_rust.Sync.Types.{SyncRequest, update}
use teddy_fyi_api_rust.Sync.Limits.{default_limits, json_depth, validate_sync_payload}
use teddy_fyi_api_rust.Sync.Limits.Depth.{depth, json_depth-depth}
use teddy_fyi_api_rust.Sync.Limits.Acceptable.{
  Verdict, Acceptable, validate_sync_payload-Acceptable,
}
use teddy_fyi_api_rust.Sync.ScopeAuth.{authorize_scope, scribble_box, Owns, authorize_scope_iff}
use teddy_fyi_api_rust.Auth.Product.{Product, teddy_fyi, as_wire, from_wire, from_wire_iff}

-- { "data": [[1], 2] }
abbrev strokes : Value
strokes =
    object (field "data" (array (cons (array (cons (number 1) nil)) (cons (number 2) nil))) end)

-- Length of the text above, and of any other value.
abbrev text_len : Value → ℕ
text_len v = 16

abbrev body : SyncRequest
body = record {
  todo_list_changes = [];
  todo_changes = [];
  grocery_list_changes = [];
  grocery_list_member_changes = [];
  store_changes = [];
  category_changes = [];
  grocery_changes = [];
  grocery_item_store_info_changes = [];
  config_changes = [];
  drawing_changes =
      record {
        id = "d";
        operation_type = update;
        version = pos 1;
        device_uuid = none;
        payload = some strokes;
      }
      ∷ [];
  configs = [];
  drawings = [];
}

validate_sync_payload-Acceptable_example :
    Verdict
      (validate_sync_payload text_len default_limits body)
      (Acceptable text_len default_limits body)
validate_sync_payload-Acceptable_example =
    validate_sync_payload-Acceptable text_len default_limits body

json_depth-depth_example : json_depth strokes ≡ depth strokes
json_depth-depth_example = json_depth-depth strokes

strokes_depth : json_depth strokes ≡ 4
unfolding json_depth
strokes_depth = refl

authorize_scope_iff_example :
    ((authorize_scope (some teddy_fyi) scribble_box ≡ ok tt) ↔ (
      (some teddy_fyi ≡ none) ⊎ ((p : Product) × (some teddy_fyi ≡ some p) × Owns p scribble_box)))
    × ((e : AppError)
        → authorize_scope (some teddy_fyi) scribble_box ≡ err e
        → into_response e ≡ 403)
authorize_scope_iff_example = authorize_scope_iff (some teddy_fyi) scribble_box

from_wire_iff_example : (from_wire "teddy_fyi" ≡ some teddy_fyi) ↔ ("teddy_fyi" ≡ as_wire teddy_fyi)
from_wire_iff_example = from_wire_iff "teddy_fyi" teddy_fyi
