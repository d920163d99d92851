-- ===== src/Sync/Limits/Acceptable.antt =====
-- What `validate_sync_payload` (src/routes/sync/limits.rs) lets through.
use teddy_fyi_api_rust.Prelude.{
  ℕ, ◌+◌, ◌≤◌, length, ◌≡◌, refl, String, Option, none, some, List, [], ◌∷◌, ◌↔◌, arith,
  Option-cases, Bool-cases, inl, inr, ltb,
}
use teddy_fyi_api_rust.Prelude.Strings.{len}
use teddy_fyi_api_rust.Json.{Value, null, bool, number, string, array, object, get, as_str}
use teddy_fyi_api_rust.Errors.{AppError, Result, ok, err, into_response, ◌>>◌}
use teddy_fyi_api_rust.Sync.Types.{DeviceChangeDelta, SyncRequest}
use teddy_fyi_api_rust.Sync.Limits.{
  SyncLimits, check_drawing_data, check_drawing_item, check_drawing_change, check_config_fields,
  check_config_item, check_config_change, text_of, collections, check_each, total, check_total,
  check_item_counts, check_all, validate_sync_payload,
}
use teddy_fyi_api_rust.Sync.Limits.Depth.{depth, json_depth-depth}

abbrev pub All : {A : Type 0} → (A → Type 0) → List A → Type 0
All P [] = Unit {0}
All P (x ∷ xs) = P x × All P xs

abbrev pub IfSome : {A : Type 0} → (A → Type 0) → Option A → Type 0
IfSome P none = Unit {0}
IfSome P (some a) = P a

-- A check passes exactly where `P` holds, and refuses with a 400.
abbrev pub Verdict : Result (Unit {0}) → Type 0 → Type 0
Verdict r P = ((r ≡ ok tt) ↔ P) × ((e : AppError) → r ≡ err e → into_response e ≡ 400)

passes : Verdict (ok tt) (Unit {0})
passes = (((λ e. tt), λ e. refl), λ e q. ground arith)

both :
    (r s : Result (Unit {0})) (P Q : Type 0) → Verdict r P → Verdict s Q → Verdict (r >> s) (P × Q)
both (ok tt) s P Q (h, h') (k, k') = (((λ e. (h.0 refl, k.0 e)), λ e. k.1 e.1), k')
both (err x) s P Q (h, h') k = (((λ e. ground arith), λ e. h.1 e.0), h')

check_all-Verdict :
    {A : Type 0} (check : A → Result (Unit {0})) (P : A → Type 0)
    → ((x : A) → Verdict (check x) (P x))
    → (xs : List A) → Verdict (check_all check xs) (All P xs)
unfolding check_all
check_all-Verdict check P h [] = passes
check_all-Verdict check P h (x ∷ xs) = both _ _ _ _ (h x) (check_all-Verdict check P h xs)

module _ (serialized_len : Value → ℕ) (limits : SyncLimits) where
  abbrev pub FitsDrawing : Value → Type 0
  FitsDrawing v =
      (serialized_len v ≤ limits.max_drawing_data_bytes) × (depth v ≤ limits.max_drawing_data_depth)

  abbrev pub FitsConfig : String → String → Type 0
  FitsConfig key value =
      (len key ≤ limits.max_config_key_bytes) × (len value ≤ limits.max_config_value_bytes)

  -- A text under a name of the payload, or the empty one where there is none.
  abbrev pub named_text : Option Value → String
  named_text (some (string s)) = s
  named_text _ = ""

  -- The blob of a drawing change, if it carries one, fits; and the key and value of a config change.
  abbrev pub FitsDrawingChange : DeviceChangeDelta → Type 0
  FitsDrawingChange change = IfSome (λ v. IfSome FitsDrawing (get v "data")) change.payload

  abbrev pub FitsConfigChange : DeviceChangeDelta → Type 0
  FitsConfigChange change =
      IfSome (λ v. FitsConfig (named_text (get v "key")) (named_text (get v "value")))
        change.payload

  drawing_data-Verdict :
      (id : String) (v : Value)
      → Verdict (check_drawing_data serialized_len limits id v) (FitsDrawing v)
  unfolding check_drawing_data into_response
  drawing_data-Verdict id v = (
    ((λ e. ground (arith, json_depth-depth v)), λ f. ground (arith, json_depth-depth v, f.0, f.1)),
    λ e q. ground arith,
  )

  config_fields-Verdict :
      (id key value : String)
      → Verdict (check_config_fields serialized_len limits id key value) (FitsConfig key value)
  unfolding check_config_fields into_response
  config_fields-Verdict id key value =
      (((λ e. ground arith), λ f. ground (arith, f.0, f.1)), λ e q. ground arith)

  blob-Verdict :
      (id : String) (blob : Option Value)
      → Verdict
          (elim blob [ none ↦ ok tt | some b ↦ check_drawing_data serialized_len limits id b ])
          (IfSome FitsDrawing blob)
  blob-Verdict id none = passes
  blob-Verdict id (some b) = drawing_data-Verdict id b

  drawing_change-Verdict :
      (c : DeviceChangeDelta)
      → Verdict (check_drawing_change serialized_len limits c) (FitsDrawingChange c)
  unfolding check_drawing_change
  drawing_change-Verdict c = elim (Option-cases c.payload) [
    | inl e ↦ rw e passes
    | inr (v, e) ↦ rw e (blob-Verdict c.id (get v "data"))
  ]

  text_of-named :
      (v : Value) (name : String) → text_of serialized_len limits v name ≡ named_text (get v name)
  unfolding text_of as_str
  text_of-named v name = go (get v name)
    where
      go :
          (found : Option Value)
          → elim found [ none ↦ "" | some w ↦ elim (as_str w) [ none ↦ "" | some s ↦ s ] ]
            ≡ named_text found
      go none = refl
      go (some null) = refl
      go (some (bool b)) = refl
      go (some (number n)) = refl
      go (some (string s)) = refl
      go (some (array items)) = refl
      go (some (object fields)) = refl

  config_change-Verdict :
      (c : DeviceChangeDelta)
      → Verdict (check_config_change serialized_len limits c) (FitsConfigChange c)
  unfolding check_config_change
  config_change-Verdict c = elim (Option-cases c.payload) [
    | inl e ↦ rw e passes
    | inr (v, e) ↦
        rw (e, text_of-named v "key", text_of-named v "value") (config_fields-Verdict c.id _ _)
  ]

  each-Verdict :
      (counts : List (String × ℕ))
      → Verdict
          (check_each serialized_len limits counts)
          (All (λ c. c.1 ≤ limits.max_items_per_collection) counts)
  unfolding check_each into_response
  each-Verdict [] = passes
  each-Verdict ((name, count) ∷ counts) =
      let ih = each-Verdict counts in
      elim (Bool-cases (ltb limits.max_items_per_collection count)) [
        | inl h ↦ rw h (((λ e. ground arith), λ f. ground (arith, f.0)), λ e q. ground arith)
        | inr h ↦ rw h (((λ e. (ground arith, ih.0.0 e)), λ f. ih.0.1 f.1), ih.1)
      ]

  total-Verdict :
      (n : ℕ) → Verdict (check_total serialized_len limits n) (n ≤ limits.max_items_total)
  unfolding check_total into_response
  total-Verdict n = (((λ e. ground arith), λ f. ground (arith, f)), λ e q. ground arith)

  abbrev pub IsFew : {A : Type 0} → List A → Type 0
  IsFew xs = length xs ≤ limits.max_items_per_collection

  -- Each collection of a body by its name, and all of them together.
  abbrev pub WithinCounts : SyncRequest → Type 0
  WithinCounts payload =
      IsFew payload.todo_list_changes
      × IsFew payload.todo_changes
      × IsFew payload.grocery_list_changes
      × IsFew payload.grocery_list_member_changes
      × IsFew payload.store_changes
      × IsFew payload.category_changes
      × IsFew payload.grocery_changes
      × IsFew payload.grocery_item_store_info_changes
      × IsFew payload.config_changes
      × IsFew payload.drawing_changes
      × IsFew payload.configs
      × IsFew payload.drawings
      × (length payload.todo_list_changes
            + length payload.todo_changes
            + length payload.grocery_list_changes
            + length payload.grocery_list_member_changes
            + length payload.store_changes
            + length payload.category_changes
            + length payload.grocery_changes
            + length payload.grocery_item_store_info_changes
            + length payload.config_changes
            + length payload.drawing_changes
            + length payload.configs
            + length payload.drawings
          ≤ limits.max_items_total)

  -- What a body may carry.
  abbrev pub Acceptable : SyncRequest → Type 0
  Acceptable payload =
      WithinCounts payload
      × (All (λ item. FitsDrawing item.drawing) payload.drawings
          × (All FitsDrawingChange payload.drawing_changes
              × (All (λ item. FitsConfig item.key item.value) payload.configs
                  × All FitsConfigChange payload.config_changes)))

  -- The same condition, by the collections as the check lists them.
  counts_listed :
      (payload : SyncRequest)
      → (All
            (λ c. c.1 ≤ limits.max_items_per_collection)
            (collections serialized_len limits payload)
          × (total serialized_len limits (collections serialized_len limits payload)
              ≤ limits.max_items_total))
        ↔ WithinCounts payload
  unfolding collections total
  counts_listed payload = (
    λ e. (
      e.0.0,
      e.0.1.0,
      e.0.1.1.0,
      e.0.1.1.1.0,
      e.0.1.1.1.1.0,
      e.0.1.1.1.1.1.0,
      e.0.1.1.1.1.1.1.0,
      e.0.1.1.1.1.1.1.1.0,
      e.0.1.1.1.1.1.1.1.1.0,
      e.0.1.1.1.1.1.1.1.1.1.0,
      e.0.1.1.1.1.1.1.1.1.1.1.0,
      e.0.1.1.1.1.1.1.1.1.1.1.1.0,
      omega (arith, e.1),
    ),
    λ w. (
      (w.0, (w.1, (w.2, (w.3, (w.4, (w.5, (w.6, (w.7, (w.8, (w.9, (w.10, (w.11, tt)))))))))))),
      omega (arith, w.12),
    ),
  )

  counts-Verdict :
      (payload : SyncRequest)
      → Verdict (check_item_counts serialized_len limits payload) (WithinCounts payload)
  unfolding check_item_counts
  counts-Verdict payload =
      let (h, refused) =
        both _ _ _ _ (each-Verdict (collections serialized_len limits payload)) (total-Verdict _) in
      let same = counts_listed payload in (((λ e. same.0 (h.0 e)), λ w. h.1 (same.1 w)), refused)

  -- A body is let through exactly when each of its twelve collections and their total are within the
  -- limits, every drawing is within the limits on bytes and on nesting, and every config's key and
  -- value are within theirs; every other body is refused with a 400.
  pub validate_sync_payload-Acceptable :
      (payload : SyncRequest)
      → Verdict (validate_sync_payload serialized_len limits payload) (Acceptable payload)
  unfolding validate_sync_payload check_drawing_item check_config_item
  validate_sync_payload-Acceptable payload =
      both (check_item_counts serialized_len limits payload) _ _ _ (counts-Verdict payload) (
        both (check_all (check_drawing_item serialized_len limits) payload.drawings) _ _ _
          (check_all-Verdict _ _ (λ item. drawing_data-Verdict item.id item.drawing)
            payload.drawings)
          (both (check_all (check_drawing_change serialized_len limits) payload.drawing_changes) _ _
            _ (check_all-Verdict _ _ drawing_change-Verdict payload.drawing_changes)
            (both (check_all (check_config_item serialized_len limits) payload.configs) _ _ _
              (check_all-Verdict _ _ (λ item. config_fields-Verdict item.id item.key item.value)
                payload.configs)
              (check_all-Verdict _ _ config_change-Verdict payload.config_changes))))
