-- ===== src/Sync/Limits/Depth.antt =====
-- The explicit stack of `json_depth` (src/routes/sync/limits.rs) against the nesting of the value.
use teddy_fyi_api_rust.Prelude.{
  ℕ, zero, suc, ◌+◌, ◌-◌, ◌≤◌, max, ◌≡◌, refl, ap, ◌∙◌, some, List, [], ◌∷◌, arith,
}
use teddy_fyi_api_rust.Json.{
  Value, null, bool, number, string, array, object, Items, nil, cons, Fields, end, field,
}
use teddy_fyi_api_rust.Sync.Limits.{
  push_items, push_fields, push_children, walk, nodes, nodes_of_items, nodes_of_fields, json_depth,
}

-- A scalar is one level, and a container one more than the deepest of what it holds.
unfoldable mutual
  pub depth : Value → ℕ
  depth (array items) = suc (depth_of_items items)
  depth (object fields) = suc (depth_of_fields fields)
  depth null = 1
  depth (bool b) = 1
  depth (number n) = 1
  depth (string s) = 1

  pub depth_of_items : Items → ℕ
  depth_of_items nil = 0
  depth_of_items (cons v items) = max (depth v) (depth_of_items items)

  pub depth_of_fields : Fields → ℕ
  depth_of_fields end = 0
  depth_of_fields (field k v fields) = max (depth v) (depth_of_fields fields)

abbrev stack_nodes : List (Value × ℕ) → ℕ
stack_nodes [] = 0
stack_nodes ((v, d) ∷ stack) = nodes v + stack_nodes stack

-- The level of the deepest node below the ones on the stack, each standing at level d + 1.
abbrev stack_depth : ℕ → List (Value × ℕ) → ℕ
stack_depth m [] = m
stack_depth m ((v, d) ∷ stack) = max (d + depth v - 1) (stack_depth m stack)

nodes_pos : (v : Value) → 1 ≤ nodes v
unfolding nodes
nodes_pos (array items) = omega arith
nodes_pos (object fields) = omega arith
nodes_pos null = omega arith
nodes_pos (bool b) = omega arith
nodes_pos (number n) = omega arith
nodes_pos (string s) = omega arith

depth_pos : (v : Value) → 1 ≤ depth v
unfolding depth
depth_pos (array items) = omega arith
depth_pos (object fields) = omega arith
depth_pos null = omega arith
depth_pos (bool b) = omega arith
depth_pos (number n) = omega arith
depth_pos (string s) = omega arith

push_items-nodes :
    (items : Items) (d : ℕ) (stack : List (Value × ℕ))
    → stack_nodes (push_items items d stack) ≡ nodes_of_items items + stack_nodes stack
unfolding push_items nodes_of_items
push_items-nodes nil d stack = omega arith
push_items-nodes (cons v items) d stack = omega (arith, push_items-nodes items d ((v, d) ∷ stack))

push_fields-nodes :
    (fields : Fields) (d : ℕ) (stack : List (Value × ℕ))
    → stack_nodes (push_fields fields d stack) ≡ nodes_of_fields fields + stack_nodes stack
unfolding push_fields nodes_of_fields
push_fields-nodes end d stack = omega arith
push_fields-nodes (field k v fields) d stack =
    omega (arith, push_fields-nodes fields d ((v, d) ∷ stack))

stack_depth-le : (m : ℕ) (stack : List (Value × ℕ)) → m ≤ stack_depth m stack
stack_depth-le m [] = omega arith
stack_depth-le m (entry ∷ stack) = omega (arith, stack_depth-le m stack)

stack_depth-max :
    (m d : ℕ) (stack : List (Value × ℕ)) → stack_depth (max m d) stack ≡ max d (stack_depth m stack)
stack_depth-max m d [] = omega arith
stack_depth-max m d (entry ∷ stack) = omega (arith, stack_depth-max m d stack)

push_items-depth :
    (items : Items) (m d : ℕ) (stack : List (Value × ℕ))
    → d ≤ stack_depth m stack
    → stack_depth m (push_items items (suc d) stack)
      ≡ max (d + depth_of_items items) (stack_depth m stack)
unfolding push_items depth_of_items
push_items-depth nil m d stack h = omega (arith, h)
push_items-depth (cons v items) m d stack h =
    omega (arith, push_items-depth items m d ((v, suc d) ∷ stack) (omega (arith, h)))

push_fields-depth :
    (fields : Fields) (m d : ℕ) (stack : List (Value × ℕ))
    → d ≤ stack_depth m stack
    → stack_depth m (push_fields fields (suc d) stack)
      ≡ max (d + depth_of_fields fields) (stack_depth m stack)
unfolding push_fields depth_of_fields
push_fields-depth end m d stack h = omega (arith, h)
push_fields-depth (field k v fields) m d stack h =
    omega (arith, push_fields-depth fields m d ((v, suc d) ∷ stack) (omega (arith, h)))

push_children-nodes :
    (v : Value) (d : ℕ) (stack : List (Value × ℕ))
    → suc (stack_nodes (push_children v d stack)) ≡ nodes v + stack_nodes stack
unfolding push_children nodes
push_children-nodes (array items) d stack = omega (arith, push_items-nodes items (suc d) stack)
push_children-nodes (object fields) d stack = omega (arith, push_fields-nodes fields (suc d) stack)
push_children-nodes null d stack = omega arith
push_children-nodes (bool b) d stack = omega arith
push_children-nodes (number n) d stack = omega arith
push_children-nodes (string s) d stack = omega arith

push_children-depth :
    (v : Value) (m d : ℕ) (stack : List (Value × ℕ))
    → d ≤ m
    → stack_depth m (push_children v d stack) ≡ max (d + depth v - 1) (stack_depth m stack)
unfolding push_children depth
push_children-depth (array items) m d stack h =
    let le = stack_depth-le m stack in omega (arith, push_items-depth items m d stack (omega arith))
push_children-depth (object fields) m d stack h =
    let le = stack_depth-le m stack in
    omega (arith, push_fields-depth fields m d stack (omega arith))
push_children-depth null m d stack h = omega (arith, stack_depth-le m stack)
push_children-depth (bool b) m d stack h = omega (arith, stack_depth-le m stack)
push_children-depth (number n) m d stack h = omega (arith, stack_depth-le m stack)
push_children-depth (string s) m d stack h = omega (arith, stack_depth-le m stack)

walk-depth :
    (fuel : ℕ) (stack : List (Value × ℕ)) (m : ℕ)
    → stack_nodes stack ≤ fuel
    → walk fuel stack m ≡ some (stack_depth m stack)
unfolding walk
walk-depth fuel [] m h = refl
walk-depth zero ((v, d) ∷ stack) m h = absurd (omega (arith, nodes_pos v))
walk-depth (suc fuel) ((v, d) ∷ stack) m h =
    walk-depth fuel (push_children v d stack) (max m d)
      (omega (arith, h, push_children-nodes v d stack))
    ∙ ap some (
        omega (
          arith,
          depth_pos v,
          push_children-depth v (max m d) d stack (omega arith),
          stack_depth-max m d stack,
        ))

-- The walk is never cut short, and `json_depth` is the nesting of the value.
pub json_depth-depth : (v : Value) → json_depth v ≡ depth v
unfolding json_depth
json_depth-depth v =
    rw (walk-depth (nodes v) ((v, 1) ∷ []) 0 (omega arith), json_depth) (omega arith)
