-- ===== src/Sync/Todo/Rows.antt =====
-- What a batch of changes can do to the rows of a todo table (src/routes/sync/todo/todo_lists.rs,
-- todo_items.rs), where each payload carries the id of its change.
use teddy_fyi_api_rust.Prelude.{
  ◌≡◌, ◌≢◌, String, false, Option, some, List, [], ◌∷◌, inl, inr, str_eq, str_eq_iff, arith,
  Option-cases,
}
use teddy_fyi_api_rust.Prelude.Int.{ℤ}
use teddy_fyi_api_rust.Json.{Value}
use teddy_fyi_api_rust.Errors.{ok}
use teddy_fyi_api_rust.Sync.Types.{ChangeDelta}
use teddy_fyi_api_rust.Sync.Todo.Table.{
  Row, Table, Request, insert_on_conflict, bump_row, soft_delete,
}
use teddy_fyi_api_rust.Sync.Todo.Decide.{
  Item, Write, put, bump, remove, target, write, owns, existing_map, decide, decide_write,
  decide_delete, decide_upsert, decide_bump, decide_need_update, next_version, has_no_data,
}
use teddy_fyi_api_rust.Sync.Todo.OneByOne.{write_now}

abbrev pub AllChanges : (ChangeDelta → Type 0) → List ChangeDelta → Type 0
AllChanges P [] = Unit {0}
AllChanges P (c ∷ cs) = P c × AllChanges P cs

pub AllChanges-map :
    (P Q : ChangeDelta → Type 0) (cs : List ChangeDelta)
    → ((c : ChangeDelta) → P c → Q c)
    → AllChanges P cs
    → AllChanges Q cs
AllChanges-map P Q [] f a = tt
AllChanges-map P Q (c ∷ cs) f a = (f c a.0, AllChanges-map P Q cs f a.1)

-- Every change finds the row that the table held for it when the loop began.
pub existing_map-agrees :
    {C : Type 0} (cs : List ChangeDelta) (t : Table C)
    → AllChanges (λ c. existing_map cs t c.id ≡ t c.id) cs
unfolding existing_map
existing_map-agrees [] t = tt
existing_map-agrees (c ∷ cs) t = (
  ground (arith, str_eq_iff c.id c.id),
  AllChanges-map _ _ cs (λ d h. ground arith) (existing_map-agrees cs t),
)

module _ {C : Type 0} (req : Request C) where
  -- A statement touches the row that it names.
  pub write_now_other :
      (w : Write C) (t t' : Table C) (v : ℤ) (j : String)
      → str_eq j (target w) ≡ false
      → write_now req w t ≡ ok (t', v)
      → t' j ≡ t j
  unfolding write_now target insert_on_conflict bump_row soft_delete
  write_now_other (put u) t t' v j h e = ground arith
  write_now_other (bump id version) t t' v j h e = ground arith
  write_now_other (remove id) t t' v j h e = ground arith

module _ {C : Type 0} (from_value : Value → Option (Item C))
    (prepare : ChangeDelta → Item C → Item C × String) (user : String) where
  -- The payload, if it is one, carries the change's id.
  abbrev pub NamesItself : ChangeDelta → Type 0
  NamesItself change =
      (v : Value) (item : Item C)
      → change.payload ≡ some v
      → from_value v ≡ some item
      → (prepare change item).0.id ≡ change.id

  decide_upsert-target :
      (change : ChangeDelta) (old : Option (Row C)) (item : Item C) (w : Write C)
      → (prepare change item).0.id ≡ change.id
      → decide_upsert from_value prepare user change old (some item) ≡ ok (write w)
      → target w ≡ change.id
  unfolding decide_upsert target
  decide_upsert-target change old item w h e = ground arith

  decide_write-target :
      (change : ChangeDelta) (old : Option (Row C)) (w : Write C)
      → NamesItself change
      → decide_write from_value prepare user change old ≡ ok (write w)
      → target w ≡ change.id
  unfolding decide_write decide_upsert decide_bump decide_need_update has_no_data target
  decide_write-target change old w h e = elim (Option-cases change.payload) [
    | inl q ↦ ground arith
    | inr (v, q) ↦ elim (Option-cases (from_value v)) [
      | inl p ↦ ground arith
      | inr (item, p) ↦ ground (arith, h v item q p)
    ]
  ]

  pub decide-target :
      (existing : Table C) (change : ChangeDelta) (w : Write C)
      → NamesItself change
      → decide from_value prepare user existing change ≡ ok (write w)
      → target w ≡ change.id
  unfolding decide decide_delete target
  decide-target existing change w h e =
      ground (arith, decide_write-target change (existing change.id) w h)

  pub decide_foreign :
      (existing : Table C) (change : ChangeDelta) (r : Row C) (w : Write C)
      → existing change.id ≡ some r
      → owns user r ≡ false
      → decide from_value prepare user existing change ≢ ok (write w)
  unfolding decide decide_write decide_delete decide_upsert decide_bump decide_need_update
      next_version
  decide_foreign existing change r w h f e = ground arith
