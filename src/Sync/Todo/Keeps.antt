-- ===== src/Sync/Todo/Keeps.antt =====
-- An invariant of the table through the loop of src/routes/sync/todo: what each write that the changes
-- ask for keeps, the batch keeps.
use teddy_fyi_api_rust.Prelude.{
  ◌≡◌, refl, ap, ◌∙◌, subst, String, Option, List, [], ◌∷◌, inl, inr, arith,
}
use teddy_fyi_api_rust.Prelude.Int.{ℤ}
use teddy_fyi_api_rust.Json.{Value}
use teddy_fyi_api_rust.Errors.{ok}
use teddy_fyi_api_rust.Sync.Types.{ChangeDelta}
use teddy_fyi_api_rust.Sync.Todo.Table.{Table, Request}
use teddy_fyi_api_rust.Sync.Todo.Decide.{
  Item, Write, Action, nothing, echo, acknowledge, write, existing_map, decide,
}
use teddy_fyi_api_rust.Sync.Todo.Process.{Outcome, process_changes}
use teddy_fyi_api_rust.Sync.Todo.OneByOne.{
  write_now, perform_now, begin, one_by_one, process_one_by_one,
}
use teddy_fyi_api_rust.Sync.Todo.Batched.{Result-cases}
use teddy_fyi_api_rust.Sync.Todo.Equivalence.{process_changes_one_by_one}
use teddy_fyi_api_rust.Sync.Todo.Rows.{AllChanges}

module _ {C : Type 0} (from_value : Value → Option (Item C))
    (prepare : ChangeDelta → Item C → Item C × String) (req : Request C)
    (P : Table C → Type 0) where
  -- Each write that this change can ask for keeps `P`.
  abbrev pub WriteKeeps : Table C → ChangeDelta → Type 0
  WriteKeeps existing change =
      (w : Write C) (t t' : Table C) (v : ℤ)
      → decide from_value prepare req.user_id existing change ≡ ok (write w)
      → write_now req w t ≡ ok (t', v)
      → P t
      → P t'

  perform_now_keeps :
      (o o' : Outcome C) (id : String) (a : Action C)
      → ((w : Write C) (t' : Table C) (v : ℤ)
          → a ≡ write w
          → write_now req w o.table ≡ ok (t', v)
          → P t')
      → perform_now req o id a ≡ ok o'
      → P o.table
      → P o'.table
  unfolding perform_now
  perform_now_keeps o o' id nothing k e p = subst P (ground arith) p
  perform_now_keeps o o' id (echo row) k e p = subst P (ground arith) p
  perform_now_keeps o o' id (acknowledge v) k e p = subst P (ground arith) p
  perform_now_keeps o o' id (write w) k e p = elim (Result-cases (write_now req w o.table)) [
    | inl ((t', v), q) ↦ subst P (ground arith) (k w t' v refl q)
    | inr (x, q) ↦ absurd (ground arith)
  ]

  one_by_one_keeps :
      (existing : Table C) (changes : List ChangeDelta) (o o' : Outcome C)
      → AllChanges (WriteKeeps existing) changes
      → one_by_one from_value prepare req existing changes o ≡ ok o'
      → P o.table
      → P o'.table
  unfolding one_by_one
  one_by_one_keeps existing [] o o' k e p = subst P (ground arith) p
  one_by_one_keeps existing (change ∷ changes) o o' k e p =
      elim (Result-cases (decide from_value prepare req.user_id existing change)) [
        | inr (x, q) ↦ absurd (ground arith)
        | inl (a, q) ↦ elim (Result-cases (perform_now req o change.id a)) [
          | inr (x, r) ↦ absurd (ground arith)
          | inl (o1, r) ↦ one_by_one_keeps existing changes o1 o' k.1 (ground arith) (
              perform_now_keeps o o1 change.id a
                (λ w t' v s m. k.0 w o.table t' v (q ∙ ap ok s) m p) r p)
        ]
      ]

  -- So does the batched loop.
  pub process_changes_keeps :
      (changes : List ChangeDelta) (t : Table C) (o : Outcome C)
      → AllChanges (WriteKeeps (existing_map changes t)) changes
      → process_changes from_value prepare req changes t ≡ ok o
      → P t
      → P o.table
  process_changes_keeps changes t o k e p =
      let same = process_changes_one_by_one from_value prepare req changes t in
      elim (Result-cases (process_one_by_one from_value prepare req changes t)) [
        | inl (o', q) ↦
            let tables : o'.table ≡ o.table = ground (arith, same) in
            subst P tables (
              one_by_one_keeps (existing_map changes t) changes (begin req t) o' k
                (unfold process_one_by_one in q) (unfold begin in p))
        | inr (x, q) ↦ absurd (ground (arith, same))
      ]
