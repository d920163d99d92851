-- ===== src/Sync/Todo/Equivalence.antt =====
-- The batched processors of src/routes/sync/todo against a statement for each change.
use teddy_fyi_api_rust.Prelude.{
  ◌≡◌, refl, ap, ◌∙◌, Option, none, List, [], ◌∷◌, inl, inr, String, sym, arith,
}
use teddy_fyi_api_rust.Json.{Value}
use teddy_fyi_api_rust.Errors.{AppError, Result, ok, err, ◌>>=◌, committed}
use teddy_fyi_api_rust.Sync.Types.{ChangeDelta}
use teddy_fyi_api_rust.Sync.Todo.Table.{Table, Request}
use teddy_fyi_api_rust.Sync.Todo.Decide.{Item, decide, existing_map}
use teddy_fyi_api_rust.Sync.Todo.Process.{Batch, settle, start, run_changes, process_changes}
use teddy_fyi_api_rust.Sync.Todo.OneByOne.{perform_now, one_by_one, process_one_by_one}
use teddy_fyi_api_rust.Sync.Todo.Batched.{Result-cases}
use teddy_fyi_api_rust.Sync.Todo.Invariant.{IsRun}
use teddy_fyi_api_rust.Sync.Todo.Steps.{IsRun-start, perform_step, settle-start}

committed-bind {ℓ κ} :
    {A : Type ℓ} {B : Type κ} (r s : Result A) (f : A → Result B)
    → committed r ≡ committed s
    → committed (r >>= f) ≡ committed (s >>= f)
committed-bind (ok a) (ok b) f h = ground arith
committed-bind (ok a) (err e) f h = cc
committed-bind (err e) (ok b) f h = cc
committed-bind (err e) (err e') f h = refl

>>=-assoc {ℓ κ μ} :
    {A : Type ℓ} {B : Type κ} {D : Type μ} (r : Result A) (first : A → Result B)
    (later : B → Result D)
    → ((r >>= first) >>= later) ≡ (r >>= λ x. first x >>= later)
>>=-assoc (err x) first later = refl
>>=-assoc (ok x) first later = refl

>>=-none {ℓ κ} :
    {A : Type ℓ} {B : Type κ} (r : Result A) (f : A → Result B)
    → committed r ≡ none
    → committed (r >>= f) ≡ none
>>=-none (ok a) f h = cc
>>=-none (err e) f h = refl

>>=-err {ℓ κ} :
    {A : Type ℓ} {B : Type κ} (r : Result A) (f : A → Result B) (e : AppError)
    → ((a : A) → f a ≡ err e)
    → committed (r >>= f) ≡ none
>>=-err (ok a) f e h = rw (h a)
>>=-err (err e') f e h = refl

module _ {C : Type 0} (from_value : Value → Option (Item C))
    (prepare : ChangeDelta → Item C → Item C × String) (req : Request C) where
  run_changes-settle :
      (existing : Table C) (changes : List ChangeDelta) (b : Batch C)
      → IsRun b
      → committed (run_changes from_value prepare req existing changes b)
        ≡ committed (settle req b >>= λ o. one_by_one from_value prepare req existing changes o)
  unfolding run_changes one_by_one
  run_changes-settle existing [] b v = elim (Result-cases (settle req b)) [
    | inl (o, q) ↦ rw q
    | inr (x, q) ↦ rw q
  ]
  run_changes-settle existing (change ∷ changes) b v =
      elim (Result-cases (decide from_value prepare req.user_id existing change)) [
        | inr (x, q) ↦ rw q (sym (>>=-err (settle req b) _ x (λ o. refl)))
        | inl (a, q) ↦ elim (perform_step req b change.id a v) [
          | inr (x, p, n) ↦ rw (q, p) (sym (>>=-none (settle req b) _ n))
          | inl (b', p, (v', m)) ↦
              rw (q, p)
                (run_changes-settle existing changes b' v'
                  ∙ committed-bind (settle req b')
                      (settle req b >>= λ o. perform_now req o change.id a)
                      (λ o. one_by_one from_value prepare req existing changes o) m
                  ∙ ap committed (>>=-assoc (settle req b) _ _))
        ]
      ]

  -- The batched loop leaves what it would leave if every change's write were a statement of its own,
  -- issued at once: the same table, success ids, statuses in the same order with the same versions,
  -- and echoed rows; and it fails exactly when that loop does. (Which error a failing request
  -- reports, when there are several, is not compared.)
  pub process_changes_one_by_one :
      (changes : List ChangeDelta) (t : Table C)
      → committed (process_changes from_value prepare req changes t)
        ≡ committed (process_one_by_one from_value prepare req changes t)
  unfolding process_changes process_one_by_one
  process_changes_one_by_one changes t =
      run_changes-settle (existing_map changes t) changes (start req t) (IsRun-start req t)
      ∙ ap
          (λ r.
            committed
              (r >>= λ o. one_by_one from_value prepare req (existing_map changes t) changes o))
          (settle-start req t)
