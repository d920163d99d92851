-- ===== src/Sync/Todo/Runs.antt =====
-- Each statement of a run takes one more row as a statement of its own would
-- (src/routes/sync/todo/todo_lists.rs, todo_items.rs: `Pending::flush`).
use teddy_fyi_api_rust.Prelude.{
  ℕ, zero, suc, ◌<◌, ◌≡◌, refl, ap, ◌∙◌, fun_ext, String, false, Option, some, List, [], ◌∷◌, ◌++◌,
  ◌||◌, str_eq, str_eq_iff, arith, subst, sym, if◌then◌else◌, length, Bool-cases, inl, inr,
}
use teddy_fyi_api_rust.Prelude.Int.{ℤ}
use teddy_fyi_api_rust.Errors.{◌>>=◌, committed}
use teddy_fyi_api_rust.Sync.Types.{SuccessResult}
use teddy_fyi_api_rust.Sync.Todo.Table.{
  Table, Upsert, Request, contains, has_repeat, upsert_row, upsert_rows, bump_row, bump_rows,
  row_overflows, overflows, delete_row, soft_delete,
}
use teddy_fyi_api_rust.Sync.Todo.Pending.{set_version, reported_version, patch_status}

pub contains-append :
    (xs : List String) (x j : String) → contains (xs ++ x ∷ []) j ≡ (contains xs j || str_eq j x)
unfolding contains
contains-append [] x j = ground arith
contains-append (y ∷ xs) x j = ground (arith, contains-append xs x j)

pub str_eq_sym : (a b : String) → str_eq a b ≡ str_eq b a
str_eq_sym a b = ground (arith, str_eq_iff a b, str_eq_iff b a)

pub has_repeat-append :
    (xs : List String) (x : String)
    → has_repeat xs ≡ false
    → contains xs x ≡ false
    → has_repeat (xs ++ x ∷ []) ≡ false
unfolding has_repeat contains
has_repeat-append [] x h k = refl
has_repeat-append (y ∷ xs) x h k =
    ground (arith, contains-append xs x y, has_repeat-append xs x, str_eq_sym x y)

module _ {C : Type 0} (req : Request C) where
  pub upsert_rows-append :
      (us : List (Upsert C)) (u : Upsert C) (t : Table C)
      → upsert_rows req (us ++ u ∷ []) t ≡ upsert_row req u (upsert_rows req us t)
  unfolding upsert_rows
  upsert_rows-append [] u t = refl
  upsert_rows-append (v ∷ us) u t = upsert_rows-append us u (upsert_row req v t)

  pub bump_rows-append :
      (bs : List (String × ℤ)) (b : String × ℤ) (t : Table C)
      → bump_rows req (bs ++ b ∷ []) t ≡ bump_row req b (bump_rows req bs t)
  unfolding bump_rows
  bump_rows-append [] b t = refl
  bump_rows-append (v ∷ bs) b t = bump_rows-append bs b (bump_row req v t)

  pub overflows-append :
      (ids : List String) (id : String) (t : Table C)
      → overflows (ids ++ id ∷ []) t ≡ (overflows ids t || row_overflows (t id))
  unfolding overflows
  overflows-append [] id t = ground arith
  overflows-append (x ∷ ids) id t = ground (arith, overflows-append ids id t)

  -- The rows of the run, as the delete leaves them.
  abbrev pub deleted_in : List String → Table C → Table C
  deleted_in ids t id = if contains ids id then delete_row req (t id) else t id

  deleted_in-append :
      (ids : List String) (id : String) (t : Table C) (j : String)
      → contains ids id ≡ false
      → deleted_in (ids ++ id ∷ []) t j ≡ deleted_in (id ∷ []) (deleted_in ids t) j
  unfolding contains
  deleted_in-append ids id t j h = elim (Bool-cases (str_eq j id)) [
    | inl e ↦
        let same : j ≡ id = (str_eq_iff j id).0 e in
        let out : contains ids j ≡ false = rw same h in rw (contains-append ids id j, e, out)
    | inr e ↦ rw (contains-append ids id j, e) (ground arith)
  ]

  -- One more row joins the statement, if it is not in it yet.
  pub soft_delete-append :
      (ids : List String) (id : String) (t : Table C)
      → contains ids id ≡ false
      → committed (soft_delete req (ids ++ id ∷ []) t)
        ≡ committed (soft_delete req ids t >>= soft_delete req (id ∷ []))
  unfolding soft_delete
  soft_delete-append ids id t h = elim (Bool-cases (overflows ids t)) [
    | inl e ↦ rw (overflows-append ids id t, e)
    | inr e ↦ elim (Bool-cases (row_overflows (t id))) [
      | inl f ↦ rw (overflows-append ids id t, e, f, h, f)
      | inr f ↦
          rw (overflows-append ids id t, e, f, h, f)
            (ap some (fun_ext λ j. deleted_in-append ids id t j h))
    ]
  ]

-- Every index points into a list of length `n`.
abbrev pub Below : ℕ → List (String × ℕ) → Type 0
Below n [] = Unit {0}
Below n ((id, i) ∷ dels) = (i < n) × Below n dels

length-set_version :
    (status : List SuccessResult) (i : ℕ) (v : ℤ) → length (set_version status i v) ≡ length status
unfolding set_version
length-set_version [] i v = refl
length-set_version (e ∷ status) zero v = refl
length-set_version (e ∷ status) (suc i) v = ap suc (length-set_version status i v)

set_version-append :
    (status rest : List SuccessResult) (i : ℕ) (v : ℤ)
    → i < length status
    → set_version (status ++ rest) i v ≡ set_version status i v ++ rest
unfolding set_version
set_version-append [] rest i v h = elim h [ ]
set_version-append (e ∷ status) rest zero v h = refl
set_version-append (e ∷ status) rest (suc i) v h =
    ap (λ t. e ∷ t) (set_version-append status rest i v (omega arith))

set_version-append_end :
    (status : List SuccessResult) (e : SuccessResult) (i : ℕ) (v : ℤ)
    → i ≡ length status
    → set_version (status ++ e ∷ []) i v ≡ status ++ record e { version = v } ∷ []
unfolding set_version
set_version-append_end [] e zero v h = refl
set_version-append_end [] e (suc i) v h = absurd (omega arith)
set_version-append_end (x ∷ status) e zero v h = absurd (omega arith)
set_version-append_end (x ∷ status) e (suc i) v h =
    ap (λ t. x ∷ t) (set_version-append_end status e i v (omega arith))

-- The last entry of the statuses takes the version of the last delete, and the others theirs.
pub patch_status-append :
    (versions : String → Option ℤ) (dels : List (String × ℕ)) (id : String) (n : ℕ)
    (status : List SuccessResult) (e : SuccessResult)
    → n ≡ length status
    → Below n dels
    → patch_status versions (dels ++ (id, n) ∷ []) (status ++ e ∷ [])
      ≡ patch_status versions dels status
        ++ record e { version = reported_version versions id } ∷ []
unfolding patch_status
patch_status-append versions [] id n status e h b =
    set_version-append_end status e n (reported_version versions id) h
patch_status-append versions ((d, i) ∷ dels) id n status e h b =
    ap (patch_status versions (dels ++ (id, n) ∷ []))
      (set_version-append status (e ∷ []) i (reported_version versions d) (omega arith))
    ∙ (patch_status-append versions dels id n (set_version status i (reported_version versions d)) e
        (omega (arith, length-set_version status i (reported_version versions d))) b.1)

-- An entry behind those that the run refers to stays as it is.
pub patch_status-behind :
    (versions : String → Option ℤ) (dels : List (String × ℕ)) (status : List SuccessResult)
    (e : SuccessResult)
    → Below (length status) dels
    → patch_status versions dels (status ++ e ∷ []) ≡ patch_status versions dels status ++ e ∷ []
unfolding patch_status
patch_status-behind versions [] status e b = refl
patch_status-behind versions ((d, i) ∷ dels) status e b =
    let v = reported_version versions d in
    let same = length-set_version status i v in
    ap (patch_status versions dels) (set_version-append status (e ∷ []) i v b.0)
    ∙ patch_status-behind versions dels (set_version status i v) e
        (subst (λ n. Below n dels) (sym same) b.1)
