-- ===== src/Sync/Todo/Pending.antt =====
-- `Pending` and its `flush` (src/routes/sync/todo/todo_lists.rs, todo_items.rs): the writes of the
-- run being accumulated, one statement for each kind. The column vectors of a kind, which are pushed
-- together, are one list of rows.
use teddy_fyi_api_rust.Prelude.{ℕ, zero, suc, String, Option, none, some, List, [], ◌∷◌, map}
use teddy_fyi_api_rust.Prelude.Int.{ℤ}
use teddy_fyi_api_rust.Errors.{Result, ok, ◌>>=◌}
use teddy_fyi_api_rust.Sync.Types.{SuccessResult}
use teddy_fyi_api_rust.Sync.Deletes.{ack_unsynced_delete}
use teddy_fyi_api_rust.Sync.Todo.Table.{
  Table, Upsert, Request, insert_on_conflict, bump_rows, soft_delete, deleted_version,
}

pub record Pending (C : Type 0) : Type 0 where
  pub ups : List (Upsert C)
  pub bumps : List (String × ℤ)
  -- the ids, each with the place of its entry in `upload_status`
  pub dels : List (String × ℕ)

unfoldable pub empty_pending : {C : Type 0} → Pending C
empty_pending = record { ups = []; bumps = []; dels = [] }

-- `upload_status[index].version = version`
unfoldable pub set_version : List SuccessResult → ℕ → ℤ → List SuccessResult
set_version [] i version = []
set_version (entry ∷ rest) zero version = record entry { version = version } ∷ rest
set_version (entry ∷ rest) (suc i) version = entry ∷ set_version rest i version

-- The version that one delete reports: the row's, or that of a row the server never had.
unfoldable pub reported_version : (String → Option ℤ) → String → ℤ
unfolding ack_unsynced_delete
reported_version versions id = elim (versions id) [
  | none ↦ ack_unsynced_delete id
  | some version ↦ version
]

unfoldable pub patch_status :
    (String → Option ℤ) → List (String × ℕ) → List SuccessResult → List SuccessResult
unfolding set_version reported_version
patch_status versions [] status = status
patch_status versions ((id, i) ∷ dels) status =
    patch_status versions dels (set_version status i (reported_version versions id))

abbrev pub del_ids : List (String × ℕ) → List String
del_ids = map (λ d. d.0)

-- The table after the run, and the statuses with the deleted rows' versions. The caller forgets the
-- run that was flushed.
unfoldable pub flush :
    {C : Type 0}
    → Request C
    → Pending C
    → Table C
    → List SuccessResult
    → Result (Table C × List SuccessResult)
flush req p t status = do
  t1 ← insert_on_conflict req p.ups t
  let t2 = bump_rows req p.bumps t1
  t3 ← soft_delete req (del_ids p.dels) t2
  ok (t3, patch_status (deleted_version req t2) p.dels status)
