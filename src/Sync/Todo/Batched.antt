-- ===== src/Sync/Todo/Batched.antt =====
-- The batched loop of src/routes/sync/todo does what a statement for each change would: the invariant
-- of a run, and one step of the loop.
use mathlib.Core.Path.{ap₂}
use mathlib.Core.Option.{some-injective}
use mathlib.Core.List.{map-append}
use teddy_fyi_api_rust.Prelude.{
  ℕ, ◌≡◌, refl, sym, ap, ◌∙◌, String, false, not, ◌||◌, Bool-cases, if◌then◌else◌, some, List, [],
  ◌∷◌, ◌++◌, map, ◌⊎◌, arith, length, inl, inr,
}
use teddy_fyi_api_rust.Prelude.Int.{ℤ, pos}
use teddy_fyi_api_rust.Errors.{AppError, Result, ok, err, database, DatabaseError, ◌>>=◌, committed}
use teddy_fyi_api_rust.Sync.Types.{synced}
use teddy_fyi_api_rust.Sync.Todo.Table.{
  Table, Upsert, Request, contains, has_repeat, dangles, upsert_row, upsert_rows,
  insert_on_conflict, bump_rows, soft_delete, deleted_version,
}
use teddy_fyi_api_rust.Sync.Todo.Pending.{Pending, reported_version, patch_status, del_ids, flush}
use teddy_fyi_api_rust.Sync.Todo.Decide.{put, bump, remove, write}
use teddy_fyi_api_rust.Sync.Todo.Process.{Batch, push, settle}
use teddy_fyi_api_rust.Sync.Todo.OneByOne.{write_now, perform_now}
use teddy_fyi_api_rust.Sync.Todo.Runs.{
  has_repeat-append, upsert_rows-append, bump_rows-append, soft_delete-append, Below,
  patch_status-append,
}

abbrev pub up_ids : {C : Type 0} → List (Upsert C) → List String
up_ids = map (λ u. u.id)

module _ {C : Type 0} where
  abbrev pub only_ups : List (Upsert C) → Pending C
  only_ups us = record { ups = us; bumps = []; dels = [] }

  abbrev pub only_bumps : List (String × ℤ) → Pending C
  only_bumps bs = record { ups = []; bumps = bs; dels = [] }

  abbrev pub only_dels : List (String × ℕ) → Pending C
  only_dels ds = record { ups = []; bumps = []; dels = ds }

pub Result-cases {ℓ} :
    {A : Type ℓ} (r : Result A) → ((a : A) × (r ≡ ok a)) ⊎ ((e : AppError) × (r ≡ err e))
Result-cases (ok a) = inl (a, refl)
Result-cases (err e) = inr (e, refl)

module _ {C : Type 0} (req : Request C) where
  dangles_one : (u : Upsert C) → dangles req.references (u ∷ []) ≡ not (req.references u.columns)
  unfolding dangles
  dangles_one u = ground arith

  dangles-append :
      (us : List (Upsert C)) (u : Upsert C)
      → dangles req.references (us ++ u ∷ [])
        ≡ (dangles req.references us || not (req.references u.columns))
  unfolding dangles
  dangles-append [] u = ground arith
  dangles-append (v ∷ us) u = ground (arith, dangles-append us u)

  insert_one :
      (u : Upsert C) (t : Table C)
      → insert_on_conflict req (u ∷ []) t ≡ (
          if not (req.references u.columns)
          then err (database DatabaseError.other)
          else ok (upsert_row req u t))
  unfolding insert_on_conflict
  insert_one u t = rw (dangles_one u) refl

  insert_run :
      (us : List (Upsert C)) (t : Table C)
      → has_repeat (up_ids us) ≡ false
      → insert_on_conflict req us t ≡ (
          if dangles req.references us
          then err (database DatabaseError.other)
          else ok (upsert_rows req us t))
  unfolding insert_on_conflict
  insert_run us t h = rw h

  insert_run-append :
      (us : List (Upsert C)) (u : Upsert C) (t : Table C)
      → has_repeat (up_ids us) ≡ false
      → contains (up_ids us) u.id ≡ false
      → insert_on_conflict req (us ++ u ∷ []) t ≡ (
          if dangles req.references us || not (req.references u.columns)
          then err (database DatabaseError.other)
          else ok (upsert_row req u (upsert_rows req us t)))
  unfolding insert_on_conflict
  insert_run-append us u t h k =
      rw
        (
          map-append,
          has_repeat-append (up_ids us) u.id h k,
          dangles-append us u,
          upsert_rows-append req us u t,
        )
        refl

  -- A run that holds no delete ends as it began.
  soft_delete_none : (t : Table C) → soft_delete req [] t ≡ ok t
  unfolding soft_delete
  soft_delete_none t = refl

  pub settle-put :
      (b : Batch C) (us : List (Upsert C)) (change_id : String) (u : Upsert C)
      → b.pending ≡ only_ups us
      → has_repeat (up_ids us) ≡ false
      → contains (up_ids us) u.id ≡ false
      → committed (settle req (push req b change_id (put u)))
        ≡ committed (settle req b >>= λ o. perform_now req o change_id (write (put u)))
  unfolding settle push flush perform_now write_now bump_rows patch_status soft_delete
  settle-put b us change_id u e h k =
      rw (e, insert_run us b.table h, insert_run-append us u b.table h k)
        (elim (Bool-cases (dangles req.references us)) [
          | inl y ↦ rw y refl
          | inr n ↦ elim (Bool-cases (req.references u.columns)) [
            | inl there ↦ rw (n, there, insert_one u (upsert_rows req us b.table), there) refl
            | inr gone ↦ rw (n, gone, insert_one u (upsert_rows req us b.table), gone) refl
          ]
        ])

  insert_none : (t : Table C) → insert_on_conflict req [] t ≡ ok t
  unfolding insert_on_conflict
  insert_none t = refl

  pub settle-bump :
      (b : Batch C) (bs : List (String × ℤ)) (change_id id : String) (version : ℤ)
      → b.pending ≡ only_bumps bs
      → committed (settle req (push req b change_id (bump id version)))
        ≡ committed (settle req b >>= λ o. perform_now req o change_id (write (bump id version)))
  unfolding settle push flush perform_now write_now patch_status soft_delete insert_on_conflict
  settle-bump b bs change_id id version e = rw (e, bump_rows-append req bs (id, version) b.table)

  soft_delete_keeps :
      (ids : List String) (id : String) (t t' : Table C)
      → contains ids id ≡ false
      → soft_delete req ids t ≡ ok t'
      → t' id ≡ t id
  unfolding soft_delete
  soft_delete_keeps ids id t t' h e = ground arith

  same_report :
      (t t' : Table C) (id : String)
      → t' id ≡ t id
      → reported_version (deleted_version req t') id ≡ reported_version (deleted_version req t) id
  unfolding reported_version deleted_version
  same_report t t' id h = rw (h, reported_version, deleted_version)

  pub settle-remove :
      (b : Batch C) (ds : List (String × ℕ)) (change_id id : String)
      → b.pending ≡ only_dels ds
      → Below (length b.upload_status) ds
      → contains (del_ids ds) id ≡ false
      → committed (settle req (push req b change_id (remove id)))
        ≡ committed (settle req b >>= λ o. perform_now req o change_id (write (remove id)))
  unfolding settle push flush perform_now write_now bump_rows insert_on_conflict
  settle-remove b ds change_id id e below h =
      let key = soft_delete-append req (del_ids ds) id b.table h in
      elim (Result-cases (soft_delete req (del_ids ds ++ id ∷ []) b.table)) [
        | inl (t3, u) ↦ elim (Result-cases (soft_delete req (del_ids ds) b.table)) [
          | inl (t1, q) ↦ elim (Result-cases (soft_delete req (id ∷ []) t1)) [
            | inl (t2, r) ↦
                rw (e, map-append, q, u, r)
                  (ap₂
                    (λ t status. some (record {
                      table = t;
                      success_ids = b.success_ids ++ change_id ∷ [];
                      upload_status = status;
                      remote_changes = b.remote_changes;
                    }))
                    (some-injective t3 t2 (rw (u, q, r) at key))
                    (patch_status-append (deleted_version req b.table) ds id
                        (length b.upload_status) b.upload_status (synced change_id (pos 0)) refl
                        below
                      ∙ ap
                          (λ v.
                            patch_status (deleted_version req b.table) ds b.upload_status
                            ++ synced change_id v ∷ [])
                          (sym (
                            same_report b.table t1 id
                              (soft_delete_keeps (del_ids ds) id b.table t1 h q)))))
            | inr (x, r) ↦ cc (rw (u, q, r) at key)
          ]
          | inr (x, q) ↦ cc (rw (u, q) at key)
        ]
        | inr (x, u) ↦ elim (Result-cases (soft_delete req (del_ids ds) b.table)) [
          | inl (t1, q) ↦ elim (Result-cases (soft_delete req (id ∷ []) t1)) [
            | inl (t2, r) ↦ cc (rw (u, q, r) at key)
            | inr (y, r) ↦ rw (e, map-append, q, u, r)
          ]
          | inr (y, q) ↦ rw (e, map-append, q, u)
        ]
      ]
