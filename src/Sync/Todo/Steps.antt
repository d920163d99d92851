-- ===== src/Sync/Todo/Steps.antt =====
-- What a step of the loop of src/routes/sync/todo owes the run that it finds: to end the run after the
-- step is to end it before, and to issue the step's statement by itself.
use teddy_fyi_api_rust.Prelude.{
  ◌≡◌, refl, ap, ◌∙◌, String, false, none, List, [], ◌∷◌, ◌++◌, ◌⊎◌, arith, length, Bool-cases, inl,
  inr, length-append,
}
use teddy_fyi_api_rust.Prelude.Int.{ℤ}
use teddy_fyi_api_rust.Errors.{AppError, Result, ok, err, ◌>>=◌, committed}
use teddy_fyi_api_rust.Sync.Types.{SuccessResult, synced}
use teddy_fyi_api_rust.Sync.Batching.{empty_run, needs_flush, clear, empty_run}
use teddy_fyi_api_rust.Sync.Todo.Table.{
  Table, Request, soft_delete, insert_on_conflict, bump_rows, deleted_version, Row,
}
use teddy_fyi_api_rust.Sync.Todo.Pending.{Pending, empty_pending, patch_status, del_ids, flush}
use teddy_fyi_api_rust.Sync.Todo.Decide.{
  same_kind, Write, kind_of, target, Action, nothing, echo, acknowledge, write,
}
use teddy_fyi_api_rust.Sync.Todo.Process.{Batch, flush_run, push, buffer, perform, settle, start}
use teddy_fyi_api_rust.Sync.Todo.OneByOne.{perform_now, begin}
use teddy_fyi_api_rust.Sync.Todo.Runs.{Below, patch_status-behind}
use teddy_fyi_api_rust.Sync.Todo.Batched.{only_ups, Result-cases}
use teddy_fyi_api_rust.Sync.Todo.Invariant.{Below-mono, IsRun, Owes, push_joins}

module _ {C : Type 0} (req : Request C) where
  abbrev flushed : Batch C → Table C × List SuccessResult → Batch C
  flushed b (t, status) = record b {
    table = t;
    runs = record { kind = none; ids = λ _. false };
    pending = only_ups [];
    upload_status = status;
  }

  flush_none :
      (t : Table C) (status : List SuccessResult)
      → flush req (only_ups []) t status ≡ ok (t, status)
  unfolding flush insert_on_conflict bump_rows soft_delete patch_status
  flush_none t status = refl

  -- To end a run and to start the next is to end it.
  settle-flushed :
      (b : Batch C) (r : Table C × List SuccessResult)
      → flush req b.pending b.table b.upload_status ≡ ok r
      → settle req (flushed b r) ≡ settle req b
  unfolding settle
  settle-flushed b (t, status) h = rw (h, flush_none t status)

  -- The two ways in which a step ends: it goes on, or the run before it fails when it is ended.
  abbrev pub Stepped : Batch C → String → Action C → Result (Batch C) → Type 0
  Stepped b change_id a r =
      ((b' : Batch C) × (r ≡ ok b') × Owes req b change_id a b')
      ⊎ ((e : AppError) × (r ≡ err e) × (committed (settle req b) ≡ none))

  buffer_step :
      (b : Batch C) (change_id : String) (w : Write C)
      → IsRun b
      → Stepped b change_id (write w) (buffer req b change_id w)
  unfolding buffer flush_run clear empty_pending
  buffer_step b change_id w v =
      elim (Bool-cases (needs_flush same_kind b.runs (kind_of w) (target w))) [
        | inr joins ↦ inl (
          push req b change_id w,
          rw joins,
          push_joins req b b.runs.kind change_id w v refl v.fits joins,
        )
        | inl flushes ↦ elim (Result-cases (flush req b.pending b.table b.upload_status)) [
          | inl (r, h) ↦
              let empty : IsRun (flushed b r) = record { fits = (refl, λ j. refl); placed = tt } in
              let joined =
                push_joins req (flushed b r) none change_id w empty refl (refl, λ j. refl)
                  (unfold needs_flush in refl) in
              inl (
                push req (flushed b r) change_id w,
                rw (flushes, h),
                (
                  joined.0,
                  joined.1
                      ∙ ap (λ s. committed (s >>= λ o. perform_now req o change_id (write w)))
                          (settle-flushed b r h),
                ),
              )
          | inr (e, h) ↦ inr (e, rw (flushes, h), unfold settle in rw h)
        ]
      ]

  flush-behind :
      (p : Pending C) (t : Table C) (status : List SuccessResult) (e : SuccessResult)
      → Below (length status) p.dels
      → flush req p t (status ++ e ∷ []) ≡ (flush req p t status >>= λ r. ok (r.0, r.1 ++ e ∷ []))
  unfolding flush
  flush-behind p t status e h = elim (Result-cases (insert_on_conflict req p.ups t)) [
    | inr (x, q) ↦ rw q
    | inl (t1, q) ↦
        elim (Result-cases (soft_delete req (del_ids p.dels) (bump_rows req p.bumps t1))) [
          | inr (x, r) ↦ rw (q, r)
          | inl (t2, r) ↦ rw (
            q,
            r,
            patch_status-behind (deleted_version req (bump_rows req p.bumps t1)) p.dels status e h,
          )
        ]
  ]

  acknowledge_settles :
      (b : Batch C) (change_id : String) (version : ℤ)
      → Below (length b.upload_status) b.pending.dels
      → settle req (record b {
        success_ids = b.success_ids ++ change_id ∷ [];
        upload_status = b.upload_status ++ synced change_id version ∷ [];
      })
        ≡ (settle req b >>= λ o. perform_now req o change_id (acknowledge version))
  unfolding settle perform_now
  acknowledge_settles b change_id version h =
      rw (flush-behind b.pending b.table b.upload_status (synced change_id version) h)
        (elim (Result-cases (flush req b.pending b.table b.upload_status)) [
          | inl (r, q) ↦ rw q
          | inr (x, q) ↦ rw q
        ])

  echo_settles :
      (b : Batch C) (change_id : String) (row : Row C)
      → settle req (record b {
        success_ids = b.success_ids ++ change_id ∷ [];
        remote_changes = b.remote_changes ++ (change_id, row) ∷ [];
      })
        ≡ (settle req b >>= λ o. perform_now req o change_id (echo row))
  unfolding settle perform_now
  echo_settles b change_id row = elim (Result-cases (flush req b.pending b.table b.upload_status)) [
    | inl (r, q) ↦ rw q
    | inr (x, q) ↦ rw q
  ]

  nothing_settles :
      (b : Batch C) (change_id : String)
      → settle req b ≡ (settle req b >>= λ o. perform_now req o change_id nothing)
  unfolding perform_now
  nothing_settles b change_id = elim (Result-cases (settle req b)) [
    | inl (r, q) ↦ rw q
    | inr (x, q) ↦ rw q
  ]

  pub perform_step :
      (b : Batch C) (change_id : String) (a : Action C)
      → IsRun b
      → Stepped b change_id a (perform req b change_id a)
  unfolding perform
  perform_step b change_id nothing v =
      inl (b, refl, (v, ap committed (nothing_settles b change_id)))
  perform_step b change_id (echo row) v = inl (
    _,
    refl,
    (record { fits = v.fits; placed = v.placed }, ap committed (echo_settles b change_id row)),
  )
  perform_step b change_id (acknowledge version) v = inl (
    _,
    refl,
    (
      record {
        fits = v.fits;
        placed =
            Below-mono (length b.upload_status) _ b.pending.dels
              (omega (arith, length-append b.upload_status (synced change_id version ∷ [])))
              v.placed;
      },
      ap committed (acknowledge_settles b change_id version v.placed),
    ),
  )
  perform_step b change_id (write w) v = buffer_step b change_id w v

  pub IsRun-start : (t : Table C) → IsRun (start req t)
  unfolding start empty_run empty_pending
  IsRun-start t = record { fits = (refl, λ j. refl); placed = tt }

  pub settle-start : (t : Table C) → settle req (start req t) ≡ ok (begin req t)
  unfolding settle start begin empty_run empty_pending
  settle-start t = rw (flush_none t [])
