-- ===== src/Sync/Config/Follow.antt =====
-- `write_config` (src/routes/sync/config.rs), which buffers, against the statement that it stands for.
use teddy_fyi_api_rust.Prelude.{
  ◌≡◌, refl, sym, ap, ◌∙◌, subst, String, false, Option, none, some, List, [], ◌∷◌, ◌++◌, inl, inr,
  Bool-cases, str_eq, str_eq_iff,
}
use teddy_fyi_api_rust.Errors.{Result, ok, err}
use teddy_fyi_api_rust.Sync.Paging.Fetch.{ConfigRow}
use teddy_fyi_api_rust.Sync.Config.Statements.{ConfigRequest, ConfigWrite, update_config}
use teddy_fyi_api_rust.Sync.Config.Batch.{ConfigTarget, ExistingConfig, note_write}
use teddy_fyi_api_rust.Sync.Config.Free.{FreeAt, FreeIf}
use teddy_fyi_api_rust.Sync.Config.Resolve.{write_target}
use teddy_fyi_api_rust.Sync.Config.Pending.{issue_insert, issue_update, flush_configs}
use teddy_fyi_api_rust.Sync.Config.Push.{push-ins}
use teddy_fyi_api_rust.Sync.Config.Cached.{write-Sound}
use teddy_fyi_api_rust.Sync.Config.Buffer.{
  insert_kind, update_in_place, Uploading, id_token, key_token, write_tokens, record_all,
  any_needs_flush, flush_run, push_insert, push_update, rename_now, buffer_config, write_config,
}
use teddy_fyi_api_rust.Sync.Config.Alone.{issue_target}
use teddy_fyi_api_rust.Sync.Config.Tracks.{
  OfKind, Tracks, IsAt, IsDoomed, flush_if-Passed, no_writes-Tracks,
}
use teddy_fyi_api_rust.Sync.Config.Tokens.{ready}
use teddy_fyi_api_rust.Sync.Config.Join.{
  add_ins, joined-Tracked, issue_insert-FreeAt, issue_update-FreeAt, insert-Tracks, update-Tracks,
}

module _ (req : ConfigRequest) where
  -- What has been buffered, against the table after the statement.
  abbrev pub Buffered : Uploading → Result Uploading → Result (List ConfigRow) → Type 0
  Buffered s (ok s') (ok rows') = IsAt req s' rows' × (s'.told ≡ s.told)
  Buffered s (ok s') (err _) = IsDoomed req s'
  Buffered s (err _) (ok _) = ⊥
  Buffered s (err _) (err _) = Unit {0}

  module _ (s : Uploading) (rows : List ConfigRow) (at : IsAt req s rows) (w : ConfigWrite)
      (new_id : String) where
    abbrev to_new : ConfigTarget
    to_new = record { existing = none; new_id = new_id }

    abbrev tokens_new : List String
    tokens_new = write_tokens w.device_uuid to_new w.key

    -- An insert joins the run.
    abbrev with_insert : Uploading → Uploading
    with_insert s' = record (push_insert req new_id w tokens_new s') {
      batch = note_write s'.batch w.device_uuid to_new w.key;
    }

    insert_joins :
        (s' : Uploading)
        → IsAt req s' rows
        → s'.told ≡ s.told
        → OfKind insert_kind s'.pending
        → (r : Result (List ConfigRow)) → issue_insert req new_id w rows ≡ r
        → Buffered s (ok (with_insert s')) r
    unfolding push_insert write_tokens
    insert_joins s' at' told of_kind (ok rows') e =
        let (free, q) = issue_insert-FreeAt req w rows new_id rows' e in
        (
          subst
              (λ t.
                Tracks req (note_write s'.batch w.device_uuid to_new w.key)
                  (add_ins new_id w s'.pending) (record_all s'.runs insert_kind tokens_new) s'.rows
                  t)
              (sym q)
              (insert-Tracks req s'.batch s'.pending s'.runs s'.rows rows at' w new_id of_kind free
                (e ∙ ap ok q)),
          told,
        )
    insert_joins s' at' told (ws, only) (err x) e = record {
      tracked =
          joined-Tracked (add_ins new_id w s'.pending) s'.runs insert_kind (id_token new_id)
            (key_token w.device_uuid w.key ∷ [])
            (ws ++ (new_id, w) ∷ [], ap (add_ins new_id w) only);
      fails = (
        x,
        subst (λ q. flush_configs req (add_ins new_id w q) s'.rows ≡ err x) (sym only)
            (push-ins req s'.rows rows at'.sent ws new_id w
                (subst (λ q. flush_configs req q s'.rows ≡ ok (rows, at'.sent)) only at'.flushed)
              ∙ rw e refl),
      );
    }

    insert_written : Buffered s (write_config req to_new w s) (issue_insert req new_id w rows)
    unfolding write_config buffer_config write_tokens
    insert_written =
        let b = any_needs_flush s.runs insert_kind tokens_new in
        let (s', passed) = flush_if-Passed req b s rows at in
        let (of_kind, _) =
          ready req s s' rows insert_kind (id_token new_id) (key_token w.device_uuid w.key ∷ [])
            passed.at.tracked passed in
        rw passed.run
          (insert_joins s' passed.at passed.told of_kind (issue_insert req new_id w rows) refl)

  module _ (s : Uploading) (rows : List ConfigRow) (at : IsAt req s rows) (w : ConfigWrite)
      (e : ExistingConfig) where
    abbrev to_row : String → ConfigTarget
    to_row new_id = record { existing = some e; new_id = new_id }

    -- An update of a row that keeps its id joins the run.
    update_written :
        FreeAt req.user_id w.device_uuid w.key rows e.id (some e)
        → Buffered s (write_config req (to_row e.id) w s) (issue_update req e.id e.id w rows)
    unfolding write_config buffer_config push_update write_tokens
    update_written free =
        let tokens = write_tokens w.device_uuid (to_row e.id) w.key in
        let (s', passed) =
          flush_if-Passed req (any_needs_flush s.runs update_in_place tokens) s rows at in
        let (of_kind, absent) =
          ready req s s' rows update_in_place (id_token e.id)
            (key_token w.device_uuid w.key ∷ id_token e.id ∷ key_token w.device_uuid e.key ∷ [])
            passed.at.tracked passed in
        rw ((str_eq_iff e.id e.id).1 refl, passed.run, issue_update-FreeAt req w rows e.id e free)
          (
            update-Tracks req s'.batch s'.pending s'.runs s'.rows rows passed.at w e of_kind absent
                free,
            passed.told,
          )

    -- One that changes its id is issued at once, behind the run.
    rename_written :
        (new_id : String)
        → FreeAt req.user_id w.device_uuid w.key rows new_id (some e)
        → str_eq e.id new_id ≡ false
        → Buffered s (write_config req (to_row new_id) w s) (issue_update req e.id new_id w rows)
    unfolding write_config buffer_config rename_now flush_run write_target
    rename_written new_id free other =
        rw (other, at.flushed, issue_update-FreeAt req w rows new_id e free)
          (
            no_writes-Tracks req (note_write s.batch w.device_uuid (to_row new_id) w.key) s.runs
                (update_config req e.id new_id w rows)
                (write-Sound req at.sound w new_id (some e) free),
            refl,
          )

    row_written :
        (new_id : String)
        → FreeAt req.user_id w.device_uuid w.key rows new_id (some e)
        → Buffered s (write_config req (to_row new_id) w s) (issue_update req e.id new_id w rows)
    row_written new_id free = elim (Bool-cases (str_eq e.id new_id)) [
      | inl y ↦
          subst
            (λ i.
              FreeAt req.user_id w.device_uuid w.key rows i (some e)
              → Buffered s (write_config req (to_row i) w s) (issue_update req e.id i w rows))
            ((str_eq_iff e.id new_id).0 y) update_written free
      | inr n ↦ rename_written new_id free n
    ]

  -- Whatever a write lands on, buffering it and issuing it come to the same.
  pub write_config-Buffered :
      (s : Uploading) (rows : List ConfigRow) (w : ConfigWrite) (P : Type 0) (new_id : String)
      (e : Option ExistingConfig)
      → IsAt req s rows
      → FreeIf req.user_id w.device_uuid w.key rows P new_id e
      → Buffered s
          (write_config req record { existing = e; new_id = new_id } w s)
          (issue_target req record { existing = e; new_id = new_id } w rows)
  unfolding issue_target
  write_config-Buffered s rows w P new_id none at free = insert_written s rows at w new_id
  write_config-Buffered s rows w P new_id (some e) at free = row_written s rows at w e new_id free
