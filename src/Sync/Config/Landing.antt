-- ===== src/Sync/Config/Landing.antt =====
-- One write of an upload (src/routes/sync/config.rs) from its lookups to its acknowledgement, with the
-- prefetch and the run, against the same change on its own.
use teddy_fyi_api_rust.Prelude.{
  ◌≡◌, refl, ap, ◌∙◌, subst, String, Bool, true, false, none, some, List, [], ◌∷◌, arith, inl, inr,
}
use teddy_fyi_api_rust.Prelude.Int.{ℤ}
use teddy_fyi_api_rust.Prelude.Membership.{IsIn}
use teddy_fyi_api_rust.Errors.{Result, ok, err, Result-cases, ◌>>=◌}
use teddy_fyi_api_rust.Sync.Versioning.{advance_version}
use teddy_fyi_api_rust.Sync.Devices.{Device, registered_device_set}
use teddy_fyi_api_rust.Sync.Devices.Registered.{IsSteady}
use teddy_fyi_api_rust.Sync.Paging.Fetch.{ConfigRow}
use teddy_fyi_api_rust.Sync.Config.Statements.{
  ConfigRequest, has_id, has_device_id, find, bump_config, delete_config,
}
use teddy_fyi_api_rust.Sync.Config.Find.{find-some}
use teddy_fyi_api_rust.Sync.Config.Free.{FreeIf, resolve_config_target_uncached-FreeIf}
use teddy_fyi_api_rust.Sync.Config.Batch.{
  ConfigBatch, ConfigTarget, row_for_uncached, note_version_bump,
}
use teddy_fyi_api_rust.Sync.Config.Resolve.{resolve_config_target, resolve_config_target_uncached}
use teddy_fyi_api_rust.Sync.Config.Buffer.{
  version_bump, delete_kind, ConfigData, Told, Uploading, id_token, key_token, record_all,
  any_needs_flush, flush_run, flush_if, write_config, acknowledge,
}
use teddy_fyi_api_rust.Sync.Config.Process.{
  Uploader, next_config_version, config_write, push_in_place, row_tokens, push_row, write_in_place,
  land,
}
use teddy_fyi_api_rust.Sync.Config.Alone.{
  Alone, issue_target, issue_in_place, in_place_alone, land_alone,
}
use teddy_fyi_api_rust.Sync.Config.Tracks.{Tracks, IsAt, IsDoomed, flush_if-Passed}
use teddy_fyi_api_rust.Sync.Config.Tokens.{ready}
use teddy_fyi_api_rust.Sync.Config.Join.{add_bump, add_del}
use teddy_fyi_api_rust.Sync.Config.JoinInPlace.{bump-Tracks, delete-Tracks}
use teddy_fyi_api_rust.Sync.Config.Lookups.{resolve_config_target-at}
use teddy_fyi_api_rust.Sync.Config.Follow.{Buffered, write_config-Buffered}

flush_if-batch :
    (req : ConfigRequest) (b : Bool) (s s' : Uploading) (batch : ConfigBatch)
    → flush_if req b s ≡ ok s'
    → flush_if req b (record s { batch = batch }) ≡ ok (record s' { batch = batch })
unfolding flush_if flush_run
flush_if-batch req false s s' batch e = ground arith
flush_if-batch req true s s' batch e = ground arith

module _ (who : Uploader) (candidates : List String) (ds : List Device) where
  abbrev req : ConfigRequest
  req = who.request

  abbrev pub registered : List String
  registered = registered_device_set who.device_rule req.user_id candidates ds

  -- Both have come to the same, or one has failed and the other has or will.
  abbrev pub Follows : Result Uploading → Result Alone → Type 0
  Follows (ok s) (ok a) =
      IsAt req s a.rows × (s.told ≡ a.told) × IsSteady ds who.device_rule a.told.devices
  Follows (ok s) (err _) = IsDoomed req s
  Follows (err _) (ok _) = ⊥
  Follows (err _) (err _) = Unit {0}

  abbrev pub alone : Uploading → List ConfigRow → Alone
  alone s rows = record { rows = rows; told = s.told }

  told-Follows :
      (s : Uploading) (f : Told → Told) (r : Result Uploading) (q : Result (List ConfigRow))
      → ((t : Told) → (f t).devices ≡ t.devices)
      → IsSteady ds who.device_rule s.told.devices
      → Buffered req s r q
      → Follows
          (r >>= λ u. ok (record u { told = f u.told }))
          (q >>= λ rows. ok record { rows = rows; told = f s.told })
  told-Follows s f (ok u) (ok rows) keeps steady (at, told) =
      (at, ap f told, λ h. keeps s.told ∙ steady h)
  told-Follows s f (ok u) (err _) keeps steady d = d
  told-Follows s f (err _) (ok _) keeps steady h = h
  told-Follows s f (err _) (err _) keeps steady h = h

  pub acknowledge-devices :
      (id : String) (v : ℤ) (t : Told) → (acknowledge id v t).devices ≡ t.devices
  unfolding acknowledge
  acknowledge-devices id v t = refl

  module _ (change_id : String) (s : Uploading) (rows : List ConfigRow) (at : IsAt req s rows)
      (steady : IsSteady ds who.device_rule s.told.devices) where
    pub land-Follows :
        (item : ConfigData) (device : String) (target : ConfigTarget) (P : Type 0)
        → FreeIf req.user_id device item.key rows P target.new_id target.existing
        → Follows
            (land who change_id item device target s)
            (land_alone who change_id item device target (alone s rows))
    unfolding land land_alone config_write
    land-Follows item device target P free =
        elim (Result-cases (next_config_version change_id target item)) [
          | inr (x, e) ↦ rw e tt
          | inl (version, e) ↦ rw e (
              told-Follows s (acknowledge change_id version)
                (write_config req target (config_write device version item) s)
                (issue_target req target (config_write device version item) rows)
                (acknowledge-devices change_id version) steady
                (write_config-Buffered req s rows (config_write device version item) P target.new_id
                  target.existing at free))
        ]

  module _ (change_id : String) (s : Uploading) (rows : List ConfigRow) (at : IsAt req s rows)
      (steady : IsSteady ds who.device_rule s.told.devices) where
    module _ (id device : String) (row : ConfigRow)
        (found : row_for_uncached req.user_id id (some device) rows ≡ some row) where
      abbrev tokens : List String
      tokens = id_token id ∷ key_token device row.key ∷ []

      the_row : IsIn row rows × (has_device_id req.user_id id device row ≡ true)
      unfolding row_for_uncached
      the_row = find-some (has_device_id req.user_id id device) rows row found

      pub bump-Follows :
          Follows
            (write_in_place who version_bump change_id id device row s)
            (in_place_alone who version_bump change_id id device row (alone s rows))
      unfolding write_in_place in_place_alone push_row push_in_place row_tokens issue_in_place
          acknowledge
      bump-Follows = elim (Result-cases (advance_version change_id row.version)) [
        | inr (x, e) ↦ rw e tt
        | inl (version, e) ↦
            let b = any_needs_flush s.runs version_bump tokens in
            let (s', passed) = flush_if-Passed req b s rows at in
            let (of_kind, absent) =
              ready req s s' rows version_bump (id_token id) (key_token device row.key ∷ [])
                passed.at.tracked passed in
            let run =
              flush_if-batch req b s s' (note_version_bump s.batch device id row.key) passed.run in
            rw (e, run)
              (
                subst
                    (λ t.
                      Tracks req (note_version_bump t device id row.key)
                        (add_bump record { id = id; version = version; device_uuid = device }
                          s'.pending)
                        (record_all s'.runs version_bump tokens) s'.rows
                        (bump_config req id device version rows))
                    passed.batch
                    (bump-Tracks req s'.batch s'.pending s'.runs s'.rows rows passed.at id device
                      version row the_row.0 the_row.1 of_kind absent),
                ap (acknowledge change_id version) passed.told,
                λ h. steady h,
              )
      ]

      pub delete-Follows :
          Follows
            (write_in_place who delete_kind change_id id device row s)
            (in_place_alone who delete_kind change_id id device row (alone s rows))
      unfolding write_in_place in_place_alone push_row push_in_place row_tokens issue_in_place
          acknowledge
      delete-Follows = elim (Result-cases (advance_version change_id row.version)) [
        | inr (x, e) ↦ rw e tt
        | inl (version, e) ↦
            let b = any_needs_flush s.runs delete_kind tokens in
            let (s', passed) = flush_if-Passed req b s rows at in
            let (of_kind, absent) =
              ready req s s' rows delete_kind (id_token id) (key_token device row.key ∷ [])
                passed.at.tracked passed in
            let run =
              flush_if-batch req b s s' (note_version_bump s.batch device id row.key) passed.run in
            rw (e, run)
              (
                subst
                    (λ t.
                      Tracks req (note_version_bump t device id row.key)
                        (add_del record { id = id; version = version; device_uuid = device }
                          s'.pending)
                        (record_all s'.runs delete_kind tokens) s'.rows
                        (delete_config req id device version rows))
                    passed.batch
                    (delete-Tracks req s'.batch s'.pending s'.runs s'.rows rows passed.at id device
                      version row the_row.0 the_row.1 of_kind absent),
                ap (acknowledge change_id version) passed.told,
                λ h. steady h,
              )
      ]

    -- A write at the target that the loop resolves, behind its guards.
    pub target-Follows :
        (id device fresh : String) (item : ConfigData)
        → s.runs.ids (id_token id) ≡ false
        → s.runs.ids (key_token device item.key) ≡ false
        → Follows
            (land who change_id item device
              (resolve_config_target s.batch fresh req.user_id device id item.key s.rows)
              s)
            (land_alone who change_id item device
              (resolve_config_target_uncached fresh req.user_id device id item.key rows)
              (alone s rows))
    target-Follows id device fresh item absent key_absent =
        let target = resolve_config_target_uncached fresh req.user_id device id item.key rows in
        rw (resolve_config_target-at req s rows at id absent device item.key key_absent fresh) (
          land-Follows change_id s rows at steady item device target
            (find (has_id fresh) rows ≡ none)
            (resolve_config_target_uncached-FreeIf req.user_id device item.key rows at.sound.keyed
              fresh id))
