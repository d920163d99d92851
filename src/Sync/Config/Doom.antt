-- ===== src/Sync/Config/Doom.antt =====
-- An upload (src/routes/sync/config.rs) whose run the database will refuse comes to nothing, whatever
-- else it goes on to read or to buffer.
use teddy_fyi_api_rust.Prelude.{
  sym, ap, subst, String, Bool, true, false, Option, none, some, List, [], ◌∷◌, ◌++◌, inl, inr,
  Bool-cases, str_eq,
}
use teddy_fyi_api_rust.Errors.{Result, ok, err, Result-cases, ◌>>=◌}
use teddy_fyi_api_rust.Sync.Devices.{resolve_item_device_cached}
use teddy_fyi_api_rust.Sync.Versioning.{advance_version}
use teddy_fyi_api_rust.Sync.Paging.Fetch.{ConfigRow}
use teddy_fyi_api_rust.Sync.Config.Statements.{ConfigRequest, ConfigWrite}
use teddy_fyi_api_rust.Sync.Config.Batch.{ConfigTarget, ExistingConfig, note_version_bump}
use teddy_fyi_api_rust.Sync.Config.Pending.{InPlace, issue_update, flush_configs}
use teddy_fyi_api_rust.Sync.Config.Push.{
  Fails, push-ins_Fails, push-upd_Fails, push-bump_Fails, push-del_Fails,
}
use teddy_fyi_api_rust.Sync.Config.Buffer.{
  ConfigKind, insert_kind, update_in_place, version_bump, delete_kind, ConfigData, Uploading,
  id_token, key_token, write_tokens, record_all, any_needs_flush, flush_run, flush_if, push_insert,
  push_update, rename_now, buffer_config, write_config, acknowledge,
}
use teddy_fyi_api_rust.Sync.Config.Process.{
  Uploader, with_devices, row_tokens, push_row, next_config_version, config_write, push_in_place,
  write_in_place, land, resolve_device,
}
use teddy_fyi_api_rust.Sync.Config.Tracks.{OfKind, Doomed, IsDoomed, flush_run-Doomed}
use teddy_fyi_api_rust.Sync.Config.Tokens.{unneeded}
use teddy_fyi_api_rust.Sync.Config.Join.{add_ins, add_upd, add_bump, add_del, joined-Tracked}

module _ (req : ConfigRequest) where
  abbrev pub Dead : Result Uploading → Type 0
  Dead (ok s) = IsDoomed req s
  Dead (err e) = Unit {0}

  pub Dead-bind :
      (r : Result Uploading) (f : Uploading → Result Uploading)
      → Dead r
      → ((s : Uploading) → IsDoomed req s → Dead (f s))
      → Dead (r >>= f)
  Dead-bind (ok s) f d h = h s d
  Dead-bind (err e) f d h = tt

  Dead-value :
      {A : Type 0} (r : Result A) (f : A → Result Uploading)
      → ((a : A) → Dead (f a))
      → Dead (r >>= f)
  Dead-value (ok a) f h = h a
  Dead-value (err e) f h = tt

  Fails-Dead : (r : Result Uploading) (f : Uploading → Result Uploading) → Fails r → Dead (r >>= f)
  Fails-Dead (ok s) f (e, h) = cc
  Fails-Dead (err e) f h = tt

  pub flush_if-Dead : (b : Bool) (s : Uploading) → IsDoomed req s → Dead (flush_if req b s)
  unfolding flush_if
  flush_if-Dead true s d = let (e, h) = flush_run-Doomed req s d in rw h tt
  flush_if-Dead false s d = d

  -- A write joins a doomed run, or has it issued.
  join-Dead :
      (s : Uploading) (kind : ConfigKind) (t : String) (ts : List String)
      (push : Uploading → Uploading)
      → IsDoomed req s
      → (OfKind kind s.pending → IsDoomed req (push s))
      → Dead
          (flush_if req (any_needs_flush s.runs kind (t ∷ ts)) s >>= λ flushed. ok (push flushed))
  unfolding flush_if
  join-Dead s kind t ts push d h = elim (Bool-cases (any_needs_flush s.runs kind (t ∷ ts))) [
    | inl y ↦
        rw y
          (Fails-Dead (flush_run req s) (λ flushed. ok (push flushed)) (flush_run-Doomed req s d))
    | inr n ↦ rw n (h (unneeded s.pending s.runs kind t ts d.tracked n).0)
  ]

  module _ (s : Uploading) (d : IsDoomed req s) where
    insert-IsDoomed :
        (id : String) (w : ConfigWrite) (t : String) (ts : List String)
        → OfKind insert_kind s.pending
        → Doomed req (add_ins id w s.pending) (record_all s.runs insert_kind (t ∷ ts)) s.rows
    insert-IsDoomed id w t ts (ws, only) = record {
      tracked =
          joined-Tracked (add_ins id w s.pending) s.runs insert_kind t ts
            (ws ++ (id, w) ∷ [], ap (add_ins id w) only);
      fails =
          subst (λ q. Fails (flush_configs req (add_ins id w q) s.rows)) (sym only)
            (push-ins_Fails req s.rows ws id w
              (subst (λ q. Fails (flush_configs req q s.rows)) only d.fails));
    }

    update-IsDoomed :
        (id : String) (w : ConfigWrite) (t : String) (ts : List String)
        → OfKind update_in_place s.pending
        → Doomed req (add_upd id w s.pending) (record_all s.runs update_in_place (t ∷ ts)) s.rows
    update-IsDoomed id w t ts (ws, only) = record {
      tracked =
          joined-Tracked (add_upd id w s.pending) s.runs update_in_place t ts
            (ws ++ (id, w) ∷ [], ap (add_upd id w) only);
      fails =
          subst (λ q. Fails (flush_configs req (add_upd id w q) s.rows)) (sym only)
            (push-upd_Fails req s.rows ws id w
              (subst (λ q. Fails (flush_configs req q s.rows)) only d.fails));
    }

    bump-IsDoomed :
        (b : InPlace) (t : String) (ts : List String)
        → OfKind version_bump s.pending
        → Doomed req (add_bump b s.pending) (record_all s.runs version_bump (t ∷ ts)) s.rows
    bump-IsDoomed b t ts (ws, only) = record {
      tracked =
          joined-Tracked (add_bump b s.pending) s.runs version_bump t ts
            (ws ++ b ∷ [], ap (add_bump b) only);
      fails =
          subst (λ q. Fails (flush_configs req (add_bump b q) s.rows)) (sym only)
            (push-bump_Fails req s.rows ws b
              (subst (λ q. Fails (flush_configs req q s.rows)) only d.fails));
    }

    delete-IsDoomed :
        (b : InPlace) (t : String) (ts : List String)
        → OfKind delete_kind s.pending
        → Doomed req (add_del b s.pending) (record_all s.runs delete_kind (t ∷ ts)) s.rows
    delete-IsDoomed b t ts (ws, only) = record {
      tracked =
          joined-Tracked (add_del b s.pending) s.runs delete_kind t ts
            (ws ++ b ∷ [], ap (add_del b) only);
      fails =
          subst (λ q. Fails (flush_configs req (add_del b q) s.rows)) (sym only)
            (push-del_Fails req s.rows ws b
              (subst (λ q. Fails (flush_configs req q s.rows)) only d.fails));
    }

    buffer_at :
        (w : ConfigWrite) (new_id : String) (e : Option ExistingConfig)
        → Dead (buffer_config req record { existing = e; new_id = new_id } w s)
    unfolding buffer_config write_tokens push_insert push_update rename_now
    buffer_at w new_id none =
        let rest = key_token w.device_uuid w.key ∷ [] in
        join-Dead s insert_kind (id_token new_id) rest
          (push_insert req new_id w (id_token new_id ∷ rest)) d
          (insert-IsDoomed new_id w (id_token new_id) rest)
    buffer_at w new_id (some e) =
        let rest =
          key_token w.device_uuid w.key ∷ id_token e.id ∷ key_token w.device_uuid e.key ∷ [] in
        elim (Bool-cases (str_eq e.id new_id)) [
          | inl y ↦ rw y (
              join-Dead s update_in_place (id_token new_id) rest
                (push_update req e.id w (id_token new_id ∷ rest)) d
                (update-IsDoomed e.id w (id_token new_id) rest))
          | inr n ↦ rw n (
              Fails-Dead (flush_run req s)
                (λ flushed. do
                  rows ← issue_update req e.id new_id w flushed.rows
                  ok (record flushed { rows = rows }))
                (flush_run-Doomed req s d))
        ]

    write_config-Dead :
        (w : ConfigWrite) (target : ConfigTarget) → Dead (write_config req target w s)
    unfolding write_config
    write_config-Dead w target =
        Dead-bind (buffer_config req target w s) _ (buffer_at w target.new_id target.existing)
          (λ s' d'. d')

module _ (who : Uploader) where
  abbrev req : ConfigRequest
  req = who.request

  pub write_bump-Dead :
      (change_id id device : String) (row : ConfigRow) (s : Uploading)
      → IsDoomed req s
      → Dead req (write_in_place who version_bump change_id id device row s)
  unfolding write_in_place push_row push_in_place row_tokens
  write_bump-Dead change_id id device row s d =
      Dead-value req (advance_version change_id row.version) _ (λ version.
        join-Dead req (record s { batch = note_version_bump s.batch device id row.key })
          version_bump (id_token id) (key_token device row.key ∷ [])
          (push_row version_bump change_id id device row version) d
          (bump-IsDoomed req s d record { id = id; version = version; device_uuid = device }
            (id_token id) (key_token device row.key ∷ [])))

  pub write_delete-Dead :
      (change_id id device : String) (row : ConfigRow) (s : Uploading)
      → IsDoomed req s
      → Dead req (write_in_place who delete_kind change_id id device row s)
  unfolding write_in_place push_row push_in_place row_tokens
  write_delete-Dead change_id id device row s d =
      Dead-value req (advance_version change_id row.version) _ (λ version.
        join-Dead req (record s { batch = note_version_bump s.batch device id row.key }) delete_kind
          (id_token id) (key_token device row.key ∷ [])
          (push_row delete_kind change_id id device row version) d
          (delete-IsDoomed req s d record { id = id; version = version; device_uuid = device }
            (id_token id) (key_token device row.key ∷ [])))

  pub land-Dead :
      (change_id : String) (item : ConfigData) (device : String) (target : ConfigTarget)
      (s : Uploading)
      → IsDoomed req s
      → Dead req (land who change_id item device target s)
  unfolding land
  land-Dead change_id item device target s d =
      Dead-value req (next_config_version change_id target item) _ (λ version.
        Dead-bind req (write_config req target (config_write device version item) s)
          (λ written. ok (record written { told = acknowledge change_id version written.told }))
          (write_config-Dead req s d (config_write device version item) target) (λ u h. h))

  pub resolve_device-Dead :
      (registered : List String) (change_id : String) (named : Option String) (s : Uploading)
      (f : String × Uploading → Result Uploading)
      → IsDoomed req s
      → ((device : String) (s' : Uploading) → IsDoomed req s' → Dead req (f (device, s')))
      → Dead req (resolve_device who registered change_id named s >>= f)
  unfolding resolve_device with_devices
  resolve_device-Dead registered change_id named s f d h =
      elim (Result-cases (
        resolve_item_device_cached who.max_devices registered who.device_rule req.user_id named
          change_id s.told.devices)) [
            | inl (r, e) ↦ rw e (h r.0 (with_devices r.1 s) d)
            | inr (x, e) ↦ rw e tt
          ]

  pub found-Dead :
      (o : Option ConfigRow) (none_case : Result Uploading)
      (some_case : ConfigRow → Result Uploading)
      → Dead req none_case
      → ((row : ConfigRow) → Dead req (some_case row))
      → Dead req (elim o [ none ↦ none_case | some row ↦ some_case row ])
  found-Dead none n f dn df = dn
  found-Dead (some row) n f dn df = df row
