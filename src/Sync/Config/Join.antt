-- ===== src/Sync/Config/Join.antt =====
-- A write that joins a run (src/routes/sync/config.rs): the table that the run will leave is the one that
-- the write, issued at once, would.
use teddy_fyi_api_rust.Prelude.{
  ◌≡◌, refl, sym, ap, ◌∙◌, subst, String, false, not, ◌&&◌, inl, inr, Option, none, some, List, [],
  ◌∷◌, ◌++◌, map, arith, Bool-cases, Option-cases, str_eq, str_eq_iff,
}
use teddy_fyi_api_rust.Errors.{ok}
use teddy_fyi_api_rust.Sync.Batching.{RunTracker, record_write}
use teddy_fyi_api_rust.Sync.Paging.Fetch.{ConfigRow}
use teddy_fyi_api_rust.Sync.Config.Statements.{
  ConfigRequest, ConfigWrite, find, has_owned_id, insert_config, update_config,
}
use teddy_fyi_api_rust.Sync.Config.Find.{find-none, find-not-IsIn}
use teddy_fyi_api_rust.Sync.Config.Free.{FreeAt}
use teddy_fyi_api_rust.Sync.Config.Batch.{
  ConfigBatch, ConfigTarget, ExistingConfig, has, has_place, note_write,
}
use teddy_fyi_api_rust.Sync.Config.Resolve.{write_target}
use teddy_fyi_api_rust.Sync.Config.Pending.{
  ConfigPending, InPlace, collides, issue_insert, issue_update, flush_configs,
}
use teddy_fyi_api_rust.Sync.Config.Issue.{has-append}
use teddy_fyi_api_rust.Sync.Config.Push.{push-ins, push-upd, key_of, ids-append}
use teddy_fyi_api_rust.Sync.Config.Steps.{write-Untouched}
use teddy_fyi_api_rust.Sync.Config.Cached.{write-Sound}
use teddy_fyi_api_rust.Sync.Config.Buffer.{
  ConfigKind, insert_kind, update_in_place, id_token, key_token, write_tokens, record_all,
}
use teddy_fyi_api_rust.Sync.Config.Tracks.{OfKind, OfRun, names_id, Tracked, Tracks}
use teddy_fyi_api_rust.Sync.Config.Tokens.{Absent, Differ, record_all-ids, record_all-kind}

module _ (req : ConfigRequest) (w : ConfigWrite) (rows : List ConfigRow) where
  pub issue_insert-FreeAt :
      (id : String) (rows' : List ConfigRow)
      → issue_insert req id w rows ≡ ok rows'
      → FreeAt req.user_id w.device_uuid w.key rows id none × (rows' ≡ insert_config req id w rows)
  unfolding issue_insert
  issue_insert-FreeAt id rows' h = elim (Option-cases (find (collides req id w) rows)) [
    | inl e ↦ (λ r m. find-none (collides req id w) rows r e m, ground (arith, e, h))
    | inr (r, e) ↦ absurd (ground (arith, e, h))
  ]

  pub issue_update-FreeAt :
      (new_id : String) (e : ExistingConfig)
      → FreeAt req.user_id w.device_uuid w.key rows new_id (some e)
      → issue_update req e.id new_id w rows ≡ ok (update_config req e.id new_id w rows)
  unfolding issue_update
  issue_update-FreeAt new_id e (_, free) =
      let none_there =
        find-not-IsIn (λ row. not (has_owned_id req.user_id e.id row) && collides req new_id w row)
          rows
          (λ r m. elim (Bool-cases (collides req new_id w r)) [
            | inl c ↦ ground (arith, free r m c)
            | inr c ↦ ground (arith, c)
          ]) in
      ground (arith, none_there)

pub id_token-differ : (a b : String) → str_eq (id_token b) (id_token a) ≡ false → str_eq a b ≡ false
id_token-differ a b h = ground (arith, h, str_eq_iff a b, str_eq_iff (id_token b) (id_token a))

pub key_token-differ :
    (a x b y : String)
    → str_eq (key_token b y) (key_token a x) ≡ false
    → (str_eq a b && str_eq x y) ≡ false
key_token-differ a x b y h =
    ground (arith, h, str_eq_iff a b, str_eq_iff x y, str_eq_iff (key_token b y) (key_token a x))

-- What a write notes is what its tokens are of.
note_write-ids :
    (noted : ConfigBatch) (device key new_id : String) (e : Option ExistingConfig) (id : String)
    → Differ (write_tokens device record { existing = e; new_id = new_id } key) (id_token id)
    → has noted.stale_ids id ≡ false
    → has (note_write noted device record { existing = e; new_id = new_id } key).stale_ids id
      ≡ false
unfolding write_tokens note_write has
note_write-ids noted device key new_id none id d h =
    ground (arith, id_token-differ new_id id d.0, h)
note_write-ids noted device key new_id (some e) id d h =
    ground (arith, id_token-differ new_id id d.0, id_token-differ e.id id d.1.1.0, h)

note_write-places :
    (noted : ConfigBatch) (device key new_id : String) (e : Option ExistingConfig) (d k : String)
    → Differ (write_tokens device record { existing = e; new_id = new_id } key) (key_token d k)
    → has_place noted.stale_keys (d, k) ≡ false
    → has_place
        (note_write noted device record { existing = e; new_id = new_id } key).stale_keys
        (d, k)
      ≡ false
unfolding write_tokens note_write has_place
note_write-places noted device key new_id none d k t h =
    ground (arith, key_token-differ device key d k t.1.0, h)
note_write-places noted device key new_id (some e) d k t h =
    ground
      (arith, key_token-differ device key d k t.1.0, key_token-differ device e.key d k t.1.1.1.0, h)

abbrev pub add_ins : String → ConfigWrite → ConfigPending → ConfigPending
add_ins id w p = record p { ins = p.ins ++ (id, w) ∷ [] }

abbrev pub add_upd : String → ConfigWrite → ConfigPending → ConfigPending
add_upd id w p = record p { upd = p.upd ++ (id, w) ∷ [] }

abbrev pub add_bump : InPlace → ConfigPending → ConfigPending
add_bump b p = record p { bump = p.bump ++ b ∷ [] }

abbrev pub add_del : InPlace → ConfigPending → ConfigPending
add_del d p = record p { del = p.del ++ d ∷ [] }

-- What the tracker knows once it has recorded a write of a kind.
pub joined-Tracked :
    (p' : ConfigPending) (runs : RunTracker ConfigKind) (kind : ConfigKind) (t : String)
    (ts : List String)
    → OfKind kind p'
    → Tracked p' (record_all runs kind (t ∷ ts))
unfolding record_all record_write
joined-Tracked p' runs kind t ts of_kind =
    let now = record_all-kind (record_write runs kind t) kind ts refl in
    record { of_run = subst (λ o. OfRun o p') (sym now) of_kind; idle = λ e. cc }

module _ (req : ConfigRequest) (batch : ConfigBatch) (p : ConfigPending)
    (runs : RunTracker ConfigKind) (base rows : List ConfigRow)
    (at : Tracks req batch p runs base rows) where
  module _ (w : ConfigWrite) (new_id : String) where
    abbrev to : Option ExistingConfig → ConfigTarget
    to e = record { existing = e; new_id = new_id }

    pub insert-Tracks :
        OfKind insert_kind p
        → FreeAt req.user_id w.device_uuid w.key rows new_id none
        → issue_insert req new_id w rows ≡ ok (insert_config req new_id w rows)
        → Tracks req
            (note_write batch w.device_uuid (to none) w.key)
            (add_ins new_id w p)
            (record_all runs insert_kind (write_tokens w.device_uuid (to none) w.key))
            base
            (insert_config req new_id w rows)
    unfolding write_target write_tokens
    insert-Tracks (ws, only) free issue = record {
      tracked =
          joined-Tracked (add_ins new_id w p) runs insert_kind (id_token new_id)
            (key_token w.device_uuid w.key ∷ [])
            (ws ++ (new_id, w) ∷ [], ap (add_ins new_id w) only);
      named = λ id h.
          at.named id
            (record_all-ids runs insert_kind (write_tokens w.device_uuid (to none) w.key)
              (id_token id) h).0;
      sound = write-Sound req at.sound w new_id none free;
      sent = [];
      flushed =
          subst
            (λ q.
              flush_configs req (add_ins new_id w q) base
              ≡ ok (insert_config req new_id w rows, []))
            (sym only)
            (push-ins req base rows at.sent ws new_id w
                (subst (λ q. flush_configs req q base ≡ ok (rows, at.sent)) only at.flushed)
              ∙ rw issue refl);
      noted = note_write at.noted w.device_uuid (to none) w.key;
      unsent = write-Untouched req at.noted base rows at.unsent at.sound.keyed w new_id none free;
      ids = λ id h.
          let r =
            record_all-ids runs insert_kind (write_tokens w.device_uuid (to none) w.key)
              (id_token id) h in
          note_write-ids at.noted w.device_uuid w.key new_id none id r.1 (at.ids id r.0);
      places = λ d k h.
          let r =
            record_all-ids runs insert_kind (write_tokens w.device_uuid (to none) w.key)
              (key_token d k) h in
          note_write-places at.noted w.device_uuid w.key new_id none d k r.1 (at.places d k r.0);
    }

  module _ (w : ConfigWrite) (e : ExistingConfig) where
    abbrev onto : ConfigTarget
    onto = record { existing = some e; new_id = e.id }

    abbrev onto_tokens : List String
    onto_tokens = write_tokens w.device_uuid onto w.key

    named-upd :
        (id : String)
        → names_id p id ≡ false
        → str_eq e.id id ≡ false
        → names_id (add_upd e.id w p) id ≡ false
    named-upd id h d =
        ground
          (arith, h, d, ids-append key_of p.upd (e.id, w), has-append (map key_of p.upd) e.id id)

    pub update-Tracks :
        OfKind update_in_place p
        → Absent runs onto_tokens
        → FreeAt req.user_id w.device_uuid w.key rows e.id (some e)
        → Tracks req
            (note_write batch w.device_uuid onto w.key)
            (add_upd e.id w p)
            (record_all runs update_in_place onto_tokens)
            base
            (update_config req e.id e.id w rows)
    unfolding write_target write_tokens
    update-Tracks (ws, only) absent free = record {
      tracked =
          joined-Tracked (add_upd e.id w p) runs update_in_place (id_token e.id)
            (key_token w.device_uuid w.key ∷ id_token e.id ∷ key_token w.device_uuid e.key ∷ [])
            (ws ++ (e.id, w) ∷ [], ap (add_upd e.id w) only);
      named = λ id h.
          let r = record_all-ids runs update_in_place onto_tokens (id_token id) h in
          named-upd id (at.named id r.0) (id_token-differ e.id id r.1.0);
      sound = write-Sound req at.sound w e.id (some e) free;
      sent = [];
      flushed =
          subst
            (λ q.
              flush_configs req (add_upd e.id w q) base
              ≡ ok (update_config req e.id e.id w rows, []))
            (sym only)
            (push-upd req base rows at.sent ws e.id w (ground (arith, only, at.named e.id absent.0))
                (subst (λ q. flush_configs req q base ≡ ok (rows, at.sent)) only at.flushed)
              ∙ rw (issue_update-FreeAt req w rows e.id e free) refl);
      noted = note_write at.noted w.device_uuid onto w.key;
      unsent = write-Untouched req at.noted base rows at.unsent at.sound.keyed w e.id (some e) free;
      ids = λ id h.
          let r = record_all-ids runs update_in_place onto_tokens (id_token id) h in
          note_write-ids at.noted w.device_uuid w.key e.id (some e) id r.1 (at.ids id r.0);
      places = λ d k h.
          let r = record_all-ids runs update_in_place onto_tokens (key_token d k) h in
          note_write-places at.noted w.device_uuid w.key e.id (some e) d k r.1 (at.places d k r.0);
    }
