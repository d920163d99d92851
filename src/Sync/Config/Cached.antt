-- ===== src/Sync/Config/Cached.antt =====
-- The prefetch of an upload (src/routes/sync/config.rs) against the statements it replaces, at every
-- point of the upload.
use teddy_fyi_api_rust.Prelude.{
  ◌≡◌, refl, ap, ◌∙◌, String, Bool, true, ◌&&◌, Option, none, some, List, arith, inl, inr, str_eq,
  Bool-cases,
}
use teddy_fyi_api_rust.Prelude.Int.{ℤ}
use teddy_fyi_api_rust.Prelude.Membership.{IsIn}
use teddy_fyi_api_rust.Sync.Paging.Fetch.{ConfigRow}
use teddy_fyi_api_rust.Sync.Config.Statements.{
  ConfigRequest, ConfigWrite, find, has_id, has_owned_id, has_device_id, has_key, bump_config,
  delete_config,
}
use teddy_fyi_api_rust.Sync.Config.Find.{find-SameWhere}
use teddy_fyi_api_rust.Sync.Config.Batch.{
  ConfigBatch, ExistingConfig, has, id_at, load, row_for, row_for_uncached, in_device, keep_if,
  id_is_fresh, target_is_fresh, note_write, note_version_bump,
}
use teddy_fyi_api_rust.Sync.Config.Loaded.{IsKeyed, Prefetched, load-Prefetched}
use teddy_fyi_api_rust.Sync.Config.Answers.{find-by_id, row_of-by_key}
use teddy_fyi_api_rust.Sync.Config.Steps.{
  Untouched, write-Untouched, write-IsKeyed, bump-Untouched, bump-IsKeyed, delete-Untouched,
  delete-IsKeyed,
}
use teddy_fyi_api_rust.Sync.Config.Free.{FreeAt}
use teddy_fyi_api_rust.Sync.Config.Resolve.{
  row_of, is_some, write_target, resolve_config_target, resolve_config_target_uncached,
}

-- The batch was read from a table that differs from this one only in what is noted as stale.
pub record Sound (user : String) (batch : ConfigBatch) (rows : List ConfigRow) : Type 0 where
  pub before : List ConfigRow
  pub keyed_before : IsKeyed before
  pub keyed : IsKeyed rows
  pub prefetched : Prefetched user before batch
  pub untouched : Untouched user batch before rows

fresh-prefetched :
    (batch : ConfigBatch) (id : String)
    → id_is_fresh batch id ≡ true
    → has batch.prefetched_ids id ≡ true
unfolding id_is_fresh
fresh-prefetched batch id h = ground (arith, h)

module _ {user : String} {batch : ConfigBatch} {rows : List ConfigRow}
    (sound : Sound user batch rows) where
  find-refined :
      (id : String) (q : ConfigRow → Bool)
      → id_is_fresh batch id ≡ true
      → find (λ row. has_owned_id user id row && q row) sound.before
        ≡ find (λ row. has_owned_id user id row && q row) rows
  unfolding id_is_fresh
  find-refined id q h =
      find-SameWhere (λ row. has_owned_id user id row && q row) sound.before rows
        (λ r s m n c d. sound.keyed.one_id id r s m n (ground (arith, c)) (ground (arith, d)))
        (λ r c. sound.untouched.ids id (ground (arith, h)) r (ground (arith, c)))

  cached-by_id :
      (id : String) (q : ConfigRow → Bool)
      → id_is_fresh batch id ≡ true
      → keep_if (λ row. str_eq row.user_id user && q row) (find (has_id id) batch.by_id)
        ≡ find (λ row. has_owned_id user id row && q row) rows
  cached-by_id id q h =
      find-by_id sound.keyed_before sound.prefetched q id (fresh-prefetched batch id h)
      ∙ find-refined id q h

  pub row_for-uncached :
      (id : String) (device_filter : Option String)
      → row_for batch user id device_filter rows ≡ row_for_uncached user id device_filter rows
  unfolding row_for row_for_uncached
  row_for-uncached id device_filter = elim (Bool-cases (id_is_fresh batch id)) [
    | inr n ↦ rw n refl
    | inl h ↦ rw h (cached-by_id id (in_device device_filter) h)
  ]

  module _ (fresh device submitted_id key : String)
      (h : target_is_fresh batch submitted_id device key ≡ true) where
    cached-by_key :
        row_of (id_at batch.by_key (device, key)) batch.by_id ≡ find (has_key user device key) rows
    unfolding target_is_fresh
    cached-by_key =
        row_of-by_key sound.keyed_before sound.prefetched device key (ground (arith, h))
        ∙ find-SameWhere (has_key user device key) sound.before rows
            (sound.keyed.one_key user device key)
            (sound.untouched.places device key (ground (arith, h)))

    cached-taken : has batch.taken_ids submitted_id ≡ is_some (find (has_id submitted_id) rows)
    unfolding target_is_fresh id_is_fresh
    cached-taken =
        sound.prefetched.taken submitted_id (ground (arith, h))
        ∙ ap is_some (
            find-SameWhere (has_id submitted_id) sound.before rows (sound.keyed.one_id submitted_id)
              (sound.untouched.ids submitted_id (ground (arith, h))))

    cached-target :
        resolve_config_target batch fresh user device submitted_id key rows
        ≡ resolve_config_target_uncached fresh user device submitted_id key rows
    unfolding resolve_config_target resolve_config_target_uncached target_is_fresh
    cached-target =
        rw
          (
            h,
            cached-by_key,
            cached-taken,
            cached-by_id submitted_id (λ row. str_eq row.device_uuid device) (ground (arith, h)),
          )
          refl

  pub resolve_config_target-uncached :
      (fresh device submitted_id key : String)
      → resolve_config_target batch fresh user device submitted_id key rows
        ≡ resolve_config_target_uncached fresh user device submitted_id key rows
  unfolding resolve_config_target
  resolve_config_target-uncached fresh device submitted_id key =
      elim (Bool-cases (target_is_fresh batch submitted_id device key)) [
        | inl h ↦ cached-target fresh device submitted_id key h
        | inr n ↦ rw n refl
      ]

module _ {user : String} {batch : ConfigBatch} {before : List ConfigRow}
    (pre : Prefetched user before batch) (device key : String) where
  pub note_write-Prefetched :
      (e : Option ExistingConfig) (new_id : String)
      → Prefetched user before
          (note_write batch device record { existing = e; new_id = new_id } key)
  unfolding note_write
  note_write-Prefetched none new_id = record {
    mirrors = pre.mirrors;
    sound = pre.sound;
    by_ids = pre.by_ids;
    by_keys = pre.by_keys;
    taken = pre.taken;
  }
  note_write-Prefetched (some e) new_id = record {
    mirrors = pre.mirrors;
    sound = pre.sound;
    by_ids = pre.by_ids;
    by_keys = pre.by_keys;
    taken = pre.taken;
  }

  pub note_version_bump-Prefetched :
      (id : String) → Prefetched user before (note_version_bump batch device id key)
  unfolding note_version_bump
  note_version_bump-Prefetched id = record {
    mirrors = pre.mirrors;
    sound = pre.sound;
    by_ids = pre.by_ids;
    by_keys = pre.by_keys;
    taken = pre.taken;
  }

module _ (req : ConfigRequest) {batch : ConfigBatch} {rows : List ConfigRow}
    (sound : Sound req.user_id batch rows) where
  pub write-Sound :
      (w : ConfigWrite) (new_id : String) (e : Option ExistingConfig)
      → FreeAt req.user_id w.device_uuid w.key rows new_id e
      → Sound req.user_id
          (note_write batch w.device_uuid record { existing = e; new_id = new_id } w.key)
          (write_target req record { existing = e; new_id = new_id } w rows)
  write-Sound w new_id e free = record {
    before = sound.before;
    keyed_before = sound.keyed_before;
    keyed = write-IsKeyed req batch sound.before rows sound.untouched sound.keyed w new_id e free;
    prefetched = note_write-Prefetched sound.prefetched w.device_uuid w.key e new_id;
    untouched =
        write-Untouched req batch sound.before rows sound.untouched sound.keyed w new_id e free;
  }

  module _ (id device : String) (version : ℤ) (row : ConfigRow) (held : IsIn row rows)
      (has_it : has_device_id req.user_id id device row ≡ true) where
    pub bump-Sound :
        Sound req.user_id
          (note_version_bump batch device id row.key)
          (bump_config req id device version rows)
    bump-Sound = record {
      before = sound.before;
      keyed_before = sound.keyed_before;
      keyed =
          bump-IsKeyed req batch sound.before rows sound.untouched sound.keyed id device version row
            held has_it;
      prefetched = note_version_bump-Prefetched sound.prefetched device row.key id;
      untouched =
          bump-Untouched req batch sound.before rows sound.untouched sound.keyed id device version
            row held has_it;
    }

    pub delete-Sound :
        Sound req.user_id
          (note_version_bump batch device id row.key)
          (delete_config req id device version rows)
    delete-Sound = record {
      before = sound.before;
      keyed_before = sound.keyed_before;
      keyed =
          delete-IsKeyed req batch sound.before rows sound.untouched sound.keyed id device version
            row held has_it;
      prefetched = note_version_bump-Prefetched sound.prefetched device row.key id;
      untouched =
          delete-Untouched req batch sound.before rows sound.untouched sound.keyed id device version
            row held has_it;
    }

pub load-Sound :
    (user : String) (ids keys : List String) (rows : List ConfigRow)
    → IsKeyed rows
    → Sound user (load user ids keys rows) rows
load-Sound user ids keys rows keyed = record {
  before = rows;
  keyed_before = keyed;
  keyed = keyed;
  prefetched = load-Prefetched user ids keys rows;
  untouched = record { ids = λ _ _ _ _. (λ m. m, λ m. m); places = λ _ _ _ _ _. (λ m. m, λ m. m) };
}
