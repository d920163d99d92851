-- ===== src/Sync/Config/Steps.antt =====
-- What one write of an upload (src/routes/sync/config.rs) does: it touches only what it notes, and it
-- breaks neither key of the table.
use teddy_fyi_api_rust.Prelude.{
  ◌≡◌, refl, String, true, false, Option, none, some, List, ◌∷◌, map, arith, str_eq_iff,
}
use teddy_fyi_api_rust.Prelude.Int.{ℤ}
use teddy_fyi_api_rust.Prelude.Membership.{IsIn}
use teddy_fyi_api_rust.Sync.Paging.Fetch.{ConfigRow}
use teddy_fyi_api_rust.Sync.Config.Statements.{
  ConfigRequest, ConfigWrite, has_id, has_owned_id, has_device_id, has_key, inserted, insert_config,
  moved, update_config, bumped_config, bump_config, deleted_config, delete_config, change_where,
}
use teddy_fyi_api_rust.Sync.Config.Find.{AtMostOne, SameWhere}
use teddy_fyi_api_rust.Sync.Config.Frames.{
  SameWhere-trans, insert-SameWhere, insert-AtMostOne, change-SameWhere, change-AtMostOne,
}
use teddy_fyi_api_rust.Sync.Config.Batch.{
  ConfigBatch, ConfigTarget, ExistingConfig, has, has_place, note_write, note_version_bump,
}
use teddy_fyi_api_rust.Sync.Config.Loaded.{IsKeyed}
use teddy_fyi_api_rust.Sync.Config.Free.{FreeAt}
use teddy_fyi_api_rust.Sync.Config.Resolve.{write_target}

-- What the batch does not hold stale is as it was.
pub record Untouched (user : String) (batch : ConfigBatch) (before after : List ConfigRow)
    : Type 0 where
  pub ids : (id : String) → has batch.stale_ids id ≡ false → SameWhere (has_id id) before after
  pub places :
      (device key : String)
      → has_place batch.stale_keys (device, key) ≡ false
      → SameWhere (has_key user device key) before after

module _ (req : ConfigRequest) (batch : ConfigBatch) (before rows : List ConfigRow)
    (same : Untouched req.user_id batch before rows) (keyed : IsKeyed rows) where
  abbrev user : String
  user = req.user_id

  module _ (w : ConfigWrite) (new_id : String) where
    abbrev target : Option ExistingConfig → ConfigTarget
    target e = record { existing = e; new_id = new_id }

    abbrev row_made : ConfigRow
    row_made = inserted req new_id w

    pub write-Untouched :
        (e : Option ExistingConfig)
        → FreeAt user w.device_uuid w.key rows new_id e
        → Untouched user
            (note_write batch w.device_uuid (target e) w.key)
            before
            (write_target req (target e) w rows)
    unfolding note_write write_target insert_config update_config inserted moved has has_place
    write-Untouched none free = record {
      ids = λ id h.
          SameWhere-trans (has_id id) before rows (row_made ∷ rows) (same.ids id (ground arith))
            (insert-SameWhere (has_id id) row_made rows (ground arith));
      places = λ device key h.
          SameWhere-trans (has_key user device key) before rows (row_made ∷ rows)
            (same.places device key (ground arith))
            (insert-SameWhere (has_key user device key) row_made rows (ground arith));
    }
    write-Untouched (some e) (row, free) = record {
      ids = λ id h.
          SameWhere-trans (has_id id) before rows (update_config req e.id new_id w rows)
            (same.ids id (ground arith))
            (change-SameWhere (has_id id) (has_owned_id user e.id) (moved req new_id w) rows
              (λ s m q. (ground (arith, str_eq_iff s.id e.id, q, h), ground (arith, h))));
      places = λ device key h.
          SameWhere-trans (has_key user device key) before rows
            (update_config req e.id new_id w rows) (same.places device key (ground arith))
            (change-SameWhere (has_key user device key) (has_owned_id user e.id)
              (moved req new_id w) rows
              (λ s m q.
                let is_row =
                  keyed.one_id e.id s row.row m row.held (ground (arith, q))
                    (ground (arith, row.owned)) in
                (
                  ground (
                    arith,
                    h,
                    row.key_is,
                    row.owned,
                    is_row,
                    str_eq_iff row.row.device_uuid device,
                    str_eq_iff row.row.device_uuid w.device_uuid,
                  ),
                  ground (arith, h),
                )));
    }

    pub write-IsKeyed :
        (e : Option ExistingConfig)
        → FreeAt user w.device_uuid w.key rows new_id e
        → IsKeyed (write_target req (target e) w rows)
    unfolding write_target insert_config update_config inserted moved
    write-IsKeyed none free = record {
      one_id = λ id.
          insert-AtMostOne (has_id id) row_made rows
            (λ r m c. ground (arith, free r m, str_eq_iff new_id id, c)) (keyed.one_id id);
      one_key = λ u device key.
          insert-AtMostOne (has_key u device key) row_made rows
            (λ r m c. ground (
              arith,
              free r m,
              str_eq_iff user u,
              str_eq_iff w.device_uuid device,
              str_eq_iff w.key key,
              c,
            ))
            (keyed.one_key u device key);
    }
    write-IsKeyed (some e) (row, free) = record {
      one_id = λ id.
          change-AtMostOne (has_id id) (has_owned_id user e.id) (moved req new_id w) rows
            (λ s r m n q c d. free r n (ground (arith, str_eq_iff new_id id, c, d))) own
            (keyed.one_id id);
      one_key = λ u device key.
          change-AtMostOne (has_key u device key) (has_owned_id user e.id) (moved req new_id w) rows
            (λ s r m n q c d. free r n (
              ground (
                arith,
                str_eq_iff s.user_id user,
                str_eq_iff s.user_id u,
                str_eq_iff w.device_uuid device,
                str_eq_iff w.key key,
                q,
                c,
                d,
              )))
            own (keyed.one_key u device key);
    }
      where
        own : AtMostOne (has_owned_id user e.id) rows
        own a b m n c d = keyed.one_id e.id a b m n (ground (arith, c)) (ground (arith, d))

  -- A statement that leaves ids, accounts, devices and keys alone, at the row that was looked up.
  module _ (f : ConfigRow → ConfigRow) (f_id : (s : ConfigRow) → (f s).id ≡ s.id)
      (f_user : (s : ConfigRow) → (f s).user_id ≡ s.user_id)
      (f_device : (s : ConfigRow) → (f s).device_uuid ≡ s.device_uuid)
      (f_key : (s : ConfigRow) → (f s).key ≡ s.key) (id device : String) (row : ConfigRow)
      (held : IsIn row rows) (found : has_device_id user id device row ≡ true) where
    abbrev changed : List ConfigRow
    changed = map (change_where (has_device_id user id device) f) rows

    in_place-Untouched : Untouched user (note_version_bump batch device id row.key) before changed
    unfolding note_version_bump has has_place
    in_place-Untouched = record {
      ids = λ i h. SameWhere-trans (has_id i) before rows changed (same.ids i (ground arith)) (
          change-SameWhere (has_id i) (has_device_id user id device) f rows (λ s m q. (
            ground (arith, str_eq_iff s.id id, q, h),
            ground (arith, str_eq_iff s.id id, q, h, f_id s),
          )));
      places = λ d key h.
          SameWhere-trans (has_key user d key) before rows changed
            (same.places d key (ground arith))
            (change-SameWhere (has_key user d key) (has_device_id user id device) f rows (λ s m q.
              let is_row =
                keyed.one_id id s row m held (ground (arith, q)) (ground (arith, found)) in
              let other : has_key user d key s ≡ false =
                ground (arith, h, is_row, found, str_eq_iff row.device_uuid device) in
              (other, ground (arith, other, f_user s, f_device s, f_key s))));
    }

    in_place-IsKeyed : IsKeyed changed
    in_place-IsKeyed = record {
      one_id = λ i.
          change-AtMostOne (has_id i) (has_device_id user id device) f rows
            (λ s r m n q c d.
              again s r m n q (keyed.one_id i s r m n (ground (arith, f_id s, c)) d))
            own (keyed.one_id i);
      one_key = λ u d key.
          change-AtMostOne (has_key u d key) (has_device_id user id device) f rows
            (λ s r m n q c e.
              again s r m n q (
                keyed.one_key u d key s r m n (ground (arith, f_user s, f_device s, f_key s, c)) e))
            own (keyed.one_key u d key);
    }
      where
        own : AtMostOne (has_device_id user id device) rows
        own a b m n c d = keyed.one_id id a b m n (ground (arith, c)) (ground (arith, d))

        again :
            (s r : ConfigRow)
            → IsIn s rows
            → IsIn r rows
            → has_device_id user id device s ≡ true
            → s ≡ r
            → has_device_id user id device r ≡ true
        again s r m n q e = ground arith

  module _ (id device : String) (version : ℤ) (row : ConfigRow) (held : IsIn row rows)
      (found : has_device_id user id device row ≡ true) where
    pub bump-Untouched :
        Untouched user
          (note_version_bump batch device id row.key)
          before
          (bump_config req id device version rows)
    unfolding bump_config bumped_config
    bump-Untouched =
        in_place-Untouched (bumped_config req version) (λ _. refl) (λ _. refl) (λ _. refl)
          (λ _. refl) id device row held found

    pub bump-IsKeyed : IsKeyed (bump_config req id device version rows)
    unfolding bump_config bumped_config
    bump-IsKeyed =
        in_place-IsKeyed (bumped_config req version) (λ _. refl) (λ _. refl) (λ _. refl) (λ _. refl)
          id device row held found

    pub delete-Untouched :
        Untouched user
          (note_version_bump batch device id row.key)
          before
          (delete_config req id device version rows)
    unfolding delete_config deleted_config
    delete-Untouched =
        in_place-Untouched (deleted_config req version) (λ _. refl) (λ _. refl) (λ _. refl)
          (λ _. refl) id device row held found

    pub delete-IsKeyed : IsKeyed (delete_config req id device version rows)
    unfolding delete_config deleted_config
    delete-IsKeyed =
        in_place-IsKeyed (deleted_config req version) (λ _. refl) (λ _. refl) (λ _. refl)
          (λ _. refl) id device row held found
