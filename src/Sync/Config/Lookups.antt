-- ===== src/Sync/Config/Lookups.antt =====
-- What an upload (src/routes/sync/config.rs) reads while writes are in its run is what it would read
-- had they been issued, once its guards have passed.
use teddy_fyi_api_rust.Prelude.{
  ◌≡◌, refl, ◌∙◌, String, Bool, false, ◌&&◌, Option, List, arith, inl, inr, Bool-cases, str_eq,
}
use teddy_fyi_api_rust.Sync.Paging.Fetch.{ConfigRow}
use teddy_fyi_api_rust.Sync.Batching.{contains_id}
use teddy_fyi_api_rust.Sync.Config.Statements.{ConfigRequest, find, has_id, has_owned_id, has_key}
use teddy_fyi_api_rust.Sync.Config.Find.{find-SameWhere}
use teddy_fyi_api_rust.Sync.Config.Batch.{in_device, row_for, row_for_uncached}
use teddy_fyi_api_rust.Sync.Config.Resolve.{resolve_config_target, resolve_config_target_uncached}
use teddy_fyi_api_rust.Sync.Config.Buffer.{Uploading, id_token, key_token}
use teddy_fyi_api_rust.Sync.Config.Cached.{row_for-uncached, resolve_config_target-uncached}
use teddy_fyi_api_rust.Sync.Config.Tracks.{IsAt, Passed}

module _ (req : ConfigRequest) where
  -- A guard leaves no write of its token behind.
  pub Passed-absent :
      (t : String) (s s' : Uploading) (rows : List ConfigRow)
      → Passed req (contains_id s.runs t) s s' rows
      → s'.runs.ids t ≡ false
  unfolding contains_id
  Passed-absent t s s' rows passed = elim (Bool-cases (s.runs.ids t)) [
    | inl y ↦ (passed.gone y).1 t
    | inr n ↦ passed.fewer t n
  ]

  module _ (s : Uploading) (rows : List ConfigRow) (at : IsAt req s rows) (id : String)
      (absent : s.runs.ids (id_token id) ≡ false) where
    find-owned :
        (q : ConfigRow → Bool)
        → find (λ row. has_owned_id req.user_id id row && q row) s.rows
          ≡ find (λ row. has_owned_id req.user_id id row && q row) rows
    find-owned q =
        find-SameWhere (λ row. has_owned_id req.user_id id row && q row) s.rows rows
          (λ a b m n c d. at.sound.keyed.one_id id a b m n (ground (arith, c)) (ground (arith, d)))
          (λ r c. at.unsent.ids id (at.ids id absent) r (ground (arith, c)))

    pub row_for-at :
        (device_filter : Option String)
        → row_for s.batch req.user_id id device_filter s.rows
          ≡ row_for_uncached req.user_id id device_filter rows
    unfolding row_for
    row_for-at device_filter = row_for-rows ∙ row_for-uncached at.sound id device_filter
      where
        row_for-rows :
            row_for s.batch req.user_id id device_filter s.rows
            ≡ row_for s.batch req.user_id id device_filter rows
        row_for-rows = rw (row_for, row_for_uncached, find-owned (in_device device_filter)) refl

    module _ (device key : String) (key_absent : s.runs.ids (key_token device key) ≡ false) where
      uncached-rows :
          (fresh : String)
          → resolve_config_target_uncached fresh req.user_id device id key s.rows
            ≡ resolve_config_target_uncached fresh req.user_id device id key rows
      unfolding resolve_config_target_uncached
      uncached-rows fresh =
          let by_key =
            find-SameWhere (has_key req.user_id device key) s.rows rows
              (at.sound.keyed.one_key req.user_id device key)
              (at.unsent.places device key (at.places device key key_absent)) in
          let by_id = find-owned (λ row. str_eq row.device_uuid device) in
          let any_id =
            find-SameWhere (has_id id) s.rows rows (at.sound.keyed.one_id id)
              (at.unsent.ids id (at.ids id absent)) in
          rw (by_key, by_id, any_id) refl

      pub resolve_config_target-at :
          (fresh : String)
          → resolve_config_target s.batch fresh req.user_id device id key s.rows
            ≡ resolve_config_target_uncached fresh req.user_id device id key rows
      unfolding resolve_config_target
      resolve_config_target-at fresh =
          target-rows ∙ resolve_config_target-uncached at.sound fresh device id key
        where
          target-rows :
              resolve_config_target s.batch fresh req.user_id device id key s.rows
              ≡ resolve_config_target s.batch fresh req.user_id device id key rows
          target-rows = rw (resolve_config_target, uncached-rows fresh) refl
