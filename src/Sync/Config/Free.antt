-- ===== src/Sync/Config/Free.antt =====
-- The place that `resolve_config_target_uncached` (src/routes/sync/config.rs) gives a write is free: no
-- other row has the id or the key that the row will carry.
use teddy_fyi_api_rust.Prelude.{
  ◌≡◌, refl, inl, inr, Bool-cases, String, true, false, ◌||◌, Option, none, some, List, arith,
  str_eq, str_eq_iff,
}
use teddy_fyi_api_rust.Prelude.Membership.{IsIn}
use teddy_fyi_api_rust.Sync.Paging.Fetch.{ConfigRow}
use teddy_fyi_api_rust.Sync.Config.Statements.{find, has_id, has_owned_id, has_device_id, has_key}
use teddy_fyi_api_rust.Sync.Config.Find.{find-some, find-none}
use teddy_fyi_api_rust.Sync.Config.Batch.{ConfigTarget, ExistingConfig}
use teddy_fyi_api_rust.Sync.Config.Loaded.{IsKeyed}
use teddy_fyi_api_rust.Sync.Config.Resolve.{
  choose_new_id, target_of, is_some, resolve_config_target_uncached,
}

module _ (user device key : String) (rows : List ConfigRow) where
  -- The row that an update names is there, in the account and on the device.
  pub record Stands (e : ExistingConfig) : Type 0 where
    pub row : ConfigRow
    pub held : IsIn row rows
    pub id_is : row.id ≡ e.id
    pub key_is : row.key ≡ e.key
    pub owned : has_device_id user e.id device row ≡ true

  -- An insert finds neither its id nor its key in use, an update neither outside its own row.
  abbrev pub FreeAt : String → Option ExistingConfig → Type 0
  FreeAt new_id none =
      (r : ConfigRow) → IsIn r rows → (has_id new_id r || has_key user device key r) ≡ false
  FreeAt new_id (some e) =
      Stands e
      × ((r : ConfigRow)
          → IsIn r rows
          → (has_id new_id r || has_key user device key r) ≡ true
          → has_owned_id user e.id r ≡ true)

  abbrev pub IsFree : ConfigTarget → Type 0
  IsFree target = FreeAt target.new_id target.existing

  -- What is written over is known without a condition on the id that is drawn.
  abbrev pub FreeIf : Type 0 → String → Option ExistingConfig → Type 0
  FreeIf P new_id none = P → FreeAt new_id none
  FreeIf P new_id (some e) = FreeAt new_id (some e)

  pub FreeIf-FreeAt :
      (P : Type 0) (new_id : String) (e : Option ExistingConfig)
      → P
      → FreeIf P new_id e
      → FreeAt new_id e
  FreeIf-FreeAt P new_id none p f = f p
  FreeIf-FreeAt P new_id (some e) p f = f

  abbrev IsFreeIf : Type 0 → ConfigTarget → Type 0
  IsFreeIf P target = FreeIf P target.new_id target.existing

  -- What stands is known by its id, and by its account.
  standing :
      (r s : ConfigRow) → str_eq r.user_id user ≡ true → s ≡ r → has_owned_id user r.id s ≡ true
  standing r s o e = ground (arith, str_eq_iff r.id r.id)

  module _ (keyed : IsKeyed rows) where
    -- Whatever has the id or the key of a row that is there is that row.
    of_row :
        (r s : ConfigRow)
        → IsIn r rows
        → IsIn s rows
        → has_key user device key r ≡ true
        → (has_id r.id s || has_key user device key s) ≡ true
        → has_owned_id user r.id s ≡ true
    of_row r s m n h c = elim (Bool-cases (has_id r.id s)) [
      | inl i ↦
          standing r s (ground (arith, h))
            (keyed.one_id r.id s r n m i (ground (arith, str_eq_iff r.id r.id)))
      | inr i ↦
          standing r s (ground (arith, h)) (keyed.one_key user device key s r n m (ground arith) h)
    ]

    -- So it is for a row found by its id, where no row has the key.
    of_id :
        (r s : ConfigRow)
        → IsIn r rows
        → IsIn s rows
        → str_eq r.user_id user ≡ true
        → find (has_key user device key) rows ≡ none
        → (has_id r.id s || has_key user device key s) ≡ true
        → has_owned_id user r.id s ≡ true
    of_id r s m n o none_has c = standing r s o (
        keyed.one_id r.id s r n m
          (ground (arith, find-none (has_key user device key) rows s none_has n))
          (ground (arith, str_eq_iff r.id r.id)))

    module _ (fresh submitted : String) where
      abbrev Unused : Type 0
      Unused = find (has_id fresh) rows ≡ none

      target-FreeIf :
          (k i t : Option ConfigRow)
          → find (has_key user device key) rows ≡ k
          → find (has_device_id user submitted device) rows ≡ i
          → find (has_id submitted) rows ≡ t
          → IsFreeIf Unused (target_of fresh k i (is_some t) submitted)
      unfolding target_of choose_new_id
      target-FreeIf (some r) i none ek ei et =
          let (m, h) = find-some (has_key user device key) rows r ek in
          (
            record {
              row = r;
              held = m;
              id_is = refl;
              key_is = refl;
              owned = ground (arith, h, str_eq_iff r.id r.id);
            },
            λ s n c. of_row r s m n h (ground (arith, c, find-none (has_id submitted) rows s et n)),
          )
      target-FreeIf (some r) i (some _) ek ei et =
          let (m, h) = find-some (has_key user device key) rows r ek in
          (
            record {
              row = r;
              held = m;
              id_is = refl;
              key_is = refl;
              owned = ground (arith, h, str_eq_iff r.id r.id);
            },
            λ s n c. of_row r s m n h c,
          )
      target-FreeIf none (some r) none ek ei et =
          let (m, h) = find-some (has_device_id user submitted device) rows r ei in
          absurd (ground (arith, h, find-none (has_id submitted) rows r et m))
      target-FreeIf none (some r) (some _) ek ei et =
          let (m, h) = find-some (has_device_id user submitted device) rows r ei in
          (
            record {
              row = r;
              held = m;
              id_is = refl;
              key_is = refl;
              owned = ground (arith, h, str_eq_iff r.id r.id);
            },
            λ s n c. of_id r s m n (ground (arith, h)) ek c,
          )
      target-FreeIf none none none ek ei et = λ unused s n. ground (
        arith,
        find-none (has_id submitted) rows s et n,
        find-none (has_key user device key) rows s ek n,
      )
      target-FreeIf none none (some _) ek ei et = λ unused s n. ground (
        arith,
        find-none (has_id fresh) rows s unused n,
        find-none (has_key user device key) rows s ek n,
      )

      pub resolve_config_target_uncached-FreeIf :
          IsFreeIf Unused (resolve_config_target_uncached fresh user device submitted key rows)
      unfolding resolve_config_target_uncached
      resolve_config_target_uncached-FreeIf =
          target-FreeIf (find (has_key user device key) rows)
            (find (has_device_id user submitted device) rows) (find (has_id submitted) rows) refl
            refl refl

      pub resolve_config_target_uncached-IsFree :
          Unused → IsFree (resolve_config_target_uncached fresh user device submitted key rows)
      resolve_config_target_uncached-IsFree unused =
          let target = resolve_config_target_uncached fresh user device submitted key rows in
          FreeIf-FreeAt Unused target.new_id target.existing unused
            resolve_config_target_uncached-FreeIf
