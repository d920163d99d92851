-- ===== src/Sync/Config/Loaded.antt =====
-- What `ConfigBatch::load` (src/routes/sync/config.rs) answers straight after it has read the table:
-- what the statements that it replaces would.
use teddy_fyi_api_rust.Prelude.{
  ◌≡◌, refl, sym, ◌∙◌, String, Bool, true, ◌&&◌, ◌⊎◌, inl, inr, none, some, List, [], ◌∷◌, map,
  filter, arith, Bool-cases, str_eq, str_eq_iff,
}
use teddy_fyi_api_rust.Prelude.Membership.{IsIn, IsIn-filter, filter-IsIn}
use teddy_fyi_api_rust.Sync.Paging.Fetch.{ConfigRow}
use teddy_fyi_api_rust.Sync.Config.Statements.{find, has_id, has_key}
use teddy_fyi_api_rust.Sync.Config.Find.{AtMostOne}
use teddy_fyi_api_rust.Sync.Config.Batch.{
  Place, ConfigBatch, has, id_at, remember, remember_all, load, empty_batch,
}
use teddy_fyi_api_rust.Sync.Config.Resolve.{is_some}

-- The primary key, and the unique key `(user_id, device_uuid, key)`.
pub record IsKeyed (rows : List ConfigRow) : Type 0 where
  pub one_id : (id : String) → AtMostOne (has_id id) rows
  pub one_key : (user device key : String) → AtMostOne (has_key user device key) rows

abbrev pub at_place : Place → ConfigRow → Bool
at_place p row = str_eq row.device_uuid p.0 && str_eq row.key p.1

pub has-IsIn : (ids : List String) (id : String) → IsIn id ids → has ids id ≡ true
unfolding has
has-IsIn [] id h = absurd h
has-IsIn (x ∷ ids) id (inl e) = ground (arith, str_eq_iff x id)
has-IsIn (x ∷ ids) id (inr h) = ground (arith, has-IsIn ids id h)

pub IsIn-has : (ids : List String) (id : String) → has ids id ≡ true → IsIn id ids
unfolding has
IsIn-has [] id h = cc
IsIn-has (x ∷ ids) id h = elim (Bool-cases (str_eq x id)) [
  | inl e ↦ inl (sym ((str_eq_iff x id).0 e))
  | inr n ↦ inr (IsIn-has ids id (ground arith))
]

-- The two maps hold the same rows, each under its own key.
abbrev Mirrors : ConfigBatch → Type 0
Mirrors batch =
    (p : Place)
    → id_at batch.by_key p
      ≡ elim (find (at_place p) batch.by_id) [ none ↦ none | some row ↦ some row.id ]

remember-Mirrors :
    (batch : ConfigBatch) (row : ConfigRow) → Mirrors batch → Mirrors (remember batch row)
unfolding remember id_at find
remember-Mirrors batch row h p = ground (arith, h p)

remember_all-Mirrors :
    (batch : ConfigBatch) (rows : List ConfigRow)
    → Mirrors batch
    → Mirrors (remember_all batch rows)
unfolding remember_all
remember_all-Mirrors batch [] h = h
remember_all-Mirrors batch (row ∷ rows) h =
    remember_all-Mirrors (remember batch row) rows (remember-Mirrors batch row h)

module _ (r : ConfigRow) where
  IsIn-remember_all :
      (batch : ConfigBatch) (rows : List ConfigRow)
      → IsIn r (remember_all batch rows).by_id
      → IsIn r rows ⊎ IsIn r batch.by_id
  unfolding remember_all remember
  IsIn-remember_all batch [] h = inr h
  IsIn-remember_all batch (row ∷ rows) h = elim (IsIn-remember_all (remember batch row) rows h) [
    | inl m ↦ inl (inr m)
    | inr (inl e) ↦ inl (inl e)
    | inr (inr m) ↦ inr m
  ]

  kept-remember_all :
      (batch : ConfigBatch) (rows : List ConfigRow)
      → IsIn r batch.by_id
      → IsIn r (remember_all batch rows).by_id
  unfolding remember_all remember
  kept-remember_all batch [] h = h
  kept-remember_all batch (row ∷ rows) h = kept-remember_all (remember batch row) rows (inr h)

  remember_all-IsIn :
      (batch : ConfigBatch) (rows : List ConfigRow)
      → IsIn r rows
      → IsIn r (remember_all batch rows).by_id
  unfolding remember_all remember
  remember_all-IsIn batch [] h = absurd h
  remember_all-IsIn batch (row ∷ rows) (inl e) = kept-remember_all (remember batch row) rows (inl e)
  remember_all-IsIn batch (row ∷ rows) (inr h) = remember_all-IsIn (remember batch row) rows h

-- What the maps of a batch say about the table that they were read from.
pub record Prefetched (user : String) (rows : List ConfigRow) (batch : ConfigBatch) : Type 0 where
  pub mirrors : Mirrors batch
  pub sound : (r : ConfigRow) → IsIn r batch.by_id → IsIn r rows × (str_eq r.user_id user ≡ true)
  pub by_ids :
      (r : ConfigRow)
      → IsIn r rows
      → str_eq r.user_id user ≡ true
      → has batch.prefetched_ids r.id ≡ true
      → IsIn r batch.by_id
  pub by_keys :
      (r : ConfigRow)
      → IsIn r rows
      → str_eq r.user_id user ≡ true
      → has batch.prefetched_keys r.key ≡ true
      → IsIn r batch.by_id
  pub taken :
      (id : String)
      → has batch.prefetched_ids id ≡ true
      → has batch.taken_ids id ≡ is_some (find (has_id id) rows)

taken_of :
    (ids : List String) (rows : List ConfigRow) (id : String)
    → has ids id ≡ true
    → has (map (λ row. row.id) (filter (λ row. has ids row.id) rows)) id
      ≡ is_some (find (has_id id) rows)
unfolding has find
taken_of ids [] id h = refl
taken_of ids (row ∷ rows) id h = elim (Bool-cases (str_eq row.id id)) [
  | inl e ↦ ground (arith, str_eq_iff row.id id)
  | inr n ↦ ground (arith, taken_of ids rows id h)
]

-- Reading rows changes neither what was asked about nor what has gone stale.
AsksSame : ConfigBatch → ConfigBatch → Type 0
AsksSame b b' =
    (b.taken_ids ≡ b'.taken_ids)
    × (b.prefetched_ids ≡ b'.prefetched_ids)
    × (b.prefetched_keys ≡ b'.prefetched_keys)

remember_all-AsksSame :
    (batch : ConfigBatch) (rows : List ConfigRow) → AsksSame (remember_all batch rows) batch
unfolding remember_all remember AsksSame
remember_all-AsksSame batch [] = (refl, refl, refl)
remember_all-AsksSame batch (row ∷ rows) = remember_all-AsksSame (remember batch row) rows

module _ (user : String) (ids keys : List String) (rows : List ConfigRow) where
  abbrev of_ids : ConfigRow → Bool
  of_ids row = has ids row.id && str_eq row.user_id user

  abbrev of_keys : ConfigRow → Bool
  of_keys row = str_eq row.user_id user && has keys row.key

  abbrev asked : ConfigBatch
  asked = empty_batch ids keys (map (λ row. row.id) (filter (λ row. has ids row.id) rows))

  abbrev first : ConfigBatch
  first = remember_all asked (filter of_ids rows)

  abbrev loaded : ConfigBatch
  loaded = load user ids keys rows

  load-AsksSame : AsksSame loaded asked
  unfolding load AsksSame
  load-AsksSame =
      let a = remember_all-AsksSame asked (filter of_ids rows) in
      let b = remember_all-AsksSame first (filter of_keys rows) in (b.0 ∙ a.0, b.1 ∙ a.1, b.2 ∙ a.2)

  load_sound : (r : ConfigRow) → IsIn r loaded.by_id → IsIn r rows × (str_eq r.user_id user ≡ true)
  unfolding load empty_batch
  load_sound r h = elim (IsIn-remember_all r first (filter of_keys rows) h) [
    | inl m ↦ let q = IsIn-filter of_keys r rows m in (q.0, ground (arith, q.1))
    | inr m ↦ elim (IsIn-remember_all r asked (filter of_ids rows) m) [
      | inl n ↦ let q = IsIn-filter of_ids r rows n in (q.0, ground (arith, q.1))
      | inr n ↦ absurd n
    ]
  ]

  load-by_ids :
      (r : ConfigRow)
      → IsIn r rows
      → str_eq r.user_id user ≡ true
      → has ids r.id ≡ true
      → IsIn r loaded.by_id
  unfolding load
  load-by_ids r m o h =
      kept-remember_all r first (filter of_keys rows) (
        remember_all-IsIn r asked (filter of_ids rows) (filter-IsIn of_ids r rows m (ground arith)))

  load-by_keys :
      (r : ConfigRow)
      → IsIn r rows
      → str_eq r.user_id user ≡ true
      → has keys r.key ≡ true
      → IsIn r loaded.by_id
  unfolding load
  load-by_keys r m o h =
      remember_all-IsIn r first (filter of_keys rows) (filter-IsIn of_keys r rows m (ground arith))

  load-Mirrors : Mirrors loaded
  unfolding load id_at find empty_batch
  load-Mirrors =
      remember_all-Mirrors first (filter of_keys rows)
        (remember_all-Mirrors asked (filter of_ids rows) (λ p. refl))

  pub load-Prefetched : Prefetched user rows (load user ids keys rows)
  unfolding AsksSame empty_batch
  load-Prefetched = record {
    mirrors = load-Mirrors;
    sound = load_sound;
    by_ids = λ r m o h. load-by_ids r m o (ground (arith, load-AsksSame));
    by_keys = λ r m o h. load-by_keys r m o (ground (arith, load-AsksSame));
    taken = λ id h. ground (arith, load-AsksSame, taken_of ids rows id);
  }
