-- ===== src/Sync/StreamLimits.antt =====
-- src/routes/sync/stream_limits.rs: how many streams an account, and a replica, may hold. The mutex
-- makes each operation one step on the counts.
pub mod Slots
use teddy_fyi_api_rust.Prelude.{
  ℕ, suc, ◌-◌, String, Bool, Option, none, some, str_eq, leb, ◌==◌, if◌then◌else◌,
}

pub data StreamRefusal : Type 0 where
  per_user global : StreamRefusal

pub record StreamCaps : Type 0 where
  pub max_per_user : ℕ
  pub max_total : ℕ

pub record Counts : Type 0 where
  pub per_user : String → Option ℕ
  pub total : ℕ

abbrev pub no_streams : Counts
no_streams = record { per_user = λ u. none; total = 0 }

abbrev pub put_count : String → Option ℕ → (String → Option ℕ) → String → Option ℕ
put_count user_id n counts u = if str_eq u user_id then n else counts u

-- `active_for_user`
unfoldable pub active_for_user : String → Counts → ℕ
active_for_user user_id c = elim (c.per_user user_id) [ none ↦ 0 | some n ↦ n ]

-- `entry(user_id).or_insert(0)` leaves an entry behind where the account is refused.
unfoldable pub try_acquire : StreamCaps → String → Counts → Counts × Option StreamRefusal
unfolding active_for_user
try_acquire caps user_id c =
    let n = active_for_user user_id c in
    if leb caps.max_total c.total
    then (c, some global)
    else if leb caps.max_per_user n
    then (record c { per_user = put_count user_id (some n) c.per_user }, some per_user)
    else (
      record { per_user = put_count user_id (some (suc n)) c.per_user; total = suc c.total },
      none,
    )

-- The entry is removed at zero.
unfoldable pub release : String → Counts → Counts
release user_id c = record {
  per_user = elim (c.per_user user_id) [
    | none ↦ c.per_user
    | some n ↦ put_count user_id (if n - 1 == 0 then none else some (n - 1)) c.per_user
  ];
  total = c.total - 1;
}
