-- ===== src/Sync/Versioning.antt =====
-- src/routes/sync/versioning.rs: the number a row takes after a write. Versions are `i32`, kept as
-- integers; `saturating_add` is written out.
pub mod Ceiling
use teddy_fyi_api_rust.Prelude.{
  ℕ, zero, suc, ◌+◌, ◌-◌, ◌^◌, ◌≤◌, ◌≡◌, refl, String, Bool, ◌&&◌, ◌↔◌, arith, if◌then◌else◌,
}
use teddy_fyi_api_rust.Prelude.Int.{
  ℤ, pos, negsuc, pos_part, neg_part, ◌+ℤ◌, ◌≤ℤ◌, ltb_ℤ, leb_ℤ, +ℤ_parts, int_laws,
}
use teddy_fyi_api_rust.Errors.{Result, ok, err, conflict, bad_request, ◌>>=◌}

abbrev pub max_i32 : ℤ
max_i32 = pos (2 ^ 31 - 1)

abbrev pub min_i32 : ℤ
min_i32 = negsuc (2 ^ 31 - 1)

abbrev pub max_sync_version : ℤ
max_sync_version = pos 2_000_000_000

abbrev pub max_seed_version : ℤ
max_seed_version = pos 1_000_000

-- `i32::saturating_add`
unfoldable pub saturating_add : ℤ → ℤ → ℤ
saturating_add a b =
    let sum = a +ℤ b in
    if ltb_ℤ max_i32 sum then max_i32 else if ltb_ℤ sum min_i32 then min_i32 else sum

unfoldable pub advance_version : String → ℤ → Result ℤ
unfolding saturating_add ◌+ℤ◌
advance_version id server_version =
    if leb_ℤ max_sync_version server_version
    then err (conflict id)
    else ok (saturating_add server_version (pos 1))

unfoldable pub seed_version : String → ℤ → Result ℤ
seed_version id client_version =
    if leb_ℤ (pos 0) client_version && leb_ℤ client_version max_seed_version
    then ok client_version
    else err (bad_request id)
