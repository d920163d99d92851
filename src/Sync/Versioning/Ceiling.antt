-- ===== src/Sync/Versioning/Ceiling.antt =====
-- How far a version can move: the ceiling of src/routes/sync/versioning.rs.
use teddy_fyi_api_rust.Prelude.{ℕ, suc, ◌≡◌, String, arith, leb, if◌then◌else◌}
use teddy_fyi_api_rust.Prelude.Int.{ℤ, pos, ◌≤ℤ◌}
use teddy_fyi_api_rust.Errors.{ok, err, conflict}
use teddy_fyi_api_rust.Sync.Versioning.{advance_version}

pub advance_version_at :
    (id : String) (m n : ℕ)
    → n ≡ suc m
    → advance_version id (pos m) ≡ (if leb n 2_000_000_000 then ok (pos n) else err (conflict id))
unfolding advance_version
advance_version_at id m n h = ground arith

-- Whatever is stored, an accepted write does not lower it.
pub advance_version-le : (id : String) (v w : ℤ) → advance_version id v ≡ ok w → v ≤ℤ w
unfolding advance_version
advance_version-le id v w h = ground arith
