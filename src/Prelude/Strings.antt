-- ===== src/Prelude/Strings.antt =====
-- Rust's `str::trim(s).is_empty()`.
use Prim.Native.Nat.{ℕ, ◌+◌}
use Prim.Native.Char.{Char, code}
pub use Prim.Native.String.{len}
use Prim.Native.String.{String, [], ◌∷◌}
use mathlib.Core.Bool.{Bool, true, false, ◌&&◌, ◌||◌}
use teddy_fyi_api_rust.Prelude.Tests.{leb, ◌==◌, if◌then◌else◌}

unfoldable pub within : ℕ → ℕ → ℕ → Bool
within low high n = leb low n && leb n high

-- `char::is_whitespace`: Unicode's White_Space.
unfoldable pub is_whitespace : Char → Bool
unfolding within
is_whitespace c =
    let n = code c in
    within 9 13 n
    || n == 32
    || n == 133
    || n == 160
    || n == 5760
    || within 8192 8202 n
    || n == 8232
    || n == 8233
    || n == 8239
    || n == 8287
    || n == 12288

unfoldable pub is_blank : String → Bool
unfolding is_whitespace
is_blank [] = true
is_blank (c ∷ s) = is_whitespace c && is_blank s

unfoldable pub trim_start : String → String
unfolding is_whitespace
trim_start [] = []
trim_start (c ∷ s) = if is_whitespace c then trim_start s else c ∷ s

-- What is left of a text without the whitespace at its end.
unfoldable pub trim_end : String → String
unfolding is_blank
trim_end [] = []
trim_end (c ∷ s) = if is_blank (c ∷ s) then [] else c ∷ trim_end s

-- `str::trim`
unfoldable pub trim : String → String
unfolding trim_start trim_end
trim s = trim_end (trim_start s)

-- `char::to_ascii_lowercase`, on the character's number.
unfoldable pub lower_code : ℕ → ℕ
unfolding within
lower_code n = if within 65 90 n then n + 32 else n

-- `s.to_ascii_lowercase() == t`
unfoldable pub lowercase_eq : String → String → Bool
unfolding lower_code
lowercase_eq [] [] = true
lowercase_eq (c ∷ s) (d ∷ t) = lower_code (code c) == code d && lowercase_eq s t
lowercase_eq _ _ = false
