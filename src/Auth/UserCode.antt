-- ===== src/Auth/UserCode.antt =====
-- The code that a tablet shows and a parent types (src/auth/device.rs): how it is shown and how what is
-- typed is read. A code is cut by its bytes, which are its characters in ASCII.
pub mod Typed
use Prim.Native.Char.{Char, code}
use Prim.Native.String.{String, [], ◌∷◌, ◌++◌, char_at, slice, len}
use teddy_fyi_api_rust.Prelude.{ℕ, zero, suc, ◌-◌, Bool, ◌||◌, ◌==◌, if◌then◌else◌}
use teddy_fyi_api_rust.Prelude.Strings.{within}

abbrev pub user_code_len : ℕ
user_code_len = 8

abbrev pub user_code_alphabet : String
user_code_alphabet = "23456789CDFHJKMNPQRTVWXY"

-- What is drawn at random is a parameter: an index for each place of the code. Here are the letters of
-- some places from one on.
unfoldable pub letters : (ℕ → ℕ) → ℕ → ℕ → String
letters random_range place zero = []
letters random_range place (suc n) =
    char_at user_code_alphabet (random_range place) ∷ letters random_range (suc place) n

unfoldable pub generate_user_code : (ℕ → ℕ) → String
unfolding letters
generate_user_code random_range = letters random_range 0 user_code_len

unfoldable pub is_ascii_alphanumeric : Char → Bool
unfolding within
is_ascii_alphanumeric c = let n = code c in within 48 57 n || within 65 90 n || within 97 122 n

unfoldable pub to_ascii_uppercase : Char → Char
unfolding within
to_ascii_uppercase c =
    if within 97 122 (code c) then char_at "ABCDEFGHIJKLMNOPQRSTUVWXYZ" (code c - 97) else c

unfoldable pub format_user_code : String → String
format_user_code s = if len s == user_code_len then slice s 0 4 ++ "-" ++ slice s 4 (len s) else s

unfoldable pub normalize_user_code : String → String
unfolding is_ascii_alphanumeric to_ascii_uppercase
normalize_user_code [] = []
normalize_user_code (c ∷ s) =
    let rest = normalize_user_code s in
    if is_ascii_alphanumeric c then to_ascii_uppercase c ∷ rest else rest
