-- ===== src/Auth/UserCode/Typed.antt =====
-- What a parent types for a code that a tablet shows (src/auth/device.rs).
use Prim.Native.Char.{Char, code, len_utf8}
use Prim.Native.String.{String, [], ◌∷◌, ◌++◌, slice, len, char_at, fits}
use Prim.Native.Nat.{compare}
use Prim.Native.String.append
use Prim.Native.String.slice
use Prim.Native.String.len
use text.Mathlib.TextPositions.{slice-zero-zero, slice_all}
use text.Mathlib.TextEquality.{Char-path}
use teddy_fyi_api_rust.Prelude.{
  ltb, ℕ, zero, suc, ◌+◌, ◌-◌, ◌≡◌, refl, sym, ap, ◌∙◌, Bool, true, false, not, ◌&&◌, ◌||◌, ◌==◌,
  inl, inr, Bool-cases, arith,
}
use teddy_fyi_api_rust.Prelude.Strings.{within}
use teddy_fyi_api_rust.Auth.UserCode.{
  is_ascii_alphanumeric, to_ascii_uppercase, format_user_code, normalize_user_code, letters,
  generate_user_code, user_code_alphabet, user_code_len,
}

unfoldable pub is_digit : Char → Bool
unfolding within
is_digit c = within 48 57 (code c)

unfoldable pub is_capital : Char → Bool
unfolding within
is_capital c = within 65 90 (code c)

unfoldable pub is_small : Char → Bool
unfolding within
is_small c = within 97 122 (code c)

-- A digit or a capital letter, in one byte.
unfoldable pub is_stored : Char → Bool
unfolding is_digit is_capital
is_stored c = len_utf8 c == 1 && (is_digit c || is_capital c)

unfoldable pub is_sign : Char → Bool
unfolding is_digit is_capital is_small
is_sign c = not (is_digit c || is_capital c || is_small c)

unfoldable pub all_stored : String → Bool
unfolding is_stored
all_stored [] = true
all_stored (c ∷ s) = is_stored c && all_stored s

-- A text that is typed for one that is shown: signs and spaces are added or left out at will, and a
-- letter is of either case.
pub data Typed : String → String → Type 0 where
  done : Typed [] []
  added : (c : Char) (s t : String) → is_sign c ≡ true → Typed s t → Typed (c ∷ s) t
  left_out : (d : Char) (s t : String) → is_sign d ≡ true → Typed s t → Typed s (d ∷ t)
  struck : (c : Char) (s t : String) → is_stored c ≡ true → Typed s t → Typed (c ∷ s) (c ∷ t)
  struck_small :
      (c d : Char) (s t : String)
      → is_capital d ≡ true
      → code c ≡ 32 + code d
      → Typed s t
      → Typed (c ∷ s) (d ∷ t)

sign_dropped : (c : Char) → is_sign c ≡ true → is_ascii_alphanumeric c ≡ false
unfolding is_sign is_ascii_alphanumeric within is_digit is_capital is_small
sign_dropped c h = ground (arith, h)

stored_kept :
    (c : Char) → is_stored c ≡ true → (is_ascii_alphanumeric c ≡ true) × (to_ascii_uppercase c ≡ c)
unfolding is_stored is_ascii_alphanumeric to_ascii_uppercase within is_digit is_capital
stored_kept c h = (ground (arith, h), ground (arith, h))

unfoldable all_below : ℕ → (ℕ → Bool) → Bool
all_below zero p = true
all_below (suc n) p = p n && all_below n p

all_below-at : (n : ℕ) (p : ℕ → Bool) (i : ℕ) → all_below n p ≡ true → ltb i n ≡ true → p i ≡ true
unfolding all_below
all_below-at zero p i h l = absurd (ground (arith, l))
all_below-at (suc n) p i h l = elim (Bool-cases (i == n)) [
  | inl y ↦ let same : i ≡ n = ground (arith, y) in rw same (ground (arith, h))
  | inr m ↦ all_below-at n p i (ground (arith, h)) (ground (arith, l, m))
]

capitals_in_order :
    all_below 26 (λ i. code (char_at "ABCDEFGHIJKLMNOPQRSTUVWXYZ" i) == 65 + i) ≡ true
unfolding all_below
capitals_in_order = refl

capital_kept :
    (d : Char) → is_capital d ≡ true → (is_ascii_alphanumeric d ≡ true) × (to_ascii_uppercase d ≡ d)
unfolding is_capital is_ascii_alphanumeric to_ascii_uppercase within
capital_kept d h = (ground (arith, h), ground (arith, h))

small_raised :
    (c d : Char)
    → is_capital d ≡ true
    → code c ≡ 32 + code d
    → (is_ascii_alphanumeric c ≡ true) × (to_ascii_uppercase c ≡ d)
unfolding is_capital is_ascii_alphanumeric to_ascii_uppercase within
small_raised c d h e =
    let in_order =
      all_below-at 26 (λ i. code (char_at "ABCDEFGHIJKLMNOPQRSTUVWXYZ" i) == 65 + i) (code c - 97)
        capitals_in_order (ground (arith, h, e)) in
    (ground (arith, h, e), Char-path (to_ascii_uppercase c) d (ground (arith, h, e, in_order)))

Typed-normalize : {s t : String} → Typed s t → normalize_user_code s ≡ normalize_user_code t
unfolding normalize_user_code
Typed-normalize done = refl
Typed-normalize (added c s t n r) = rw (sign_dropped c n) (Typed-normalize r)
Typed-normalize (left_out d s t n r) = rw (sign_dropped d n) (Typed-normalize r)
Typed-normalize (struck c s t h r) = rw (Typed-normalize r) refl
Typed-normalize (struck_small c d s t h e r) =
    let (kept, raised) = small_raised c d h e in
    let (also_kept, still) = capital_kept d h in
    rw (kept, raised, also_kept, still) (ap (λ u. d ∷ u) (Typed-normalize r))

normalize-append :
    (s t : String) → normalize_user_code (s ++ t) ≡ normalize_user_code s ++ normalize_user_code t
unfolding normalize_user_code
normalize-append [] t =
    ap normalize_user_code (append.nil t) ∙ sym (append.nil (normalize_user_code t))
normalize-append (c ∷ s) t = elim (Bool-cases (is_ascii_alphanumeric c)) [
  | inl y ↦
      rw (append.cons c s t, y, normalize-append s t)
        (sym (append.cons (to_ascii_uppercase c) (normalize_user_code s) (normalize_user_code t)))
  | inr n ↦ rw (append.cons c s t, n) (normalize-append s t)
]

normalize-stored : (s : String) → all_stored s ≡ true → normalize_user_code s ≡ s
unfolding normalize_user_code all_stored
normalize-stored [] h = refl
normalize-stored (c ∷ s) h =
    let (kept, upper) = stored_kept c (ground (arith, h)) in
    rw (kept, upper, normalize-stored s (ground (arith, h))) refl

suc_less : (n : ℕ) → suc n - 1 ≡ n
suc_less n = omega arith

one_less : (n : ℕ) → 1 + n - 1 ≡ n
one_less n = omega arith

fits_one : (c : Char) (s : String) (k : ℕ) → fits (compare 1 (suc k)) c s ≡ c ∷ s
fits_one c s k = ground arith

split_at : (s : String) (k : ℕ) → all_stored s ≡ true → slice s 0 k ++ slice s k (len s) ≡ s
unfolding all_stored is_stored is_digit is_capital
split_at [] k h = rw (slice.nil 0 k, slice.nil k (len [])) (append.nil [])
split_at (c ∷ s) zero h = rw (slice-zero-zero (c ∷ s), slice_all (c ∷ s)) (append.nil (c ∷ s))
split_at (c ∷ s) (suc k) h =
    let one : len_utf8 c ≡ 1 = ground (arith, h) in
    rw
      (
        slice.cons-zero c s (suc k),
        len.cons c s,
        slice.cons-suc c s k (len_utf8 c + len s),
        one,
        suc_less k,
        one_less (len s),
        fits_one c (slice s 0 k) k,
      )
      (append.cons c (slice s 0 k) (slice s k (len s))
        ∙ ap (λ t. c ∷ t) (split_at s k (ground (arith, h))))

dash_read : (s : String) → normalize_user_code ("-" ++ s) ≡ normalize_user_code s
unfolding normalize_user_code is_ascii_alphanumeric within
dash_read s = rw (append.cons "-" [] s, append.nil s) refl

shown_read : (s : String) → all_stored s ≡ true → normalize_user_code (format_user_code s) ≡ s
unfolding format_user_code
shown_read s h = elim (Bool-cases (len s == 8)) [
  | inl y ↦
      rw
        (
          y,
          normalize-append (slice s 0 4) ("-" ++ slice s 4 (len s)),
          dash_read (slice s 4 (len s)),
        )
        (sym (normalize-append (slice s 0 4) (slice s 4 (len s)))
          ∙ ap normalize_user_code (split_at s 4 h)
          ∙ normalize-stored s h)
  | inr n ↦ rw n (normalize-stored s h)
]

alphabet_stored :
    all_below (len user_code_alphabet) (λ i. is_stored (char_at user_code_alphabet i)) ≡ true
unfolding all_below is_stored within is_digit is_capital
alphabet_stored = refl

module _ (random_range : ℕ → ℕ)
    (in_range : (place : ℕ) → ltb (random_range place) (len user_code_alphabet) ≡ true) where
  letters_stored : (place n : ℕ) → all_stored (letters random_range place n) ≡ true
  unfolding all_stored letters
  letters_stored place zero = refl
  letters_stored place (suc n) =
      rw
        (
          all_below-at (len user_code_alphabet) (λ i. is_stored (char_at user_code_alphabet i))
              (random_range place) alphabet_stored (in_range place),
          letters_stored (suc place) n,
        )
        refl

  -- Where what is drawn at random are indices of the alphabet, whatever a parent types for the code that
  -- is shown on the tablet, with its dash, with other signs and spaces or without, and with letters of
  -- either case, is read as the code that was drawn.
  pub normalize-format_user_code :
      (typed : String)
      → Typed typed (format_user_code (generate_user_code random_range))
      → normalize_user_code typed ≡ generate_user_code random_range
  unfolding generate_user_code
  normalize-format_user_code typed r =
      Typed-normalize r
      ∙ shown_read (generate_user_code random_range) (letters_stored 0 user_code_len)
