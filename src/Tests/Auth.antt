-- ===== src/Tests/Auth.antt =====
-- src/auth/device.rs at concrete inputs.
use teddy_fyi_api_rust.Prelude.{ℕ, min, ◌+◌, ◌≤◌, ◌≡◌, refl, none, some, List, [], ◌∷◌, arith}
use teddy_fyi_api_rust.Auth.Product.{teddy_fyi}
use teddy_fyi_api_rust.Auth.UserCode.{format_user_code, normalize_user_code, generate_user_code}
use teddy_fyi_api_rust.Auth.UserCode.Typed.{
  Typed, is_sign, is_stored, is_digit, is_capital, is_small, struck, struck_small, added, left_out,
  done, normalize-format_user_code,
}
use teddy_fyi_api_rust.Auth.Device.{Store, mark_claimed, upsert_user, poll_handler, start_handler}
use teddy_fyi_api_rust.Auth.Device.SpentOnce.{
  Event, start, user_upserted, code_claimed, poll, handle, sessions, spent_once,
}

-- "CDFHJKMN"
abbrev drawn : ℕ → ℕ
drawn place = min (8 + place) 23

drawn-Typed : Typed "cdfh jkmN" (format_user_code (generate_user_code drawn))
unfolding format_user_code generate_user_code is_sign is_stored is_digit is_capital is_small
drawn-Typed = struck_small "c" "C" _ _ refl refl (
    struck_small "d" "D" _ _ refl refl (
      struck_small "f" "F" _ _ refl refl (
        struck_small "h" "H" _ _ refl refl (
          added " " _ _ refl (
            left_out "-" _ _ refl (
              struck_small "j" "J" _ _ refl refl (
                struck_small "k" "K" _ _ refl refl
                  (struck_small "m" "M" _ _ refl refl (struck "N" _ _ refl done)))))))))

code_shown : format_user_code (generate_user_code drawn) ≡ "CDFH-JKMN"
unfolding format_user_code generate_user_code
code_shown = refl

normalize-format_user_code_example : normalize_user_code "cdfh jkmN" ≡ generate_user_code drawn
normalize-format_user_code_example =
    normalize-format_user_code drawn (λ place. ground arith) "cdfh jkmN" drawn-Typed

abbrev empty : Store
empty = record { authorizations = []; failures = []; users = λ u. none }

-- A code that is out is claimed and polled twice, while another tablet starts.
abbrev claimed_and_polled : List Event
claimed_and_polled =
    user_upserted "ada" none
    ∷ code_claimed "ada" "CDFHJKMN" (some teddy_fyi) 1_000_000
    ∷ poll "h1" "tablet" 2_000_000
    ∷ start ("QRTVWXYC" ∷ []) "h2" "other" none 3_000_000
    ∷ poll "h1" "tablet" 9_000_000
    ∷ []

abbrev started : Store
started = record empty {
  authorizations =
      record {
        device_code_hash = "h1";
        user_code = "CDFHJKMN";
        client_uuid = "tablet";
        app = none;
        user_id = none;
        attempts = 0;
        expires_at = 600_000_000;
        last_polled_at = none;
        claimed_at = none;
        consumed_at = none;
        product = none;
      }
      ∷ [];
}

one_session : sessions "h1" claimed_and_polled started ≡ 1
unfolding sessions handle poll_handler mark_claimed upsert_user start_handler
one_session = refl

spent_once_example : sessions "h1" claimed_and_polled started ≤ 1
spent_once_example = spent_once "h1" claimed_and_polled started (refl, tt)

-- Four codes that were none, within four seconds.
abbrev guessed : Store
guessed = record started {
  failures = ("eve", 4_000_000) ∷ ("eve", 3_000_000) ∷ ("eve", 2_000_000) ∷ ("eve", 1_000_000) ∷ [];
}

abbrev after_two : Store
after_two = record guessed { failures = ("eve", 6_000_001) ∷ ("eve", 6_000_000) ∷ guessed.failures }
