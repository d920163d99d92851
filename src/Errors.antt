-- ===== src/Errors.antt =====
-- `AppError` and the status it answers with (src/routes/sync/types.rs), and the result type of the
-- fallible operations. A message is reduced to the id that it names.
use teddy_fyi_api_rust.Prelude.{ℕ, String, Option, none, some, ◌≡◌, refl, ◌⊎◌, inl, inr}

pub data DatabaseError : Type 0 where
  pool_timed_out other : DatabaseError

pub data AppError : Type 0 where
  database : DatabaseError → AppError
  serialization deserialization : AppError
  bad_request conflict : String → AppError
  gemini : AppError
  forbidden not_found : String → AppError
  redis : AppError
  too_many_requests overloaded not_configured internal : AppError

-- `IntoResponse for AppError`: the status code.
unfoldable pub into_response : AppError → ℕ
into_response (database pool_timed_out) = 503
into_response (database other) = 500
into_response serialization = 400
into_response deserialization = 400
into_response (bad_request _) = 400
into_response (conflict _) = 409
into_response gemini = 503
into_response (forbidden _) = 403
into_response (not_found _) = 404
into_response redis = 500
into_response too_many_requests = 429
into_response overloaded = 503
into_response not_configured = 503
into_response internal = 500

pub data Result {ℓ} (A : Type ℓ) : Type ℓ where
  ok : A → Result A
  err : AppError → Result A

infixl 5 ◌>>=◌ ◌>>◌
abbrev pub ◌>>=◌ {ℓ κ} : {A : Type ℓ} {C : Type κ} → Result A → (A → Result C) → Result C
err e >>= next = err e
ok value >>= next = next value

abbrev pub ◌>>◌ {ℓ} : {C : Type ℓ} → Result (Unit {0}) → Result C → Result C
check >> rest = check >>= λ _. rest

-- What a transaction leaves: nothing of a request that failed.
abbrev pub committed {ℓ} : {A : Type ℓ} → Result A → Option A
committed (ok a) = some a
committed (err e) = none

-- To split on a computed result and keep the equation.
pub Result-cases {ℓ} :
    {A : Type ℓ} (r : Result A) → ((a : A) × (r ≡ ok a)) ⊎ ((e : AppError) × (r ≡ err e))
Result-cases (ok a) = inl (a, refl)
Result-cases (err e) = inr (e, refl)
