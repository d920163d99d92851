-- ===== src/Auth/Device.antt =====
-- src/auth/device.rs: a tablet asks for a code, a parent claims it, and the tablet polls until it
-- gets a session. Times are microseconds; one request reads one clock. What is random (the device
-- code, the draws of a user code) is an argument, and so is the SHA-256 of `hash_device_code`.
pub mod SpentOnce
pub mod Guesses
use teddy_fyi_api_rust.Prelude.{
  ℕ, suc, ◌+◌, ◌-◌, String, Bool, true, false, not, ◌&&◌, ◌||◌, Option, none, some, List, [], ◌∷◌,
  ◌++◌, map, str_eq, ltb, leb, if◌then◌else◌, length, filter, take,
}
use teddy_fyi_api_rust.Prelude.Strings.{len}
use teddy_fyi_api_rust.Auth.Product.{Product}

abbrev pub code_ttl : ℕ
code_ttl = 600_000_000

abbrev pub poll_interval : ℕ
poll_interval = 5_000_000

abbrev pub max_claim_failures : ℕ
max_claim_failures = 5

abbrev pub claim_failure_window : ℕ
claim_failure_window = 600_000_000

abbrev pub max_outstanding_per_client : ℕ
max_outstanding_per_client = 3

abbrev pub code_generation_attempts : ℕ
code_generation_attempts = 8

abbrev pub max_client_uuid_len : ℕ
max_client_uuid_len = 128

abbrev pub max_app_len : ℕ
max_app_len = 128

-- A row of `device_authorizations`.
pub record Authorization : Type 0 where
  pub device_code_hash : String
  pub user_code : String
  pub client_uuid : String
  pub app : Option String
  pub user_id : Option String
  pub attempts : ℕ
  pub expires_at : ℕ
  pub last_polled_at : Option ℕ
  pub claimed_at : Option ℕ
  pub consumed_at : Option ℕ
  pub product : Option Product

-- The rows, the failed claims with their times, and the email of each account there is.
pub record Store : Type 0 where
  pub authorizations : List Authorization
  pub failures : List (String × ℕ)
  pub users : String → Option (Option String)

pub data Answer : Type 0 where
  -- the user code, for display
  started : String → Answer
  claimed : Answer
  pending : Answer
  -- the account and the product that the session is issued for
  authorized : String → Option Product → Answer
  refused : ℕ → Answer

abbrev pub is_some : {A : Type 0} → Option A → Bool
is_some none = false
is_some (some a) = true

unfoldable pub outstanding : String → ℕ → Authorization → Bool
outstanding client_uuid now row =
    str_eq row.client_uuid client_uuid && ltb now row.expires_at && not (is_some row.consumed_at)

-- `DELETE ... WHERE user_code = $1 AND expires_at < now()`
unfoldable pub retire_expired : String → ℕ → List Authorization → List Authorization
retire_expired user_code now rows =
    filter (λ row. not (str_eq row.user_code user_code && ltb row.expires_at now)) rows

-- `INSERT ... ON CONFLICT DO NOTHING`: the hash and the user code are unique.
unfoldable pub conflicts : Authorization → List Authorization → Bool
conflicts new [] = false
conflicts new (row ∷ rows) =
    str_eq row.device_code_hash new.device_code_hash
    || str_eq row.user_code new.user_code
    || conflicts new rows

abbrev pub new_row : String → String → String → Option String → ℕ → Authorization
new_row hash user_code client_uuid app expires_at = record {
  device_code_hash = hash;
  user_code = user_code;
  client_uuid = client_uuid;
  app = app;
  user_id = none;
  attempts = 0;
  expires_at = expires_at;
  last_polled_at = none;
  claimed_at = none;
  consumed_at = none;
  product = none;
}

-- The attempts at a user code, one for each draw.
unfoldable pub draw_code :
    List String
    → String
    → String
    → Option String
    → ℕ
    → List Authorization
    → List Authorization × Answer
unfolding retire_expired conflicts
draw_code [] hash client_uuid app now rows = (rows, refused 500)
draw_code (user_code ∷ draws) hash client_uuid app now rows =
    let kept = retire_expired user_code now rows in
    let row = new_row hash user_code client_uuid app (now + code_ttl) in
    let rest = draw_code draws hash client_uuid app now kept in
    if conflicts row kept then rest else (row ∷ kept, started user_code)

unfoldable pub start_handler :
    List String → String → String → Option String → ℕ → Store → Store × Answer
unfolding draw_code outstanding
start_handler draws hash client_uuid app now db =
    if ltb max_client_uuid_len (len client_uuid)
    then (db, refused 400)
    else if elim app [ none ↦ false | some a ↦ ltb max_app_len (len a) ]
    then (db, refused 400)
    else if leb max_outstanding_per_client
        (length (filter (outstanding client_uuid now) db.authorizations))
    then (db, refused 429)
    else let (rows, answer) =
        draw_code (take code_generation_attempts draws) hash client_uuid app now
          db.authorizations in
      (record db { authorizations = rows }, answer)

-- Failures of the account since the window began.
unfoldable pub failures_since : String → ℕ → List (String × ℕ) → ℕ
failures_since user_id since [] = 0
failures_since user_id since ((u, at) ∷ rest) =
    let n = failures_since user_id since rest in
    if str_eq u user_id && ltb since at then suc n else n

unfoldable pub claim_failures_exhausted : String → ℕ → Store → Bool
unfolding failures_since
claim_failures_exhausted user_id now db =
    leb max_claim_failures (failures_since user_id (now - claim_failure_window) db.failures)

-- `INSERT INTO users ... ON CONFLICT (id) DO UPDATE SET email = COALESCE(new, old)`
unfoldable pub upsert_user : String → Option String → Store → Store
upsert_user user_id email db = record db {
  users = λ u.
      if str_eq u user_id
      then some (elim email [
        | some e ↦ some e
        | none ↦ elim (db.users u) [ none ↦ none | some old ↦ old ]
      ])
      else db.users u;
}

unfoldable pub claimable : String → ℕ → Authorization → Bool
claimable user_code now row =
    str_eq row.user_code user_code && ltb now row.expires_at && not (is_some row.claimed_at)

unfoldable pub any_claimable : String → ℕ → List Authorization → Bool
unfolding claimable
any_claimable user_code now [] = false
any_claimable user_code now (row ∷ rows) =
    claimable user_code now row || any_claimable user_code now rows

-- The update of a row that is claimed.
unfoldable pub claim_row : String → String → Option Product → ℕ → Authorization → Authorization
unfolding claimable
claim_row user_id user_code product now row =
    if claimable user_code now row
    then record row { user_id = some user_id; claimed_at = some now; product = product }
    else row

unfoldable pub count_attempt : String → Authorization → Authorization
count_attempt user_code row =
    if str_eq row.user_code user_code then record row { attempts = suc row.attempts } else row

-- `INSERT INTO device_claim_failures (user_id) VALUES ($1)`
unfoldable pub insert_failure : String → ℕ → Store → Store
insert_failure user_id now db = record db { failures = (user_id, now) ∷ db.failures }

-- `UPDATE device_authorizations SET attempts = attempts + 1 WHERE user_code = $1`
unfoldable pub count_attempts : String → Store → Store
unfolding count_attempt
count_attempts user_code db = record db {
  authorizations = map (count_attempt user_code) db.authorizations;
}

unfoldable pub record_claim_failure : String → String → ℕ → Store → Store
unfolding insert_failure count_attempts
record_claim_failure user_id user_code now db =
    count_attempts user_code (insert_failure user_id now db)

-- `UPDATE device_authorizations SET user_id, claimed_at, product WHERE ...`
unfoldable pub mark_claimed : String → String → Option Product → ℕ → Store → Store
unfolding claim_row
mark_claimed user_id user_code product now db = record db {
  authorizations = map (claim_row user_id user_code product now) db.authorizations;
}

-- The statements of one claim in a row, as they run where no other request comes in between. They are
-- no transaction: SpentOnce and Guesses are about each of them as a step of its own. `user_code` is
-- what `normalize_user_code` leaves of what was typed.
unfoldable pub claim_for_user :
    String → Option String → String → Option Product → ℕ → Store → Store × Answer
unfolding claim_failures_exhausted upsert_user any_claimable mark_claimed record_claim_failure
claim_for_user user_id email user_code product now db =
    if claim_failures_exhausted user_id now db
    then (db, refused 429)
    else let db' = upsert_user user_id email db in
      if any_claimable user_code now db'.authorizations
      then (mark_claimed user_id user_code product now db', claimed)
      else (record_claim_failure user_id user_code now db', refused 404)

-- `SELECT ... WHERE device_code_hash = $1 AND client_uuid = $2`
unfoldable pub find_row : String → String → List Authorization → Option Authorization
find_row hash client_uuid [] = none
find_row hash client_uuid (row ∷ rows) =
    if str_eq row.device_code_hash hash && str_eq row.client_uuid client_uuid
    then some row
    else find_row hash client_uuid rows

unfoldable pub polled_too_soon : Option ℕ → ℕ → Bool
polled_too_soon none now = false
polled_too_soon (some last) now = ltb now (last + poll_interval)

unfoldable pub touch : String → ℕ → Authorization → Authorization
touch hash now row =
    if str_eq row.device_code_hash hash then record row { last_polled_at = some now } else row

-- `UPDATE ... SET consumed_at = now() WHERE device_code_hash = $1 AND consumed_at IS NULL`
unfoldable pub consume : String → ℕ → Authorization → Authorization
consume hash now row =
    if str_eq row.device_code_hash hash && not (is_some row.consumed_at)
    then record row { consumed_at = some now }
    else row

-- Whether that update finds a row.
unfoldable pub any_unspent : String → List Authorization → Bool
any_unspent hash [] = false
any_unspent hash (row ∷ rows) =
    str_eq row.device_code_hash hash && not (is_some row.consumed_at) || any_unspent hash rows

-- A transaction that is rolled back leaves the tables as they were. The row is locked from its read
-- on, so a poll is one step.
unfoldable pub poll_handler : String → String → ℕ → Store → Store × Answer
unfolding find_row polled_too_soon touch consume any_unspent
poll_handler hash client_uuid now db = elim (find_row hash client_uuid db.authorizations) [
  | none ↦ (db, refused 404)
  | some row ↦
      if is_some row.consumed_at || ltb row.expires_at now
      then (db, refused 410)
      else if polled_too_soon row.last_polled_at now
      then (db, refused 429)
      else let touched = map (touch hash now) db.authorizations in
        elim row.user_id [
          | none ↦ (record db { authorizations = touched }, pending)
          | some user_id ↦
              if is_some row.claimed_at
              then (if any_unspent hash touched
                  then (
                    record db { authorizations = map (consume hash now) touched },
                    authorized user_id row.product,
                  )
                  else (db, refused 410))
              else (record db { authorizations = touched }, pending)
        ]
]
