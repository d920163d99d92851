-- ===== src/Auth/Device/Guesses.antt =====
-- What guessing user codes costs an account (src/auth/device.rs: `claim_for_user`).
use teddy_fyi_api_rust.Prelude.{
  ℕ, suc, ◌+◌, ◌≤◌, ◌<◌, ◌≡◌, String, Bool, false, Option, if◌then◌else◌, Bool-cases, inl, inr,
  ◌==◌, refl, str_eq,
}
use teddy_fyi_api_rust.Auth.Product.{Product}
use teddy_fyi_api_rust.Auth.Device.{
  Store, Answer, refused, claim_failure_window, claim_failures_exhausted, upsert_user,
  any_claimable, mark_claimed, insert_failure, count_attempts, record_claim_failure, claim_for_user,
}

abbrev pub is_miss : Answer → Bool
is_miss (refused status) = status == 404
is_miss _ = false

-- A time within one window's length from `from` on.
abbrev pub Within : ℕ → ℕ → Type 0
Within from now = (from ≤ now) × (now < from + claim_failure_window)

module _ (user : String) where
  module _ (from k : ℕ) (db0 : Store) where
    -- The database, how many claims of the account are under way, at most `k`, and how many have found
    -- nothing to claim, after some statements of claims and of other requests, in any order. A claim
    -- that is refused for its count changes nothing.
    pub data Reached : Store → ℕ → ℕ → Type 0 where
      begun : Reached db0 0 0
      -- a claim reads its count, and goes on
      counted :
          (db : Store) (n m now : ℕ)
          → Reached db n m
          → Within from now
          → claim_failures_exhausted user now db ≡ false
          → suc n ≤ k
          → Reached db (suc n) m
      -- a claim that goes on finds its code
      code_claimed :
          (db : Store) (n m now : ℕ) (code : String) (product : Option Product)
          → Reached db (suc n) m
          → Reached (mark_claimed user code product now db) n m
      -- or finds nothing, and is counted as a failure
      missed :
          (db : Store) (n m now : ℕ)
          → Reached db (suc n) m
          → Within from now
          → Reached (insert_failure user now db) n (suc m)
      -- another account is counted a failure
      others_missed :
          (db : Store) (n m now : ℕ) (other : String)
          → Reached db n m
          → str_eq other user ≡ false
          → Reached (insert_failure other now db) n m
      -- a statement that counts no failure
      elsewhere :
          (db db' : Store) (n m : ℕ) → Reached db n m → db'.failures ≡ db.failures → Reached db' n m

    -- A claim whose statements run in a row is such steps.
    pub claim_for_user-Reached :
        (email : Option String) (code : String) (product : Option Product) (now : ℕ) (db : Store)
        (n m : ℕ)
        → Reached db n m
        → Within from now
        → suc n ≤ k
        → let (db', answer) = claim_for_user user email code product now db in
          Reached db' n (if is_miss answer then suc m else m)
    unfolding claim_for_user record_claim_failure
    claim_for_user-Reached email code product now db n m r w few =
        elim (Bool-cases (claim_failures_exhausted user now db)) [
          | inl y ↦ rw y r
          | inr room ↦
              let db' = upsert_user user email db in
              let upserted : Reached db' (suc n) m =
                elsewhere db db' (suc n) m (counted db n m now r w room few)
                  (unfold upsert_user in refl) in
              elim (Bool-cases (any_claimable code now db'.authorizations)) [
                | inl y ↦ rw (room, y) (code_claimed db' n m now code product upserted)
                | inr none_there ↦
                    rw (room, none_there)
                      (elsewhere (insert_failure user now db') _ n (suc m)
                        (missed db' n m now upserted w) (unfold count_attempts in refl))
              ]
        ]
