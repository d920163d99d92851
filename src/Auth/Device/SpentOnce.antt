-- ===== src/Auth/Device/SpentOnce.antt =====
-- Requests of the pairing in a row, and the sessions that one device code gets (src/auth/device.rs).
use teddy_fyi_api_rust.Prelude.{
  take, ℕ, suc, ◌+◌, ◌≤◌, ◌≡◌, refl, sym, ap, ◌∙◌, String, Bool, true, false, ◌&&◌, Option, none,
  some, List, [], ◌∷◌, map, str_eq, str_eq_iff, arith, if◌then◌else◌, filter, Bool-cases,
  Option-cases, inl, inr,
}
use teddy_fyi_api_rust.Auth.Product.{Product}
use teddy_fyi_api_rust.Auth.Device.{
  code_generation_attempts, Authorization, Store, Answer, authorized, is_some, new_row, code_ttl,
  retire_expired, conflicts, draw_code, start_handler, claim_row, count_attempt, mark_claimed,
  insert_failure, count_attempts, find_row, touch, consume, poll_handler, upsert_user,
}

-- A start or a poll, with what it draws at random and the clock that it reads, or one statement of a
-- claim: a claim is no transaction, so its statements stand anywhere among the others.
pub data Event : Type 0 where
  start : List String → String → String → Option String → ℕ → Event
  user_upserted : String → Option String → Event
  code_claimed : String → String → Option Product → ℕ → Event
  failure_inserted : String → ℕ → Event
  attempts_counted : String → Event
  poll : String → String → ℕ → Event

-- What a request answers; a statement of a claim answers nothing by itself.
unfoldable pub handle : Event → Store → Store × Option Answer
handle (start draws hash client app now) db =
    let (db', answer) = start_handler draws hash client app now db in (db', some answer)
handle (user_upserted user email) db = (upsert_user user email db, none)
handle (code_claimed user code product now) db = (mark_claimed user code product now db, none)
handle (failure_inserted user now) db = (insert_failure user now db, none)
handle (attempts_counted code) db = (count_attempts code db, none)
handle (poll hash client now) db =
    let (db', answer) = poll_handler hash client now db in (db', some answer)

abbrev pub is_authorized : Option Answer → Bool
is_authorized (some (authorized user product)) = true
is_authorized _ = false

-- A poll with the device code in question.
abbrev pub polls : String → Event → Bool
polls h (poll hash client now) = str_eq hash h
polls h _ = false

-- No code that is handed out has this hash.
abbrev pub Undrawn : String → List Event → Type 0
Undrawn h [] = Unit {0}
Undrawn h (start draws hash client app now ∷ events) = (str_eq hash h ≡ false) × Undrawn h events
Undrawn h (_ ∷ events) = Undrawn h events

-- The sessions that the polls with one device code get.
unfoldable pub sessions : String → List Event → Store → ℕ
sessions h [] db = 0
sessions h (event ∷ events) db =
    let (db', answer) = handle event db in
    let rest = sessions h events db' in
    if polls h event && is_authorized answer then suc rest else rest

abbrev SpentRow : String → Authorization → Type 0
SpentRow h row = str_eq row.device_code_hash h ≡ true → is_some row.consumed_at ≡ true

abbrev Spent : String → List Authorization → Type 0
Spent h [] = Unit {0}
Spent h (row ∷ rows) = SpentRow h row × Spent h rows

Spent-map :
    (h : String) (f : Authorization → Authorization) (rows : List Authorization)
    → ((row : Authorization) → SpentRow h row → SpentRow h (f row))
    → Spent h rows
    → Spent h (map f rows)
Spent-map h f [] keep s = tt
Spent-map h f (row ∷ rows) keep s = (keep row s.0, Spent-map h f rows keep s.1)

Spent-filter :
    (h : String) (p : Authorization → Bool) (rows : List Authorization)
    → Spent h rows
    → Spent h (filter p rows)
Spent-filter h p [] s = tt
Spent-filter h p (row ∷ rows) s = elim (Bool-cases (p row)) [
  | inl e ↦ rw e (s.0, Spent-filter h p rows s.1)
  | inr e ↦ rw e (Spent-filter h p rows s.1)
]

Spent-find :
    (h client : String) (rows : List Authorization) (row : Authorization)
    → Spent h rows
    → find_row h client rows ≡ some row
    → is_some row.consumed_at ≡ true
unfolding find_row
Spent-find h client [] row s e = absurd (ground arith)
Spent-find h client (x ∷ rows) row s e =
    elim (Bool-cases (str_eq x.device_code_hash h && str_eq x.client_uuid client)) [
      | inl q ↦ ground (arith, s.0 (ground arith))
      | inr q ↦ Spent-find h client rows row s.1 (ground arith)
    ]

Spent-consume :
    (h hash : String) (now : ℕ) (rows : List Authorization)
    → str_eq hash h ≡ true
    → Spent h (map (consume hash now) rows)
unfolding consume
Spent-consume h hash now [] e = tt
Spent-consume h hash now (row ∷ rows) e = (
  λ m. ground (
    arith,
    str_eq_iff row.device_code_hash h,
    str_eq_iff hash h,
    str_eq_iff row.device_code_hash hash,
  ),
  Spent-consume h hash now rows e,
)

keep_touch :
    (h hash : String) (now : ℕ) (row : Authorization)
    → SpentRow h row
    → SpentRow h (touch hash now row)
unfolding touch
keep_touch h hash now row s e = ground arith

keep_consume :
    (h hash : String) (now : ℕ) (row : Authorization)
    → SpentRow h row
    → SpentRow h (consume hash now row)
unfolding consume
keep_consume h hash now row s e = ground arith

keep_claim :
    (h user code : String) (product : Option Product) (now : ℕ) (row : Authorization)
    → SpentRow h row
    → SpentRow h (claim_row user code product now row)
unfolding claim_row
keep_claim h user code product now row s e = ground arith

keep_attempt :
    (h code : String) (row : Authorization) → SpentRow h row → SpentRow h (count_attempt code row)
unfolding count_attempt
keep_attempt h code row s e = ground arith

Spent-draw :
    (h : String) (draws : List String) (hash client : String) (app : Option String) (now : ℕ)
    (rows : List Authorization)
    → str_eq hash h ≡ false
    → Spent h rows
    → Spent h (draw_code draws hash client app now rows).0
unfolding draw_code retire_expired
Spent-draw h [] hash client app now rows e s = s
Spent-draw h (code ∷ draws) hash client app now rows e s =
    let kept = Spent-filter h _ rows s in
    elim (Bool-cases
      (conflicts (new_row hash code client app (now + code_ttl)) (retire_expired code now rows))) [
        | inl q ↦
            rw q (Spent-draw h draws hash client app now (retire_expired code now rows) e kept)
        | inr q ↦ rw q ((λ m. absurd (ground arith)), kept)
      ]

poll_Spent :
    (h hash client : String) (now : ℕ) (db : Store)
    → Spent h db.authorizations
    → str_eq hash h && is_authorized (some (poll_handler hash client now db).1) ≡ false
unfolding poll_handler
poll_Spent h hash client now db s = elim (Bool-cases (str_eq hash h)) [
  | inr q ↦ ground arith
  | inl q ↦ elim (Option-cases (find_row hash client db.authorizations)) [
    | inl f ↦ ground arith
    | inr (row, f) ↦
        let same = ap (λ k. find_row k client db.authorizations) ((str_eq_iff hash h).0 q) in
        ground (arith, Spent-find h client db.authorizations row s (sym same ∙ f))
  ]
]

-- A spent code stays spent, and buys nothing.
handle-Spent :
    (h : String) (event : Event) (db : Store)
    → Undrawn h (event ∷ [])
    → Spent h db.authorizations
    → Spent h (handle event db).0.authorizations
      × (polls h event && is_authorized (handle event db).1 ≡ false)
unfolding handle start_handler upsert_user mark_claimed insert_failure count_attempts poll_handler
handle-Spent h (start draws hash client app now) db u s = (
  ground (
    arith,
    Spent-draw h (take code_generation_attempts draws) hash client app now db.authorizations u.0 s,
    s,
  ),
  refl,
)
handle-Spent h (user_upserted user email) db u s = (s, refl)
handle-Spent h (code_claimed user code product now) db u s = (
  Spent-map h (claim_row user code product now) db.authorizations
      (keep_claim h user code product now) s,
  refl,
)
handle-Spent h (failure_inserted user now) db u s = (s, refl)
handle-Spent h (attempts_counted code) db u s =
    (Spent-map h (count_attempt code) db.authorizations (keep_attempt h code) s, refl)
handle-Spent h (poll hash client now) db u s =
    let t = Spent-map h (touch hash now) db.authorizations (keep_touch h hash now) s in
    let c = Spent-map h (consume hash now) _ (keep_consume h hash now) t in
    (ground (arith, s, t, c), poll_Spent h hash client now db s)

-- The poll that is answered with a session spends its code.
poll_spends :
    (h : String) (event : Event) (db : Store)
    → polls h event && is_authorized (handle event db).1 ≡ true
    → Spent h (handle event db).0.authorizations
unfolding handle poll_handler
poll_spends h (start draws hash client app now) db e = absurd (ground arith)
poll_spends h (user_upserted user email) db e = absurd (ground arith)
poll_spends h (code_claimed user code product now) db e = absurd (ground arith)
poll_spends h (failure_inserted user now) db e = absurd (ground arith)
poll_spends h (attempts_counted code) db e = absurd (ground arith)
poll_spends h (poll hash client now) db e =
    ground (arith, Spent-consume h hash now (map (touch hash now) db.authorizations) (ground arith))

Undrawn-head :
    (h : String) (event : Event) (events : List Event)
    → Undrawn h (event ∷ events)
    → Undrawn h (event ∷ [])
Undrawn-head h (start draws hash client app now) events u = (u.0, tt)
Undrawn-head h (user_upserted user email) events u = tt
Undrawn-head h (code_claimed user code product now) events u = tt
Undrawn-head h (failure_inserted user now) events u = tt
Undrawn-head h (attempts_counted code) events u = tt
Undrawn-head h (poll hash client now) events u = tt

Undrawn-tail :
    (h : String) (event : Event) (events : List Event)
    → Undrawn h (event ∷ events)
    → Undrawn h events
Undrawn-tail h (start draws hash client app now) events u = u.1
Undrawn-tail h (user_upserted user email) events u = u
Undrawn-tail h (code_claimed user code product now) events u = u
Undrawn-tail h (failure_inserted user now) events u = u
Undrawn-tail h (attempts_counted code) events u = u
Undrawn-tail h (poll hash client now) events u = u

no_more :
    (h : String) (events : List Event) (db : Store)
    → Undrawn h events
    → Spent h db.authorizations
    → sessions h events db ≡ 0
unfolding sessions
no_more h [] db u s = refl
no_more h (event ∷ events) db u s =
    let (kept, none_here) = handle-Spent h event db (Undrawn-head h event events u) s in
    rw none_here (no_more h events (handle event db).0 (Undrawn-tail h event events u) kept)

-- However starts, polls and the statements of claims arrive, and whatever the database held before,
-- the polls with one device code are answered with at most one session, if no code handed out
-- meanwhile has its hash.
pub spent_once :
    (h : String) (events : List Event) (db : Store) → Undrawn h events → sessions h events db ≤ 1
unfolding sessions
spent_once h [] db u = omega arith
spent_once h (event ∷ events) db u =
    let later = Undrawn-tail h event events u in
    elim (Bool-cases (polls h event && is_authorized (handle event db).1)) [
      | inl e ↦
          rw e
            (omega (arith, no_more h events (handle event db).0 later (poll_spends h event db e)))
      | inr e ↦ rw e (spent_once h events (handle event db).0 later)
    ]
