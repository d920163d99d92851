-- ===== src/Ai/Budget/Charges.antt =====
-- Many calls in a row against the allowance of src/routes/ai/budget.rs.
use teddy_fyi_api_rust.Prelude.{
  ℕ, zero, suc, ◌+◌, ◌≤◌, ◌≡◌, refl, String, Bool, true, false, ◌&&◌, Option, none, some, List, [],
  ◌∷◌, str_eq, str_eq_iff, if◌then◌else◌, arith, Bool-cases, inl, inr, max, ap, ◌∙◌,
}
use teddy_fyi_api_rust.Ai.Budget.{
  BudgetLimits, BudgetRefusal, global_exhausted, Counters, Link, answers, unreachable, lost,
  incr_user, incr_total, judge, kill_switch_is_set, charge_gemini_call_on_day,
}

-- The charges of one day: who asks, and how Redis takes it. A charge is one step of both counters.
-- Redis may order the increments of requests that run at once otherwise for the one counter than for
-- the other; such orders are not modelled. A bound on one account rests on what its own counter
-- returned, and one on all accounts on what the total returned.
abbrev pub Charge : Type 0
Charge = String × Link

abbrev admits : Option BudgetRefusal → Bool
admits none = true
admits (some r) = false

abbrev pub times : ℕ → Charge → List Charge
times zero charge = []
times (suc n) charge = charge ∷ times n charge

module _ (limits : BudgetLimits) (day : String) where
  unfoldable pub after_charges : List Charge → Counters → Counters
  after_charges [] c = c
  after_charges ((user, link) ∷ charges) c =
      after_charges charges (charge_gemini_call_on_day limits user day link c).0

  -- How many of them are let through, of one account and of all.
  unfoldable pub admitted_for : String → List Charge → Counters → ℕ
  admitted_for u [] c = 0
  admitted_for u ((user, link) ∷ charges) c =
      let (c', refusal) = charge_gemini_call_on_day limits user day link c in
      let rest = admitted_for u charges c' in
      if str_eq u user && admits refusal then suc rest else rest

  unfoldable pub admitted : List Charge → Counters → ℕ
  admitted [] c = 0
  admitted ((user, link) ∷ charges) c =
      let (c', refusal) = charge_gemini_call_on_day limits user day link c in
      let rest = admitted charges c' in if admits refusal then suc rest else rest

  -- One charge adds at most one to each counter, and one that is let through adds one and stays
  -- within both limits.
  charge_user :
      (u user : String) (link : Link) (c : Counters)
      → let (c', refusal) = charge_gemini_call_on_day limits user day link c in
        (c.user_calls u day ≤ c'.user_calls u day)
        × (str_eq u user && admits refusal ≡ true
            → (suc (c.user_calls u day) ≤ c'.user_calls u day)
              × (c'.user_calls u day ≤ limits.per_user_per_day))
  unfolding charge_gemini_call_on_day incr_user incr_total judge
  charge_user u user unreachable c = (omega arith, λ e. absurd (ground arith))
  charge_user u user (lost x y) c = (ground arith, λ e. absurd (ground arith))
  charge_user u user answers c = (
    ground arith,
    λ e. (ground (arith, str_eq_iff u user, str_eq_iff day day), ground (arith, str_eq_iff u user)),
  )

  charge_total :
      (user : String) (link : Link) (c : Counters)
      → let (c', refusal) = charge_gemini_call_on_day limits user day link c in
        (c.total_calls day ≤ c'.total_calls day)
        × (admits refusal ≡ true
            → (suc (c.total_calls day) ≤ c'.total_calls day)
              × (c'.total_calls day ≤ limits.total_per_day))
  unfolding charge_gemini_call_on_day incr_user incr_total judge
  charge_total user unreachable c = (omega arith, λ e. absurd (ground arith))
  charge_total user (lost x y) c = (ground arith, λ e. absurd (ground arith))
  charge_total user answers c =
      (ground arith, λ e. (ground (arith, str_eq_iff day day), ground arith))

  -- However a day's charges are taken, each as one step of both counters, and whatever is lost on the
  -- way, the calls that an account is let make and those that it was counted for before stay within
  -- its limit, if those before were; if those before were over the limit, it is let make none.
  pub admitted_for-le :
      (u : String) (charges : List Charge) (c : Counters)
      → admitted_for u charges c + c.user_calls u day
        ≤ max limits.per_user_per_day (c.user_calls u day)
  unfolding admitted_for
  admitted_for-le u [] c = omega arith
  admitted_for-le u ((user, link) ∷ charges) c =
      let c' = (charge_gemini_call_on_day limits user day link c).0 in
      let ih = admitted_for-le u charges c' in
      let step = charge_user u user link c in
      elim (Bool-cases
        (str_eq u user && admits (charge_gemini_call_on_day limits user day link c).1)) [
          | inl e ↦ rw e (omega (arith, ih, step.0, step.1 e))
          | inr e ↦ rw e (omega (arith, ih, step.0))
        ]

  -- However a day's charges are taken, each as one step of both counters, and whatever is lost on the
  -- way, the calls that are let through and those that had been counted stay within the deployment's
  -- limit, if those counted before were; if those before were over the limit, none is let through.
  pub admitted-le :
      (charges : List Charge) (c : Counters)
      → admitted charges c + c.total_calls day ≤ max limits.total_per_day (c.total_calls day)
  unfolding admitted
  admitted-le [] c = omega arith
  admitted-le ((user, link) ∷ charges) c =
      let c' = (charge_gemini_call_on_day limits user day link c).0 in
      let ih = admitted-le charges c' in
      let step = charge_total user link c in
      elim (Bool-cases (admits (charge_gemini_call_on_day limits user day link c).1)) [
        | inl e ↦ rw e (omega (arith, ih, step.0, step.1 e))
        | inr e ↦ rw e (omega (arith, ih, step.0))
      ]

  -- What one account's charges do to what another's will be judged by.
  after_times :
      (n : ℕ) (u v : String) (c : Counters)
      → str_eq v u ≡ false
      → let c' = after_charges (times n (u, answers)) c in
        (c'.total_calls day ≡ n + c.total_calls day)
        × (c'.user_calls v day ≡ c.user_calls v day)
        × (c'.kill_switch ≡ c.kill_switch)
  unfolding after_charges charge_gemini_call_on_day incr_user incr_total
  after_times zero u v c h = (omega arith, refl, refl)
  after_times (suc n) u v c h =
      let c' = (charge_gemini_call_on_day limits u day answers c).0 in
      let (total, own, kill) = after_times n u v c' h in
      (ground (arith, total, str_eq_iff day day), ground (arith, own, h), kill)

  -- The charges of one account, refused ones included, use up the allowance of all: while the kill
  -- switch is off, after as many of them as the day's total allows, the next charge of any other
  -- account that is within its own limit is refused, for the deployment's limit.
  pub one_account_spends_all :
      (n : ℕ) (u v : String) (c : Counters)
      → str_eq v u ≡ false
      → kill_switch_is_set c.kill_switch ≡ false
      → suc (c.user_calls v day) ≤ limits.per_user_per_day
      → limits.total_per_day ≤ n
      → (charge_gemini_call_on_day limits v day answers (after_charges (times n (u, answers)) c)).1
        ≡ some global_exhausted
  unfolding charge_gemini_call_on_day incr_user incr_total judge
  one_account_spends_all n u v c h off own spent =
      let (total, same, kill) = after_times n u v c h in
      let killed = ap kill_switch_is_set kill ∙ off in
      ground (arith, total, same, killed, str_eq_iff day day, str_eq_iff v v)
