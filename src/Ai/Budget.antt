-- ===== src/Ai/Budget.antt =====
-- src/routes/ai/budget.rs: the daily allowance of Gemini calls, counted in Redis. A key is the pair or
-- the day that it spells out; expiry, which only cleans up, is left out.
pub mod Charges
use teddy_fyi_api_rust.Prelude.{
  ℕ, suc, String, Bool, true, false, not, ◌&&◌, ◌||◌, Option, none, some, str_eq, ltb,
  if◌then◌else◌,
}
use teddy_fyi_api_rust.Prelude.Strings.{trim, lowercase_eq}
use teddy_fyi_api_rust.Errors.{AppError, too_many_requests, overloaded}

pub record BudgetLimits : Type 0 where
  pub per_user_per_day : ℕ
  pub total_per_day : ℕ

pub data BudgetRefusal : Type 0 where
  kill_switch_set user_exhausted global_exhausted unmetered : BudgetRefusal

-- `From<BudgetRefusal> for AppError`
unfoldable pub refusal_error : BudgetRefusal → AppError
refusal_error user_exhausted = too_many_requests
refusal_error global_exhausted = too_many_requests
refusal_error kill_switch_set = overloaded
refusal_error unmetered = overloaded

-- What Redis holds of it.
pub record Counters : Type 0 where
  pub kill_switch : Option String
  -- by account and day, and by day
  pub user_calls : String → String → ℕ
  pub total_calls : String → ℕ

-- How Redis takes the pipeline: it answers, it cannot be reached, or its answer is lost, and then each
-- of the two increments may have been applied or not.
pub data Link : Type 0 where
  answers unreachable : Link
  lost : Bool → Bool → Link

unfoldable pub incr_user : String → String → Counters → Counters
incr_user user_id day c = record c {
  user_calls =
      λ u d. if str_eq u user_id && str_eq d day then suc (c.user_calls u d) else c.user_calls u d;
}

unfoldable pub incr_total : String → Counters → Counters
incr_total day c = record c {
  total_calls = λ d. if str_eq d day then suc (c.total_calls d) else c.total_calls d;
}

unfoldable pub kill_switch_is_set : Option String → Bool
unfolding trim lowercase_eq
kill_switch_is_set none = false
kill_switch_is_set (some raw) =
    let value = trim raw in
    not (
      lowercase_eq value ""
      || lowercase_eq value "0"
      || lowercase_eq value "false"
      || lowercase_eq value "off"
      || lowercase_eq value "no")

-- What the pipeline answered decides: `none` lets the call be made.
unfoldable pub judge : BudgetLimits → Option String → ℕ → ℕ → Option BudgetRefusal
unfolding kill_switch_is_set
judge limits kill_switch user_calls total_calls =
    if kill_switch_is_set kill_switch
    then some kill_switch_set
    else if ltb limits.per_user_per_day user_calls
    then some user_exhausted
    else if ltb limits.total_per_day total_calls
    then some global_exhausted
    else none

-- `charge_gemini_call_on_day`: both counters are bumped before anything is looked at. The pipeline is
-- taken as one step of both, though Redis may put other requests' commands between its own.
unfoldable pub charge_gemini_call_on_day :
    BudgetLimits → String → String → Link → Counters → Counters × Option BudgetRefusal
unfolding incr_user incr_total judge
charge_gemini_call_on_day limits user_id day unreachable c = (c, some unmetered)
charge_gemini_call_on_day limits user_id day (lost user total) c =
    let c' = if user then incr_user user_id day c else c in
    (if total then incr_total day c' else c', some unmetered)
charge_gemini_call_on_day limits user_id day answers c =
    let c' = incr_total day (incr_user user_id day c) in
    (c', judge limits c'.kill_switch (c'.user_calls user_id day) (c'.total_calls day))
