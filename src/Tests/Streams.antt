-- ===== src/Tests/Streams.antt =====
-- src/routes/sync/stream_limits.rs, src/routes/sync/publish_conn.rs and src/routes/ai/budget.rs at
-- concrete inputs.
use teddy_fyi_api_rust.Prelude.{
  ℕ, inl, inr, ◌+◌, ◌≤◌, ◌≡◌, refl, true, false, some, List, [], ◌∷◌, max, arith,
}
use teddy_fyi_api_rust.Sync.StreamLimits.{StreamCaps, Counts, no_streams, try_acquire}
use teddy_fyi_api_rust.Sync.StreamLimits.Slots.{
  Counted, Reachable, here, next, opened, Reachable-Counted,
}
use teddy_fyi_api_rust.Sync.PublishConn.{RedisPublisher, connection, discard}
use teddy_fyi_api_rust.Sync.PublishConn.Generations.{
  undialled_yet, Handed, discard_spares_others, new as no_dial, connected, discarded,
}
use teddy_fyi_api_rust.Sync.PublishConn.Generations as Generations
use teddy_fyi_api_rust.Ai.Budget.{
  BudgetLimits, Counters, answers, unreachable, lost, kill_switch_is_set, global_exhausted,
  charge_gemini_call_on_day,
}
use teddy_fyi_api_rust.Ai.Budget.Charges.{
  Charge, after_charges, admitted, admitted_for, admitted_for-le, admitted-le, times,
  one_account_spends_all,
}

abbrev caps : StreamCaps
caps = record { max_per_user = 1; max_total = 2 }

abbrev one : Counts
one = (try_acquire caps "ada" no_streams).0

reach_one : Reachable caps one ("ada" ∷ [])
unfolding try_acquire
reach_one = next no_streams one [] ("ada" ∷ []) here (opened no_streams [] "ada" refl)

Reachable-Counted_example : Counted caps one ("ada" ∷ [])
Reachable-Counted_example = Reachable-Counted caps one ("ada" ∷ []) (omega arith) reach_one

abbrev limits : BudgetLimits
limits = record { per_user_per_day = 2; total_per_day = 3 }

abbrev fresh : Counters
fresh = record { kill_switch = some "off"; user_calls = λ u d. 0; total_calls = λ d. 0 }

abbrev asked : List Charge
asked =
    ("ada", answers)
    ∷ ("ada", lost true false)
    ∷ ("ada", answers)
    ∷ ("bob", unreachable)
    ∷ ("bob", answers)
    ∷ ("bob", answers)
    ∷ []

admitted_for-le_example : admitted_for limits "2026-09-12" "ada" asked fresh + 0 ≤ max 2 0
admitted_for-le_example = admitted_for-le limits "2026-09-12" "ada" asked fresh

admitted-le_example : admitted limits "2026-09-12" asked fresh + 0 ≤ max 3 0
admitted-le_example = admitted-le limits "2026-09-12" asked fresh

two_admitted : admitted limits "2026-09-12" asked fresh ≡ 2
unfolding admitted charge_gemini_call_on_day
two_admitted = refl

one_account_spends_all_example :
    (charge_gemini_call_on_day limits "bob" "2026-09-12" answers
      (after_charges limits "2026-09-12" (times 3 ("ada", answers)) fresh)).1
    ≡ some global_exhausted
unfolding kill_switch_is_set
one_account_spends_all_example =
    one_account_spends_all limits "2026-09-12" 3 "ada" "bob" fresh refl refl (omega arith)
      (omega arith)

-- Connections are named by numbers. Two callers get 10, one of them discards it and dials 20.
abbrev redialled : RedisPublisher ℕ
redialled = (connection (some 20) (discard 0 (connection (some 10) undialled_yet).0)).0

reach_redialled : Generations.Reachable ℕ redialled ((1, 20) ∷ (0, 10) ∷ [])
unfolding connection discard
reach_redialled =
    connected (discard 0 (connection (some 10) undialled_yet).0) ((0, 10) ∷ []) (some 20) (1, 20)
      (discarded (connection (some 10) undialled_yet).0 ((0, 10) ∷ []) 0
        (connected undialled_yet [] (some 10) (0, 10) no_dial refl))
      refl

-- The other then discards its failed 10.
discard_spares_others_example : discard 0 redialled ≡ redialled
unfolding connection discard
discard_spares_others_example =
    discard_spares_others redialled ((1, 20) ∷ (0, 10) ∷ []) 0 1 10 20 reach_redialled
      (inr (inl (refl, refl))) refl (λ e. absurd (omega (arith, e)))
