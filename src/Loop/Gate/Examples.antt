-- ===== src/Loop/Gate/Examples.antt =====
-- A run with 100 tokens that may ask once.
use agent_sdk_go.Prelude.{
  ◌≤◌, ◌≡◌, ◌⊎◌, refl, Bool, true, false, none, some, [], ◌∷◌, arith, lt64, if◌then◌else◌,
}
use agent_sdk_go.Budget
use agent_sdk_go.Budget.{LlmUsage, BudgetTracker, new_budget_tracker, default_max_approvals}
use agent_sdk_go.Loop.{State, publish_event_to_channel}
use agent_sdk_go.Loop.Sample.{host, cents, runtime, input, telemetry, budget}
use agent_sdk_go.Loop.Gate.{
  waits, budget_action, check_budget, apply_budget_exceeded, await_budget_approval_status,
}
use agent_sdk_go.Loop.Gate.Approvals.{
  Passed, check_call, pass_gates, pass_gates-Limited, check_budget_passes,
}

abbrev usage : LlmUsage
usage = record {
  prompt_tokens = 0;
  completion_tokens = 0;
  total_tokens = 120;
  cached_prompt_tokens = 0;
  reasoning_tokens = 0;
}

abbrev fresh : BudgetTracker cents
fresh = record {
  cfg = budget;
  total_tokens = 0;
  total_cost_nano_usd = 0;
  prompt_rate = 0;
  completion_rate = 0;
  max_cost_nano_usd = 0;
  watermark_tokens = 0;
  watermark_cost_nano_usd = 0;
  approval_count = 0;
  effective_max_approval = 1;
  has_added = false;
}

abbrev start : State host
start = record { w = 0; tracker = some fresh; breaker = none }

abbrev after_two : BudgetTracker cents
after_two = record fresh {
  total_tokens = 240;
  watermark_tokens = 120;
  approval_count = 1;
  has_added = true;
}

fresh_new : some fresh ≡ new_budget_tracker cents (some budget)
unfolding new_budget_tracker
fresh_new = refl

-- The first breach is approved, the second is not even asked for.
two_checks :
    (pass_gates host runtime input telemetry start
      (check_call (some usage) ∷ check_call (some usage) ∷ [])).1.tracker
    ≡ some after_two
unfolding check_budget apply_budget_exceeded await_budget_approval_status publish_event_to_channel
    budget_action Budget.add Budget.accumulate Budget.check_limits Budget.approvals_exhausted
    Budget.advance_watermark Budget.totals
two_checks = refl

pass_gates-Limited_example : 1 ≤ (if lt64 0 1 then 1 else default_max_approvals)
pass_gates-Limited_example =
    pass_gates-Limited host runtime input telemetry start budget after_two
      (check_call (some usage) ∷ check_call (some usage) ∷ []) (omega arith) fresh_new two_checks

one_check : (check_budget host runtime input telemetry (some usage) start).0.0 ≡ none
unfolding check_budget apply_budget_exceeded await_budget_approval_status publish_event_to_channel
    budget_action Budget.add Budget.accumulate Budget.check_limits Budget.approvals_exhausted
    Budget.advance_watermark Budget.totals
one_check = refl

check_budget_passes_example :
    let r = check_budget host runtime input telemetry (some usage) start in
    let (tracker, breach) = Budget.add cents (some fresh) (some usage) in
    ((breach ≡ none) × (r.1.tracker ≡ tracker))
    ⊎ (◌≡◌ {A = Bool} true true
        × (waits host (budget_action host runtime) ≡ true)
        × Passed host tracker r.1.tracker)
check_budget_passes_example =
    check_budget_passes host runtime input telemetry (some usage) start one_check
