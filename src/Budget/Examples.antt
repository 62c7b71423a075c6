-- ===== src/Budget/Examples.antt =====
-- Trackers whose dollars are whole nano-dollars.
use agent_sdk_go.Prelude.{ℕ, ◌≡◌, ◌↔◌, refl, true, false, none, some, List, [], ◌∷◌, arith, ltb}
use agent_sdk_go.Budget.{
  Dollars, LlmUsage, BudgetConfig, BudgetTracker, BudgetExceededError, wait_for_approval, tokens,
  accumulate, advanced, check, approvals_exhausted,
}
use agent_sdk_go.Budget.Limits.{TokensLeft, CostLeft, InRange, check_iff}
use agent_sdk_go.Budget.Restore.{Event, used, approved, history}

abbrev whole : Dollars
whole = record {
  Usd = ℕ;
  is_pos = λ x. ltb 0 x;
  rate = λ x. x;
  nano = λ x. x;
  usd = λ n. n;
  zero_usd = 0;
}

abbrev usage : ℕ → LlmUsage
usage n = record {
  prompt_tokens = n;
  completion_tokens = 0;
  total_tokens = n;
  cached_prompt_tokens = 0;
  reasoning_tokens = 0;
}

abbrev config : ℕ → BudgetConfig whole
config cost = record {
  max_tokens = 100;
  max_cost_usd = cost;
  prompt_usd_per_1m = 2;
  completion_usd_per_1m = 3;
  on_exceeded = wait_for_approval;
  approval_extra_tokens = 0;
  approval_extra_cost_usd = 0;
  max_approvals = 1;
}

abbrev fresh : ℕ → BudgetTracker whole
fresh cost = record {
  cfg = config cost;
  total_tokens = 0;
  total_cost_nano_usd = 0;
  prompt_rate = 2;
  completion_rate = 3;
  max_cost_nano_usd = cost;
  watermark_tokens = 0;
  watermark_cost_nano_usd = 0;
  approval_count = 0;
  effective_max_approval = 1;
  has_added = false;
}

abbrev spent : BudgetTracker whole
spent = record (fresh 500) { total_tokens = 120; total_cost_nano_usd = 240; has_added = true }

spent-InRange : InRange whole spent
spent-InRange = omega arith

check_iff_example :
    (check whole (some spent) ≡ none) ↔ (TokensLeft whole spent × CostLeft whole spent)
check_iff_example = check_iff whole spent spent-InRange

abbrev report : BudgetExceededError whole
report = record {
  kind = tokens;
  total_tokens = 120;
  total_cost_usd = 0;
  limit_tokens = 100;
  limit_cost_usd = 0;
  watermark_tokens = 0;
  watermark_cost_usd = 0;
}

-- One approval, which is all that MaxApprovals allows.
abbrev events : List Event
events = used (usage 120) ∷ approved ∷ used (usage 130) ∷ []

exhausted_before : approvals_exhausted whole (some (history whole (fresh 500) events)) ≡ true
unfolding approvals_exhausted accumulate advanced
exhausted_before = refl
