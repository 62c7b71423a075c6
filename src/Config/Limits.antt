-- ===== src/Config/Limits.antt =====
-- validateBudget and validateErrorControl of pkg/agent/config.go.
pub mod Usable
use agent_sdk_go.Prelude.{
  ℕ, Bool, true, false, not, ◌&&◌, ◌||◌, Option, none, some, String, string_eq, ◌==◌, ◌⊎◌, inl, inr,
  if◌then◌else◌, lt64, nat_beq,
}
use agent_sdk_go.Prelude.GoMap
use agent_sdk_go.Prelude.GoMap.{GoMap}
use agent_sdk_go.CircuitBreaker.{CircuitBreakerConfig}
use agent_sdk_go.Budget.{
  Dollars, BudgetConfig, BudgetExceededAction, unset, stop_run, wait_for_approval, unknown_action,
}

-- The refusals of validateBudget, in their order.
pub data BudgetError : Type 0 where
  negative_max_tokens negative_max_cost negative_prompt_rate negative_completion_rate no_limit
        missing_rates negative_extra_tokens negative_extra_cost negative_max_approvals
        extra_without_approval approvals_without_approval unknown_on_exceeded :
      BudgetError

-- `is_neg x` is x < 0 and `is_zero x` is x == 0, on floats.
module _ (d : Dollars) (is_neg is_zero : d.Usd → Bool) where
  open d use {is_pos}

  -- The switch on OnExceeded, which is never unset there.
  unfoldable pub fill_on_exceeded : BudgetConfig d → BudgetConfig d ⊎ BudgetError
  fill_on_exceeded b = elim b.on_exceeded [
    | wait_for_approval ↦ inl (record b {
      approval_extra_tokens =
          if nat_beq b.approval_extra_tokens 0 && lt64 0 b.max_tokens
          then b.max_tokens
          else b.approval_extra_tokens;
      approval_extra_cost_usd =
          if is_zero b.approval_extra_cost_usd && is_pos b.max_cost_usd
          then b.max_cost_usd
          else b.approval_extra_cost_usd;
    })
    | unknown_action ↦ inr unknown_on_exceeded
    | _ ↦
        if not (nat_beq b.approval_extra_tokens 0) || not (is_zero b.approval_extra_cost_usd)
        then inr extra_without_approval
        else if not (nat_beq b.max_approvals 0)
        then inr approvals_without_approval
        else inl b
  ]

  -- An empty OnExceeded stops the run.
  abbrev pub default_action : BudgetExceededAction → BudgetExceededAction
  default_action unset = stop_run
  default_action a = a

  -- The tests before the switch.
  unfoldable pub check_amounts : BudgetConfig d → Option BudgetError
  check_amounts b =
      if lt64 b.max_tokens 0
      then some negative_max_tokens
      else if is_neg b.max_cost_usd
      then some negative_max_cost
      else if is_neg b.prompt_usd_per_1m
      then some negative_prompt_rate
      else if is_neg b.completion_usd_per_1m
      then some negative_completion_rate
      else if nat_beq b.max_tokens 0 && is_zero b.max_cost_usd
      then some no_limit
      else if is_pos b.max_cost_usd
          && (not (is_pos b.prompt_usd_per_1m) || not (is_pos b.completion_usd_per_1m))
      then some missing_rates
      else if lt64 b.approval_extra_tokens 0
      then some negative_extra_tokens
      else if is_neg b.approval_extra_cost_usd
      then some negative_extra_cost
      else if lt64 b.max_approvals 0
      then some negative_max_approvals
      else none

  -- The configuration that the checks leave behind.
  unfoldable pub validate_budget : BudgetConfig d → BudgetConfig d ⊎ BudgetError
  unfolding check_amounts fill_on_exceeded
  validate_budget b = elim (check_amounts b) [
    | some e ↦ inr e
    | none ↦ fill_on_exceeded (record b { on_exceeded = default_action b.on_exceeded })
  ]
