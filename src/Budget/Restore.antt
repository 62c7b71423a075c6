-- ===== src/Budget/Restore.antt =====
-- A tracker rebuilt with RestoreState after a continue-as-new of
-- internal/runtime/temporal/agent_workflow.go.
use agent_sdk_go.Prelude.{◌≡◌, false, some, List, [], ◌∷◌, arith}
use agent_sdk_go.Budget.{Dollars, LlmUsage, BudgetTracker, accumulate, advanced, restore_state}

-- What happens to a tracker during a run.
pub data Event : Type 0 where
  used : LlmUsage → Event
  approved : Event

module _ (d : Dollars) where
  open d use {usd, nano}

  abbrev pub happen : BudgetTracker d → Event → BudgetTracker d
  happen t (used u) = accumulate d t u
  happen t approved = advanced d t

  abbrev pub history : BudgetTracker d → List Event → BudgetTracker d
  history t [] = t
  history t (e ∷ es) = history (happen t e) es

  -- The fields that the configuration alone decides.
  record SameLimits (t s : BudgetTracker d) : Type 0 where
    cfg_same : t.cfg ≡ s.cfg
    prompt_same : t.prompt_rate ≡ s.prompt_rate
    completion_same : t.completion_rate ≡ s.completion_rate
    max_same : t.max_cost_nano_usd ≡ s.max_cost_nano_usd
    approvals_same : t.effective_max_approval ≡ s.effective_max_approval

  restored :
      (f t : BudgetTracker d)
      → (f.has_added ≡ false) × (f.approval_count ≡ 0)
      → SameLimits t f
      → nano (usd t.total_cost_nano_usd) ≡ t.total_cost_nano_usd
      → nano (usd t.watermark_cost_nano_usd) ≡ t.watermark_cost_nano_usd
      → restore_state d
          (some f)
          t.total_tokens
          (usd t.total_cost_nano_usd)
          t.watermark_tokens
          (usd t.watermark_cost_nano_usd)
        ≡ some (some (record t { approval_count = 0; has_added = false }))
  unfolding restore_state
  restored f t new same cost wm = ground arith
