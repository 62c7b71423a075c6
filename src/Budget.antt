-- ===== src/Budget.antt =====
-- internal/runtime/base/budget.go: the tracker of tokens and cost of a run. Every method holds the
-- tracker's lock, so concurrent callers are a sequence of calls. `int64` values are 64-bit patterns;
-- a nil receiver is `none`.
pub mod Limits
pub mod Ordering
pub mod Restore
mod Examples
use agent_sdk_go.Prelude.{
  ℕ, Bool, true, false, ◌&&◌, Option, none, some, if◌then◌else◌, lt64, le64, add64, mul64, nat_beq,
}

-- `float64` dollars: `x > 0`, `int64(math.Round(x * 1000))`, `int64(math.Round(x * 1e9))`, and
-- `float64(n) / 1e9`.
pub record Dollars : Type 1 where
  pub Usd : Type 0
  pub is_pos : Usd → Bool
  pub rate : Usd → ℕ
  pub nano : Usd → ℕ
  pub usd : ℕ → Usd
  pub zero_usd : Usd

-- interfaces.LLMUsage
pub record LlmUsage : Type 0 where
  pub prompt_tokens : ℕ
  pub completion_tokens : ℕ
  pub total_tokens : ℕ
  pub cached_prompt_tokens : ℕ
  pub reasoning_tokens : ℕ

-- types.BudgetExceededAction; `unset` is the empty string, `unknown_action` any other text.
pub data BudgetExceededAction : Type 0 where
  unset stop_run wait_for_approval unknown_action : BudgetExceededAction

-- types.BudgetExceededKind
pub data BudgetExceededKind : Type 0 where
  tokens cost_usd : BudgetExceededKind

abbrev pub default_max_approvals : ℕ
default_max_approvals = 5

module _ (d : Dollars) where
  open d use {Usd, is_pos, rate, nano, usd, zero_usd}

  -- types.BudgetConfig
  pub record BudgetConfig : Type 0 where
    pub max_tokens : ℕ
    pub max_cost_usd : Usd
    pub prompt_usd_per_1m : Usd
    pub completion_usd_per_1m : Usd
    pub on_exceeded : BudgetExceededAction
    pub approval_extra_tokens : ℕ
    pub approval_extra_cost_usd : Usd
    pub max_approvals : ℕ

  pub record BudgetTracker : Type 0 where
    pub cfg : BudgetConfig
    pub total_tokens : ℕ
    pub total_cost_nano_usd : ℕ
    pub prompt_rate : ℕ
    pub completion_rate : ℕ
    pub max_cost_nano_usd : ℕ
    pub watermark_tokens : ℕ
    pub watermark_cost_nano_usd : ℕ
    pub approval_count : ℕ
    pub effective_max_approval : ℕ
    pub has_added : Bool

  -- The fields that the other kind leaves at zero are given as zero.
  pub record BudgetExceededError : Type 0 where
    pub kind : BudgetExceededKind
    pub total_tokens : ℕ
    pub total_cost_usd : Usd
    pub limit_tokens : ℕ
    pub limit_cost_usd : Usd
    pub watermark_tokens : ℕ
    pub watermark_cost_usd : Usd

  unfoldable pub new_budget_tracker : Option BudgetConfig → Option BudgetTracker
  new_budget_tracker none = none
  new_budget_tracker (some cfg) = some (record {
    cfg = cfg;
    total_tokens = 0;
    total_cost_nano_usd = 0;
    prompt_rate = if is_pos cfg.prompt_usd_per_1m then rate cfg.prompt_usd_per_1m else 0;
    completion_rate =
        if is_pos cfg.completion_usd_per_1m then rate cfg.completion_usd_per_1m else 0;
    max_cost_nano_usd = if is_pos cfg.max_cost_usd then nano cfg.max_cost_usd else 0;
    watermark_tokens = 0;
    watermark_cost_nano_usd = 0;
    approval_count = 0;
    effective_max_approval =
        if lt64 0 cfg.max_approvals then cfg.max_approvals else default_max_approvals;
    has_added = false;
  })

  -- The token limit of the current window.
  abbrev pub token_limit : BudgetConfig → ℕ
  token_limit cfg =
      if nat_beq cfg.approval_extra_tokens 0 then cfg.max_tokens else cfg.approval_extra_tokens

  tokens_exceeded : BudgetTracker → Option BudgetExceededError
  tokens_exceeded t =
      if lt64 0 t.cfg.max_tokens
        && le64 (add64 t.watermark_tokens (token_limit t.cfg)) t.total_tokens
      then some (record {
        kind = tokens;
        total_tokens = t.total_tokens;
        total_cost_usd = zero_usd;
        limit_tokens = token_limit t.cfg;
        limit_cost_usd = zero_usd;
        watermark_tokens = t.watermark_tokens;
        watermark_cost_usd = zero_usd;
      })
      else none

  -- The cost limit of the current window, in nano-dollars.
  abbrev pub cost_limit : BudgetTracker → ℕ
  cost_limit t =
      let extra = nano t.cfg.approval_extra_cost_usd in
      if nat_beq extra 0 then t.max_cost_nano_usd else extra

  cost_exceeded : BudgetTracker → Option BudgetExceededError
  cost_exceeded t =
      if is_pos t.cfg.max_cost_usd
        && le64 (add64 t.watermark_cost_nano_usd (cost_limit t)) t.total_cost_nano_usd
      then some (record {
        kind = cost_usd;
        total_tokens = 0;
        total_cost_usd = usd t.total_cost_nano_usd;
        limit_tokens = 0;
        limit_cost_usd =
            if nat_beq (nano t.cfg.approval_extra_cost_usd) 0
            then t.cfg.max_cost_usd
            else t.cfg.approval_extra_cost_usd;
        watermark_tokens = 0;
        watermark_cost_usd = usd t.watermark_cost_nano_usd;
      })
      else none

  -- The token limit is tested first.
  unfoldable pub check_limits : BudgetTracker → Option BudgetExceededError
  unfolding tokens_exceeded cost_exceeded
  check_limits t = elim (tokens_exceeded t) [ some e ↦ some e | none ↦ cost_exceeded t ]

  -- The tracker with the usage of one call.
  unfoldable pub accumulate : BudgetTracker → LlmUsage → BudgetTracker
  accumulate t u = record t {
    has_added = true;
    total_tokens = add64 t.total_tokens u.total_tokens;
    total_cost_nano_usd =
        add64 t.total_cost_nano_usd (
          add64 (mul64 u.prompt_tokens t.prompt_rate)
            (mul64 u.completion_tokens t.completion_rate));
  }

  unfoldable pub add :
      Option BudgetTracker → Option LlmUsage → Option BudgetTracker × Option BudgetExceededError
  add none u = (none, none)
  add (some t) none = (some t, none)
  add (some t) (some u) = (some (accumulate t u), check_limits (accumulate t u))

  unfoldable pub check : Option BudgetTracker → Option BudgetExceededError
  check none = none
  check (some t) = check_limits t

  unfoldable pub advanced : BudgetTracker → BudgetTracker
  advanced t = record t {
    approval_count = add64 t.approval_count 1;
    watermark_tokens = t.total_tokens;
    watermark_cost_nano_usd = t.total_cost_nano_usd;
  }

  unfoldable pub advance_watermark : Option BudgetTracker → Option BudgetTracker × Bool
  unfolding advanced
  advance_watermark none = (none, true)
  advance_watermark (some t) = (some (advanced t), true)

  unfoldable pub approvals_exhausted : Option BudgetTracker → Bool
  approvals_exhausted none = false
  approvals_exhausted (some t) = le64 t.effective_max_approval t.approval_count

  unfoldable pub totals : Option BudgetTracker → ℕ × Usd
  totals none = (0, zero_usd)
  totals (some t) = (t.total_tokens, usd t.total_cost_nano_usd)

  unfoldable pub watermark_totals : Option BudgetTracker → ℕ × Usd
  watermark_totals none = (0, zero_usd)
  watermark_totals (some t) = (t.watermark_tokens, usd t.watermark_cost_nano_usd)

  -- `none` is the panic after an Add; a nil receiver stays nil.
  unfoldable pub restore_state :
      Option BudgetTracker → ℕ → Usd → ℕ → Usd → Option (Option BudgetTracker)
  restore_state none n cost wm wm_cost = some none
  restore_state (some t) n cost wm wm_cost =
      if t.has_added
      then none
      else some (
          some (record t {
            total_tokens = n;
            total_cost_nano_usd = nano cost;
            watermark_tokens = wm;
            watermark_cost_nano_usd = nano wm_cost;
          }))
