-- ===== src/Budget/Limits.antt =====
-- When Add and Check report a breach, and what an approval changes.
use agent_sdk_go.Prelude.{
  ℕ, ◌+◌, ◌^◌, ◌≤◌, ◌<◌, ◌≡◌, ◌↔◌, refl, true, false, Option, none, some, List, [], ◌∷◌, arith,
  IsNat64, ap, sym, ◌∙◌,
}
use agent_sdk_go.Budget.{
  Dollars, LlmUsage, BudgetConfig, BudgetTracker, BudgetExceededError, token_limit, cost_limit,
  check_limits, accumulate, add, check, advance_watermark, new_budget_tracker, tokens,
}

-- What a list of calls used, unbounded.
abbrev pub sum_tokens : List LlmUsage → ℕ
sum_tokens [] = 0
sum_tokens (u ∷ us) = u.total_tokens + sum_tokens us

module _ (d : Dollars) where
  open d use {is_pos, nano}

  -- Usage is below a limit: in numbers without a bound. The window has ApprovalExtraTokens, or
  -- MaxTokens where those are zero, before the first approval as after it.
  pub record TokensLeft (t : BudgetTracker d) : Type 0 where
    pub below_extra :
        0 < t.cfg.max_tokens
        → 0 < t.cfg.approval_extra_tokens
        → t.total_tokens < t.watermark_tokens + t.cfg.approval_extra_tokens
    pub below_max :
        0 < t.cfg.max_tokens
        → t.cfg.approval_extra_tokens ≡ 0
        → t.total_tokens < t.watermark_tokens + t.cfg.max_tokens

  pub record CostLeft (t : BudgetTracker d) : Type 0 where
    pub below_extra_cost :
        is_pos t.cfg.max_cost_usd ≡ true
        → 0 < nano t.cfg.approval_extra_cost_usd
        → t.total_cost_nano_usd < t.watermark_cost_nano_usd + nano t.cfg.approval_extra_cost_usd
    pub below_max_cost :
        is_pos t.cfg.max_cost_usd ≡ true
        → nano t.cfg.approval_extra_cost_usd ≡ 0
        → t.total_cost_nano_usd < t.watermark_cost_nano_usd + t.max_cost_nano_usd

  -- Nothing has overflowed.
  pub record InRange (t : BudgetTracker d) : Type 0 where
    pub max_small : IsNat64 t.cfg.max_tokens
    pub total_small : IsNat64 t.total_tokens
    pub cost_small : IsNat64 t.total_cost_nano_usd
    pub window_small : t.watermark_tokens + t.cfg.max_tokens < 2 ^ 63
    pub extra_small : t.watermark_tokens + t.cfg.approval_extra_tokens < 2 ^ 63
    pub cost_window_small : t.watermark_cost_nano_usd + t.max_cost_nano_usd < 2 ^ 63
    pub extra_cost_small : t.watermark_cost_nano_usd + nano t.cfg.approval_extra_cost_usd < 2 ^ 63

  -- Without overflow Check reports nothing exactly while both tokens and cost are below the last
  -- watermark plus the window: ApprovalExtraTokens and ApprovalExtraCostUSD, even before the first
  -- approval, or MaxTokens and MaxCostUSD where those are zero; a limit that is not set is not tested.
  pub check_iff :
      (t : BudgetTracker d) → InRange t → (check d (some t) ≡ none) ↔ (TokensLeft t × CostLeft t)
  unfolding check check_limits
  check_iff t r = ground arith

  -- The error that Check reports is about tokens exactly when the token limit is reached, whether or
  -- not the cost limit is reached too.
  pub tokens_first :
      (t : BudgetTracker d) (e : BudgetExceededError d)
      → InRange t
      → check d (some t) ≡ some e
      → (e.kind ≡ tokens)
        ↔ ((0 < t.cfg.max_tokens) × (t.watermark_tokens + token_limit d t.cfg ≤ t.total_tokens))
  unfolding check check_limits
  tokens_first t e r h = ground arith

  -- The tracker after Add of each usage.
  abbrev pub add_all : BudgetTracker d → List LlmUsage → BudgetTracker d
  add_all t [] = t
  add_all t (u ∷ us) = add_all (accumulate d t u) us

  add_all-cfg : (t : BudgetTracker d) (us : List LlmUsage) → (add_all t us).cfg ≡ t.cfg
  unfolding accumulate
  add_all-cfg t [] = refl
  add_all-cfg t (u ∷ us) = add_all-cfg (accumulate d t u) us

  add_all-watermark :
      (t : BudgetTracker d) (us : List LlmUsage)
      → (add_all t us).watermark_tokens ≡ t.watermark_tokens
  unfolding accumulate
  add_all-watermark t [] = refl
  add_all-watermark t (u ∷ us) = add_all-watermark (accumulate d t u) us

  add_all-total :
      (t : BudgetTracker d) (us : List LlmUsage)
      → t.total_tokens + sum_tokens us < 2 ^ 63
      → (add_all t us).total_tokens ≡ t.total_tokens + sum_tokens us
  unfolding accumulate
  add_all-total t [] h = omega arith
  add_all-total t (u ∷ us) h = omega (arith, add_all-total (accumulate d t u) us (omega arith))

  fresh :
      (cfg : BudgetConfig d) (t : BudgetTracker d)
      → new_budget_tracker d (some cfg) ≡ some t
      → (t.cfg ≡ cfg) × (t.total_tokens ≡ 0) × (t.watermark_tokens ≡ 0)
  unfolding new_budget_tracker
  fresh cfg t e = (
    ap (λ (o : Option (BudgetTracker d)). elim o [ none ↦ cfg | some s ↦ s.cfg ]) (sym e),
    ap (λ (o : Option (BudgetTracker d)). elim o [ none ↦ 0 | some s ↦ s.total_tokens ]) (sym e),
    ap (λ (o : Option (BudgetTracker d)). elim o [ none ↦ 0 | some s ↦ s.watermark_tokens ])
        (sym e),
  )

  add_reports :
      (t : BudgetTracker d) (u : LlmUsage) (n : ℕ)
      → is_pos t.cfg.max_cost_usd ≡ false
      → t.cfg.approval_extra_tokens ≡ 0
      → 0 < t.cfg.max_tokens
      → IsNat64 t.cfg.max_tokens
      → t.watermark_tokens ≡ 0
      → t.total_tokens ≡ n
      → n + u.total_tokens < 2 ^ 63
      → ((add d (some t) (some u)).1 ≡ none) ↔ (n + u.total_tokens < t.cfg.max_tokens)
  unfolding add check_limits accumulate
  add_reports t u n no_cost no_extra pos small wm e fits = ground arith

  -- A tracker with a token limit and no cost limit, before any approval: the Add of one more usage
  -- reports a breach exactly when all usage together has reached MaxTokens.
  pub add_reports_at_limit :
      (cfg : BudgetConfig d) (t : BudgetTracker d) (us : List LlmUsage) (u : LlmUsage)
      → new_budget_tracker d (some cfg) ≡ some t
      → is_pos cfg.max_cost_usd ≡ false
      → cfg.approval_extra_tokens ≡ 0
      → 0 < cfg.max_tokens
      → IsNat64 cfg.max_tokens
      → sum_tokens us + u.total_tokens < 2 ^ 63
      → ((add d (some (add_all t us)) (some u)).1 ≡ none)
        ↔ (sum_tokens us + u.total_tokens < cfg.max_tokens)
  add_reports_at_limit cfg t us u e no_cost no_extra pos small fits =
      let (c, z, w) = fresh cfg t e in
      let c' : (add_all t us).cfg ≡ cfg = add_all-cfg t us ∙ c in
      let total : (add_all t us).total_tokens ≡ sum_tokens us =
        omega (arith, add_all-total t us (omega arith)) in
      let report =
        add_reports (add_all t us) u (sum_tokens us) (rw c' no_cost) (rw c' no_extra) (rw c' pos)
          (rw c' small) (add_all-watermark t us ∙ w) total fits in
      rw c' at report

  -- An approval opens a new window: with positive limits and totals from which a window fits into 63
  -- bits, Check reports nothing right after AdvanceWatermark.
  advance_watermark_clears :
      (t t' : BudgetTracker d)
      → (advance_watermark d (some t)).0 ≡ some t'
      → InRange t'
      → 0 < token_limit d t.cfg
      → 0 < cost_limit d t
      → (check d (some t') ≡ none) × (t'.total_tokens ≡ t.total_tokens)
  unfolding advance_watermark check check_limits
  advance_watermark_clears t t' e r pos cost_pos = ground arith
