-- ===== src/Config/Limits/Usable.antt =====
-- What a budget that was accepted has.
use agent_sdk_go.Prelude.{
  ◌<◌, ◌^◌, ◌≡◌, ◌⊎◌, inl, inr, refl, Bool, true, false, none, arith, IsNat64, Option-cases, ap,
  ◌∙◌,
}
use agent_sdk_go.Budget.{Dollars, BudgetConfig, stop_run, wait_for_approval}
use agent_sdk_go.Config.Limits.{fill_on_exceeded, default_action, check_amounts, validate_budget}

module _ (d : Dollars) (is_neg is_zero : d.Usd → Bool) where
  open d use {is_pos}

  -- No field is negative, there is a limit, a run that stops has neither extras nor approvals, and one
  -- that waits for approvals gets more tokens or more money by each.
  pub record Usable (b : BudgetConfig d) : Type 0 where
    pub known : (b.on_exceeded ≡ stop_run) ⊎ (b.on_exceeded ≡ wait_for_approval)
    pub tokens_small : IsNat64 b.max_tokens
    pub extra_small : IsNat64 b.approval_extra_tokens
    pub approvals_small : IsNat64 b.max_approvals
    pub max_cost_given : is_neg b.max_cost_usd ≡ false
    pub prompt_rate_given : is_neg b.prompt_usd_per_1m ≡ false
    pub completion_rate_given : is_neg b.completion_usd_per_1m ≡ false
    pub extra_cost_given : is_neg b.approval_extra_cost_usd ≡ false
    pub no_extra_tokens : b.on_exceeded ≡ stop_run → b.approval_extra_tokens ≡ 0
    pub no_extra_cost : b.on_exceeded ≡ stop_run → is_zero b.approval_extra_cost_usd ≡ true
    pub no_approvals : b.on_exceeded ≡ stop_run → b.max_approvals ≡ 0
    pub limited : (0 < b.max_tokens) ⊎ (is_zero b.max_cost_usd ≡ false)
    pub priced :
        is_pos b.max_cost_usd ≡ true
        → (is_pos b.prompt_usd_per_1m ≡ true) × (is_pos b.completion_usd_per_1m ≡ true)
    pub more_tokens :
        b.on_exceeded ≡ wait_for_approval → 0 < b.max_tokens → 0 < b.approval_extra_tokens
    pub more_cost :
        b.on_exceeded ≡ wait_for_approval
        → is_pos b.max_cost_usd ≡ true
        → is_zero b.approval_extra_cost_usd ≡ false

  amounts :
      (b : BudgetConfig d)
      → check_amounts d is_neg is_zero b ≡ none
      → (is_neg b.max_cost_usd ≡ false)
        × (is_neg b.prompt_usd_per_1m ≡ false)
        × (is_neg b.completion_usd_per_1m ≡ false)
        × (is_neg b.approval_extra_cost_usd ≡ false)
        × ((0 < b.max_tokens) ⊎ (is_zero b.max_cost_usd ≡ false))
        × (is_pos b.max_cost_usd ≡ true
            → (is_pos b.prompt_usd_per_1m ≡ true) × (is_pos b.completion_usd_per_1m ≡ true))
  unfolding check_amounts
  amounts b ok = ground arith

  small :
      (b : BudgetConfig d)
      → b.max_tokens < 2 ^ 64
      → b.approval_extra_tokens < 2 ^ 64
      → b.max_approvals < 2 ^ 64
      → check_amounts d is_neg is_zero b ≡ none
      → IsNat64 b.max_tokens × IsNat64 b.approval_extra_tokens × IsNat64 b.max_approvals
  unfolding check_amounts
  small b s1 s2 s3 ok = ground arith

  sizes :
      (c b' : BudgetConfig d)
      → fill_on_exceeded d is_neg is_zero c ≡ inl b'
      → c.max_tokens < 2 ^ 64
      → c.approval_extra_tokens < 2 ^ 64
      → c.max_approvals < 2 ^ 64
      → (b'.max_tokens < 2 ^ 64) × (b'.approval_extra_tokens < 2 ^ 64) × (b'.max_approvals < 2 ^ 64)
  unfolding fill_on_exceeded
  sizes c b' e s1 s2 s3 = ground arith

  stops :
      (c b' : BudgetConfig d)
      → fill_on_exceeded d is_neg is_zero c ≡ inl b'
      → b'.on_exceeded ≡ stop_run
      → (b'.approval_extra_tokens ≡ 0)
        × (is_zero b'.approval_extra_cost_usd ≡ true)
        × (b'.max_approvals ≡ 0)
  unfolding fill_on_exceeded
  stops c b' e stop = ground arith

  waits :
      (b b' : BudgetConfig d)
      → ((x : d.Usd) → is_pos x ≡ true → is_zero x ≡ false)
      → IsNat64 b.max_tokens
      → fill_on_exceeded d is_neg is_zero
          (record b { on_exceeded = default_action d is_neg is_zero b.on_exceeded })
        ≡ inl b'
      → ((b'.on_exceeded ≡ stop_run) ⊎ (b'.on_exceeded ≡ wait_for_approval))
        × (b'.on_exceeded ≡ wait_for_approval → 0 < b'.max_tokens → 0 < b'.approval_extra_tokens)
        × (b'.on_exceeded ≡ wait_for_approval
            → is_pos b'.max_cost_usd ≡ true
            → is_zero b'.approval_extra_cost_usd ≡ false)
  unfolding fill_on_exceeded
  waits b b' pos tokens_small e = let p = pos b.max_cost_usd in ground (arith, p)

  passes :
      (b b' : BudgetConfig d)
      → validate_budget d is_neg is_zero b ≡ inl b'
      → (check_amounts d is_neg is_zero b ≡ none)
        × (fill_on_exceeded d is_neg is_zero
              (record b { on_exceeded = default_action d is_neg is_zero b.on_exceeded })
            ≡ inl b')
  unfolding validate_budget
  passes b b' e = elim (Option-cases (check_amounts d is_neg is_zero b)) [
    | inl ok ↦ (ok, ground arith)
    | inr (x, bad) ↦ ground arith
  ]

  fill-again :
      (c b' : BudgetConfig d)
      → ((x : d.Usd) → is_pos x ≡ true → is_zero x ≡ false)
      → fill_on_exceeded d is_neg is_zero c ≡ inl b'
      → fill_on_exceeded d is_neg is_zero b' ≡ inl b'
  unfolding fill_on_exceeded
  fill-again c b' pos e = let p = pos c.max_cost_usd in ground (arith, p)

  check_amounts-filled :
      (c b' : BudgetConfig d)
      → check_amounts d is_neg is_zero c ≡ none
      → fill_on_exceeded d is_neg is_zero c ≡ inl b'
      → check_amounts d is_neg is_zero b' ≡ none
  unfolding check_amounts fill_on_exceeded
  check_amounts-filled c b' ok e = ground arith

  accepts :
      (b : BudgetConfig d)
      → check_amounts d is_neg is_zero b ≡ none
      → default_action d is_neg is_zero b.on_exceeded ≡ b.on_exceeded
      → fill_on_exceeded d is_neg is_zero b ≡ inl b
      → validate_budget d is_neg is_zero b ≡ inl b
  unfolding validate_budget
  accepts b ok same filled =
      let settled : record b { on_exceeded = default_action d is_neg is_zero b.on_exceeded } ≡ b =
        ap (λ a. record b { on_exceeded = a }) same in
      rw (ok, validate_budget) (ap (fill_on_exceeded d is_neg is_zero) settled ∙ filled)

  -- A budget that validateBudget accepts has no negative field, a known action, a limit, rates for a
  -- limit on cost, neither extras nor MaxApprovals if a run stops, and, if a run waits for approvals,
  -- more tokens or more money for each of them; the configuration that it leaves behind is accepted
  -- again and stays as it is, where the numbers are 64-bit and a positive amount is not zero.
  pub validate_budget-Usable :
      (b b' : BudgetConfig d)
      → b.max_tokens < 2 ^ 64
      → b.approval_extra_tokens < 2 ^ 64
      → b.max_approvals < 2 ^ 64
      → ((x : d.Usd) → is_pos x ≡ true → is_zero x ≡ false)
      → validate_budget d is_neg is_zero b ≡ inl b'
      → Usable b' × (validate_budget d is_neg is_zero b' ≡ inl b')
  unfolding check_amounts
  validate_budget-Usable b b' s1 s2 s3 pos e =
      let (ok, filled) = passes b b' e in
      let c : BudgetConfig d = record b {
        on_exceeded = default_action d is_neg is_zero b.on_exceeded;
      } in
      let ok' = check_amounts-filled c b' ok filled in
      let (l1, l2, l3) = sizes c b' filled s1 s2 s3 in
      let (n1, n2, n3) = small b' l1 l2 l3 ok' in
      let (max_cost, prompt, completion, extra_cost, limited, priced) = amounts b' ok' in
      let (known, tokens, cost) = waits b b' pos (small b s1 s2 s3 ok).0 filled in
      let usable : Usable b' = record {
        known = known;
        tokens_small = n1;
        extra_small = n2;
        approvals_small = n3;
        max_cost_given = max_cost;
        prompt_rate_given = prompt;
        completion_rate_given = completion;
        extra_cost_given = extra_cost;
        no_extra_tokens = λ s. (stops c b' filled s).0;
        no_extra_cost = λ s. (stops c b' filled s).1;
        no_approvals = λ s. (stops c b' filled s).2;
        limited = limited;
        priced = priced;
        more_tokens = tokens;
        more_cost = cost;
      } in
      let settled : default_action d is_neg is_zero b'.on_exceeded ≡ b'.on_exceeded = elim known [
        | inl s ↦ rw s refl
        | inr w ↦ rw w refl
      ] in
      (usable, accepts b' ok' settled (fill-again c b' pos filled))
