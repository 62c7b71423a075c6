-- ===== src/Loop/Gate/Approvals.antt =====
-- What a run may go on with: a budget breach is passed only by an approval, and approvals are
-- limited.
use agent_sdk_go.Prelude.{
  ℕ, ◌≤◌, ◌<◌, ◌^◌, ◌≡◌, ◌⊎◌, inl, inr, refl, true, false, not, ◌&&◌, Option, none, some, List, [],
  ◌∷◌, String, arith, IsNat64, lt64, Option-cases, if◌then◌else◌, if_keeps, if_nil, if_nil_keeps,
  subst,
}
use agent_sdk_go.Budget
use agent_sdk_go.Budget.{
  LlmUsage, BudgetConfig, BudgetTracker, BudgetExceededError, wait_for_approval, new_budget_tracker,
  accumulate, default_max_approvals,
}
use agent_sdk_go.Agent.{
  ApprovalStatus, no_status, pending, approved, rejected, unavailable, timed_out, other_status,
  GoError, AgentTelemetry, budget_exceeded,
}
use agent_sdk_go.Loop.{Host, State, LocalRuntime, AgentLoopInput, publish_event_to_channel}
use agent_sdk_go.Loop.Gate.{
  wait_budget_answer, await_budget_approval_status, budget_action, waits, settle, approval_count,
  apply_budget_exceeded, after_add, check_budget, enforce_budget_if_exceeded,
}

module _ (h : Host) where
  await-tracker :
      (rt : LocalRuntime h) (input : AgentLoopInput h) (detail : String) (s : State h)
      → (await_budget_approval_status h rt input detail s).1.tracker ≡ s.tracker
  unfolding await_budget_approval_status wait_budget_answer publish_event_to_channel
  await-tracker rt input detail s = ground arith

  -- A breach ends in an approval, which was still allowed and opens a new window, or in an error.
  abbrev pub Passed : Option (BudgetTracker h.dollars) → Option (BudgetTracker h.dollars) → Type 0
  Passed before after =
      (Budget.approvals_exhausted h.dollars before ≡ false)
      × (after ≡ (Budget.advance_watermark h.dollars before).0)

  settled :
      (status : ApprovalStatus) (detail : String) (telemetry : AgentTelemetry) (s : State h)
      → let r = settle h status detail telemetry s in
        ((r.0.0 ≡ none) × (r.1.tracker ≡ (Budget.advance_watermark h.dollars s.tracker).0))
        ⊎ ((e : GoError) × (r.0.0 ≡ some e)
            × (r.1.tracker ≡ s.tracker)
            × (r.0.1.run.finish_reason ≡ budget_exceeded))
  unfolding settle
  settled approved detail telemetry s = inl (refl, refl)
  settled no_status detail telemetry s = inr (_, refl, refl, refl)
  settled pending detail telemetry s = inr (_, refl, refl, refl)
  settled rejected detail telemetry s = inr (_, refl, refl, refl)
  settled unavailable detail telemetry s = inr (_, refl, refl, refl)
  settled timed_out detail telemetry s = inr (_, refl, refl, refl)
  settled other_status detail telemetry s = inr (_, refl, refl, refl)

  abbrev Reply : Type 0
  Reply = (Option GoError × AgentTelemetry) × State h

  abbrev Applied : LocalRuntime h → State h → (Option GoError × AgentTelemetry) × State h → Type 0
  Applied rt s r =
      ((r.0.0 ≡ none) × (waits h (budget_action h rt) ≡ true) × Passed s.tracker r.1.tracker)
      ⊎ ((e : GoError) × (r.0.0 ≡ some e)
          × (r.1.tracker ≡ s.tracker)
          × (r.0.1.run.finish_reason ≡ budget_exceeded))

  applied :
      (rt : LocalRuntime h) (input : AgentLoopInput h) (telemetry : AgentTelemetry)
      (e : BudgetExceededError h.dollars) (s : State h)
      → Applied rt s (apply_budget_exceeded h rt input telemetry e s)
  unfolding apply_budget_exceeded
  applied rt input telemetry e s =
      let action = budget_action h rt in
      let exhausted = waits h action && Budget.approvals_exhausted h.dollars s.tracker in
      let w₁ =
        h.on_budget_exceeded input.run_id e action (approval_count h s.tracker) exhausted s.w in
      let s₁ : State h = record s { w = w₁ } in
      let a = await_budget_approval_status h rt input (h.budget_text e) s₁ in
      let kept = await-tracker rt input (h.budget_text e) s₁ in
      ground (arith, settled a.0 (h.budget_text e) telemetry a.1, kept)

  -- When the check after an LLM call gives no error, the Add reported no breach and left the tracker
  -- it returned, or the run is a root run whose action is to wait, and an approval that was not yet
  -- used up is recorded and opens a new window.
  pub check_budget_passes :
      (rt : LocalRuntime h) (input : AgentLoopInput h) (telemetry : AgentTelemetry)
      (usage : Option LlmUsage) (s : State h)
      → let r = check_budget h rt input telemetry usage s in
        let (tracker, breach) = Budget.add h.dollars s.tracker usage in
        r.0.0 ≡ none
        → ((breach ≡ none) × (r.1.tracker ≡ tracker))
          ⊎ ((input.enforce_budget ≡ true)
              × (waits h (budget_action h rt) ≡ true)
              × Passed tracker r.1.tracker)
  unfolding check_budget after_add
  check_budget_passes rt input telemetry usage s ok =
      let (tracker, breach) = Budget.add h.dollars s.tracker usage in
      let s₁ : State h = record s { tracker = tracker } in
      elim (Option-cases breach) [
        | inl none_left ↦ inl (none_left, ground arith)
        | inr (e, found) ↦
            let a = applied rt input telemetry e s₁ in inr (ground (arith, a, found, ok))
      ]

  pub data GateCall : Type 0 where
    check_call : (usage : Option LlmUsage) → GateCall
    enforce_call : GateCall

  abbrev pub pass_gate :
      LocalRuntime h
      → AgentLoopInput h
      → AgentTelemetry
      → State h
      → GateCall
      → (Option GoError × AgentTelemetry) × State h
  pass_gate rt input telemetry s (check_call usage) = check_budget h rt input telemetry usage s
  pass_gate rt input telemetry s enforce_call = enforce_budget_if_exceeded h rt input telemetry s

  -- The gates of a run, which ends at the first error.
  abbrev pub pass_gates :
      LocalRuntime h
      → AgentLoopInput h
      → AgentTelemetry
      → State h
      → List GateCall
      → (Option GoError × AgentTelemetry) × State h
  pass_gates rt input telemetry s [] = ((none, telemetry), s)
  pass_gates rt input telemetry s (c ∷ cs) =
      let ((err, telemetry'), s') = pass_gate rt input telemetry s c in
      let rest = pass_gates rt input telemetry' s' cs in
      if_nil err rest (λ e. ((some e, telemetry'), s'))

  -- At most as many approvals as the configuration allows.
  abbrev pub Limited : ℕ → Option (BudgetTracker h.dollars) → Type 0
  Limited m none = Unit
  Limited m (some t) = IsNat64 m × (t.effective_max_approval ≡ m) × (t.approval_count ≤ m)

  Passed-Limited :
      (m : ℕ) (before after : Option (BudgetTracker h.dollars))
      → Passed before after
      → Limited m before
      → Limited m after
  unfolding Budget.approvals_exhausted Budget.advance_watermark
  Passed-Limited m none after p l = ground arith
  Passed-Limited m (some t) after p l = ground arith

  add-Limited :
      (m : ℕ) (t : Option (BudgetTracker h.dollars)) (u : Option LlmUsage)
      → Limited m t
      → Limited m (Budget.add h.dollars t u).0
  unfolding Budget.add accumulate
  add-Limited m none u l = tt
  add-Limited m (some t) none l = l
  add-Limited m (some t) (some u) l = l

  -- With no error or with one, what a call leaves.
  Applied-Limited :
      (m : ℕ) (rt : LocalRuntime h) (s : State h) (r : (Option GoError × AgentTelemetry) × State h)
      → Applied rt s r
      → Limited m s.tracker
      → Limited m r.1.tracker
  Applied-Limited m rt s r (inl (_, _, p)) l = Passed-Limited m s.tracker r.1.tracker p l
  Applied-Limited m rt s r (inr (e, _, same, _)) l = rw same l

  pass_gate-Limited :
      (m : ℕ) (rt : LocalRuntime h) (input : AgentLoopInput h) (telemetry : AgentTelemetry)
      (s : State h) (c : GateCall)
      → Limited m s.tracker
      → Limited m (pass_gate rt input telemetry s c).1.tracker
  unfolding check_budget after_add enforce_budget_if_exceeded
  pass_gate-Limited m rt input telemetry s (check_call usage) l =
      let (tracker, breach) = Budget.add h.dollars s.tracker usage in
      let s₁ : State h = record s { tracker = tracker } in
      let l₁ : Limited m tracker = add-Limited m s.tracker usage l in
      elim (Option-cases breach) [
        | inl none_left ↦ rw none_left l₁
        | inr (e, found) ↦
            let a =
              Applied-Limited m rt s₁ (apply_budget_exceeded h rt input telemetry e s₁)
                (applied rt input telemetry e s₁) l₁ in
            rw found (if_keeps (λ (r : Reply). Limited m r.1.tracker) input.enforce_budget a l₁)
      ]
  pass_gate-Limited m rt input telemetry s enforce_call l =
      if_keeps (λ (r : Reply). Limited m r.1.tracker) (not input.enforce_budget) l
        (elim (Option-cases (Budget.check h.dollars s.tracker)) [
          | inl fine ↦ rw fine l
          | inr (e, found) ↦ rw found (
              Applied-Limited m rt s (apply_budget_exceeded h rt input telemetry e s)
                (applied rt input telemetry e s) l)
        ])

  pass_gates-from :
      (m : ℕ) (rt : LocalRuntime h) (input : AgentLoopInput h) (telemetry : AgentTelemetry)
      (s : State h) (cs : List GateCall)
      → Limited m s.tracker
      → Limited m (pass_gates rt input telemetry s cs).1.tracker
  pass_gates-from m rt input telemetry s [] l = l
  pass_gates-from m rt input telemetry s (c ∷ cs) l =
      let r = pass_gate rt input telemetry s c in
      let l' = pass_gate-Limited m rt input telemetry s c l in
      let rest = pass_gates-from m rt input r.0.1 r.1 cs l' in
      if_nil_keeps (λ (x : Reply). Limited m x.1.tracker) r.0.0 rest (λ e. l')

  -- From a new tracker, whatever the calls of the gate are, the handlers answer and sub-agents add,
  -- a run records at most MaxApprovals approvals, or 5 if that is not positive.
  pub pass_gates-Limited :
      (rt : LocalRuntime h) (input : AgentLoopInput h) (telemetry : AgentTelemetry) (s : State h)
      (cfg : BudgetConfig h.dollars) (t : BudgetTracker h.dollars) (cs : List GateCall)
      → cfg.max_approvals < 2 ^ 64
      → s.tracker ≡ new_budget_tracker h.dollars (some cfg)
      → (pass_gates rt input telemetry s cs).1.tracker ≡ some t
      → t.approval_count
        ≤ (if lt64 0 cfg.max_approvals then cfg.max_approvals else default_max_approvals)
  unfolding new_budget_tracker
  pass_gates-Limited rt input telemetry s cfg t cs small new after =
      let m = if lt64 0 cfg.max_approvals then cfg.max_approvals else default_max_approvals in
      let start : Limited m s.tracker = rw new (ground arith) in
      (subst (Limited m) after (pass_gates-from m rt input telemetry s cs start)).2
