-- ===== src/Loop/Gate.antt =====
-- The budget gate of internal/runtime/local/agent_loop.go: checkBudget, enforceBudgetIfExceeded,
-- applyBudgetExceeded and awaitBudgetApprovalStatus, without a durable step runner.
pub mod Approvals
pub mod Calls
mod Examples
use agent_sdk_go.Prelude.{
  ℕ, Bool, true, false, not, ◌&&◌, Option, none, some, List, [], ◌∷◌, String, string_eq, ◌==◌,
  if◌then◌else◌,
}
use agent_sdk_go.Budget
use agent_sdk_go.Budget.{
  LlmUsage, BudgetTracker, BudgetExceededError, BudgetExceededAction, stop_run, wait_for_approval,
}
use agent_sdk_go.Retry.{approval_task_timeout}
use agent_sdk_go.Agent.{
  ApprovalStatus, approved, rejected, unavailable, timed_out, GoError, AgentTelemetry,
  budget_exceeded,
}
use agent_sdk_go.Loop.{
  Host, State, LocalRuntime, AgentLoopInput, Event, ApprovalWait, answered, cancelled, timer_fired,
  budget_approval, publish_event_to_channel,
}

module _ (h : Host) where
  open h use {W, circuit, dollars, Handler, trim, sprintf, budget_text}

  call_budget_handler : LocalRuntime h → Option Handler → Event circuit.Args → W → W
  call_budget_handler rt none ev w = w
  call_budget_handler rt (some handler) ev w =
      h.call_handler handler ev (approval_task_timeout rt.approval_timeout) w

  -- Without a timer `timer_fired` does not happen; it is read as the context's end.
  abbrev wait_status : ApprovalWait → ApprovalStatus
  wait_status (answered status) = status
  wait_status (cancelled err) = rejected
  wait_status timer_fired = rejected

  -- The wait itself, once someone can answer.
  wait_budget_answer :
      LocalRuntime h → AgentLoopInput h → String → State h → ApprovalStatus × State h
  unfolding call_budget_handler
  wait_budget_answer rt input detail s =
      let (tokens, cost) = Budget.totals dollars s.tracker in
      let (token, w₁) = h.uuid s.w in
      let ev : Event circuit.Args = budget_approval rt.agent_name detail tokens token in
      let s₂ =
        publish_event_to_channel h input.channel_name ev
          (record s { w = h.store_pending token w₁ }) in
      let w₃ = call_budget_handler rt input.approval_handler ev s₂.w in
      let (answer, w₄) = h.await_answer token none w₃ in
      (wait_status answer, record s₂ { w = h.delete_pending token w₄ })

  unfoldable pub await_budget_approval_status :
      LocalRuntime h → AgentLoopInput h → String → State h → ApprovalStatus × State h
  unfolding wait_budget_answer
  await_budget_approval_status rt input detail s =
      let answer = wait_budget_answer rt input detail s in
      elim input.approval_handler [
        | none ↦ if trim input.channel_name == "" then (unavailable, s) else answer
        | some handler ↦ answer
      ]

  -- The action of the configuration; an empty one is to stop.
  unfoldable pub budget_action : LocalRuntime h → BudgetExceededAction
  budget_action rt = elim rt.budget [
    | none ↦ stop_run
    | some cfg ↦ elim cfg.on_exceeded [ BudgetExceededAction.unset ↦ stop_run | a ↦ a ]
  ]

  abbrev pub waits : BudgetExceededAction → Bool
  waits wait_for_approval = true
  waits _ = false

  -- A stopped run: the finish reason and the error.
  abbrev pub stopped : AgentTelemetry → String → Bool → Option GoError × AgentTelemetry
  stopped telemetry text is_exceeded = (
    some (record { text = text; is_budget_exceeded = is_exceeded }),
    record telemetry { run = record (telemetry.run) { finish_reason = budget_exceeded } },
  )

  -- What follows the answer to the approval request.
  settle :
      ApprovalStatus
      → String
      → AgentTelemetry
      → State h
      → (Option GoError × AgentTelemetry) × State h
  settle approved detail telemetry s =
      ((none, telemetry), record s { tracker = (Budget.advance_watermark dollars s.tracker).0 })
  settle unavailable detail telemetry s = (
    stopped telemetry
        (sprintf "%w: %s"
          ("agent: budget approval unavailable (stream not connected)" ∷ detail ∷ []))
        false,
    s,
  )
  settle _ detail telemetry s = (
    stopped telemetry (sprintf "%w: %w" ("agent: per-run budget exceeded" ∷ detail ∷ [])) true,
    s,
  )

  -- BudgetTracker.ApprovalCount
  unfoldable pub approval_count : Option (BudgetTracker dollars) → ℕ
  approval_count none = 0
  approval_count (some t) = t.approval_count

  unfoldable pub apply_budget_exceeded :
      LocalRuntime h
      → AgentLoopInput h
      → AgentTelemetry
      → BudgetExceededError dollars
      → State h
      → (Option GoError × AgentTelemetry) × State h
  unfolding settle approval_count
  apply_budget_exceeded rt input telemetry e s =
      let action = budget_action rt in
      let exhausted = waits action && Budget.approvals_exhausted dollars s.tracker in
      let detail = budget_text e in
      let w₁ =
        h.on_budget_exceeded input.run_id e action (approval_count s.tracker) exhausted s.w in
      let s₁ = record s { w = w₁ } in
      let (status, s₂) = await_budget_approval_status rt input detail s₁ in
      if waits action && not exhausted then settle status detail telemetry s₂ else (
        stopped telemetry (sprintf "%w: %w" ("agent: per-run budget exceeded" ∷ detail ∷ [])) true,
        s₁,
      )

  -- The parts of checkBudget after the Add, for a root run and for a sub-agent.
  after_add :
      LocalRuntime h
      → AgentLoopInput h
      → AgentTelemetry
      → Option (BudgetExceededError dollars)
      → State h
      → (Option GoError × AgentTelemetry) × State h
  after_add rt input telemetry none s = ((none, telemetry), s)
  after_add rt input telemetry (some e) s =
      if input.enforce_budget then apply_budget_exceeded rt input telemetry e s else (
        (
          some (record {
            text = sprintf "%w: %s" ("agent: per-run budget exceeded" ∷ budget_text e ∷ []);
            is_budget_exceeded = true;
          }),
          telemetry,
        ),
        s,
      )

  unfoldable pub check_budget :
      LocalRuntime h
      → AgentLoopInput h
      → AgentTelemetry
      → Option LlmUsage
      → State h
      → (Option GoError × AgentTelemetry) × State h
  unfolding after_add
  check_budget rt input telemetry usage s =
      let (tracker, e) = Budget.add dollars s.tracker usage in
      after_add rt input telemetry e (record s { tracker = tracker })

  unfoldable pub enforce_budget_if_exceeded :
      LocalRuntime h
      → AgentLoopInput h
      → AgentTelemetry
      → State h
      → (Option GoError × AgentTelemetry) × State h
  enforce_budget_if_exceeded rt input telemetry s =
      if not input.enforce_budget
      then ((none, telemetry), s)
      else elim (Budget.check dollars s.tracker) [
        | none ↦ ((none, telemetry), s)
        | some e ↦ apply_budget_exceeded rt input telemetry e s
      ]
