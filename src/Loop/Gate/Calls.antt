-- ===== src/Loop/Gate/Calls.antt =====
-- The gate leaves the count of calls of the model alone.
use agent_sdk_go.Prelude.{
  ℕ, ◌≡◌, inl, inr, refl, Option, none, some, String, arith, if_keeps, Option-cases,
}
use agent_sdk_go.Budget
use agent_sdk_go.Budget.{LlmUsage, BudgetExceededError}
use agent_sdk_go.Agent.{
  GoError, AgentTelemetry, ApprovalStatus, no_status, pending, approved, rejected, unavailable,
  timed_out, other_status,
}
use agent_sdk_go.Loop.{Host, State, LocalRuntime, AgentLoopInput}
use agent_sdk_go.Loop.Gate.{
  settle, apply_budget_exceeded, after_add, check_budget, enforce_budget_if_exceeded,
}

abbrev pub calls_in : AgentTelemetry → ℕ
calls_in t = t.run.total_llm_calls

module _ (h : Host) where
  settle-calls :
      (status : ApprovalStatus) (detail : String) (t : AgentTelemetry) (s : State h)
      → calls_in (settle h status detail t s).0.1 ≡ calls_in t
  unfolding settle
  settle-calls approved detail t s = refl
  settle-calls unavailable detail t s = refl
  settle-calls no_status detail t s = refl
  settle-calls pending detail t s = refl
  settle-calls rejected detail t s = refl
  settle-calls timed_out detail t s = refl
  settle-calls other_status detail t s = refl

  apply_budget-calls :
      (rt : LocalRuntime h) (input : AgentLoopInput h) (t : AgentTelemetry)
      (e : BudgetExceededError h.dollars) (s : State h)
      → calls_in (apply_budget_exceeded h rt input t e s).0.1 ≡ calls_in t
  unfolding apply_budget_exceeded
  apply_budget-calls rt input t e s =
      if_keeps (λ (r : (Option GoError × AgentTelemetry) × State h). calls_in r.0.1 ≡ calls_in t) _
        (settle-calls _ _ t _) refl

  after_add-calls :
      (rt : LocalRuntime h) (input : AgentLoopInput h) (t : AgentTelemetry)
      (e : Option (BudgetExceededError h.dollars)) (s : State h)
      → calls_in (after_add h rt input t e s).0.1 ≡ calls_in t
  unfolding after_add
  after_add-calls rt input t none s = refl
  after_add-calls rt input t (some e) s =
      if_keeps (λ (r : (Option GoError × AgentTelemetry) × State h). calls_in r.0.1 ≡ calls_in t) _
        (apply_budget-calls rt input t e s) refl

  pub check_budget-calls :
      (rt : LocalRuntime h) (input : AgentLoopInput h) (t : AgentTelemetry) (u : Option LlmUsage)
      (s : State h)
      → calls_in (check_budget h rt input t u s).0.1 ≡ calls_in t
  unfolding check_budget
  check_budget-calls rt input t u s = after_add-calls rt input t _ _

  pub enforce-calls :
      (rt : LocalRuntime h) (input : AgentLoopInput h) (t : AgentTelemetry) (s : State h)
      → calls_in (enforce_budget_if_exceeded h rt input t s).0.1 ≡ calls_in t
  unfolding enforce_budget_if_exceeded
  enforce-calls rt input t s = elim (Option-cases (Budget.check h.dollars s.tracker)) [
    | inl fine ↦ ground (arith, fine)
    | inr (e, found) ↦
        let applied = apply_budget-calls rt input t e s in ground (arith, found, applied)
  ]
