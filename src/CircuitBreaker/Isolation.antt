-- ===== src/CircuitBreaker/Isolation.antt =====
-- A tool's entry is touched by its own results alone, and survives persisting.
use agent_sdk_go.Prelude.{
  ◌≡◌, ◌≢◌, refl, ◌∙◌, true, some, List, [], ◌∷◌, String, string_eq, arith, beq_iff, All, inl, inr,
}
use agent_sdk_go.Prelude.GoMap
use agent_sdk_go.Prelude.GoMap.{GoMap}
use agent_sdk_go.CircuitBreaker.{
  Host, CircuitBreaker, CircuitBreakerToolState, tool_state, copy_tools, state, restore,
  new_circuit_breaker, new_circuit_breaker_from_state, enabled,
}
use agent_sdk_go.CircuitBreaker.Window.{Report, report, run, report_cases, tool_state-insert}

module _ (host : Host) where
  report-other :
      (c : CircuitBreaker) (r : Report host) (name : String)
      → r.name ≢ name
      → tool_state (report host c r) name ≡ tool_state c name
  report-other c r name ne = elim (report_cases host c r) [
    | inl q ↦ rw q
    | inr (st, q, _) ↦
        rw (q, tool_state-insert c r.name name st) (ground (arith, beq_iff r.name name))
  ]

  -- Results of other tools, however many, leave a tool's entry as it was.
  pub run-other :
      (c : CircuitBreaker) (rs : List (Report host)) (name : String)
      → All (λ (r : Report host). r.name ≢ name) rs
      → tool_state (run host c rs) name ≡ tool_state c name
  run-other c [] name h = refl
  run-other c (r ∷ rs) name h = run-other (report host c r) rs name h.1 ∙ report-other c r name h.0

lookup-copy_tools :
    (m : GoMap String CircuitBreakerToolState) (name : String)
    → GoMap.lookup name (copy_tools m) ≡ GoMap.lookup name m
unfolding copy_tools GoMap.lookup
lookup-copy_tools [] name = refl
lookup-copy_tools ((k, v) ∷ m) name =
    ground (arith, GoMap.lookup-insert k name v (copy_tools m), lookup-copy_tools m name)

-- A tracker rebuilt from the state that State persisted, under the configuration that it had, has
-- that configuration and the entry of every tool.
restore-state :
    (c : CircuitBreaker)
    → enabled c ≡ true
    → (c' : CircuitBreaker) × (new_circuit_breaker_from_state (some c.cfg) (state (some c))
        ≡ some c')
      × (c'.cfg ≡ c.cfg)
      × ((name : String) → tool_state c' name ≡ tool_state c name)
unfolding new_circuit_breaker_from_state new_circuit_breaker state restore enabled
restore-state c on = (
  record { cfg = c.cfg; tools = copy_tools (copy_tools c.tools) },
  ground arith,
  refl,
  λ name.
      ground (arith, lookup-copy_tools (copy_tools c.tools) name, lookup-copy_tools c.tools name),
)
