-- ===== src/CircuitBreaker/Trips.antt =====
-- A tripped tool stays skipped until ResetAfter has passed.
use agent_sdk_go.Prelude.{
  ◌≡◌, refl, ◌∙◌, ap, true, some, List, [], ◌∷◌, String, string_eq, arith, beq_iff, inl, inr, not,
}
use agent_sdk_go.Prelude.GoMap
use agent_sdk_go.CircuitBreaker.{
  Host, CircuitBreaker, CircuitBreakerToolState, zero_tool_state, tool_state, enabled, is_tripped,
  reset_due,
}
use agent_sdk_go.CircuitBreaker.Window.{
  Report, report, run, report_cases, run-cfg, tool_state-insert,
}

module _ (host : Host) where
  report_tripped :
      (c : CircuitBreaker) (r : Report host) (name : String)
      → (tool_state c name).tripped ≡ true
      → tool_state (report host c r) name ≡ tool_state c name
  report_tripped c r name t = elim (report_cases host c r) [
    | inl q ↦ rw q
    | inr (st, q, inl p) ↦
        rw (q, tool_state-insert c r.name name st) (ground (arith, beq_iff r.name name))
    | inr (st, q, inr (open_, _)) ↦
        rw (q, tool_state-insert c r.name name st) (ground (arith, beq_iff r.name name))
  ]

  pub run_tripped :
      (c : CircuitBreaker) (rs : List (Report host)) (name : String)
      → (tool_state c name).tripped ≡ true
      → tool_state (run host c rs) name ≡ tool_state c name
  run_tripped c [] name t = refl
  run_tripped c (r ∷ rs) name t =
      let e = report_tripped c r name t in
      run_tripped (report host c r) rs name (ap (λ (s : CircuitBreakerToolState). s.tripped) e ∙ t)
      ∙ e

  skips :
      (c : CircuitBreaker) (name : String) (now : host.Time)
      → enabled c ≡ true
      → (tool_state c name).tripped ≡ true
      → (is_tripped host (some c) name now).1 ≡ not (reset_due host c.cfg (tool_state c name) now)
  unfolding is_tripped
  skips c name now on t = ground arith

  forgets :
      (c : CircuitBreaker) (name : String) (now : host.Time)
      → enabled c ≡ true
      → (tool_state c name).tripped ≡ true
      → reset_due host c.cfg (tool_state c name) now ≡ true
      → (c' : CircuitBreaker) × ((is_tripped host (some c) name now).0 ≡ some c')
        × (tool_state c' name ≡ zero_tool_state)
  unfolding is_tripped
  forgets c name now on t due = (
    record c { tools = GoMap.delete name c.tools },
    ground arith,
    ground (arith, GoMap.lookup-delete name name c.tools, beq_iff name name),
  )

  enabled-run :
      (c : CircuitBreaker) (rs : List (Report host))
      → enabled c ≡ true
      → enabled (run host c rs) ≡ true
  unfolding enabled
  enabled-run c rs on = rw (run-cfg host c rs) on

  -- Once a tool has tripped, no sequence of results, of that tool or of others, failures or
  -- successes, changes its entry; IsTripped then skips it exactly until the reset is due, and on a
  -- due reset forgets the entry, so that the tool starts afresh.
  pub trip_persists :
      (c : CircuitBreaker) (rs : List (Report host)) (name : String) (now : host.Time)
      → enabled c ≡ true
      → (tool_state c name).tripped ≡ true
      → let d = run host c rs in
        (tool_state d name ≡ tool_state c name)
        × ((is_tripped host (some d) name now).1
            ≡ not (reset_due host c.cfg (tool_state c name) now))
        × (reset_due host c.cfg (tool_state c name) now ≡ true
            → (c' : CircuitBreaker) × ((is_tripped host (some d) name now).0 ≡ some c')
              × (tool_state c' name ≡ zero_tool_state))
  trip_persists c rs name now on t =
      let d : CircuitBreaker = run host c rs in
      let e : tool_state d name ≡ tool_state c name = run_tripped c rs name t in
      let on' : enabled d ≡ true = enabled-run c rs on in
      let t' : (tool_state d name).tripped ≡ true = rw e t in
      let f : d.cfg ≡ c.cfg = run-cfg host c rs in
      (e, cc (skips d name now on' t'), λ due. forgets d name now on' t' (rw (f, e) due))
