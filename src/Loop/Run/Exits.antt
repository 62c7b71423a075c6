-- ===== src/Loop/Run/Exits.antt =====
-- What the end of a round leaves: the bound, and the calls of the model counted.
use agent_sdk_go.Prelude.{
  ℕ, ◌≡◌, ◌⊎◌, inl, inr, refl, Option, none, some, List, [], ◌∷◌, ◌++◌, String, arith, if_nil_keeps,
  ⊎-cases,
}
use agent_sdk_go.CircuitBreaker
use agent_sdk_go.Agent.{ToolCallRequest, LlmResult, GoError, AgentTelemetry}
use agent_sdk_go.Loop.{Host, State, LocalRuntime, AgentLoopInput, AgentLoopResult, ToolResult}
use agent_sdk_go.Loop.Gate.{enforce_budget_if_exceeded}
use agent_sdk_go.Loop.Gate.Calls.{calls_in, enforce-calls}
use agent_sdk_go.Loop.Rounds.{
  RoundState, Exit, again, finished, returned, apply_results, count_tool, save_iteration,
  assistant_message,
}
use agent_sdk_go.Loop.Round.{gated, run_tools, after_results, tools_round}

module _ (h : Host) where
  -- The bound, whether it was extended, and the calls counted.
  pub record Same (rs rs' : RoundState h) : Type 0 where
    pub same_max : rs'.max_iter ≡ rs.max_iter
    pub same_extended : rs'.extended ≡ rs.extended
    pub same_calls : calls_in rs'.telemetry ≡ calls_in rs.telemetry

  pub apply_results-Same :
      (input : AgentLoopInput h) (tcs : List (ToolCallRequest h.circuit.Args))
      (results : List (ToolResult h)) (rs : RoundState h) (s : State h)
      → Same rs (apply_results h input tcs results rs s).0
  unfolding apply_results count_tool
  apply_results-Same input [] [] rs s = record {
    same_max = refl;
    same_extended = refl;
    same_calls = refl;
  }
  apply_results-Same input [] (r ∷ results) rs s = record {
    same_max = refl;
    same_extended = refl;
    same_calls = refl;
  }
  apply_results-Same input (tc ∷ tcs) [] rs s = record {
    same_max = refl;
    same_extended = refl;
    same_calls = refl;
  }
  apply_results-Same input (tc ∷ tcs) (r ∷ results) rs s =
      let rest = apply_results-Same input tcs results _ _ in
      record {
        same_max = rest.same_max;
        same_extended = rest.same_extended;
        same_calls = rest.same_calls;
      }

  pub save_iteration-Same :
      (rt : LocalRuntime h) (input : AgentLoopInput h) (rs : RoundState h) (s : State h)
      → Same rs (save_iteration h rt input rs s).0
  unfolding save_iteration
  save_iteration-Same rt input rs s = ground arith

  -- What an exit carries: the state of the next round, of the end, or of a return.
  abbrev pub Exits : (A F R : RoundState h → Type 0) → Exit h → Type 0
  Exits A F R (again rs) = A rs
  Exits A F R (finished rs) = F rs
  Exits A F R (returned none e) = Unit
  Exits A F R (returned (some rs) e) = R rs

  -- An exit with what it carries.
  pub Exits-cases :
      (A F R : RoundState h → Type 0) (x : Exit h)
      → Exits A F R x
      → ((rs : RoundState h) × (x ≡ again rs) × A rs)
        ⊎ ((rs : RoundState h) × (x ≡ finished rs) × F rs)
        ⊎ ((e : GoError) × (x ≡ returned none e))
        ⊎ ((rs : RoundState h) × (e : GoError) × (x ≡ returned (some rs) e) × R rs)
  Exits-cases A F R (again rs) q = inl (rs, refl, q)
  Exits-cases A F R (finished rs) q = inr (inl (rs, refl, q))
  Exits-cases A F R (returned none e) q = inr (inr (inl (e, refl)))
  Exits-cases A F R (returned (some rs) e) q = inr (inr (inr (rs, e, refl, q)))

  pub gated-Exits :
      (A F R : RoundState h → Type 0) (g : (Option GoError × AgentTelemetry) × State h)
      (rs : RoundState h) (go : RoundState h → State h → Exit h × State h)
      → R (record rs { telemetry = g.0.1 })
      → Exits A F R (go (record rs { telemetry = g.0.1 }) g.1).0
      → Exits A F R (gated h g rs go).0
  unfolding gated
  gated-Exits A F R ((err, t), s) rs go stop on =
      if_nil_keeps (λ (x : Exit h × State h). Exits A F R x.0) err on (λ e. stop)

  pub Same-trans : (a b c : RoundState h) → Same a b → Same b c → Same a c
  Same-trans a b c p q = ground (arith, p, q)

  pub Exits-from :
      (a b : RoundState h)
      → Same a b
      → (x : Exit h) → Exits (Same b) (Same b) (Same b) x
      → Exits (Same a) (Same a) (Same a) x
  Exits-from a b p (again rs) q = Same-trans a b rs p q
  Exits-from a b p (finished rs) q = Same-trans a b rs p q
  Exits-from a b p (returned none e) q = tt
  Exits-from a b p (returned (some rs) e) q = Same-trans a b rs p q

  module _
      (delegate : LocalRuntime h
        → AgentLoopInput h
        → Option ℕ
        → State h
        → (AgentLoopResult h ⊎ GoError) × State h)
      (rt : LocalRuntime h) where
    pub after_results-Exits :
        (input : AgentLoopInput h) (rs : RoundState h) (s : State h)
        → Exits (Same rs) (Same rs) (Same rs) (after_results h delegate rt input rs s).0
    unfolding after_results
    after_results-Exits input rs s =
        let s₁ : State h = record s {
          breaker = CircuitBreaker.restore s.breaker (CircuitBreaker.state s.breaker);
        } in
        let g = enforce_budget_if_exceeded h rt input rs.telemetry s₁ in
        let rs₁ : RoundState h = record rs { telemetry = g.0.1 } in
        let q = enforce-calls h rt input rs.telemetry s₁ in
        let same : Same rs rs₁ = record { same_max = refl; same_extended = refl; same_calls = q } in
        let saved = save_iteration-Same rt input rs₁ g.1 in
        gated-Exits (Same rs) (Same rs) (Same rs) g rs
          (λ rs' s'. let (rs'', s'') = save_iteration h rt input rs' s' in (again rs'', s'')) same
          (Same-trans rs rs₁ _ same saved)

    pub tools_round-Exits :
        (input : AgentLoopInput h) (id : String) (result : LlmResult h.circuit.Args)
        (rs : RoundState h) (s : State h)
        → Exits (Same rs) (Same rs) (Same rs) (tools_round h delegate rt input id result rs s).0
    unfolding tools_round
    tools_round-Exits input id result rs s =
        elim (⊎-cases (run_tools h delegate rt input id result.tool_calls s)) [
          | inr (e, bad) ↦ rw (bad, tools_round) tt
          | inl ((results, s₁), good) ↦
              let rs₁ : RoundState h = record rs {
                messages = rs.messages ++ assistant_message h result ∷ [];
              } in
              let x = apply_results h input result.tool_calls results rs₁ s₁ in
              let applied = apply_results-Same input result.tool_calls results rs₁ s₁ in
              let end = after_results-Exits input x.0 x.1 in
              rw (good, tools_round)
                (Exits-from rs x.0
                  (record {
                    same_max = applied.same_max;
                    same_extended = applied.same_extended;
                    same_calls = applied.same_calls;
                  })
                  _ end)
        ]
