-- ===== src/Loop/Run/Rounding.antt =====
-- One round: one call of the model, or two when it is the last, and when the bound moves.
use agent_sdk_go.Prelude.{
  ℕ, ◌≤◌, ◌<◌, ◌^◌, ◌≡◌, ◌⊎◌, inl, inr, refl, sym, Bool, true, false, Option, none, some, String,
  arith, if◌then◌else◌, add64, sub64, nat_beq, length, Bool-cases, ⊎-cases, map, ap, ◌∙◌,
}
use agent_sdk_go.ErrorControl.{
  ErrorControlConfig, ErrorControlDecision, ErrorControlAction, extend_iterations, abort,
  fallback_model, continue_with_final_call, other_action, MaxIterationsInfo, decide_max_iterations,
  effective_max_iterations,
}
use agent_sdk_go.ErrorControl.Decisions.{decide_max_iterations-Allowed}
use agent_sdk_go.Agent.{LlmResult, GoError, merge_llm_usage}
use agent_sdk_go.Loop.{Host, State, LocalRuntime, AgentLoopInput, AgentLoopResult}
use agent_sdk_go.Loop.Gate.{check_budget}
use agent_sdk_go.Loop.Gate.Calls.{calls_in, check_budget-calls}
use agent_sdk_go.Loop.Rounds.{RoundState, Exit, again, finished, returned, Contexts, request}
use agent_sdk_go.Loop.Llm.{invoke_llm_with_error_control}
use agent_sdk_go.Loop.Round.{
  extends, count_call, finish, act, final_call, at_limit, after_llm, tick, round, last_tool_action,
}
use agent_sdk_go.Loop.Run.Exits.{Same, Exits, gated-Exits, tools_round-Exits}

extends_action : (a : ErrorControlAction) → extends a ≡ true → a ≡ extend_iterations
extends_action extend_iterations e = refl
extends_action abort e = cc
extends_action fallback_model e = cc
extends_action continue_with_final_call e = cc
extends_action other_action e = cc

module _ (h : Host) where
  -- The extra rounds that the user's hook asks for are a 64-bit number.
  abbrev pub WordHook : LocalRuntime h → Type 0
  WordHook rt =
      (c : ErrorControlConfig) (hook : MaxIterationsInfo → ErrorControlDecision)
      (info : MaxIterationsInfo)
      → rt.error_control ≡ some c
      → c.on_max_iterations_exceeded ≡ some hook
      → (hook info).extra_iterations < 2 ^ 64

  module _
      (delegate : LocalRuntime h
        → AgentLoopInput h
        → Option ℕ
        → State h
        → (AgentLoopResult h ⊎ GoError) × State h)
      (rt : LocalRuntime h) where
    -- The bound is extended by at least one round and at most as many as it had at first.
    pub record Longer (rs rs' : RoundState h) : Type 0 where
      pub extra : ℕ
      pub some_extra : 1 ≤ extra
      pub few_extra : extra ≤ effective_max_iterations (effective_max_iterations rt.max_iterations)
      pub longer : rs'.max_iter ≡ add64 rs.max_iter extra
      pub not_before : rs.extended ≡ false
      pub now_extended : rs'.extended ≡ true
      pub longer_calls : calls_in rs'.telemetry ≡ calls_in rs.telemetry

    -- No or one call more.
    abbrev pub MayCall : RoundState h → RoundState h → Type 0
    MayCall rs rs' =
        (calls_in rs'.telemetry ≡ calls_in rs.telemetry)
        ⊎ (calls_in rs'.telemetry ≡ add64 (calls_in rs.telemetry) 1)

    Exits-Longer :
        (a b : RoundState h)
        → Longer a b
        → (x : Exit h) → Exits h (Same h b) (Same h b) (Same h b) x
        → Exits h (Longer a) (MayCall a) (MayCall a) x
    Exits-Longer a b p (again rs) q = ground (arith, p, q)
    Exits-Longer a b p (finished rs) q = inl (q.same_calls ∙ p.longer_calls)
    Exits-Longer a b p (returned none e) q = tt
    Exits-Longer a b p (returned (some rs) e) q = inl (q.same_calls ∙ p.longer_calls)

    final_call-Exits :
        (A : RoundState h → Type 0) (input : AgentLoopInput h) (ctx : Contexts h) (iter : ℕ)
        (rs : RoundState h) (s : State h)
        → Exits h A (MayCall rs) (MayCall rs) (final_call h rt input ctx iter rs s).0
    unfolding final_call
    final_call-Exits A input ctx iter rs s =
        let (id, w₁) = h.uuid s.w in
        let call =
          invoke_llm_with_error_control h rt input (request h input ctx rs iter id true)
            rs.use_fallback (record s { w = w₁ }) in
        elim (⊎-cases call.0) [
          | inr (e, bad) ↦ rw (bad, final_call) tt
          | inl ((result, fb), good) ↦
              let q = check_budget-calls h rt input rs.telemetry result.usage call.1 in
              let g = check_budget h rt input rs.telemetry result.usage call.1 in
              rw (good, final_call)
                (gated-Exits h A (MayCall rs) (MayCall rs) g
                  (record rs { llm_usage = merge_llm_usage rs.llm_usage result.usage })
                  (λ rs' s'. (finished (finish h result rs'), s')) (inl q)
                  (inr (ap (λ n. add64 n 1) q)))
        ]

    at_limit-Exits :
        (input : AgentLoopInput h) (ctx : Contexts h) (iter : ℕ) (id : String)
        (result : LlmResult h.circuit.Args) (rs : RoundState h) (s : State h)
        → WordHook rt
        → effective_max_iterations rt.max_iterations < 2 ^ 64
        → Exits h
            (Longer rs)
            (MayCall rs)
            (MayCall rs)
            (at_limit h delegate rt input ctx iter id result rs s).0
    unfolding at_limit
    at_limit-Exits input ctx iter id result rs s words small =
        let info : MaxIterationsInfo = record {
          iteration_count = add64 iter 1;
          max_iterations = effective_max_iterations rt.max_iterations;
          last_action = last_tool_action (map (λ tc. tc.tool_name) result.tool_calls);
        } in
        let d = decide_max_iterations rt.error_control info rs.extended in
        let allowed =
          decide_max_iterations-Allowed rt.error_control info rs.extended small
            (λ c hook e e'. words c hook info e e') in
        let rs₁ : RoundState h = record rs {
          max_iter = add64 rs.max_iter d.extra_iterations;
          extended = true;
        } in
        let tools = tools_round-Exits h delegate rt input id result rs₁ s in
        elim (Bool-cases (extends d.action)) [
          | inr final ↦ rw (final, at_limit) (final_call-Exits (Longer rs) input ctx iter rs s)
          | inl go_on ↦
              let e = extends_action d.action go_on in
              rw (go_on, at_limit)
                (Exits-Longer rs rs₁
                  (record {
                    extra = d.extra_iterations;
                    some_extra = allowed.some_rounds e;
                    few_extra = allowed.few_rounds e;
                    longer = refl;
                    not_before = allowed.first e;
                    now_extended = refl;
                    longer_calls = refl;
                  })
                  _ tools)
        ]

    -- One round: one call of the model, or two when it is the last; the bound stays, or is extended
    -- for the first time in its last round.
    pub record Next (iter : ℕ) (rs rs' : RoundState h) : Type 0 where
      pub one_call : calls_in rs'.telemetry ≡ add64 (calls_in rs.telemetry) 1
      pub bound :
          ((rs'.max_iter ≡ rs.max_iter) × (rs'.extended ≡ rs.extended))
          ⊎ ((extra : ℕ) × (1 ≤ extra)
              × (extra ≤ effective_max_iterations (effective_max_iterations rt.max_iterations))
              × (rs'.max_iter ≡ add64 rs.max_iter extra)
              × (rs.extended ≡ false)
              × (rs'.extended ≡ true)
              × (nat_beq iter (sub64 rs.max_iter 1) ≡ true))

    abbrev pub Called : RoundState h → RoundState h → Type 0
    Called rs rs' =
        (calls_in rs'.telemetry ≡ add64 (calls_in rs.telemetry) 1)
        ⊎ (calls_in rs'.telemetry ≡ add64 (add64 (calls_in rs.telemetry) 1) 1)

    -- From the state after the call of the model to the round.
    Exits-Same :
        (iter : ℕ) (a b : RoundState h)
        → b.max_iter ≡ a.max_iter
        → b.extended ≡ a.extended
        → calls_in b.telemetry ≡ add64 (calls_in a.telemetry) 1
        → (x : Exit h) → Exits h (Same h b) (Same h b) (Same h b) x
        → Exits h (Next iter a) (Called a) (Called a) x
    Exits-Same iter a b m e c (again rs) q = record {
      one_call = q.same_calls ∙ c;
      bound = inl (q.same_max ∙ m, q.same_extended ∙ e);
    }
    Exits-Same iter a b m e c (finished rs) q = inl (q.same_calls ∙ c)
    Exits-Same iter a b m e c (returned none x) q = tt
    Exits-Same iter a b m e c (returned (some rs) x) q = inl (q.same_calls ∙ c)

    Exits-limit :
        (iter : ℕ) (a b : RoundState h)
        → nat_beq iter (sub64 b.max_iter 1) ≡ true
        → b.max_iter ≡ a.max_iter
        → b.extended ≡ a.extended
        → calls_in b.telemetry ≡ add64 (calls_in a.telemetry) 1
        → (x : Exit h) → Exits h (Longer b) (MayCall b) (MayCall b) x
        → Exits h (Next iter a) (Called a) (Called a) x
    Exits-limit iter a b at m e c (again rs) q = record {
      one_call = q.longer_calls ∙ c;
      bound = inr (
        q.extra,
        q.some_extra,
        q.few_extra,
        ground (arith, q, m),
        sym e ∙ q.not_before,
        q.now_extended,
        ground (arith, at, m),
      );
    }
    Exits-limit iter a b at m e c (finished rs) q = ground (arith, q, c)
    Exits-limit iter a b at m e c (returned none x) q = tt
    Exits-limit iter a b at m e c (returned (some rs) x) q = ground (arith, q, c)

    act-Exits :
        (input : AgentLoopInput h) (ctx : Contexts h) (iter : ℕ) (id : String)
        (result : LlmResult h.circuit.Args) (a b : RoundState h) (s : State h)
        → WordHook rt
        → effective_max_iterations rt.max_iterations < 2 ^ 64
        → b.max_iter ≡ a.max_iter
        → b.extended ≡ a.extended
        → calls_in b.telemetry ≡ add64 (calls_in a.telemetry) 1
        → Exits h
            (Next iter a)
            (Called a)
            (Called a)
            (act h delegate rt input ctx iter id result b s).0
    unfolding act
    act-Exits input ctx iter id result a b s words small m e c =
        elim (Bool-cases (nat_beq (length result.tool_calls) 0)) [
          | inl none_left ↦ rw (none_left, act) (inl c)
          | inr calls ↦ elim (Bool-cases (nat_beq iter (sub64 b.max_iter 1))) [
            | inl last ↦
                rw (calls, last, act)
                  (Exits-limit iter a b last m e c _
                    (at_limit-Exits input ctx iter id result b s words small))
            | inr more ↦
                rw (calls, more, act)
                  (Exits-Same iter a b m e c _
                    (tools_round-Exits h delegate rt input id result b s))
          ]
        ]

    after_llm-Exits :
        (input : AgentLoopInput h) (ctx : Contexts h) (iter : ℕ) (id : String)
        (result : LlmResult h.circuit.Args) (fb : Bool) (rs : RoundState h) (s : State h)
        → WordHook rt
        → effective_max_iterations rt.max_iterations < 2 ^ 64
        → Exits h
            (Next iter rs)
            (Called rs)
            (Called rs)
            (after_llm h delegate rt input ctx iter id result fb rs s).0
    unfolding after_llm
    after_llm-Exits input ctx iter id result fb rs s words small =
        let rs₁ : RoundState h = record rs {
          use_fallback = if fb then true else rs.use_fallback;
          telemetry = count_call h rs.telemetry;
          llm_usage = merge_llm_usage rs.llm_usage result.usage;
        } in
        let g = check_budget h rt input rs₁.telemetry result.usage s in
        let q = check_budget-calls h rt input rs₁.telemetry result.usage s in
        let rs₂ : RoundState h = record rs₁ { telemetry = g.0.1 } in
        gated-Exits h (Next iter rs) (Called rs) (Called rs) g rs₁
          (λ rs₂ s₂. act h delegate rt input ctx iter id result rs₂ s₂) (inl q)
          (act-Exits input ctx iter id result rs rs₂ g.1 words small refl refl q)

    pub round-Exits :
        (input : AgentLoopInput h) (ctx : Contexts h) (iter : ℕ) (rs : RoundState h) (s : State h)
        → WordHook rt
        → effective_max_iterations rt.max_iterations < 2 ^ 64
        → Exits h (Next iter rs) (Called rs) (Called rs) (round h delegate rt input ctx iter rs s).0
    unfolding round
    round-Exits given ctx iter rs s words small =
        let (input, s₁) = tick h delegate given s in
        let (id, w₂) = h.uuid s₁.w in
        let call =
          invoke_llm_with_error_control h rt input (request h input ctx rs iter id false)
            rs.use_fallback (record s₁ { w = w₂ }) in
        elim (⊎-cases call.0) [
          | inr (e, bad) ↦ rw (bad, round) tt
          | inl ((result, fb), good) ↦
              rw (good, round) (after_llm-Exits input ctx iter id result fb rs call.1 words small)
        ]
