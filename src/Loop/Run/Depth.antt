-- ===== src/Loop/Run/Depth.antt =====
-- MaxSubAgentDepth bounds the recursion into sub-agents.
use agent_sdk_go.Prelude.{
  ℕ, zero, suc, ◌+◌, ◌≤◌, ◌<◌, ◌^◌, ◌≡◌, inl, inr, refl, sym, ap, ◌∙◌, Bool, true, false, none,
  List, [], ◌∷◌, String, string_eq, arith, if◌then◌else◌, add64, lt64, length, get_elem?, replicate,
  map, Bool-cases, Option-cases, ⊎-cases,
}
use agent_sdk_go.CircuitBreaker
use agent_sdk_go.ErrorControl.{MaxIterationsInfo, decide_max_iterations, effective_max_iterations}
use agent_sdk_go.Agent.{ToolCallRequest, LlmResult, merge_llm_usage}
use agent_sdk_go.Loop.{Host, State, LocalRuntime, AgentLoopInput, ToolResult}
use agent_sdk_go.Loop.Tool.Depth.{Delegate, Agree, execute_single_tool-Agree}
use agent_sdk_go.Loop.Batch.{
  execute_tools_sequential, execute_tools_parallel, parallel_call, run_order, zero_result,
}
use agent_sdk_go.Loop.Gate.{check_budget}
use agent_sdk_go.Loop.Llm.{invoke_llm_with_error_control}
use agent_sdk_go.Loop.Rounds.{request, RoundState, Contexts}
use agent_sdk_go.Loop.Round.{
  run_tools, tools_round, after_results, at_limit, act, after_llm, tick, round, gated,
  last_tool_action, count_call,
}
use agent_sdk_go.Loop.Run.{
  completed, aborted, rounds, enough, start_state, start_messages, recall_memory, prefetch_context,
  conclude, run_loop, with_breaker, delegate_at, to_result, execute_agent_loop,
}
use agent_sdk_go.Loop.Run.Ends.{Exit-cases, rounds-again}

module _ (h : Host) (d e : Delegate h) (rt : LocalRuntime h) where
  module _ (input : AgentLoopInput h) (same : Agree h d e input) where
    sequential-Agree :
        (id : String) (tcs : List (ToolCallRequest h.circuit.Args)) (s : State h)
        → execute_tools_sequential h d rt input id tcs s
          ≡ execute_tools_sequential h e rt input id tcs s
    unfolding execute_tools_sequential
    sequential-Agree id [] s = refl
    sequential-Agree id (tc ∷ tcs) s =
        let one = execute_single_tool-Agree h d e rt input same id tc s in
        let rest = sequential-Agree id tcs in rw (one, rest _) refl

    parallel_call-Agree :
        (id : String) (tcs : List (ToolCallRequest h.circuit.Args)) (idx : ℕ)
        (results : List (ToolResult h)) (s : State h)
        → parallel_call h d rt input id tcs idx results s
          ≡ parallel_call h e rt input id tcs idx results s
    unfolding parallel_call
    parallel_call-Agree id tcs idx results s = elim (Option-cases (get_elem? tcs idx)) [
      | inl outside ↦ rw (outside, parallel_call) refl
      | inr (tc, found) ↦
          let one = execute_single_tool-Agree h d e rt input same id tc s in
          rw (found, parallel_call, one) refl
    ]

    run_order-Agree :
        (id : String) (tcs : List (ToolCallRequest h.circuit.Args)) (order : List ℕ)
        (results : List (ToolResult h)) (s : State h)
        → run_order h d rt input id tcs order results s
          ≡ run_order h e rt input id tcs order results s
    unfolding run_order
    run_order-Agree id tcs [] results s = refl
    run_order-Agree id tcs (idx ∷ order) results s =
        let one = parallel_call-Agree id tcs idx results s in
        run_order-Agree id tcs order _ _ ∙ ap (λ r. run_order h e rt input id tcs order r.0 r.1) one

    run_tools-Agree :
        (id : String) (tcs : List (ToolCallRequest h.circuit.Args)) (s : State h)
        → run_tools h d rt input id tcs s ≡ run_tools h e rt input id tcs s
    unfolding run_tools execute_tools_parallel
    run_tools-Agree id tcs s =
        let parallel =
          run_order-Agree id tcs (h.schedule (length tcs) s.w)
            (replicate (length tcs) (zero_result h)) s in
        let sequential = sequential-Agree id tcs s in rw (parallel, sequential) refl

    tools_round-Agree :
        (id : String) (result : LlmResult h.circuit.Args) (rs : RoundState h) (s : State h)
        → tools_round h d rt input id result rs s ≡ tools_round h e rt input id result rs s
    unfolding tools_round after_results
    tools_round-Agree id result rs s = rw (run_tools-Agree id result.tool_calls s, tools_round) refl

    at_limit-Agree :
        (ctx : Contexts h) (iter : ℕ) (id : String) (result : LlmResult h.circuit.Args)
        (rs : RoundState h) (s : State h)
        → at_limit h d rt input ctx iter id result rs s
          ≡ at_limit h e rt input ctx iter id result rs s
    unfolding at_limit
    at_limit-Agree ctx iter id result rs s =
        let info : MaxIterationsInfo = record {
          iteration_count = add64 iter 1;
          max_iterations = effective_max_iterations rt.max_iterations;
          last_action = last_tool_action (map (λ tc. tc.tool_name) result.tool_calls);
        } in
        let decision = decide_max_iterations rt.error_control info rs.extended in
        rw
          (tools_round-Agree id result
            (record rs { max_iter = add64 rs.max_iter decision.extra_iterations; extended = true })
            s)
          refl

    act-Agree :
        (ctx : Contexts h) (iter : ℕ) (id : String) (result : LlmResult h.circuit.Args)
        (rs : RoundState h) (s : State h)
        → act h d rt input ctx iter id result rs s ≡ act h e rt input ctx iter id result rs s
    unfolding act
    act-Agree ctx iter id result rs s =
        rw (at_limit-Agree ctx iter id result rs s, tools_round-Agree id result rs s) refl

    after_llm-Agree :
        (ctx : Contexts h) (iter : ℕ) (id : String) (result : LlmResult h.circuit.Args) (fb : Bool)
        (rs : RoundState h) (s : State h)
        → after_llm h d rt input ctx iter id result fb rs s
          ≡ after_llm h e rt input ctx iter id result fb rs s
    unfolding after_llm
    after_llm-Agree ctx iter id result fb rs s =
        let rs₁ : RoundState h = record rs {
          use_fallback = if fb then true else rs.use_fallback;
          telemetry = count_call h rs.telemetry;
          llm_usage = merge_llm_usage rs.llm_usage result.usage;
        } in
        let acts : (λ rs₂ s₂. act h d rt input ctx iter id result rs₂ s₂)
            ≡ (λ rs₂ s₂. act h e rt input ctx iter id result rs₂ s₂) =
          λ i rs₂ s₂. act-Agree ctx iter id result rs₂ s₂ i in
        ap (gated h (check_budget h rt input rs₁.telemetry result.usage s) rs₁) acts

  tick-Agree :
      (input : AgentLoopInput h) (s : State h)
      → Agree h d e input
      → Agree h d e (tick h d input s).0
  unfolding tick
  tick-Agree input s same = elim (Option-cases s.breaker) [
    | inl none_given ↦ rw (none_given, tick) same
    | inr (b, given) ↦ rw (given, tick) same
  ]

  round-Agree :
      (input : AgentLoopInput h) (ctx : Contexts h) (iter : ℕ) (rs : RoundState h) (s : State h)
      → Agree h d e input
      → round h d rt input ctx iter rs s ≡ round h e rt input ctx iter rs s
  unfolding round tick
  round-Agree given ctx iter rs s same =
      let (input, s₁) = tick h d given s in
      let (id, w₂) = h.uuid s₁.w in
      let call =
        invoke_llm_with_error_control h rt input (request h input ctx rs iter id false)
          rs.use_fallback (record s₁ { w = w₂ }) in
      elim (⊎-cases call.0) [
        | inr (x, bad) ↦ rw (bad, round) refl
        | inl ((result, fb), good) ↦
            rw (good, round)
              (after_llm-Agree input (tick-Agree given s same) ctx iter id result fb rs call.1)
      ]

  rounds-Agree :
      (fuel : ℕ) (input : AgentLoopInput h) (ctx : Contexts h) (iter : ℕ) (rs : RoundState h)
      (s : State h)
      → Agree h d e input
      → rounds h d fuel rt input ctx iter rs s ≡ rounds h e fuel rt input ctx iter rs s
  unfolding rounds
  rounds-Agree zero input ctx iter rs s same = refl
  rounds-Agree (suc fuel) input ctx iter rs s same =
      let one = round-Agree input ctx iter rs s same in
      let x = round h e rt input ctx iter rs s in
      elim (Bool-cases (lt64 iter rs.max_iter)) [
        | inr done ↦ rw (done, rounds) refl
        | inl more ↦ elim (Exit-cases h x.0) [
          | inl (rs', goes_on) ↦
              let goes_on' = ap (λ r. r.0) one ∙ goes_on in
              rounds-again h d rt fuel input ctx iter rs rs' s more goes_on'
              ∙ rounds-Agree fuel input ctx (add64 iter 1) rs' (round h d rt input ctx iter rs s).1
                  same
              ∙ ap (λ r. rounds h e fuel rt input ctx (add64 iter 1) rs' r.1) one
              ∙ sym (rounds-again h e rt fuel input ctx iter rs rs' s more goes_on)
          | inr (inl (rs', ends)) ↦
              rw (more, one, ends, rounds) (ap (λ r. (completed rs', r.1)) one)
          | inr (inr (o, err, fails)) ↦
              rw (more, one, fails, rounds) (ap (λ r. (aborted o err, r.1)) one)
        ]
      ]

  run_loop-Agree :
      (input : AgentLoopInput h) (s : State h)
      → Agree h d e input
      → run_loop h d rt input s ≡ run_loop h e rt input s
  unfolding run_loop
  run_loop-Agree input s same =
      let ((msgs, history), s₁) = start_messages h rt input s in
      let recalled = recall_memory h rt input s₁ in
      let found = prefetch_context h rt input recalled.1 in
      elim (⊎-cases recalled.0) [
        | inr (x, bad) ↦ rw (bad, run_loop) refl
        | inl (m, ok) ↦ elim (⊎-cases found.0) [
          | inr (x, bad) ↦ rw (ok, bad, run_loop) refl
          | inl (f, ok₂) ↦
              let ctx : Contexts h = record { memory = m.context; retrieved = f.context } in
              let rs = start_state h rt msgs history m f in
              let all = rounds-Agree (enough h d rt) input ctx 0 rs found.1 same in
              rw (ok, ok₂, run_loop) (ap (λ r. conclude h d rt input r.0 r.1) all)
        ]
      ]

  with_breaker-Agree :
      (input : AgentLoopInput h) (s : State h)
      → Agree h d e input
      → with_breaker h d rt input s ≡ with_breaker h e rt input s
  unfolding with_breaker
  with_breaker-Agree input s same = elim (Option-cases s.breaker) [
    | inr (b, given) ↦ rw (given, with_breaker) (run_loop-Agree input s same)
    | inl none_given ↦
        let own : State h = record s {
          breaker = CircuitBreaker.new_circuit_breaker rt.circuit_config;
        } in
        rw (none_given, with_breaker)
          (ap (λ r. (r.0, record (r.1) { breaker = none })) (run_loop-Agree input own same))
  ]

module _ (h : Host) where
  delegate_at-Covers :
      (depth extra : ℕ) (input : AgentLoopInput h)
      → input.max_sub_agent_depth < 2 ^ 62
      → input.sub_agent_depth ≤ input.max_sub_agent_depth
      → input.max_sub_agent_depth ≤ depth + input.sub_agent_depth
      → Agree h (delegate_at h depth) (delegate_at h (depth + extra)) input
  unfolding delegate_at
  delegate_at-Covers zero extra input small inside covers = λ below. ground arith
  delegate_at-Covers (suc depth) extra input small inside covers =
      λ below rt child deadline s deeper same_max.
        let agree : Agree h (delegate_at h depth) (delegate_at h (depth + extra)) child =
          delegate_at-Covers depth extra child (ground arith) (ground arith) (ground arith) in
        let one =
          with_breaker-Agree h (delegate_at h depth) (delegate_at h (depth + extra)) rt child s
            agree in
        let count : suc (depth + extra) ≡ suc depth + extra = omega arith in
        ap (λ r. (to_result h r.0, r.1)) one ∙ ap (λ n. delegate_at h n rt child deadline s) count

  -- A run, at whatever level, gives the same with as many levels of delegation below it as its
  -- greatest depth leaves and with any more: the recursion into sub-agents never reaches further,
  -- where the greatest depth is below 2 ^ 62.
  pub execute_agent_loop-depth :
      (depth extra : ℕ) (rt : LocalRuntime h) (input : AgentLoopInput h) (s : State h)
      → input.max_sub_agent_depth < 2 ^ 62
      → input.sub_agent_depth ≤ input.max_sub_agent_depth
      → input.max_sub_agent_depth ≤ depth + input.sub_agent_depth
      → execute_agent_loop h depth rt input s ≡ execute_agent_loop h (depth + extra) rt input s
  unfolding execute_agent_loop
  execute_agent_loop-depth depth extra rt input s small inside covers =
      with_breaker-Agree h (delegate_at h depth) (delegate_at h (depth + extra)) rt input s
        (delegate_at-Covers depth extra input small inside covers)
