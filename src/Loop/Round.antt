-- ===== src/Loop/Round.antt =====
-- One round of executeAgentLoop in internal/runtime/local/agent_loop.go, without a durable step
-- runner. `delegate` runs a sub-agent.
use Prim.Native.String.{◌++◌ as str_append}
use agent_sdk_go.Prelude.{
  ℕ, Bool, true, false, Option, none, some, List, [], ◌∷◌, ◌++◌, map, String, string_eq, ◌==◌, ◌⊎◌,
  inl, inr, if◌then◌else◌, add64, sub64, nat_beq, length, if_nil,
}
use agent_sdk_go.CircuitBreaker
use agent_sdk_go.ErrorControl.{
  ErrorControlAction, extend_iterations, MaxIterationsInfo, decide_max_iterations,
  effective_max_iterations,
}
use agent_sdk_go.Agent.{
  ToolCallRequest, LlmResult, GoError, AgentTelemetry, merge_llm_usage, max_iterations,
}
use agent_sdk_go.Loop.{Host, State, LocalRuntime, AgentLoopInput, AgentLoopResult, ToolResult}
use agent_sdk_go.Loop.Gate.{check_budget, enforce_budget_if_exceeded}
use agent_sdk_go.Loop.Llm.{invoke_llm_with_error_control}
use agent_sdk_go.Loop.Batch.{execute_tools_sequential, execute_tools_parallel}
use agent_sdk_go.Loop.Rounds.{
  RoundState, Exit, again, finished, returned, Contexts, assistant_message, plain_message, request,
  apply_results, save_iteration,
}

-- LastToolAction: strings.Join(toolNames, ",").
unfoldable pub last_tool_action : List String → String
last_tool_action [] = ""
last_tool_action (n ∷ []) = n
last_tool_action (n ∷ n' ∷ ns) = str_append n (str_append "," (last_tool_action (n' ∷ ns)))

abbrev pub extends : ErrorControlAction → Bool
extends extend_iterations = true
extends _ = false

module _ (h : Host) where
  open h use {circuit, sprintf}

  -- One more call of the model in the telemetry.
  abbrev pub count_call : AgentTelemetry → AgentTelemetry
  count_call t = record t {
    run = record (t.run) { total_llm_calls = add64 t.run.total_llm_calls 1 };
  }

  -- fmt.Errorf with the number of the round.
  abbrev wrapped : String → ℕ → GoError → GoError
  wrapped format iter e = record e { text = sprintf format (h.decimal iter ∷ e.text ∷ []) }

  -- What the gate of the budget leaves: a return on its error.
  unfoldable pub gated :
      (Option GoError × AgentTelemetry) × State h
      → RoundState h
      → (RoundState h → State h → Exit h × State h)
      → Exit h × State h
  gated ((err, telemetry), s) rs go =
      let rs' = record rs { telemetry = telemetry } in
      if_nil err (go rs' s) (λ e. (returned (some rs') e, s))

  -- The state after the answer of the final call.
  abbrev pub finish : LlmResult circuit.Args → RoundState h → RoundState h
  finish result rs = record rs {
    messages = rs.messages ++ plain_message h result.content ∷ [];
    last_content = result.content;
    telemetry = record (count_call rs.telemetry) {
      run = record ((count_call rs.telemetry).run) { finish_reason = max_iterations };
    };
  }

  -- The final call without tools.
  unfoldable pub final_call :
      LocalRuntime h → AgentLoopInput h → Contexts h → ℕ → RoundState h → State h → Exit h × State h
  unfolding gated
  final_call rt input ctx iter rs s =
      let (message_id, w₁) = h.uuid s.w in
      let (r, s₁) =
        invoke_llm_with_error_control h rt input (request h input ctx rs iter message_id true)
          rs.use_fallback (record s { w = w₁ }) in
      elim r [
        | inr e ↦ (returned none (wrapped "llm final call (iter %d): %w" iter e), s₁)
        | inl (result, fb) ↦
            gated (check_budget h rt input rs.telemetry result.usage s₁)
              (record rs { llm_usage = merge_llm_usage rs.llm_usage result.usage })
              (λ rs' s'. (finished (finish result rs'), s'))
      ]

  module _
      (delegate : LocalRuntime h
        → AgentLoopInput h
        → Option ℕ
        → State h
        → (AgentLoopResult h ⊎ GoError) × State h) where
    -- The switch on the mode of execution; an empty mode is parallel.
    unfoldable pub run_tools :
        LocalRuntime h
        → AgentLoopInput h
        → String
        → List (ToolCallRequest circuit.Args)
        → State h
        → (List (ToolResult h) × State h) ⊎ GoError
    run_tools rt input message_id tcs s =
        let mode = if rt.tool_execution_mode == "" then "parallel" else rt.tool_execution_mode in
        let parallel =
          execute_tools_parallel h delegate rt input message_id (h.schedule (length tcs) s.w) tcs
            s in
        let sequential = execute_tools_sequential h delegate rt input message_id tcs s in
        if mode == "parallel"
        then inl parallel
        else if mode == "sequential"
        then inl sequential
        else inr (record {
          text =
              sprintf "invalid tool execution mode %q: use %q or %q"
                (mode ∷ "parallel" ∷ "sequential" ∷ []);
          is_budget_exceeded = false;
        })

    -- The end of a round: the breaker's snapshot, the gate, the saving.
    unfoldable pub after_results :
        LocalRuntime h → AgentLoopInput h → RoundState h → State h → Exit h × State h
    unfolding gated
    after_results rt input rs s =
        let breaker = CircuitBreaker.restore s.breaker (CircuitBreaker.state s.breaker) in
        gated (enforce_budget_if_exceeded h rt input rs.telemetry (record s { breaker = breaker }))
          rs (λ rs' s'. let (rs'', s'') = save_iteration h rt input rs' s' in (again rs'', s''))

    unfoldable pub tools_round :
        LocalRuntime h
        → AgentLoopInput h
        → String
        → LlmResult circuit.Args
        → RoundState h
        → State h
        → Exit h × State h
    unfolding after_results
    tools_round rt input message_id result rs s =
        let rs₁ = record rs { messages = rs.messages ++ assistant_message h result ∷ [] } in
        elim (run_tools rt input message_id result.tool_calls s) [
          | inr e ↦ (returned none e, s)
          | inl (results, s₁) ↦
              let (rs₂, s₂) = apply_results h input result.tool_calls results rs₁ s₁ in
              after_results rt input rs₂ s₂
        ]

    -- The last round of the bound: more rounds, or the final call.
    unfoldable pub at_limit :
        LocalRuntime h
        → AgentLoopInput h
        → Contexts h
        → ℕ
        → String
        → LlmResult circuit.Args
        → RoundState h
        → State h
        → Exit h × State h
    at_limit rt input ctx iter message_id result rs s =
        let info : MaxIterationsInfo = record {
          iteration_count = add64 iter 1;
          max_iterations = effective_max_iterations rt.max_iterations;
          last_action = last_tool_action (map (λ tc. tc.tool_name) result.tool_calls);
        } in
        let decision = decide_max_iterations rt.error_control info rs.extended in
        let longer =
          tools_round rt input message_id result
            (record rs { max_iter = add64 rs.max_iter decision.extra_iterations; extended = true })
            s in
        if extends decision.action then longer else final_call rt input ctx iter rs s

    -- What the answer asks for: nothing more, the end of the bound, or tools.
    unfoldable pub act :
        LocalRuntime h
        → AgentLoopInput h
        → Contexts h
        → ℕ
        → String
        → LlmResult circuit.Args
        → RoundState h
        → State h
        → Exit h × State h
    act rt input ctx iter message_id result rs s =
        if nat_beq (length result.tool_calls) 0
        then (
          finished (record rs {
            messages = rs.messages ++ plain_message h result.content ∷ [];
            last_content = result.content;
          }),
          s,
        )
        else if nat_beq iter (sub64 rs.max_iter 1)
        then at_limit rt input ctx iter message_id result rs s
        else tools_round rt input message_id result rs s

    unfoldable pub after_llm :
        LocalRuntime h
        → AgentLoopInput h
        → Contexts h
        → ℕ
        → String
        → LlmResult circuit.Args
        → Bool
        → RoundState h
        → State h
        → Exit h × State h
    unfolding gated
    after_llm rt input ctx iter message_id result used_fallback rs s =
        let rs₁ = record rs {
          use_fallback = if used_fallback then true else rs.use_fallback;
          telemetry = count_call rs.telemetry;
          llm_usage = merge_llm_usage rs.llm_usage result.usage;
        } in
        gated (check_budget h rt input rs₁.telemetry result.usage s) rs₁
          (λ rs₂ s₂. act rt input ctx iter message_id result rs₂ s₂)

    -- The clock of the breaker.
    unfoldable pub tick : AgentLoopInput h → State h → AgentLoopInput h × State h
    tick input s = elim s.breaker [
      | none ↦ (input, s)
      | some b ↦
          let (now, w) = h.now s.w in (record input { circuit_now = now }, record s { w = w })
    ]

    unfoldable pub round :
        LocalRuntime h
        → AgentLoopInput h
        → Contexts h
        → ℕ
        → RoundState h
        → State h
        → Exit h × State h
    unfolding tick
    round rt given ctx iter rs s =
        let (input, s₁) = tick given s in
        let (message_id, w₂) = h.uuid s₁.w in
        let (r, s₃) =
          invoke_llm_with_error_control h rt input (request h input ctx rs iter message_id false)
            rs.use_fallback (record s₁ { w = w₂ }) in
        elim r [
          | inr e ↦ (returned none (wrapped "llm call (iter %d): %w" iter e), s₃)
          | inl (result, fb) ↦ after_llm rt input ctx iter message_id result fb rs s₃
        ]
