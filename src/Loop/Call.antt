-- ===== src/Loop/Call.antt =====
-- The parts of executeSingleTool in internal/runtime/local/agent_loop.go that come before a tool or a
-- sub-agent runs: the events of a call, AuthorizeTool of internal/runtime/base/runtime.go, and the
-- approval gate, without a durable step runner.
use Prim.Native.String.{◌++◌ as str_append}
use agent_sdk_go.Prelude.{
  ℕ, ◌∷◌, Bool, true, false, not, ◌||◌, Option, none, some, List, [], String, string_eq, ◌==◌,
  if◌then◌else◌, ◌⊎◌, inl, inr,
}
use agent_sdk_go.CircuitBreaker
use agent_sdk_go.CircuitBreaker
use agent_sdk_go.Retry.{execute_with_policy, approval_task_timeout}
use agent_sdk_go.Agent.{
  Message, ToolCallRequest, AuthorizeResult, ApprovalStatus, approved, unavailable, GoError,
  find_tool_by_name, no_role, tool,
}
use agent_sdk_go.Loop.{
  retry_host, Host, State, LocalRuntime, AgentLoopInput, ToolResult, Event, tool_call_start,
  tool_call_args, tool_call_end, tool_call_result, tool_approval, sub_agent_delegation, emit,
  ApprovalWait, answered, cancelled, timer_fired,
}

module _ (h : Host) where
  open h use {W, circuit, Tool, Handler, trim, sprintf}

  -- What AuthorizeTool makes of the tool's own decision.
  unfoldable pub authorized : AuthorizeResult ⊎ GoError → AuthorizeResult ⊎ GoError
  authorized (inr e) = inr e
  authorized (inl d) =
      if d.allowed
      then inl (record { allowed = true; reason = "" })
      else inl (record { allowed = false; reason = trim d.reason })

  unfoldable pub authorize_tool :
      List Tool → String → Option circuit.Args → State h → (AuthorizeResult ⊎ GoError) × State h
  unfolding authorized
  authorize_tool tools name args s = elim (find_tool_by_name h.tool_name tools name) [
    | none ↦
        (inr (record { text = str_append "unknown tool: " name; is_budget_exceeded = false }), s)
    | some t ↦ elim (h.authorizer t) [
      | none ↦ (inl (record { allowed = true; reason = "" }), s)
      | some f ↦ let (d, w) = f args s.w in (authorized d, record s { w = w })
    ]
  ]

  -- A tool-role message that answers a call.
  abbrev pub tool_message : String → ToolCallRequest circuit.Args → Message circuit.Args
  tool_message content tc = record {
    role = tool;
    content = content;
    tool_name = tc.tool_name;
    tool_call_id = tc.tool_call_id;
    tool_calls = [];
  }

  abbrev pub zero_message : Message circuit.Args
  zero_message = record {
    role = no_role;
    content = "";
    tool_name = "";
    tool_call_id = "";
    tool_calls = [];
  }

  -- A result with its TOOL_CALL_END and TOOL_CALL_RESULT events.
  unfoldable pub finish :
      AgentLoopInput h
      → String
      → ToolCallRequest circuit.Args
      → String
      → Bool
      → State h
      → (ToolResult h × Option GoError) × State h
  finish input message_id tc content has_failed s = (
    (record { message = tool_message content tc; failed = has_failed }, none),
    emit h input (tool_call_result message_id tc.tool_call_id content)
        (emit h input (tool_call_end tc.tool_call_id) s),
  )

  -- The return of a hard error.
  abbrev pub fail : GoError → State h → (ToolResult h × Option GoError) × State h
  fail e s = ((record { message = zero_message; failed = true }, some e), s)

  -- The JSON of the arguments unless it is trivial or fails; a nil map is "null".
  unfoldable pub args_json : Option circuit.Args → Option String
  args_json none = none
  args_json (some args) = elim (circuit.marshal args) [
    | none ↦ none
    | some json ↦ if ((json == "") || (json == "null")) || (json == "{}") then none else some json
  ]

  -- TOOL_CALL_START and TOOL_CALL_ARGS.
  unfoldable pub announce :
      AgentLoopInput h → String → ToolCallRequest circuit.Args → State h → State h
  announce input message_id tc s =
      let s₁ = emit h input (tool_call_start tc.tool_call_id tc.tool_name message_id) s in
      elim (args_json tc.args) [
        | none ↦ s₁
        | some json ↦ emit h input (tool_call_args tc.tool_call_id json) s₁
      ]

  unfoldable pub call_handler : LocalRuntime h → Option Handler → Event circuit.Args → W → W
  call_handler rt none ev w = w
  call_handler rt (some handler) ev w =
      h.call_handler handler ev (approval_task_timeout rt.approval_timeout) w

  unfoldable pub answer_of : ℕ → ApprovalWait → ApprovalStatus ⊎ GoError
  answer_of timeout (answered status) = inl status
  answer_of timeout (cancelled e) = inr e
  answer_of timeout timer_fired = inr (record {
    text = sprintf "tool approval timed out after %v" (h.decimal timeout ∷ []);
    is_budget_exceeded = false;
  })

  -- The request and the wait for its answer; `token` is pending meanwhile.
  unfoldable pub wait_tool_answer :
      LocalRuntime h
      → AgentLoopInput h
      → ToolCallRequest circuit.Args
      → Bool
      → State h
      → (ApprovalStatus ⊎ GoError) × State h
  unfolding call_handler answer_of
  wait_tool_answer rt input tc is_sub_agent s =
      let timeout = approval_task_timeout rt.approval_timeout in
      let (token, w₁) = h.uuid s.w in
      let ev : Event circuit.Args =
        if is_sub_agent
        then sub_agent_delegation rt.agent_name tc.tool_display_name tc.args token
        else tool_approval rt.agent_name tc.tool_call_id tc.tool_name tc.tool_display_name tc.args
            token in
      let s₂ = emit h input ev (record s { w = h.store_pending token w₁ }) in
      let w₃ = call_handler rt input.approval_handler ev s₂.w in
      let (answer, w₄) = h.await_answer token (some timeout) w₃ in
      (answer_of timeout answer, record s₂ { w = h.delete_pending token w₄ })

  -- The approval gate. The source tests the channel for "" only here.
  unfoldable pub ask_approval :
      LocalRuntime h
      → AgentLoopInput h
      → ToolCallRequest circuit.Args
      → Bool
      → State h
      → (ApprovalStatus ⊎ GoError) × State h
  unfolding wait_tool_answer
  ask_approval rt input tc is_sub_agent s =
      let waited = wait_tool_answer rt input tc is_sub_agent s in
      if not tc.needs_approval then (inl approved, s) else elim input.approval_handler [
        | none ↦ if input.channel_name == "" then (inl unavailable, s) else waited
        | some handler ↦ waited
      ]

  -- AuthorizeTool under its policy.
  abbrev pub check_authorization :
      LocalRuntime h
      → AgentLoopInput h
      → ToolCallRequest circuit.Args
      → State h
      → (AuthorizeResult ⊎ GoError) × State h
  check_authorization rt input tc s =
      execute_with_policy (retry_host h) rt.policies.tool_auth
        (λ deadline s. authorize_tool input.tools tc.tool_name tc.args s) s

  -- Whether the breaker skips the call; only a call that counts asks it.
  unfoldable pub circuit_skips :
      AgentLoopInput h → ToolCallRequest circuit.Args → State h → Bool × State h
  circuit_skips input tc s =
      let (breaker, skip) =
        CircuitBreaker.is_tripped circuit s.breaker tc.tool_name input.circuit_now in
      if CircuitBreaker.counts_toward_circuit_breaker tc.unknown tc.tool_kind
      then (skip, record s { breaker = breaker })
      else (false, s)
