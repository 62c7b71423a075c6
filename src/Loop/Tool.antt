-- ===== src/Loop/Tool.antt =====
-- The lifecycle of one tool call: executeSingleTool of internal/runtime/local/agent_loop.go without a
-- durable step runner.
--
-- `delegate` runs a sub-agent: executeAgentLoop on the route's runtime. executeWithPolicy drops a
-- result that comes with an error, so `delegate` returns one of the two.
pub mod Guards
pub mod Answers
pub mod Depth
use Prim.Native.String.{◌++◌ as str_append}
use agent_sdk_go.Prelude.{
  ℕ, Bool, true, false, Option, none, some, List, [], ◌∷◌, String, string_eq, ◌==◌, if◌then◌else◌,
  ◌⊎◌, inl, inr, le64, add64,
}
use agent_sdk_go.CircuitBreaker
use agent_sdk_go.Retry.{execute_with_policy, tool_execution_policy, sub_agent_execution_policy}
use agent_sdk_go.Agent.{
  ToolCallRequest, AuthorizeResult, ApprovalStatus, approved, rejected, unavailable, GoError,
  is_unknown_tool,
}
use agent_sdk_go.Loop.{
  Host, State, LocalRuntime, AgentLoopInput, AgentLoopResult, ToolResult, SubAgentRoute,
  SubAgentRoutes, sub_agent_route, find_route, step_started, step_finished, emit, retry_host,
  sub_agent_scope,
}
use agent_sdk_go.Loop.Call.{
  tool_message, check_authorization, circuit_skips, finish, fail, announce, ask_approval,
}

module _ (h : Host) where
  open h use {W, circuit, Tool, Handler, trim, sprintf}

  -- ExecuteTool under its policy.
  run_tool :
      LocalRuntime h
      → AgentLoopInput h
      → ToolCallRequest circuit.Args
      → State h
      → (String × Bool) × State h
  run_tool rt input tc s =
      let policy = tool_execution_policy tc.tool_kind rt.policies in
      let (r, s') =
        execute_with_policy (retry_host h) policy
          (λ deadline s.
            let (r, w) =
              h.execute_tool input.tools tc.tool_name tc.args tc.tool_call_id input.run_id
                input.memory_scope deadline s.w in
            (r, record s { w = w }))
          s in
      elim r [
        | inl content ↦ ((content, false), s')
        | inr e ↦ ((str_append "Tool execution failed: " e.text, true), s')
      ]

  -- The content that the outcome of a sub-agent's run becomes.
  abbrev delegation_content : AgentLoopResult h ⊎ GoError → String
  delegation_content (inl result) = result.content
  delegation_content (inr e) =
      if e.is_budget_exceeded
      then "Sub-agent stopped: per-run budget exceeded."
      else str_append "Sub-agent execution failed: " e.text

  -- The input of a sub-agent's run: one level deeper, and its budget not enforced. Its loop sets
  -- `circuit_now` before it reads it.
  abbrev pub child_input :
      AgentLoopInput h
      → ToolCallRequest circuit.Args
      → String
      → SubAgentRoutes h
      → List Tool
      → String
      → AgentLoopInput h
  child_input input tc delegation_name children tools run_id = record input {
    user_prompt = h.query tc.args;
    conversation_id = "";
    run_id = run_id;
    memory_scope = sub_agent_scope trim input.memory_scope delegation_name;
    sub_agent_routes = children;
    sub_agent_depth = add64 input.sub_agent_depth 1;
    tools = tools;
    enforce_budget = false;
  }

  module _
      (delegate : LocalRuntime h
        → AgentLoopInput h
        → Option ℕ
        → State h
        → (AgentLoopResult h ⊎ GoError) × State h) where
    run_sub_agent :
        LocalRuntime h
        → AgentLoopInput h
        → ToolCallRequest circuit.Args
        → SubAgentRoute h
        → State h
        → String × State h
    run_sub_agent rt input tc (sub_agent_route name none children tools) s =
        ("Sub-agent delegation not available for this runtime.", s)
    run_sub_agent rt input tc (sub_agent_route name (some sub) children tools) s =
        let delegation_name = if trim name == "" then tc.tool_name else trim name in
        let s₁ = emit h input (step_started delegation_name) s in
        let policy = sub_agent_execution_policy rt.policies rt.run_timeout in
        let (r, s₂) =
          execute_with_policy (retry_host h) policy
            (λ deadline s.
              let (run_id, w) = h.uuid s.w in
              delegate sub (child_input input tc delegation_name children tools run_id) deadline
                (record s { w = w }))
            s₁ in
        (delegation_content r, emit h input (step_finished delegation_name) s₂)

    -- The branch of an approved call: a sub-agent unless too deep, or the tool.
    run_approved :
        LocalRuntime h
        → AgentLoopInput h
        → ToolCallRequest circuit.Args
        → Option (SubAgentRoute h)
        → State h
        → (String × Bool) × State h
    unfolding run_tool run_sub_agent
    run_approved rt input tc none s = run_tool rt input tc s
    run_approved rt input tc (some route) s =
        let (content, s') = run_sub_agent rt input tc route s in
        if le64 input.max_sub_agent_depth input.sub_agent_depth
        then (
          (
            sprintf "Sub-agent delegation refused: maximum nesting depth (%d) reached."
                (h.decimal input.max_sub_agent_depth ∷ []),
            false,
          ),
          s,
        )
        else ((content, false), s')

    -- The switch on the status.
    by_status :
        LocalRuntime h
        → AgentLoopInput h
        → String
        → ToolCallRequest circuit.Args
        → ApprovalStatus ⊎ GoError
        → State h
        → (ToolResult h × Option GoError) × State h
    unfolding run_approved finish
    by_status rt input message_id tc (inr e) s = fail h e s
    by_status rt input message_id tc (inl approved) s =
        let ((content, has_failed), s') =
          run_approved rt input tc (find_route h input.sub_agent_routes tc.tool_name) s in
        finish h input message_id tc content has_failed s'
    by_status rt input message_id tc (inl rejected) s =
        finish h input message_id tc "Tool execution was rejected by the user." false s
    by_status rt input message_id tc (inl unavailable) s =
        finish h input message_id tc
          "Tool approval could not be completed because no approval handler is configured; continuing without running the tool."
          false s
    by_status rt input message_id tc (inl status) s =
        fail h
          (record {
            text =
                sprintf "unexpected approval status %q for tool %q"
                  (h.status_text status ∷ tc.tool_name ∷ []);
            is_budget_exceeded = false;
          })
          s

    -- An authorized call: the approval gate, then the switch.
    proceed :
        LocalRuntime h
        → AgentLoopInput h
        → String
        → ToolCallRequest circuit.Args
        → State h
        → (ToolResult h × Option GoError) × State h
    unfolding by_status ask_approval
    proceed rt input message_id tc s =
        let is_sub_agent : Bool = elim (find_route h input.sub_agent_routes tc.tool_name) [
          | none ↦ false
          | some route ↦ true
        ] in
        let (status, s') = ask_approval h rt input tc is_sub_agent s in
        by_status rt input message_id tc status s'

    -- The branches of the authorization check.
    by_authorization :
        LocalRuntime h
        → AgentLoopInput h
        → String
        → ToolCallRequest circuit.Args
        → AuthorizeResult ⊎ GoError
        → State h
        → (ToolResult h × Option GoError) × State h
    unfolding proceed
    by_authorization rt input message_id tc (inr e) s =
        fail h
          (record {
            text = sprintf "tool authorization error for %q: %w" (tc.tool_name ∷ e.text ∷ []);
            is_budget_exceeded = e.is_budget_exceeded;
          })
          s
    by_authorization rt input message_id tc (inl auth) s =
        let denied : String = "Tool execution was denied by authorization policy." in
        let content =
          if auth.reason == ""
          then denied
          else sprintf "%s Reason: %s" (denied ∷ auth.reason ∷ []) in
        let allowed = proceed rt input message_id tc s in
        if auth.allowed then allowed else finish h input message_id tc content false s

    unfoldable pub execute_single_tool :
        LocalRuntime h
        → AgentLoopInput h
        → String
        → ToolCallRequest circuit.Args
        → State h
        → (ToolResult h × Option GoError) × State h
    unfolding by_authorization
    execute_single_tool rt input message_id tc s =
        let s₁ = announce h input message_id tc s in
        let unknown =
          finish h input message_id tc
            (sprintf "Unknown tool %q. It is not registered on this agent." (tc.tool_name ∷ []))
            false s₁ in
        let (skip, s₂) = circuit_skips h input tc s₁ in
        let skipped =
          finish h input message_id tc
            (sprintf "Circuit breaker skipped tool %q after repeated failures." (tc.tool_name ∷ []))
            false s₂ in
        let (auth, s₃) = check_authorization h rt input tc s₂ in
        let checked = by_authorization rt input message_id tc auth s₃ in
        if is_unknown_tool h.tool_name tc input.tools
        then unknown
        else if skip
        then skipped
        else checked

  -- What both modes make of a hard error: a tool message of a failed call.
  unfoldable pub settle_result :
      ToolCallRequest circuit.Args → ToolResult h → Option GoError → ToolResult h
  settle_result tc result none = result
  settle_result tc result (some e) = record {
    message = tool_message h (str_append "Tool execution failed: " e.text) tc;
    failed = true;
  }
