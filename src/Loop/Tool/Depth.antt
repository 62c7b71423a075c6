-- ===== src/Loop/Tool/Depth.antt =====
-- What runs sub-agents is asked only for runs one level deeper, below the greatest depth.
use agent_sdk_go.Prelude.{
  ℕ, ◌≡◌, ◌⊎◌, inl, inr, refl, ap, false, Option, none, some, String, if◌then◌else◌, le64, add64,
  Bool-cases, string_eq, ◌==◌,
}
use agent_sdk_go.Retry.{execute_with_policy, sub_agent_execution_policy}
use agent_sdk_go.Agent.{
  ToolCallRequest, AuthorizeResult, ApprovalStatus, approved, rejected, unavailable, no_status,
  pending, timed_out, other_status, GoError,
}
use agent_sdk_go.Loop.{
  Host, State, LocalRuntime, AgentLoopInput, AgentLoopResult, SubAgentRoute, sub_agent_route,
  find_route, retry_host, emit, step_started, step_finished,
}
use agent_sdk_go.Loop.Call.{check_authorization, circuit_skips, announce}
use agent_sdk_go.Loop.Tool.{
  run_sub_agent, run_approved, by_status, proceed, by_authorization, execute_single_tool,
  child_input, delegation_content,
}

module _ (h : Host) where
  abbrev pub Delegate : Type 0
  Delegate =
      LocalRuntime h
      → AgentLoopInput h
      → Option ℕ
      → State h
      → (AgentLoopResult h ⊎ GoError) × State h

  -- Two ways to run sub-agents that agree one level deeper, unless the greatest depth is reached.
  abbrev pub Agree : Delegate → Delegate → AgentLoopInput h → Type 0
  Agree d e input =
      le64 input.max_sub_agent_depth input.sub_agent_depth ≡ false
      → (rt : LocalRuntime h) (child : AgentLoopInput h) (deadline : Option ℕ) (s : State h)
      → child.sub_agent_depth ≡ add64 input.sub_agent_depth 1
      → child.max_sub_agent_depth ≡ input.max_sub_agent_depth
      → d rt child deadline s ≡ e rt child deadline s

  module _ (d e : Delegate) (rt : LocalRuntime h) (input : AgentLoopInput h)
      (same : Agree d e input) where
    run_sub_agent-Agree :
        (tc : ToolCallRequest h.circuit.Args) (route : SubAgentRoute h) (s : State h)
        → le64 input.max_sub_agent_depth input.sub_agent_depth ≡ false
        → run_sub_agent h d rt input tc route s ≡ run_sub_agent h e rt input tc route s
    unfolding run_sub_agent
    run_sub_agent-Agree tc (sub_agent_route name none children tools) s below = refl
    run_sub_agent-Agree tc (sub_agent_route name (some sub) children tools) s below =
        let delegation_name : String = if h.trim name == "" then tc.tool_name else h.trim name in
        let body : Delegate → Option ℕ → State h → (AgentLoopResult h ⊎ GoError) × State h =
          λ run deadline s.
            let (run_id, w) = h.uuid s.w in
            run sub (child_input h input tc delegation_name children tools run_id) deadline
              (record s { w = w }) in
        let bodies : body d ≡ body e = λ i deadline s.
          same below sub (child_input h input tc delegation_name children tools (h.uuid s.w).0)
            deadline (record s { w = (h.uuid s.w).1 }) refl refl i in
        ap
          (λ op.
            let (r, s₂) =
              execute_with_policy (retry_host h)
                (sub_agent_execution_policy rt.policies rt.run_timeout) op
                (emit h input (step_started delegation_name) s) in
            (delegation_content h r, emit h input (step_finished delegation_name) s₂))
          bodies

    run_approved-Agree :
        (tc : ToolCallRequest h.circuit.Args) (route : Option (SubAgentRoute h)) (s : State h)
        → run_approved h d rt input tc route s ≡ run_approved h e rt input tc route s
    unfolding run_approved
    run_approved-Agree tc none s = refl
    run_approved-Agree tc (some route) s =
        elim (Bool-cases (le64 input.max_sub_agent_depth input.sub_agent_depth)) [
          | inl deep ↦ rw (deep, run_approved) refl
          | inr below ↦
              let q = run_sub_agent-Agree tc route s below in
              rw (below, run_approved) (ap (λ r. ((r.0, false), r.1)) q)
        ]

    by_status-Agree :
        (id : String) (tc : ToolCallRequest h.circuit.Args) (status : ApprovalStatus ⊎ GoError)
        (s : State h)
        → by_status h d rt input id tc status s ≡ by_status h e rt input id tc status s
    unfolding by_status
    by_status-Agree id tc (inr err) s = refl
    by_status-Agree id tc (inl approved) s =
        rw (run_approved-Agree tc (find_route h input.sub_agent_routes tc.tool_name) s) refl
    by_status-Agree id tc (inl rejected) s = refl
    by_status-Agree id tc (inl unavailable) s = refl
    by_status-Agree id tc (inl no_status) s = refl
    by_status-Agree id tc (inl pending) s = refl
    by_status-Agree id tc (inl timed_out) s = refl
    by_status-Agree id tc (inl other_status) s = refl

    proceed-Agree :
        (id : String) (tc : ToolCallRequest h.circuit.Args) (s : State h)
        → proceed h d rt input id tc s ≡ proceed h e rt input id tc s
    unfolding proceed
    proceed-Agree id tc s = by_status-Agree id tc _ _

    by_authorization-Agree :
        (id : String) (tc : ToolCallRequest h.circuit.Args) (auth : AuthorizeResult ⊎ GoError)
        (s : State h)
        → by_authorization h d rt input id tc auth s ≡ by_authorization h e rt input id tc auth s
    unfolding by_authorization
    by_authorization-Agree id tc (inr err) s = refl
    by_authorization-Agree id tc (inl auth) s = rw (proceed-Agree id tc s) refl

    pub execute_single_tool-Agree :
        (id : String) (tc : ToolCallRequest h.circuit.Args) (s : State h)
        → execute_single_tool h d rt input id tc s ≡ execute_single_tool h e rt input id tc s
    unfolding execute_single_tool
    execute_single_tool-Agree id tc s =
        let s₁ = announce h input id tc s in
        let (skip, s₂) = circuit_skips h input tc s₁ in
        let checked = check_authorization h rt input tc s₂ in
        rw (by_authorization-Agree id tc checked.0 checked.1) refl
