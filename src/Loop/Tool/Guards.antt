-- ===== src/Loop/Tool/Guards.antt =====
-- What stands between the model's request and a tool: registration, authorization and approval.
use agent_sdk_go.Prelude.{
  ℕ, ◌≡◌, ◌≢◌, ◌⊎◌, inl, inr, refl, Bool, true, false, Option, none, some, List, String, string_eq,
  ◌==◌, arith, if_keeps, Bool-cases, Option-cases, ⊎-cases,
}
use agent_sdk_go.Retry.Keeps.{execute_with_policy-keeps, execute_with_policy-returns}
use agent_sdk_go.Agent.{
  ToolCallRequest, AuthorizeResult, ApprovalStatus, no_status, pending, approved, rejected,
  unavailable, timed_out, other_status, GoError, find_tool_by_name, is_unknown_tool,
}
use agent_sdk_go.Loop.{
  Host, State, LocalRuntime, AgentLoopInput, AgentLoopResult, Event, emit, publish_event_to_channel,
  ApprovalWait, answered, cancelled, timer_fired, ToolResult, retry_host, tool_call_start,
}
use agent_sdk_go.Loop.Call.{
  authorize_tool, authorized, finish, announce, args_json, ask_approval, check_authorization,
  circuit_skips, call_handler, wait_tool_answer, answer_of,
}
use agent_sdk_go.Loop.Tool.{by_status, proceed, by_authorization, execute_single_tool}

-- What everything but the run of a tool or of a sub-agent keeps.
pub record Quiet (h : Host) (P : h.W → Type 0) : Type 0 where
  pub on_wait : (n : ℕ) (w : h.W) → P w → P (h.wait n w).1
  pub on_uuid : (w : h.W) → P w → P (h.uuid w).1
  pub on_publish : (c : String) (ev : Event h.circuit.Args) (w : h.W) → P w → P (h.publish c ev w)
  pub on_handler :
      (hd : h.Handler) (ev : Event h.circuit.Args) (n : ℕ) (w : h.W)
      → P w
      → P (h.call_handler hd ev n w)
  pub on_store : (t : String) (w : h.W) → P w → P (h.store_pending t w)
  pub on_delete : (t : String) (w : h.W) → P w → P (h.delete_pending t w)
  pub on_await : (t : String) (n : Option ℕ) (w : h.W) → P w → P (h.await_answer t n w).1
  pub on_authorize :
      (t : h.Tool) (f : Option h.circuit.Args → h.W → (AuthorizeResult ⊎ GoError) × h.W)
      (args : Option h.circuit.Args) (w : h.W)
      → h.authorizer t ≡ some f
      → P w
      → P (f args w).1

module _ (h : Host) (P : h.W → Type 0) (quiet : Quiet h P) where
  emit-P :
      (input : AgentLoopInput h) (ev : Event h.circuit.Args) (s : State h)
      → P s.w
      → P (emit h input ev s).w
  unfolding emit publish_event_to_channel
  emit-P input ev s p = ground (arith, quiet.on_publish input.channel_name ev s.w p)

  finish-P :
      (input : AgentLoopInput h) (id : String) (tc : ToolCallRequest h.circuit.Args)
      (content : String) (has_failed : Bool) (s : State h)
      → P s.w
      → P (finish h input id tc content has_failed s).1.w
  unfolding finish
  finish-P input id tc content has_failed s p = emit-P input _ _ (emit-P input _ s p)

  announce-P :
      (input : AgentLoopInput h) (id : String) (tc : ToolCallRequest h.circuit.Args) (s : State h)
      → P s.w
      → P (announce h input id tc s).w
  unfolding announce
  announce-P input id tc s p =
      let p₁ = emit-P input (tool_call_start tc.tool_call_id tc.tool_name id) s p in
      elim (Option-cases (args_json h tc.args)) [
        | inl trivial ↦ rw (trivial, announce) p₁
        | inr (json, e) ↦ rw (e, announce) (emit-P input _ _ p₁)
      ]

  skips-w :
      (input : AgentLoopInput h) (tc : ToolCallRequest h.circuit.Args) (s : State h)
      → (circuit_skips h input tc s).1.w ≡ s.w
  unfolding circuit_skips
  skips-w input tc s = ground arith

  authorize-P :
      (tools : List h.Tool) (name : String) (args : Option h.circuit.Args) (s : State h)
      → P s.w
      → P (authorize_tool h tools name args s).1.w
  unfolding authorize_tool
  authorize-P tools name args s p = elim (Option-cases (find_tool_by_name h.tool_name tools name)) [
    | inl missing ↦ rw (missing, authorize_tool) p
    | inr (t, found) ↦
        rw (found, authorize_tool)
          (elim (Option-cases (h.authorizer t)) [
            | inl free ↦ rw free p
            | inr (f, e) ↦ rw e (quiet.on_authorize t f args s.w e p)
          ])
  ]

  check-P :
      (rt : LocalRuntime h) (input : AgentLoopInput h) (tc : ToolCallRequest h.circuit.Args)
      (s : State h)
      → P s.w
      → P (check_authorization h rt input tc s).1.w
  check-P rt input tc s p =
      execute_with_policy-keeps (retry_host h) rt.policies.tool_auth
        (λ deadline s. authorize_tool h input.tools tc.tool_name tc.args s) (λ s. P s.w) (λ a. Unit)
        (λ d s p. authorize-P input.tools tc.tool_name tc.args s p) (λ d s a e. tt)
        (λ n s p. quiet.on_wait n s.w p) s p

  handler-P :
      (rt : LocalRuntime h) (handler : Option h.Handler) (ev : Event h.circuit.Args) (w : h.W)
      → P w
      → P (call_handler h rt handler ev w)
  unfolding call_handler
  handler-P rt none ev w p = p
  handler-P rt (some hd) ev w p = quiet.on_handler hd ev _ w p

  waited-P :
      (rt : LocalRuntime h) (input : AgentLoopInput h) (tc : ToolCallRequest h.circuit.Args)
      (is_sub : Bool) (s : State h)
      → P s.w
      → P (wait_tool_answer h rt input tc is_sub s).1.w
  unfolding wait_tool_answer
  waited-P rt input tc is_sub s p = quiet.on_delete _ _ (
      quiet.on_await _ _ _ (
        handler-P rt input.approval_handler _ _
          (emit-P input _ _ (quiet.on_store _ _ (quiet.on_uuid s.w p)))))

  ask-P :
      (rt : LocalRuntime h) (input : AgentLoopInput h) (tc : ToolCallRequest h.circuit.Args)
      (is_sub : Bool) (s : State h)
      → P s.w
      → P (ask_approval h rt input tc is_sub s).1.w
  unfolding ask_approval
  ask-P rt input tc is_sub s p = ground (arith, waited-P rt input tc is_sub s p, p)

  module _
      (delegate : LocalRuntime h
        → AgentLoopInput h
        → Option ℕ
        → State h
        → (AgentLoopResult h ⊎ GoError) × State h) where
    by_status-P :
        (rt : LocalRuntime h) (input : AgentLoopInput h) (id : String)
        (tc : ToolCallRequest h.circuit.Args) (status : ApprovalStatus ⊎ GoError) (s : State h)
        → status ≢ inl approved
        → P s.w
        → P (by_status h delegate rt input id tc status s).1.w
    unfolding by_status
    by_status-P rt input id tc (inr e) s n p = p
    by_status-P rt input id tc (inl approved) s n p = absurd (n refl)
    by_status-P rt input id tc (inl rejected) s n p = finish-P input id tc _ false s p
    by_status-P rt input id tc (inl unavailable) s n p = finish-P input id tc _ false s p
    by_status-P rt input id tc (inl no_status) s n p = p
    by_status-P rt input id tc (inl pending) s n p = p
    by_status-P rt input id tc (inl timed_out) s n p = p
    by_status-P rt input id tc (inl other_status) s n p = p

    -- No wait for an answer ends with an approval.
    abbrev pub NeverApproved : Type 0
    NeverApproved =
        (t : String) (n : Option ℕ) (w : h.W) → (h.await_answer t n w).0 ≢ answered approved

    -- The tool's own authorization never allows it.
    abbrev pub Denied : AgentLoopInput h → ToolCallRequest h.circuit.Args → Type 0
    Denied input tc =
        (t : h.Tool) × (f : Option h.circuit.Args → h.W → (AuthorizeResult ⊎ GoError) × h.W)
        × (find_tool_by_name h.tool_name input.tools tc.tool_name ≡ some t)
        × (h.authorizer t ≡ some f)
        × ((w : h.W) (d : AuthorizeResult) → (f tc.args w).0 ≡ inl d → d.allowed ≡ false)

    answer-approved :
        (m : ℕ) (x : ApprovalWait) → x ≢ answered approved → answer_of h m x ≢ inl approved
    unfolding answer_of
    answer-approved m (answered approved) n e = n refl
    answer-approved m (answered no_status) n e = cc
    answer-approved m (answered pending) n e = cc
    answer-approved m (answered rejected) n e = cc
    answer-approved m (answered unavailable) n e = cc
    answer-approved m (answered timed_out) n e = cc
    answer-approved m (answered other_status) n e = cc
    answer-approved m (cancelled x) n e = cc
    answer-approved m timer_fired n e = cc

    ask_status :
        (rt : LocalRuntime h) (input : AgentLoopInput h) (tc : ToolCallRequest h.circuit.Args)
        (is_sub : Bool) (s : State h)
        → NeverApproved
        → tc.needs_approval ≡ true
        → (ask_approval h rt input tc is_sub s).0 ≢ inl approved
    unfolding ask_approval wait_tool_answer
    ask_status rt input tc is_sub s never needs e =
        let waited : (wait_tool_answer h rt input tc is_sub s).0 ≢ inl approved =
          answer-approved _ _ (never _ _ _) in
        elim (Option-cases input.approval_handler) [
          | inl no_handler ↦ elim (Bool-cases (input.channel_name == "")) [
            | inl silent ↦ ground (arith)
            | inr channel ↦ waited (ground arith)
          ]
          | inr (hd, found) ↦ waited (ground arith)
        ]

    authorization-P :
        (rt : LocalRuntime h) (input : AgentLoopInput h) (id : String)
        (tc : ToolCallRequest h.circuit.Args) (auth : AuthorizeResult ⊎ GoError) (s : State h)
        → ((d : AuthorizeResult) → auth ≡ inl d → d.allowed ≡ false)
          ⊎ (NeverApproved × (tc.needs_approval ≡ true))
        → P s.w
        → P (by_authorization h delegate rt input id tc auth s).1.w
    unfolding by_authorization proceed
    authorization-P rt input id tc (inr e) s stop p = p
    authorization-P rt input id tc (inl d) s (inl denied) p =
        rw (denied d refl, by_authorization) (finish-P input id tc _ false s p)
    authorization-P rt input id tc (inl d) s (inr (never, needs)) p =
        if_keeps (λ (r : (ToolResult h × Option GoError) × State h). P r.1.w) d.allowed
          (by_status-P rt input id tc _ _ (ask_status rt input tc _ s never needs)
            (ask-P rt input tc _ s p))
          (finish-P input id tc _ false s p)

    refusal_kept :
        (input : AgentLoopInput h) (tc : ToolCallRequest h.circuit.Args) (s : State h)
        (a : AuthorizeResult)
        → Denied input tc
        → (authorize_tool h input.tools tc.tool_name tc.args s).0 ≡ inl a
        → a.allowed ≡ false
    unfolding authorize_tool authorized
    refusal_kept input tc s a (t, f, found, has, never) e = elim (⊎-cases (f tc.args s.w).0) [
      | inl (d, said) ↦ let no = never s.w d said in ground (arith, found, has, e, said, no)
      | inr (x, said) ↦ ground (arith, found, has, e, said)
    ]

    -- A call that names no registered tool, whose tool's authorization never allows it, or that needs
    -- an approval where no wait ends with one, runs neither a tool nor a sub-agent: it keeps all that
    -- events, handlers, waits and authorizations keep.
    pub blocked_call_runs_nothing :
        (rt : LocalRuntime h) (input : AgentLoopInput h) (id : String)
        (tc : ToolCallRequest h.circuit.Args) (s : State h)
        → (is_unknown_tool h.tool_name tc input.tools ≡ true)
          ⊎ (Denied input tc ⊎ (NeverApproved × (tc.needs_approval ≡ true)))
        → P s.w
        → P (execute_single_tool h delegate rt input id tc s).1.w
    unfolding execute_single_tool
    blocked_call_runs_nothing rt input id tc s (inl unknown) p =
        rw (unknown, execute_single_tool)
          (finish-P input id tc _ false _ (announce-P input id tc s p))
    blocked_call_runs_nothing rt input id tc s (inr stop) p =
        let s₁ : State h = announce h input id tc s in
        let p₁ = announce-P input id tc s p in
        let s₂ : State h = (circuit_skips h input tc s₁).1 in
        let p₂ : P s₂.w = rw (skips-w input tc s₁) p₁ in
        let p₃ = check-P rt input tc s₂ p₂ in
        let why : ((d : AuthorizeResult)
              → (check_authorization h rt input tc s₂).0 ≡ inl d
              → d.allowed ≡ false)
            ⊎ (NeverApproved × (tc.needs_approval ≡ true)) =
          elim stop [
            | inl denied ↦ inl (
                execute_with_policy-returns (retry_host h) rt.policies.tool_auth
                  (λ deadline s. authorize_tool h input.tools tc.tool_name tc.args s) (λ s. Unit)
                  (λ a. a.allowed ≡ false) (λ d s p. tt)
                  (λ d s a e. refusal_kept input tc s a denied e) (λ n s p. tt) s₂)
            | inr never ↦ inr never
          ] in
        if_keeps (λ (r : (ToolResult h × Option GoError) × State h). P r.1.w)
          (is_unknown_tool h.tool_name tc input.tools) (finish-P input id tc _ false _ p₁)
          (if_keeps (λ (r : (ToolResult h × Option GoError) × State h). P r.1.w)
            ((circuit_skips h input tc s₁).0) (finish-P input id tc _ false _ p₂)
            (authorization-P rt input id tc _ _ why p₃))
