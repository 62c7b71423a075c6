-- ===== src/Loop/Tool/Answers.antt =====
-- Every way through a tool call ends in one message that answers it.
use agent_sdk_go.Prelude.{ℕ, ◌≡◌, ◌⊎◌, inl, inr, refl, Bool, false, Option, String, if_keeps}
use agent_sdk_go.Agent.{
  ToolCallRequest, GoError, ApprovalStatus, no_status, pending, approved, rejected, unavailable,
  timed_out, other_status, AuthorizeResult, tool, is_unknown_tool,
}
use agent_sdk_go.Loop.{Host, State, LocalRuntime, AgentLoopInput, AgentLoopResult, ToolResult}
use agent_sdk_go.Loop.Call.{finish, announce, circuit_skips}
use agent_sdk_go.Loop.Tool.{
  by_status, proceed, by_authorization, execute_single_tool, settle_result,
}

module _ (h : Host) where
  -- A tool-role message with the id and the name of the call.
  pub record Answers (tc : ToolCallRequest h.circuit.Args) (r : ToolResult h) : Type 0 where
    pub is_tool : r.message.role ≡ tool
    pub same_id : r.message.tool_call_id ≡ tc.tool_call_id
    pub same_name : r.message.tool_name ≡ tc.tool_name

  -- A result with an error, or an answer.
  abbrev pub Returned :
      ToolCallRequest h.circuit.Args → (ToolResult h × Option GoError) × State h → Type 0
  Returned tc r = Answers tc (settle_result h tc r.0.0 r.0.1)

  module _
      (delegate : LocalRuntime h
        → AgentLoopInput h
        → Option ℕ
        → State h
        → (AgentLoopResult h ⊎ GoError) × State h)
      (rt : LocalRuntime h) (input : AgentLoopInput h) (id : String) where
    finish-Returned :
        (tc : ToolCallRequest h.circuit.Args) (content : String) (has_failed : Bool) (s : State h)
        → Returned tc (finish h input id tc content has_failed s)
    unfolding finish settle_result
    finish-Returned tc content has_failed s = record {
      is_tool = refl;
      same_id = refl;
      same_name = refl;
    }

    by_status-Returned :
        (tc : ToolCallRequest h.circuit.Args) (status : ApprovalStatus ⊎ GoError) (s : State h)
        → Returned tc (by_status h delegate rt input id tc status s)
    unfolding by_status finish settle_result
    by_status-Returned tc (inr e) s = record { is_tool = refl; same_id = refl; same_name = refl }
    by_status-Returned tc (inl approved) s = record {
      is_tool = refl;
      same_id = refl;
      same_name = refl;
    }
    by_status-Returned tc (inl rejected) s = record {
      is_tool = refl;
      same_id = refl;
      same_name = refl;
    }
    by_status-Returned tc (inl unavailable) s = record {
      is_tool = refl;
      same_id = refl;
      same_name = refl;
    }
    by_status-Returned tc (inl no_status) s = record {
      is_tool = refl;
      same_id = refl;
      same_name = refl;
    }
    by_status-Returned tc (inl pending) s = record {
      is_tool = refl;
      same_id = refl;
      same_name = refl;
    }
    by_status-Returned tc (inl timed_out) s = record {
      is_tool = refl;
      same_id = refl;
      same_name = refl;
    }
    by_status-Returned tc (inl other_status) s = record {
      is_tool = refl;
      same_id = refl;
      same_name = refl;
    }

    by_authorization-Returned :
        (tc : ToolCallRequest h.circuit.Args) (auth : AuthorizeResult ⊎ GoError) (s : State h)
        → Returned tc (by_authorization h delegate rt input id tc auth s)
    unfolding by_authorization proceed settle_result
    by_authorization-Returned tc (inr e) s = record {
      is_tool = refl;
      same_id = refl;
      same_name = refl;
    }
    by_authorization-Returned tc (inl d) s =
        if_keeps (Returned tc) d.allowed (by_status-Returned tc _ _) (finish-Returned tc _ false s)

    -- The result of a call, a hard error included, is a tool-role message with the call's id and name.
    pub single-Returned :
        (tc : ToolCallRequest h.circuit.Args) (s : State h)
        → Returned tc (execute_single_tool h delegate rt input id tc s)
    unfolding execute_single_tool
    single-Returned tc s =
        let s₁ : State h = announce h input id tc s in
        if_keeps (Returned tc) (is_unknown_tool h.tool_name tc input.tools)
          (finish-Returned tc _ false s₁)
          (if_keeps (Returned tc) (circuit_skips h input tc s₁).0
            (finish-Returned tc _ false (circuit_skips h input tc s₁).1)
            (by_authorization-Returned tc _ _))
