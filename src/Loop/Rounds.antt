-- ===== src/Loop/Rounds.antt =====
-- One round of executeAgentLoop in internal/runtime/local/agent_loop.go, without a durable step
-- runner: a call of the model, the gates of the budget, the tools, and the saving of messages.
use agent_sdk_go.Prelude.{
  ℕ, Bool, true, false, not, ◌&&◌, ◌||◌, Option, List, [], ◌∷◌, ◌++◌, map, String, string_eq, ◌==◌,
  inl, if◌then◌else◌, add64, nat_beq, ltb, length, drop,
}
use agent_sdk_go.CircuitBreaker.{
  ToolKind, retriever, counts_toward_tool_telemetry, apply_tool_circuit_result,
}
use agent_sdk_go.Budget.{LlmUsage}
use agent_sdk_go.Retry.{execute_with_policy}
use agent_sdk_go.Agent.{
  Message, ToolCall, ToolCallRequest, LlmResult, GoError, AgentTelemetry, StorageTelemetry,
  record_tool, assistant,
}
use agent_sdk_go.Loop.{Host, State, LocalRuntime, AgentLoopInput, ToolResult, LlmInput, retry_host}

module _ (h : Host) where
  open h use {W, circuit, Tool, sprintf}

  -- The local variables of the loop; `persisted` is persistedMessageCount.
  pub record RoundState : Type 0 where
    pub messages : List (Message circuit.Args)
    pub telemetry : AgentTelemetry
    pub llm_usage : Option LlmUsage
    pub last_content : String
    pub use_fallback : Bool
    pub extended : Bool
    pub max_iter : ℕ
    pub persisted : ℕ

  -- How a round ends: the next one, `break`, or a return. A return after a budget breach has a result.
  pub data Exit : Type 0 where
    again finished : (rs : RoundState) → Exit
    returned : (result : Option RoundState) (err : GoError) → Exit

  -- What the loop fetches before the first round.
  pub record Contexts : Type 0 where
    pub memory : String
    pub retrieved : String

  unfoldable pub conversation_memory_enabled : LocalRuntime h → AgentLoopInput h → Bool
  conversation_memory_enabled rt input = not (input.conversation_id == "") && rt.has_conversation

  -- The loop of persistConversationMessages; a failure is logged and the next message is tried.
  unfoldable pub add_all : String → List (Message circuit.Args) → Option ℕ → W → W
  add_all id [] deadline w = w
  add_all id (msg ∷ msgs) deadline w =
      let (err, w₁) = h.add_message id msg deadline w in add_all id msgs deadline w₁

  unfoldable pub persist_conversation_messages :
      LocalRuntime h → String → List (Message circuit.Args) → State h → State h
  persist_conversation_messages rt id msgs s =
      let (done, s') =
        execute_with_policy (retry_host h) {A = Bool} rt.policies.conversation
          (λ deadline s. (inl true, record s { w = add_all id msgs deadline s.w })) s in
      if not rt.has_conversation || nat_beq (length msgs) 0 then s else s'

  abbrev pub plain_message : String → Message circuit.Args
  plain_message content = record {
    role = assistant;
    content = content;
    tool_name = "";
    tool_call_id = "";
    tool_calls = [];
  }

  abbrev pub call_of_request : ToolCallRequest circuit.Args → ToolCall circuit.Args
  call_of_request tc = record {
    tool_call_id = tc.tool_call_id;
    tool_name = tc.tool_name;
    args = tc.args;
  }

  -- The assistant message with the calls of a round.
  unfoldable pub assistant_message : LlmResult circuit.Args → Message circuit.Args
  assistant_message r = record {
    role = assistant;
    content = r.content;
    tool_name = "";
    tool_call_id = "";
    tool_calls = map call_of_request r.tool_calls;
  }

  unfoldable pub request :
      AgentLoopInput h → Contexts → RoundState → ℕ → String → Bool → LlmInput circuit.Args Tool
  request input ctx rs iter message_id skip_tools = record {
    message_id = message_id;
    run_id = input.run_id;
    iteration = iter;
    messages = rs.messages;
    skip_tools = skip_tools;
    memory_context = ctx.memory;
    retriever_context = ctx.retrieved;
    tools = input.tools;
  }

  abbrev is_retriever : ToolKind → Bool
  is_retriever retriever = true
  is_retriever _ = false

  -- The counters of retriever searches and of memory stores.
  unfoldable pub count_storage :
      StorageTelemetry → ToolCallRequest circuit.Args → Bool → StorageTelemetry
  count_storage st tc has_failed =
      let searched = record st {
        total_retriever_searches = add64 st.total_retriever_searches 1;
        agentic_searches = add64 st.agentic_searches 1;
        failed_retriever_searches =
            if has_failed
            then add64 st.failed_retriever_searches 1
            else st.failed_retriever_searches;
      } in
      let st' = if is_retriever tc.tool_kind then searched else st in
      if not (tc.tool_name == "save_memory")
      then st'
      else if has_failed
      then record st' { failed_memory_stores = add64 st'.failed_memory_stores 1 }
      else record st' { total_memory_stores = add64 st'.total_memory_stores 1 }

  unfoldable pub count_tool : AgentTelemetry → ToolCallRequest circuit.Args → Bool → AgentTelemetry
  unfolding count_storage
  count_tool t tc has_failed = record t {
    tools =
        if not tc.unknown && counts_toward_tool_telemetry tc.tool_kind
        then record_tool t.tools tc.tool_name has_failed
        else t.tools;
    storage = count_storage t.storage tc has_failed;
  }

  -- The loop over the results of a round.
  unfoldable pub apply_results :
      AgentLoopInput h
      → List (ToolCallRequest circuit.Args)
      → List (ToolResult h)
      → RoundState
      → State h
      → RoundState × State h
  unfolding count_tool
  apply_results input (tc ∷ tcs) (r ∷ results) rs s =
      apply_results input tcs results
        (record rs {
          messages = rs.messages ++ r.message ∷ [];
          telemetry = count_tool rs.telemetry tc r.failed;
        })
        (record s {
          breaker =
              apply_tool_circuit_result circuit s.breaker tc.unknown tc.tool_kind tc.tool_name
                tc.args r.failed input.circuit_now;
        })
  apply_results input _ _ rs s = (rs, s)

  -- The saving after each round.
  unfoldable pub save_iteration :
      LocalRuntime h → AgentLoopInput h → RoundState → State h → RoundState × State h
  unfolding persist_conversation_messages conversation_memory_enabled
  save_iteration rt input rs s =
      if conversation_memory_enabled rt input
        && rt.save_on_iteration
        && ltb rs.persisted (length rs.messages)
      then (
        record rs { persisted = length rs.messages },
        persist_conversation_messages rt input.conversation_id (drop rs.persisted rs.messages) s,
      )
      else (rs, s)
