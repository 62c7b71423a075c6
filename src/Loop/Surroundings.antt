-- ===== src/Loop/Surroundings.antt =====
-- What stands around the loop of internal/runtime/local/agent_loop.go: memory scopes, the events that
-- it publishes, and the record of everything that it asks of the world.
use agent_sdk_go.Prelude.{
  ℕ, Bool, true, false, not, ◌||◌, Option, none, some, List, [], ◌∷◌, String, string_eq, ◌==◌,
  if◌then◌else◌, ◌⊎◌, ltb, length,
}
use agent_sdk_go.Prelude.GoMap
use agent_sdk_go.Prelude.GoMap.{GoMap}
use agent_sdk_go.CircuitBreaker
use agent_sdk_go.CircuitBreaker.{CircuitBreaker}
use agent_sdk_go.Budget.{Dollars, BudgetExceededAction, BudgetExceededError}
use agent_sdk_go.ErrorControl.{ResolveError}
use agent_sdk_go.Agent.{Message, LlmResult, AuthorizeResult, ApprovalStatus, GoError}

-- interfaces.MemoryScope; nil tags are `none`.
pub record MemoryScope : Type 0 where
  pub tenant_id : String
  pub user_id : String
  pub agent_id : String
  pub tags : Option (GoMap String String)

-- SubAgentScope; `trim` is strings.TrimSpace.
unfoldable pub sub_agent_scope : (String → String) → MemoryScope → String → MemoryScope
sub_agent_scope trim parent sub_agent_id =
    let tags : GoMap String String = elim parent.tags [ none ↦ [] | some m ↦ m ] in
    let tagged =
      if parent.agent_id == "" then tags else GoMap.insert "parent_agent_id" parent.agent_id tags in
    record {
      tenant_id = parent.tenant_id;
      user_id = parent.user_id;
      agent_id = trim sub_agent_id;
      tags = if not (parent.agent_id == "") || ltb 0 (length tags) then some tagged else none;
    }

-- The events of the loop, of internal/events; names and payloads as the source builds them.
pub data Event (Args : Type 0) : Type 0 where
  tool_call_start : (tool_call_id tool_name message_id : String) → Event Args
  tool_call_args : (tool_call_id args_json : String) → Event Args
  tool_call_end : (tool_call_id : String) → Event Args
  tool_call_result : (message_id tool_call_id content : String) → Event Args
  step_started step_finished : (name : String) → Event Args
  tool_approval :
      (agent_name tool_call_id tool_name tool_display_name : String) (args : Option Args)
      (token : String)
      → Event Args
  sub_agent_delegation :
      (agent_name sub_agent_name : String) (args : Option Args) (token : String) → Event Args
  budget_approval : (agent_name detail : String) (total_tokens : ℕ) (token : String) → Event Args

-- AgentEvent.Type
unfoldable pub event_type : {Args : Type 0} → Event Args → String
event_type (tool_call_start _ _ _) = "TOOL_CALL_START"
event_type (tool_call_args _ _) = "TOOL_CALL_ARGS"
event_type (tool_call_end _) = "TOOL_CALL_END"
event_type (tool_call_result _ _ _) = "TOOL_CALL_RESULT"
event_type (step_started _) = "STEP_STARTED"
event_type (step_finished _) = "STEP_FINISHED"
event_type _ = "CUSTOM"

-- The filter of `emit`.
unfoldable pub event_allowed : List String → String → Bool
event_allowed [] t = false
event_allowed (et ∷ ets) t = if (et == "*") || (et == t) then true else event_allowed ets t

-- What an approval wait ends with: an answer, `ctx.Done()`, or the timer.
pub data ApprovalWait : Type 0 where
  answered : (status : ApprovalStatus) → ApprovalWait
  cancelled : (err : GoError) → ApprovalWait
  timer_fired : ApprovalWait

-- base.MemoryResult and base.RetrieverResult
pub record Searched : Type 0 where
  pub context : String
  pub total : ℕ
  pub failed : ℕ

-- base.ExecuteLLMInput without the client, the logger and `Emit`.
pub record LlmInput (Args Tool : Type 0) : Type 0 where
  pub message_id : String
  pub run_id : String
  pub iteration : ℕ
  pub messages : List (Message Args)
  pub skip_tools : Bool
  pub memory_context : String
  pub retriever_context : String
  pub tools : List Tool

-- types.RetrieverMode; `other_mode` is any other text.
pub data RetrieverMode : Type 0 where
  agentic prefetch hybrid other_mode : RetrieverMode

-- The surroundings. `sprintf` is fmt.Sprintf on texts, `decimal` formats a number, and an approval
-- request is its event. `status_text` and `budget_text` are the texts of a status and of a budget
-- error, `query` is SubAgentQuery.
pub record Host : Type 1 where
  pub W : Type 0
  pub circuit : CircuitBreaker.Host
  pub dollars : Dollars
  pub Coefficient : Type 0
  pub scale : ℕ → Coefficient → ℕ
  pub ctx_err : W → Option GoError
  pub wait : ℕ → W → Option GoError × W
  pub trim : String → String
  pub sprintf : String → List String → String
  pub decimal : ℕ → String
  pub status_text : ApprovalStatus → String
  pub resolve_text : ResolveError → String
  pub budget_text : BudgetExceededError dollars → String
  pub uuid : W → String × W
  pub Tool : Type 0
  pub tool_name : Tool → String
  -- `none`: the tool is no interfaces.ToolAuthorizer.
  pub authorizer : Tool → Option (Option circuit.Args → W → (AuthorizeResult ⊎ GoError) × W)
  -- Runtime.ExecuteTool: the tools, the name, the arguments, the call's id, the run's id, the scope.
  pub execute_tool :
      List Tool
      → String
      → Option circuit.Args
      → String
      → String
      → MemoryScope
      → Option ℕ
      → W
      → (String ⊎ GoError) × W
  pub query : Option circuit.Args → String
  pub Handler : Type 0
  pub call_handler : Handler → Event circuit.Args → ℕ → W → W
  pub store_pending : String → W → W
  pub delete_pending : String → W → W
  pub await_answer : String → Option ℕ → W → ApprovalWait × W
  -- The marshalling and the publication on a channel of the event bus.
  pub publish : String → Event circuit.Args → W → W
  pub now : W → circuit.Time × W
  pub Client : Type 0
  -- Runtime.ExecuteLLM, or ExecuteLLMStream if the flag is set, with its events.
  pub execute_llm :
      Client
      → (streaming : Bool) → LlmInput circuit.Args Tool
      → Option ℕ
      → W
      → (LlmResult circuit.Args ⊎ GoError) × W
  -- The order in which the goroutines of a parallel round run.
  pub schedule : ℕ → W → List ℕ
  -- Conversation.ListMessages with a limit, and AddMessage.
  pub list_messages : String → ℕ → W → (List (Message circuit.Args) ⊎ GoError) × W
  pub add_message : String → Message circuit.Args → Option ℕ → W → Option GoError × W
  -- ExecuteMemoryRecall and ExecuteRetrievers: the context, and the numbers of all and of failed
  -- searches. ExecuteMemoryStore.
  pub recall : String → MemoryScope → String → Option ℕ → W → (Searched ⊎ GoError) × W
  pub retrieve : String → String → Option ℕ → W → (Searched ⊎ GoError) × W
  pub store_memory :
      String → MemoryScope → List (Message circuit.Args) → Option ℕ → W → Option GoError × W
  -- hooks.RunOnBudgetExceeded
  pub on_budget_exceeded :
      String
      → BudgetExceededError dollars
      → BudgetExceededAction
      → (approval_count : ℕ) → (approvals_exhausted : Bool) → W
      → W
