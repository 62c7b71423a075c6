-- ===== src/Loop.antt =====
-- internal/runtime/local/agent_loop.go without a durable step runner (`stepRunner` is nil): the
-- run's input and the state that its parts share. The children are the surroundings, the budget gate,
-- the calls of the model, the lifecycle of one tool call, the tool calls of a round, and the rounds.
--
-- A world `W` stands for all that lies outside: provider, tools, event bus, handlers, clock. Metrics,
-- spans and logging are left out.
mod Surroundings
unfoldable pub use Surroundings.*
pub mod Gate
pub mod Llm
pub mod Rounds
pub mod Round
pub mod Run
pub mod Call
pub mod Tool
pub mod Batch
pub mod Sample
mod Examples
use agent_sdk_go.Prelude.{
  ℕ, Bool, true, false, not, ◌&&◌, ◌||◌, Option, none, some, List, [], ◌∷◌, String, string_eq, ◌==◌,
  if◌then◌else◌, ◌⊎◌, inl, inr, ltb, length,
}
use agent_sdk_go.Prelude.GoMap
use agent_sdk_go.Prelude.GoMap.{GoMap}
use agent_sdk_go.CircuitBreaker
use agent_sdk_go.CircuitBreaker.{CircuitBreaker, CircuitBreakerConfig}
use agent_sdk_go.Budget.{
  Dollars, LlmUsage, BudgetConfig, BudgetTracker, BudgetExceededAction, BudgetExceededError,
}
use agent_sdk_go.ErrorControl.{ErrorControlConfig}
use agent_sdk_go.Retry
use agent_sdk_go.Retry.{ExecutionPolicies}
use agent_sdk_go.Agent.{
  Message, ToolCallRequest, LlmResult, AuthorizeResult, ApprovalStatus, GoError, AgentTelemetry,
}

module _ (h : Host) where
  open h use {W, circuit, dollars, Coefficient, Tool, Handler, trim, publish}

  -- What the run shares with its sub-agents: the world, and the objects behind two pointers.
  pub record State : Type 0 where
    pub w : W
    pub tracker : Option (BudgetTracker dollars)
    pub breaker : Option CircuitBreaker

  -- The loop of executeWithPolicy on that state.
  abbrev pub retry_host : Retry.Host
  retry_host = record {
    W = State;
    Coefficient = Coefficient;
    Err = GoError;
    ctx_err = λ s. h.ctx_err s.w;
    wait = λ n s. let (e, w) = h.wait n s.w in (e, record s { w = w });
    scale = h.scale;
  }

  -- The configuration of a LocalRuntime that the loop reads. `recall_enabled` is RecallEnabled,
  -- `run_end_store` RunEndMemoryStoreEnabled.
  pub record LocalRuntime : Type 0 where
    pub agent_name : String
    pub max_iterations : ℕ
    pub approval_timeout : ℕ
    pub run_timeout : ℕ
    pub budget : Option (BudgetConfig dollars)
    pub tool_execution_mode : String
    pub primary : h.Client
    pub named_clients : GoMap String (Option h.Client)
    pub error_control : Option ErrorControlConfig
    pub circuit_config : Option CircuitBreakerConfig
    pub has_conversation : Bool
    pub conversation_size : ℕ
    pub save_on_iteration : Bool
    pub recall_enabled : Bool
    pub run_end_store : Bool
    pub retriever_mode : RetrieverMode
    pub retriever_count : ℕ
    pub policies : ExecutionPolicies Coefficient

  -- subAgentRoute, with its map of children.
  mutual
    pub data SubAgentRoute : Type 0 where
      sub_agent_route :
          (name : String) (runtime : Option LocalRuntime) (children : SubAgentRoutes)
          (tools : List Tool)
          → SubAgentRoute

    pub data SubAgentRoutes : Type 0 where
      no_routes : SubAgentRoutes
      add_route : (key : String) (route : SubAgentRoute) (rest : SubAgentRoutes) → SubAgentRoutes

  unfoldable pub find_route : SubAgentRoutes → String → Option SubAgentRoute
  find_route no_routes name = none
  find_route (add_route key route rest) name =
      if key == name then some route else find_route rest name

  -- AgentLoopInput; the tracker and the breaker are in the state.
  pub record AgentLoopInput : Type 0 where
    pub user_prompt : String
    pub conversation_id : String
    pub streaming_enabled : Bool
    pub tools : List Tool
    pub channel_name : String
    pub event_types : List String
    pub approval_handler : Option Handler
    pub sub_agent_routes : SubAgentRoutes
    pub sub_agent_depth : ℕ
    pub max_sub_agent_depth : ℕ
    pub memory_scope : MemoryScope
    pub run_id : String
    pub enforce_budget : Bool
    pub circuit_now : circuit.Time

  -- AgentLoopResult without the telemetry.
  pub record AgentLoopResult : Type 0 where
    pub content : String
    pub llm_usage : Option LlmUsage

  -- toolResult
  pub record ToolResult : Type 0 where
    pub message : Message circuit.Args
    pub failed : Bool

  -- publishEventToChannel; a nil bus is a `publish` that does nothing.
  unfoldable pub publish_event_to_channel : String → Event circuit.Args → State → State
  publish_event_to_channel channel_name ev s =
      if trim channel_name == "" then s else record s { w = publish channel_name ev s.w }

  unfoldable pub emit : AgentLoopInput → Event circuit.Args → State → State
  unfolding publish_event_to_channel event_allowed event_type
  emit input ev s =
      if event_allowed input.event_types (event_type ev)
      then publish_event_to_channel input.channel_name ev s
      else s
