-- ===== src/Handles/Drive.antt =====
-- driveRun and driveStream of internal/runtime/local/runtime.go without an engine: the loop of a run,
-- its terminal event, and what the handle learns. The terminal event goes through the event bus,
-- where a send can wait for ever; a send of the loop is a step of its host, which returns.
pub mod Ends
mod Examples
use agent_sdk_go.Prelude.{
  ℕ, Bool, true, false, Option, none, some, List, [], ◌∷◌, ◌++◌, String, string_eq, ◌==◌, ◌⊎◌, inl,
  inr, if◌then◌else◌,
}
use agent_sdk_go.Budget.{LlmUsage, new_budget_tracker}
use agent_sdk_go.Agent.{GoError, AgentTelemetry}
use agent_sdk_go.Loop.{Host, State, LocalRuntime, AgentLoopInput, SubAgentRoutes, MemoryScope}
use agent_sdk_go.Loop.Rounds.{RoundState}
use agent_sdk_go.Loop.Run.{Returned, execute_agent_loop}
use agent_sdk_go.EventBus
use agent_sdk_go.EventBus.{Inmem, returns, blocks}
use agent_sdk_go.Handles.{Handle, write_done, release, close_done}

-- AgentRunResult without the metadata, which are always empty.
pub record AgentRunResult : Type 0 where
  pub content : String
  pub agent_name : String
  pub model : String
  pub run_id : String
  pub llm_usage : Option LlmUsage
  pub telemetry : AgentTelemetry

-- The lifecycle events that end a run.
pub data Lifecycle : Type 0 where
  run_finished : (thread_id run_id : String) (result : AgentRunResult) → Lifecycle
  run_error : (text : String) → Lifecycle

abbrev pub RunHandle : Type 0
RunHandle = Handle AgentRunResult GoError

-- markDone
unfoldable pub mark_done :
    (GoError → Bool) → Option AgentRunResult → Option GoError → RunHandle → RunHandle
unfolding write_done release close_done
mark_done is_cancelled res err h = close_done (release (write_done is_cancelled res err h))

module _ (h : Host) where
  -- RunRequest, with the routes that buildSubAgentRoutes has made.
  pub record RunRequest : Type 0 where
    pub user_prompt : String
    pub conversation_id : String
    pub enable_llm_stream : Bool
    pub event_types : List String
    pub sub_agent_routes : SubAgentRoutes h
    pub max_sub_agent_depth : ℕ
    pub tools : List h.Tool

  -- A LocalRuntime with what the loop does not read, the model's name, the levels of delegation, and a
  -- time that each round sets before it is read. `bus_of` and `put_bus` reach the event bus in the
  -- world, `encode` is json.Marshal, and `reads` what the readers of a channel receive while a send to
  -- it waits.
  pub record Driver : Type 0 where
    pub runtime : LocalRuntime h
    pub depth : ℕ
    pub approval_handler : Option h.Handler
    pub model : String
    pub resolve_memory_scope : State h → (MemoryScope ⊎ GoError) × State h
    pub unset_time : h.circuit.Time
    pub is_cancelled : GoError → Bool
    pub bus_of : State h → Inmem
    pub put_bus : Inmem → State h → State h
    pub encode : Lifecycle → Option String
    pub reads : ℕ → ℕ

  -- The handle, the state, and the lifecycle events whose publication has returned.
  pub record Driven : Type 0 where
    pub handle : RunHandle
    pub state : State h
    pub published : List Lifecycle

  module _ (d : Driver) (req : RunRequest) (run_id : String) where
    -- A scope that cannot be resolved is empty.
    abbrev scope_or_empty : MemoryScope ⊎ GoError → MemoryScope
    scope_or_empty (inl scope) = scope
    scope_or_empty (inr e) = record { tenant_id = ""; user_id = ""; agent_id = ""; tags = none }

    -- With an approval handler the loop of Run emits the CUSTOM events.
    abbrev pub custom_if_handled : Option h.Handler → List String
    custom_if_handled none = []
    custom_if_handled (some handler) = "CUSTOM" ∷ []

    -- All events, if the request names none.
    abbrev pub asked_or_all : List String → List String
    asked_or_all [] = "*" ∷ []
    asked_or_all (t ∷ ts) = t ∷ ts

    abbrev enforces : State h → Bool
    enforces s = elim s.tracker [ none ↦ false | some t ↦ true ]

    -- The loop of a run with a new tracker, and what it returns.
    unfoldable pub run_with : Bool → String → List String → State h → Returned h × State h
    run_with streaming channel types s =
        let (scope, s₁) = d.resolve_memory_scope s in
        let s₂ : State h = record s₁ {
          tracker = new_budget_tracker h.dollars d.runtime.budget;
          breaker = none;
        } in
        let input : AgentLoopInput h = record {
          user_prompt = req.user_prompt;
          conversation_id = req.conversation_id;
          streaming_enabled = streaming;
          tools = req.tools;
          channel_name = channel;
          event_types = types;
          approval_handler = d.approval_handler;
          sub_agent_routes = req.sub_agent_routes;
          sub_agent_depth = 0;
          max_sub_agent_depth = req.max_sub_agent_depth;
          memory_scope = scope_or_empty scope;
          run_id = run_id;
          enforce_budget = enforces s₂;
          circuit_now = d.unset_time;
        } in
        execute_agent_loop h d.depth d.runtime input s₂

    -- What is reported of a loop that gave no error; reading a nil result panics, which the deferred
    -- function makes an error.
    abbrev pub panicked : GoError
    panicked = record { text = "local: panic in agent loop"; is_budget_exceeded = false }

    abbrev pub run_result : RoundState h → AgentRunResult
    run_result rs = record {
      content = rs.last_content;
      agent_name = h.trim d.runtime.agent_name;
      model = d.model;
      run_id = run_id;
      llm_usage = rs.llm_usage;
      telemetry = rs.telemetry;
    }

    abbrev pub reported : Returned h → AgentRunResult ⊎ GoError
    reported r = elim r.err [
      | some e ↦ inr e
      | none ↦ elim r.result [ none ↦ inr panicked | some rs ↦ inl (run_result rs) ]
    ]

    -- driveRun
    unfoldable pub drive_run : Driven → Driven
    unfolding mark_done run_with
    drive_run x =
        let (r, s) = run_with false "" (custom_if_handled d.approval_handler) x.state in
        elim (reported r) [
          | inr e ↦ record x { handle = mark_done d.is_cancelled none (some e) x.handle; state = s }
          | inl res ↦ record x {
            handle = mark_done d.is_cancelled (some res) none x.handle;
            state = s;
          }
        ]

    -- publishLifecycleEvent, whose context is never done: whether it returns. An error is logged.
    unfoldable pub publish_lifecycle : String → Lifecycle → State h → Bool × State h
    publish_lifecycle channel ev s = elim (d.encode ev) [
      | none ↦ (true, s)
      | some payload ↦
          let (p, bus) = EventBus.publish (d.bus_of s) channel payload d.reads none in
          let s' = d.put_bus bus s in
          let sent : Bool × State h = elim p [ returns err ↦ (true, s') | blocks ↦ (false, s') ] in
          if channel == "" then (true, s) else sent
    ]

    -- The terminal event and, once that is published, markDone.
    unfoldable pub finish_stream :
        String → Lifecycle → Option AgentRunResult → Option GoError → Driven → State h → Driven
    unfolding mark_done publish_lifecycle
    finish_stream channel ev res err x s =
        let (goes_on, s') = publish_lifecycle channel ev s in
        let done : Driven = record {
          handle = mark_done d.is_cancelled res err x.handle;
          state = s';
          published = x.published ++ ev ∷ [];
        } in
        if goes_on then done else record x { state = s' }

    -- driveStream
    unfoldable pub drive_stream : (channel thread_id : String) → Driven → Driven
    unfolding finish_stream run_with
    drive_stream channel thread_id x =
        let (r, s) =
          run_with req.enable_llm_stream channel (asked_or_all req.event_types) x.state in
        elim (reported r) [
          | inr e ↦ finish_stream channel (run_error e.text) none (some e) x s
          | inl res ↦ finish_stream channel (run_finished thread_id run_id res) (some res) none x s
        ]
