-- ===== src/Base/Streaming.antt =====
-- The calls of the model: ExecuteLLM and ExecuteLLMStream of internal/runtime/base/runtime.go, with the
-- hooks around them (internal/runtime/base/hooks.go) and the events that they emit.
use agent_sdk_go.Prelude.{
  Bool, true, false, not, Option, none, some, List, [], ◌∷◌, ◌++◌, String, string_eq, ◌==◌, ◌⊎◌,
  inl, if◌then◌else◌,
}
use agent_sdk_go.CircuitBreaker.{ToolKind}
use agent_sdk_go.Agent.{LlmResult, GoError}
use agent_sdk_go.Hooks.{RunMeta, HookGroup, run_before_llm, run_after_llm}
use agent_sdk_go.Config.Approval.{ApprovalPolicy, llm_response_to_result}
use agent_sdk_go.Loop.{LlmInput}
use agent_sdk_go.Base.{
  Outside, Args, LlmRequest, LlmResponse, LlmSampling, ResponseFormat, ToolSpec, payloads,
}
use agent_sdk_go.Base.Requests.{build_llm_request}

-- The events of a call of the model, of internal/events, with their payloads. The roles are constants
-- of the source and left out.
pub data TextEvent : Type 0 where
  text_start : (message_id : String) → TextEvent
  text_content : (message_id delta : String) → TextEvent
  text_end : (message_id : String) → TextEvent
  reasoning_start : (message_id : String) → TextEvent
  reasoning_message_start : (message_id : String) → TextEvent
  reasoning_message_content : (message_id delta : String) → TextEvent
  reasoning_message_end : (message_id : String) → TextEvent
  reasoning_end : (message_id : String) → TextEvent

-- interfaces.LLMStreamChunk; the loop does not read its calls.
pub record Chunk : Type 0 where
  pub content_delta : String
  pub thinking_delta : String

-- What one stream gives: Current after each Next that is true, then Err and GetResult.
pub record LlmStream (o : Outside) : Type 0 where
  pub chunks : List (Option Chunk)
  pub err : Option GoError
  pub result : Option (LlmResponse o)

-- interfaces.LLMClient. Generate without an error gives a response that is not nil.
pub record LlmClient (o : Outside) : Type 0 where
  pub generate : LlmRequest o → o.W → (LlmResponse o ⊎ GoError) × o.W
  pub generate_stream : LlmRequest o → o.W → (LlmStream o ⊎ GoError) × o.W
  pub is_stream_supported : Bool

-- What base.Runtime holds of the agent for a call of the model, and interfaces.Tool.
pub record LlmRuntime (o : Outside) : Type 1 where
  pub system_prompt : String
  pub response_format : Option (ResponseFormat o.Schema)
  pub sampling : Option (LlmSampling o.Float)
  pub hooks : List (HookGroup (payloads o))
  pub Tool : Type 0
  pub to_spec : Tool → ToolSpec o.Schema
  pub tool_name : Tool → String
  pub display_name : Tool → String
  pub kind_of : Tool → ToolKind
  pub approval_required : Tool → Bool
  pub policy : Option (ApprovalPolicy Tool)

-- The world and what `Emit` was called with. A nil `Emit` is one whose events nobody reads.
pub record Emitted (W : Type 0) : Type 0 where
  pub world : W
  pub events : List TextEvent

-- emitEvent
abbrev pub emit_event : {W : Type 0} → TextEvent → Emitted W → Emitted W
emit_event ev s = record s { events = s.events ++ ev ∷ [] }

-- The flags of a streaming call: textMsgOpen, reasoningPhaseOpen with reasoningMsgOpen, reasoningMID.
pub record Flags : Type 0 where
  pub text_open : Bool
  pub phase_open : Bool
  pub msg_open : Bool
  pub reasoning_id : String

module _ {W : Type 0} (message_id : String) where
  unfoldable pub open_text_msg : Flags → Emitted W → Flags × Emitted W
  open_text_msg f s =
      if f.text_open
      then (f, s)
      else (record f { text_open = true }, emit_event (text_start message_id) s)

  unfoldable pub close_text_msg : Flags → Emitted W → Flags × Emitted W
  close_text_msg f s =
      if not f.text_open
      then (f, s)
      else (record f { text_open = false }, emit_event (text_end message_id) s)

  unfoldable pub finalize_assistant_text : String → Flags → Emitted W → Flags × Emitted W
  unfolding open_text_msg close_text_msg
  finalize_assistant_text content f s =
      let (f', s') = open_text_msg f s in
      if f.text_open
      then close_text_msg f s
      else close_text_msg f' (emit_event (text_content message_id content) s')

unfoldable pub flush_reasoning : {W : Type 0} → Flags → Emitted W → Flags × Emitted W
flush_reasoning f s =
    let s' = if f.msg_open then emit_event (reasoning_message_end f.reasoning_id) s else s in
    (
      record f { phase_open = false; msg_open = false },
      if f.phase_open then emit_event (reasoning_end f.reasoning_id) s' else s',
    )

module _ (o : Outside) where
  unfoldable pub open_reasoning : Flags → Emitted o.W → Flags × Emitted o.W
  open_reasoning f s =
      let (id, w) = o.uuid s.world in
      if f.phase_open then (f, s) else (
        record f { phase_open = true; msg_open = true; reasoning_id = id },
        emit_event (reasoning_message_start id)
            (emit_event (reasoning_start id) (record s { world = w })),
      )

  -- The body of the loop for a chunk that is not nil: first its text, then its reasoning.
  unfoldable pub text_chunk : String → String → Flags → Emitted o.W → Flags × Emitted o.W
  unfolding flush_reasoning open_text_msg
  text_chunk message_id delta f s =
      let (f', s') = flush_reasoning f s in
      let (f'', s'') = open_text_msg message_id f' s' in
      if delta == "" then (f, s) else (f'', emit_event (text_content message_id delta) s'')

  unfoldable pub thinking_chunk : String → Flags → Emitted o.W → Flags × Emitted o.W
  unfolding open_reasoning
  thinking_chunk delta f s =
      let (f', s') = open_reasoning f s in
      if delta == ""
      then (f, s)
      else (f', emit_event (reasoning_message_content f'.reasoning_id delta) s')

  -- The loop over the stream.
  unfoldable pub drain : String → List (Option Chunk) → Flags → Emitted o.W → Flags × Emitted o.W
  unfolding text_chunk thinking_chunk
  drain message_id [] f s = (f, s)
  drain message_id (none ∷ chunks) f s = drain message_id chunks f s
  drain message_id (some c ∷ chunks) f s =
      let (f', s') = text_chunk message_id c.content_delta f s in
      let (f'', s'') = thinking_chunk c.thinking_delta f' s' in drain message_id chunks f'' s''

abbrev pub all_closed : Flags
all_closed = record { text_open = false; phase_open = false; msg_open = false; reasoning_id = "" }

abbrev pub no_result : GoError
no_result = record { text = "stream completed without result"; is_budget_exceeded = false }

module _ (o : Outside) (rt : LlmRuntime o) (input : LlmInput (Args o) rt.Tool) where
  -- hookRunMeta
  unfoldable pub hook_run_meta : RunMeta
  hook_run_meta = record { run_id = input.run_id; iteration = input.iteration; hooks_group = "" }

  -- runBeforeLLMRequest and runAfterLLMResponse
  unfoldable pub run_before_llm_request :
      LlmRequest o → Emitted o.W → (LlmRequest o ⊎ GoError) × Emitted o.W
  unfolding run_before_llm hook_run_meta
  run_before_llm_request req s = elim rt.hooks [
    | [] ↦ (inl req, s)
    | g ∷ gs ↦
        let (r, w) = run_before_llm rt.hooks hook_run_meta req s.world in
        (r, record s { world = w })
  ]

  unfoldable pub run_after_llm_response :
      LlmResponse o → Emitted o.W → (LlmResponse o ⊎ GoError) × Emitted o.W
  unfolding run_after_llm hook_run_meta
  run_after_llm_response resp s = elim rt.hooks [
    | [] ↦ (inl resp, s)
    | g ∷ gs ↦
        let (r, w) = run_after_llm rt.hooks hook_run_meta resp s.world in
        (r, record s { world = w })
  ]

  abbrev pub to_result : LlmResponse o → LlmResult (Args o)
  to_result resp =
      llm_response_to_result rt.tool_name rt.display_name rt.kind_of rt.approval_required rt.policy
        input.tools resp.content resp.tool_calls resp.usage

  unfoldable pub request : LlmRequest o
  unfolding build_llm_request
  request =
      build_llm_request o rt.to_spec rt.system_prompt rt.response_format rt.sampling input.messages
        input.skip_tools input.memory_context input.retriever_context input.tools
