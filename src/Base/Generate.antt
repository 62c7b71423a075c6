-- ===== src/Base/Generate.antt =====
-- ExecuteLLM and ExecuteLLMStream of internal/runtime/base/runtime.go.
pub mod Brackets
pub mod Closed
use agent_sdk_go.Prelude.{
  Bool, true, false, not, Option, none, some, List, [], ◌∷◌, String, ◌⊎◌, inl, inr, if◌then◌else◌,
}
use agent_sdk_go.Agent.{LlmResult, GoError}
use agent_sdk_go.Loop.{LlmInput}
use agent_sdk_go.Base.{Outside, Args, LlmRequest, LlmResponse}
use agent_sdk_go.Base.Streaming.{
  LlmStream, LlmClient, LlmRuntime, Emitted, emit_event, text_start, text_content, text_end, Flags,
  finalize_assistant_text, flush_reasoning, drain, all_closed, no_result, run_before_llm_request,
  run_after_llm_response, to_result, request,
}

-- `client` is the client of the input, or the configured one where the input has none.
module _ (o : Outside) (rt : LlmRuntime o) (client : LlmClient o)
    (input : LlmInput (Args o) rt.Tool) where
  abbrev pub Answer : Type 0
  Answer = (LlmResult (Args o) ⊎ GoError) × Emitted o.W

  -- The triple of events of a call without streaming.
  abbrev pub whole_text : String → Emitted o.W → Emitted o.W
  whole_text content s = emit_event (text_end input.message_id) (
      emit_event (text_content input.message_id content)
        (emit_event (text_start input.message_id) s))

  -- What follows the response of a call without streaming.
  unfoldable pub finish_whole : LlmResponse o → Emitted o.W → Answer
  unfolding run_after_llm_response
  finish_whole resp s =
      let (hooked, s') = run_after_llm_response o rt input resp s in
      elim hooked [
        | inr e ↦ (inr e, s')
        | inl resp' ↦
            let result = to_result o rt input resp' in (inl result, whole_text result.content s')
      ]

  unfoldable pub execute_llm : Emitted o.W → Answer
  unfolding finish_whole run_before_llm_request request
  execute_llm s0 =
      let (r, s1) = run_before_llm_request o rt input (request o rt input) s0 in
      elim r [
        | inr e ↦ (inr e, s1)
        | inl req ↦
            let (answer, w) = client.generate req s1.world in
            let s2 : Emitted o.W = record s1 { world = w } in
            elim answer [ inr e ↦ (inr e, s2) | inl resp ↦ finish_whole resp s2 ]
      ]

  -- What follows a response in both branches of a streaming call.
  unfoldable pub finish : LlmResponse o → Flags → Emitted o.W → Answer
  unfolding run_after_llm_response finalize_assistant_text
  finish resp f s =
      let (hooked, s') = run_after_llm_response o rt input resp s in
      elim hooked [
        | inr e ↦ (inr e, s')
        | inl resp' ↦
            let result = to_result o rt input resp' in
            (inl result, (finalize_assistant_text input.message_id result.content f s').1)
      ]

  -- The client does not stream.
  unfoldable pub fall_back : LlmRequest o → Emitted o.W → Answer
  unfolding finish
  fall_back req s =
      let (answer, w) = client.generate req s.world in
      let s' : Emitted o.W = record s { world = w } in
      elim answer [ inr e ↦ (inr e, s') | inl resp ↦ finish resp all_closed s' ]

  -- The events of a stream, and what stands at its end.
  unfoldable pub read_stream : LlmStream o → Emitted o.W → Answer
  unfolding drain flush_reasoning finish
  read_stream stream s =
      let (f, s') = drain o input.message_id stream.chunks all_closed s in
      let (f', s'') = flush_reasoning f s' in
      elim stream.err [
        | some e ↦ (inr e, s'')
        | none ↦ elim stream.result [ none ↦ (inr no_result, s'') | some resp ↦ finish resp f' s'' ]
      ]

  unfoldable pub stream_answer : LlmRequest o → Emitted o.W → Answer
  unfolding read_stream
  stream_answer req s =
      let (opened, w) = client.generate_stream req s.world in
      let s' : Emitted o.W = record s { world = w } in
      elim opened [ inr e ↦ (inr e, s') | inl stream ↦ read_stream stream s' ]

  unfoldable pub execute_llm_stream : Emitted o.W → Answer
  unfolding run_before_llm_request request fall_back stream_answer
  execute_llm_stream s =
      let (r, s') = run_before_llm_request o rt input (request o rt input) s in
      elim r [
        | inr e ↦ (inr e, s')
        | inl req ↦ if client.is_stream_supported then stream_answer req s' else fall_back req s'
      ]
