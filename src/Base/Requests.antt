-- ===== src/Base/Requests.antt =====
-- The requests to the model: BuildLLMRequest of internal/runtime/base/runtime.go, ApplyLLMSampling of
-- utils.go, and sanitize.go.
use mathlib.Core.List.{map-append}
use native.Mathlib.Nat.{suc-add}
use Prim.Native.String.{◌++◌ as str_append}
use agent_sdk_go.Prelude.{
  ℕ, zero, suc, ◌+◌, ◌<◌, ◌≤◌, Bool, true, false, Option, none, some, List, [], ◌∷◌, ◌++◌, map,
  String, inl, inr, string_eq, ◌==◌, ◌≡◌, refl, ap, if◌then◌else◌, length, arith, Bool-cases, lt64,
  ◌∙◌,
}
use agent_sdk_go.Agent.{Message, user}
use agent_sdk_go.Base.{Outside, Args, LlmRequest, LlmSampling, ResponseFormat, ToolSpec}

-- Fields that the zero value leaves as they are.
abbrev or_keep : {A : Type 0} → Option A → Option A → Option A
or_keep (some a) old = some a
or_keep none old = old

abbrev user_text : {A : Type 0} → String → Message A
user_text content = record {
  role = user;
  content = content;
  tool_name = "";
  tool_call_id = "";
  tool_calls = [];
}

module _ (o : Outside) where
  open o use {Value, Float, Schema, replace_all, contains, byte_len, trim}

  -- The loop that collapses blank lines, on fuel.
  unfoldable pub collapse : ℕ → String → String
  collapse zero s = s
  collapse (suc fuel) s =
      let again = collapse fuel (replace_all s "\n\n\n" "\n\n") in
      if contains s "\n\n\n" then again else s

  unfoldable pub sanitize_content : String → String
  unfolding collapse
  sanitize_content s =
      let stripped = o.replace_whitespace (o.replace_session_ids (o.replace_timestamps s)) in
      let lines = replace_all stripped "\r\n" "\n" in
      if s == "" then s else trim (collapse (byte_len lines) lines)

  unfoldable pub sanitize_messages : List (Message (Args o)) → List (Message (Args o))
  unfolding sanitize_content
  sanitize_messages [] = []
  sanitize_messages (msg ∷ msgs) =
      record msg { content = sanitize_content msg.content } ∷ sanitize_messages msgs

  -- A request with these, and no more.
  abbrev pub plain_request :
      String → Option (ResponseFormat Schema) → List (Message (Args o)) → LlmRequest o
  plain_request prompt format messages = record {
    system_message = prompt;
    response_format = format;
    tools = [];
    messages = messages;
    temperature = none;
    max_tokens = 0;
    top_p = none;
    top_k = none;
    reasoning = none;
  }

  unfoldable pub apply_llm_sampling : Option (LlmSampling Float) → LlmRequest o → LlmRequest o
  apply_llm_sampling none req = req
  apply_llm_sampling (some s) req = record req {
    temperature = or_keep s.temperature req.temperature;
    max_tokens = if lt64 0 s.max_tokens then s.max_tokens else req.max_tokens;
    top_p = or_keep s.top_p req.top_p;
    top_k = or_keep s.top_k req.top_k;
    reasoning = or_keep s.reasoning req.reasoning;
  }

  apply_llm_sampling_keeps :
      (sampling : Option (LlmSampling Float)) (req : LlmRequest o)
      → ((apply_llm_sampling sampling req).messages ≡ req.messages)
        × ((apply_llm_sampling sampling req).system_message ≡ req.system_message)
        × ((apply_llm_sampling sampling req).response_format ≡ req.response_format)
  unfolding apply_llm_sampling
  apply_llm_sampling_keeps none req = (refl, refl, refl)
  apply_llm_sampling_keeps (some s) req = (refl, refl, refl)

  -- The messages that BuildLLMRequest puts before the conversation.
  unfoldable pub context_messages : String → String → List (Message (Args o))
  context_messages memory_context retriever_context =
      (if memory_context == ""
        then []
        else user_text (str_append "Relevant Memories:\n" memory_context) ∷ [])
      ++ (if retriever_context == ""
          then []
          else user_text (str_append "Relevant Context:\n" retriever_context) ∷ [])

  module _ {Tool : Type 0} (to_spec : Tool → ToolSpec Schema) where
    -- The runtime's system prompt, response format and sampling are arguments; `to_spec` is
    -- interfaces.ToolToSpec.
    unfoldable pub build_llm_request :
        String
        → Option (ResponseFormat Schema)
        → Option (LlmSampling Float)
        → List (Message (Args o))
        → (skip_tools : Bool) (memory_context retriever_context : String) → List Tool
        → LlmRequest o
    unfolding context_messages sanitize_messages apply_llm_sampling
    build_llm_request prompt format sampling messages skip_tools memory_context retriever_context
          tools =
        let sanitized = sanitize_messages messages in
        let req =
          plain_request prompt format
            (context_messages memory_context retriever_context ++ sanitized) in
        record (apply_llm_sampling sampling req) {
          tools = if skip_tools then [] else map to_spec tools;
        }

    -- A message without its text.
    abbrev pub bare : Message (Args o) → Message (Args o)
    bare m = record m { content = "" }

    bare-sanitize :
        (msgs : List (Message (Args o))) → map bare (sanitize_messages msgs) ≡ map bare msgs
    unfolding sanitize_messages
    bare-sanitize [] = refl
    bare-sanitize (m ∷ msgs) = ap (λ ms. bare m ∷ ms) (bare-sanitize msgs)

    -- Everything in a request but the texts of its messages, whatever the sampling settings are: after
    -- at most two messages of the user stands the conversation, each message in its place with its
    -- role, name, id and calls; the tools are those of the run, or none where they are skipped; the
    -- prompt and the format are those of the runtime.
    pub build_llm_request_lem :
        (prompt : String) (format : Option (ResponseFormat Schema))
        (sampling : Option (LlmSampling Float)) (messages : List (Message (Args o)))
        (skip_tools : Bool) (memory_context retriever_context : String) (tools : List Tool)
        → let req =
            build_llm_request prompt format sampling messages skip_tools memory_context
              retriever_context tools in
          (before : List (Message (Args o))) × (map bare req.messages
            ≡ map bare before ++ map bare messages)
          × (length before ≤ 2)
          × (map (λ m. m.role) before ≡ map (λ _. user) before)
          × (req.tools ≡ (if skip_tools then [] else map to_spec tools))
          × (req.system_message ≡ prompt)
          × (req.response_format ≡ format)
    unfolding build_llm_request context_messages apply_llm_sampling
    build_llm_request_lem prompt format sampling messages skip_tools memory_context
          retriever_context tools =
        let before = context_messages memory_context retriever_context in
        let same : map bare (before ++ sanitize_messages messages)
            ≡ map bare before ++ map bare messages =
          map-append bare before (sanitize_messages messages)
          ∙ ap (λ ms. map bare before ++ ms) (bare-sanitize messages) in
        let kept =
          apply_llm_sampling_keeps sampling
            (plain_request prompt format (before ++ sanitize_messages messages)) in
        (before, ap (map bare) kept.0 ∙ same, ground arith, ground arith, refl, kept.1, kept.2)

  collapse_done : (fuel : ℕ) (s : String) → contains s "\n\n\n" ≡ false → collapse fuel s ≡ s
  unfolding collapse
  collapse_done zero s done = refl
  collapse_done (suc fuel) s done = rw done

  -- The loop that collapses blank lines ends before the fuel does, whatever the text: no three line
  -- ends in a row are left, and more fuel gives the same text, where strings.ReplaceAll makes a text
  -- shorter that has three line ends in a row.
  collapse_ends :
      (shorter : (s : String)
        → contains s "\n\n\n" ≡ true
        → byte_len (replace_all s "\n\n\n" "\n\n") < byte_len s)
      (fuel more : ℕ) (s : String)
      → byte_len s ≤ fuel
      → (contains (collapse fuel s) "\n\n\n" ≡ false) × (collapse (fuel + more) s ≡ collapse fuel s)
  unfolding collapse
  collapse_ends shorter zero more s enough =
      let done : contains s "\n\n\n" ≡ false = elim (Bool-cases (contains s "\n\n\n")) [
        | inl more_ ↦ absurd (omega (arith, shorter s more_))
        | inr e ↦ e
      ] in
      (done, collapse_done (0 + more) s done)
  collapse_ends shorter (suc fuel) more s enough = elim (Bool-cases (contains s "\n\n\n")) [
    | inl again ↦
        let (left, same) =
          collapse_ends shorter fuel more (replace_all s "\n\n\n" "\n\n")
            (omega (arith, shorter s again)) in
        (rw again left, rw (suc-add, collapse, again) same)
    | inr done ↦ (rw done done, collapse_done (suc fuel + more) s done ∙ rw done)
  ]
