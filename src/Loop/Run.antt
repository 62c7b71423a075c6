-- ===== src/Loop/Run.antt =====
-- executeAgentLoop of internal/runtime/local/agent_loop.go, without a durable step runner: what is
-- fetched first, the rounds, and the end of the run; a sub-agent's run is the same loop.
pub mod Exits
pub mod Rounding
pub mod Bound
pub mod Ends
pub mod Pairing
pub mod Answers
pub mod Depth
mod Examples
use Prim.Native.String.{◌++◌ as str_append}
use agent_sdk_go.Prelude.{
  ℕ, zero, suc, ◌*◌, Bool, true, false, not, ◌&&◌, ◌||◌, Option, none, some, List, [], ◌∷◌, ◌++◌,
  String, ◌⊎◌, inl, inr, if◌then◌else◌, add64, lt64, le64, ltb, length, drop, if_nil,
}
use agent_sdk_go.CircuitBreaker
use agent_sdk_go.ErrorControl.{effective_max_iterations}
use agent_sdk_go.Retry.{execute_with_policy}
use agent_sdk_go.Agent.{Message, GoError, AgentTelemetry, complete, user}
use agent_sdk_go.Loop.{
  Host, State, LocalRuntime, AgentLoopInput, AgentLoopResult, Searched, RetrieverMode, prefetch,
  hybrid, retry_host,
}
use agent_sdk_go.Loop.Rounds.{
  RoundState, again, finished, returned, Contexts, conversation_memory_enabled,
  persist_conversation_messages,
}
use agent_sdk_go.Loop.Round.{round}

abbrev pub new_telemetry : AgentTelemetry
new_telemetry = record {
  run = record { total_llm_calls = 0; llm_retry_count = 0; finish_reason = complete };
  tools = record { total_calls = 0; failed_calls = 0; breakdown = []; failed_breakdown = [] };
  storage = record {
    total_retriever_searches = 0;
    failed_retriever_searches = 0;
    prefetch_searches = 0;
    agentic_searches = 0;
    total_memory_recalls = 0;
    failed_memory_recalls = 0;
    total_memory_stores = 0;
    failed_memory_stores = 0;
  };
}

module _ (h : Host) where
  open h use {W, circuit}

  -- FetchConversationMessages
  unfoldable pub fetch_conversation_messages :
      LocalRuntime h → String → State h → (List (Message circuit.Args) ⊎ GoError) × State h
  fetch_conversation_messages rt id s =
      let limit = if le64 rt.conversation_size 0 then 20 else rt.conversation_size in
      let (r, w) = h.list_messages id limit s.w in
      if not rt.has_conversation
      then (inr (record { text = "conversation is not configured"; is_budget_exceeded = false }), s)
      else (r, record s { w = w })

  abbrev user_message : String → Message circuit.Args
  user_message content = record {
    role = user;
    content = content;
    tool_name = "";
    tool_call_id = "";
    tool_calls = [];
  }

  -- The messages to start with, and how many of them are history.
  unfoldable pub start_messages :
      LocalRuntime h → AgentLoopInput h → State h → (List (Message circuit.Args) × ℕ) × State h
  unfolding fetch_conversation_messages conversation_memory_enabled
  start_messages rt input s =
      let prompt = user_message input.user_prompt ∷ [] in
      let (r, s₁) = fetch_conversation_messages rt input.conversation_id s in
      if conversation_memory_enabled h rt input
      then elim r [ inl msgs ↦ ((msgs ++ prompt, length msgs), s₁) | inr e ↦ ((prompt, 0), s₁) ]
      else ((prompt, 0), s)

  abbrev pub nothing_found : Searched
  nothing_found = record { context = ""; total = 0; failed = 0 }

  -- The recall of memories.
  unfoldable pub recall_memory :
      LocalRuntime h → AgentLoopInput h → State h → (Searched ⊎ GoError) × State h
  recall_memory rt input s =
      let found =
        execute_with_policy (retry_host h) rt.policies.memory
          (λ deadline s.
            let (r, w) = h.recall input.run_id input.memory_scope input.user_prompt deadline s.w in
            (r, record s { w = w }))
          s in
      if rt.recall_enabled then found else (inl nothing_found, s)

  abbrev prefetches : RetrieverMode → Bool
  prefetches prefetch = true
  prefetches hybrid = true
  prefetches _ = false

  -- The retrievers before the first round.
  unfoldable pub prefetch_context :
      LocalRuntime h → AgentLoopInput h → State h → (Searched ⊎ GoError) × State h
  prefetch_context rt input s =
      let found =
        execute_with_policy (retry_host h) rt.policies.retriever
          (λ deadline s.
            let (r, w) = h.retrieve input.run_id input.user_prompt deadline s.w in
            (r, record s { w = w }))
          s in
      if prefetches rt.retriever_mode && ltb 0 rt.retriever_count
      then found
      else (inl nothing_found, s)

  -- The store of memories at the end of a run; `true` is a store that failed.
  unfoldable pub store_run :
      LocalRuntime h → AgentLoopInput h → RoundState h → State h → RoundState h × State h
  store_run rt input rs s =
      let (r, s₁) =
        execute_with_policy (retry_host h) {A = Bool} rt.policies.memory
          (λ deadline s.
            let (e, w) = h.store_memory input.run_id input.memory_scope rs.messages deadline s.w in
            (if_nil e (inl true) (λ e. inr e), record s { w = w }))
          s in
      let st = rs.telemetry.storage in
      let counted : RoundState h = elim r [
        | inl done ↦ record rs {
          telemetry = record (rs.telemetry) {
            storage = record st { total_memory_stores = add64 st.total_memory_stores 1 };
          };
        }
        | inr e ↦ record rs {
          telemetry = record (rs.telemetry) {
            storage = record st { failed_memory_stores = add64 st.failed_memory_stores 1 };
          };
        }
      ] in
      if rt.run_end_store then (counted, s₁) else (rs, s)

  -- What follows the last round.
  unfoldable pub end_run :
      LocalRuntime h → AgentLoopInput h → RoundState h → State h → RoundState h × State h
  unfolding store_run conversation_memory_enabled persist_conversation_messages
  end_run rt input rs s =
      let saved =
        persist_conversation_messages h rt input.conversation_id (drop rs.persisted rs.messages)
          s in
      store_run rt input rs (
        if conversation_memory_enabled h rt input && ltb rs.persisted (length rs.messages)
        then saved
        else s)

  -- How the rounds end.
  pub data Outcome : Type 0 where
    completed : (rs : RoundState h) → Outcome
    aborted : (result : Option (RoundState h)) (err : GoError) → Outcome
    out_of_fuel : Outcome

  -- The round state before the first round.
  unfoldable pub start_state :
      LocalRuntime h → List (Message circuit.Args) → ℕ → Searched → Searched → RoundState h
  start_state rt msgs history memory found = record {
    messages = msgs;
    telemetry = record new_telemetry {
      storage = record (new_telemetry.storage) {
        total_memory_recalls = memory.total;
        failed_memory_recalls = memory.failed;
        total_retriever_searches = found.total;
        failed_retriever_searches = found.failed;
        prefetch_searches = found.total;
      };
    };
    llm_usage = none;
    last_content = "";
    use_fallback = false;
    extended = false;
    max_iter = effective_max_iterations rt.max_iterations;
    persisted = history;
  }

  -- A run's result and error.
  pub record Returned : Type 0 where
    pub result : Option (RoundState h)
    pub err : Option GoError

  abbrev pub error_return : String → GoError → Returned
  error_return prefix e = record {
    result = none;
    err = some (record e { text = str_append prefix e.text });
  }

  module _
      (delegate : LocalRuntime h
        → AgentLoopInput h
        → Option ℕ
        → State h
        → (AgentLoopResult h ⊎ GoError) × State h) where
    -- for iter := 0; iter < maxIter; iter++
    unfoldable pub rounds :
        ℕ
        → LocalRuntime h
        → AgentLoopInput h
        → Contexts h
        → ℕ
        → RoundState h
        → State h
        → Outcome × State h
    rounds zero rt input ctx iter rs s = (out_of_fuel, s)
    rounds (suc fuel) rt input ctx iter rs s = elim (lt64 iter rs.max_iter) [
      | false ↦ (completed rs, s)
      | true ↦
          let (exit, s') = round h delegate rt input ctx iter rs s in
          elim exit [
            | again rs' ↦ rounds fuel rt input ctx (add64 iter 1) rs' s'
            | finished rs' ↦ (completed rs', s')
            | returned result e ↦ (aborted result e, s')
          ]
    ]

    abbrev conclude : LocalRuntime h → AgentLoopInput h → Outcome → State h → Returned × State h
    conclude rt input (completed rs) s =
        let (rs', s') = end_run rt input rs s in (record { result = some rs'; err = none }, s')
    conclude rt input (aborted result e) s = (record { result = result; err = some e }, s)
    conclude rt input out_of_fuel s = (record { result = none; err = none }, s)

    -- The rounds never use up this fuel: at most one extension at most doubles the bound.
    abbrev pub enough : LocalRuntime h → ℕ
    enough rt = suc (2 * effective_max_iterations rt.max_iterations)

    unfoldable pub run_loop : LocalRuntime h → AgentLoopInput h → State h → Returned × State h
    unfolding start_messages recall_memory prefetch_context start_state
    run_loop rt input s =
        let ((msgs, history), s₁) = start_messages rt input s in
        let (memory, s₂) = recall_memory rt input s₁ in
        elim memory [
          | inr e ↦ (error_return "memory recall: " e, s₂)
          | inl m ↦
              let (found, s₃) = prefetch_context rt input s₂ in
              elim found [
                | inr e ↦ (error_return "retriever prefetch: " e, s₃)
                | inl f ↦
                    let ctx : Contexts h = record { memory = m.context; retrieved = f.context } in
                    let (outcome, s₄) =
                      rounds (enough rt) rt input ctx 0 (start_state rt msgs history m f) s₃ in
                    conclude rt input outcome s₄
              ]
        ]

    -- A run without a breaker makes its own, which its caller does not see.
    unfoldable pub with_breaker : LocalRuntime h → AgentLoopInput h → State h → Returned × State h
    with_breaker rt input s = elim s.breaker [
      | some b ↦ run_loop rt input s
      | none ↦
          let own = record s { breaker = CircuitBreaker.new_circuit_breaker rt.circuit_config } in
          let (r, s') = run_loop rt input own in (r, record s' { breaker = none })
    ]

  -- What executeWithPolicy makes of a sub-agent's return.
  abbrev pub to_result : Returned → AgentLoopResult h ⊎ GoError
  to_result r = elim r.err [
    | some e ↦ inr e
    | none ↦ elim r.result [
      | some rs ↦ inl (record { content = rs.last_content; llm_usage = rs.llm_usage })
      | none ↦ inl (record { content = ""; llm_usage = none })
    ]
  ]

  -- The run of a sub-agent, with `depth` levels of delegation below it. A tool call refuses to go
  -- deeper than MaxSubAgentDepth.
  unfoldable pub delegate_at :
      ℕ
      → LocalRuntime h
      → AgentLoopInput h
      → Option ℕ
      → State h
      → (AgentLoopResult h ⊎ GoError) × State h
  delegate_at zero rt input deadline s =
      (inr (record { text = "too deep"; is_budget_exceeded = false }), s)
  delegate_at (suc depth) rt input deadline s =
      let (r, s') = with_breaker (delegate_at depth) rt input s in (to_result r, s')

  unfoldable pub execute_agent_loop :
      ℕ → LocalRuntime h → AgentLoopInput h → State h → Returned × State h
  execute_agent_loop depth rt input s = with_breaker (delegate_at depth) rt input s
