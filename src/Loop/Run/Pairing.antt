-- ===== src/Loop/Run/Pairing.antt =====
-- The messages of a run: the calls of each round stand before their answers.
use agent_sdk_go.Prelude.{
  ℕ, suc, ◌<◌, ◌≡◌, ◌⊎◌, inl, inr, refl, sym, ◌∙◌, subst, Bool, true, false, Option, List, [], ◌∷◌,
  ◌++◌, map, String, arith, if◌then◌else◌, if_keeps, sub64, nat_beq, length, Bool-cases, ⊎-cases,
  append_nil, append_snoc,
}
use agent_sdk_go.CircuitBreaker
use agent_sdk_go.Agent.{
  Message, ToolCall, ToolCallRequest, assistant, tool, LlmResult, GoError, merge_llm_usage,
}
use agent_sdk_go.Loop.{
  Host, LlmInput, State, LocalRuntime, AgentLoopInput, AgentLoopResult, ToolResult,
}
use agent_sdk_go.Loop.Gate.{check_budget, enforce_budget_if_exceeded}
use agent_sdk_go.Loop.Llm.{invoke_llm_with_error_control}
use agent_sdk_go.Loop.Batch.{execute_tools_sequential, execute_tools_parallel}
use agent_sdk_go.Loop.Batch.Slots.{
  SlotAnswered, some_inj, has_index, sequential_answers, parallel_answers,
}
use agent_sdk_go.Loop.Tool.Answers.{Answers}
use agent_sdk_go.Loop.Rounds.{
  RoundState, Exit, again, finished, Contexts, apply_results, save_iteration, assistant_message,
  plain_message, call_of_request, request,
}
use agent_sdk_go.Loop.Round.{
  count_call, finish, act, final_call, run_tools, after_results, tools_round, at_limit, after_llm,
  tick, round,
}
use agent_sdk_go.Loop.Run.Exits.{Exits, gated-Exits}

-- The result of a switch with two cases and an error.
picked :
    {X E : Type 0} (a b : Bool) (x y r : X) (e : E)
    → (if a then inl x else if b then inl y else inr e) ≡ inl r
    → (x ≡ r) ⊎ (y ≡ r)
picked true b x y r e same = inl cc
picked false true x y r e same = inr cc
picked false false x y r e same = cc

module _ (h : Host) where
  -- One answer for each call, in the order of the calls.
  abbrev pub Answered : List (ToolCallRequest h.circuit.Args) → List (ToolResult h) → Type 0
  Answered tcs results = (length results ≡ length tcs) × ((i : ℕ) → SlotAnswered h tcs results i)

  -- Messages of tools that answer calls, one each and in their order, with their ids and names.
  pub AnswerEach : List (ToolCall h.circuit.Args) → List (Message h.circuit.Args) → Type 0
  AnswerEach [] [] = Unit
  AnswerEach [] (a ∷ answers) = ⊥
  AnswerEach (c ∷ calls) [] = ⊥
  AnswerEach (c ∷ calls) (a ∷ answers) =
      ((a.role ≡ tool) × (a.tool_call_id ≡ c.tool_call_id) × (a.tool_name ≡ c.tool_name))
      × AnswerEach calls answers

  -- A round after the model's result: the assistant's message has its content and exactly its calls.
  pub record IsRound (result : LlmResult h.circuit.Args) (m : Message h.circuit.Args)
      (answers : List (Message h.circuit.Args)) : Type 0 where
    pub from_assistant : m.role ≡ assistant
    pub same_content : m.content ≡ result.content
    pub same_calls :
        m.tool_calls
        ≡ map
            (λ (tc : ToolCallRequest h.circuit.Args). record {
              tool_call_id = tc.tool_call_id;
              tool_name = tc.tool_name;
              args = tc.args;
            })
            result.tool_calls
    pub answered : AnswerEach m.tool_calls answers

  -- A result that a call of the model has given.
  abbrev pub FromModel : LocalRuntime h → LlmResult h.circuit.Args → Type 0
  FromModel rt result =
      (input : AgentLoopInput h) × (req : LlmInput h.circuit.Args h.Tool) × (fb : Bool) × (s : State
        h)
      × (fb' : Bool) × ((invoke_llm_with_error_control h rt input req fb s).0 ≡ inl (result, fb'))

  -- After the messages of the start: rounds of an assistant's message with calls and their answers.
  pub data Paired (rt : LocalRuntime h) (start : List (Message h.circuit.Args))
      : List (Message h.circuit.Args) → Type 0 where
    no_round : Paired rt start start
    one_more :
        (ms : List (Message h.circuit.Args)) (result : LlmResult h.circuit.Args)
        (m : Message h.circuit.Args) (answers : List (Message h.circuit.Args))
        (before : Paired rt start ms) (from_model : FromModel rt result)
        (is_round : IsRound result m answers)
        → Paired rt start ((ms ++ m ∷ []) ++ answers)

  each-Answered :
      (tcs : List (ToolCallRequest h.circuit.Args)) (results : List (ToolResult h))
      → length results ≡ length tcs
      → ((i : ℕ) → SlotAnswered h tcs results i)
      → AnswerEach (map (call_of_request h) tcs) (map (λ r. r.message) results)
  unfolding AnswerEach
  each-Answered [] [] same slots = tt
  each-Answered [] (r ∷ results) same slots = ground arith
  each-Answered (tc ∷ tcs) [] same slots = ground arith
  each-Answered (tc ∷ tcs) (r ∷ results) same slots =
      let (r', e, a) = slots 0 tc refl in
      let a' : Answers h tc r = subst (λ x. Answers h tc x) (sym (some_inj e)) a in
      (
        (a'.is_tool, a'.same_id, a'.same_name),
        each-Answered tcs results (ground arith) (λ i. slots (suc i)),
      )

  assistant_message-IsRound :
      (result : LlmResult h.circuit.Args) (results : List (ToolResult h))
      → Answered result.tool_calls results
      → IsRound result (assistant_message h result) (map (λ r. r.message) results)
  unfolding assistant_message
  assistant_message-IsRound result results (same, slots) = record {
    from_assistant = refl;
    same_content = refl;
    same_calls = refl;
    answered = each-Answered result.tool_calls results same slots;
  }

  -- The last message is the assistant's, without calls.
  pub record Ended (rt : LocalRuntime h) (start ms : List (Message h.circuit.Args)) : Type 0 where
    pub rounds_before : List (Message h.circuit.Args)
    pub last : Message h.circuit.Args
    pub paired : Paired rt start rounds_before
    pub from_assistant : last.role ≡ assistant
    pub no_calls : last.tool_calls ≡ []
    pub ends : ms ≡ rounds_before ++ last ∷ []

  abbrev pub InRounds : LocalRuntime h → List (Message h.circuit.Args) → RoundState h → Type 0
  InRounds rt start rs = Paired rt start rs.messages

  abbrev pub AtEnd : LocalRuntime h → List (Message h.circuit.Args) → RoundState h → Type 0
  AtEnd rt start rs = Ended rt start rs.messages

  apply_results-messages :
      (input : AgentLoopInput h) (tcs : List (ToolCallRequest h.circuit.Args))
      (results : List (ToolResult h)) (rs : RoundState h) (s : State h)
      → length results ≡ length tcs
      → (apply_results h input tcs results rs s).0.messages
        ≡ rs.messages ++ map (λ r. r.message) results
  unfolding apply_results
  apply_results-messages input [] [] rs s same = sym (append_nil rs.messages)
  apply_results-messages input [] (r ∷ results) rs s same = ground arith
  apply_results-messages input (tc ∷ tcs) [] rs s same = ground arith
  apply_results-messages input (tc ∷ tcs) (r ∷ results) rs s same =
      apply_results-messages input tcs results _ _ (ground arith)
      ∙ append_snoc rs.messages r.message (map (λ r. r.message) results)

  save_iteration-messages :
      (rt : LocalRuntime h) (input : AgentLoopInput h) (rs : RoundState h) (s : State h)
      → (save_iteration h rt input rs s).0.messages ≡ rs.messages
  unfolding save_iteration
  save_iteration-messages rt input rs s = ground arith

  -- The goroutines of a parallel round all run.
  abbrev pub AllRun : Type 0
  AllRun = (n i : ℕ) (w : h.W) → i < n → has_index i (h.schedule n w) ≡ true

  module _
      (delegate : LocalRuntime h
        → AgentLoopInput h
        → Option ℕ
        → State h
        → (AgentLoopResult h ⊎ GoError) × State h)
      (rt : LocalRuntime h) (start : List (Message h.circuit.Args)) where
    run_tools-Answered :
        (input : AgentLoopInput h) (id : String) (tcs : List (ToolCallRequest h.circuit.Args))
        (s : State h) (r : List (ToolResult h) × State h)
        → AllRun
        → run_tools h delegate rt input id tcs s ≡ inl r
        → Answered tcs r.0
    unfolding run_tools
    run_tools-Answered input id tcs s r all_run e =
        let parallel =
          execute_tools_parallel h delegate rt input id (h.schedule (length tcs) s.w) tcs s in
        let sequential = execute_tools_sequential h delegate rt input id tcs s in
        let p =
          parallel_answers h delegate rt input id tcs (h.schedule (length tcs) s.w) s
            (λ i inside. all_run (length tcs) i s.w inside) in
        let q = sequential_answers h delegate rt input id tcs s in
        elim (picked _ _ parallel sequential r _ e) [
          | inl first ↦ subst (λ x. Answered tcs x.0) first p
          | inr second ↦ subst (λ x. Answered tcs x.0) second q
        ]

    after_results-Exits :
        (input : AgentLoopInput h) (rs : RoundState h) (s : State h)
        → InRounds rt start rs
        → Exits h
            (InRounds rt start)
            (AtEnd rt start)
            (InRounds rt start)
            (after_results h delegate rt input rs s).0
    unfolding after_results
    after_results-Exits input rs s paired =
        let s₁ : State h = record s {
          breaker = CircuitBreaker.restore s.breaker (CircuitBreaker.state s.breaker);
        } in
        let g = enforce_budget_if_exceeded h rt input rs.telemetry s₁ in
        let rs₁ : RoundState h = record rs { telemetry = g.0.1 } in
        let saved = save_iteration-messages rt input rs₁ g.1 in
        gated-Exits h (InRounds rt start) (AtEnd rt start) (InRounds rt start) g rs
          (λ rs' s'. let (rs'', s'') = save_iteration h rt input rs' s' in (again rs'', s'')) paired
          (subst (λ ms. Paired rt start ms) (sym saved) paired)

    tools_round-Exits :
        (input : AgentLoopInput h) (id : String) (result : LlmResult h.circuit.Args)
        (rs : RoundState h) (s : State h)
        → FromModel rt result
        → AllRun
        → InRounds rt start rs
        → Exits h
            (InRounds rt start)
            (AtEnd rt start)
            (InRounds rt start)
            (tools_round h delegate rt input id result rs s).0
    unfolding tools_round
    tools_round-Exits input id result rs s given all_run paired =
        elim (⊎-cases (run_tools h delegate rt input id result.tool_calls s)) [
          | inr (e, bad) ↦ rw (bad, tools_round) tt
          | inl ((results, s₁), good) ↦
              let answers =
                run_tools-Answered input id result.tool_calls s (results, s₁) all_run good in
              let rs₁ : RoundState h = record rs {
                messages = rs.messages ++ assistant_message h result ∷ [];
              } in
              let x = apply_results h input result.tool_calls results rs₁ s₁ in
              let messages =
                apply_results-messages input result.tool_calls results rs₁ s₁ answers.0 in
              let longer =
                subst (λ ms. Paired rt start ms) (sym messages)
                  (one_more rs.messages result (assistant_message h result)
                    (map (λ r. r.message) results) paired given
                    (assistant_message-IsRound result results answers)) in
              rw (good, tools_round) (after_results-Exits input x.0 x.1 longer)
        ]

    final_call-Exits :
        (input : AgentLoopInput h) (ctx : Contexts h) (iter : ℕ) (rs : RoundState h) (s : State h)
        → InRounds rt start rs
        → Exits h
            (InRounds rt start)
            (AtEnd rt start)
            (InRounds rt start)
            (final_call h rt input ctx iter rs s).0
    unfolding final_call
    final_call-Exits input ctx iter rs s paired =
        let (id, w₁) = h.uuid s.w in
        let call =
          invoke_llm_with_error_control h rt input (request h input ctx rs iter id true)
            rs.use_fallback (record s { w = w₁ }) in
        elim (⊎-cases call.0) [
          | inr (e, bad) ↦ rw (bad, final_call) tt
          | inl ((result, fb), good) ↦
              let g = check_budget h rt input rs.telemetry result.usage call.1 in
              let ended : Ended rt start (rs.messages ++ plain_message h result.content ∷ []) =
                record {
                  rounds_before = rs.messages;
                  last = plain_message h result.content;
                  paired = paired;
                  from_assistant = refl;
                  no_calls = refl;
                  ends = refl;
                } in
              rw (good, final_call)
                (gated-Exits h (InRounds rt start) (AtEnd rt start) (InRounds rt start) g
                  (record rs { llm_usage = merge_llm_usage rs.llm_usage result.usage })
                  (λ rs' s'. (finished (finish h result rs'), s')) paired ended)
        ]

    at_limit-Exits :
        (input : AgentLoopInput h) (ctx : Contexts h) (iter : ℕ) (id : String)
        (result : LlmResult h.circuit.Args) (rs : RoundState h) (s : State h)
        → FromModel rt result
        → AllRun
        → InRounds rt start rs
        → Exits h
            (InRounds rt start)
            (AtEnd rt start)
            (InRounds rt start)
            (at_limit h delegate rt input ctx iter id result rs s).0
    unfolding at_limit
    at_limit-Exits input ctx iter id result rs s given all_run paired =
        if_keeps
          (λ (x : Exit h × State h).
            Exits h (InRounds rt start) (AtEnd rt start) (InRounds rt start) x.0)
          _ (tools_round-Exits input id result _ s given all_run paired)
          (final_call-Exits input ctx iter rs s paired)

    act-Exits :
        (input : AgentLoopInput h) (ctx : Contexts h) (iter : ℕ) (id : String)
        (result : LlmResult h.circuit.Args) (rs : RoundState h) (s : State h)
        → FromModel rt result
        → AllRun
        → InRounds rt start rs
        → Exits h
            (InRounds rt start)
            (AtEnd rt start)
            (InRounds rt start)
            (act h delegate rt input ctx iter id result rs s).0
    unfolding act
    act-Exits input ctx iter id result rs s given all_run paired =
        let ended : Ended rt start (rs.messages ++ plain_message h result.content ∷ []) = record {
          rounds_before = rs.messages;
          last = plain_message h result.content;
          paired = paired;
          from_assistant = refl;
          no_calls = refl;
          ends = refl;
        } in
        elim (Bool-cases (nat_beq (length result.tool_calls) 0)) [
          | inl none_left ↦ rw (none_left, act) ended
          | inr calls ↦ elim (Bool-cases (nat_beq iter (sub64 rs.max_iter 1))) [
            | inl last ↦
                rw (calls, last, act)
                  (at_limit-Exits input ctx iter id result rs s given all_run paired)
            | inr more ↦
                rw (calls, more, act) (tools_round-Exits input id result rs s given all_run paired)
          ]
        ]

    after_llm-Exits :
        (input : AgentLoopInput h) (ctx : Contexts h) (iter : ℕ) (id : String)
        (result : LlmResult h.circuit.Args) (fb : Bool) (rs : RoundState h) (s : State h)
        → FromModel rt result
        → AllRun
        → InRounds rt start rs
        → Exits h
            (InRounds rt start)
            (AtEnd rt start)
            (InRounds rt start)
            (after_llm h delegate rt input ctx iter id result fb rs s).0
    unfolding after_llm
    after_llm-Exits input ctx iter id result fb rs s given all_run paired =
        let rs₁ : RoundState h = record rs {
          use_fallback = if fb then true else rs.use_fallback;
          telemetry = count_call h rs.telemetry;
          llm_usage = merge_llm_usage rs.llm_usage result.usage;
        } in
        let g = check_budget h rt input rs₁.telemetry result.usage s in
        gated-Exits h (InRounds rt start) (AtEnd rt start) (InRounds rt start) g rs₁
          (λ rs₂ s₂. act h delegate rt input ctx iter id result rs₂ s₂) paired
          (act-Exits input ctx iter id result (record rs₁ { telemetry = g.0.1 }) g.1 given all_run
            paired)

    pub round-InRounds :
        (input : AgentLoopInput h) (ctx : Contexts h) (iter : ℕ) (rs : RoundState h) (s : State h)
        → AllRun
        → InRounds rt start rs
        → Exits h
            (InRounds rt start)
            (AtEnd rt start)
            (InRounds rt start)
            (round h delegate rt input ctx iter rs s).0
    unfolding round
    round-InRounds given ctx iter rs s all_run paired =
        let (input, s₁) = tick h delegate given s in
        let (id, w₂) = h.uuid s₁.w in
        let call =
          invoke_llm_with_error_control h rt input (request h input ctx rs iter id false)
            rs.use_fallback (record s₁ { w = w₂ }) in
        elim (⊎-cases call.0) [
          | inr (e, bad) ↦ rw (bad, round) tt
          | inl ((result, fb), good) ↦
              rw (good, round)
                (after_llm-Exits input ctx iter id result fb rs call.1
                  (
                    input,
                    request h input ctx rs iter id false,
                    rs.use_fallback,
                    record s₁ { w = w₂ },
                    fb,
                    good,
                  )
                  all_run paired)
        ]
