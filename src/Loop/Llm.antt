-- ===== src/Loop/Llm.antt =====
-- invokeLLM and invokeLLMWithErrorControl of internal/runtime/local/agent_loop.go, without a durable
-- step runner: one call of the model under its policy, and once more on the fallback client.
use agent_sdk_go.Prelude.{Bool, true, false, ◌⊎◌, inl, inr, if◌then◌else◌}
use agent_sdk_go.ErrorControl.{
  LlmFailureInfo, ErrorControlAction, fallback_model, resolve_llm_client, decide_llm_failure,
  llm_policy_attempts,
}
use agent_sdk_go.Retry.{execute_with_policy}
use agent_sdk_go.Agent.{LlmResult, GoError}
use agent_sdk_go.Loop.{Host, State, LocalRuntime, AgentLoopInput, LlmInput, retry_host}

module _ (h : Host) where
  open h use {circuit, Client, Tool, trim}

  -- The client's call under the policy of the model.
  unfoldable pub call_client :
      LocalRuntime h
      → AgentLoopInput h
      → LlmInput circuit.Args Tool
      → Client
      → State h
      → (LlmResult circuit.Args ⊎ GoError) × State h
  call_client rt input req client s =
      execute_with_policy (retry_host h) rt.policies.llm
        (λ deadline s.
          let (r, w) = h.execute_llm client input.streaming_enabled req deadline s.w in
          (r, record s { w = w }))
        s

  unfoldable pub invoke_llm :
      LocalRuntime h
      → AgentLoopInput h
      → LlmInput circuit.Args Tool
      → Bool
      → State h
      → (LlmResult circuit.Args ⊎ GoError) × State h
  invoke_llm rt input req use_fallback s =
      elim (resolve_llm_client trim rt.primary rt.named_clients rt.error_control use_fallback) [
        | inr e ↦ (inr (record { text = h.resolve_text e; is_budget_exceeded = false }), s)
        | inl client ↦ call_client rt input req client s
      ]

  abbrev pub falls_back : ErrorControlAction → Bool
  falls_back fallback_model = true
  falls_back _ = false

  -- The result with the flag that the fallback was used.
  abbrev flagged :
      Bool
      → (LlmResult circuit.Args ⊎ GoError) × State h
      → ((LlmResult circuit.Args × Bool) ⊎ GoError) × State h
  flagged fb (inl r, s) = (inl (r, fb), s)
  flagged fb (inr e, s) = (inr e, s)

  -- What follows a failure of the primary client.
  recover :
      LocalRuntime h
      → AgentLoopInput h
      → LlmInput circuit.Args Tool
      → GoError
      → State h
      → ((LlmResult circuit.Args × Bool) ⊎ GoError) × State h
  recover rt input req e s =
      let info : LlmFailureInfo = record {
        attempt = llm_policy_attempts rt.policies.llm.max_attempts;
        err = e.text;
      } in
      let decision = decide_llm_failure trim rt.primary rt.named_clients rt.error_control info in
      let again = flagged true (invoke_llm rt input req true s) in
      if falls_back decision.action then again else (inr e, s)

  unfoldable pub invoke_llm_with_error_control :
      LocalRuntime h
      → AgentLoopInput h
      → LlmInput circuit.Args Tool
      → Bool
      → State h
      → ((LlmResult circuit.Args × Bool) ⊎ GoError) × State h
  unfolding recover
  invoke_llm_with_error_control rt input req use_fallback s =
      let (r, s₁) = invoke_llm rt input req use_fallback s in
      elim r [
        | inl result ↦ (inl (result, use_fallback), s₁)
        | inr e ↦ if use_fallback then (inr e, s₁) else recover rt input req e s₁
      ]
