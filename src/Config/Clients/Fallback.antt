-- ===== src/Config/Clients/Fallback.antt =====
-- The fallback client of an accepted configuration can be resolved.
use agent_sdk_go.Prelude.{
  ◌≡◌, inl, inr, refl, true, false, Option, none, some, [], ◌∷◌, String, string_eq, ◌==◌, arith,
  Bool-cases, Option-cases, beq_iff, subst,
}
use agent_sdk_go.Prelude.GoMap
use agent_sdk_go.Prelude.GoMap.{GoMap}
use agent_sdk_go.CircuitBreaker.{CircuitBreakerConfig}
use agent_sdk_go.ErrorControl.{
  ErrorControlConfig, ErrorControlDecision, LlmFailureInfo, fallback_model, resolve_llm_client,
  decide_llm_failure,
}
use agent_sdk_go.Config.Clients.{validate_named_llm_clients, validate_error_control}

module _ {Client : Type 0} (trim : String → String) where
  lookup-validated :
      (named : GoMap String (Option Client)) (name : String) (c : Option Client)
      → validate_named_llm_clients trim named ≡ none
      → GoMap.lookup name named ≡ some c
      → (trim name == "") ≡ false
  unfolding GoMap.lookup validate_named_llm_clients
  lookup-validated [] name c ok found = cc
  lookup-validated ((key, none) ∷ rest) name c ok found = ground arith
  lookup-validated ((key, some client) ∷ rest) name c ok found = elim (Bool-cases (key == name)) [
    | inl same ↦
        let here : (trim key == "") ≡ false = ground arith in
        subst (λ k. (trim k == "") ≡ false) ((beq_iff key name).0 same) here
    | inr other ↦ lookup-validated rest name c (ground arith) (ground arith)
  ]

  lookup-client :
      (named : GoMap String (Option Client)) (cfg : ErrorControlConfig)
      (cb : Option CircuitBreakerConfig)
      → validate_error_control named (some cfg) cb ≡ none
      → (cfg.fallback_llm_client == "") ≡ false
      → (client : Client) × (GoMap.lookup cfg.fallback_llm_client named ≡ some (some client))
  unfolding validate_error_control
  lookup-client named cfg cb ok set =
      elim (Option-cases (GoMap.lookup cfg.fallback_llm_client named)) [
        | inl missing ↦ ground arith
        | inr (none, nil) ↦ ground arith
        | inr (some client, found) ↦ (client, found)
      ]

  module _ (primary : Client) (named : GoMap String (Option Client)) where
    resolve-found :
        (cfg : ErrorControlConfig) (client : Client)
        → validate_named_llm_clients trim named ≡ none
        → GoMap.lookup cfg.fallback_llm_client named ≡ some (some client)
        → resolve_llm_client trim primary named (some cfg) true ≡ inl client
    unfolding resolve_llm_client
    resolve-found cfg client ok found =
        let named_well = lookup-validated named cfg.fallback_llm_client (some client) ok found in
        rw (named_well, found, resolve_llm_client) refl

    -- With an accepted configuration that names a fallback client, that client is among the named ones
    -- and ResolveLLMClient returns it, so that DecideLLMFailure never turns a hook's FallbackModel into
    -- Abort.
    pub fallback_available :
        (cfg : ErrorControlConfig) (cb : Option CircuitBreakerConfig)
        → validate_named_llm_clients trim named ≡ none
        → validate_error_control named (some cfg) cb ≡ none
        → (cfg.fallback_llm_client == "") ≡ false
        → ((client : Client) × (GoMap.lookup cfg.fallback_llm_client named ≡ some (some client))
            × (resolve_llm_client trim primary named (some cfg) true ≡ inl client))
          × ((hook : LlmFailureInfo → ErrorControlDecision) (info : LlmFailureInfo)
              → cfg.on_llm_failure ≡ some hook
              → (hook info).action ≡ fallback_model
              → decide_llm_failure trim primary named (some cfg) info ≡ hook info)
    unfolding decide_llm_failure
    fallback_available cfg cb clients_ok ok set =
        let (client, found) = lookup-client named cfg cb ok set in
        let resolved = resolve-found cfg client clients_ok found in
        ((client, found, resolved), λ hook info given asks. ground (arith, resolved))
