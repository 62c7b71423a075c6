-- ===== src/Config/Clients.antt =====
-- validateNamedLLMClients and validateErrorControl of pkg/agent/config.go.
pub mod Fallback
use agent_sdk_go.Prelude.{
  ℕ, Bool, true, false, Option, none, some, List, [], ◌∷◌, String, string_eq, ◌==◌, if◌then◌else◌,
  lt64,
}
use agent_sdk_go.Prelude.GoMap
use agent_sdk_go.Prelude.GoMap.{GoMap}
use agent_sdk_go.CircuitBreaker.{CircuitBreakerConfig}
use agent_sdk_go.ErrorControl.{ErrorControlConfig}

pub data ClientError : Type 0 where
  name_empty : ClientError
  client_nil : (name : String) → ClientError

pub data ErrorControlError : Type 0 where
  fallback_unknown : (name : String) → ErrorControlError
  negative_same_args negative_window negative_reset : ErrorControlError

-- A nil client is `none`; the order of the map is any.
module _ {Client : Type 0} (trim : String → String) where
  unfoldable pub validate_named_llm_clients : GoMap String (Option Client) → Option ClientError
  validate_named_llm_clients [] = none
  validate_named_llm_clients ((name, client) ∷ rest) =
      let later = validate_named_llm_clients rest in
      if trim name == ""
      then some name_empty
      else elim client [ none ↦ some (client_nil name) | some c ↦ later ]

-- The breaker's numbers.
unfoldable pub check_circuit_breaker : Option CircuitBreakerConfig → Option ErrorControlError
check_circuit_breaker none = none
check_circuit_breaker (some cb) =
    if lt64 cb.max_consecutive_same_args 0
    then some negative_same_args
    else if lt64 cb.pattern_window_size 0
    then some negative_window
    else if lt64 cb.reset_after 0
    then some negative_reset
    else none

module _ {Client : Type 0} (named : GoMap String (Option Client)) where
  -- The configuration, and its circuit breaker.
  unfoldable pub validate_error_control :
      Option ErrorControlConfig → Option CircuitBreakerConfig → Option ErrorControlError
  validate_error_control none cb = none
  validate_error_control (some cfg) cb =
      if cfg.fallback_llm_client == ""
      then check_circuit_breaker cb
      else elim (GoMap.lookup cfg.fallback_llm_client named) [
        | none ↦ some (fallback_unknown cfg.fallback_llm_client)
        | some c ↦ elim c [
          | none ↦ some (fallback_unknown cfg.fallback_llm_client)
          | some client ↦ check_circuit_breaker cb
        ]
      ]
