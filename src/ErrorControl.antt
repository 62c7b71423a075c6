-- ===== src/ErrorControl.antt =====
-- internal/runtime/base/error_control.go: what follows an LLM failure and the last iteration. The
-- hooks are the user's callbacks, functions here; `int` values are 64-bit patterns.
pub mod Decisions
mod Examples
use agent_sdk_go.Prelude.{
  ℕ, Bool, true, false, ◌||◌, Option, none, some, String, string_eq, ◌==◌, if◌then◌else◌, lt64,
  le64, ◌⊎◌, inl, inr, List,
}
use agent_sdk_go.Prelude.GoMap
use agent_sdk_go.Prelude.GoMap.{GoMap}

-- types.ErrorControlAction; `other_action` is any other number.
pub data ErrorControlAction : Type 0 where
  abort fallback_model continue_with_final_call extend_iterations other_action : ErrorControlAction

-- types.ErrorControlDecision
pub record ErrorControlDecision : Type 0 where
  pub action : ErrorControlAction
  pub extra_iterations : ℕ

-- types.LLMFailureInfo and types.MaxIterationsInfo; errors are texts.
pub record LlmFailureInfo : Type 0 where
  pub attempt : ℕ
  pub err : String

pub record MaxIterationsInfo : Type 0 where
  pub iteration_count : ℕ
  pub max_iterations : ℕ
  pub last_action : String

-- types.ErrorControlConfig without the circuit breaker; a nil hook is `none`.
pub record ErrorControlConfig : Type 0 where
  pub on_llm_failure : Option (LlmFailureInfo → ErrorControlDecision)
  pub on_max_iterations_exceeded : Option (MaxIterationsInfo → ErrorControlDecision)
  pub fallback_llm_client : String

-- Why ResolveLLMClient fails.
pub data ResolveError : Type 0 where
  fallback_empty fallback_missing : ResolveError

unfoldable pub effective_max_iterations : ℕ → ℕ
effective_max_iterations configured = if le64 configured 0 then 10 else configured

unfoldable pub clamp_extra_iterations : ℕ → ℕ → ℕ
unfolding effective_max_iterations
clamp_extra_iterations extra original_max =
    let cap_at = effective_max_iterations original_max in
    if lt64 extra 1 then 0 else if lt64 cap_at extra then cap_at else extra

unfoldable pub llm_policy_attempts : ℕ → ℕ
llm_policy_attempts max_attempts = if lt64 max_attempts 1 then 1 else max_attempts

abbrev pub abort_decision : ErrorControlDecision
abort_decision = record { action = abort; extra_iterations = 0 }

abbrev pub final_decision : ErrorControlDecision
final_decision = record { action = continue_with_final_call; extra_iterations = 0 }

-- `trim` is strings.TrimSpace; a nil client in the map is `none`.
module _ {Client : Type 0} (trim : String → String) (primary : Client)
    (named : GoMap String (Option Client)) where
  fallback : Option ErrorControlConfig → Client ⊎ ResolveError
  fallback none = inr fallback_empty
  fallback (some cfg) =
      if trim cfg.fallback_llm_client == ""
      then inr fallback_empty
      else elim (GoMap.lookup cfg.fallback_llm_client named) [
        | none ↦ inr fallback_missing
        | some c ↦ elim c [ none ↦ inr fallback_missing | some client ↦ inl client ]
      ]

  unfoldable pub resolve_llm_client : Option ErrorControlConfig → Bool → Client ⊎ ResolveError
  unfolding fallback
  resolve_llm_client cfg use_fallback = if use_fallback then fallback cfg else inl primary

  -- The switch of DecideLLMFailure.
  llm_failure_action :
      Option ErrorControlConfig → ErrorControlDecision → ErrorControlAction → ErrorControlDecision
  llm_failure_action cfg d abort = d
  llm_failure_action cfg d fallback_model = elim (resolve_llm_client cfg true) [
    | inl c ↦ d
    | inr e ↦ abort_decision
  ]
  llm_failure_action cfg d _ = abort_decision

  unfoldable pub decide_llm_failure :
      Option ErrorControlConfig → LlmFailureInfo → ErrorControlDecision
  unfolding llm_failure_action
  decide_llm_failure none info = abort_decision
  decide_llm_failure (some cfg) info = elim cfg.on_llm_failure [
    | none ↦ abort_decision
    | some hook ↦ let d = hook info in llm_failure_action (some cfg) d d.action
  ]

-- The switch of DecideMaxIterations.
max_iterations_action :
    MaxIterationsInfo → ErrorControlDecision → ErrorControlAction → ErrorControlDecision
max_iterations_action info d continue_with_final_call = d
max_iterations_action info d extend_iterations =
    let extra = clamp_extra_iterations d.extra_iterations info.max_iterations in
    if lt64 extra 1 then final_decision else record d { extra_iterations = extra }
max_iterations_action info d _ = final_decision

unfoldable pub decide_max_iterations :
    Option ErrorControlConfig → MaxIterationsInfo → Bool → ErrorControlDecision
unfolding max_iterations_action
decide_max_iterations none info already_extended = final_decision
decide_max_iterations (some cfg) info already_extended =
    if already_extended then final_decision else elim cfg.on_max_iterations_exceeded [
      | none ↦ final_decision
      | some hook ↦ let d = hook info in max_iterations_action info d d.action
    ]
