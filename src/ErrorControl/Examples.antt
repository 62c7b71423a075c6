-- ===== src/ErrorControl/Examples.antt =====
-- A configuration that asks for everything.
use agent_sdk_go.Prelude.{◌≡◌, refl, false, some, arith}
use agent_sdk_go.ErrorControl.{
  ErrorControlConfig, MaxIterationsInfo, fallback_model, extend_iterations, clamp_extra_iterations,
  decide_max_iterations,
}
use agent_sdk_go.ErrorControl.Decisions.{Allowed, decide_max_iterations-Allowed}

abbrev greedy : ErrorControlConfig
greedy = record {
  on_llm_failure = some (λ i. record { action = fallback_model; extra_iterations = 0 });
  on_max_iterations_exceeded =
      some (λ i. record { action = extend_iterations; extra_iterations = 50 });
  fallback_llm_client = "spare";
}

abbrev info : MaxIterationsInfo
info = record { iteration_count = 7; max_iterations = 7; last_action = "search" }

clamped :
    decide_max_iterations (some greedy) info false
    ≡ record { action = extend_iterations; extra_iterations = 7 }
unfolding decide_max_iterations clamp_extra_iterations
clamped = refl

decide_max_iterations-Allowed_example :
    Allowed info false (decide_max_iterations (some greedy) info false)
decide_max_iterations-Allowed_example =
    decide_max_iterations-Allowed (some greedy) info false (omega arith)
      (λ c hook e h. ground (arith))
