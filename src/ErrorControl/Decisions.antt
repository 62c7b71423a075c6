-- ===== src/ErrorControl/Decisions.antt =====
-- What the decisions allow, whatever the user's hooks return.
use agent_sdk_go.Prelude.{
  ℕ, ◌≤◌, ◌<◌, ◌^◌, ◌≡◌, ◌⊎◌, inl, inr, refl, Bool, true, false, Option, none, some, String, arith,
  lt64, Option-cases, ⊎-cases,
}
use agent_sdk_go.Prelude.GoMap.{GoMap}
use agent_sdk_go.ErrorControl.{
  ErrorControlAction, abort, fallback_model, continue_with_final_call, extend_iterations,
  other_action, ErrorControlDecision, ErrorControlConfig, LlmFailureInfo, MaxIterationsInfo,
  effective_max_iterations, clamp_extra_iterations, resolve_llm_client, llm_failure_action,
  decide_llm_failure, max_iterations_action, decide_max_iterations,
}

pub clamp_bounds :
    (extra original : ℕ)
    → original < 2 ^ 64
    → extra < 2 ^ 64
    → lt64 (clamp_extra_iterations extra original) 1 ≡ false
    → (1 ≤ clamp_extra_iterations extra original)
      × (clamp_extra_iterations extra original ≤ effective_max_iterations original)
unfolding clamp_extra_iterations effective_max_iterations
clamp_bounds extra original h k e = ground arith

-- What DecideMaxIterations may answer: a final call, or at least one and at most as many extra
-- rounds as the original bound allows, and then no extension was granted before.
pub record Allowed (info : MaxIterationsInfo) (already : Bool) (d : ErrorControlDecision)
    : Type 0 where
  pub known : (d.action ≡ continue_with_final_call) ⊎ (d.action ≡ extend_iterations)
  pub first : d.action ≡ extend_iterations → already ≡ false
  pub some_rounds : d.action ≡ extend_iterations → 1 ≤ d.extra_iterations
  pub few_rounds :
      d.action ≡ extend_iterations
      → d.extra_iterations ≤ effective_max_iterations info.max_iterations

action-Allowed :
    (info : MaxIterationsInfo) (d : ErrorControlDecision) (a : ErrorControlAction)
    → a ≡ d.action
    → info.max_iterations < 2 ^ 64
    → d.extra_iterations < 2 ^ 64
    → Allowed info false (max_iterations_action info d a)
unfolding max_iterations_action
action-Allowed info d abort e h k = ground arith
action-Allowed info d fallback_model e h k = ground arith
action-Allowed info d continue_with_final_call e h k = ground arith
action-Allowed info d extend_iterations e h k =
    ground (arith, clamp_bounds d.extra_iterations info.max_iterations h k)
action-Allowed info d other_action e h k = ground arith

-- Every answer of DecideMaxIterations, for every hook whose decisions are 64-bit numbers, is allowed.
pub decide_max_iterations-Allowed :
    (cfg : Option ErrorControlConfig) (info : MaxIterationsInfo) (already : Bool)
    → info.max_iterations < 2 ^ 64
    → ((c : ErrorControlConfig) (hook : MaxIterationsInfo → ErrorControlDecision)
        → cfg ≡ some c
        → c.on_max_iterations_exceeded ≡ some hook
        → (hook info).extra_iterations < 2 ^ 64)
    → Allowed info already (decide_max_iterations cfg info already)
unfolding decide_max_iterations
decide_max_iterations-Allowed none info already h k = ground arith
decide_max_iterations-Allowed (some c) info true h k = ground arith
decide_max_iterations-Allowed (some c) info false h k =
    elim (Option-cases c.on_max_iterations_exceeded) [
      | inl no_hook ↦ ground arith
      | inr (hook, e) ↦
          rw (e, decide_max_iterations)
            (action-Allowed info (hook info) (hook info).action refl h (k c hook refl e))
    ]

module _ {Client : Type 0} (trim : String → String) (primary : Client)
    (named : GoMap String (Option Client)) where
  action-resolved :
      (cfg : Option ErrorControlConfig) (d : ErrorControlDecision) (a : ErrorControlAction)
      → a ≡ d.action
      → let r = llm_failure_action trim primary named cfg d a in
        (r.action ≡ abort)
        ⊎ ((r.action ≡ fallback_model)
            × (c : Client) × (resolve_llm_client trim primary named cfg true ≡ inl c))
  unfolding llm_failure_action
  action-resolved cfg d abort e = inl (ground arith)
  action-resolved cfg d fallback_model e =
      elim (⊎-cases (resolve_llm_client trim primary named cfg true)) [
        | inl (c, found) ↦ inr (ground arith, c, found)
        | inr (x, missing) ↦ inl (ground arith)
      ]
  action-resolved cfg d continue_with_final_call e = inl refl
  action-resolved cfg d extend_iterations e = inl refl
  action-resolved cfg d other_action e = inl refl

  -- DecideLLMFailure answers Abort, or FallbackModel when the fallback client can be resolved.
  pub decide_llm_failure_resolved :
      (cfg : Option ErrorControlConfig) (info : LlmFailureInfo)
      → let r = decide_llm_failure trim primary named cfg info in
        (r.action ≡ abort)
        ⊎ ((r.action ≡ fallback_model)
            × (c : Client) × (resolve_llm_client trim primary named cfg true ≡ inl c))
  unfolding decide_llm_failure
  decide_llm_failure_resolved none info = inl refl
  decide_llm_failure_resolved (some c) info = elim (Option-cases c.on_llm_failure) [
    | inl no_hook ↦ inl (ground arith)
    | inr (hook, e) ↦
        let q : decide_llm_failure trim primary named (some c) info
            ≡ llm_failure_action trim primary named (some c) (hook info) (hook info).action =
          ground arith in
        rw q (action-resolved (some c) (hook info) (hook info).action refl)
  ]
