-- ===== src/Retry.antt =====
-- The attempts of executeWithPolicy in internal/runtime/local/agent_loop.go, and the policies that
-- the local runtime hands to it. What an operation, the context and the timer do is the host's.
pub mod Attempts
pub mod Backoff
pub mod Keeps
pub mod Policies
mod Examples
use agent_sdk_go.Prelude.{
  ℕ, zero, suc, ◌-◌, Bool, true, false, ◌&&◌, Option, none, some, if◌then◌else◌, lt64, le64,
  nat_beq, ◌⊎◌, inl, inr,
}
use agent_sdk_go.CircuitBreaker.{ToolKind, mcp, a2a}

-- runtime.RetryPolicy and runtime.ExecutionPolicy; durations are 64-bit patterns of nanoseconds.
pub record RetryPolicy (Coefficient : Type 0) : Type 0 where
  pub initial_interval : ℕ
  pub backoff_coefficient : Coefficient
  pub maximum_interval : ℕ

pub record ExecutionPolicy (Coefficient : Type 0) : Type 0 where
  pub timeout : ℕ
  pub max_attempts : ℕ
  pub retry : RetryPolicy Coefficient

-- A world `W` and what the loop asks of it: `ctx.Err()`, the wait for the timer or for `ctx.Done()`
-- (an error is the latter), and `time.Duration(float64(d) * c)`.
pub record Host : Type 1 where
  pub W : Type 0
  pub Coefficient : Type 0
  pub Err : Type 0
  pub ctx_err : W → Option Err
  pub wait : ℕ → W → Option Err × W
  pub scale : ℕ → Coefficient → ℕ

-- The deadline of an attempt's context, if the policy has a timeout.
unfoldable pub attempt_deadline : {Coefficient : Type 0} → ExecutionPolicy Coefficient → Option ℕ
attempt_deadline policy = if lt64 0 policy.timeout then some policy.timeout else none

-- The backoff after one more wait.
unfoldable pub next_backoff : (host : Host) → RetryPolicy host.Coefficient → ℕ → ℕ
next_backoff host r backoff =
    let next = host.scale backoff r.backoff_coefficient in
    if lt64 r.maximum_interval next then r.maximum_interval else next

module _ (host : Host) {A : Type 0} where
  open host use {W, Coefficient, Err, ctx_err, wait}

  -- The loop with `left` attempts after this one. The operation gets its context's deadline.
  unfoldable pub attempt :
      ℕ → ExecutionPolicy Coefficient → (Option ℕ → W → (A ⊎ Err) × W) → ℕ → W → (A ⊎ Err) × W
  attempt zero policy operation backoff w =
      let (result, w₁) = operation (attempt_deadline policy) w in
      elim result [
        | inl a ↦ (inl a, w₁)
        | inr e ↦ elim (ctx_err w₁) [ some c ↦ (inr c, w₁) | none ↦ (inr e, w₁) ]
      ]
  attempt (suc left) policy operation backoff w =
      let (result, w₁) = operation (attempt_deadline policy) w in
      elim result [
        | inl a ↦ (inl a, w₁)
        | inr e ↦ elim (ctx_err w₁) [
          | some c ↦ (inr c, w₁)
          | none ↦
              let (done, w₂) = wait backoff w₁ in
              let rest =
                attempt left policy operation (next_backoff host policy.retry backoff) w₂ in
              elim done [ some c ↦ (inr c, w₂) | none ↦ rest ]
        ]
      ]

  -- At least one attempt is made.
  unfoldable pub execute_with_policy :
      ExecutionPolicy Coefficient → (Option ℕ → W → (A ⊎ Err) × W) → W → (A ⊎ Err) × W
  execute_with_policy policy operation w =
      let attempts = if lt64 policy.max_attempts 1 then 1 else policy.max_attempts in
      attempt (attempts - 1) policy operation policy.retry.initial_interval w

-- The policies of the loop, already resolved.
pub record ExecutionPolicies (Coefficient : Type 0) : Type 0 where
  pub llm : ExecutionPolicy Coefficient
  pub tool_auth : ExecutionPolicy Coefficient
  pub tool_execute : ExecutionPolicy Coefficient
  pub mcp_policy : ExecutionPolicy Coefficient
  pub a2a_policy : ExecutionPolicy Coefficient
  pub retriever : ExecutionPolicy Coefficient
  pub memory : ExecutionPolicy Coefficient
  pub conversation : ExecutionPolicy Coefficient
  pub sub_agent : ExecutionPolicy Coefficient

module _ {Coefficient : Type 0} where
  unfoldable pub tool_execution_policy :
      ToolKind → ExecutionPolicies Coefficient → ExecutionPolicy Coefficient
  tool_execution_policy mcp policies = policies.mcp_policy
  tool_execution_policy a2a policies = policies.a2a_policy
  tool_execution_policy _ policies = policies.tool_execute

  unfoldable pub sub_agent_execution_policy :
      ExecutionPolicies Coefficient → ℕ → ExecutionPolicy Coefficient
  sub_agent_execution_policy policies run_timeout =
      let policy = policies.sub_agent in
      if nat_beq policy.timeout 0 && lt64 0 run_timeout
      then record policy { timeout = run_timeout }
      else policy

-- types.MaxApprovalTimeout, 31 days.
abbrev pub max_approval_timeout : ℕ
max_approval_timeout = 2678400000000000

unfoldable pub approval_task_timeout : ℕ → ℕ
approval_task_timeout configured =
    let timeout = if nat_beq configured 0 then max_approval_timeout else configured in
    if lt64 max_approval_timeout timeout then max_approval_timeout else timeout
