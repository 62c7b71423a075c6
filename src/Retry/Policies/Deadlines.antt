-- ===== src/Retry/Policies/Deadlines.antt =====
-- No operation of a run is without a deadline.
use agent_sdk_go.Prelude.{ℕ, ◌≡◌, true, false, arith, lt64, le64}
use agent_sdk_go.CircuitBreaker.{
  ToolKind, no_kind, no_kind, native, mcp, a2a, sub_agent, retriever, memory,
}
use agent_sdk_go.Retry.{ExecutionPolicy, tool_execution_policy, sub_agent_execution_policy}
use agent_sdk_go.Retry.Policies.{
  ExecutionConfig, ExecutionConfigs, default_execution_configs, resolve_execution_config,
  default_retry_policy, to_policy, resolved, resolve_execution_policies,
}

module _ {Coefficient : Type 0} where
  -- A deadline for each attempt, at least one attempt, and a first wait within the longest.
  pub record Sound (p : ExecutionPolicy Coefficient) : Type 0 where
    pub deadline : lt64 0 p.timeout ≡ true
    pub attempts : lt64 p.max_attempts 1 ≡ false
    pub waits : le64 p.retry.initial_interval p.retry.maximum_interval ≡ true

  resolved-Sound :
      (two : Coefficient) (agent sdk : ExecutionConfig)
      → lt64 0 sdk.timeout ≡ true
      → Sound (resolved two agent sdk)
  unfolding to_policy resolve_execution_config default_retry_policy
  resolved-Sound two agent sdk h = record {
    deadline = ground arith;
    attempts = ground arith;
    waits = ground arith;
  }

  sub_agent-Sound :
      (two : Coefficient) (configs : ExecutionConfigs) (run_timeout : ℕ)
      → lt64 0 run_timeout ≡ true
      → Sound (sub_agent_execution_policy (resolve_execution_policies two configs) run_timeout)
  unfolding sub_agent_execution_policy resolve_execution_policies to_policy resolve_execution_config
      default_retry_policy default_execution_configs
  sub_agent-Sound two configs run_timeout h = record {
    deadline = ground arith;
    attempts = ground arith;
    waits = ground arith;
  }

  tool-Sound :
      (two : Coefficient) (configs : ExecutionConfigs) (kind : ToolKind)
      → Sound (tool_execution_policy kind (resolve_execution_policies two configs))
  unfolding tool_execution_policy resolve_execution_policies default_execution_configs
  tool-Sound two configs no_kind = resolved-Sound two _ _ (ground arith)
  tool-Sound two configs mcp = resolved-Sound two _ _ (ground arith)
  tool-Sound two configs a2a = resolved-Sound two _ _ (ground arith)
  tool-Sound two configs native = resolved-Sound two _ _ (ground arith)
  tool-Sound two configs sub_agent = resolved-Sound two _ _ (ground arith)
  tool-Sound two configs retriever = resolved-Sound two _ _ (ground arith)
  tool-Sound two configs memory = resolved-Sound two _ _ (ground arith)

  -- Whatever an agent overrides, each policy of a run has a positive timeout, at least one attempt and
  -- an initial wait of at most the longest one: those of the LLM, of authorization, of tools of every
  -- kind, of retrievers, memory and conversation, and, if the run has a timeout, of sub-agents.
  pub resolve_execution_policies-Sound :
      (two : Coefficient) (configs : ExecutionConfigs) (run_timeout : ℕ) (kind : ToolKind)
      → lt64 0 run_timeout ≡ true
      → let p = resolve_execution_policies two configs in
        Sound p.llm
        × Sound p.tool_auth
        × Sound (tool_execution_policy kind p)
        × Sound p.retriever
        × Sound p.memory
        × Sound p.conversation
        × Sound (sub_agent_execution_policy p run_timeout)
  unfolding resolve_execution_policies default_execution_configs
  resolve_execution_policies-Sound two configs run_timeout kind h = (
    resolved-Sound two _ _ (ground arith),
    resolved-Sound two _ _ (ground arith),
    tool-Sound two configs kind,
    resolved-Sound two _ _ (ground arith),
    resolved-Sound two _ _ (ground arith),
    resolved-Sound two _ _ (ground arith),
    sub_agent-Sound two configs run_timeout h,
  )
