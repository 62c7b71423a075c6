-- ===== src/Retry/Policies/Examples.antt =====
-- An agent that overrides the attempts of its tools.
use agent_sdk_go.Prelude.{ℕ, ◌≡◌, refl}
use agent_sdk_go.CircuitBreaker.{native}
use agent_sdk_go.Retry.{tool_execution_policy, sub_agent_execution_policy}
use agent_sdk_go.Retry.Policies.{
  ExecutionConfig, ExecutionConfigs, resolve_execution_policies, resolve_execution_config,
  to_policy, default_execution_configs,
}
use agent_sdk_go.Retry.Policies.Deadlines.{Sound, resolve_execution_policies-Sound}

abbrev unset : ExecutionConfig
unset = record { timeout = 0; max_attempts = 0 }

abbrev overrides : ExecutionConfigs
overrides = record {
  llm = unset;
  tool_auth = unset;
  tool_execute = record { timeout = 0; max_attempts = 7 };
  mcp_config = unset;
  a2a_config = unset;
  retriever = unset;
  memory = unset;
  conversation = unset;
  sub_agent = unset;
}

seven_attempts :
    (tool_execution_policy native
      (resolve_execution_policies {Coefficient = ℕ} 2 overrides)).max_attempts
    ≡ 7
unfolding tool_execution_policy resolve_execution_policies to_policy resolve_execution_config
    default_execution_configs
seven_attempts = refl

resolve_execution_policies-Sound_example :
    let p = resolve_execution_policies {Coefficient = ℕ} 2 overrides in
    Sound p.llm
    × Sound p.tool_auth
    × Sound (tool_execution_policy native p)
    × Sound p.retriever
    × Sound p.memory
    × Sound p.conversation
    × Sound (sub_agent_execution_policy p 60)
resolve_execution_policies-Sound_example =
    resolve_execution_policies-Sound 2 overrides 60 native refl
