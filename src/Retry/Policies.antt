-- ===== src/Retry/Policies.antt =====
-- internal/runtime/runtime.go: how the policies of a run come from the agent's overrides and the
-- defaults. `two` is the coefficient 2.0.
pub mod Deadlines
mod Examples
use agent_sdk_go.Prelude.{ℕ, Bool, if◌then◌else◌, lt64}
use agent_sdk_go.Retry.{RetryPolicy, ExecutionPolicy, ExecutionPolicies}

-- Durations are nanoseconds.
pub record ExecutionConfig : Type 0 where
  pub timeout : ℕ
  pub max_attempts : ℕ

pub record ExecutionConfigs : Type 0 where
  pub llm : ExecutionConfig
  pub tool_auth : ExecutionConfig
  pub tool_execute : ExecutionConfig
  pub mcp_config : ExecutionConfig
  pub a2a_config : ExecutionConfig
  pub retriever : ExecutionConfig
  pub memory : ExecutionConfig
  pub conversation : ExecutionConfig
  pub sub_agent : ExecutionConfig

-- 30 minutes, 5 minutes and 30 seconds.
abbrev long_timeout : ℕ
long_timeout = 1800000000000

abbrev short_timeout : ℕ
short_timeout = 300000000000

abbrev conversation_timeout : ℕ
conversation_timeout = 30000000000

unfoldable pub default_execution_configs : ExecutionConfigs
default_execution_configs = record {
  llm = record { timeout = long_timeout; max_attempts = 3 };
  tool_auth = record { timeout = long_timeout; max_attempts = 1 };
  tool_execute = record { timeout = long_timeout; max_attempts = 3 };
  mcp_config = record { timeout = long_timeout; max_attempts = 3 };
  a2a_config = record { timeout = long_timeout; max_attempts = 3 };
  retriever = record { timeout = short_timeout; max_attempts = 3 };
  memory = record { timeout = short_timeout; max_attempts = 3 };
  conversation = record { timeout = conversation_timeout; max_attempts = 1 };
  sub_agent = record { timeout = 0; max_attempts = 1 };
}

unfoldable pub resolve_execution_config : ExecutionConfig → ExecutionConfig → ExecutionConfig
resolve_execution_config agent sdk = record {
  timeout = if lt64 0 agent.timeout then agent.timeout else sdk.timeout;
  max_attempts = if lt64 0 agent.max_attempts then agent.max_attempts else sdk.max_attempts;
}

module _ {Coefficient : Type 0} (two : Coefficient) where
  -- One second, doubled up to ten minutes.
  unfoldable pub default_retry_policy : RetryPolicy Coefficient
  default_retry_policy = record {
    initial_interval = 1000000000;
    backoff_coefficient = two;
    maximum_interval = 600000000000;
  }

  unfoldable pub to_policy : ExecutionConfig → ExecutionPolicy Coefficient
  unfolding default_retry_policy
  to_policy c = record {
    timeout = c.timeout;
    max_attempts = if lt64 c.max_attempts 1 then 1 else c.max_attempts;
    retry = default_retry_policy;
  }

  -- One operation: override, default, policy.
  abbrev pub resolved : ExecutionConfig → ExecutionConfig → ExecutionPolicy Coefficient
  resolved agent sdk = to_policy (resolve_execution_config agent sdk)

  unfoldable pub resolve_execution_policies : ExecutionConfigs → ExecutionPolicies Coefficient
  resolve_execution_policies configs =
      let defaults = default_execution_configs in
      record {
        llm = resolved configs.llm defaults.llm;
        tool_auth = resolved configs.tool_auth defaults.tool_auth;
        tool_execute = resolved configs.tool_execute defaults.tool_execute;
        mcp_policy = resolved configs.mcp_config defaults.mcp_config;
        a2a_policy = resolved configs.a2a_config defaults.a2a_config;
        retriever = resolved configs.retriever defaults.retriever;
        memory = resolved configs.memory defaults.memory;
        conversation = resolved configs.conversation defaults.conversation;
        sub_agent = resolved configs.sub_agent defaults.sub_agent;
      }
