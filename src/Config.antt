-- ===== src/Config.antt =====
-- The validation of an agent's configuration, in pkg/agent/config.go and pkg/agent/policy.go.
pub mod Names
pub mod Limits
pub mod Clients
pub mod SubAgents
pub mod ToolNames
pub mod Approval
mod Examples
