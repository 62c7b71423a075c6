-- ===== src/Lib.antt =====
-- Verification of agent-sdk-go, a Go library for agents that call a language model and tools.
--
-- A run of an agent is a loop (internal/runtime/local/agent_loop.go): it asks the model, runs the
-- tools that the model names, and asks again, until the model answers without tools, a bound on the
-- rounds is reached, or a budget is spent. Around that loop stand a budget tracker, a circuit
-- breaker for failing tools, retries, hooks that decide on errors, and the approval of tools by a
-- person. The files below follow these parts.
--
-- - Prelude: Boolean tests, lists over native numbers, Go's 64-bit integers as patterns below
--   2 ^ 64 with their wrap-around, types with `==`, and Go's maps as association lists.
-- - Store (internal/store/kv.go): the key-value store: KV.Set is `set`, KV.DeleteIf `delete_if`, ...
-- - Registry (pkg/agent/tool_registry.go): the ordered tool registry.
-- - CircuitBreaker (internal/runtime/base/circuit_breaker.go): the detectors of repeated failures
--   with the same arguments and of alternating failures; IsTripped, RecordFailure and RecordSuccess.
-- - Budget (internal/runtime/base/budget.go): the tracker of tokens and cost; BudgetTracker.Add is
--   `add`, Check is `check`, AdvanceWatermark is `advance_watermark`.
-- - ErrorControl (internal/runtime/base/error_control.go): DecideLLMFailure, DecideMaxIterations.
-- - Retry (internal/runtime/local/agent_loop.go, internal/runtime/runtime.go): executeWithPolicy as
--   `execute_with_policy`, and the policies that it is given.
-- - Agent (pkg/interfaces, internal/types, internal/runtime/base): messages, tool calls, telemetry.
-- - Config (pkg/agent/config.go, pkg/agent/policy.go): what is checked before an agent runs. Names is
--   sanitizeName and validateAgentName, Limits validateBudget, Clients validateErrorControl, SubAgents
--   dfsSubAgentDepth and validateSubAgentRegistry, ToolNames validateToolNames, Approval the policies
--   of approval and llmResponseToResult, which marks the calls that need one.
-- - EventBus (internal/eventbus/inmem.go): the bus of a run's events, on a heap of channels.
-- - Conversation (pkg/conversation/inmem/conversation.go): the in-memory conversations; ListMessages is
--   `list_messages`, its bounds are `page`.
-- - Loop (internal/runtime/local/agent_loop.go): the state that the parts of a run share. Loop/Gate
--   is the budget gate (checkBudget, applyBudgetExceeded, awaitBudgetApprovalStatus), Loop/Call and
--   Loop/Tool one tool call (executeSingleTool), Loop/Batch the calls of a round
--   (executeToolsParallel, executeToolsSequential), Loop/Llm a call of the model with its fallback
--   (invokeLLMWithErrorControl), Loop/Rounds and Loop/Round the body of the loop of executeAgentLoop,
--   and Loop/Run what stands before and after it. Loop/Surroundings is what the loop asks of the world.
-- - Hooks (internal/hooks): the groups of hooks and the chains RunBeforeLLM, RunAfterTool, ...; a hook
--   is a function of the world.
-- - Memory (pkg/memory/config.go, defaults.go): the configuration of the long-term memory, its defaults
--   and Validate, scopes as ScopeConfig.Resolve and ScopeMetadata make them, kinds and expiry.
-- - Base (internal/runtime/base): what stands behind the calls of the loop. Base/Requests is
--   BuildLLMRequest with sanitizeMessages, Base/Streaming and Base/Generate ExecuteLLM and
--   ExecuteLLMStream with their events, Base/Tools executeTool, Base/Retrieval ExecuteRetrievers, and
--   Base/Memories recall, storing and extraction.
-- - Handles (internal/runtime/local/run_handle.go, stream_handle.go): the handles of a run, as steps
--   that goroutines take in any order. Handles/Approvals is what LocalRuntime.approve shares with the
--   waits of the loop, Handles/Drive driveRun and driveStream, which put the loop and a handle together.
--
-- The parts meet in `Loop.State`: the world outside, the tracker and the breaker, which the run and
-- its sub-agents share by pointers in the source. A tool call asks the breaker, the tool's
-- authorization and the approval, then runs under executeWithPolicy; the gate reads the tracker.
--
-- What is not under this repository is a parameter: the clock, JSON, SHA-256, floats, the event
-- bus's transport, the tools' and handlers' code, fmt.Sprintf, strings.TrimSpace. Fields of `Host`,
-- `Outside`, `MemoryHost` and `Dollars` hold them, and each theorem holds for all of them, or names
-- what it asks of them. Methods that hold a lock are single steps. The rounds of a run stand on
-- fuel, which is twice the bound on iterations plus one: the bound is extended at most once and at
-- most doubled. Delegation stands on a number of levels, which MaxSubAgentDepth bounds. The loop
-- that collapses blank lines stands on fuel, which is the length of its text. All other loops are
-- structural recursion; the number of attempts of executeWithPolicy is the policy's own bound.
-- Go's channels in EventBus have their capacity, and a send on a full one waits; the sends of the
-- loop are steps of `Host`, which return.
--
-- Not modelled: the durable path of the local runtime, the Temporal and Restate runtimes (their
-- replay belongs to other programs), the lookup of durable runs, providers and backends behind
-- network clients, metrics, spans and logs. The loop asks the model, the tools and the memory
-- through fields of `Host`; what Base does behind them is modelled apart from the loop.
pub mod Config
pub mod EventBus
pub mod Prelude
pub mod Store
pub mod Registry
pub mod CircuitBreaker
pub mod Budget
pub mod ErrorControl
pub mod Retry
pub mod Agent
pub mod Conversation
pub mod Loop
pub mod Hooks
pub mod Memory
pub mod Base
pub mod Handles
