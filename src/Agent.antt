-- ===== src/Agent.antt =====
-- What a run of the agent works on: messages, tool calls, usage and telemetry, from pkg/interfaces,
-- internal/types and internal/runtime/base, and the surroundings of internal/runtime/local. `int`
-- and `int64` are 64-bit patterns; a nil map or pointer is `none`.
pub mod Counting
use agent_sdk_go.Prelude.{
  ℕ, Bool, true, false, not, ◌||◌, Option, none, some, List, [], ◌∷◌, String, string_eq, ◌==◌,
  if◌then◌else◌, add64, ◌⊎◌, inl, inr,
}
use agent_sdk_go.Prelude.GoMap
use agent_sdk_go.Prelude.GoMap.{GoMap}
use agent_sdk_go.CircuitBreaker
use agent_sdk_go.CircuitBreaker.{ToolKind}
use agent_sdk_go.Budget.{LlmUsage, BudgetExceededKind, BudgetExceededAction}

-- `no_role` is the zero value.
pub data MessageRole : Type 0 where
  no_role system user assistant tool reasoning : MessageRole

-- interfaces.ToolCall
pub record ToolCall (Args : Type 0) : Type 0 where
  pub tool_call_id : String
  pub tool_name : String
  pub args : Option Args

-- interfaces.Message without Metadata and CreatedAt, which the loop neither sets nor reads.
pub record Message (Args : Type 0) : Type 0 where
  pub role : MessageRole
  pub content : String
  pub tool_name : String
  pub tool_call_id : String
  pub tool_calls : List (ToolCall Args)

-- base.ToolCallRequest
pub record ToolCallRequest (Args : Type 0) : Type 0 where
  pub tool_call_id : String
  pub tool_name : String
  pub tool_display_name : String
  pub tool_kind : ToolKind
  pub args : Option Args
  pub needs_approval : Bool
  pub unknown : Bool

-- base.LLMResult
pub record LlmResult (Args : Type 0) : Type 0 where
  pub content : String
  pub tool_calls : List (ToolCallRequest Args)
  pub usage : Option LlmUsage

-- base.AuthorizeResult
pub record AuthorizeResult : Type 0 where
  pub allowed : Bool
  pub reason : String

-- types.ApprovalStatus; `other_status` is any other text, the empty one included.
pub data ApprovalStatus : Type 0 where
  no_status pending approved rejected unavailable timed_out other_status : ApprovalStatus

-- An error: its text, and whether `errors.Is` finds ErrBudgetExceeded in it.
pub record GoError : Type 0 where
  pub text : String
  pub is_budget_exceeded : Bool

-- types.FinishReason; `no_reason` is the empty text.
pub data FinishReason : Type 0 where
  no_reason complete max_iterations budget_exceeded : FinishReason

-- types.RunTelemetry, without its times.
pub record RunTelemetry : Type 0 where
  pub total_llm_calls : ℕ
  pub llm_retry_count : ℕ
  pub finish_reason : FinishReason

-- types.ToolTelemetry
pub record ToolTelemetry : Type 0 where
  pub total_calls : ℕ
  pub failed_calls : ℕ
  pub breakdown : GoMap String ℕ
  pub failed_breakdown : GoMap String ℕ

-- types.StorageTelemetry
pub record StorageTelemetry : Type 0 where
  pub total_retriever_searches : ℕ
  pub failed_retriever_searches : ℕ
  pub prefetch_searches : ℕ
  pub agentic_searches : ℕ
  pub total_memory_recalls : ℕ
  pub failed_memory_recalls : ℕ
  pub total_memory_stores : ℕ
  pub failed_memory_stores : ℕ

-- types.AgentTelemetry
pub record AgentTelemetry : Type 0 where
  pub run : RunTelemetry
  pub tools : ToolTelemetry
  pub storage : StorageTelemetry

-- What Go's map of counters returns for a name.
abbrev pub counter : String → GoMap String ℕ → ℕ
counter name m = elim (GoMap.lookup name m) [ none ↦ 0 | some n ↦ n ]

-- m[name]++ on a map of counters, left alone for the empty name.
unfoldable pub bump : String → GoMap String ℕ → GoMap String ℕ
bump name m = if name == "" then m else GoMap.insert name (add64 (counter name m) 1) m

-- ToolTelemetry.Record
unfoldable pub record_tool : ToolTelemetry → String → Bool → ToolTelemetry
unfolding bump
record_tool t name has_failed =
    let t' = record t { total_calls = add64 t.total_calls 1; breakdown = bump name t.breakdown } in
    if not has_failed then t' else record t' {
      failed_calls = add64 t.failed_calls 1;
      failed_breakdown = bump name t.failed_breakdown;
    }

-- MergeLLMUsage
unfoldable pub merge_llm_usage : Option LlmUsage → Option LlmUsage → Option LlmUsage
merge_llm_usage acc none = acc
merge_llm_usage none (some u) = some u
merge_llm_usage (some a) (some u) = some (record {
  prompt_tokens = add64 a.prompt_tokens u.prompt_tokens;
  completion_tokens = add64 a.completion_tokens u.completion_tokens;
  total_tokens = add64 a.total_tokens u.total_tokens;
  cached_prompt_tokens = add64 a.cached_prompt_tokens u.cached_prompt_tokens;
  reasoning_tokens = add64 a.reasoning_tokens u.reasoning_tokens;
})

-- FindToolByName
unfoldable pub find_tool_by_name :
    {Tool : Type 0} → (Tool → String) → List Tool → String → Option Tool
find_tool_by_name name_of [] name = none
find_tool_by_name name_of (t ∷ ts) name =
    if name_of t == name then some t else find_tool_by_name name_of ts name

-- IsUnknownTool
unfoldable pub is_unknown_tool :
    {Tool Args : Type 0} → (Tool → String) → ToolCallRequest Args → List Tool → Bool
is_unknown_tool name_of tc tools =
    if tc.unknown
    then true
    else elim (find_tool_by_name name_of tools tc.tool_name) [ none ↦ true | some t ↦ false ]
