-- ===== src/Config/Approval.antt =====
-- Which calls of tools need an approval: the policies of pkg/agent/policy.go, the names that they
-- list, and llmResponseToResult of internal/runtime/base/runtime.go.
pub mod Allowlist
use Prim.Native.String.{◌++◌ as str_append}
use agent_sdk_go.Prelude.{
  ℕ, Bool, true, false, not, Option, none, some, List, [], ◌∷◌, ◌++◌, String, string_eq, ◌==◌, ◌⊎◌,
  inl, inr, if◌then◌else◌,
}
use agent_sdk_go.Prelude.GoMap
use agent_sdk_go.Prelude.GoMap.{GoMap}
use agent_sdk_go.CircuitBreaker.{ToolKind, no_kind}
use agent_sdk_go.Budget.{LlmUsage}
use agent_sdk_go.Agent.{ToolCall, ToolCallRequest, LlmResult, find_tool_by_name}

-- A policy of approval; `custom` is the user's own.
pub data ApprovalPolicy (Tool : Type 0) : Type 0 where
  require_all auto : ApprovalPolicy Tool
  allowlist : (allowed : GoMap String Bool) → ApprovalPolicy Tool
  custom : (requires : Tool → Bool) → ApprovalPolicy Tool

-- What the names are made with: strings.TrimSpace, ReplaceAllString of the regular expression with
-- "_", strings.Trim of "_", and fmt.Sprintf("mcp_%s_%s").
pub record NameTools : Type 0 where
  pub trim : String → String
  pub replace : String → String
  pub trim_marks : String → String
  pub mcp_format : String → String → String

pub record AllowlistToolApprovalConfig : Type 0 where
  pub tool_names : List String
  pub sub_agent_names : List String
  pub mcp_tools : GoMap String (List String)

module _ (n : NameTools) where
  open n use {trim, replace, trim_marks, mcp_format}

  unfoldable pub sub_agent_tool_name : String → Option String
  sub_agent_tool_name name =
      let base = trim name in
      let safe = trim_marks (replace base) in
      if base == "" then none else if safe == "" then none else some (str_append "subagent_" safe)

  unfoldable pub mcp_tool_name : String → String → String
  mcp_tool_name server_name tool_name =
      if trim server_name == ""
      then ""
      else if trim tool_name == ""
      then ""
      else mcp_format (trim server_name) (trim tool_name)

  -- The closure `add`.
  unfoldable pub add_name : GoMap String Bool → String → GoMap String Bool
  add_name m s = let added = GoMap.insert (trim s) true m in if trim s == "" then m else added

  unfoldable pub add_names : GoMap String Bool → List String → GoMap String Bool
  unfolding add_name
  add_names m [] = m
  add_names m (s ∷ names) = add_names (add_name m s) names

  -- The loop over the names of sub-agents; the first that is invalid ends it.
  unfoldable pub add_sub_agents : GoMap String Bool → List String → GoMap String Bool ⊎ String
  unfolding add_name
  add_sub_agents m [] = inl m
  add_sub_agents m (s ∷ names) = elim (sub_agent_tool_name s) [
    | none ↦ inr s
    | some name ↦ add_sub_agents (add_name m name) names
  ]

  unfoldable pub add_server : GoMap String Bool → String → List String → GoMap String Bool
  unfolding add_name
  add_server m server [] = m
  add_server m server (tid ∷ tools) =
      add_server (add_name m (mcp_tool_name server tid)) server tools

  unfoldable pub add_mcp_tools : GoMap String Bool → GoMap String (List String) → GoMap String Bool
  unfolding add_server
  add_mcp_tools m [] = m
  add_mcp_tools m ((server, tools) ∷ servers) = add_mcp_tools (add_server m server tools) servers

  unfoldable pub allowlist_tool_approval_policy :
      {Tool : Type 0} → AllowlistToolApprovalConfig → ApprovalPolicy Tool ⊎ String
  unfolding add_sub_agents add_mcp_tools add_names
  allowlist_tool_approval_policy c =
      elim (add_sub_agents (add_names [] c.tool_names) c.sub_agent_names) [
        | inr e ↦ inr e
        | inl m ↦ inl (allowlist (add_mcp_tools m c.mcp_tools))
      ]

module _ {Tool : Type 0} (tool_name : Tool → String) where
  -- A missing key of the map of bools is `false`.
  unfoldable pub policy_requires : ApprovalPolicy Tool → Tool → Bool
  policy_requires require_all t = true
  policy_requires auto t = false
  policy_requires (allowlist allowed) t = elim (GoMap.lookup (tool_name t) allowed) [
    | none ↦ true
    | some b ↦ not b
  ]
  policy_requires (custom requires) t = requires t

  unfoldable pub requires_approval :
      (approval_required : Tool → Bool) → Option (ApprovalPolicy Tool) → Tool → Bool
  unfolding policy_requires
  requires_approval approval_required none t = approval_required t
  requires_approval approval_required (some policy) t = policy_requires policy t

abbrev pub unknown_call : {Args : Type 0} → ToolCall Args → ToolCallRequest Args
unknown_call tc = record {
  tool_call_id = tc.tool_call_id;
  tool_name = tc.tool_name;
  tool_display_name = tc.tool_name;
  tool_kind = no_kind;
  args = tc.args;
  needs_approval = false;
  unknown = true;
}

-- The loop of llmResponseToResult goes over the calls of the response, where nil is `none`.
-- `approval_required` is ToolApproval.ApprovalRequired, and `false` for a tool without it.
module _ {Tool Args : Type 0} (tool_name display_name : Tool → String) (kind_of : Tool → ToolKind)
    (approval_required : Tool → Bool) where
  unfoldable pub known_call :
      Option (ApprovalPolicy Tool) → ToolCall Args → Tool → ToolCallRequest Args
  unfolding requires_approval
  known_call policy tc t = record {
    tool_call_id = tc.tool_call_id;
    tool_name = tc.tool_name;
    tool_display_name = if display_name t == "" then tc.tool_name else display_name t;
    tool_kind = kind_of t;
    args = tc.args;
    needs_approval = requires_approval tool_name approval_required policy t;
    unknown = false;
  }

  unfoldable pub call_requests :
      Option (ApprovalPolicy Tool)
      → List Tool
      → List (Option (ToolCall Args))
      → List (ToolCallRequest Args)
  unfolding known_call
  call_requests policy tools [] = []
  call_requests policy tools (none ∷ calls) = call_requests policy tools calls
  call_requests policy tools (some tc ∷ calls) =
      let request : ToolCallRequest Args = elim (find_tool_by_name tool_name tools tc.tool_name) [
        | none ↦ unknown_call tc
        | some t ↦ known_call policy tc t
      ] in
      request ∷ call_requests policy tools calls

  unfoldable pub llm_response_to_result :
      Option (ApprovalPolicy Tool)
      → List Tool
      → String
      → List (Option (ToolCall Args))
      → Option LlmUsage
      → LlmResult Args
  unfolding call_requests
  llm_response_to_result policy tools content calls usage = record {
    content = content;
    tool_calls = call_requests policy tools calls;
    usage = usage;
  }
