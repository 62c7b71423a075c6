-- ===== src/Config/Examples.antt =====
-- A small agent: a name with blanks, a budget with approvals, two sub-agents, an allowlist.
use agent_sdk_go.Prelude.{
  ℕ, ◌≡◌, ◌⊎◌, ◌↔◌, inl, refl, Bool, true, false, Option, none, some, List, [], ◌∷◌, String,
  string_eq, nat_beq, arith, All, leb, ◌&&◌, ◌+◌, if◌then◌else◌,
}
use agent_sdk_go.Prelude.GoMap
use agent_sdk_go.CircuitBreaker.{native}
use agent_sdk_go.Budget.{BudgetConfig, wait_for_approval}
use agent_sdk_go.ErrorControl.{
  ErrorControlConfig, ErrorControlDecision, LlmFailureInfo, fallback_model, resolve_llm_client,
  decide_llm_failure,
}
use agent_sdk_go.Agent.{ToolCall}
use agent_sdk_go.Loop.Sample.{cents}
use agent_sdk_go.Config.Names.{is_kept, sanitize_name, strip, validate_agent_name}
use agent_sdk_go.Config.Names.Accepted.{Clean, sanitize_name-accepted}
use agent_sdk_go.Config.Limits.{validate_budget, check_amounts, fill_on_exceeded}
use agent_sdk_go.Config.Limits.Usable.{Usable, validate_budget-Usable}
use agent_sdk_go.Config.Clients.{
  validate_named_llm_clients, validate_error_control, check_circuit_breaker,
}
use agent_sdk_go.Config.Clients.Fallback.{fallback_available}
use agent_sdk_go.Config.SubAgents.{Agents, dfs_sub_agent_depth}
use agent_sdk_go.Config.SubAgents.Depth.{Shallow, dfs_iff}
use agent_sdk_go.Config.Approval.{
  ApprovalPolicy, allowlist, NameTools, AllowlistToolApprovalConfig, allowlist_tool_approval_policy,
  add_names, add_name, add_sub_agents, add_mcp_tools, add_server, llm_response_to_result,
}
use agent_sdk_go.Config.Approval.Allowlist.{AllMarked, llm_response_to_result-Marked}

-- Upper-case letters to lower-case ones, and the text without the blanks in front.
lower : List ℕ → List ℕ
lower [] = []
lower (r ∷ rs) = (if leb 65 r && leb r 90 then r + 32 else r) ∷ lower rs

trim_left : List ℕ → List ℕ
trim_left [] = []
trim_left (r ∷ rs) = let rest = trim_left rs in if nat_beq r 32 then rest else r ∷ rs

lower-Clean : (text : List ℕ) → All (λ r. is_kept r ≡ true) text → lower text ≡ text
unfolding lower
lower-Clean [] kept = refl
lower-Clean (r ∷ rs) (k, kept) = let rest = lower-Clean rs kept in ground arith

trim-Clean : (text : List ℕ) → All (λ r. is_kept r ≡ true) text → trim_left text ≡ text
unfolding trim_left
trim-Clean [] kept = refl
trim-Clean (r ∷ rs) (k, kept) = ground arith

-- " A b"
abbrev given_name : List ℕ
given_name = 32 ∷ 65 ∷ 32 ∷ 98 ∷ []

sanitize_name-accepted_example :
    let out = sanitize_name trim_left lower given_name in
    ((out ≡ []) ⊎ (validate_agent_name out ≡ none))
    × ((sanitize_name trim_left lower given_name ≡ given_name) ↔ Clean given_name)
    × (sanitize_name trim_left lower out ≡ out)
sanitize_name-accepted_example =
    sanitize_name-accepted trim_left lower given_name
      (λ text clean. (trim-Clean text clean.0, lower-Clean text clean.0))

-- "a-b"
name_cleaned : sanitize_name trim_left lower given_name ≡ 97 ∷ 45 ∷ 98 ∷ []
unfolding sanitize_name strip trim_left lower
name_cleaned = refl

abbrev given_budget : BudgetConfig cents
given_budget = record {
  max_tokens = 100;
  max_cost_usd = 0;
  prompt_usd_per_1m = 0;
  completion_usd_per_1m = 0;
  on_exceeded = wait_for_approval;
  approval_extra_tokens = 0;
  approval_extra_cost_usd = 0;
  max_approvals = 1;
}

abbrev filled_budget : BudgetConfig cents
filled_budget = record given_budget { approval_extra_tokens = 100 }

never : ℕ → Bool
never x = false

is_zero : ℕ → Bool
is_zero x = nat_beq x 0

budget_accepted : validate_budget cents never is_zero given_budget ≡ inl filled_budget
unfolding validate_budget check_amounts fill_on_exceeded never is_zero
budget_accepted = refl

positive_not_zero : (x : ℕ) → cents.is_pos x ≡ true → is_zero x ≡ false
unfolding is_zero
positive_not_zero x p = ground arith

validate_budget-Usable_example :
    Usable cents never is_zero filled_budget
    × (validate_budget cents never is_zero filled_budget ≡ inl filled_budget)
validate_budget-Usable_example =
    validate_budget-Usable cents never is_zero given_budget filled_budget (ground arith)
      (ground arith) (ground arith) positive_not_zero budget_accepted

abbrev same_text : String → String
same_text s = s

abbrev clients : GoMap.GoMap String (Option String)
clients = ("spare", some "small model") ∷ []

abbrev control : ErrorControlConfig
control = record {
  on_llm_failure = none;
  on_max_iterations_exceeded = none;
  fallback_llm_client = "spare";
}

clients_accepted : validate_named_llm_clients same_text clients ≡ none
unfolding validate_named_llm_clients
clients_accepted = refl

control_accepted : validate_error_control clients (some control) none ≡ none
unfolding validate_error_control check_circuit_breaker GoMap.lookup
control_accepted = refl

fallback_available_example :
    ((client : String) × (GoMap.lookup "spare" clients ≡ some (some client))
      × (resolve_llm_client same_text "large model" clients (some control) true ≡ inl client))
    × ((hook : LlmFailureInfo → ErrorControlDecision) (info : LlmFailureInfo)
        → control.on_llm_failure ≡ some hook
        → (hook info).action ≡ fallback_model
        → decide_llm_failure same_text "large model" clients (some control) info ≡ hook info)
fallback_available_example =
    fallback_available same_text "large model" clients control none clients_accepted
      control_accepted refl

-- Agent 1 has the sub-agent 2.
abbrev agents : Agents
agents = record {
  name = λ a. "agent";
  registry = λ a. if nat_beq a 1 then some (some 2 ∷ []) else none;
}

dfs_iff_example : (dfs_sub_agent_depth agents 2 1 (1 ∷ []) ≡ none) ↔ Shallow agents 2 1
dfs_iff_example = dfs_iff agents 2 1

abbrev names : NameTools
names = record {
  trim = same_text;
  replace = same_text;
  trim_marks = same_text;
  mcp_format = λ s t. t;
}

abbrev only_ls : AllowlistToolApprovalConfig
only_ls = record { tool_names = "ls" ∷ []; sub_agent_names = []; mcp_tools = [] }

abbrev ls_policy : ApprovalPolicy String
ls_policy = allowlist (("ls", true) ∷ [])

policy_built : allowlist_tool_approval_policy names only_ls ≡ inl ls_policy
unfolding allowlist_tool_approval_policy add_names add_name add_sub_agents add_mcp_tools add_server
    GoMap.insert
policy_built = refl

abbrev asked : List (Option (ToolCall String))
asked =
    some (record { tool_call_id = "1"; tool_name = "ls"; args = none })
    ∷ some (record { tool_call_id = "2"; tool_name = "rm"; args = none })
    ∷ []

llm_response_to_result-Marked_example :
    AllMarked names same_text same_text
      (λ t. native)
      (λ t. true)
      only_ls
      ("ls" ∷ "rm" ∷ [])
      asked
      (llm_response_to_result same_text same_text
        (λ t. native)
        (λ t. true)
        (some ls_policy)
        ("ls" ∷ "rm" ∷ [])
        ""
        asked
        none).tool_calls
llm_response_to_result-Marked_example =
    llm_response_to_result-Marked names same_text same_text (λ t. native) (λ t. true) only_ls
      ls_policy ("ls" ∷ "rm" ∷ []) "" asked none policy_built
