-- ===== src/Config/Approval/Allowlist.antt =====
-- What an allowlist lets through.
use agent_sdk_go.Prelude.{
  ◌≡◌, ◌⊎◌, inl, inr, refl, Bool, true, false, not, ◌&&◌, ◌||◌, Option, none, some, List, [], ◌∷◌,
  String, string_eq, ◌==◌, arith, if◌then◌else◌, Bool-cases, Option-cases, ⊎-cases, beq_iff, ap,
  sym, subst,
}
use agent_sdk_go.Prelude.GoMap
use agent_sdk_go.Prelude.GoMap.{GoMap}
use agent_sdk_go.CircuitBreaker.{ToolKind}
use agent_sdk_go.Budget.{LlmUsage}
use agent_sdk_go.Agent.{ToolCall, ToolCallRequest, find_tool_by_name}
use agent_sdk_go.Config.Approval.{
  ApprovalPolicy, allowlist, NameTools, AllowlistToolApprovalConfig, sub_agent_tool_name,
  mcp_tool_name, add_name, add_names, add_sub_agents, add_server, add_mcp_tools,
  allowlist_tool_approval_policy, policy_requires, requires_approval, call_requests, known_call,
  llm_response_to_result,
}

module _ (n : NameTools) where
  open n use {trim}

  -- A name that an entry stands for: the entry without the blanks around it.
  abbrev pub stands_for : String → String → Bool
  stands_for entry name = not (trim entry == "") && (trim entry == name)

  pub names_one : List String → String → Bool
  names_one [] name = false
  names_one (s ∷ entries) name = stands_for s name || names_one entries name

  pub names_sub_agent : List String → String → Bool
  names_sub_agent [] name = false
  names_sub_agent (s ∷ entries) name =
      elim (sub_agent_tool_name n s) [ none ↦ false | some tool ↦ stands_for tool name ]
      || names_sub_agent entries name

  pub names_server_tool : String → List String → String → Bool
  names_server_tool server [] name = false
  names_server_tool server (tid ∷ tools) name =
      stands_for (mcp_tool_name n server tid) name || names_server_tool server tools name

  pub names_mcp_tool : GoMap String (List String) → String → Bool
  names_mcp_tool [] name = false
  names_mcp_tool ((server, tools) ∷ servers) name =
      names_server_tool server tools name || names_mcp_tool servers name

  -- The tools that a configuration names.
  abbrev pub allows : AllowlistToolApprovalConfig → String → Bool
  allows c name =
      names_one c.tool_names name
      || (names_sub_agent c.sub_agent_names name || names_mcp_tool c.mcp_tools name)

  -- A map whose lookup is that of `m`, and `true` where `added` holds.
  Adds : GoMap String Bool → GoMap String Bool → (String → Bool) → Type 0
  Adds m m' added =
      (name : String)
      → GoMap.lookup name m' ≡ (if added name then some true else GoMap.lookup name m)

  add_name-Adds :
      (m : GoMap String Bool) (s : String) → Adds m (add_name n m s) (λ name. stands_for s name)
  unfolding add_name Adds
  add_name-Adds m s name =
      let found = GoMap.lookup-insert (trim s) name true m in
      elim (Bool-cases (trim s == "")) [
        | inl blank ↦ rw (blank, add_name) refl
        | inr rest ↦ rw (rest, add_name) found
      ]

  Adds-then :
      (m m' m'' : GoMap String Bool) (p q : String → Bool)
      → Adds m m' p
      → Adds m' m'' q
      → Adds m m'' (λ name. p name || q name)
  unfolding Adds
  Adds-then m m' m'' p q a b name = ground (arith, a name, b name)

  add_names-Adds :
      (m : GoMap String Bool) (entries : List String)
      → Adds m (add_names n m entries) (names_one entries)
  unfolding Adds add_names names_one
  add_names-Adds m [] = λ name. refl
  add_names-Adds m (s ∷ entries) =
      Adds-then m (add_name n m s) _ (stands_for s) (names_one entries) (add_name-Adds m s)
        (add_names-Adds (add_name n m s) entries)

  add_sub_agents-Adds :
      (m m' : GoMap String Bool) (entries : List String)
      → add_sub_agents n m entries ≡ inl m'
      → Adds m m' (names_sub_agent entries)
  unfolding add_sub_agents names_sub_agent Adds
  add_sub_agents-Adds m m' [] e =
      let same : m ≡ m' = cc in λ name. ap (GoMap.lookup name) (sym same)
  add_sub_agents-Adds m m' (s ∷ entries) e = elim (Option-cases (sub_agent_tool_name n s)) [
    | inl invalid ↦ ground arith
    | inr (tool, valid) ↦
        let rest : add_sub_agents n (add_name n m tool) entries ≡ inl m' = ground arith in
        rw (valid, names_sub_agent)
          (Adds-then m (add_name n m tool) m' (stands_for tool) (names_sub_agent entries)
            (add_name-Adds m tool) (add_sub_agents-Adds (add_name n m tool) m' entries rest))
  ]

  add_server-Adds :
      (m : GoMap String Bool) (server : String) (tools : List String)
      → Adds m (add_server n m server tools) (names_server_tool server tools)
  unfolding Adds add_server names_server_tool
  add_server-Adds m server [] = λ name. refl
  add_server-Adds m server (tid ∷ tools) =
      Adds-then m (add_name n m (mcp_tool_name n server tid)) _
        (stands_for (mcp_tool_name n server tid)) (names_server_tool server tools)
        (add_name-Adds m (mcp_tool_name n server tid))
        (add_server-Adds (add_name n m (mcp_tool_name n server tid)) server tools)

  add_mcp_tools-Adds :
      (m : GoMap String Bool) (servers : GoMap String (List String))
      → Adds m (add_mcp_tools n m servers) (names_mcp_tool servers)
  unfolding Adds add_mcp_tools names_mcp_tool
  add_mcp_tools-Adds m [] = λ name. refl
  add_mcp_tools-Adds m ((server, tools) ∷ servers) =
      Adds-then m (add_server n m server tools) _ (names_server_tool server tools)
        (names_mcp_tool servers) (add_server-Adds m server tools)
        (add_mcp_tools-Adds (add_server n m server tools) servers)

  module _ {Tool : Type 0} (tool_name : Tool → String) where
    policy-allows :
        (c : AllowlistToolApprovalConfig) (p : ApprovalPolicy Tool) (t : Tool)
        → allowlist_tool_approval_policy n c ≡ inl p
        → policy_requires tool_name p t ≡ not (allows c (tool_name t))
    unfolding allowlist_tool_approval_policy policy_requires Adds GoMap.lookup
    policy-allows c p t e =
        elim (⊎-cases (add_sub_agents n (add_names n [] c.tool_names) c.sub_agent_names)) [
          | inr (s, bad) ↦ ground arith
          | inl (m, ok) ↦
              let first = add_names-Adds [] c.tool_names (tool_name t) in
              let second = add_sub_agents-Adds _ m c.sub_agent_names ok (tool_name t) in
              let third = add_mcp_tools-Adds m c.mcp_tools (tool_name t) in
              let p_is : p ≡ allowlist (add_mcp_tools n m c.mcp_tools) = ground arith in
              rw p_is (ground (arith, first, second, third))
        ]

    find-named :
        (tools : List Tool) (name : String) (t : Tool)
        → find_tool_by_name tool_name tools name ≡ some t
        → tool_name t ≡ name
    unfolding find_tool_by_name
    find-named [] name t e = cc
    find-named (u ∷ tools) name t e = elim (Bool-cases (tool_name u == name)) [
      | inl same ↦
          let this : u ≡ t = ground arith in
          subst (λ v. tool_name v ≡ name) this ((beq_iff (tool_name u) name).0 same)
      | inr other ↦ find-named tools name t (ground arith)
    ]

    module _ {Args : Type 0} (display_name : Tool → String) (kind_of : Tool → ToolKind)
        (approval_required : Tool → Bool) where
      -- How a call of the model is marked: unknown, or with the need of an approval. It keeps its id,
      -- its name and its arguments.
      pub record Marked (c : AllowlistToolApprovalConfig) (tools : List Tool) (tc : ToolCall Args)
          (r : ToolCallRequest Args) : Type 0 where
        pub same_id : r.tool_call_id ≡ tc.tool_call_id
        pub same_name : r.tool_name ≡ tc.tool_name
        pub same_args : r.args ≡ tc.args
        pub mark :
            ((r.unknown ≡ true) × (find_tool_by_name tool_name tools tc.tool_name ≡ none))
            ⊎ ((r.unknown ≡ false)
                × (t : Tool) × (find_tool_by_name tool_name tools tc.tool_name ≡ some t)
                × (r.needs_approval ≡ not (allows c tc.tool_name)))

      -- One request for each call that is not nil, in the order of the calls.
      pub AllMarked :
          AllowlistToolApprovalConfig
          → List Tool
          → List (Option (ToolCall Args))
          → List (ToolCallRequest Args)
          → Type 0
      AllMarked c tools [] [] = Unit
      AllMarked c tools [] (r ∷ rs) = ⊥
      AllMarked c tools (none ∷ calls) rs = AllMarked c tools calls rs
      AllMarked c tools (some tc ∷ calls) [] = ⊥
      AllMarked c tools (some tc ∷ calls) (r ∷ rs) =
          Marked c tools tc r × AllMarked c tools calls rs

      call_requests-AllMarked :
          (c : AllowlistToolApprovalConfig) (p : ApprovalPolicy Tool) (tools : List Tool)
          (calls : List (Option (ToolCall Args)))
          → allowlist_tool_approval_policy n c ≡ inl p
          → AllMarked c tools calls
              (call_requests tool_name display_name kind_of approval_required (some p) tools calls)
      unfolding call_requests known_call requires_approval AllMarked
      call_requests-AllMarked c p tools [] e = tt
      call_requests-AllMarked c p tools (none ∷ calls) e = call_requests-AllMarked c p tools calls e
      call_requests-AllMarked c p tools (some tc ∷ calls) e =
          let rest = call_requests-AllMarked c p tools calls e in
          elim (Option-cases (find_tool_by_name tool_name tools tc.tool_name)) [
            | inl missing ↦
                rw (missing, call_requests)
                  (
                    record {
                      same_id = refl;
                      same_name = refl;
                      same_args = refl;
                      mark = inl (refl, missing);
                    },
                    rest,
                  )
            | inr (t, found) ↦
                let named = find-named tools tc.tool_name t found in
                let marked = policy-allows c p t e in
                let marked' : policy_requires tool_name p t ≡ not (allows c tc.tool_name) =
                  subst (λ name. policy_requires tool_name p t ≡ not (allows c name)) named
                    marked in
                rw (found, call_requests)
                  (
                    record {
                      same_id = refl;
                      same_name = refl;
                      same_args = refl;
                      mark = inr (refl, t, found, marked');
                    },
                    rest,
                  )
          ]

      -- With an allowlist, llmResponseToResult makes of the calls of a response, in their order and
      -- without the nil ones, one request each, with its id, name and arguments: it marks a call as
      -- unknown exactly when no tool of the run has its name, and every other as needing an approval
      -- exactly when the configuration does not name its tool: among the plain names, as the tool of a
      -- sub-agent, or as a tool of a server.
      pub llm_response_to_result-Marked :
          (c : AllowlistToolApprovalConfig) (p : ApprovalPolicy Tool) (tools : List Tool)
          (content : String) (calls : List (Option (ToolCall Args))) (usage : Option LlmUsage)
          → allowlist_tool_approval_policy n c ≡ inl p
          → AllMarked c tools calls
              (llm_response_to_result tool_name display_name kind_of approval_required
                (some p)
                tools
                content
                calls
                usage).tool_calls
      unfolding llm_response_to_result
      llm_response_to_result-Marked c p tools content calls usage e =
          call_requests-AllMarked c p tools calls e
