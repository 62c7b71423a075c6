-- ===== src/Config/SubAgents.antt =====
-- dfsSubAgentDepth and validateSubAgentRegistry of pkg/agent/config.go. An agent is the number of its
-- pointer; a nil pointer in a registry is `none`.
pub mod Depth
pub mod Accepted
use agent_sdk_go.Prelude.{
  ℕ, zero, suc, Bool, true, false, ◌||◌, Option, none, some, List, [], ◌∷◌, String, string_eq,
  nat_eq, ◌==◌, ◌⊎◌, inl, inr, if◌then◌else◌, le64,
}

-- The names of agents and their registries; `none` is an agent without one.
pub record Agents : Type 0 where
  pub name : ℕ → String
  pub registry : ℕ → Option (List (Option ℕ))

pub data DepthError : Type 0 where
  too_deep nil_entry : (agent : ℕ) → DepthError
  cycle : (agent child : ℕ) → DepthError

unfoldable pub contains {ℓ} : {A : Type ℓ} → ⦃e : agent_sdk_go.Prelude.Eq A⦄ → A → List A → Bool
contains a [] = false
contains a (x ∷ xs) = (x == a) || contains a xs

-- The loop over the children of `a`; `visit` is the recursive call.
unfoldable pub each_child :
    (visit : ℕ → List ℕ → Option DepthError) → ℕ → List ℕ → List (Option ℕ) → Option DepthError
each_child visit a path [] = none
each_child visit a path (none ∷ children) = some (nil_entry a)
each_child visit a path (some child ∷ children) =
    let here = visit child (child ∷ path) in
    let later = each_child visit a path children in
    if contains child path
    then some (cycle a child)
    else elim here [ some e ↦ some e | none ↦ later ]

module _ (g : Agents) where
  -- `room` is maxDepth + 1 - depth: none is left exactly when depth > maxDepth.
  unfoldable pub dfs_sub_agent_depth : (room : ℕ) → ℕ → List ℕ → Option DepthError
  unfolding each_child
  dfs_sub_agent_depth zero a path = some (too_deep a)
  dfs_sub_agent_depth (suc room) a path = elim (g.registry a) [
    | none ↦ none
    | some children ↦ each_child (dfs_sub_agent_depth room) a path children
  ]

  pub data RegistryError : Type 0 where
    sub_agent_nil : RegistryError
    duplicate_sub_agent same_as_root name_invalid : (agent : ℕ) → RegistryError
    duplicate_tool_name : (tool : String) → RegistryError
    depth_error : (e : DepthError) → RegistryError

  -- `tool_name_of` is subAgentToolName, `none` on its error.
  module _ (tool_name_of : String → Option String) (root : String) where
    -- The first loop.
    unfoldable pub check_entries : List ℕ → List String → List (Option ℕ) → Option RegistryError
    unfolding contains
    check_entries seen names [] = none
    check_entries seen names (none ∷ agents) = some sub_agent_nil
    check_entries seen names (some a ∷ agents) =
        if contains a seen
        then some (duplicate_sub_agent a)
        else if g.name a == root
        then some (same_as_root a)
        else elim (tool_name_of (g.name a)) [
          | none ↦ some (name_invalid a)
          | some tool ↦
              let later = check_entries (a ∷ seen) (tool ∷ names) agents in
              if contains tool names then some (duplicate_tool_name tool) else later
        ]

    -- The second loop.
    unfoldable pub check_depths : (max_depth : ℕ) → List (Option ℕ) → Option RegistryError
    unfolding dfs_sub_agent_depth
    check_depths max_depth [] = none
    check_depths max_depth (none ∷ agents) = check_depths max_depth agents
    check_depths max_depth (some a ∷ agents) =
        let later = check_depths max_depth agents in
        elim (dfs_sub_agent_depth max_depth a (a ∷ [])) [
          | some e ↦ some (depth_error e)
          | none ↦ later
        ]

    -- The default depth is 2.
    unfoldable pub validate_sub_agent_registry :
        (max_sub_agent_depth : ℕ) → List (Option ℕ) → Option RegistryError
    unfolding check_entries check_depths
    validate_sub_agent_registry max_sub_agent_depth agents =
        let max_depth = if le64 max_sub_agent_depth 0 then 2 else max_sub_agent_depth in
        elim (check_entries [] [] agents) [ some e ↦ some e | none ↦ check_depths max_depth agents ]
