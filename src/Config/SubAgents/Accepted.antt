-- ===== src/Config/SubAgents/Accepted.antt =====
-- What an accepted registry of sub-agents is.
use agent_sdk_go.Prelude.{
  ℕ, ◌≡◌, inl, inr, subst, false, Option, none, some, List, [], ◌∷◌, String, arith, string_eq,
  nat_eq, ◌==◌, if◌then◌else◌, Option-cases, le64,
}
use agent_sdk_go.Config.SubAgents.{
  Agents, contains, dfs_sub_agent_depth, check_entries, check_depths, validate_sub_agent_registry,
}
use agent_sdk_go.Config.SubAgents.Depth.{Shallow, ChildIn, dfs_iff}

module _ (g : Agents) (tool_name_of : String → Option String) (root : String) where
  -- Every entry is an agent that is not the root by its name, its tool name is valid, and no other
  -- entry is the same agent or has the same tool name.
  abbrev pub Entries : List ℕ → List String → List (Option ℕ) → Type 0
  Entries seen names [] = Unit
  Entries seen names (none ∷ agents) = ⊥
  Entries seen names (some a ∷ agents) =
      (contains a seen ≡ false)
      × ((g.name a == root) ≡ false)
      × (tool : String) × (tool_name_of (g.name a) ≡ some tool)
      × (contains tool names ≡ false)
      × Entries (a ∷ seen) (tool ∷ names) agents

  check_entries-Entries :
      (seen : List ℕ) (names : List String) (agents : List (Option ℕ))
      → check_entries g tool_name_of root seen names agents ≡ none
      → Entries seen names agents
  unfolding check_entries
  check_entries-Entries seen names [] ok = tt
  check_entries-Entries seen names (none ∷ agents) ok = cc
  check_entries-Entries seen names (some a ∷ agents) ok =
      elim (Option-cases (tool_name_of (g.name a))) [
        | inl invalid ↦ ground arith
        | inr (tool, named) ↦
            let later : check_entries g tool_name_of root (a ∷ seen) (tool ∷ names) agents ≡ none =
              ground arith in
            (
              ground arith,
              ground arith,
              tool,
              named,
              ground arith,
              check_entries-Entries (a ∷ seen) (tool ∷ names) agents later,
            )
      ]

  check_depths-Shallow :
      (max_depth : ℕ) (agents : List (Option ℕ))
      → check_depths g tool_name_of root max_depth agents ≡ none
      → (a : ℕ) → ChildIn a agents
      → Shallow g max_depth a
  unfolding check_depths
  check_depths-Shallow max_depth [] ok a listed = elim listed [ ]
  check_depths-Shallow max_depth (none ∷ agents) ok a (inl e) = cc
  check_depths-Shallow max_depth (none ∷ agents) ok a (inr listed) =
      check_depths-Shallow max_depth agents ok a listed
  check_depths-Shallow max_depth (some b ∷ agents) ok a (inl e) =
      let same : b ≡ a = cc in
      let here : dfs_sub_agent_depth g max_depth b (b ∷ []) ≡ none = ground arith in
      subst (λ c. Shallow g max_depth c) same ((dfs_iff g max_depth b).0 here)
  check_depths-Shallow max_depth (some b ∷ agents) ok a (inr listed) =
      check_depths-Shallow max_depth agents (ground arith) a listed

  -- In a registry that validateSubAgentRegistry accepts, every entry is an agent, none has the name of
  -- the root, no two are the same agent or share a tool name, and every chain of sub-agents that
  -- starts at one of them has at most as many agents as maxSubAgentDepth, or 2 if that is not positive.
  pub validate_sub_agent_registry_lem :
      (max_sub_agent_depth : ℕ) (agents : List (Option ℕ))
      → validate_sub_agent_registry g tool_name_of root max_sub_agent_depth agents ≡ none
      → Entries [] [] agents
        × ((a : ℕ)
            → ChildIn a agents
            → Shallow g (if le64 max_sub_agent_depth 0 then 2 else max_sub_agent_depth) a)
  unfolding validate_sub_agent_registry
  validate_sub_agent_registry_lem max_sub_agent_depth agents ok =
      let max_depth = if le64 max_sub_agent_depth 0 then 2 else max_sub_agent_depth in
      elim (Option-cases (check_entries g tool_name_of root [] [] agents)) [
        | inr (e, bad) ↦ ground arith
        | inl entries ↦
            let depths : check_depths g tool_name_of root max_depth agents ≡ none = ground arith in
            (
              check_entries-Entries [] [] agents entries,
              check_depths-Shallow max_depth agents depths,
            )
      ]
