-- ===== src/Config/ToolNames/Unique.antt =====
-- Accepted names are the names without repetition.
use agent_sdk_go.Prelude.{
  ◌≡◌, ◌↔◌, inl, inr, refl, false, Option, none, some, List, [], ◌∷◌, String, string_eq, ◌==◌,
  arith, Bool-cases, Option-cases,
}
use agent_sdk_go.Prelude.GoMap
use agent_sdk_go.Prelude.GoMap.{GoMap}
use agent_sdk_go.Config.ToolNames.{check_tool_names, validate_tool_names}

module _ {Tool : Type 0} (tool_name kind_of : Tool → String) where
  -- Every tool is there, and no two of them have the same name.
  abbrev pub NoTool : String → List (Option Tool) → Type 0
  NoTool name [] = Unit
  NoTool name (none ∷ tools) = NoTool name tools
  NoTool name (some t ∷ tools) = ((name == tool_name t) ≡ false) × NoTool name tools

  abbrev pub Distinct : List (Option Tool) → Type 0
  Distinct [] = Unit
  Distinct (none ∷ tools) = ⊥
  Distinct (some t ∷ tools) = NoTool (tool_name t) tools × Distinct tools

  -- No tool has a name in the map.
  Fresh : GoMap String String → List (Option Tool) → Type 0
  Fresh seen [] = Unit
  Fresh seen (none ∷ tools) = Fresh seen tools
  Fresh seen (some t ∷ tools) = (GoMap.lookup (tool_name t) seen ≡ none) × Fresh seen tools

  Fresh-insert :
      (name kind : String) (seen : GoMap String String) (tools : List (Option Tool))
      → Fresh (GoMap.insert name kind seen) tools ↔ (NoTool name tools × Fresh seen tools)
  unfolding Fresh
  Fresh-insert name kind seen [] = ground arith
  Fresh-insert name kind seen (none ∷ tools) = Fresh-insert name kind seen tools
  Fresh-insert name kind seen (some t ∷ tools) =
      let rest = Fresh-insert name kind seen tools in
      let found = GoMap.lookup-insert name (tool_name t) kind seen in
      elim (Bool-cases (name == tool_name t)) [
        | inl same ↦ ground (arith, rest, found, same)
        | inr other ↦ ground (arith, rest, found, other)
      ]

  Fresh-nil : (tools : List (Option Tool)) → Fresh [] tools
  unfolding Fresh GoMap.lookup
  Fresh-nil [] = tt
  Fresh-nil (none ∷ tools) = Fresh-nil tools
  Fresh-nil (some t ∷ tools) = (refl, Fresh-nil tools)

  check_tool_names_iff :
      (seen : GoMap String String) (tools : List (Option Tool))
      → (check_tool_names tool_name kind_of seen tools ≡ none) ↔ (Distinct tools × Fresh seen tools)
  unfolding check_tool_names Fresh
  check_tool_names_iff seen [] = ground arith
  check_tool_names_iff seen (none ∷ tools) = ground arith
  check_tool_names_iff seen (some t ∷ tools) =
      let rest = check_tool_names_iff (GoMap.insert (tool_name t) (kind_of t) seen) tools in
      let fresh = Fresh-insert (tool_name t) (kind_of t) seen tools in
      elim (Option-cases (GoMap.lookup (tool_name t) seen)) [
        | inl new ↦ ground (arith, rest, fresh, new)
        | inr (prev, old) ↦ ground (arith, old)
      ]

  -- validateToolNames accepts the tools of a run exactly when none is nil and no two have the same
  -- name.
  validate_tool_names_iff :
      (tools : List (Option Tool))
      → (validate_tool_names tool_name kind_of tools ≡ none) ↔ Distinct tools
  unfolding validate_tool_names
  validate_tool_names_iff tools =
      let checked = check_tool_names_iff [] tools in
      let fresh = Fresh-nil tools in
      (λ ok. (checked.0 ok).0, λ distinct. checked.1 (distinct, fresh))
