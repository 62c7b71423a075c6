-- ===== src/Config/ToolNames.antt =====
-- The tools of a run and who must approve them, in pkg/agent/config.go and pkg/agent/policy.go:
-- validateToolNames, resolveTools, validateHookGroups and the policies of approval.
pub mod Unique
use Prim.Native.String.{◌++◌ as str_append}
use agent_sdk_go.Prelude.{
  ℕ, Bool, true, false, not, Option, none, some, List, [], ◌∷◌, ◌++◌, map, String, string_eq, ◌==◌,
  ◌⊎◌, inl, inr, if◌then◌else◌,
}
use agent_sdk_go.Prelude.GoMap
use agent_sdk_go.Prelude.GoMap.{GoMap}
use agent_sdk_go.Config.SubAgents.{contains}

pub data ToolNameError : Type 0 where
  tool_nil : ToolNameError
  duplicate_name : (name kind prev : String) → ToolNameError

module _ {Tool : Type 0} (tool_name kind_of : Tool → String) where
  -- The loop of validateToolNames; a nil tool is `none`.
  unfoldable pub check_tool_names : GoMap String String → List (Option Tool) → Option ToolNameError
  check_tool_names seen [] = none
  check_tool_names seen (none ∷ tools) = some tool_nil
  check_tool_names seen (some t ∷ tools) =
      let later = check_tool_names (GoMap.insert (tool_name t) (kind_of t) seen) tools in
      elim (GoMap.lookup (tool_name t) seen) [
        | some prev ↦ some (duplicate_name (tool_name t) (kind_of t) prev)
        | none ↦ later
      ]

  unfoldable pub validate_tool_names : List (Option Tool) → Option ToolNameError
  unfolding check_tool_names
  validate_tool_names tools = check_tool_names [] tools

pub data HookGroupError : Type 0 where
  hook_name_required : HookGroupError
  duplicate_hook_group : (name : String) → HookGroupError

-- The loop of validateHookGroups, on the names of the groups.
unfoldable pub check_hook_groups : List String → List String → Option HookGroupError
check_hook_groups seen [] = none
check_hook_groups seen (name ∷ names) =
    let later = check_hook_groups (name ∷ seen) names in
    if name == ""
    then some hook_name_required
    else if contains name seen
    then some (duplicate_hook_group name)
    else later

unfoldable pub validate_hook_groups : List String → Option HookGroupError
unfolding check_hook_groups
validate_hook_groups names = check_hook_groups [] names
