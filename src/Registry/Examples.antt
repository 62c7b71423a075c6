-- ===== src/Registry/Examples.antt =====
-- A registry of tools that are their own names; `keep` stands for a trim of names without blanks.
use agent_sdk_go.Prelude.{◌≡◌, refl, String, string_eq, List, [], ◌∷◌, none, some}
use agent_sdk_go.Prelude.GoMap
use agent_sdk_go.Registry.{
  Registry, new_registry, register, register_tools, list_tools, duplicate, collect,
}
use agent_sdk_go.Registry.Order.{Inv}
use agent_sdk_go.Registry.Listing.{Change, registers, run, run-Inv}

abbrev keep : String → String
keep s = s

abbrev changes : List (Change String)
changes = registers (some "echo") ∷ registers (some "calculator") ∷ registers none ∷ []

abbrev pair : Registry String
pair = run keep keep new_registry changes

pair_lists : list_tools pair ≡ "echo" ∷ "calculator" ∷ []
unfolding list_tools collect register GoMap.lookup GoMap.insert
pair_lists = refl

stops_at_duplicate :
    (register_tools keep keep new_registry (some "a" ∷ some "a" ∷ some "b" ∷ [])).1 ≡ some duplicate
unfolding register_tools register GoMap.lookup GoMap.insert
stops_at_duplicate = refl

run-Inv_example : Inv pair
run-Inv_example = run-Inv keep keep changes
