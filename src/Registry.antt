-- ===== src/Registry.antt =====
-- pkg/agent/tool_registry.go: the ordered registry of tools. A tool is a value of any type with a
-- name; `nil` is `none`. `strings.TrimSpace` is the parameter `trim`.
mod Order
pub mod Listing
mod Examples
use agent_sdk_go.Prelude.{
  Bool, true, false, Option, none, some, List, [], ◌∷◌, ◌++◌, String, string_eq, if◌then◌else◌,
  ◌==◌, ◌⊎◌, inl, inr,
}
use agent_sdk_go.Prelude.GoMap
use agent_sdk_go.Prelude.GoMap.{GoMap}

-- The errors of pkg/agent/registry.go.
pub data RegistryError : Type 0 where
  not_found duplicate invalid_name nil_entry : RegistryError

pub record Registry (T : Type 0) : Type 0 where
  pub tools : GoMap String T
  pub order : List String

abbrev pub new_registry : {T : Type 0} → Registry T
new_registry = record { tools = []; order = [] }

-- The first occurrence of a name is taken out.
unfoldable pub remove_from_order : List String → String → List String
remove_from_order [] name = []
remove_from_order (n ∷ order) name = if n == name then order else n ∷ remove_from_order order name

-- The tools that the map has, in the order of the names.
unfoldable pub collect : {T : Type 0} → GoMap String T → List String → List T
collect tools [] = []
collect tools (name ∷ order) =
    let rest = collect tools order in
    elim (GoMap.lookup name tools) [ none ↦ rest | some t ↦ t ∷ rest ]

module _ {T : Type 0} (trim : String → String) (name_of : T → String) where
  add_entry : Registry T → String → T → Registry T × Option RegistryError
  add_entry r name tool = elim (GoMap.lookup name r.tools) [
    | some _ ↦ (r, some duplicate)
    | none ↦ (record { tools = GoMap.insert name tool r.tools; order = r.order ++ name ∷ [] }, none)
  ]

  unfoldable pub register : Registry T → Option T → Registry T × Option RegistryError
  unfolding add_entry
  register r none = (r, some nil_entry)
  register r (some tool) =
      let name = trim (name_of tool) in
      if name == "" then (r, some invalid_name) else add_entry r name tool

  -- The first error ends the loop; the tools before it stay registered.
  unfoldable pub register_tools : Registry T → List (Option T) → Registry T × Option RegistryError
  register_tools r [] = (r, none)
  register_tools r (t ∷ ts) =
      let (r', err) = register r t in
      let rest = register_tools r' ts in elim err [ some e ↦ (r', some e) | none ↦ rest ]

module _ {T : Type 0} (trim : String → String) where
  drop_entry : Registry T → String → Registry T × Option RegistryError
  drop_entry r name = elim (GoMap.lookup name r.tools) [
    | none ↦ (r, some not_found)
    | some _ ↦
        (record { tools = GoMap.delete name r.tools; order = remove_from_order r.order name }, none)
  ]

  unfoldable pub unregister : Registry T → String → Registry T × Option RegistryError
  unfolding drop_entry
  unregister r given =
      let name = trim given in if name == "" then (r, some invalid_name) else drop_entry r name

  -- The tool, or the error.
  unfoldable pub get : Registry T → String → T ⊎ RegistryError
  get r given =
      let name = trim given in
      if name == ""
      then inr invalid_name
      else elim (GoMap.lookup name r.tools) [ none ↦ inr not_found | some t ↦ inl t ]

unfoldable pub list_tools : {T : Type 0} → Registry T → List T
list_tools r = collect r.tools r.order
