-- ===== src/Base/Tools/Hooked.antt =====
-- A hook before tools that always refuses blocks every native and MCP tool, wherever it is registered:
-- executeTool of internal/runtime/base/runtime.go over the chains of internal/hooks.
use agent_sdk_go.Prelude.{
  Bool, true, not, Option, some, List, [], ◌∷◌, ◌++◌, String, ◌⊎◌, inl, inr, ◌≡◌, refl, ap, ◌∙◌,
  if◌then◌else◌, if_nil, ⊎-cases,
}
use agent_sdk_go.Prelude.GoMap.{GoMap}
use agent_sdk_go.Agent.{GoError, find_tool_by_name}
use agent_sdk_go.Hooks.{
  RunMeta, HookGroup, HookedCall, run_before_tool, hooks_eligible, clone_tool_args, run_groups,
  value_or_err,
}
use agent_sdk_go.Hooks.Chains.{registered, in_turn, run_groups-in_turn}
use agent_sdk_go.Base.{Outside, Args, payloads}
use agent_sdk_go.Base.Tools.{
  ToolRuntime, ExecuteToolInput, tool_call_for_hooks, execute_found, execute_tool, run_meta,
  some_hooks,
}

-- A hook before tools of an agent.
abbrev pub ToolHook : Outside → Type 0
ToolHook o =
    RunMeta → HookedCall (payloads o) → o.W → (Option (GoMap String o.Value) ⊎ GoError) × o.W

module _ {W S I O : Type 0} (input : S → I) (keep : S → O → S) (meta : RunMeta) where
  in_turn-refuses :
      (xs ys : List (String × (RunMeta → I → W → (O ⊎ GoError) × W))) (name : String)
      (hook : RunMeta → I → W → (O ⊎ GoError) × W)
      → ((m : RunMeta) (i : I) (w : W) → (e : GoError) × ((hook m i w).0 ≡ inr e))
      → (s : S) (w : W)
      → (e : GoError) × ((in_turn input keep meta (xs ++ (name, hook) ∷ ys) s w).err ≡ some e)
  unfolding in_turn
  in_turn-refuses [] ys name hook refuses s w =
      let (e, bad) = refuses (record meta { hooks_group = name }) (input s) w in
      (e, rw (bad, in_turn) refl)
  in_turn-refuses ((n, h) ∷ xs) ys name hook refuses s w =
      let (r, w') = h (record meta { hooks_group = n }) (input s) w in
      elim (⊎-cases r) [
        | inl (out, good) ↦
            rw (good, in_turn) (in_turn-refuses xs ys name hook refuses (keep s out) w')
        | inr (e, bad) ↦ rw (bad, in_turn) (e, refl)
      ]

some_registered :
    (o : Outside) (groups : List (HookGroup (payloads o))) (xs ys : List (String × ToolHook o))
    (g : String × ToolHook o)
    → registered (λ hs. hs.before_tool) groups ≡ xs ++ g ∷ ys
    → some_hooks groups ≡ true
unfolding registered
some_registered o [] [] ys g e = cc
some_registered o [] (x ∷ xs) ys g e = cc
some_registered o (h ∷ hs) xs ys g e = refl

module _ (o : Outside) (rt : ToolRuntime o) (input : ExecuteToolInput (Args o) rt.Tool)
    (tool : rt.Tool)
    (found : find_tool_by_name rt.tool_name input.tools input.tool_name ≡ some tool)
    (eligible : hooks_eligible (rt.kind_of tool) ≡ true) (xs ys : List (String × ToolHook o))
    (name : String) (hook : ToolHook o)
    (guards : registered (λ hs. hs.before_tool) rt.memory.hooks ≡ xs ++ (name, hook) ∷ ys)
    (refuses : (m : RunMeta) (call : HookedCall (payloads o)) (w : o.W)
      → (e : GoError) × ((hook m call w).0 ≡ inr e)) where
  before_refuses :
      (w : o.W)
      → (e : GoError) × ((run_before_tool rt.memory.hooks
            (run_meta o rt input)
            (tool_call_for_hooks o rt input tool)
            w).0
          ≡ inr e)
  unfolding run_before_tool tool_call_for_hooks
  before_refuses w =
      let call = tool_call_for_hooks o rt input tool in
      let meta = run_meta o rt input in
      let keep : HookedCall (payloads o) → Option (GoMap String o.Value) → HookedCall (payloads o) =
        λ c out. record c { args = clone_tool_args out } in
      let c = run_groups (λ hs. hs.before_tool) (λ c. c) keep meta rt.memory.hooks call w in
      let (e, bad) = in_turn-refuses (λ c. c) keep meta xs ys name hook refuses call w in
      let ends : c.err ≡ some e =
        ap (λ c. c.err)
          (run_groups-in_turn (λ hs. hs.before_tool) (λ c. c) keep meta rt.memory.hooks call w)
        ∙ ap (λ hooks. (in_turn (λ c. c) keep meta hooks call w).err) guards
        ∙ bad in
      (
        e,
        ap (λ (b : Bool). (if not b then (inl call, w) else value_or_err c).0) eligible
            ∙ ap (λ (err : Option GoError). if_nil err (inl c.current) λ e. inr e) ends,
      )

  -- If some hook before tools refuses every call, in whatever group and between whatever other hooks
  -- it stands, then executeTool runs no native or MCP tool: it gives an error, and the world is the
  -- one that the hooks have left.
  pub guard_blocks_tool :
      (w : o.W)
      → (e : GoError) × (execute_tool o rt input w ≡ (
        inr e,
        (run_before_tool rt.memory.hooks
            (run_meta o rt input)
            (tool_call_for_hooks o rt input tool)
            w).1,
      ))
  unfolding execute_tool execute_found
  guard_blocks_tool w =
      let (e, bad) = before_refuses w in
      let hooked = some_registered o rt.memory.hooks xs ys (name, hook) guards in
      (e, rw (found, execute_tool, hooked, execute_found, eligible, bad) refl)
