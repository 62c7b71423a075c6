-- ===== src/Hooks/ReadOnly.antt =====
-- What the hooks before an operation cannot change of its call, and that the chains keep what each
-- hook keeps.
use agent_sdk_go.Prelude.{
  not, none, some, List, [], ◌∷◌, ◌⊎◌, inl, inr, ◌≡◌, refl, if_nil_keeps, if_keeps, ⊎-cases,
}
use agent_sdk_go.Agent.{GoError}
use agent_sdk_go.Hooks.{
  Payloads, RunMeta, HookSlice, AgentHooks, HookGroup, Chained, HookedCall, RetrieveCall,
  MemoryLoadCall, MemoryStoreCall, run_hooks, run_groups, run_before_tool, run_before_retrieve,
  run_before_memory_load, run_before_memory_store, value_or_err, hooks_eligible, clone_tool_args,
}

-- A value has the property; an error need not.
abbrev pub OnValue : {A : Type 0} → (A → Type 0) → A ⊎ GoError → Type 0
OnValue P (inl a) = P a
OnValue P (inr e) = Unit

module _ {S : Type 0} (P : S → Type 0) {I O : Type 0} (input : S → I) (keep : S → O → S)
    (keeps : (s : S) (out : O) → P s → P (keep s out)) where
  run_hooks_keep :
      {W : Type 0} (meta : RunMeta) (hooks : HookSlice W I O) (s : S) (w : W)
      → P s
      → P (run_hooks input keep meta hooks s w).current
  unfolding run_hooks
  run_hooks_keep meta [] s w h = h
  run_hooks_keep meta (none ∷ hooks) s w h = run_hooks_keep meta hooks s w h
  run_hooks_keep meta (some hook ∷ hooks) s w h =
      let (r, w') = hook meta (input s) w in
      elim (⊎-cases r) [
        | inl (out, e) ↦
            rw (e, run_hooks) (run_hooks_keep meta hooks (keep s out) w' (keeps s out h))
        | inr (err, e) ↦ rw (e, run_hooks) h
      ]

  -- A property that each hook's output keeps is one of the value that a chain ends with, also where
  -- an error ended it.
  pub run_groups_keep :
      {p : Payloads} (slice : AgentHooks p → HookSlice p.W I O) (meta : RunMeta)
      (groups : List (HookGroup p)) (s : S) (w : p.W)
      → P s
      → P (run_groups slice input keep meta groups s w).current
  unfolding run_groups
  run_groups_keep slice meta [] s w h = h
  run_groups_keep slice meta (g ∷ groups) s w h =
      let r = run_hooks input keep (record meta { hooks_group = g.name }) (slice g.hooks) s w in
      let kept : P r.current =
        run_hooks_keep (record meta { hooks_group = g.name }) (slice g.hooks) s w h in
      if_nil_keeps (λ (c : Chained S _). P c.current) r.err
        (run_groups_keep slice meta groups r.current r.world kept) λ _. kept

  chain_keeps :
      {p : Payloads} (slice : AgentHooks p → HookSlice p.W I O) (meta : RunMeta)
      (groups : List (HookGroup p)) (s : S) (w : p.W)
      → P s
      → OnValue P (value_or_err (run_groups slice input keep meta groups s w)).0
  chain_keeps slice meta groups s w h =
      let c = run_groups slice input keep meta groups s w in
      if_nil_keeps (OnValue P) c.err (run_groups_keep slice meta groups s w h) λ _. tt

-- Two calls of one tool, with whatever arguments.
abbrev pub SameTool : {p : Payloads} → HookedCall p → HookedCall p → Type 0
SameTool tool c =
    (c.id ≡ tool.id)
    × (c.name ≡ tool.name)
    × (c.display_name ≡ tool.display_name)
    × (c.kind ≡ tool.kind)

module _ {p : Payloads} (groups : List (HookGroup p)) (meta : RunMeta) (w : p.W) where
  pub run_before_memory_load-scope :
      (load : MemoryLoadCall p)
      → OnValue (λ c. c.scope ≡ load.scope) (run_before_memory_load groups meta load w).0
  unfolding run_before_memory_load
  run_before_memory_load-scope load =
      chain_keeps (λ (c : MemoryLoadCall p). c.scope ≡ load.scope) (λ c. c)
        (λ c out. record c {
          query = out.query;
          limit = out.limit;
          min_score = out.min_score;
          kinds = out.kinds;
        })
        (λ c out h. h) (λ hs. hs.before_memory_load) meta groups load w refl

  -- Whatever the hooks return, the call that BeforeTool hooks leave has the id, the names and the kind
  -- of the one that they were given, the one that BeforeRetrieve hooks leave its mode and its
  -- retriever, and the ones that BeforeMemoryLoad and BeforeMemoryStore hooks leave their scopes.
  pub read_only_lem :
      (tool : HookedCall p) (retrieve : RetrieveCall) (load : MemoryLoadCall p)
      (store : MemoryStoreCall p)
      → OnValue (SameTool tool) (run_before_tool groups meta tool w).0
        × OnValue
            (λ c. (c.mode ≡ retrieve.mode) × (c.retriever_name ≡ retrieve.retriever_name))
            (run_before_retrieve groups meta retrieve w).0
        × OnValue (λ c. c.scope ≡ load.scope) (run_before_memory_load groups meta load w).0
        × OnValue (λ c. c.scope ≡ store.scope) (run_before_memory_store groups meta store w).0
  unfolding run_before_tool run_before_retrieve run_before_memory_load run_before_memory_store
  read_only_lem tool retrieve load store = (
    if_keeps (λ (r : (HookedCall p ⊎ GoError) × p.W). OnValue (SameTool tool) r.0)
        (not (hooks_eligible tool.kind)) (refl, refl, refl, refl)
        (chain_keeps (SameTool tool) (λ c. c) (λ c out. record c { args = clone_tool_args out })
          (λ c out h. h) (λ hs. hs.before_tool) meta groups tool w (refl, refl, refl, refl)),
    chain_keeps
        (λ (c : RetrieveCall).
          (c.mode ≡ retrieve.mode) × (c.retriever_name ≡ retrieve.retriever_name))
        (λ c. c) (λ c out. record c { query = out }) (λ c out h. h) (λ hs. hs.before_retrieve) meta
        groups retrieve w (refl, refl),
    run_before_memory_load-scope load,
    chain_keeps (λ (c : MemoryStoreCall p). c.scope ≡ store.scope) (λ c. c)
        (λ c out. record c { entry = out.0; id = out.1 }) (λ c out h. h)
        (λ hs. hs.before_memory_store) meta groups store w refl,
  )
