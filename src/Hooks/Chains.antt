-- ===== src/Hooks/Chains.antt =====
-- The order in which the chains of internal/hooks call hooks, where they stop, and what Merge does.
use agent_sdk_go.Prelude.{
  Option, none, some, not, if◌then◌else◌, List, [], ◌∷◌, ◌++◌, String, ◌⊎◌, inl, inr, ◌≡◌, refl, ap,
  if_nil, ⊎-cases, ◌∙◌, sym,
}
use agent_sdk_go.Agent.{GoError}
use agent_sdk_go.Hooks.{
  Payloads, RunMeta, HookSlice, AgentHooks, HookGroup, Chained, merge, run_hooks, run_groups,
  run_before_llm, run_after_llm, run_before_tool, run_after_tool, run_before_retrieve,
  run_after_retrieve, run_before_memory_load, run_after_memory_load, run_before_memory_store,
  run_after_memory_store, fire, run_on_budget_exceeded, value_or_err, BudgetExceededInput,
  hooks_eligible, clone_tool_args,
}

-- The hooks of a slice that are not nil, each with the name of its group.
named : {H : Type 0} → String → List (Option H) → List (String × H)
named name [] = []
named name (none ∷ hooks) = named name hooks
named name (some hook ∷ hooks) = (name, hook) ∷ named name hooks

-- The hooks of one kind of all groups, in the order of registration.
unfoldable pub registered :
    {p : Payloads} {H : Type 0}
    → (AgentHooks p → List (Option H))
    → List (HookGroup p)
    → List (String × H)
unfolding named
registered slice [] = []
registered slice (g ∷ groups) = named g.name (slice g.hooks) ++ registered slice groups

module _ {W S I O : Type 0} (input : S → I) (keep : S → O → S) (meta : RunMeta) where
  -- One after the other, each on what the one before left, until an error.
  unfoldable pub in_turn :
      List (String × (RunMeta → I → W → (O ⊎ GoError) × W)) → S → W → Chained S W
  in_turn [] s w = record { current = s; err = none; world = w }
  in_turn ((name, hook) ∷ hooks) s w =
      let (r, w') = hook (record meta { hooks_group = name }) (input s) w in
      elim r [
        | inr e ↦ record { current = s; err = some e; world = w' }
        | inl out ↦ in_turn hooks (keep s out) w'
      ]

  in_turn-named :
      (name : String) (hooks : HookSlice W I O)
      (rest : List (String × (RunMeta → I → W → (O ⊎ GoError) × W))) (s : S) (w : W)
      → in_turn (named name hooks ++ rest) s w ≡ (
          let r = run_hooks input keep (record meta { hooks_group = name }) hooks s w in
          if_nil r.err (in_turn rest r.current r.world) λ _. r)
  unfolding in_turn named run_hooks
  in_turn-named name [] rest s w = refl
  in_turn-named name (none ∷ hooks) rest s w = in_turn-named name hooks rest s w
  in_turn-named name (some hook ∷ hooks) rest s w =
      let (r, w') = hook (record meta { hooks_group = name }) (input s) w in
      elim (⊎-cases r) [
        | inl (out, e) ↦ rw (e, in_turn, run_hooks) (in_turn-named name hooks rest (keep s out) w')
        | inr (err, e) ↦ rw (e, in_turn, run_hooks)
      ]

  run_hooks-append :
      (name : String) (xs ys : HookSlice W I O) (s : S) (w : W)
      → run_hooks input keep (record meta { hooks_group = name }) (xs ++ ys) s w ≡ (
          let r = run_hooks input keep (record meta { hooks_group = name }) xs s w in
          if_nil r.err
            (run_hooks input keep (record meta { hooks_group = name }) ys r.current r.world)
            λ _. r)
  unfolding run_hooks
  run_hooks-append name [] ys s w = refl
  run_hooks-append name (none ∷ xs) ys s w = run_hooks-append name xs ys s w
  run_hooks-append name (some hook ∷ xs) ys s w =
      let (r, w') = hook (record meta { hooks_group = name }) (input s) w in
      elim (⊎-cases r) [
        | inl (out, e) ↦ rw (e, run_hooks) (run_hooks-append name xs ys (keep s out) w')
        | inr (err, e) ↦ rw (e, run_hooks)
      ]

-- Two steps that each go on only without an error.
two_steps :
    {S W : Type 0} (s : S) (err : Option GoError) (w : W) (next : Chained S W)
    (rest : Chained S W → Chained S W)
    → (let r : Chained S W = record { current = s; err = err; world = w } in
        if_nil err (if_nil next.err (rest next) λ _. next) (λ _. r)
        ≡ (let c = if_nil err next (λ _. r) in if_nil c.err (rest c) λ _. c))
two_steps s none w next rest = refl
two_steps s (some e) w next rest = refl

module _ {p : Payloads} {S I O : Type 0} (slice : AgentHooks p → HookSlice p.W I O) (input : S → I)
    (keep : S → O → S) (meta : RunMeta) where
  -- The loops over groups and hooks call the hooks that are not nil one after the other in the order
  -- of registration, each with the name of its group and on what the one before left, and stop
  -- after the first that gives an error, with the value that it was given.
  pub run_groups-in_turn :
      (groups : List (HookGroup p)) (s : S) (w : p.W)
      → run_groups slice input keep meta groups s w
        ≡ in_turn input keep meta (registered slice groups) s w
  unfolding run_groups registered in_turn
  run_groups-in_turn [] s w = refl
  run_groups-in_turn (g ∷ groups) s w =
      let r = run_hooks input keep (record meta { hooks_group = g.name }) (slice g.hooks) s w in
      ap (λ (rest : Chained S p.W). if_nil r.err rest λ _. r)
        (run_groups-in_turn groups r.current r.world)
      ∙ sym (in_turn-named input keep meta g.name (slice g.hooks) (registered slice groups) s w)

  -- Of two groups with one name the chain is that of one group with the hooks of both.
  run_groups-merge :
      (name : String) (h other : AgentHooks p) (groups : List (HookGroup p))
      → slice (merge h other) ≡ slice h ++ slice other
      → (s : S) (w : p.W)
      → run_groups slice input keep meta
          (record { name = name; hooks = h } ∷ record { name = name; hooks = other } ∷ groups)
          s
          w
        ≡ run_groups slice input keep meta
            (record { name = name; hooks = merge h other } ∷ groups)
            s
            w
  unfolding run_groups
  run_groups-merge name h other groups e s w =
      let m : RunMeta = record meta { hooks_group = name } in
      let r = run_hooks input keep m (slice h) s w in
      let r' = run_hooks input keep m (slice other) r.current r.world in
      let rest : Chained S p.W → Chained S p.W =
        λ c. run_groups slice input keep meta groups c.current c.world in
      let joined : run_hooks input keep m (slice (merge h other)) s w ≡ if_nil r.err r' (λ _. r) =
        rw e (run_hooks-append input keep meta name (slice h) (slice other) s w) in
      two_steps r.current r.err r.world r' rest
      ∙ ap (λ (c : Chained S p.W). if_nil c.err (rest c) λ _. c) (sym joined)

-- Two lists of groups whose chains are all the same.
pub record SameChains {p : Payloads} (groups groups' : List (HookGroup p)) : Type 0 where
  pub before_llm : run_before_llm groups ≡ run_before_llm groups'
  pub after_llm : run_after_llm groups ≡ run_after_llm groups'
  pub before_tool : run_before_tool groups ≡ run_before_tool groups'
  pub after_tool : run_after_tool groups ≡ run_after_tool groups'
  pub before_retrieve : run_before_retrieve groups ≡ run_before_retrieve groups'
  pub after_retrieve : run_after_retrieve groups ≡ run_after_retrieve groups'
  pub before_memory_load : run_before_memory_load groups ≡ run_before_memory_load groups'
  pub after_memory_load : run_after_memory_load groups ≡ run_after_memory_load groups'
  pub before_memory_store : run_before_memory_store groups ≡ run_before_memory_store groups'
  pub after_memory_store : run_after_memory_store groups ≡ run_after_memory_store groups'
  pub on_budget_exceeded : run_on_budget_exceeded groups ≡ run_on_budget_exceeded groups'

fire-append :
    {p : Payloads} (input : BudgetExceededInput p)
    (xs ys : List (Option (BudgetExceededInput p → p.W → p.W))) (w : p.W)
    → fire input (xs ++ ys) w ≡ fire input ys (fire input xs w)
unfolding fire
fire-append input [] ys w = refl
fire-append input (none ∷ xs) ys w = fire-append input xs ys w
fire-append input (some hook ∷ xs) ys w = fire-append input xs ys (hook input w)

module _ {p : Payloads} (name : String) (h other : AgentHooks p) (groups : List (HookGroup p)) where
  -- Two neighbouring groups with one name run, in each chain of hooks, exactly as one group with
  -- their merged hooks.
  pub merge_lem :
      SameChains
        (record { name = name; hooks = h } ∷ record { name = name; hooks = other } ∷ groups)
        (record { name = name; hooks = merge h other } ∷ groups)
  unfolding run_before_llm run_after_llm run_before_tool run_after_tool run_before_retrieve
      run_after_retrieve run_before_memory_load run_after_memory_load run_before_memory_store
      run_after_memory_store run_on_budget_exceeded merge
  merge_lem = record {
    before_llm = λ i meta req w. value_or_err (
        run_groups-merge (λ hs. hs.before_llm) (λ req. req) (λ _ out. out) meta name h other groups
          refl req w i);
    after_llm = λ i meta resp w. value_or_err (
        run_groups-merge (λ hs. hs.after_llm) (λ resp. resp) (λ _ out. out) meta name h other groups
          refl resp w i);
    before_tool = λ i meta call w.
        if not (hooks_eligible call.kind)
        then (inl call, w)
        else value_or_err (
            run_groups-merge (λ hs. hs.before_tool) (λ c. c)
              (λ c out. record c { args = clone_tool_args out }) meta name h other groups refl call
              w i);
    after_tool = λ i meta call content exec_err w.
        let c : Chained (String × Option GoError) p.W =
          run_groups-merge (λ hs. hs.after_tool) (λ s. (call, s.0, s.1)) (λ _ out. out) meta name h
            other groups refl (content, exec_err) w i in
        if not (hooks_eligible call.kind)
        then ((content, exec_err, none), w)
        else ((c.current.0, c.current.1, c.err), c.world);
    before_retrieve = λ i meta call w. value_or_err (
        run_groups-merge (λ hs. hs.before_retrieve) (λ c. c) (λ c out. record c { query = out })
          meta name h other groups refl call w i);
    after_retrieve = λ i meta call documents w. value_or_err (
        run_groups-merge (λ hs. hs.after_retrieve) (λ docs. (call, docs)) (λ _ out. out) meta name h
          other groups refl documents w i);
    before_memory_load = λ i meta call w. value_or_err (
        run_groups-merge (λ hs. hs.before_memory_load) (λ c. c)
          (λ c out. record c {
            query = out.query;
            limit = out.limit;
            min_score = out.min_score;
            kinds = out.kinds;
          })
          meta name h other groups refl call w i);
    after_memory_load = λ i meta call context w. value_or_err (
        run_groups-merge (λ hs. hs.after_memory_load) (λ context. (call.scope, call.query, context))
          (λ _ out. out) meta name h other groups refl context w i);
    before_memory_store = λ i meta call w. value_or_err (
        run_groups-merge (λ hs. hs.before_memory_store) (λ c. c)
          (λ c out. record c { entry = out.0; id = out.1 }) meta name h other groups refl call w i);
    after_memory_store = λ i meta call w.
        let c : Chained (Unit {0}) p.W =
          run_groups-merge (λ hs. hs.after_memory_store) (λ _. call) (λ _ out. out) meta name h
            other groups refl tt w i in
        (c.err, c.world);
    on_budget_exceeded = λ i input w. run_on_budget_exceeded groups input (
        sym
          (fire-append (record input { run_meta = record input.run_meta { hooks_group = name } })
            h.on_budget_exceeded other.on_budget_exceeded w)
          i);
  }
