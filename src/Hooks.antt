-- ===== src/Hooks.antt =====
-- The hooks that an application registers around the model, tools, retrieval and memory: the chains
-- of internal/hooks. A hook is a function of its input and the world; a nil hook is `none`, a nil
-- slice is the empty list, and a hook's output with one field is that field.
mod Examples
pub mod Chains
pub mod ReadOnly
use agent_sdk_go.Prelude.{
  ℕ, Bool, true, false, not, ◌||◌, Option, none, some, List, [], ◌∷◌, ◌++◌, String, ◌⊎◌, inl, inr,
  if◌then◌else◌, if_nil,
}
use agent_sdk_go.Prelude.GoMap.{GoMap}
use agent_sdk_go.CircuitBreaker.{ToolKind, no_kind, native, mcp}
use agent_sdk_go.Budget.{BudgetExceededKind, BudgetExceededAction}
use agent_sdk_go.Agent.{GoError}
use agent_sdk_go.Loop.{MemoryScope, RetrieverMode}

-- What the chains pass on and do not read: interfaces.LLMRequest and LLMResponse, the values in a
-- tool's arguments, documents, memory kinds and records, and floats. `W` is the world that hooks see.
pub record Payloads : Type 1 where
  pub W : Type 0
  pub LlmRequest : Type 0
  pub LlmResponse : Type 0
  pub Value : Type 0
  pub Document : Type 0
  pub MemoryKind : Type 0
  pub MemoryRecord : Type 0
  pub Float : Type 0

-- hooks.RunMeta
pub record RunMeta : Type 0 where
  pub run_id : String
  pub iteration : ℕ
  pub hooks_group : String

-- hooks.ToolCall; nil arguments are `none`.
pub record HookedCall (p : Payloads) : Type 0 where
  pub id : String
  pub name : String
  pub display_name : String
  pub kind : ToolKind
  pub args : Option (GoMap String p.Value)

-- hooks.RetrieveCall
pub record RetrieveCall : Type 0 where
  pub query : String
  pub mode : RetrieverMode
  pub retriever_name : String

-- hooks.MemoryLoadCall
pub record MemoryLoadCall (p : Payloads) : Type 0 where
  pub scope : MemoryScope
  pub query : String
  pub limit : ℕ
  pub min_score : p.Float
  pub kinds : List p.MemoryKind

-- hooks.MemoryStoreCall
pub record MemoryStoreCall (p : Payloads) : Type 0 where
  pub scope : MemoryScope
  pub entry : p.MemoryRecord
  pub id : String

-- hooks.OnBudgetExceededHookInput
pub record BudgetExceededInput (p : Payloads) : Type 0 where
  pub run_meta : RunMeta
  pub kind : BudgetExceededKind
  pub total_tokens : ℕ
  pub total_cost_usd : p.Float
  pub action : BudgetExceededAction
  pub approval_count : ℕ
  pub approvals_exhausted : Bool

-- The output of a BeforeMemoryLoadHook.
pub record LoadOptions (p : Payloads) : Type 0 where
  pub query : String
  pub limit : ℕ
  pub min_score : p.Float
  pub kinds : List p.MemoryKind

-- A slice of hooks that get their RunMeta and an input, and give an output or an error.
abbrev pub HookSlice : Type 0 → Type 0 → Type 0 → Type 0
HookSlice W I O = List (Option (RunMeta → I → W → (O ⊎ GoError) × W))

-- hooks.AgentHooks
pub record AgentHooks (p : Payloads) : Type 0 where
  pub before_llm : HookSlice p.W p.LlmRequest p.LlmRequest
  pub after_llm : HookSlice p.W p.LlmResponse p.LlmResponse
  pub before_tool : HookSlice p.W (HookedCall p) (Option (GoMap String p.Value))
  pub after_tool : HookSlice p.W (HookedCall p × String × Option GoError) (String × Option GoError)
  pub before_retrieve : HookSlice p.W RetrieveCall String
  pub after_retrieve : HookSlice p.W (RetrieveCall × List p.Document) (List p.Document)
  pub before_memory_load : HookSlice p.W (MemoryLoadCall p) (LoadOptions p)
  pub after_memory_load : HookSlice p.W (MemoryScope × String × String) String
  pub before_memory_store : HookSlice p.W (MemoryStoreCall p) (p.MemoryRecord × String)
  pub after_memory_store : HookSlice p.W (MemoryStoreCall p) (Unit {0})
  pub on_budget_exceeded : List (Option (BudgetExceededInput p → p.W → p.W))

-- hooks.HookGroup
pub record HookGroup (p : Payloads) : Type 0 where
  pub name : String
  pub hooks : AgentHooks p

-- AgentHooks.Merge
unfoldable pub merge : {p : Payloads} → AgentHooks p → AgentHooks p → AgentHooks p
merge h other = record {
  before_llm = h.before_llm ++ other.before_llm;
  after_llm = h.after_llm ++ other.after_llm;
  before_tool = h.before_tool ++ other.before_tool;
  after_tool = h.after_tool ++ other.after_tool;
  before_retrieve = h.before_retrieve ++ other.before_retrieve;
  after_retrieve = h.after_retrieve ++ other.after_retrieve;
  before_memory_load = h.before_memory_load ++ other.before_memory_load;
  after_memory_load = h.after_memory_load ++ other.after_memory_load;
  before_memory_store = h.before_memory_store ++ other.before_memory_store;
  after_memory_store = h.after_memory_store ++ other.after_memory_store;
  on_budget_exceeded = h.on_budget_exceeded ++ other.on_budget_exceeded;
}

-- The current value of a chain, the error that ended it, and the world.
pub record Chained (S W : Type 0) : Type 0 where
  pub current : S
  pub err : Option GoError
  pub world : W

module _ {W S I O : Type 0} (input : S → I) (keep : S → O → S) where
  -- The loop over the hooks of a group: `input` is what a hook gets of the current value, `keep`
  -- what becomes of it.
  unfoldable pub run_hooks : RunMeta → HookSlice W I O → S → W → Chained S W
  run_hooks meta [] s w = record { current = s; err = none; world = w }
  run_hooks meta (none ∷ hooks) s w = run_hooks meta hooks s w
  run_hooks meta (some hook ∷ hooks) s w =
      let (r, w') = hook meta (input s) w in
      elim r [
        | inr e ↦ record { current = s; err = some e; world = w' }
        | inl out ↦ run_hooks meta hooks (keep s out) w'
      ]

module _ {p : Payloads} {S I O : Type 0} where
  -- The loop over the groups.
  unfoldable pub run_groups :
      (AgentHooks p → HookSlice p.W I O)
      → (S → I)
      → (S → O → S)
      → RunMeta
      → List (HookGroup p)
      → S
      → p.W
      → Chained S p.W
  unfolding run_hooks
  run_groups slice input keep meta [] s w = record { current = s; err = none; world = w }
  run_groups slice input keep meta (g ∷ groups) s w =
      let r = run_hooks input keep (record meta { hooks_group = g.name }) (slice g.hooks) s w in
      let rest = run_groups slice input keep meta groups r.current r.world in
      if_nil r.err rest λ _. r

-- return current, nil; or the zero value and the error.
abbrev pub value_or_err : {S W : Type 0} → Chained S W → (S ⊎ GoError) × W
value_or_err c = (if_nil c.err (inl c.current) (λ e. inr e), c.world)

-- ToolKind.HooksEligible
unfoldable pub hooks_eligible : ToolKind → Bool
hooks_eligible native = true
hooks_eligible mcp = true
hooks_eligible _ = false

-- cloneToolArgs
unfoldable pub clone_tool_args : {V : Type 0} → Option (GoMap String V) → Option (GoMap String V)
clone_tool_args none = none
clone_tool_args (some []) = none
clone_tool_args (some (kv ∷ args)) = some (kv ∷ args)

module _ {p : Payloads} (groups : List (HookGroup p)) (meta : RunMeta) where
  unfoldable pub run_before_llm : p.LlmRequest → p.W → (p.LlmRequest ⊎ GoError) × p.W
  unfolding run_groups
  run_before_llm req w =
      value_or_err (run_groups (λ hs. hs.before_llm) (λ req. req) (λ _ out. out) meta groups req w)

  unfoldable pub run_after_llm : p.LlmResponse → p.W → (p.LlmResponse ⊎ GoError) × p.W
  unfolding run_groups
  run_after_llm resp w =
      value_or_err
        (run_groups (λ hs. hs.after_llm) (λ resp. resp) (λ _ out. out) meta groups resp w)

  unfoldable pub run_before_tool : HookedCall p → p.W → (HookedCall p ⊎ GoError) × p.W
  unfolding run_groups hooks_eligible clone_tool_args
  run_before_tool call w =
      if not (hooks_eligible call.kind)
      then (inl call, w)
      else value_or_err (
          run_groups (λ hs. hs.before_tool) (λ c. c)
            (λ c out. record c { args = clone_tool_args out }) meta groups call w)

  -- The content, the tool's error and the chain's.
  unfoldable pub run_after_tool :
      HookedCall p
      → String
      → Option GoError
      → p.W
      → (String × Option GoError × Option GoError) × p.W
  unfolding run_groups hooks_eligible
  run_after_tool call content exec_err w =
      let c : Chained (String × Option GoError) p.W =
        run_groups (λ hs. hs.after_tool) (λ s. (call, s.0, s.1)) (λ _ out. out) meta groups
          (content, exec_err) w in
      if not (hooks_eligible call.kind)
      then ((content, exec_err, none), w)
      else ((c.current.0, c.current.1, c.err), c.world)

  unfoldable pub run_before_retrieve : RetrieveCall → p.W → (RetrieveCall ⊎ GoError) × p.W
  unfolding run_groups
  run_before_retrieve call w = value_or_err (
      run_groups (λ hs. hs.before_retrieve) (λ c. c) (λ c out. record c { query = out }) meta groups
        call w)

  unfoldable pub run_after_retrieve :
      RetrieveCall → List p.Document → p.W → (List p.Document ⊎ GoError) × p.W
  unfolding run_groups
  run_after_retrieve call documents w = value_or_err (
      run_groups (λ hs. hs.after_retrieve) (λ docs. (call, docs)) (λ _ out. out) meta groups
        documents w)

  unfoldable pub run_before_memory_load :
      MemoryLoadCall p → p.W → (MemoryLoadCall p ⊎ GoError) × p.W
  unfolding run_groups
  run_before_memory_load call w = value_or_err (
      run_groups (λ hs. hs.before_memory_load) (λ c. c)
        (λ c out. record c {
          query = out.query;
          limit = out.limit;
          min_score = out.min_score;
          kinds = out.kinds;
        })
        meta groups call w)

  unfoldable pub run_after_memory_load : MemoryLoadCall p → String → p.W → (String ⊎ GoError) × p.W
  unfolding run_groups
  run_after_memory_load call prompt_context w = value_or_err (
      run_groups (λ hs. hs.after_memory_load) (λ context. (call.scope, call.query, context))
        (λ _ out. out) meta groups prompt_context w)

  unfoldable pub run_before_memory_store :
      MemoryStoreCall p → p.W → (MemoryStoreCall p ⊎ GoError) × p.W
  unfolding run_groups
  run_before_memory_store call w = value_or_err (
      run_groups (λ hs. hs.before_memory_store) (λ c. c)
        (λ c out. record c { entry = out.0; id = out.1 }) meta groups call w)

  unfoldable pub run_after_memory_store : MemoryStoreCall p → p.W → Option GoError × p.W
  unfolding run_groups
  run_after_memory_store call w =
      let c : Chained (Unit {0}) p.W =
        run_groups (λ hs. hs.after_memory_store) (λ _. call) (λ _ out. out) meta groups tt w in
      (c.err, c.world)

module _ {p : Payloads} where
  -- The hooks of one group.
  unfoldable pub fire :
      BudgetExceededInput p → List (Option (BudgetExceededInput p → p.W → p.W)) → p.W → p.W
  fire input [] w = w
  fire input (none ∷ hooks) w = fire input hooks w
  fire input (some hook ∷ hooks) w = fire input hooks (hook input w)

  unfoldable pub run_on_budget_exceeded : List (HookGroup p) → BudgetExceededInput p → p.W → p.W
  unfolding fire
  run_on_budget_exceeded [] input w = w
  run_on_budget_exceeded (g ∷ groups) input w = run_on_budget_exceeded groups input (
      fire (record input { run_meta = record input.run_meta { hooks_group = g.name } })
        g.hooks.on_budget_exceeded w)
