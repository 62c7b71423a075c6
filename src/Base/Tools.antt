-- ===== src/Base/Tools.antt =====
-- The execution of a tool: ExecuteTool of internal/runtime/base/runtime.go with executeTool,
-- executeRetrieverTool and executeSaveMemoryTool, and the hooks around it.
pub mod Hooked
use agent_sdk_go.Prelude.{
  ℕ, Bool, true, false, not, ◌&&◌, Option, none, some, List, [], ◌∷◌, String, string_eq, ◌==◌, ◌⊎◌,
  inl, inr, if◌then◌else◌, if_nil,
}
use agent_sdk_go.Prelude.GoMap
use agent_sdk_go.CircuitBreaker.{ToolKind, retriever}
use agent_sdk_go.Agent.{GoError, find_tool_by_name}
use agent_sdk_go.Hooks.{
  RunMeta, HookGroup, HookedCall, RetrieveCall, hooks_eligible, run_before_tool, run_after_tool,
  run_before_retrieve, run_after_retrieve,
}
use agent_sdk_go.Loop.{MemoryScope, agentic}
use agent_sdk_go.Base.{Outside, Args, Document, payloads}
use agent_sdk_go.Base.Memories.Extraction.{
  AgentMemory, memory_store_on_demand, parse_save_memory_tool_args, store_records,
}
use agent_sdk_go.Base.Retrieval.{format_retriever_docs}

-- interfaces.ToolExecMeta
pub record ToolExecMeta : Type 0 where
  pub idempotency_key : String
  pub run_id : String
  pub tool_call_id : String
  pub iteration : ℕ

-- interfaces.Tool, with Execute under the metadata of its context, and the agent's memory and hooks.
pub record ToolRuntime (o : Outside) : Type 1 where
  pub Tool : Type 0
  pub tool_name : Tool → String
  pub display_name : Tool → String
  pub kind_of : Tool → ToolKind
  pub execute : Tool → Option (Args o) → Option ToolExecMeta → o.W → (o.Value ⊎ GoError) × o.W
  pub memory : AgentMemory o

-- base.ExecuteToolInput
pub record ExecuteToolInput (Args Tool : Type 0) : Type 0 where
  pub tools : List Tool
  pub tool_name : String
  pub args : Option Args
  pub tool_call_id : String
  pub run_id : String
  pub iteration : ℕ

abbrev pub some_hooks : {A : Type 0} → List A → Bool
some_hooks [] = false
some_hooks (g ∷ gs) = true

module _ (o : Outside) where
  open o use {trim, sprintf}

  abbrev pub tool_error : String → List String → GoError
  tool_error format args = record { text = sprintf format args; is_budget_exceeded = false }

  -- UnknownToolMessage
  unfoldable pub unknown_tool_message : String → String
  unknown_tool_message name =
      sprintf "Unknown tool %q. It is not registered on this agent." (name ∷ [])

  -- RetrieverNameFromToolName
  unfoldable pub retriever_name_from_tool_name : String → Option String
  retriever_name_from_tool_name tool_name =
      let found : Option String = elim (o.cut_prefix (trim tool_name) "retriever_") [
        | none ↦ none
        | some rest ↦ if trim rest == "" then none else some (trim rest)
      ] in
      if trim tool_name == "" then none else found

  -- RetrieverToolParamQueryValue
  unfoldable pub retriever_tool_param_query_value : Option (Args o) → String ⊎ GoError
  retriever_tool_param_query_value args =
      let m : Args o = elim args [ none ↦ [] | some m ↦ m ] in
      let query : Option String = elim (GoMap.lookup "query" m) [
        | none ↦ none
        | some v ↦ o.as_string v
      ] in
      elim query [
        | none ↦ inr (tool_error "retriever tool: %q parameter required" ("query" ∷ []))
        | some q ↦
            if trim q == ""
            then inr (tool_error "retriever tool: %q must be non-empty" ("query" ∷ []))
            else inl (trim q)
      ]

module _ (o : Outside) (rt : ToolRuntime o) (input : ExecuteToolInput (Args o) rt.Tool) where
  abbrev pub hooks_of : List (HookGroup (payloads o))
  hooks_of = rt.memory.hooks

  -- hookRunMeta
  abbrev pub run_meta : RunMeta
  run_meta = record { run_id = input.run_id; iteration = input.iteration; hooks_group = "" }

  -- ExecuteToolInput.IdempotencyKey
  unfoldable pub idempotency_key : String
  idempotency_key =
      o.hash_prefix
        (o.sprintf "%s:%d:%s" (input.run_id ∷ o.decimal input.iteration ∷ input.tool_call_id ∷ []))

  -- toolCallForHooks
  unfoldable pub tool_call_for_hooks : rt.Tool → HookedCall (payloads o)
  tool_call_for_hooks tool = record {
    id = input.tool_call_id;
    name = input.tool_name;
    display_name = if rt.display_name tool == "" then input.tool_name else rt.display_name tool;
    kind = rt.kind_of tool;
    args = input.args;
  }

  -- Documents to the answer of executeRetrieverTool.
  unfoldable pub finish_retrieval :
      RetrieveCall → List (Document o.Float) → o.W → (String ⊎ GoError) × o.W
  unfolding format_retriever_docs
  finish_retrieval call docs w =
      let (r, w') = run_after_retrieve hooks_of run_meta call docs w in
      elim r [ inr e ↦ (inr e, w') | inl docs' ↦ (inl (format_retriever_docs o 0 docs'), w') ]

  -- The tool itself, on a query of the hooks.
  unfoldable pub retrieve_hooked : rt.Tool → RetrieveCall → o.W → (String ⊎ GoError) × o.W
  unfolding finish_retrieval
  retrieve_hooked tool call w =
      let args : Args o = ("query", o.of_string call.query) ∷ [] in
      let (r, w') = rt.execute tool (some args) none w in
      elim r [
        | inr e ↦ (inr e, w')
        | inl v ↦ elim (o.as_documents v) [
          | none ↦ (inr (tool_error o "retriever tool: unexpected result type %T" []), w')
          | some docs ↦ finish_retrieval call docs w'
        ]
      ]

  -- executeRetrieverTool
  unfoldable pub execute_retriever_tool : rt.Tool → Option (Args o) → o.W → (String ⊎ GoError) × o.W
  unfolding retrieve_hooked
  execute_retriever_tool tool args w = elim (retriever_name_from_tool_name o (rt.tool_name tool)) [
    | none ↦ (inr (tool_error o "retriever tool: invalid tool name %q" (rt.tool_name tool ∷ [])), w)
    | some name ↦ elim (retriever_tool_param_query_value o args) [
      | inr e ↦ (inr e, w)
      | inl query ↦
          let (r, w') =
            run_before_retrieve hooks_of run_meta
              (record { query = query; mode = agentic; retriever_name = name }) w in
          elim r [ inr e ↦ (inr e, w') | inl call ↦ retrieve_hooked tool call w' ]
    ]
  ]

  -- The content and the error of a tool that is not a retriever.
  abbrev pub outcome : o.Value ⊎ GoError → String × Option GoError
  outcome (inl v) = (o.format_value v, none)
  outcome (inr e) = ("", some e)

  -- content, nil, or the tool's error
  abbrev pub answer : String × Option GoError → String ⊎ GoError
  answer (content, none) = inl content
  answer (content, some e) = inr e

  -- The default case of executeTool, with the hooks after the tool where hooks run.
  unfoldable pub execute_plain :
      Bool → HookedCall (payloads o) → rt.Tool → Option (Args o) → o.W → (String ⊎ GoError) × o.W
  unfolding idempotency_key
  execute_plain run_hooks call tool args w =
      let meta : ToolExecMeta = record {
        idempotency_key = idempotency_key;
        run_id = input.run_id;
        tool_call_id = input.tool_call_id;
        iteration = input.iteration;
      } in
      let (r, w') = rt.execute tool args (some meta) w in
      let result = outcome r in
      let ((content, err, aborted), w'') =
        run_after_tool hooks_of run_meta call result.0 result.1 w' in
      if not run_hooks
      then (answer result, w')
      else (if_nil aborted (answer (content, err)) (λ e. inr e), w'')

  abbrev pub is_retriever : ToolKind → Bool
  is_retriever retriever = true
  is_retriever _ = false

  -- executeTool for the tool that was found.
  unfoldable pub execute_found : rt.Tool → o.W → (String ⊎ GoError) × o.W
  unfolding tool_call_for_hooks execute_retriever_tool execute_plain
  execute_found tool w =
      let run_hooks = some_hooks hooks_of && hooks_eligible (rt.kind_of tool) in
      let call = tool_call_for_hooks tool in
      let (r, w') = run_before_tool hooks_of run_meta call w in
      let hooked : (String ⊎ GoError) × o.W = elim r [
        | inr e ↦ (inr e, w')
        | inl call' ↦
            if is_retriever (rt.kind_of tool)
            then execute_retriever_tool tool call'.args w'
            else execute_plain true call' tool call'.args w'
      ] in
      let bare =
        if is_retriever (rt.kind_of tool)
        then execute_retriever_tool tool input.args w
        else execute_plain false call tool input.args w in
      if run_hooks then hooked else bare

  -- executeTool
  unfoldable pub execute_tool : o.W → (String ⊎ GoError) × o.W
  unfolding execute_found unknown_tool_message
  execute_tool w = elim (find_tool_by_name rt.tool_name input.tools input.tool_name) [
    | none ↦ (inl (unknown_tool_message o input.tool_name), w)
    | some tool ↦ execute_found tool w
  ]

  -- executeSaveMemoryTool
  unfoldable pub execute_save_memory_tool : MemoryScope → o.W → (String ⊎ GoError) × o.W
  execute_save_memory_tool scope w = elim (parse_save_memory_tool_args o input.args) [
    | inr format ↦ (inr (tool_error o format ("text" ∷ [])), w)
    | inl rec ↦
        let (err, w') = store_records o rt.memory run_meta scope (rec ∷ []) w in
        (if_nil err (inl "memory saved") (λ e. inr e), w')
  ]

  -- ExecuteTool
  unfoldable pub execute_tool_in_scope : MemoryScope → o.W → (String ⊎ GoError) × o.W
  unfolding execute_tool execute_save_memory_tool
  execute_tool_in_scope scope w =
      if (input.tool_name == "save_memory") && memory_store_on_demand o rt.memory
      then execute_save_memory_tool scope w
      else execute_tool w
