-- ===== src/Base/Memories/Extraction.antt =====
-- What the runtime does where memory need not be configured, and the extraction of memories at the
-- end of a run: internal/runtime/base/memory.go and runtime.go.
use agent_sdk_go.Prelude.{
  Bool, true, false, not, ◌&&◌, Option, none, some, List, [], ◌∷◌, ◌++◌, String, string_eq, ◌==◌,
  ◌⊎◌, inl, inr, if◌then◌else◌,
}
use agent_sdk_go.Prelude.GoMap
use agent_sdk_go.Agent.{Message, MessageRole, user, assistant, no_role, GoError}
use agent_sdk_go.Hooks.{RunMeta, HookGroup}
use agent_sdk_go.Loop.{MemoryScope, Searched}
use agent_sdk_go.Memory.{MemoryError, MemoryConfig, StoreMode, on_demand, always, resolve}
use agent_sdk_go.Base.{Outside, Args, MemoryRecord, payloads}
use agent_sdk_go.Base.Memories.{
  ExtractFunc, memory_host, MemoryRuntime, store_memory_records, execute_memory_recall,
}

-- The runtime of an agent. `llm` is a call of the configured model with the extraction prompt and
-- format, and the content of its response; it is missing where no model is configured.
pub record AgentMemory (o : Outside) : Type 0 where
  pub config : Option (MemoryConfig (memory_host o))
  pub hooks : List (HookGroup (payloads o))
  pub llm : Option (List (Message (Args o)) → o.W → (String ⊎ GoError) × o.W)
  pub error_of : MemoryError → GoError

abbrev pub extract_turn_prompt : String
extract_turn_prompt = "Extract durable memories from the conversation above."

module _ (o : Outside) where
  open o use {trim}

  -- MemoryConfigured, with what it finds.
  unfoldable pub configured : AgentMemory o → Option (MemoryRuntime o)
  configured a = elim a.config [
    | none ↦ none
    | some cfg ↦ elim cfg.memory [
      | none ↦ none
      | some backend ↦
          some (record { cfg = cfg; backend = backend; hooks = a.hooks; error_of = a.error_of })
    ]
  ]

  abbrev is_always : StoreMode → Bool
  is_always always = true
  is_always _ = false

  abbrev is_on_demand : StoreMode → Bool
  is_on_demand on_demand = true
  is_on_demand _ = false

  -- RunEndMemoryStoreEnabled and MemoryStoreOnDemand
  unfoldable pub run_end_memory_store_enabled : AgentMemory o → Bool
  unfolding configured
  run_end_memory_store_enabled a = elim (configured a) [
    | none ↦ false
    | some rt ↦ is_always rt.cfg.store.mode
  ]

  unfoldable pub memory_store_on_demand : AgentMemory o → Bool
  unfolding configured
  memory_store_on_demand a = elim (configured a) [
    | none ↦ false
    | some rt ↦ is_on_demand rt.cfg.store.mode
  ]

  -- ResolveMemoryScope; the zero scope where memory is not configured.
  unfoldable pub resolve_memory_scope : AgentMemory o → o.Ctx → MemoryScope ⊎ MemoryError
  unfolding configured resolve
  resolve_memory_scope a ctx = elim (configured a) [
    | none ↦ inl (record { tenant_id = ""; user_id = ""; agent_id = ""; tags = none })
    | some rt ↦ resolve (memory_host o) rt.cfg.scope_config ctx
  ]

  -- StoreMemoryRecords
  unfoldable pub store_records :
      AgentMemory o
      → RunMeta
      → MemoryScope
      → List (MemoryRecord o.Time)
      → o.W
      → Option GoError × o.W
  unfolding configured store_memory_records
  store_records a meta scope records w = elim (configured a) [
    | none ↦ (none, w)
    | some rt ↦ store_memory_records o rt meta scope records w
  ]

  -- ExecuteMemoryRecall
  unfoldable pub recall :
      AgentMemory o → RunMeta → MemoryScope → String → o.W → (Searched ⊎ GoError) × o.W
  unfolding configured execute_memory_recall
  recall a meta scope query w = elim (configured a) [
    | none ↦ (inl (record { context = ""; total = 0; failed = 0 }), w)
    | some rt ↦ execute_memory_recall o rt meta scope query w
  ]

  -- parseSaveMemoryToolArgs; an error is its format.
  unfoldable pub parse_save_memory_tool_args : Option (Args o) → MemoryRecord o.Time ⊎ String
  parse_save_memory_tool_args args =
      let m : Args o = elim args [ none ↦ [] | some m ↦ m ] in
      let field : String → Option String =
        λ key. elim (GoMap.lookup key m) [ none ↦ none | some v ↦ o.as_string v ] in
      let kind : String = elim (field "kind") [ none ↦ "" | some k ↦ trim k ] in
      elim (field "text") [
        | none ↦ inr "save_memory: %q parameter required"
        | some raw ↦
            if trim raw == ""
            then inr "save_memory: %q must be non-empty"
            else inl (record {
              text = trim raw;
              kind = kind;
              metadata = some (("source", "save_memory") ∷ []);
              expires_at = none;
            })
      ]

  abbrev pub is_turn : MessageRole → Bool
  is_turn user = true
  is_turn assistant = true
  is_turn _ = false

  abbrev pub is_assistant : MessageRole → Bool
  is_assistant assistant = true
  is_assistant _ = false

  -- The loop of messagesForMemoryExtraction.
  unfoldable pub spoken : List (Message (Args o)) → List (Message (Args o))
  spoken [] = []
  spoken (m ∷ messages) =
      let rest = spoken messages in
      if is_turn m.role && not (trim m.content == "") then m ∷ rest else rest

  -- The role of the last message.
  unfoldable pub last_role : List (Message (Args o)) → MessageRole
  last_role [] = no_role
  last_role (m ∷ []) = m.role
  last_role (m ∷ n ∷ messages) = last_role (n ∷ messages)

  abbrev pub extract_turn : Message (Args o)
  extract_turn = record {
    role = user;
    content = extract_turn_prompt;
    tool_name = "";
    tool_call_id = "";
    tool_calls = [];
  }

  unfoldable pub messages_for_memory_extraction : List (Message (Args o)) → List (Message (Args o))
  unfolding spoken last_role
  messages_for_memory_extraction messages =
      let out = spoken messages in
      if is_assistant (last_role out) then out ++ extract_turn ∷ [] else out

  -- The loop of parseMemoryExtractResponse.
  unfoldable pub extracted_records : List (String × String) → List (MemoryRecord o.Time)
  extracted_records [] = []
  extracted_records ((text, kind) ∷ memories) =
      let rest = extracted_records memories in
      if trim text == ""
      then rest
      else record {
        text = trim text;
        kind = trim kind;
        metadata = some (("source", "extract") ∷ []);
        expires_at = none;
      }
        ∷ rest

  unfoldable pub parse_memory_extract_response : String → List (MemoryRecord o.Time) ⊎ GoError
  unfolding extracted_records
  parse_memory_extract_response content =
      let parsed : List (MemoryRecord o.Time) ⊎ GoError = elim (o.parse_memories (trim content)) [
        | inr e ↦ inr (o.wrap "memory extract: parse response" e)
        | inl memories ↦ inl (extracted_records memories)
      ] in
      if trim content == "" then inl [] else parsed

  -- extractMemoriesWithLLM
  unfoldable pub extract_memories_with_llm :
      (List (Message (Args o)) → o.W → (String ⊎ GoError) × o.W) → ExtractFunc o
  unfolding messages_for_memory_extraction parse_memory_extract_response
  extract_memories_with_llm llm messages w = elim (messages_for_memory_extraction messages) [
    | [] ↦ (inl [], w)
    | m ∷ msgs ↦
        let (r, w') = llm (m ∷ msgs) w in
        elim r [
          | inr e ↦ (inr (o.wrap "memory extract: llm" e), w')
          | inl content ↦ (parse_memory_extract_response content, w')
        ]
  ]

  -- resolveMemoryExtractFunc
  unfoldable pub resolve_memory_extract_func : AgentMemory o → Option (ExtractFunc o)
  unfolding run_end_memory_store_enabled extract_memories_with_llm configured
  resolve_memory_extract_func a =
      let default : Option (ExtractFunc o) = elim a.llm [
        | none ↦ none
        | some llm ↦ some (extract_memories_with_llm llm)
      ] in
      let chosen : Option (ExtractFunc o) = elim (configured a) [
        | none ↦ none
        | some rt ↦ elim rt.cfg.store.extract [ none ↦ default | some f ↦ some f ]
      ] in
      if not (run_end_memory_store_enabled a) then none else chosen

  -- extractMemoryRecords and the rest of ExecuteMemoryStore.
  unfoldable pub extract_and_store :
      AgentMemory o
      → RunMeta
      → MemoryScope
      → List (Message (Args o))
      → ExtractFunc o
      → o.W
      → Option GoError × o.W
  unfolding store_records
  extract_and_store a meta scope messages extract w =
      let (r, w') = extract messages w in
      elim r [
        | inr e ↦ (some (o.wrap "memory store: extract" e), w')
        | inl records ↦ elim records [
          | [] ↦ (none, w')
          | rec ∷ recs ↦ store_records a meta scope (rec ∷ recs) w'
        ]
      ]

  unfoldable pub execute_memory_store :
      AgentMemory o → RunMeta → MemoryScope → List (Message (Args o)) → o.W → Option GoError × o.W
  unfolding run_end_memory_store_enabled resolve_memory_extract_func extract_and_store
  execute_memory_store a meta scope messages w =
      let stored : Option GoError × o.W = elim (resolve_memory_extract_func a) [
        | none ↦ (none, w)
        | some extract ↦ extract_and_store a meta scope messages extract w
      ] in
      if not (run_end_memory_store_enabled a) then (none, w) else stored
