-- ===== src/Base/Sample.antt =====
-- A world that counts what was asked of it, with hooks, calls and a memory for the runs at concrete
-- values.
use agent_sdk_go.Prelude.{
  ℕ, suc, ◌+◌, true, false, none, some, List, [], ◌∷◌, String, string_eq, ◌==◌, ◌⊎◌, inl, inr, ltb,
  if◌then◌else◌,
}
use agent_sdk_go.Agent.{GoError}
use agent_sdk_go.Hooks.{RunMeta, HookGroup, AgentHooks, MemoryStoreCall}
use agent_sdk_go.Loop.{MemoryScope}
use agent_sdk_go.Memory.{on_demand, MemoryConfig}
use agent_sdk_go.Base.{Outside, payloads}
use agent_sdk_go.Base.Memories.{MemoryEntry, MemoryBackend, memory_host}

-- A text without its first character, and the length of a text.
abbrev shorten : String → String
shorten String.[] = String.[]
shorten (String.◌∷◌ c s) = s

abbrev size : String → ℕ
size String.[] = 0
size (String.◌∷◌ c s) = suc (size s)

abbrev pub boom : GoError
boom = record { text = "boom"; is_budget_exceeded = false }

abbrev pub counting : Outside
counting = record {
  W = ℕ;
  Value = String;
  Float = ℕ;
  Schema = String;
  Time = ℕ;
  replace_timestamps = λ s. s;
  replace_session_ids = λ s. s;
  replace_whitespace = λ s. s;
  replace_all = λ s old new. shorten s;
  contains = λ s t. ltb 2 (size s);
  byte_len = size;
  trim = λ s. s;
  sprintf = λ f args. f;
  format_doc = λ i content source score. content;
  format_entry = λ i text kind score. text;
  positive = λ n. ltb 0 n;
  uuid = λ w. ("id", w + 1);
  now = λ w. (w, w + 1);
  is_negative = λ n. false;
  above_one = λ n. false;
  default_dedup_min_score = 1;
  plus = λ t d. t + d;
  Ctx = String;
  context_string = λ key ctx. ctx;
  ttl_decision = 7;
  ttl_note = 2;
  as_string = λ v. some v;
  as_documents = λ v. none;
  of_string = λ s. s;
  format_value = λ v. v;
  decimal = λ n. "n";
  hash_prefix = λ s. s;
  cut_prefix = λ s p. some s;
  wrap = λ s e. e;
  parse_memories = λ s. inl [];
}

-- A hook of every kind that counts its run and keeps what it is given, and one that refuses.
abbrev pub keeps : {I : Type 0} {O : Type 0} → (I → O) → RunMeta → I → ℕ → (O ⊎ GoError) × ℕ
keeps f meta i w = (inl (f i), w + 1)

abbrev pub refuses : {I : Type 0} {O : Type 0} → RunMeta → I → ℕ → (O ⊎ GoError) × ℕ
refuses meta i w = (inr boom, w + 1)

abbrev no_hooks : AgentHooks (payloads counting)
no_hooks = record {
  before_llm = [];
  after_llm = [];
  before_tool = [];
  after_tool = [];
  before_retrieve = [];
  after_retrieve = [];
  before_memory_load = [];
  after_memory_load = [];
  before_memory_store = [];
  after_memory_store = [];
  on_budget_exceeded = [];
}

abbrev pub audit : AgentHooks (payloads counting)
audit = record no_hooks {
  before_tool = some (keeps (λ c. c.args)) ∷ none ∷ [];
  before_retrieve = some refuses ∷ [];
  before_memory_load =
      some (
        keeps (λ c. record {
          query = c.query;
          limit = 1;
          min_score = c.min_score;
          kinds = "fact" ∷ [];
        }))
      ∷ [];
}

abbrev pub guard : AgentHooks (payloads counting)
guard = record no_hooks { before_tool = some refuses ∷ [] }

abbrev pub groups : List (HookGroup (payloads counting))
groups = record { name = "audit"; hooks = audit } ∷ record { name = "guard"; hooks = guard } ∷ []

abbrev pub meta : RunMeta
meta = record { run_id = "run"; iteration = 0; hooks_group = "" }

abbrev pub scope : MemoryScope
scope = record { tenant_id = "t"; user_id = "u"; agent_id = "a"; tags = none }

abbrev pub store_call : MemoryStoreCall (payloads counting)
store_call = record {
  scope = scope;
  entry = record { text = "likes Go"; kind = "fact"; metadata = none; expires_at = none };
  id = "";
}

-- A memory that finds nothing for a query and everything for none.
abbrev pub entry : MemoryEntry ℕ
entry = record { id = "7"; text = "an old note"; kind = "note"; score = 1 }

abbrev pub backend : MemoryBackend counting
backend = record {
  store = λ scope rec id w. (inl "1", w + 1);
  load = λ scope query limit score kinds w. (inl (if query == "" then entry ∷ [] else []), w + 1);
}

abbrev pub memory_config : MemoryConfig (memory_host counting)
memory_config = record {
  memory = some backend;
  scope_config = record {
    tenant_id_resolver = none;
    user_id_resolver = none;
    agent_id_resolver = none;
    extra_keys = [];
    tag_resolvers = [];
  };
  ttl_policy = [];
  store = record {
    mode = on_demand;
    dedup_min_score = 1;
    extract = none;
    default_kind = "note";
    allowed_kinds = [];
  };
  recall = record { enabled = true; limit = 10; min_score = 1; kinds = [] };
}
