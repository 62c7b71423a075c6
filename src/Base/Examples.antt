-- ===== src/Base/Examples.antt =====
-- The theorems on internal/runtime/base at concrete runs.
use agent_sdk_go.Prelude.{
  ℕ, zero, suc, ◌+◌, ◌<◌, true, false, none, some, [], ◌∷◌, String, string_eq, ◌⊎◌, inl, inr, ◌≡◌,
  refl, arith, get_elem?,
}
use agent_sdk_go.CircuitBreaker.{native}
use agent_sdk_go.Agent.{GoError, find_tool_by_name}
use agent_sdk_go.Hooks.{run_groups, run_before_tool, run_before_retrieve, hooks_eligible}
use agent_sdk_go.Hooks.Chains.{registered}
use agent_sdk_go.Loop.{LlmInput, Searched, prefetch}
use agent_sdk_go.Base.{Args, LlmResponse}
use agent_sdk_go.Base.Streaming.{LlmClient, LlmRuntime, Emitted}
use agent_sdk_go.Base.Generate.{execute_llm, execute_llm_stream}
use agent_sdk_go.Base.Generate.Brackets.{Bracketed}
use agent_sdk_go.Base.Generate.Closed.{calls-Bracketed}
use agent_sdk_go.Base.Memories.Extraction.{AgentMemory}
use agent_sdk_go.Base.Retrieval.{Retriever, execute_retrievers, search_one}
use agent_sdk_go.Base.Retrieval.Partial.{all_fail_without_error}
use agent_sdk_go.Loop.Batch.Slots.{has_index}
use agent_sdk_go.Base.Tools.{
  ToolRuntime, ExecuteToolInput, execute_tool, run_meta, tool_call_for_hooks,
}
use agent_sdk_go.Base.Tools.Hooked.{guard_blocks_tool}
use agent_sdk_go.Base.Sample.{boom, counting, keeps, refuses, groups, meta}

-- A model that streams its reasoning, then a text in two chunks.
abbrev response : LlmResponse counting
response = record { content = "Hello"; usage = none; tool_calls = [] }

abbrev client : LlmClient counting
client = record {
  generate = λ req w. (inl response, w + 1);
  generate_stream = λ req w. (
    inl (record {
      chunks =
          some (record { content_delta = ""; thinking_delta = "hm" })
          ∷ none
          ∷ some (record { content_delta = "Hel"; thinking_delta = "" })
          ∷ some (record { content_delta = "lo"; thinking_delta = "so" })
          ∷ [];
      err = none;
      result = some response;
    }),
    w + 1,
  );
  is_stream_supported = true;
}

abbrev llm_runtime : LlmRuntime counting
llm_runtime = record {
  system_prompt = "Be brief.";
  response_format = none;
  sampling = none;
  hooks = groups;
  Tool = String;
  to_spec = λ t. record { name = t; description = t; parameters = t };
  tool_name = λ t. t;
  display_name = λ t. t;
  kind_of = λ t. native;
  approval_required = λ t. false;
  policy = none;
}

abbrev llm_input : LlmInput (Args counting) String
llm_input = record {
  message_id = "m";
  run_id = "run";
  iteration = 0;
  messages = [];
  skip_tools = false;
  memory_context = "";
  retriever_context = "";
  tools = "search" ∷ [];
}

abbrev fresh : Emitted ℕ
fresh = record { world = 0; events = [] }

calls-Bracketed_example :
    Bracketed "m" (execute_llm counting llm_runtime client llm_input fresh)
    × Bracketed "m" (execute_llm_stream counting llm_runtime client llm_input fresh)
calls-Bracketed_example = calls-Bracketed counting llm_runtime client llm_input fresh refl

abbrev retriever : Retriever counting
retriever = record { name = "kb"; search = λ query w. (inr boom, w + 1) }

search_fails :
    (i : ℕ) (r : Retriever counting) (w : ℕ)
    → get_elem? (retriever ∷ []) i ≡ some r
    → (e : GoError) × ((search_one counting groups meta prefetch "q" r w).0.err ≡ some e)
unfolding search_one run_before_retrieve run_groups
search_fails i r w e = (boom, refl)

each_runs : (i : ℕ) → i < 1 → has_index i (0 ∷ []) ≡ true
each_runs zero lt = refl
each_runs (suc i) lt = absurd (omega arith)

all_fail_without_error_example :
    (s : Searched) × ((execute_retrievers counting groups meta prefetch "q"
        (retriever ∷ [])
        (0 ∷ [])
        0).0
      ≡ inl s)
    × (s.total ≡ 1)
    × (s.failed ≡ 1)
    × ((s.context ≡ "") ⊎ (s.context ≡ ""))
all_fail_without_error_example =
    all_fail_without_error counting groups meta prefetch "q" (retriever ∷ []) (0 ∷ []) 0
      search_fails each_runs

abbrev agent_memory : AgentMemory counting
agent_memory = record { config = none; hooks = groups; llm = none; error_of = λ e. boom }

abbrev tool_runtime : ToolRuntime counting
tool_runtime = record {
  Tool = String;
  tool_name = λ t. t;
  display_name = λ t. t;
  kind_of = λ t. native;
  execute = λ t args meta w. (inl "ran", w + 100);
  memory = agent_memory;
}

abbrev tool_input : ExecuteToolInput (Args counting) String
tool_input = record {
  tools = "search" ∷ [];
  tool_name = "search";
  args = none;
  tool_call_id = "1";
  run_id = "run";
  iteration = 0;
}

found_lem : find_tool_by_name tool_runtime.tool_name tool_input.tools "search" ≡ some "search"
unfolding find_tool_by_name
found_lem = refl

native_eligible : hooks_eligible native ≡ true
unfolding hooks_eligible
native_eligible = refl

guarded :
    registered (λ hs. hs.before_tool) groups
    ≡ ("audit", keeps (λ c. c.args)) ∷ ("guard", refuses) ∷ []
unfolding registered
guarded = refl

guard_blocks_tool_example :
    (e : GoError) × (execute_tool counting tool_runtime tool_input 0 ≡ (
      inr e,
      (run_before_tool groups
          (run_meta counting tool_runtime tool_input)
          (tool_call_for_hooks counting tool_runtime tool_input "search")
          0).1,
    ))
guard_blocks_tool_example =
    guard_blocks_tool counting tool_runtime tool_input "search" found_lem native_eligible
      (("audit", keeps (λ c. c.args)) ∷ []) [] "guard" refuses guarded (λ m call w. (boom, refl)) 0
