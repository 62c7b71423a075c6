-- ===== src/Hooks/Examples.antt =====
-- The theorems on the chains of hooks at concrete runs.
use agent_sdk_go.Prelude.{some, [], ◌∷◌, string_eq, ◌≡◌}
use agent_sdk_go.CircuitBreaker.{native}
use agent_sdk_go.Hooks.{
  HookedCall, RetrieveCall, MemoryLoadCall, merge, run_groups, run_before_tool, run_before_retrieve,
  run_before_memory_load, run_before_memory_store,
}
use agent_sdk_go.Hooks.Chains.{SameChains, merge_lem, registered, in_turn, run_groups-in_turn}
use agent_sdk_go.Hooks.ReadOnly.{OnValue, SameTool, read_only_lem}
use agent_sdk_go.Loop.{agentic}
use agent_sdk_go.Base.{payloads}
use agent_sdk_go.Base.Sample.{counting, audit, guard, groups, meta, scope, store_call}

merge_example :
    SameChains
      (record { name = "all"; hooks = audit } ∷ record { name = "all"; hooks = guard } ∷ groups)
      (record { name = "all"; hooks = merge audit guard } ∷ groups)
merge_example = merge_lem "all" audit guard groups

abbrev call : HookedCall (payloads counting)
call = record {
  id = "1";
  name = "search";
  display_name = "Search";
  kind = native;
  args = some (("q", "go") ∷ []);
}

abbrev retrieve_call : RetrieveCall
retrieve_call = record { query = "q"; mode = agentic; retriever_name = "kb" }

abbrev load_call : MemoryLoadCall (payloads counting)
load_call = record { scope = scope; query = "q"; limit = 3; min_score = 1; kinds = [] }

run_groups-in_turn_example :
    run_groups (λ hs. hs.before_tool) (λ c. c) (λ c out. c) meta groups call 0
    ≡ in_turn (λ c. c) (λ c out. c) meta (registered (λ hs. hs.before_tool) groups) call 0
run_groups-in_turn_example =
    run_groups-in_turn (λ hs. hs.before_tool) (λ c. c) (λ c out. c) meta groups call 0

read_only_example :
    OnValue (SameTool call) (run_before_tool groups meta call 0).0
    × OnValue
        (λ c. (c.mode ≡ agentic) × (c.retriever_name ≡ "kb"))
        (run_before_retrieve groups meta retrieve_call 0).0
    × OnValue (λ c. c.scope ≡ scope) (run_before_memory_load groups meta load_call 0).0
    × OnValue (λ c. c.scope ≡ scope) (run_before_memory_store groups meta store_call 0).0
read_only_example = read_only_lem groups meta 0 call retrieve_call load_call store_call
