-- ===== src/Base/Memories/Examples.antt =====
-- The theorems on recall and storing at concrete runs.
use agent_sdk_go.Prelude.{ℕ, ◌≤◌, [], ◌∷◌, string_eq, arith}
use agent_sdk_go.Hooks.{run_before_memory_store, run_after_memory_store}
use agent_sdk_go.Base.Memories.{MemoryRuntime, store_memory_records}
use agent_sdk_go.Base.Memories.Stored.{store_memory_records_keeps}
use agent_sdk_go.Base.Sample.{
  boom, counting, audit, meta, scope, store_call, backend, memory_config,
}

abbrev memory_runtime : MemoryRuntime counting
memory_runtime = record {
  cfg = memory_config;
  backend = backend;
  hooks = record { name = "audit"; hooks = audit } ∷ [];
  error_of = λ e. boom;
}

-- The world has been asked at least five times.
abbrev AtLeastFive : ℕ → Type 0
AtLeastFive w = 5 ≤ w

abbrev plain_runtime : MemoryRuntime counting
plain_runtime = record memory_runtime { hooks = [] }

store_memory_records_keeps_example :
    AtLeastFive (store_memory_records counting plain_runtime meta scope (store_call.entry ∷ []) 5).1
unfolding run_before_memory_store run_after_memory_store
store_memory_records_keeps_example =
    store_memory_records_keeps counting plain_runtime scope meta AtLeastFive (λ call w h. h)
      (λ call w h. h) (λ w h. omega arith) (λ query limit score kinds w h. omega arith)
      (λ rec id w ok h. omega arith) (store_call.entry ∷ []) 5 (omega arith)
