-- ===== src/Loop/Examples.antt =====
-- Calls of `ls`, which is allowed, and of `rm`, which is not.
use agent_sdk_go.Prelude.{
  ℕ, ◌<◌, ◌≡◌, ◌⊎◌, inl, inr, refl, true, false, Option, none, List, [], ◌∷◌, String, arith, length,
}
use agent_sdk_go.CircuitBreaker
use agent_sdk_go.Retry.{execute_with_policy, attempt, tool_execution_policy}
use agent_sdk_go.Agent.{ToolCallRequest, GoError, find_tool_by_name, is_unknown_tool}
use agent_sdk_go.Loop.{
  State, LocalRuntime, AgentLoopInput, AgentLoopResult, find_route, emit, publish_event_to_channel,
}
use agent_sdk_go.Loop.Sample.{host, runtime, input, call_of}
use agent_sdk_go.Loop.Call.{authorize_tool, circuit_skips, args_json, finish, announce}
use agent_sdk_go.Loop.Tool.{execute_single_tool}
use agent_sdk_go.Loop.Tool.Guards.{Quiet, Denied, blocked_call_runs_nothing}
use agent_sdk_go.Loop.Batch.{execute_tools_parallel}
use agent_sdk_go.Loop.Batch.Slots.{SlotAnswered, has_index, parallel_answers}

abbrev delegate :
    LocalRuntime host
    → AgentLoopInput host
    → Option ℕ
    → State host
    → (AgentLoopResult host ⊎ GoError) × State host
delegate rt i d s = (inl (record { content = "sub"; llm_usage = none }), s)

abbrev start : State host
start = record { w = 0; tracker = none; breaker = none }

abbrev Untouched : ℕ → Type 0
Untouched w = w ≡ 0

quiet : Quiet host Untouched
quiet = record {
  on_wait = λ n w p. p;
  on_uuid = λ w p. p;
  on_publish = λ c ev w p. p;
  on_handler = λ hd ev n w p. p;
  on_store = λ t w p. p;
  on_delete = λ t w p. p;
  on_await = λ t n w p. p;
  on_authorize = λ t f args w e p. ground arith;
}

rm-Denied : Denied host Untouched quiet delegate input (call_of "rm" false)
unfolding find_tool_by_name
rm-Denied = (
  "rm",
  (λ a w. (inl (record { allowed = false; reason = "no" }), w)),
  refl,
  refl,
  λ w d e. ground arith,
)

blocked_call_runs_nothing_example :
    (execute_single_tool host delegate runtime input "m" (call_of "rm" false) start).1.w ≡ 0
blocked_call_runs_nothing_example =
    blocked_call_runs_nothing host Untouched quiet delegate runtime input "m" (call_of "rm" false)
      start (inr (inl rm-Denied)) refl

-- The allowed call does run.
ls_runs : (execute_single_tool host delegate runtime input "m" (call_of "ls" true) start).1.w ≡ 1
unfolding execute_single_tool is_unknown_tool find_tool_by_name announce finish emit
    publish_event_to_channel execute_with_policy attempt authorize_tool find_route circuit_skips
    args_json tool_execution_policy CircuitBreaker.is_tripped
    CircuitBreaker.counts_toward_circuit_breaker CircuitBreaker.counts_toward_tool_telemetry
ls_runs = refl

abbrev calls : List (ToolCallRequest String)
calls = call_of "ls" false ∷ call_of "rm" false ∷ []

both_run : (i : ℕ) → i < 2 → has_index i (1 ∷ 0 ∷ []) ≡ true
both_run i h = ground arith

parallel_answers_example :
    let rs = (execute_tools_parallel host delegate runtime input "m" (1 ∷ 0 ∷ []) calls start).0 in
    (length rs ≡ 2) × ((i : ℕ) → SlotAnswered host calls rs i)
parallel_answers_example =
    parallel_answers host delegate runtime input "m" calls (1 ∷ 0 ∷ []) start both_run
