-- ===== src/CircuitBreaker/Examples.antt =====
-- Trackers over a host whose arguments are their own JSON text, hash and time stamp.
use agent_sdk_go.Prelude.{
  ℕ, ◌≡◌, refl, true, false, not, some, List, [], ◌∷◌, String, string_eq, arith, ◌-◌,
}
use agent_sdk_go.Prelude.GoMap
use agent_sdk_go.CircuitBreaker.{
  Host, native, CircuitBreaker, zero_tool_state, tool_state, should_trip, enabled, is_tripped,
  reset_due, record_failure, apply_tool_circuit_result, hash_tool_args,
  counts_toward_circuit_breaker, counts_toward_tool_telemetry, is_alternating, alternates,
}
use agent_sdk_go.CircuitBreaker.Window.{Report, run, Bounded, run-Bounded}
use agent_sdk_go.CircuitBreaker.Trips.{trip_persists}

abbrev host : Host
host = record {
  Args = String;
  empty_args = "{}";
  marshal = λ s. some s;
  sha256_hex = λ s. s;
  Time = ℕ;
  is_zero = λ t. false;
  unix_nano = λ t. t;
  since = λ t n. t - n;
}

abbrev with_limits : ℕ → ℕ → ℕ → CircuitBreaker
with_limits same size reset = record {
  cfg = record {
    max_consecutive_same_args = same;
    pattern_window_size = size;
    reset_after = reset;
  };
  tools = [];
}

abbrev fails : String → String → ℕ → Report host
fails name args now = record {
  unknown = false;
  kind = native;
  name = name;
  args = some args;
  has_failed = true;
  now = now;
}

-- A, B, A, B fails at the fourth call.
abbrev alternation : List (Report host)
alternation =
    fails "fetch" "A" 1 ∷ fails "fetch" "B" 2 ∷ fails "fetch" "A" 3 ∷ fails "fetch" "B" 4 ∷ []

alternation_trips : (tool_state (run host (with_limits 0 4 0) alternation) "fetch").tripped ≡ true
unfolding apply_tool_circuit_result record_failure counts_toward_circuit_breaker
    counts_toward_tool_telemetry enabled hash_tool_args should_trip is_alternating alternates
    GoMap.lookup GoMap.insert
alternation_trips = refl

run-Bounded_example :
    Bounded (with_limits 0 4 0).cfg (tool_state (run host (with_limits 0 4 0) alternation) "fetch")
run-Bounded_example = run-Bounded host (with_limits 0 4 0).cfg alternation "fetch" (omega arith)

abbrev repeats : List (Report host)
repeats = fails "fetch" "A" 1 ∷ fails "fetch" "A" 2 ∷ []

-- Tripped at time 2, with a reset after 10.
abbrev tripped : CircuitBreaker
tripped = record (with_limits 2 0 10) {
  tools =
      (
        "fetch",
        record zero_tool_state {
          last_hash = "A";
          consecutive = 2;
          tripped = true;
          tripped_at_unix_nano = 2;
        },
      )
      ∷ [];
}

trip_persists_example :
    let d = run host tripped repeats in
    (tool_state d "fetch" ≡ tool_state tripped "fetch")
    × ((is_tripped host (some d) "fetch" 12).1
        ≡ not (reset_due host tripped.cfg (tool_state tripped "fetch") 12))
    × (reset_due host tripped.cfg (tool_state tripped "fetch") 12 ≡ true
        → (c : CircuitBreaker) × ((is_tripped host (some d) "fetch" 12).0 ≡ some c)
          × (tool_state c "fetch" ≡ zero_tool_state))
unfolding enabled GoMap.lookup
trip_persists_example = trip_persists host tripped repeats "fetch" 12 refl refl
