-- ===== src/Agent/Counting.antt =====
-- The counters of ToolTelemetry after a sequence of Record calls.
use agent_sdk_go.Prelude.{
  ℕ, suc, ◌+◌, ◌^◌, ◌<◌, ◌≡◌, ◌≢◌, Bool, List, [], ◌∷◌, String, string_eq, ◌==◌, beq_iff, arith,
  if◌then◌else◌, length, add64,
}
use agent_sdk_go.Prelude.GoMap
use agent_sdk_go.Prelude.GoMap.{GoMap}
use agent_sdk_go.Agent.{ToolTelemetry, counter, bump, record_tool}

abbrev pub record_all : ToolTelemetry → List (String × Bool) → ToolTelemetry
record_all t [] = t
record_all t ((name, has_failed) ∷ rs) = record_all (record_tool t name has_failed) rs

-- Results of a tool, and failures of any tool.
abbrev pub results_of : String → List (String × Bool) → ℕ
results_of name [] = 0
results_of name ((n, has_failed) ∷ rs) =
    if n == name then suc (results_of name rs) else results_of name rs

abbrev pub failures : List (String × Bool) → ℕ
failures [] = 0
failures ((n, has_failed) ∷ rs) = if has_failed then suc (failures rs) else failures rs

counter-bump :
    (n name : String) (m : GoMap String ℕ)
    → name ≢ ""
    → counter name (bump n m) ≡ (if n == name then add64 (counter name m) 1 else counter name m)
unfolding bump
counter-bump n name m h =
    ground
      (arith, GoMap.lookup-insert n name (add64 (counter n m) 1) m, beq_iff n name, beq_iff n "", h)

record_all-from :
    (t : ToolTelemetry) (rs : List (String × Bool)) (name : String)
    → name ≢ ""
    → t.total_calls + length rs < 2 ^ 64
    → t.failed_calls + length rs < 2 ^ 64
    → counter name t.breakdown + length rs < 2 ^ 64
    → let r = record_all t rs in
      (r.total_calls ≡ t.total_calls + length rs)
      × (r.failed_calls ≡ t.failed_calls + failures rs)
      × (counter name r.breakdown ≡ counter name t.breakdown + results_of name rs)
unfolding record_tool
record_all-from t [] name h a b c = ground arith
record_all-from t ((n, has_failed) ∷ rs) name h a b c =
    let q = counter-bump n name t.breakdown h in
    let rest = record_all-from (record_tool t n has_failed) rs name h in ground (arith, q, rest)

-- After fewer than 2 ^ 64 Record calls on zero counters, the counts of calls, of failed calls and of
-- the calls of each tool with a name are the numbers of the results recorded.
record_all_counts :
    (rs : List (String × Bool)) (name : String)
    → name ≢ ""
    → length rs < 2 ^ 64
    → let r =
        record_all
          (record { total_calls = 0; failed_calls = 0; breakdown = []; failed_breakdown = [] })
          rs in
      (r.total_calls ≡ length rs)
      × (r.failed_calls ≡ failures rs)
      × (counter name r.breakdown ≡ results_of name rs)
unfolding GoMap.lookup
record_all_counts rs name h small =
    let (calls, failed, each) =
      record_all-from
        (record { total_calls = 0; failed_calls = 0; breakdown = []; failed_breakdown = [] }) rs
        name h (omega arith) (omega arith) (omega arith) in
    (omega (arith, calls), omega (arith, failed), omega (arith, each))
