-- ===== src/CircuitBreaker/Window.antt =====
-- What every tool's entry satisfies after any sequence of results.
use agent_sdk_go.Prelude.{
  ℕ, ◌+◌, ◌^◌, ◌-◌, ◌%◌, ◌≤◌, ◌<◌, ◌≡◌, refl, ap, Bool, true, false, List, [], ◌∷◌, ◌++◌, String,
  string_eq, ◌==◌, arith, length, length-append, length-drop, Option, none, some, if◌then◌else◌,
  Bool-cases, inl, inr, ◌∙◌, ◌⊎◌,
}
use agent_sdk_go.Prelude.GoMap
use agent_sdk_go.CircuitBreaker.{
  Host, ToolKind, CircuitBreaker, CircuitBreakerConfig, CircuitBreakerToolState, tool_state, failed,
  count_hash, push_hash, record_failure, record_success, enabled, window_on, same_args_on,
  should_trip, apply_tool_circuit_result, hash_tool_args, counts_toward_circuit_breaker,
}
use agent_sdk_go.CircuitBreaker.Alternation.{not_alternating_of_odd}

-- A result handed to ApplyToolCircuitResult.
pub record Report (host : Host) : Type 0 where
  pub unknown : Bool
  pub kind : ToolKind
  pub name : String
  pub args : Option host.Args
  pub has_failed : Bool
  pub now : host.Time

-- `st` without its failure streak.
abbrev pub cleared : CircuitBreakerToolState → CircuitBreakerToolState
cleared st = record st { last_hash = ""; consecutive = 0; window = [] }

pub tool_state-insert :
    (c : CircuitBreaker) (name other : String) (st : CircuitBreakerToolState)
    → tool_state (record c { tools = GoMap.insert name st c.tools }) other
      ≡ (if name == other then st else tool_state c other)
tool_state-insert c name other st = ground (arith, GoMap.lookup-insert name other st c.tools)

module _ (host : Host) where
  abbrev pub report : CircuitBreaker → Report host → CircuitBreaker
  report c r =
      elim (apply_tool_circuit_result host (some c) r.unknown r.kind r.name r.args r.has_failed
        r.now) [ none ↦ c | some c' ↦ c' ]

  -- The tracker after a sequence of results.
  abbrev pub run : CircuitBreaker → List (Report host) → CircuitBreaker
  run c [] = c
  run c (r ∷ rs) = run (report c r) rs

  -- One result leaves the tracker, or writes one entry: the same, failed once more, or cleared.
  abbrev pub Reported : CircuitBreaker → Report host → Type 0
  Reported c r =
      (report c r ≡ c)
      ⊎ ((st : CircuitBreakerToolState) × (report c r
            ≡ record c { tools = GoMap.insert r.name st c.tools })
          × ((st ≡ tool_state c r.name)
              ⊎ (((tool_state c r.name).tripped ≡ false)
                  × ((st
                        ≡ failed c.cfg (hash_tool_args host r.args) (host.unix_nano r.now)
                            (tool_state c r.name))
                      ⊎ (st ≡ cleared (tool_state c r.name))))))

  pub report_cases : (c : CircuitBreaker) (r : Report host) → Reported c r
  unfolding apply_tool_circuit_result record_failure record_success
  report_cases c r = elim (Bool-cases (counts_toward_circuit_breaker r.unknown r.kind)) [
    | inr skipped ↦ inl (ground arith)
    | inl counted ↦ elim (Bool-cases (enabled c)) [
      | inr off ↦ inl (ground arith)
      | inl on ↦ elim (Bool-cases (tool_state c r.name).tripped) [
        | inl tripped ↦ elim (Bool-cases r.has_failed) [
          | inl f ↦ inr (tool_state c r.name, ground arith, inl refl)
          | inr s ↦ inl (ground arith)
        ]
        | inr open_ ↦ elim (Bool-cases r.has_failed) [
          | inl f ↦ inr (_, ground arith, inr (open_, inl refl))
          | inr s ↦ inr (_, ground arith, inr (open_, inr refl))
        ]
      ]
    ]
  ]

  pub report-cfg : (c : CircuitBreaker) (r : Report host) → (report c r).cfg ≡ c.cfg
  report-cfg c r = elim (report_cases c r) [
    | inl e ↦ ap (λ (d : CircuitBreaker). d.cfg) e
    | inr (st, e, _) ↦ ap (λ (d : CircuitBreaker). d.cfg) e
  ]

  pub run-cfg : (c : CircuitBreaker) (rs : List (Report host)) → (run c rs).cfg ≡ c.cfg
  run-cfg c [] = refl
  run-cfg c (r ∷ rs) = run-cfg (report c r) rs ∙ report-cfg c r

-- What holds of every entry of a tracker and is kept by a failure and by a clearing holds of every
-- entry after any results.
module _ (host : Host) (cfg : CircuitBreakerConfig) (P : CircuitBreakerToolState → Type 0)
    (fails : (h : String) (nano : ℕ) (st : CircuitBreakerToolState)
      → P st
      → P (failed cfg h nano st))
    (clears : (st : CircuitBreakerToolState) → P st → P (cleared st)) where
  insert-all :
      (c : CircuitBreaker) (name : String) (st : CircuitBreakerToolState)
      → P st
      → ((n : String) → P (tool_state c n))
      → (n : String) → P (tool_state (record c { tools = GoMap.insert name st c.tools }) n)
  insert-all c name st p all n = elim (Bool-cases (name == n)) [
    | inl same ↦ rw (tool_state-insert c name n st, same) p
    | inr other ↦ rw (tool_state-insert c name n st, other) (all n)
  ]

  report-all :
      (c : CircuitBreaker) (r : Report host)
      → c.cfg ≡ cfg
      → ((n : String) → P (tool_state c n))
      → (n : String) → P (tool_state (report host c r) n)
  report-all c r e all n = elim (report_cases host c r) [
    | inl q ↦ rw q (all n)
    | inr (st, q, w) ↦ rw q (insert-all c r.name st (entry st w) all n)
  ]
    where
      entry :
          (st : CircuitBreakerToolState)
          → (st ≡ tool_state c r.name)
            ⊎ (((tool_state c r.name).tripped ≡ false)
                × ((st
                      ≡ failed c.cfg
                          (hash_tool_args host r.args)
                          (host.unix_nano r.now)
                          (tool_state c r.name))
                    ⊎ (st ≡ cleared (tool_state c r.name))))
          → P st
      entry st (inl p) = rw p (all r.name)
      entry st (inr (_, inl p)) = rw (p, e) (fails _ _ _ (all r.name))
      entry st (inr (_, inr p)) = rw p (clears _ (all r.name))

  pub run-all :
      (c : CircuitBreaker) (rs : List (Report host))
      → c.cfg ≡ cfg
      → ((n : String) → P (tool_state c n))
      → (n : String) → P (tool_state (run host c rs) n)
  run-all c [] e all = all
  run-all c (r ∷ rs) e all =
      run-all (report host c r) rs (report-cfg host c r ∙ e) (report-all c r e all)

-- The window is as long as configured at most, and empty where the detector is off.
pub record Bounded (cfg : CircuitBreakerConfig) (st : CircuitBreakerToolState) : Type 0 where
  pub short : window_on cfg ≡ true → length st.window ≤ cfg.pattern_window_size
  pub empty : window_on cfg ≡ false → st.window ≡ []

abbrev pub pushed :
    CircuitBreakerConfig → String → CircuitBreakerToolState → CircuitBreakerToolState
pushed cfg h st = push_hash cfg h (count_hash h st)

pub pushed-Bounded :
    (cfg : CircuitBreakerConfig) (h : String) (st : CircuitBreakerToolState)
    → cfg.pattern_window_size + 1 < 2 ^ 63
    → Bounded cfg st
    → Bounded cfg (pushed cfg h st)
unfolding push_hash count_hash
pushed-Bounded cfg h st small b = ground (
  arith,
  length-append st.window (h ∷ []),
  length-drop (length (st.window ++ h ∷ []) - cfg.pattern_window_size) (st.window ++ h ∷ []),
)

failed-Bounded :
    (cfg : CircuitBreakerConfig) (h : String) (nano : ℕ) (st : CircuitBreakerToolState)
    → cfg.pattern_window_size + 1 < 2 ^ 63
    → Bounded cfg st
    → Bounded cfg (failed cfg h nano st)
unfolding failed
failed-Bounded cfg h nano st small b = ground (arith, pushed-Bounded cfg h st small b)

-- From a fresh tracker, after any sequence of results of any tools, the window of every tool has at
-- most PatternWindowSize hashes, and none when PatternWindowSize is below 4.
pub run-Bounded :
    (host : Host) (cfg : CircuitBreakerConfig) (rs : List (Report host)) (name : String)
    → cfg.pattern_window_size + 1 < 2 ^ 63
    → Bounded cfg (tool_state (run host (record { cfg = cfg; tools = [] }) rs) name)
unfolding GoMap.lookup
run-Bounded host cfg rs name small =
    run-all host cfg (Bounded cfg) (λ h nano st b. failed-Bounded cfg h nano st small b)
      (λ st b. ground arith) (record { cfg = cfg; tools = [] }) rs refl
      (λ n. record { short = λ _. omega arith; empty = λ _. refl }) name

-- With the same-arguments detector off and an odd window, an entry stays untripped.
should_trip_odd :
    (cfg : CircuitBreakerConfig) (st : CircuitBreakerToolState)
    → same_args_on cfg ≡ false
    → cfg.pattern_window_size % 2 ≡ 1
    → cfg.pattern_window_size + 1 < 2 ^ 63
    → Bounded cfg st
    → should_trip cfg st ≡ false
unfolding should_trip
should_trip_odd cfg st off odd small b = ground (arith, not_alternating_of_odd st.window)

pushed-tripped :
    (cfg : CircuitBreakerConfig) (h : String) (st : CircuitBreakerToolState)
    → (pushed cfg h st).tripped ≡ st.tripped
unfolding push_hash count_hash
pushed-tripped cfg h st = ground arith

abbrev Idle : CircuitBreakerConfig → CircuitBreakerToolState → Type 0
Idle cfg st = (st.tripped ≡ false) × Bounded cfg st

failed-Idle :
    (cfg : CircuitBreakerConfig) (h : String) (nano : ℕ) (st : CircuitBreakerToolState)
    → same_args_on cfg ≡ false
    → cfg.pattern_window_size % 2 ≡ 1
    → cfg.pattern_window_size + 1 < 2 ^ 63
    → Idle cfg st
    → Idle cfg (failed cfg h nano st)
unfolding failed
failed-Idle cfg h nano st off odd small b =
    let p = pushed-Bounded cfg h st small b.1 in
    ground
      (arith, should_trip_odd cfg (pushed cfg h st) off odd small p, pushed-tripped cfg h st, p)

-- With MaxConsecutiveSameArgs off, an odd PatternWindowSize never trips any tool, whatever results
-- follow one another on a fresh tracker.
pub odd_window_never_trips :
    (host : Host) (cfg : CircuitBreakerConfig) (rs : List (Report host)) (name : String)
    → same_args_on cfg ≡ false
    → cfg.pattern_window_size % 2 ≡ 1
    → cfg.pattern_window_size + 1 < 2 ^ 63
    → (tool_state (run host (record { cfg = cfg; tools = [] }) rs) name).tripped ≡ false
unfolding GoMap.lookup
odd_window_never_trips host cfg rs name off odd small =
    (run-all host cfg (Idle cfg) (λ h nano st b. failed-Idle cfg h nano st off odd small b)
      (λ st b. (b.0, record { short = λ _. omega arith; empty = λ _. refl }))
      (record { cfg = cfg; tools = [] }) rs refl
      (λ n. (refl, record { short = λ _. omega arith; empty = λ _. refl })) name).0
