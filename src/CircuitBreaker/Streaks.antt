-- ===== src/CircuitBreaker/Streaks.antt =====
-- When a tool trips: the same-arguments streak, and what the window holds.
use agent_sdk_go.Prelude.{
  ℕ, suc, ◌+◌, ◌<◌, ◌≡◌, ◌⊎◌, refl, ◌∙◌, true, false, List, [], ◌∷◌, String, string_eq, ◌==◌, arith,
  beq_iff, All, inl, inr, Bool-cases, leb, length, IsNat64, ap, beq_refl, sym,
}
use agent_sdk_go.Prelude.GoMap
use agent_sdk_go.CircuitBreaker.{
  Host, CircuitBreaker, CircuitBreakerConfig, CircuitBreakerToolState, tool_state, failed,
  push_hash, count_hash, should_trip, same_args_on, window_on, enabled, record_failure,
  apply_tool_circuit_result, hash_tool_args, counts_toward_circuit_breaker,
}
use agent_sdk_go.CircuitBreaker.Window.{Report, report, run, report-cfg, tool_state-insert}
use agent_sdk_go.CircuitBreaker.Trips.{run_tripped}

failed_streak :
    (cfg : CircuitBreakerConfig) (h : String) (nano k : ℕ) (st : CircuitBreakerToolState)
    → window_on cfg ≡ false
    → same_args_on cfg ≡ true
    → IsNat64 cfg.max_consecutive_same_args
    → (h == "") ≡ false
    → st.tripped ≡ false
    → st.consecutive ≡ k
    → (k ≡ 0) ⊎ (st.last_hash ≡ h)
    → k < cfg.max_consecutive_same_args
    → ((failed cfg h nano st).consecutive ≡ suc k)
      × ((failed cfg h nano st).last_hash ≡ h)
      × ((failed cfg h nano st).tripped ≡ leb cfg.max_consecutive_same_args (suc k))
unfolding failed push_hash count_hash should_trip
failed_streak cfg h nano k st off on small some_ open_ e last lt =
    ground (arith, beq_iff h st.last_hash)

module _ (host : Host) (name : String) (h : String) where
  -- A counted failure of the tool `name` whose arguments have the hash `h`.
  abbrev pub IsFailure : Report host → Type 0
  IsFailure r =
      (counts_toward_circuit_breaker r.unknown r.kind ≡ true)
      × (r.has_failed ≡ true)
      × (r.name ≡ name)
      × (hash_tool_args host r.args ≡ h)

  report_written :
      (c : CircuitBreaker) (r : Report host)
      → IsFailure r
      → enabled c ≡ true
      → (tool_state c name).tripped ≡ false
      → report host c r ≡ record c {
        tools =
            GoMap.insert name (failed c.cfg h (host.unix_nano r.now) (tool_state c name)) c.tools;
      }
  unfolding apply_tool_circuit_result record_failure
  report_written c r f on open_ = ground arith

  report-failed :
      (c : CircuitBreaker) (r : Report host)
      → IsFailure r
      → enabled c ≡ true
      → (tool_state c name).tripped ≡ false
      → tool_state (report host c r) name
        ≡ failed c.cfg h (host.unix_nano r.now) (tool_state c name)
  report-failed c r f on open_ =
      rw (report_written c r f on open_, tool_state-insert c name name _, beq_refl name)

  same_args_enabled : (c : CircuitBreaker) → same_args_on c.cfg ≡ true → enabled c ≡ true
  unfolding enabled
  same_args_enabled c on = ground arith

  streak :
      (k : ℕ) (c : CircuitBreaker) (rs : List (Report host))
      → window_on c.cfg ≡ false
      → same_args_on c.cfg ≡ true
      → IsNat64 c.cfg.max_consecutive_same_args
      → (h == "") ≡ false
      → (tool_state c name).tripped ≡ false
      → (tool_state c name).consecutive ≡ k
      → (k ≡ 0) ⊎ ((tool_state c name).last_hash ≡ h)
      → k < c.cfg.max_consecutive_same_args
      → All IsFailure rs
      → (tool_state (run host c rs) name).tripped
        ≡ leb c.cfg.max_consecutive_same_args (k + length rs)
  streak k c [] off on small some_ open_ e last lt fs = ground arith
  streak k c (r ∷ rs) off on small some_ open_ e last lt fs =
      let d : CircuitBreaker = report host c r in
      let w = report-failed c r fs.0 (same_args_enabled c on) open_ in
      let s =
        failed_streak c.cfg h (host.unix_nano r.now) k (tool_state c name) off on small some_ open_
          e last lt in
      let g : d.cfg ≡ c.cfg = report-cfg host c r in
      elim (Bool-cases (leb c.cfg.max_consecutive_same_args (suc k))) [
        | inl enough ↦
            let t : (tool_state d name).tripped ≡ true = rw w (s.2 ∙ enough) in
            rw (run_tripped host d rs name t) (t ∙ sym (ground arith))
        | inr more ↦
            let ih =
              streak (suc k) d rs (rw g off) (rw g on) (rw g small) some_ (rw w (s.2 ∙ more))
                (rw w s.0) (inr (rw w s.1)) (rw g (ground arith)) fs.1 in
            ih ∙ rw g (ap (leb c.cfg.max_consecutive_same_args) (omega arith))
      ]

  -- With only the same-arguments detector on, failures with one and the same non-empty hash trip a
  -- tool that has no streak exactly when there are at least MaxConsecutiveSameArgs of them.
  trips_at_threshold :
      (c : CircuitBreaker) (rs : List (Report host))
      → window_on c.cfg ≡ false
      → same_args_on c.cfg ≡ true
      → IsNat64 c.cfg.max_consecutive_same_args
      → (h == "") ≡ false
      → (tool_state c name).tripped ≡ false
      → (tool_state c name).consecutive ≡ 0
      → All IsFailure rs
      → (tool_state (run host c rs) name).tripped ≡ leb c.cfg.max_consecutive_same_args (length rs)
  trips_at_threshold c rs off on small some_ open_ e fs =
      streak 0 c rs off on small some_ open_ e (inl refl) (ground arith) fs
      ∙ ap (leb c.cfg.max_consecutive_same_args) (omega arith)
