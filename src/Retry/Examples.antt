-- ===== src/Retry/Examples.antt =====
-- An operation that is down twice; the world counts its runs.
use agent_sdk_go.Prelude.{
  ℕ, suc, ◌*◌, ◌≤◌, ◌<◌, ◌≡◌, ◌⊎◌, inl, inr, refl, Option, none, String, arith, ltb, if◌then◌else◌,
}
use agent_sdk_go.Retry.{Host, ExecutionPolicy, attempt, execute_with_policy}
use agent_sdk_go.Retry.Attempts.{allowed, execute_with_policy_outcome}

abbrev host : Host
host = record {
  W = ℕ;
  Coefficient = ℕ;
  Err = String;
  ctx_err = λ w. none;
  wait = λ b w. (none, w);
  scale = λ b c. b * c;
}

abbrev policy : ExecutionPolicy ℕ
policy = record {
  timeout = 60;
  max_attempts = 3;
  retry = record { initial_interval = 1; backoff_coefficient = 2; maximum_interval = 10 };
}

abbrev flaky : Option ℕ → ℕ → (ℕ ⊎ String) × ℕ
flaky d w = (if ltb w 2 then inr "down" else inl 7, suc w)

flaky_twice : execute_with_policy host policy flaky 0 ≡ (inl 7, 3)
unfolding execute_with_policy attempt
flaky_twice = refl

flaky_fails : (d : Option ℕ) (w : ℕ) → w < 2 → (e : String) × ((flaky d w).0 ≡ inr e)
flaky_fails d w h = ("down", ground arith)

flaky_succeeds : (d : Option ℕ) (w : ℕ) → w ≡ 2 → (flaky d w).0 ≡ inl 7
flaky_succeeds d w h = ground arith

execute_with_policy_outcome_example :
    let r = execute_with_policy host policy flaky 0 in
    ((2 < allowed 3) × (r.0 ≡ inl 7) × (r.1 ≡ 3))
    ⊎ ((allowed 3 ≤ 2) × (e : String) × (r.0 ≡ inr e) × (r.1 ≡ allowed 3))
execute_with_policy_outcome_example =
    execute_with_policy_outcome host policy flaky (λ w. w) (λ d w. refl) (λ n w. refl) (λ w. refl)
      (λ b w. refl) 2 7 flaky_fails flaky_succeeds 0 refl (omega arith)
