-- ===== src/Retry/Attempts.antt =====
-- How often the operation runs, and what is returned.
use agent_sdk_go.Prelude.{
  ℕ, zero, suc, ◌+◌, ◌-◌, ◌^◌, ◌≤◌, ◌<◌, ◌≡◌, ◌⊎◌, inl, inr, Option, none, arith, if◌then◌else◌,
  lt64, Bool-cases, ltb, ltb→lt, ◌∙◌,
}
use agent_sdk_go.Retry.{
  Host, ExecutionPolicy, attempt_deadline, attempt, next_backoff, execute_with_policy,
}

-- The attempts that a policy allows.
abbrev pub allowed : ℕ → ℕ
allowed max_attempts = if lt64 max_attempts 1 then 1 else max_attempts

module _ (host : Host) {A : Type 0} (policy : ExecutionPolicy host.Coefficient)
    (operation : Option ℕ → host.W → (A ⊎ host.Err) × host.W) (count : host.W → ℕ)
    (counts : (d : Option ℕ) (w : host.W) → count (operation d w).1 ≡ suc (count w))
    (idle : (n : ℕ) (w : host.W) → count (host.wait n w).1 ≡ count w) where
  attempt_count :
      (left backoff : ℕ) (w : host.W)
      → (suc (count w) ≤ count (attempt host left policy operation backoff w).1)
        × (count (attempt host left policy operation backoff w).1 ≤ suc left + count w)
  unfolding attempt
  attempt_count zero backoff w = ground (arith, counts (attempt_deadline policy) w)
  attempt_count (suc left) backoff w =
      let w₁ = (operation (attempt_deadline policy) w).1 in
      let w₂ = (host.wait backoff w₁).1 in
      ground (
        arith,
        counts (attempt_deadline policy) w,
        idle backoff w₁,
        attempt_count left (next_backoff host policy.retry backoff) w₂,
      )

  -- An operation that is counted runs at least once and at most MaxAttempts times, or once if that
  -- is not positive.
  pub execute_with_policy_runs :
      (w : host.W)
      → policy.max_attempts < 2 ^ 64
      → (suc (count w) ≤ count (execute_with_policy host policy operation w).1)
        × (count (execute_with_policy host policy operation w).1
            ≤ allowed policy.max_attempts + count w)
  unfolding execute_with_policy
  execute_with_policy_runs w h =
      let c = attempt_count (allowed policy.max_attempts - 1) policy.retry.initial_interval w in
      (c.0, ground (arith, c))

  -- No cancellation, and an operation that fails on its first `n` runs and then succeeds.
  module _ (calm : (w : host.W) → host.ctx_err w ≡ none)
      (timed : (b : ℕ) (w : host.W) → (host.wait b w).0 ≡ none) (n : ℕ) (a : A)
      (fails : (d : Option ℕ) (w : host.W)
        → count w < n
        → (e : host.Err) × ((operation d w).0 ≡ inr e))
      (succeeds : (d : Option ℕ) (w : host.W) → count w ≡ n → (operation d w).0 ≡ inl a) where
    abbrev Outcome : ℕ → host.W → (A ⊎ host.Err) × host.W → Type 0
    Outcome left w r =
        ((n ≤ left + count w) × (r.0 ≡ inl a) × (count r.1 ≡ suc n))
        ⊎ ((left + count w < n) × (e : host.Err) × (r.0 ≡ inr e) × (count r.1 ≡ suc left + count w))

    later :
        (left : ℕ) (w w₂ : host.W) (r : (A ⊎ host.Err) × host.W)
        → count w₂ ≡ suc (count w)
        → Outcome left w₂ r
        → Outcome (suc left) w r
    later left w w₂ r e (inl (h, v, c)) = inl (omega arith, v, c)
    later left w w₂ r e (inr (h, x, v, c)) = inr (omega arith, x, v, omega arith)

    attempt-Outcome :
        (left backoff : ℕ) (w : host.W)
        → count w ≤ n
        → Outcome left w (attempt host left policy operation backoff w)
    unfolding attempt
    attempt-Outcome zero backoff w h =
        let d = attempt_deadline policy in
        let w₁ = (operation d w).1 in
        elim (Bool-cases (ltb (count w) n)) [
          | inl less ↦
              let (e, q) = fails d w (ltb→lt (count w) n less) in
              inr (ground arith, e, ground (arith, calm w₁), ground (arith, calm w₁, counts d w))
          | inr last ↦
              let q = succeeds d w (ground arith) in
              inl (ground arith, ground arith, ground (arith, counts d w))
        ]
    attempt-Outcome (suc left) backoff w h =
        let d = attempt_deadline policy in
        let w₁ = (operation d w).1 in
        let w₂ = (host.wait backoff w₁).1 in
        elim (Bool-cases (ltb (count w) n)) [
          | inl less ↦
              let (e, q) = fails d w (ltb→lt (count w) n less) in
              let b = next_backoff host policy.retry backoff in
              let again : attempt host (suc left) policy operation backoff w
                  ≡ attempt host left policy operation b w₂ =
                ground (arith, calm w₁, timed backoff w₁) in
              let more : count w₂ ≡ suc (count w) = idle backoff w₁ ∙ counts d w in
              rw again (later left w w₂ _ more (attempt-Outcome left b w₂ (ground arith)))
          | inr last ↦
              let q = succeeds d w (ground arith) in
              inl (ground arith, ground arith, ground (arith, counts d w))
        ]

    -- Without cancellation, an operation that fails on its first `n` runs and succeeds on the next
    -- gives its value after `n + 1` runs if more than `n` attempts are allowed, and otherwise an error
    -- after all the allowed ones.
    pub execute_with_policy_outcome :
        (w : host.W)
        → count w ≡ 0
        → policy.max_attempts < 2 ^ 64
        → let r = execute_with_policy host policy operation w in
          ((n < allowed policy.max_attempts) × (r.0 ≡ inl a) × (count r.1 ≡ suc n))
          ⊎ ((allowed policy.max_attempts ≤ n)
              × (e : host.Err) × (r.0 ≡ inr e)
              × (count r.1 ≡ allowed policy.max_attempts))
    unfolding execute_with_policy
    execute_with_policy_outcome w z h = elim (outcome) [
      | inl (lt, v, c) ↦ inl (ground arith, v, c)
      | inr (ge, e, v, c) ↦ inr (ground arith, e, v, ground arith)
    ]
      where
        outcome : Outcome (allowed policy.max_attempts - 1) w (
            attempt host
              (allowed policy.max_attempts - 1)
              policy
              operation
              policy.retry.initial_interval
              w)
        outcome =
            attempt-Outcome (allowed policy.max_attempts - 1) policy.retry.initial_interval w
              (omega (arith, z))
