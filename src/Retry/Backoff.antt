-- ===== src/Retry/Backoff.antt =====
-- How long the loop waits between attempts.
use agent_sdk_go.Prelude.{ℕ, zero, suc, ◌≡◌, ◌⊎◌, true, Option, arith, le64}
use agent_sdk_go.Retry.{
  Host, RetryPolicy, ExecutionPolicy, attempt_deadline, attempt, next_backoff, execute_with_policy,
}

next_backoff-le :
    (host : Host) (r : RetryPolicy host.Coefficient) (b : ℕ)
    → le64 (next_backoff host r b) r.maximum_interval ≡ true
unfolding next_backoff
next_backoff-le host r b = ground arith

module _ (host : Host) {A : Type 0} (policy : ExecutionPolicy host.Coefficient)
    (operation : Option ℕ → host.W → (A ⊎ host.Err) × host.W) (P : host.W → Type 0)
    (operates : (d : Option ℕ) (w : host.W) → P w → P (operation d w).1)
    (waits : (b : ℕ) (w : host.W)
      → le64 b policy.retry.maximum_interval ≡ true
      → P w
      → P (host.wait b w).1) where
  attempt-P :
      (left b : ℕ) (w : host.W)
      → le64 b policy.retry.maximum_interval ≡ true
      → P w
      → P (attempt host left policy operation b w).1
  unfolding attempt
  attempt-P zero b w h p = ground (arith, operates (attempt_deadline policy) w p)
  attempt-P (suc left) b w h p =
      let w₁ = (operation (attempt_deadline policy) w).1 in
      let p₁ = operates (attempt_deadline policy) w p in
      let p₂ = waits b w₁ h p₁ in
      let again =
        attempt-P left (next_backoff host policy.retry b) (host.wait b w₁).1
          (next_backoff-le host policy.retry b) p₂ in
      ground (arith, p₁, p₂, again)

  -- The loop never waits longer than MaximumInterval, provided InitialInterval is no longer: what the
  -- operation and all waits up to MaximumInterval keep, the whole loop keeps, whatever the float
  -- product of interval and coefficient is.
  waits_bounded :
      (w : host.W)
      → le64 policy.retry.initial_interval policy.retry.maximum_interval ≡ true
      → P w
      → P (execute_with_policy host policy operation w).1
  unfolding execute_with_policy
  waits_bounded w h p = attempt-P _ policy.retry.initial_interval w h p
