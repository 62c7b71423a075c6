-- ===== src/Retry/Keeps.antt =====
-- What every run of the operation keeps, the loop keeps.
use agent_sdk_go.Prelude.{ℕ, zero, suc, ◌≡◌, ◌⊎◌, inl, Option, arith}
use agent_sdk_go.Retry.{
  Host, ExecutionPolicy, attempt_deadline, attempt, next_backoff, execute_with_policy,
}

module _ (host : Host) {A : Type 0} (policy : ExecutionPolicy host.Coefficient)
    (operation : Option ℕ → host.W → (A ⊎ host.Err) × host.W) (P : host.W → Type 0) (Q : A → Type 0)
    (keeps : (d : Option ℕ) (w : host.W) → P w → P (operation d w).1)
    (returns : (d : Option ℕ) (w : host.W) (a : A) → (operation d w).0 ≡ inl a → Q a)
    (waits : (b : ℕ) (w : host.W) → P w → P (host.wait b w).1) where
  attempt-keeps : (left b : ℕ) (w : host.W) → P w → P (attempt host left policy operation b w).1
  unfolding attempt
  attempt-keeps zero b w p = ground (arith, keeps (attempt_deadline policy) w p)
  attempt-keeps (suc left) b w p =
      let w₁ = (operation (attempt_deadline policy) w).1 in
      let p₁ = keeps (attempt_deadline policy) w p in
      let p₂ = waits b w₁ p₁ in
      let again = attempt-keeps left (next_backoff host policy.retry b) (host.wait b w₁).1 p₂ in
      ground (arith, p₁, p₂, again)

  attempt-returns :
      (left b : ℕ) (w : host.W) (a : A) → (attempt host left policy operation b w).0 ≡ inl a → Q a
  unfolding attempt
  attempt-returns zero b w a e = ground (arith, returns (attempt_deadline policy) w a)
  attempt-returns (suc left) b w a e =
      let w₁ = (operation (attempt_deadline policy) w).1 in
      let again = attempt-returns left (next_backoff host policy.retry b) (host.wait b w₁).1 a in
      ground (arith, returns (attempt_deadline policy) w a, again)

  pub execute_with_policy-keeps :
      (w : host.W) → P w → P (execute_with_policy host policy operation w).1
  unfolding execute_with_policy
  execute_with_policy-keeps w p = attempt-keeps _ policy.retry.initial_interval w p

  pub execute_with_policy-returns :
      (w : host.W) (a : A) → (execute_with_policy host policy operation w).0 ≡ inl a → Q a
  unfolding execute_with_policy
  execute_with_policy-returns w a e = attempt-returns _ policy.retry.initial_interval w a e
