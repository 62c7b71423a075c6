-- ===== src/CircuitBreaker/Alternation.antt =====
-- The A-B-A-B test of circuit_breaker.go against a direct description of the pattern.
use agent_sdk_go.Prelude.{
  ℕ, zero, suc, ◌*◌, ◌%◌, ◌≤◌, ◌≡◌, ◌≢◌, refl, ap, ◌↔◌, true, false, List, [], ◌∷◌, String,
  string_eq, arith, length, beq_iff, subst,
}
use agent_sdk_go.CircuitBreaker.{alternates, is_alternating}

-- `a b a b …`, with `n` pairs.
abbrev pub pairs : String → String → ℕ → List String
pairs a b zero = []
pairs a b (suc n) = a ∷ b ∷ pairs a b n

pub length-pairs : (a b : String) (n : ℕ) → length (pairs a b n) ≡ 2 * n
length-pairs a b zero = refl
length-pairs a b (suc n) = omega (arith, length-pairs a b n)

alternates-pairs : (a b : String) (n : ℕ) → alternates a b true (pairs a b n) ≡ true
unfolding alternates
alternates-pairs a b zero = refl
alternates-pairs a b (suc n) = ground (arith, beq_iff a a, beq_iff b b, alternates-pairs a b n)

alternates-only :
    (a b : String) (w : List String)
    → alternates a b true w ≡ true
    → length w % 2 ≡ 0
    → (n : ℕ) × (w ≡ pairs a b n)
unfolding alternates
alternates-only a b [] h e = (0, refl)
alternates-only a b (x ∷ []) h e = absurd (omega arith)
alternates-only a b (x ∷ y ∷ w) h e =
    let (n, p) = alternates-only a b w (ground arith) (omega arith) in
    (suc n, ground (arith, beq_iff x a, beq_iff y b))

abbrev IsPattern : List String → Type 0
IsPattern w =
    (a b : String) × (n : ℕ) × (w ≡ pairs a b (suc (suc n))) × (a ≢ "") × (b ≢ "") × (a ≢ b)

-- Four or more entries of a repetition make two or more pairs.
two_pairs :
    (a b : String) (n : ℕ) (w : List String)
    → w ≡ pairs a b n
    → 4 ≤ length w
    → (k : ℕ) × (n ≡ suc (suc k))
two_pairs a b zero w e h = absurd (omega (arith, ap length e))
two_pairs a b (suc zero) w e h = absurd (omega (arith, ap length e))
two_pairs a b (suc (suc k)) w e h = (k, refl)

window_of_alternating : (w : List String) → is_alternating w ≡ true → IsPattern w
unfolding is_alternating
window_of_alternating [] h = cc
window_of_alternating (a ∷ []) h = cc
window_of_alternating (a ∷ b ∷ w) h =
    let (n, e) = alternates-only a b (a ∷ b ∷ w) (ground arith) (ground arith) in
    let (k, m) = two_pairs a b n (a ∷ b ∷ w) e (ground arith) in
    (
      a,
      b,
      k,
      subst (λ i. a ∷ b ∷ w ≡ pairs a b i) {x = n} {y = suc (suc k)} m e,
      λ p. ground (arith, beq_iff a ""),
      λ p. ground (arith, beq_iff b ""),
      λ p. ground (arith, beq_iff a b),
    )

alternating_of_pattern :
    (a b : String) (n : ℕ)
    → a ≢ ""
    → b ≢ ""
    → a ≢ b
    → is_alternating (pairs a b (suc (suc n))) ≡ true
unfolding is_alternating
alternating_of_pattern a b n ha hb hab = ground (
  arith,
  beq_iff a "",
  beq_iff b "",
  beq_iff a b,
  length-pairs a b n,
  alternates-pairs a b (suc (suc n)),
)

-- The window passes the test exactly when it is two or more repetitions of two different hashes,
-- neither of which is empty.
is_alternating_iff :
    (w : List String)
    → (is_alternating w ≡ true)
      ↔ ((a b : String) × (n : ℕ) × (w ≡ pairs a b (suc (suc n))) × (a ≢ "") × (b ≢ "") × (a ≢ b))
is_alternating_iff w = (
  window_of_alternating w,
  λ (a, b, n, e, ha, hb, hab). rw e (alternating_of_pattern a b n ha hb hab),
)

pub not_alternating_of_odd : (w : List String) → length w % 2 ≡ 1 → is_alternating w ≡ false
unfolding is_alternating
not_alternating_of_odd [] h = refl
not_alternating_of_odd (a ∷ []) h = refl
not_alternating_of_odd (a ∷ b ∷ w) h = ground arith
