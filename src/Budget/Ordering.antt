-- ===== src/Budget/Ordering.antt =====
-- Sub-agents that run in parallel add their usage to one tracker in any order.
use mathlib.Core.List.{Permᴰ}
use mathlib.Core.Path.{ap₂}
use agent_sdk_go.Prelude.{◌≡◌, refl, ◌∙◌, some, List, arith, ap}
use agent_sdk_go.Budget.{Dollars, LlmUsage, BudgetTracker, accumulate, check}
use agent_sdk_go.Budget.Limits.{add_all}

module _ (d : Dollars) where
  accumulate_comm :
      (t : BudgetTracker d) (u v : LlmUsage)
      → accumulate d (accumulate d t u) v ≡ accumulate d (accumulate d t v) u
  unfolding accumulate
  accumulate_comm t u v = ground arith

  same :
      {us vs : List LlmUsage}
      → Permᴰ us vs
      → (t : BudgetTracker d) → add_all d t us ≡ add_all d t vs
  same Permᴰ.nil t = refl
  same (Permᴰ.cons {l₂ = vs} e p) t =
      same p (accumulate d t _) ∙ ap (λ u. add_all d (accumulate d t u) vs) e
  same (Permᴰ.swap {a = a} {b = b} {l = l} e f) t =
      ap (λ s. add_all d s l)
        (accumulate_comm t a b ∙ ap₂ (λ x y. accumulate d (accumulate d t x) y) f e)
  same (Permᴰ.trans p q) t = same p t ∙ same q t

  -- The same usages added in another order leave the same tracker, wrap-around included, and so the
  -- same answer of Check.
  add_all-perm :
      {us vs : List LlmUsage}
      → Permᴰ us vs
      → (t : BudgetTracker d)
      → (add_all d t us ≡ add_all d t vs)
        × (check d (some (add_all d t us)) ≡ check d (some (add_all d t vs)))
  add_all-perm p t = let e = same p t in (e, ap (λ s. check d (some s)) e)
