-- ===== src/Prelude/Classes.antt =====
-- Types whose values the program compares with `==`.
use mathlib.Core.Bool.{Bool, true}
use mathlib.Core.Path.{◌≡◌, refl}
use mathlib.Core.Logic.{◌↔◌}
use Prim.Native.Nat.{ℕ}
use Prim.Native.String.{String}
use text.Mathlib.TextEquality.{eq_iff}
use text.Mathlib.Text.{◌==◌ as text_beq}
use agent_sdk_go.Prelude.Tests.{nat_beq, nat_beq_iff}

-- The test, and what it decides.
pub record Eq {ℓ} (K : Type ℓ) : Type ℓ where
  pub beq : (x y : K) → Bool
  pub beq_iff : (x y : K) → (beq x y ≡ true) ↔ (x ≡ y)

-- Go's `==` on strings and on integers.
instance abbrev pub string_eq : Eq String
string_eq = record { beq_iff = eq_iff; beq = text_beq }

instance abbrev pub nat_eq : Eq ℕ
nat_eq = record { beq_iff = nat_beq_iff; beq = nat_beq }

module _ {ℓ} {K : Type ℓ} ⦃e : Eq K⦄ where
  infix 50 ◌==◌
  abbrev pub ◌==◌ : (x y : K) → Bool
  x == y = e.beq x y

  pub beq_iff : (x y : K) → ((x == y) ≡ true) ↔ (x ≡ y)
  beq_iff x y = e.beq_iff x y

  pub beq_refl : (x : K) → (x == x) ≡ true
  beq_refl x = (e.beq_iff x x).1 refl
