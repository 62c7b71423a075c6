-- ===== src/Store.antt =====
-- internal/store/kv.go: the generic key-value store. Every method holds the store's lock from its
-- first line to its return, so concurrent callers are a sequence of calls.
pub mod Refinement
mod Examples
use agent_sdk_go.Prelude.{
  ℕ, Bool, true, false, Option, none, some, List, [], if◌then◌else◌, length, Eq, ◌==◌,
}
use agent_sdk_go.Prelude.GoMap
use agent_sdk_go.Prelude.GoMap.{GoMap}

pub record Kv (K V : Type 0) : Type 0 where
  pub entries : GoMap K V

abbrev pub new_kv : {K V : Type 0} → Kv K V
new_kv = record { entries = [] }

module _ {K V : Type 0} ⦃ek : Eq K⦄ where
  unfoldable pub set : Kv K V → K → V → Kv K V
  set s key value = record { entries = GoMap.insert key value s.entries }

  unfoldable pub get : Kv K V → K → Option V
  get s key = GoMap.lookup key s.entries

  unfoldable pub delete : Kv K V → K → Kv K V
  delete s key = record { entries = GoMap.delete key s.entries }

  unfoldable pub keys : Kv K V → List K
  keys s = GoMap.keys s.entries

  unfoldable pub len : Kv K V → ℕ
  len s = length s.entries

  unfoldable pub clear : Kv K V → Kv K V
  clear s = record { entries = [] }

  -- The value and the store after it; `none` is the `false` of the source's second result.
  unfoldable pub pop : Kv K V → K → Kv K V × Option V
  pop s key = elim (GoMap.lookup key s.entries) [
    | none ↦ (s, none)
    | some val ↦ (record { entries = GoMap.delete key s.entries }, some val)
  ]

  -- `V` has a comparison; the panic of Go's `==` on slices, maps and functions is not modelled.
  unfoldable pub delete_if : ⦃ev : Eq V⦄ → Kv K V → K → V → Kv K V × Bool
  delete_if s key expected = elim (GoMap.lookup key s.entries) [
    | none ↦ (s, false)
    | some current ↦
        if current == expected
        then (record { entries = GoMap.delete key s.entries }, true)
        else (s, false)
  ]
