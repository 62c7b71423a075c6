-- ===== src/Prelude/GoMap.antt =====
-- Go's built-in maps: at most one value for a key. The order of iteration, which Go leaves open,
-- is that of the list. Clients use the laws below.
use mathlib.Core.Path.{◌≡◌, refl}
use mathlib.Core.Bool.{Bool, true, false, ◌||◌}
use mathlib.Core.Option.{Option, none, some}
use mathlib.Core.List.{List, [], ◌∷◌, map}
use Prim.Native.Nat.{suc, ◌-◌, ◌<◌}
use native.Mathlib.Omega.{arith}
use agent_sdk_go.Prelude.Tests.{if◌then◌else◌}
use agent_sdk_go.Prelude.Lists.{length}
use agent_sdk_go.Prelude.Classes.{Eq, ◌==◌}

abbrev pub GoMap {ℓ κ} : Type ℓ → Type κ → Type (ℓ ⊔ κ)
GoMap K V = List (K × V)

module _ {ℓ κ} {K : Type ℓ} {V : Type κ} ⦃e : Eq K⦄ where
  -- v, ok := m[key]
  unfoldable pub lookup : K → GoMap K V → Option V
  lookup key [] = none
  lookup key ((i, w) ∷ rest) = if i == key then some w else lookup key rest

  -- m[key] = value; a key that is there keeps its place.
  unfoldable pub insert : K → V → GoMap K V → GoMap K V
  insert key value [] = (key, value) ∷ []
  insert key value ((i, w) ∷ rest) =
      let later = insert key value rest in if i == key then (i, value) ∷ rest else (i, w) ∷ later

  -- delete(m, k)
  unfoldable pub delete : K → GoMap K V → GoMap K V
  delete k [] = []
  delete k ((j, w) ∷ m) = let rest = delete k m in if j == k then rest else (j, w) ∷ rest

  -- Does the map have the key?
  unfoldable pub has_key : K → GoMap K V → Bool
  has_key k [] = false
  has_key k ((j, w) ∷ m) = (j == k) || has_key k m

  -- No key has two entries.
  abbrev pub UniqueKeys : GoMap K V → Type 0
  UniqueKeys [] = Unit
  UniqueKeys ((j, w) ∷ m) = (has_key j m ≡ false) × UniqueKeys m

  pub lookup-delete :
      (k j : K) (m : GoMap K V) → lookup j (delete k m) ≡ (if k == j then none else lookup j m)
  unfolding lookup delete
  lookup-delete k j [] = ground arith
  lookup-delete k j ((i, w) ∷ m) =
      ground (arith, e.beq_iff k j, e.beq_iff i k, e.beq_iff i j, lookup-delete k j m)

  pub lookup-insert :
      (written read : K) (value : V) (m : GoMap K V)
      → lookup read (insert written value m)
        ≡ (if written == read then some value else lookup read m)
  unfolding lookup insert
  lookup-insert written read value [] = ground arith
  lookup-insert written read value ((i, w) ∷ rest) =
      let again = lookup-insert written read value rest in
      ground (arith, again, e.beq_iff i written, e.beq_iff i read, e.beq_iff written read)

  pub has_key-delete :
      (k j : K) (m : GoMap K V) → has_key j (delete k m) ≡ (if k == j then false else has_key j m)
  unfolding has_key delete
  has_key-delete k j [] = ground arith
  has_key-delete k j ((i, w) ∷ m) =
      ground (arith, e.beq_iff k j, e.beq_iff i k, e.beq_iff i j, has_key-delete k j m)

  pub has_key-insert :
      (k j : K) (v : V) (m : GoMap K V) → has_key j (insert k v m) ≡ ((k == j) || has_key j m)
  unfolding has_key insert
  has_key-insert k j v [] = refl
  has_key-insert k j v ((i, w) ∷ m) =
      ground (arith, e.beq_iff k j, e.beq_iff i k, e.beq_iff i j, has_key-insert k j v m)

  pub has_key_of_lookup : (k : K) (v : V) (m : GoMap K V) → lookup k m ≡ some v → has_key k m ≡ true
  unfolding lookup has_key
  has_key_of_lookup k v [] h = ground arith
  has_key_of_lookup k v ((i, w) ∷ m) h = ground (arith, has_key_of_lookup k v m)

  pub lookup_of_has_key : (k : K) (m : GoMap K V) → has_key k m ≡ false → lookup k m ≡ none
  unfolding lookup has_key
  lookup_of_has_key k [] h = refl
  lookup_of_has_key k ((i, w) ∷ m) h = ground (arith, lookup_of_has_key k m)

  pub has_key_of_none : (k : K) (m : GoMap K V) → lookup k m ≡ none → has_key k m ≡ false
  unfolding lookup has_key
  has_key_of_none k [] h = refl
  has_key_of_none k ((i, w) ∷ m) h = ground (arith, has_key_of_none k m)

  pub insert-UniqueKeys : (k : K) (v : V) (m : GoMap K V) → UniqueKeys m → UniqueKeys (insert k v m)
  unfolding has_key insert
  insert-UniqueKeys k v [] u = (refl, tt)
  insert-UniqueKeys k v ((i, w) ∷ m) u =
      ground
        (arith, e.beq_iff k i, e.beq_iff i k, has_key-insert k i v m, insert-UniqueKeys k v m u.1)

  pub delete-UniqueKeys : (k : K) (m : GoMap K V) → UniqueKeys m → UniqueKeys (delete k m)
  unfolding has_key delete
  delete-UniqueKeys k [] u = tt
  delete-UniqueKeys k ((i, w) ∷ m) u =
      ground (arith, e.beq_iff k i, has_key-delete k i m, delete-UniqueKeys k m u.1)

  pub delete_absent : (k : K) (m : GoMap K V) → has_key k m ≡ false → delete k m ≡ m
  unfolding has_key delete
  delete_absent k [] h = refl
  delete_absent k ((i, w) ∷ m) h = ground (arith, delete_absent k m)

  pub length-insert :
      (k : K) (v : V) (m : GoMap K V)
      → length (insert k v m) ≡ (if has_key k m then length m else suc (length m))
  unfolding has_key insert
  length-insert k v [] = refl
  length-insert k v ((i, w) ∷ m) = ground (arith, length-insert k v m)

  length_pos : (k : K) (m : GoMap K V) → has_key k m ≡ true → 0 < length m
  unfolding has_key
  length_pos k [] h = cc
  length_pos k ((i, w) ∷ m) h = omega arith

  pub length-delete :
      (k : K) (m : GoMap K V)
      → UniqueKeys m
      → length (delete k m) ≡ (if has_key k m then length m - 1 else length m)
  unfolding has_key delete
  length-delete k [] u = refl
  length-delete k ((i, w) ∷ m) u =
      ground (arith, length-delete k m u.1, e.beq_iff i k, delete_absent k m, length_pos k m)

-- Keys in the order of the entries.
abbrev pub keys {ℓ κ} : {K : Type ℓ} {V : Type κ} → GoMap K V → List K
keys = map λ p. p.0
