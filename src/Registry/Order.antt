-- ===== src/Registry/Order.antt =====
-- The order list of a registry and its map.
use agent_sdk_go.Prelude.{
  ◌≡◌, refl, Bool, true, false, ◌||◌, some, List, [], ◌∷◌, ◌++◌, String, string_eq, if◌then◌else◌,
  ◌==◌, arith, beq_iff, Bool-cases, inl, inr,
}
use agent_sdk_go.Prelude.GoMap
use agent_sdk_go.Prelude.GoMap.{GoMap, has_key}
use agent_sdk_go.Registry.{Registry, remove_from_order, collect}

unfoldable pub contains : List String → String → Bool
contains [] name = false
contains (n ∷ ns) name = (n == name) || contains ns name

abbrev pub IsDistinct : List String → Type 0
IsDistinct [] = Unit
IsDistinct (n ∷ ns) = (contains ns n ≡ false) × IsDistinct ns

-- The order has each key of the map once and nothing else.
pub record Inv {T : Type 0} (r : Registry T) : Type 0 where
  pub same : (n : String) → contains r.order n ≡ has_key n r.tools
  pub distinct : IsDistinct r.order

pub contains-append :
    (xs ys : List String) (k : String) → contains (xs ++ ys) k ≡ (contains xs k || contains ys k)
unfolding contains
contains-append [] ys k = refl
contains-append (x ∷ xs) ys k = ground (arith, contains-append xs ys k)

pub snoc-IsDistinct :
    (xs : List String) (k : String)
    → contains xs k ≡ false
    → IsDistinct xs
    → IsDistinct (xs ++ k ∷ [])
unfolding contains
snoc-IsDistinct [] k h d = (refl, tt)
snoc-IsDistinct (x ∷ xs) k h d =
    ground (arith, contains-append xs (k ∷ []) x, snoc-IsDistinct xs k, d, beq_iff k x, beq_iff x k)

pub contains-remove :
    (xs : List String) (k j : String)
    → IsDistinct xs
    → contains (remove_from_order xs k) j ≡ (if k == j then false else contains xs j)
unfolding contains remove_from_order
contains-remove [] k j d = ground arith
contains-remove (x ∷ xs) k j d =
    ground (arith, contains-remove xs k j d.1, beq_iff x k, beq_iff x j, beq_iff k j)

pub remove-IsDistinct :
    (xs : List String) (k : String) → IsDistinct xs → IsDistinct (remove_from_order xs k)
unfolding contains remove_from_order
remove-IsDistinct [] k d = tt
remove-IsDistinct (x ∷ xs) k d =
    ground (arith, contains-remove xs k x d.1, remove-IsDistinct xs k d.1)

module _ {T : Type 0} where
  pub collect-append :
      (m : GoMap String T) (xs ys : List String)
      → collect m (xs ++ ys) ≡ collect m xs ++ collect m ys
  unfolding collect
  collect-append m [] ys = refl
  collect-append m (x ∷ xs) ys = ground (arith, collect-append m xs ys)

  pub collect-insert :
      (m : GoMap String T) (k : String) (t : T) (xs : List String)
      → contains xs k ≡ false
      → collect (GoMap.insert k t m) xs ≡ collect m xs
  unfolding contains collect
  collect-insert m k t [] h = refl
  collect-insert m k t (x ∷ xs) h =
      ground (arith, GoMap.lookup-insert k x t m, beq_iff k x, beq_iff x k, collect-insert m k t xs)

  pub collect-delete :
      (m : GoMap String T) (k : String) (xs : List String)
      → contains xs k ≡ false
      → collect (GoMap.delete k m) xs ≡ collect m xs
  unfolding contains collect
  collect-delete m k [] h = refl
  collect-delete m k (x ∷ xs) h =
      ground (arith, GoMap.lookup-delete k x m, beq_iff k x, beq_iff x k, collect-delete m k xs)

  -- Taking a name out takes its tool out of the collection, and nothing else.
  pub collect-remove :
      (m : GoMap String T) (k : String) (t : T) (xs : List String)
      → IsDistinct xs
      → contains xs k ≡ true
      → GoMap.lookup k m ≡ some t
      → (before after : List T) × (collect m xs ≡ before ++ t ∷ after)
        × (collect (GoMap.delete k m) (remove_from_order xs k) ≡ before ++ after)
  unfolding contains collect remove_from_order
  collect-remove m k t [] d c l = cc
  collect-remove m k t (x ∷ xs) d c l = elim (Bool-cases (x == k)) [
    | inl same ↦
        let e : x ≡ k = (beq_iff x k).0 same in
        ([], collect m xs, ground arith, ground (arith, collect-delete m k xs))
    | inr other ↦
        let (before, after, whole, rest) = collect-remove m k t xs d.1 (ground arith) l in
        (
          collect m (x ∷ []) ++ before,
          after,
          ground arith,
          ground (arith, GoMap.lookup-delete k x m, beq_iff k x),
        )
  ]
