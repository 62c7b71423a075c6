-- ===== src/Store/Refinement.antt =====
-- The store against its abstract view, a partial function from keys to values.
use agent_sdk_go.Prelude.{
  ℕ, suc, ◌≡◌, refl, sym, Bool, false, Option, none, some, List, [], ◌∷◌, if◌then◌else◌, length,
  length-map, Eq, ◌==◌, arith,
}
use agent_sdk_go.Prelude.GoMap
use agent_sdk_go.Prelude.GoMap.{GoMap, UniqueKeys, has_key}
use agent_sdk_go.Store.{Kv, new_kv, set, get, delete, keys, len, clear, pop, delete_if}

-- A call of the store's interface.
pub data Call (K V : Type 0) : Type 0 where
  sets : K → V → Call K V
  gets deletes pops : K → Call K V
  deletes_if : K → V → Call K V
  clears : Call K V

-- What a call returns.
pub data Reply (V : Type 0) : Type 0 where
  done : Reply V
  value : Option V → Reply V
  flag : Bool → Reply V

abbrev pub matches : {V : Type 0} ⦃ev : Eq V⦄ → Option V → V → Bool
matches none v = false
matches (some w) v = w == v

abbrev pub present : {V : Type 0} → Option V → ℕ
present none = 0
present (some v) = 1

-- How often a key stands in a list.
abbrev pub count : {K : Type 0} ⦃ek : Eq K⦄ → K → List K → ℕ
count k [] = 0
count k (j ∷ js) = let rest = count k js in if j == k then suc rest else rest

module _ {K V : Type 0} ⦃ek : Eq K⦄ ⦃ev : Eq V⦄ where
  abbrev pub exec : Kv K V → Call K V → Kv K V × Reply V
  exec s (sets k v) = (set s k v, done)
  exec s (gets k) = (s, value (get s k))
  exec s (deletes k) = (delete s k, done)
  exec s (pops k) = let (s', r) = pop s k in (s', value r)
  exec s (deletes_if k v) = let (s', b) = delete_if s k v in (s', flag b)
  exec s clears = (clear s, done)

  -- The abstract store: a function, changed at one key.
  abbrev pub update : (K → Option V) → K → Option V → K → Option V
  update f k r j = if k == j then r else f j

  abbrev pub spec : (K → Option V) → Call K V → (K → Option V) × Reply V
  spec f (sets k v) = (update f k (some v), done)
  spec f (gets k) = (f, value (f k))
  spec f (deletes k) = (update f k none, done)
  spec f (pops k) = (update f k none, value (f k))
  spec f (deletes_if k v) =
      (update f k (if matches (f k) v then none else f k), flag (matches (f k) v))
  spec f clears = (λ _. none, done)

  -- A sequence of calls: the final state and the replies in order.
  abbrev pub run : Kv K V → List (Call K V) → Kv K V × List (Reply V)
  run s [] = (s, [])
  run s (c ∷ cs) = let (s', r) = exec s c in let (t, rs) = run s' cs in (t, r ∷ rs)

  abbrev pub run_spec : (K → Option V) → List (Call K V) → (K → Option V) × List (Reply V)
  run_spec f [] = (f, [])
  run_spec f (c ∷ cs) = let (g, r) = spec f c in let (h, rs) = run_spec g cs in (h, r ∷ rs)

  abbrev Agrees : Kv K V → (K → Option V) → Type 0
  Agrees s f = (j : K) → get s j ≡ f j

  exec-Agrees :
      (s : Kv K V) (f : K → Option V) (c : Call K V) → Agrees s f → Agrees (exec s c).0 (spec f c).0
  unfolding set get delete clear pop delete_if GoMap.lookup
  exec-Agrees s f (sets k v) a j = ground (arith, GoMap.lookup-insert k j v s.entries, a j)
  exec-Agrees s f (gets k) a j = a j
  exec-Agrees s f (deletes k) a j = ground (arith, GoMap.lookup-delete k j s.entries, a j)
  exec-Agrees s f (pops k) a j =
      ground (arith, GoMap.lookup-delete k j s.entries, a j, a k, ek.beq_iff k j)
  exec-Agrees s f (deletes_if k v) a j =
      ground (arith, GoMap.lookup-delete k j s.entries, a j, a k, ek.beq_iff k j)
  exec-Agrees s f clears a j = refl

  exec-reply :
      (s : Kv K V) (f : K → Option V) (c : Call K V) → Agrees s f → (exec s c).1 ≡ (spec f c).1
  unfolding set get delete clear pop delete_if
  exec-reply s f (sets k v) a = refl
  exec-reply s f (gets k) a = ground (arith, a k)
  exec-reply s f (deletes k) a = refl
  exec-reply s f (pops k) a = ground (arith, a k)
  exec-reply s f (deletes_if k v) a = ground (arith, a k)
  exec-reply s f clears a = refl

  run-Agrees :
      (s : Kv K V) (f : K → Option V) (cs : List (Call K V))
      → Agrees s f
      → Agrees (run s cs).0 (run_spec f cs).0 × ((run s cs).1 ≡ (run_spec f cs).1)
  run-Agrees s f [] a = (a, refl)
  run-Agrees s f (c ∷ cs) a =
      let rest = run-Agrees (exec s c).0 (spec f c).0 cs (exec-Agrees s f c a) in
      (rest.0, cc (rest.1, exec-reply s f c a))

  -- Every sequence of Set, Get, Delete, Pop, DeleteIf and Clear calls on a new store gives the same
  -- replies as on a partial function that starts empty, and Get reads that function afterwards.
  pub run_refines :
      (cs : List (Call K V)) (j : K)
      → ((run new_kv cs).1 ≡ (run_spec (λ _. none) cs).1)
        × (get (run new_kv cs).0 j ≡ (run_spec (λ _. none) cs).0 j)
  unfolding get GoMap.lookup
  run_refines cs j = let (a, r) = run-Agrees new_kv (λ _. none) cs (λ j. refl) in (r, a j)

  exec-UniqueKeys :
      (s : Kv K V) (c : Call K V) → UniqueKeys s.entries → UniqueKeys (exec s c).0.entries
  unfolding set get delete clear pop delete_if
  exec-UniqueKeys s (sets k v) u = GoMap.insert-UniqueKeys k v s.entries u
  exec-UniqueKeys s (gets k) u = u
  exec-UniqueKeys s (deletes k) u = GoMap.delete-UniqueKeys k s.entries u
  exec-UniqueKeys s (pops k) u = ground (arith, GoMap.delete-UniqueKeys k s.entries u)
  exec-UniqueKeys s (deletes_if k v) u = ground (arith, GoMap.delete-UniqueKeys k s.entries u)
  exec-UniqueKeys s clears u = tt

  run-UniqueKeys :
      (s : Kv K V) (cs : List (Call K V)) → UniqueKeys s.entries → UniqueKeys (run s cs).0.entries
  run-UniqueKeys s [] u = u
  run-UniqueKeys s (c ∷ cs) u = run-UniqueKeys (exec s c).0 cs (exec-UniqueKeys s c u)

  count-keys_absent : (k : K) (m : GoMap K V) → has_key k m ≡ false → count k (GoMap.keys m) ≡ 0
  unfolding has_key
  count-keys_absent k [] h = refl
  count-keys_absent k ((i, w) ∷ m) h = ground (arith, count-keys_absent k m)

  count-keys_map :
      (k : K) (m : GoMap K V) → UniqueKeys m → count k (GoMap.keys m) ≡ present (GoMap.lookup k m)
  unfolding has_key GoMap.lookup
  count-keys_map k [] u = refl
  count-keys_map k ((i, w) ∷ m) u =
      ground (arith, count-keys_map k m u.1, count-keys_absent k m, ek.beq_iff i k)

  -- After every sequence of calls on a new store Keys lists each key that Get finds exactly once
  -- and no other key, and Len is the number of keys listed.
  count-keys :
      (cs : List (Call K V)) (k : K)
      → let s = (run new_kv cs).0 in
        (count k (keys s) ≡ present (get s k)) × (len s ≡ length (keys s))
  unfolding keys get len
  count-keys cs k =
      let s = (run new_kv cs).0 in
      (
        count-keys_map k s.entries (run-UniqueKeys new_kv cs tt),
        sym (length-map (λ (p : K × V). p.0) s.entries),
      )
