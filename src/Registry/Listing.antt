-- ===== src/Registry/Listing.antt =====
-- What List and Get return after Register and Unregister.
use agent_sdk_go.Prelude.{
  ◌≡◌, refl, ◌∙◌, false, Option, none, some, List, [], ◌∷◌, ◌++◌, String, string_eq, ◌==◌, ◌⊎◌, inl,
  inr, arith, beq_iff, beq_refl, Option-cases, Bool-cases, ◌≢◌,
}
use agent_sdk_go.Prelude.GoMap
use agent_sdk_go.Prelude.GoMap.{GoMap, has_key}
use agent_sdk_go.Registry.{
  Registry, RegistryError, not_found, duplicate, invalid_name, nil_entry, new_registry, register,
  unregister, get, list_tools, remove_from_order, collect,
}
use agent_sdk_go.Registry.Order.{
  Inv, contains, contains-append, snoc-IsDistinct, contains-remove, remove-IsDistinct,
  collect-append, collect-insert, collect-remove,
}

-- A call that changes a registry.
pub data Change (T : Type 0) : Type 0 where
  registers : Option T → Change T
  unregisters : String → Change T

module _ {T : Type 0} (trim : String → String) (name_of : T → String) where
  abbrev pub apply : Registry T → Change T → Registry T
  apply r (registers t) = (register trim name_of r t).0
  apply r (unregisters n) = (unregister trim r n).0

  abbrev pub run : Registry T → List (Change T) → Registry T
  run r [] = r
  run r (c ∷ cs) = run (apply r c) cs

-- A registry with one more tool, and one with a tool less.
abbrev added : {T : Type 0} → Registry T → String → T → Registry T
added r name t = record { tools = GoMap.insert name t r.tools; order = r.order ++ name ∷ [] }

abbrev dropped : {T : Type 0} → Registry T → String → Registry T
dropped r name = record {
  tools = GoMap.delete name r.tools;
  order = remove_from_order r.order name;
}

module _ {T : Type 0} where
  list-collect : (r : Registry T) → list_tools r ≡ collect r.tools r.order
  unfolding list_tools
  list-collect r = refl

  list-added :
      (r : Registry T) (name : String) (t : T)
      → GoMap.lookup name r.tools ≡ none
      → Inv r
      → list_tools (added r name t) ≡ list_tools r ++ t ∷ []
  unfolding list_tools collect
  list-added r name t free v = ground (
    arith,
    collect-append (GoMap.insert name t r.tools) r.order (name ∷ []),
    collect-insert r.tools name t r.order,
    v.same name,
    GoMap.has_key_of_none name r.tools free,
    GoMap.lookup-insert name name t r.tools,
    beq_iff name name,
  )

module _ {T : Type 0} (trim : String → String) where
  get-some :
      (r : Registry T) (n : String) (t : T)
      → (trim n == "") ≡ false
      → GoMap.lookup (trim n) r.tools ≡ some t
      → get trim r n ≡ inl t
  unfolding get
  get-some r n t named found = ground arith

  get-none :
      (r : Registry T) (n : String)
      → (trim n == "") ≡ false
      → GoMap.lookup (trim n) r.tools ≡ none
      → get trim r n ≡ inr not_found
  unfolding get
  get-none r n named missing = ground arith

  get-added :
      (r : Registry T) (name n : String) (t : T)
      → trim n ≢ name
      → get trim (added r name t) n ≡ get trim r n
  unfolding get
  get-added r name n t ne =
      ground (arith, GoMap.lookup-insert name (trim n) t r.tools, beq_iff name (trim n))

module _ {T : Type 0} (trim : String → String) (name_of : T → String) where
  abbrev Registers : Registry T → Option T → Type 0
  Registers r t =
      ((e : RegistryError) × (register trim name_of r t ≡ (r, some e)))
      ⊎ ((u : T) × (t ≡ some u)
          × ((trim (name_of u) == "") ≡ false)
          × (GoMap.lookup (trim (name_of u)) r.tools ≡ none)
          × (register trim name_of r t ≡ (added r (trim (name_of u)) u, none)))

  register_cases : (r : Registry T) (t : Option T) → Registers r t
  unfolding register
  register_cases r none = inl (nil_entry, refl)
  register_cases r (some t) = elim (Bool-cases (trim (name_of t) == "")) [
    | inl blank ↦ inl (invalid_name, ground arith)
    | inr named ↦ elim (Option-cases (GoMap.lookup (trim (name_of t)) r.tools)) [
      | inl free ↦ inr (t, refl, named, free, ground arith)
      | inr (u, taken) ↦ inl (duplicate, ground arith)
    ]
  ]

  added-Inv :
      (r : Registry T) (name : String) (t : T)
      → GoMap.lookup name r.tools ≡ none
      → Inv r
      → Inv (added r name t)
  unfolding contains
  added-Inv r name t free v = record {
    same = λ n. ground (
      arith,
      contains-append r.order (name ∷ []) n,
      GoMap.has_key-insert name n t r.tools,
      v.same n,
    );
    distinct =
        snoc-IsDistinct r.order name (v.same name ∙ GoMap.has_key_of_none name r.tools free)
          v.distinct;
  }

  register-Inv : (r : Registry T) (t : Option T) → Inv r → Inv (register trim name_of r t).0
  register-Inv r t v = elim (register_cases r t) [
    | inl (e, q) ↦ rw q v
    | inr (u, p, named, free, q) ↦ rw q (added-Inv r (trim (name_of u)) u free v)
  ]

  dropped-Inv : (r : Registry T) (name : String) → Inv r → Inv (dropped r name)
  dropped-Inv r name v = record {
    same = λ n. ground (
      arith,
      contains-remove r.order name n v.distinct,
      GoMap.has_key-delete name n r.tools,
      v.same n,
    );
    distinct = remove-IsDistinct r.order name v.distinct;
  }

module _ {T : Type 0} (trim : String → String) where
  abbrev Unregisters : Registry T → String → Type 0
  Unregisters r n =
      ((e : RegistryError) × (unregister trim r n ≡ (r, some e)))
      ⊎ ((u : T) × ((trim n == "") ≡ false)
          × (GoMap.lookup (trim n) r.tools ≡ some u)
          × (unregister trim r n ≡ (dropped r (trim n), none)))

  unregister_cases : (r : Registry T) (n : String) → Unregisters r n
  unfolding unregister
  unregister_cases r n = elim (Bool-cases (trim n == "")) [
    | inl blank ↦ inl (invalid_name, ground arith)
    | inr named ↦ elim (Option-cases (GoMap.lookup (trim n) r.tools)) [
      | inl missing ↦ inl (not_found, ground arith)
      | inr (u, found) ↦ inr (u, named, found, ground arith)
    ]
  ]

  unregister-Inv : (r : Registry T) (n : String) → Inv r → Inv (unregister trim r n).0
  unregister-Inv r n v = elim (unregister_cases r n) [
    | inl (e, q) ↦ rw q v
    | inr (u, named, found, q) ↦ rw q (dropped-Inv trim (λ (t : T). "") r (trim n) v)
  ]

module _ {T : Type 0} (trim : String → String) (name_of : T → String) where
  run-from-Inv : (r : Registry T) (cs : List (Change T)) → Inv r → Inv (run trim name_of r cs)
  run-from-Inv r [] v = v
  run-from-Inv r (registers t ∷ cs) v =
      run-from-Inv (register trim name_of r t).0 cs (register-Inv trim name_of r t v)
  run-from-Inv r (unregisters n ∷ cs) v =
      run-from-Inv (unregister trim r n).0 cs (unregister-Inv trim r n v)

  new-Inv : Inv {T = T} new_registry
  unfolding contains has_key
  new-Inv = record { same = λ n. refl; distinct = tt }

  -- After every sequence of Register and Unregister calls on an empty registry, whether they fail
  -- or not, the order list has exactly the keys of the map, each once.
  pub run-Inv : (cs : List (Change T)) → Inv (run trim name_of new_registry cs)
  run-Inv cs = run-from-Inv new_registry cs new-Inv

  -- A Register call that returns no error appends the tool to the list; Get then finds it under its
  -- name, and finds under every other name what it found before.
  list-register :
      (r r' : Registry T) (t : T)
      → Inv r
      → register trim name_of r (some t) ≡ (r', none)
      → (list_tools r' ≡ list_tools r ++ t ∷ [])
        × (get trim r' (name_of t) ≡ inl t)
        × ((n : String) → trim n ≢ trim (name_of t) → get trim r' n ≡ get trim r n)
  list-register r r' t v h = elim (register_cases trim name_of r (some t)) [
    | inl (e, q) ↦ absurd (cc)
    | inr (u, p, named, free, q) ↦
        let s : t ≡ u = cc in
        let a : r' ≡ added r (trim (name_of u)) u = cc in
        rw (a, s)
          (
            list-added r (trim (name_of u)) u free v,
            get-some trim _ (name_of u) u named (
                rw (
                  GoMap.lookup-insert (trim (name_of u)) (trim (name_of u)) u r.tools,
                  beq_refl (trim (name_of u)),
                )),
            λ n ne. get-added trim r (trim (name_of u)) n u ne,
          )
  ]

  -- A Unregister call that returns no error takes exactly one tool out of the list, the one that Get
  -- returned for that name, and keeps the order of the others; Get then reports that it is missing.
  list-unregister :
      (r r' : Registry T) (n : String)
      → Inv r
      → unregister trim r n ≡ (r', none)
      → (before after : List T) × (t : T) × (list_tools r ≡ before ++ t ∷ after)
        × (list_tools r' ≡ before ++ after)
        × (get trim r n ≡ inl t)
        × (get trim r' n ≡ inr not_found)
  list-unregister r r' n v h = elim (unregister_cases trim r n) [
    | inl (e, q) ↦ absurd (cc)
    | inr (u, named, found, q) ↦
        let a : r' ≡ dropped r (trim n) = cc in
        let (before, after, whole, rest) =
          collect-remove r.tools (trim n) u r.order v.distinct
            (v.same (trim n) ∙ GoMap.has_key_of_lookup (trim n) u r.tools found) found in
        (
          before,
          after,
          u,
          list-collect r ∙ whole,
          rw a (list-collect (dropped r (trim n)) ∙ rest),
          get-some trim r n u named found,
          rw a (
              get-none trim (dropped r (trim n)) n named
                (rw (GoMap.lookup-delete (trim n) (trim n) r.tools, beq_refl (trim n)))),
        )
  ]
