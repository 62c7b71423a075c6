-- ===== src/Memory/Policy.antt =====
-- What the accepted configurations of pkg/memory/config.go promise: kinds, modes and resolvers.
use agent_sdk_go.Prelude.{
  Bool, true, false, none, List, [], ◌∷◌, String, string_eq, ◌==◌, beq_iff, ◌≡◌, ◌≢◌, ◌↔◌, sym, ap,
  subst, ◌∙◌, ◌⊎◌, inl, inr, if◌then◌else◌, arith,
}
use agent_sdk_go.Memory.{
  on_demand, always, MemoryError, kind_not_allowed, MemoryHost, StoreConfig, MemoryConfig,
  effective_kind, among, resolve_kind, is_ok, resolve_allowed, store_with_defaults, resolve,
  with_defaults,
}

-- A member of a list.
abbrev pub Has : String → List String → Type 0
Has k [] = ⊥
Has k (a ∷ kinds) = (k ≡ a) ⊎ Has k kinds

note-ne-empty : ◌≢◌ {A = String} "note" ""
note-ne-empty q = cc

noted-ne-empty : (x k : String) → k ≡ (if x == "" then "note" else x) → k ≢ ""
noted-ne-empty x k e q = ground (arith, beq_iff x "", note-ne-empty)

module _ (h : MemoryHost) where
  among_iff : (k : String) (kinds : List String) → (among h k kinds ≡ true) ↔ Has k kinds
  unfolding among
  among_iff k [] = ((λ e. cc), λ q. elim q [ ])
  among_iff k (a ∷ kinds) = ground (arith, beq_iff k a, among_iff k kinds)

  resolved-Has :
      (kind a : String) (kinds : List String) (k : String)
      → resolve_allowed h kind (a ∷ kinds) ≡ inl k
      → (k ≡ kind) × (among h kind (a ∷ kinds) ≡ true)
  unfolding resolve_allowed
  resolved-Has kind a kinds k r = ground arith

  resolve_allowed_iff :
      (kind : String) (kinds : List String) (k : String)
      → (resolve_allowed h kind kinds ≡ inl k) ↔ ((k ≡ kind) × ((kinds ≡ []) ⊎ Has k kinds))
  unfolding resolve_allowed
  resolve_allowed_iff kind [] k = ground arith
  resolve_allowed_iff kind (a ∷ kinds) k = (
    λ r.
        let (e, in_) = resolved-Has kind a kinds k r in
        (e, inr (subst (λ j. Has j (a ∷ kinds)) (sym e) ((among_iff kind (a ∷ kinds)).0 in_))),
    λ q. elim q.1 [
      | inl empty ↦ cc
      | inr has ↦
          let has' = subst (λ j. Has j (a ∷ kinds)) q.0 has in
          let in_ : among h kind (a ∷ kinds) ≡ true = (among_iff kind (a ∷ kinds)).1 has' in
          ap
            (λ (b : Bool).
              if◌then◌else◌ {A = String ⊎ MemoryError} b (inl kind) (inr (kind_not_allowed kind)))
            in_
          ∙ ap inl (sym q.0)
    ],
  )

  effective-ne-empty : (s : StoreConfig h) (kind k : String) → k ≡ effective_kind h s kind → k ≢ ""
  effective-ne-empty s kind k e q =
      noted-ne-empty (if kind == "" then s.default_kind else kind) k e q

  -- ResolveKind gives a kind exactly when it is the record's own, or else the configured default, or
  -- else "note", and there is no list of allowed kinds or it is in the list; it is never empty.
  pub resolve_kind_iff :
      (s : StoreConfig h) (kind k : String)
      → (resolve_kind h s kind ≡ inl k) ↔ (
          (k ≡ effective_kind h s kind)
          × (k ≢ "")
          × ((s.allowed_kinds ≡ []) ⊎ Has k s.allowed_kinds))
  unfolding resolve_kind
  resolve_kind_iff s kind k =
      let e = resolve_allowed_iff (effective_kind h s kind) s.allowed_kinds k in
      (λ r. ((e.0 r).0, effective-ne-empty s kind k (e.0 r).0, (e.0 r).1), λ q. e.1 (q.0, q.2))

  -- WithDefaults changes nothing that it has already filled in.
  pub with_defaults_twice :
      (c : MemoryConfig h)
      → h.is_positive h.default_dedup_min_score ≡ true
      → with_defaults h (with_defaults h c) ≡ with_defaults h c
  unfolding with_defaults store_with_defaults
  with_defaults_twice c positive = ground arith

  -- What the run can rely on.
  pub record Usable (c : MemoryConfig h) : Type 0 where
    pub has_memory : c.memory ≢ none
    pub resolves : (ctx : h.Ctx) → is_ok (resolve h c.scope_config ctx) ≡ true
    pub kind_of_unkinded : is_ok (resolve_kind h c.store "") ≡ true
    pub mode : (c.store.mode ≡ on_demand) ⊎ (c.store.mode ≡ always)
    pub extracts_at_end : (c.store.mode ≡ always) ⊎ (c.store.extract ≡ none)
    pub score :
        (h.is_negative c.store.dedup_min_score ≡ false)
        × (h.above_one c.store.dedup_min_score ≡ false)
