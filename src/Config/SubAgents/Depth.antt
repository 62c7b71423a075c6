-- ===== src/Config/SubAgents/Depth.antt =====
-- What the walk over the sub-agents finds.
use agent_sdk_go.Prelude.{
  ℕ, zero, suc, ◌+◌, ◌<◌, ◌≤◌, ◌≡◌, ◌⊎◌, ◌↔◌, inl, inr, refl, sym, subst, true, false, Option, none,
  some, List, [], ◌∷◌, arith, nat_eq, ◌==◌, Bool-cases, Option-cases, ◌∙◌,
}
use agent_sdk_go.Config.SubAgents.{Agents, DepthError, contains, each_child, dfs_sub_agent_depth}

-- A child, and a registry without nil.
abbrev pub ChildIn : ℕ → List (Option ℕ) → Type 0
ChildIn c [] = ⊥
ChildIn c (x ∷ xs) = (x ≡ some c) ⊎ ChildIn c xs

abbrev pub NoNil : List (Option ℕ) → Type 0
NoNil [] = Unit
NoNil (none ∷ xs) = ⊥
NoNil (some c ∷ xs) = NoNil xs

module _ (g : Agents) where
  -- A walk of `n` steps from an agent to a sub-agent.
  pub data Walk : ℕ → ℕ → ℕ → Type 0 where
    stop : (a : ℕ) → Walk a a 0
    step :
        (a c b n : ℕ) (children : List (Option ℕ)) (here : g.registry a ≡ some children)
        (child : ChildIn c children) (rest : Walk c b n)
        → Walk a b (suc n)

  -- Fewer than `room` steps lead down from `a`, and no registry on the way has a nil entry.
  abbrev pub Shallow : ℕ → ℕ → Type 0
  Shallow room a =
      (b n : ℕ)
      → Walk a b n
      → (n < room) × ((children : List (Option ℕ)) → g.registry b ≡ some children → NoNil children)

  each_child-passes :
      (visit : ℕ → List ℕ → Option DepthError) (a : ℕ) (path : List ℕ) (children : List (Option ℕ))
      → each_child visit a path children ≡ none
      → NoNil children × ((c : ℕ) → ChildIn c children → visit c (c ∷ path) ≡ none)
  unfolding each_child
  each_child-passes visit a path [] ok = (tt, λ c q. elim q [ ])
  each_child-passes visit a path (none ∷ children) ok = ground arith
  each_child-passes visit a path (some child ∷ children) ok =
      let here : visit child (child ∷ path) ≡ none = ground arith in
      let (no_nil, later) = each_child-passes visit a path children (ground arith) in
      (
        no_nil,
        λ c q. elim q [
          | inl e ↦ let same : child ≡ c = cc in subst (λ d. visit d (d ∷ path) ≡ none) same here
          | inr rest ↦ later c rest
        ],
      )

  dfs-children :
      (room a : ℕ) (path : List ℕ) (children : List (Option ℕ))
      → g.registry a ≡ some children
      → dfs_sub_agent_depth g (suc room) a path
        ≡ each_child (dfs_sub_agent_depth g room) a path children
  unfolding dfs_sub_agent_depth
  dfs-children room a path children e = rw (e, dfs_sub_agent_depth) refl

  dfs-Shallow :
      (room a : ℕ) (path : List ℕ) → dfs_sub_agent_depth g room a path ≡ none → Shallow room a
  unfolding dfs_sub_agent_depth
  dfs-Shallow zero a path ok b n w = ground arith
  dfs-Shallow (suc room) a path ok b _ (stop _) = (
    ground arith,
    λ children e.
        (each_child-passes (dfs_sub_agent_depth g room) a path children
          (sym (dfs-children room a path children e) ∙ ok)).0,
  )
  dfs-Shallow (suc room) a path ok b _ (step _ c _ n children here child rest) =
      let passed =
        each_child-passes (dfs_sub_agent_depth g room) a path children
          (sym (dfs-children room a path children here) ∙ ok) in
      let (less, no_nil) = dfs-Shallow room c (c ∷ path) (passed.1 c child) b n rest in
      (ground arith, no_nil)

  Walk-then : (a b c n m : ℕ) → Walk a b n → Walk b c m → Walk a c (n + m)
  Walk-then a _ c _ m (stop _) v = subst (λ k. Walk a c k) (omega arith) v
  Walk-then a b c _ m (step _ d _ n children here child rest) v =
      subst (λ k. Walk a c k) (omega arith)
        (step a d c (n + m) children here child (Walk-then d b c n m rest v))

  around : (a k m : ℕ) → Walk a a (suc k) → (n : ℕ) × (m ≤ n) × Walk a a n
  around a k zero w = (0, ground arith, stop a)
  around a k (suc m) w =
      let (n, more, v) = around a k m w in (n + suc k, omega arith, Walk-then a a a n (suc k) v w)

  -- All that stands on the path leads to `a`.
  Leads : List ℕ → ℕ → Type 0
  Leads path a = (p : ℕ) → contains p path ≡ true → (k : ℕ) × Walk p a k

  Leads-child :
      (a c : ℕ) (path : List ℕ) (children : List (Option ℕ))
      → g.registry a ≡ some children
      → ChildIn c children
      → Leads path a
      → Leads (c ∷ path) c
  unfolding contains Leads
  Leads-child a c path children here child leads p has = elim (Bool-cases (c == p)) [
    | inl same ↦ let e : c ≡ p = ground arith in (0, subst (λ q. Walk q c 0) e (stop c))
    | inr other ↦
        let (k, w) = leads p (ground arith) in
        (k + 1, Walk-then p a c k 1 w (step a c c 0 children here child (stop c)))
  ]

  each_child-all :
      (visit : ℕ → List ℕ → Option DepthError) (a : ℕ) (path : List ℕ) (children : List (Option ℕ))
      → NoNil children
      → ((c : ℕ) → ChildIn c children → (contains c path ≡ false) × (visit c (c ∷ path) ≡ none))
      → each_child visit a path children ≡ none
  unfolding each_child
  each_child-all visit a path [] no_nil all = refl
  each_child-all visit a path (none ∷ children) no_nil all = elim no_nil [ ]
  each_child-all visit a path (some c ∷ children) no_nil all =
      let (fresh, ok) = all c (inl refl) in
      let later = each_child-all visit a path children no_nil (λ d q. all d (inr q)) in
      rw (fresh, ok, later, each_child) refl

  off_path :
      (room a c : ℕ) (path : List ℕ) (children : List (Option ℕ))
      → g.registry a ≡ some children
      → ChildIn c children
      → Shallow (suc room) a
      → Leads path a
      → contains c path ≡ false
  unfolding Leads
  off_path room a c path children here child shallow leads = elim (Bool-cases (contains c path)) [
    | inr off ↦ off
    | inl on ↦
        let (k, w) = leads c on in
        let (n, more, v) = around a k (suc room) (step a c a k children here child w) in
        ground (arith, (shallow a n v).0)
  ]

  alone-Leads : (a : ℕ) → Leads (a ∷ []) a
  unfolding contains Leads
  alone-Leads a p has = let e : a ≡ p = ground arith in (0, subst (λ q. Walk q a 0) e (stop a))

  Shallow-dfs :
      (room a : ℕ) (path : List ℕ)
      → Shallow room a
      → Leads path a
      → dfs_sub_agent_depth g room a path ≡ none
  unfolding dfs_sub_agent_depth
  Shallow-dfs zero a path shallow leads = ground (arith, shallow a 0 (stop a))
  Shallow-dfs (suc room) a path shallow leads = elim (Option-cases (g.registry a)) [
    | inl alone ↦ rw (alone, dfs_sub_agent_depth) refl
    | inr (children, here) ↦
        dfs-children room a path children here
        ∙ each_child-all (dfs_sub_agent_depth g room) a path children
            ((shallow a 0 (stop a)).1 children here)
            (λ c child. (
              off_path room a c path children here child shallow leads,
              Shallow-dfs room c (c ∷ path)
                  (λ b n w.
                    let (less, no_nil) = shallow b (suc n) (step a c b n children here child w) in
                    (ground arith, no_nil))
                  (Leads-child a c path children here child leads),
            ))
  ]

  -- dfsSubAgentDepth accepts an agent exactly when every walk down from it has fewer steps than there
  -- is room, and meets no nil entry: a cycle is a walk without end, so that the test for cycles
  -- refuses nothing more.
  pub dfs_iff : (room a : ℕ) → (dfs_sub_agent_depth g room a (a ∷ []) ≡ none) ↔ Shallow room a
  dfs_iff room a =
      (dfs-Shallow room a (a ∷ []), λ shallow. Shallow-dfs room a (a ∷ []) shallow (alone-Leads a))
