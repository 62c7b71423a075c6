-- ===== src/Loop/Batch/Slots.antt =====
-- Each call of a round is answered by one message, in the order of the calls.
use agent_sdk_go.Prelude.{
  ℕ, zero, suc, ◌<◌, ◌≡◌, ◌⊎◌, inl, inr, refl, ◌∙◌, Bool, true, false, ◌||◌, Option, none, some,
  List, [], ◌∷◌, String, arith, length, replicate, get_elem?, if◌then◌else◌, nat_beq, nat_beq_iff,
  Option-cases, length-replicate, ap, Bool-cases, subst,
}
use agent_sdk_go.Agent.{ToolCallRequest, GoError}
use agent_sdk_go.Loop.{Host, State, LocalRuntime, AgentLoopInput, AgentLoopResult, ToolResult}
use agent_sdk_go.Loop.Tool.{execute_single_tool, settle_result}
use agent_sdk_go.Loop.Tool.Answers.{Answers, single-Returned}
use agent_sdk_go.Loop.Batch.{
  set_at, zero_result, execute_tools_sequential, parallel_call, run_order, execute_tools_parallel,
}

pub length-set_at : {A : Type 0} (i : ℕ) (a : A) (xs : List A) → length (set_at i a xs) ≡ length xs
unfolding set_at
length-set_at i a [] = refl
length-set_at zero a (x ∷ xs) = refl
length-set_at (suc i) a (x ∷ xs) = ap suc (length-set_at i a xs)

pub get_elem?-set_at :
    {A : Type 0} (i j : ℕ) (a : A) (xs : List A)
    → i < length xs
    → get_elem? (set_at i a xs) j ≡ (if nat_beq i j then some a else get_elem? xs j)
unfolding set_at
get_elem?-set_at i j a [] h = ground arith
get_elem?-set_at zero zero a (x ∷ xs) h = refl
get_elem?-set_at zero (suc j) a (x ∷ xs) h = ground arith
get_elem?-set_at (suc i) zero a (x ∷ xs) h = ground arith
get_elem?-set_at (suc i) (suc j) a (x ∷ xs) h =
    ground (arith, get_elem?-set_at i j a xs (omega arith))

pub get_elem?_bound :
    {A : Type 0} (xs : List A) (i : ℕ) (x : A) → get_elem? xs i ≡ some x → i < length xs
get_elem?_bound [] i x h = ground arith
get_elem?_bound (y ∷ ys) zero x h = omega arith
get_elem?_bound (y ∷ ys) (suc i) x h = omega (arith, get_elem?_bound ys i x h)

pub some_inj : {A : Type 0} {a b : A} → some a ≡ some b → a ≡ b
some_inj {a = a} e = ap (λ o. elim o [ none ↦ a | some x ↦ x ]) e

-- Whether an index is in a list of them.
abbrev pub has_index : ℕ → List ℕ → Bool
has_index i [] = false
has_index i (j ∷ js) = nat_beq j i || has_index i js

module _ (h : Host) where
  -- The slot of a call holds an answer to it.
  abbrev pub SlotAnswered : List (ToolCallRequest h.circuit.Args) → List (ToolResult h) → ℕ → Type 0
  SlotAnswered tcs rs i =
      (tc : ToolCallRequest h.circuit.Args)
      → get_elem? tcs i ≡ some tc
      → (r : ToolResult h) × (get_elem? rs i ≡ some r) × Answers h tc r

  slots :
      {tc : ToolCallRequest h.circuit.Args} (tcs : List (ToolCallRequest h.circuit.Args))
      (rs : List (ToolResult h)) (r : ToolResult h)
      → Answers h tc r
      → ((i : ℕ) → SlotAnswered tcs rs i)
      → (i : ℕ) → SlotAnswered (tc ∷ tcs) (r ∷ rs) i
  slots tcs rs r a rest zero tc' e = (r, refl, subst (λ t. Answers h t r) (some_inj e) a)
  slots tcs rs r a rest (suc i) tc' e = rest i tc' e

  module _
      (delegate : LocalRuntime h
        → AgentLoopInput h
        → Option ℕ
        → State h
        → (AgentLoopResult h ⊎ GoError) × State h)
      (rt : LocalRuntime h) (input : AgentLoopInput h) (id : String) where
    -- Sequential execution gives exactly one result for each call, in the order of the calls, whatever
    -- fails: a tool message with the call's id and name.
    pub sequential_answers :
        (tcs : List (ToolCallRequest h.circuit.Args)) (s : State h)
        → let rs = (execute_tools_sequential h delegate rt input id tcs s).0 in
          (length rs ≡ length tcs) × ((i : ℕ) → SlotAnswered tcs rs i)
    unfolding execute_tools_sequential
    sequential_answers [] s = (refl, λ i tc e. ground arith)
    sequential_answers (tc ∷ tcs) s =
        let r = execute_single_tool h delegate rt input id tc s in
        let rest = sequential_answers tcs r.1 in
        let first = single-Returned h delegate rt input id tc s in
        (ap suc rest.0, slots tcs _ (settle_result h tc r.0.0 r.0.1) first rest.1)

    parallel_call-length :
        (tcs : List (ToolCallRequest h.circuit.Args)) (idx : ℕ) (rs : List (ToolResult h))
        (s : State h)
        → length (parallel_call h delegate rt input id tcs idx rs s).0 ≡ length rs
    unfolding parallel_call
    parallel_call-length tcs idx rs s = elim (Option-cases (get_elem? tcs idx)) [
      | inl outside ↦ rw (outside, parallel_call) refl
      | inr (tc, found) ↦ rw (found, parallel_call) (length-set_at idx _ rs)
    ]

    parallel_call-other :
        (tcs : List (ToolCallRequest h.circuit.Args)) (idx i : ℕ) (rs : List (ToolResult h))
        (s : State h)
        → length rs ≡ length tcs
        → nat_beq idx i ≡ false
        → get_elem? (parallel_call h delegate rt input id tcs idx rs s).0 i ≡ get_elem? rs i
    unfolding parallel_call
    parallel_call-other tcs idx i rs s same there = elim (Option-cases (get_elem? tcs idx)) [
      | inl outside ↦ rw (outside, parallel_call) refl
      | inr (tc, found) ↦
          let r = execute_single_tool h delegate rt input id tc s in
          let bound = get_elem?_bound tcs idx tc found in
          let slot = get_elem?-set_at idx i (settle_result h tc r.0.0 r.0.1) rs (omega arith) in
          ground (arith, found, slot, there)
    ]

    parallel_call-slot :
        (tcs : List (ToolCallRequest h.circuit.Args)) (idx i : ℕ) (rs : List (ToolResult h))
        (s : State h)
        → length rs ≡ length tcs
        → (nat_beq idx i ≡ true) ⊎ SlotAnswered tcs rs i
        → SlotAnswered tcs (parallel_call h delegate rt input id tcs idx rs s).0 i
    unfolding parallel_call
    parallel_call-slot tcs idx i rs s same old tc e =
        let r = execute_single_tool h delegate rt input id tc s in
        let a = single-Returned h delegate rt input id tc s in
        let bound = get_elem?_bound tcs i tc e in
        elim (Bool-cases (nat_beq idx i)) [
          | inl here ↦
              let at = (nat_beq_iff idx i).0 here in
              let slot = get_elem?-set_at idx i (settle_result h tc r.0.0 r.0.1) rs (omega arith) in
              (settle_result h tc r.0.0 r.0.1, ground (arith, at, slot, e, here), a)
          | inr there ↦ elim old [
            | inl here ↦ absurd (cc)
            | inr before ↦
                let (r', found, answers) = before tc e in
                (r', parallel_call-other tcs idx i rs s same there ∙ found, answers)
          ]
        ]

    run_order-slots :
        (tcs : List (ToolCallRequest h.circuit.Args)) (order : List ℕ) (rs : List (ToolResult h))
        (s : State h)
        → length rs ≡ length tcs
        → let out = (run_order h delegate rt input id tcs order rs s).0 in
          (length out ≡ length tcs)
          × ((i : ℕ) → (has_index i order ≡ true) ⊎ SlotAnswered tcs rs i → SlotAnswered tcs out i)
    unfolding run_order
    run_order-slots tcs [] rs s same =
        (same, λ i old. elim old [ inl due ↦ absurd (cc) | inr before ↦ before ])
    run_order-slots tcs (idx ∷ order) rs s same =
        let call = parallel_call h delegate rt input id tcs idx rs s in
        let rest =
          run_order-slots tcs order call.0 call.1 (parallel_call-length tcs idx rs s ∙ same) in
        (
          rest.0,
          λ i old. rest.1 i (elim (Bool-cases (has_index i order)) [
            | inl later ↦ inl later
            | inr not_later ↦ inr (
                parallel_call-slot tcs idx i rs s same (elim old [
                  | inl due ↦ inl (ground (arith, due, not_later))
                  | inr before ↦ inr before
                ]))
          ]),
        )

    -- Parallel execution gives exactly one result for each call, in the order of the calls: a tool
    -- message with the call's id and name, in whatever order the goroutines run, provided that each
    -- index is among them.
    pub parallel_answers :
        (tcs : List (ToolCallRequest h.circuit.Args)) (order : List ℕ) (s : State h)
        → ((i : ℕ) → i < length tcs → has_index i order ≡ true)
        → let rs = (execute_tools_parallel h delegate rt input id order tcs s).0 in
          (length rs ≡ length tcs) × ((i : ℕ) → SlotAnswered tcs rs i)
    unfolding execute_tools_parallel
    parallel_answers tcs order s all_run =
        let slots =
          run_order-slots tcs order (replicate (length tcs) (zero_result h)) s
            (length-replicate (length tcs) (zero_result h)) in
        (slots.0, λ i tc e. slots.1 i (inl (all_run i (get_elem?_bound tcs i tc e))) tc e)
