-- ===== src/Base/Retrieval/Partial.antt =====
-- What ExecuteRetrievers of internal/runtime/base/runtime.go gives when searches fail.
use agent_sdk_go.Prelude.{
  ℕ, zero, suc, ◌+◌, ◌<◌, ◌≤◌, Bool, true, none, some, List, [], ◌∷◌, String, ◌⊎◌, inl, inr, ◌≡◌,
  refl, ap, ◌∙◌, if◌then◌else◌, length, replicate, get_elem?, length-replicate, Bool-cases,
  Option-cases, arith, nat_beq, nat_beq_iff, ltb,
}
use agent_sdk_go.Agent.{GoError}
use agent_sdk_go.Hooks.{RunMeta, HookGroup}
use agent_sdk_go.Loop.{Searched, RetrieverMode}
use agent_sdk_go.Loop.Batch.{set_at}
use agent_sdk_go.Loop.Batch.Slots.{
  has_index, length-set_at, get_elem?-set_at, get_elem?_bound, some_inj,
}
use agent_sdk_go.Base.{Outside, payloads}
use agent_sdk_go.Base.Retrieval.{
  Retriever, RetrieverResult, search_one, search_all, combine, execute_retrievers, zero_result,
}

none_bound : {A : Type 0} (xs : List A) (i : ℕ) → get_elem? xs i ≡ none → length xs ≤ i
none_bound [] i h = omega arith
none_bound (x ∷ xs) zero h = cc
none_bound (x ∷ xs) (suc i) h = omega (arith, none_bound xs i h)

module _ (o : Outside) where
  combine-le :
      (multiple : Bool) (results : List (RetrieverResult o))
      → (combine o multiple results).1 ≤ length results
  unfolding combine
  combine-le multiple [] = omega arith
  combine-le multiple (res ∷ results) = ground (arith, combine-le multiple results)

  -- The slot holds a result with an error.
  abbrev FailedAt : List (RetrieverResult o) → ℕ → Type 0
  FailedAt results i =
      (res : RetrieverResult o) × (e : GoError) × (get_elem? results i ≡ some res)
      × (res.err ≡ some e)

  combine_failed :
      (multiple : Bool) (results : List (RetrieverResult o))
      → ((i : ℕ) → i < length results → FailedAt results i)
      → combine o multiple results ≡ ("", length results)
  unfolding combine
  combine_failed multiple [] each = refl
  combine_failed multiple (res ∷ results) each =
      let (res', e, there, bad) = each 0 (omega arith) in
      let ih = combine_failed multiple results (λ i lt. each (suc i) (omega arith)) in
      let bad' : res.err ≡ some e = ap (λ (r : RetrieverResult o). r.err) (some_inj there) ∙ bad in
      rw (bad', combine)
        (ap (λ (p : String × ℕ). (p.0, p.1 + 1)) ih
          ∙ ap (λ (k : ℕ). ("", k))
              (let k : length results + 1 ≡ suc (length results) = omega arith in k))

module _ (o : Outside) (hooks : List (HookGroup (payloads o))) (meta : RunMeta)
    (mode : RetrieverMode) (query : String) (rs : List (Retriever o)) where
  search_all-length :
      (order : List ℕ) (results : List (RetrieverResult o)) (w : o.W)
      → length (search_all o hooks meta mode query rs order results w).0 ≡ length results
  unfolding search_all
  search_all-length [] results w = refl
  search_all-length (idx ∷ order) results w = elim (Option-cases (get_elem? rs idx)) [
    | inl outside ↦ rw (outside, search_all) (search_all-length order results w)
    | inr (r, found) ↦
        let (result, w') = search_one o hooks meta mode query r w in
        rw (found, search_all)
          (search_all-length order (set_at idx result results) w'
            ∙ length-set_at idx result results)
  ]

  module _
      (fails : (i : ℕ) (r : Retriever o) (w : o.W)
        → get_elem? rs i ≡ some r
        → (e : GoError) × ((search_one o hooks meta mode query r w).0.err ≡ some e)) where
    -- An index that has no retriever says nothing of a slot.
    skipped :
        (idx i : ℕ) (order : List ℕ) (results : List (RetrieverResult o))
        → get_elem? rs idx ≡ none
        → i < length rs
        → (has_index i (idx ∷ order) ≡ true) ⊎ FailedAt o results i
        → (has_index i order ≡ true) ⊎ FailedAt o results i
    skipped idx i order results outside lt (inr f) = inr f
    skipped idx i order results outside lt (inl q) =
        inl (ground (arith, nat_beq_iff idx i, none_bound rs idx outside))

    -- The slot that was just written holds a failure, the others what they held.
    written :
        (idx i : ℕ) (order : List ℕ) (results : List (RetrieverResult o)) (r : Retriever o)
        (w : o.W)
        → get_elem? rs idx ≡ some r
        → idx < length results
        → (has_index i (idx ∷ order) ≡ true) ⊎ FailedAt o results i
        → (has_index i order ≡ true)
          ⊎ FailedAt o (set_at idx (search_one o hooks meta mode query r w).0 results) i
    written idx i order results r w found lt q =
        let result = (search_one o hooks meta mode query r w).0 in
        let slot = get_elem?-set_at idx i result results lt in
        let (e, bad) = fails idx r w found in
        elim (Bool-cases (nat_beq idx i)) [
          | inl here_ ↦ inr (
            result,
            e,
            slot ∙ ap (λ (b : Bool). if b then some result else get_elem? results i) here_,
            bad,
          )
          | inr other ↦ elim q [
            | inl later ↦ inl (ground (arith, other, later))
            | inr (res, e', there, bad') ↦ inr (
              res,
              e',
              slot
                  ∙ ap (λ (b : Bool). if b then some result else get_elem? results i) other
                  ∙ there,
              bad',
            )
          ]
        ]

    search_all-FailedAt :
        (order : List ℕ) (results : List (RetrieverResult o)) (w : o.W) (i : ℕ)
        → length results ≡ length rs
        → i < length rs
        → (has_index i order ≡ true) ⊎ FailedAt o results i
        → FailedAt o (search_all o hooks meta mode query rs order results w).0 i
    unfolding search_all
    search_all-FailedAt [] results w i same lt (inl q) = cc
    search_all-FailedAt [] results w i same lt (inr f) = f
    search_all-FailedAt (idx ∷ order) results w i same lt q =
        elim (Option-cases (get_elem? rs idx)) [
          | inl outside ↦
              rw (outside, search_all)
                (search_all-FailedAt order results w i same lt
                  (skipped idx i order results outside lt q))
          | inr (r, found) ↦
              let (result, w') = search_one o hooks meta mode query r w in
              rw (found, search_all)
                (search_all-FailedAt order (set_at idx result results) w' i
                  (length-set_at idx result results ∙ same) lt
                  (written idx i order results r w found
                    (omega (arith, get_elem?_bound rs idx r found)) q))
        ]

module _ (o : Outside) (hooks : List (HookGroup (payloads o))) (meta : RunMeta)
    (mode : RetrieverMode) (query : String) where
  -- Where the search of every retriever fails, whenever it is made, and each goroutine runs,
  -- ExecuteRetrievers still gives no error: it gives the context of no document, and counts every
  -- search as failed.
  pub all_fail_without_error :
      (rs : List (Retriever o)) (order : List ℕ) (w : o.W)
      → ((i : ℕ) (r : Retriever o) (w : o.W)
          → get_elem? rs i ≡ some r
          → (e : GoError) × ((search_one o hooks meta mode query r w).0.err ≡ some e))
      → ((i : ℕ) → i < length rs → has_index i order ≡ true)
      → (s : Searched) × ((execute_retrievers o hooks meta mode query rs order w).0 ≡ inl s)
        × (s.total ≡ length rs)
        × (s.failed ≡ length rs)
        × ((s.context ≡ "") ⊎ (s.context ≡ o.trim ""))
  unfolding execute_retrievers
  all_fail_without_error [] order w fails each =
      (record { context = ""; total = 0; failed = 0 }, refl, refl, refl, inl refl)
  all_fail_without_error (r ∷ rs) order w fails each =
      let n = length (r ∷ rs) in
      let start = replicate n (zero_result o) in
      let results = (search_all o hooks meta mode query (r ∷ rs) order start w).0 in
      let long : length results ≡ n =
        search_all-length o hooks meta mode query (r ∷ rs) order start w
        ∙ length-replicate n (zero_result o) in
      let none_left : combine o (ltb 1 n) results ≡ ("", length results) =
        combine_failed o (ltb 1 n) results λ i lt.
          search_all-FailedAt o hooks meta mode query (r ∷ rs) fails order start w i
            (length-replicate n (zero_result o)) (omega (arith, long))
            (inl (each i (omega (arith, long)))) in
      (
        record {
          context = o.trim (combine o (ltb 1 n) results).0;
          total = n;
          failed = (combine o (ltb 1 n) results).1;
        },
        refl,
        refl,
        ap (λ (p : String × ℕ). p.1) none_left ∙ long,
        inr (ap (λ (p : String × ℕ). o.trim p.0) none_left),
      )

  -- Whatever fails, ExecuteRetrievers gives a result and no error; it counts every retriever, and as
  -- failed at most all of them.
  pub execute_retrievers_counts :
      (rs : List (Retriever o)) (order : List ℕ) (w : o.W)
      → (s : Searched) × ((execute_retrievers o hooks meta mode query rs order w).0 ≡ inl s)
        × (s.total ≡ length rs)
        × (s.failed ≤ s.total)
  unfolding execute_retrievers
  execute_retrievers_counts [] order w =
      (record { context = ""; total = 0; failed = 0 }, refl, refl, omega arith)
  execute_retrievers_counts (r ∷ rs) order w =
      let n = length (r ∷ rs) in
      let start = replicate n (zero_result o) in
      let results = (search_all o hooks meta mode query (r ∷ rs) order start w).0 in
      let long : length results ≡ n =
        search_all-length o hooks meta mode query (r ∷ rs) order start w
        ∙ length-replicate n (zero_result o) in
      (
        record {
          context = o.trim (combine o (ltb 1 n) results).0;
          total = n;
          failed = (combine o (ltb 1 n) results).1;
        },
        refl,
        refl,
        omega (arith, combine-le o (ltb 1 n) results, long),
      )
