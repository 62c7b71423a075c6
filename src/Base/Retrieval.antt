-- ===== src/Base/Retrieval.antt =====
-- Retrieval before a run: ExecuteRetrievers of internal/runtime/base/runtime.go, with the hooks around
-- each search. The goroutines are steps in any order.
pub mod Partial
use Prim.Native.String.{◌++◌ as str_append}
use agent_sdk_go.Prelude.{
  ℕ, zero, suc, ◌+◌, Bool, true, false, not, Option, none, some, List, [], ◌∷◌, String, string_eq,
  ◌==◌, ◌⊎◌, inl, inr, if◌then◌else◌, if_nil, length, replicate, get_elem?, ltb,
}
use agent_sdk_go.Agent.{GoError}
use agent_sdk_go.Hooks.{RunMeta, HookGroup, RetrieveCall, run_before_retrieve, run_after_retrieve}
use agent_sdk_go.Loop.{Searched, RetrieverMode}
use agent_sdk_go.Loop.Batch.{set_at}
use agent_sdk_go.Base.{Outside, Document, payloads}

-- interfaces.Retriever
pub record Retriever (o : Outside) : Type 0 where
  pub name : String
  pub search : String → o.W → (List (Document o.Float) ⊎ GoError) × o.W

-- retrieverResult
pub record RetrieverResult (o : Outside) : Type 0 where
  pub name : String
  pub docs : List (Document o.Float)
  pub err : Option GoError

module _ (o : Outside) where
  -- FormatRetrieverDocs, from an index on.
  unfoldable pub format_retriever_docs : ℕ → List (Document o.Float) → String
  format_retriever_docs i [] = ""
  format_retriever_docs i (doc ∷ docs) =
      str_append (o.format_doc (i + 1) doc.content doc.source doc.score)
        (format_retriever_docs (suc i) docs)

  abbrev pub failed_search : String → GoError → RetrieverResult o
  failed_search name e = record { name = name; docs = []; err = some e }

  -- The search and the hooks after it. The documents beside an error are never read.
  unfoldable pub search_hooked :
      List (HookGroup (payloads o))
      → RunMeta
      → Retriever o
      → RetrieveCall
      → o.W
      → RetrieverResult o × o.W
  search_hooked hooks meta r call w =
      let (found, w') = r.search call.query w in
      elim found [
        | inr e ↦ (failed_search r.name e, w')
        | inl docs ↦
            let (hooked, w'') = run_after_retrieve hooks meta call docs w' in
            elim hooked [
              | inr e ↦ (failed_search r.name e, w'')
              | inl docs' ↦ (record { name = r.name; docs = docs'; err = none }, w'')
            ]
      ]

  -- One goroutine.
  unfoldable pub search_one :
      List (HookGroup (payloads o))
      → RunMeta
      → RetrieverMode
      → String
      → Retriever o
      → o.W
      → RetrieverResult o × o.W
  unfolding search_hooked
  search_one hooks meta mode query r w =
      let call : RetrieveCall = record { query = query; mode = mode; retriever_name = r.name } in
      let (hooked, w') = run_before_retrieve hooks meta call w in
      elim hooked [
        | inr e ↦ (failed_search r.name e, w')
        | inl call' ↦ search_hooked hooks meta r call' w'
      ]

  abbrev pub zero_result : RetrieverResult o
  zero_result = record { name = ""; docs = []; err = none }

  -- The goroutines in the order in which they run; each writes its own slot.
  unfoldable pub search_all :
      List (HookGroup (payloads o))
      → RunMeta
      → RetrieverMode
      → String
      → List (Retriever o)
      → List ℕ
      → List (RetrieverResult o)
      → o.W
      → List (RetrieverResult o) × o.W
  unfolding set_at search_one
  search_all hooks meta mode query retrievers [] results w = (results, w)
  search_all hooks meta mode query retrievers (idx ∷ order) results w =
      elim (get_elem? retrievers idx) [
        | none ↦ search_all hooks meta mode query retrievers order results w
        | some r ↦
            let (result, w') = search_one hooks meta mode query r w in
            search_all hooks meta mode query retrievers order (set_at idx result results) w'
      ]

  -- The loop over the results: the text, and the number of failures.
  unfoldable pub combine : Bool → List (RetrieverResult o) → String × ℕ
  unfolding format_retriever_docs
  combine multiple [] = ("", 0)
  combine multiple (res ∷ results) =
      let (text, failed) = combine multiple results in
      let docs = format_retriever_docs 0 res.docs in
      let titled =
        if multiple then str_append (o.sprintf "## %s\n" (res.name ∷ [])) docs else docs in
      let found : String = elim res.docs [ [] ↦ text | d ∷ ds ↦ str_append titled text ] in
      if_nil res.err (found, failed) λ e. (text, failed + 1)

  -- ExecuteRetrievers
  unfoldable pub execute_retrievers :
      List (HookGroup (payloads o))
      → RunMeta
      → RetrieverMode
      → String
      → List (Retriever o)
      → (order : List ℕ) → o.W
      → (Searched ⊎ GoError) × o.W
  unfolding search_all combine
  execute_retrievers hooks meta mode query [] order w =
      (inl (record { context = ""; total = 0; failed = 0 }), w)
  execute_retrievers hooks meta mode query (r ∷ rs) order w =
      let n = length (r ∷ rs) in
      let (results, w') =
        search_all hooks meta mode query (r ∷ rs) order (replicate n zero_result) w in
      let (text, failed) = combine (ltb 1 n) results in
      (inl (record { context = o.trim text; total = n; failed = failed }), w')
