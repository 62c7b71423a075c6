-- ===== src/Base/Memories.antt =====
-- Long-term memory at run time: internal/runtime/base/memory.go, and the recall of
-- internal/runtime/base/runtime.go.
mod Examples
pub mod Stored
pub mod Extraction
pub mod Turns
use Prim.Native.String.{◌++◌ as str_append}
use agent_sdk_go.Prelude.{
  ℕ, suc, ◌+◌, Bool, true, false, not, ◌&&◌, Option, none, some, List, [], ◌∷◌, ◌++◌, String,
  string_eq, ◌==◌, ◌⊎◌, inl, inr, if◌then◌else◌, if_nil,
}
use agent_sdk_go.Prelude.GoMap
use agent_sdk_go.Agent.{Message, MessageRole, user, assistant, GoError}
use agent_sdk_go.Hooks.{
  RunMeta, HookGroup, MemoryLoadCall, MemoryStoreCall, run_before_memory_load,
  run_after_memory_load, run_before_memory_store, run_after_memory_store,
}
use agent_sdk_go.Loop.{MemoryScope, Searched}
use agent_sdk_go.Memory.{
  MemoryHost, MemoryError, MemoryConfig, LoadMemoryOptions, StoreMode, on_demand, always,
  resolve_kind, expires_at_for_kind, load_options, resolve,
}
use agent_sdk_go.Base.{Outside, Args, MemoryRecord, payloads}

-- interfaces.MemoryEntry, as far as the runtime reads it.
pub record MemoryEntry (Float : Type 0) : Type 0 where
  pub id : String
  pub text : String
  pub kind : String
  pub score : Float

-- interfaces.Memory: Store with the id of WithMemoryID, and Load with the options as they were set.
pub record MemoryBackend (o : Outside) : Type 0 where
  pub store : MemoryScope → MemoryRecord o.Time → Option String → o.W → (String ⊎ GoError) × o.W
  pub load :
      MemoryScope
      → String
      → (limit : ℕ) (min_score : Option o.Float) (kinds : List String) → o.W
      → (List (MemoryEntry o.Float) ⊎ GoError) × o.W

-- memory.ExtractFunc
abbrev pub ExtractFunc : Outside → Type 0
ExtractFunc o = List (Message (Args o)) → o.W → (List (MemoryRecord o.Time) ⊎ GoError) × o.W

abbrev pub memory_host : Outside → MemoryHost
memory_host o = record {
  Ctx = o.Ctx;
  Float = o.Float;
  Time = o.Time;
  Backend = MemoryBackend o;
  Extract = ExtractFunc o;
  is_positive = o.positive;
  is_negative = o.is_negative;
  above_one = o.above_one;
  default_dedup_min_score = o.default_dedup_min_score;
  plus = o.plus;
  context_string = o.context_string;
  ttl_decision = o.ttl_decision;
  ttl_note = o.ttl_note;
}

-- What the runtime holds where memory is configured: the configuration with its backend, and the
-- hooks.
pub record MemoryRuntime (o : Outside) : Type 0 where
  pub cfg : MemoryConfig (memory_host o)
  pub backend : MemoryBackend o
  pub hooks : List (HookGroup (payloads o))
  pub error_of : MemoryError → GoError

module _ (o : Outside) (rt : MemoryRuntime o) where
  open o use {trim}

  -- dedupStoreOptions: the id to write over, if one is found.
  unfoldable pub dedup_store_options : MemoryScope → String → o.W → (Option String ⊎ GoError) × o.W
  dedup_store_options scope text w =
      let min_score = rt.cfg.store.dedup_min_score in
      let (r, w') = rt.backend.load scope text 1 (some min_score) [] w in
      let matched : (Option String ⊎ GoError) × o.W = elim r [
        | inr e ↦ (inr e, w')
        | inl matches ↦ elim matches [ [] ↦ (inl none, w') | m ∷ ms ↦ (inl (some m.id), w') ]
      ] in
      if not (o.positive min_score) then (inl none, w) else matched

  -- From the id on: the record, the backend, and the hooks after it.
  unfoldable pub write_record :
      RunMeta → MemoryScope → MemoryRecord o.Time → Option String → o.W → Option GoError × o.W
  write_record meta scope rec id w =
      let (r, w') = rt.backend.store scope rec id w in
      elim r [
        | inr e ↦ (some (o.wrap "memory store" e), w')
        | inl stored ↦
            run_after_memory_store rt.hooks meta
              (record { scope = scope; entry = rec; id = stored }) w'
      ]

  -- The record that is written.
  unfoldable pub final_record :
      MemoryRecord o.Time → String → String → o.W → MemoryRecord o.Time × o.W
  final_record rec text kind w =
      let (now, w') = o.now w in
      (
        record {
          text = text;
          kind = kind;
          metadata = rec.metadata;
          expires_at = expires_at_for_kind (memory_host o) rt.cfg kind now;
        },
        w',
      )

  -- From the kind on.
  unfoldable pub store_kinded :
      RunMeta
      → MemoryScope
      → MemoryStoreCall (payloads o)
      → String
      → String
      → o.W
      → Option GoError × o.W
  unfolding dedup_store_options write_record final_record
  store_kinded meta scope call text kind w =
      let hook_id = trim call.id in
      let (found, w') = dedup_store_options scope text w in
      let (rec, w1) = final_record call.entry text kind w in
      let (rec', w2) = final_record call.entry text kind w' in
      if not (hook_id == "") then write_record meta scope rec (some hook_id) w1 else elim found [
        | inr e ↦ (some (o.wrap "memory store: dedup" e), w')
        | inl id ↦ write_record meta scope rec' id w2
      ]

  -- From the answer of the hooks on.
  unfoldable pub store_hooked :
      RunMeta → MemoryScope → MemoryStoreCall (payloads o) → o.W → Option GoError × o.W
  unfolding store_kinded
  store_hooked meta scope call w =
      let text = trim call.entry.text in
      let stored : Option GoError × o.W =
        elim (resolve_kind (memory_host o) rt.cfg.store call.entry.kind) [
          | inr e ↦ (some (o.wrap "memory store" (rt.error_of e)), w)
          | inl kind ↦ store_kinded meta scope call text kind w
        ] in
      if text == "" then (none, w) else stored

  -- storeRecord
  unfoldable pub store_record :
      RunMeta → MemoryScope → MemoryRecord o.Time → o.W → Option GoError × o.W
  unfolding store_hooked
  store_record meta scope rec w =
      let (r, w') =
        run_before_memory_store rt.hooks meta (record { scope = scope; entry = rec; id = "" }) w in
      elim r [ inr e ↦ (some e, w') | inl call ↦ store_hooked meta scope call w' ]

  -- The loop of StoreMemoryRecords.
  unfoldable pub store_memory_records :
      RunMeta → MemoryScope → List (MemoryRecord o.Time) → o.W → Option GoError × o.W
  unfolding store_record
  store_memory_records meta scope [] w = (none, w)
  store_memory_records meta scope (rec ∷ records) w =
      let (err, w') = store_record meta scope rec w in
      let rest = store_memory_records meta scope records w' in if_nil err rest λ e. (some e, w')

  -- loadOptionsFromCall
  unfoldable pub load_options_from_call :
      MemoryLoadCall (payloads o) → Bool → LoadMemoryOptions (memory_host o)
  load_options_from_call call with_min_score = record {
    limit = call.limit;
    min_score = if with_min_score && o.positive call.min_score then some call.min_score else none;
    kinds = call.kinds;
  }

  -- FormatMemoryEntries, from an index on.
  unfoldable pub format_memory_entries : ℕ → List (MemoryEntry o.Float) → String
  format_memory_entries i [] = ""
  format_memory_entries i (e ∷ entries) =
      str_append (o.format_entry (i + 1) e.text e.kind e.score)
        (format_memory_entries (suc i) entries)

  abbrev load_with :
      MemoryScope
      → String
      → LoadMemoryOptions (memory_host o)
      → o.W
      → (List (MemoryEntry o.Float) ⊎ GoError) × o.W
  load_with scope query opts w = rt.backend.load scope query opts.limit opts.min_score opts.kinds w

  -- From the loaded entries on.
  unfoldable pub finish_recall :
      RunMeta
      → MemoryLoadCall (payloads o)
      → List (MemoryEntry o.Float)
      → o.W
      → (Searched ⊎ GoError) × o.W
  unfolding format_memory_entries
  finish_recall meta call entries w =
      let (r, w') =
        run_after_memory_load rt.hooks meta call (trim (format_memory_entries 0 entries)) w in
      elim r [
        | inr e ↦ (inr e, w')
        | inl context ↦ (inl (record { context = context; total = 1; failed = 0 }), w')
      ]

  -- The second, recency load.
  unfoldable pub recall_recent :
      RunMeta → MemoryLoadCall (payloads o) → o.W → (Searched ⊎ GoError) × o.W
  unfolding finish_recall load_options
  recall_recent meta call w =
      let (r, w') = load_with call.scope "" (load_options (memory_host o) rt.cfg.recall false) w in
      elim r [
        | inr e ↦ (inr (o.wrap "memory recall" e), w')
        | inl entries ↦ finish_recall meta call entries w'
      ]

  -- The first load.
  unfoldable pub recall_hooked :
      RunMeta → MemoryLoadCall (payloads o) → o.W → (Searched ⊎ GoError) × o.W
  unfolding finish_recall recall_recent load_options_from_call
  recall_hooked meta call w =
      let (r, w') = load_with call.scope call.query (load_options_from_call call true) w in
      elim r [
        | inr e ↦ (inr (o.wrap "memory recall" e), w')
        | inl entries ↦ elim entries [
          | [] ↦
              if not (trim call.query == "")
              then recall_recent meta call w'
              else finish_recall meta call [] w'
          | e ∷ es ↦ finish_recall meta call (e ∷ es) w'
        ]
      ]

  -- ExecuteMemoryRecall, where memory is configured.
  unfoldable pub execute_memory_recall :
      RunMeta → MemoryScope → String → o.W → (Searched ⊎ GoError) × o.W
  unfolding recall_hooked
  execute_memory_recall meta scope query w =
      let call : MemoryLoadCall (payloads o) = record {
        scope = scope;
        query = query;
        limit = rt.cfg.recall.limit;
        min_score = rt.cfg.recall.min_score;
        kinds = rt.cfg.recall.kinds;
      } in
      let (r, w') = run_before_memory_load rt.hooks meta call w in
      elim r [ inr e ↦ (inr e, w') | inl call' ↦ recall_hooked meta call' w' ]
