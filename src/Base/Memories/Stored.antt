-- ===== src/Base/Memories/Stored.antt =====
-- What reaches the memory backend when records are stored: StoreMemoryRecords of
-- internal/runtime/base/memory.go.
use agent_sdk_go.Prelude.{
  ℕ, not, Option, some, List, [], ◌∷◌, String, string_eq, ◌==◌, beq_iff, inl, inr, ◌≡◌, ◌≢◌,
  if_nil_keeps, if_keeps, Bool-cases, ⊎-cases, arith,
}
use agent_sdk_go.Agent.{GoError}
use agent_sdk_go.Hooks.{RunMeta, MemoryStoreCall, run_before_memory_store, run_after_memory_store}
use agent_sdk_go.Loop.{MemoryScope}
use agent_sdk_go.Memory.{resolve_kind, StoreConfig}
use agent_sdk_go.Memory.Policy.{resolve_kind_iff}
use agent_sdk_go.Base.{Outside, MemoryRecord, payloads}
use agent_sdk_go.Base.Memories.{
  MemoryRuntime, memory_host, dedup_store_options, write_record, final_record, store_kinded,
  store_hooked, store_record, store_memory_records,
}

-- Resolving a kind again changes nothing.
resolve_kind_twice :
    (o : Outside) (s : StoreConfig (memory_host o)) (kind k : String)
    → resolve_kind (memory_host o) s kind ≡ inl k
    → resolve_kind (memory_host o) s k ≡ inl k
resolve_kind_twice o s kind k e =
    let parts = (resolve_kind_iff (memory_host o) s kind k).0 e in
    (resolve_kind_iff (memory_host o) s k k).1
      (ground (arith, parts.1, beq_iff k ""), parts.1, parts.2)

module _ (o : Outside) (rt : MemoryRuntime o) where
  open o use {trim}

  -- A record that the backend may be given: with a text, and a kind that the policy allows as it is.
  pub record IsStorable (rec : MemoryRecord o.Time) : Type 0 where
    pub has_text : rec.text ≢ ""
    pub allowed : resolve_kind (memory_host o) rt.cfg.store rec.kind ≡ inl rec.kind

  module _ (scope : MemoryScope) (meta : RunMeta) (P : o.W → Type 0)
      (before_keeps : (call : MemoryStoreCall (payloads o)) (w : o.W)
        → P w
        → P (run_before_memory_store rt.hooks meta call w).1)
      (after_keeps : (call : MemoryStoreCall (payloads o)) (w : o.W)
        → P w
        → P (run_after_memory_store rt.hooks meta call w).1)
      (now_keeps : (w : o.W) → P w → P (o.now w).1)
      (load_keeps : (query : String) (limit : ℕ) (score : Option o.Float) (kinds : List String)
          (w : o.W)
        → P w
        → P (rt.backend.load scope query limit score kinds w).1)
      (store_keeps : (rec : MemoryRecord o.Time) (id : Option String) (w : o.W)
        → IsStorable rec
        → P w
        → P (rt.backend.store scope rec id w).1) where
    abbrev Kept : {A : Type 0} → A × o.W → Type 0
    Kept r = P r.1

    write_record_keeps :
        (rec : MemoryRecord o.Time) (id : Option String) (w : o.W)
        → IsStorable rec
        → P w
        → Kept (write_record o rt meta scope rec id w)
    unfolding write_record
    write_record_keeps rec id w ok h =
        let (r, w') = rt.backend.store scope rec id w in
        let h' : P w' = store_keeps rec id w ok h in
        elim (⊎-cases r) [
          | inr (e, bad) ↦ rw (bad, write_record) h'
          | inl (stored, good) ↦
              rw (good, write_record)
                (after_keeps (record { scope = scope; entry = rec; id = stored }) w' h')
        ]

    dedup_keeps : (text : String) (w : o.W) → P w → Kept (dedup_store_options o rt scope text w)
    unfolding dedup_store_options
    dedup_keeps text w h =
        let loaded = load_keeps text 1 (some rt.cfg.store.dedup_min_score) [] w h in
        ground (arith, loaded)

    store_kinded_keeps :
        (call : MemoryStoreCall (payloads o)) (text kind : String) (w : o.W)
        → text ≢ ""
        → resolve_kind (memory_host o) rt.cfg.store kind ≡ inl kind
        → P w
        → Kept (store_kinded o rt meta scope call text kind w)
    unfolding store_kinded final_record
    store_kinded_keeps call text kind w full allowed h =
        let (found, w') = dedup_store_options o rt scope text w in
        let (rec, w1) = final_record o rt call.entry text kind w in
        let (rec', w2) = final_record o rt call.entry text kind w' in
        let h' : P w' = dedup_keeps text w h in
        let ok : IsStorable rec = record { has_text = full; allowed = allowed } in
        let ok' : IsStorable rec' = record { has_text = full; allowed = allowed } in
        if_keeps (λ (r : Option GoError × o.W). P r.1) (not (trim call.id == ""))
          (write_record_keeps rec (some (trim call.id)) w1 ok (now_keeps w h))
          (elim (⊎-cases found) [
            | inr (e, bad) ↦ rw bad h'
            | inl (id, good) ↦ rw good (write_record_keeps rec' id w2 ok' (now_keeps w' h'))
          ])

    store_hooked_keeps :
        (call : MemoryStoreCall (payloads o)) (w : o.W)
        → P w
        → Kept (store_hooked o rt meta scope call w)
    unfolding store_hooked
    store_hooked_keeps call w h = elim (Bool-cases (trim call.entry.text == "")) [
      | inl blank ↦ rw (blank, store_hooked) h
      | inr full ↦ elim (⊎-cases (resolve_kind (memory_host o) rt.cfg.store call.entry.kind)) [
        | inr (e, bad) ↦ rw (full, store_hooked, bad) h
        | inl (kind, good) ↦
            rw (full, store_hooked, good)
              (store_kinded_keeps call (trim call.entry.text) kind w
                (λ q. cc ((beq_iff (trim call.entry.text) "").1 q))
                (resolve_kind_twice o rt.cfg.store call.entry.kind kind good) h)
      ]
    ]

    store_record_keeps :
        (rec : MemoryRecord o.Time) (w : o.W) → P w → Kept (store_record o rt meta scope rec w)
    unfolding store_record
    store_record_keeps rec w h =
        let call : MemoryStoreCall (payloads o) = record { scope = scope; entry = rec; id = "" } in
        let (r, w') = run_before_memory_store rt.hooks meta call w in
        let h' : P w' = before_keeps call w h in
        elim (⊎-cases r) [
          | inr (e, bad) ↦ rw (bad, store_record) h'
          | inl (call', good) ↦ rw (good, store_record) (store_hooked_keeps call' w' h')
        ]

    -- The backend's Store is called, whatever the hooks return, only in the scope of the call and with
    -- records that have a text and a kind that ResolveKind leaves as it is: every property of the world
    -- that hooks, the clock, searches in that scope and such calls of Store keep, StoreMemoryRecords
    -- keeps, on every branch.
    pub store_memory_records_keeps :
        (records : List (MemoryRecord o.Time)) (w : o.W)
        → P w
        → P (store_memory_records o rt meta scope records w).1
    unfolding store_memory_records
    store_memory_records_keeps [] w h = h
    store_memory_records_keeps (rec ∷ records) w h =
        let (err, w') = store_record o rt meta scope rec w in
        let h' : P w' = store_record_keeps rec w h in
        if_nil_keeps (λ (r : Option GoError × o.W). P r.1) err
          (store_memory_records_keeps records w' h') λ e. h'
