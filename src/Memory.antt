-- ===== src/Memory.antt =====
-- The configuration of long-term memory: pkg/memory/config.go and defaults.go. Nil functions and nil
-- interfaces are `none`, nil maps and slices are empty.
mod Examples
pub mod Policy
pub mod Scopes
use agent_sdk_go.Prelude.{
  ℕ, Bool, true, false, not, ◌&&◌, ◌||◌, Option, none, some, List, [], ◌∷◌, String, string_eq, ◌==◌,
  ◌⊎◌, inl, inr, if◌then◌else◌, if_nil, lt64, le64,
}
use agent_sdk_go.Prelude.GoMap
use agent_sdk_go.Prelude.GoMap.{GoMap}
use agent_sdk_go.Loop.{MemoryScope}

-- memory.StoreMode; `no_mode` is the empty text, `unknown_mode` any other.
pub data StoreMode : Type 0 where
  on_demand always no_mode unknown_mode : StoreMode

-- The errors of the configuration.
pub data MemoryError : Type 0 where
  kind_not_allowed : (kind : String) → MemoryError
  resolver_missing : (key : String) → MemoryError
  invalid_mode extract_on_demand dedup_out_of_range memory_required : MemoryError

-- Contexts, floats with the comparisons that the source makes, times and durations from outside, and
-- the types of a memory backend and of an extractor. `context_string` reads a key of a context.
pub record MemoryHost : Type 1 where
  pub Ctx : Type 0
  pub Float : Type 0
  pub Time : Type 0
  pub Backend : Type 0
  pub Extract : Type 0
  pub is_positive : Float → Bool
  pub is_negative : Float → Bool
  pub above_one : Float → Bool
  pub default_dedup_min_score : Float
  pub plus : Time → ℕ → Time
  pub context_string : String → Ctx → String
  pub ttl_decision : ℕ
  pub ttl_note : ℕ

module _ (h : MemoryHost) where
  open h use {Ctx, Float, Time, Backend, Extract, is_positive, is_negative, above_one}

  pub record StoreConfig : Type 0 where
    pub mode : StoreMode
    pub dedup_min_score : Float
    pub extract : Option Extract
    pub default_kind : String
    pub allowed_kinds : List String

  abbrev pub ScopeResolver : Type 0
  ScopeResolver = Ctx → String

  pub record ScopeConfig : Type 0 where
    pub tenant_id_resolver : Option ScopeResolver
    pub user_id_resolver : Option ScopeResolver
    pub agent_id_resolver : Option ScopeResolver
    pub extra_keys : List String
    pub tag_resolvers : GoMap String (Option ScopeResolver)

  pub record RecallConfig : Type 0 where
    pub enabled : Bool
    pub limit : ℕ
    pub min_score : Float
    pub kinds : List String

  -- memory.Config; durations are 64-bit patterns.
  pub record MemoryConfig : Type 0 where
    pub memory : Option Backend
    pub scope_config : ScopeConfig
    pub ttl_policy : GoMap String ℕ
    pub store : StoreConfig
    pub recall : RecallConfig

  -- interfaces.LoadMemoryOptions, as the options of a call leave them; an option that is not given is
  -- `none`.
  pub record LoadMemoryOptions : Type 0 where
    pub limit : ℕ
    pub min_score : Option Float
    pub kinds : List String

  -- TTLPolicy.ExpiresAt; `none` is the zero time.
  unfoldable pub expires_at : GoMap String ℕ → String → Time → Option Time
  expires_at policy kind now = elim (GoMap.lookup kind policy) [
    | none ↦ none
    | some ttl ↦ if le64 ttl 0 then none else some (h.plus now ttl)
  ]

  -- The kind that a record gets before the list of allowed kinds is asked.
  abbrev pub effective_kind : StoreConfig → String → String
  effective_kind s kind =
      let kind' = if kind == "" then s.default_kind else kind in
      if kind' == "" then "note" else kind'

  -- for _, allowed := range s.AllowedKinds
  unfoldable pub among : String → List String → Bool
  among kind [] = false
  among kind (allowed ∷ kinds) = (kind == allowed) || among kind kinds

  -- ResolveKind once the kind is not empty.
  unfoldable pub resolve_allowed : String → List String → String ⊎ MemoryError
  unfolding among
  resolve_allowed kind [] = inl kind
  resolve_allowed kind (k ∷ ks) =
      if among kind (k ∷ ks) then inl kind else inr (kind_not_allowed kind)

  -- StoreConfig.ResolveKind
  unfoldable pub resolve_kind : StoreConfig → String → String ⊎ MemoryError
  unfolding resolve_allowed
  resolve_kind s kind = resolve_allowed (effective_kind s kind) s.allowed_kinds

  abbrev pub is_empty : {A : Type 0} → List A → Bool
  is_empty [] = true
  is_empty (x ∷ xs) = false

  abbrev pub mode_or_default : StoreMode → StoreMode
  mode_or_default no_mode = on_demand
  mode_or_default mode = mode

  -- StoreConfig.WithDefaults
  unfoldable pub store_with_defaults : StoreConfig → StoreConfig
  store_with_defaults s = record s {
    mode = mode_or_default s.mode;
    dedup_min_score =
        if not (is_positive s.dedup_min_score)
        then h.default_dedup_min_score
        else s.dedup_min_score;
    default_kind =
        if (s.default_kind == "") && is_empty s.allowed_kinds then "note" else s.default_kind;
  }

  -- The checks after the mode's.
  unfoldable pub validate_rest : StoreConfig → Bool → Option MemoryError
  validate_rest s is_on_demand =
      let range : Option MemoryError =
        if is_negative s.dedup_min_score || above_one s.dedup_min_score
        then some dedup_out_of_range
        else none in
      elim s.extract [
        | none ↦ range
        | some f ↦ if is_on_demand then some extract_on_demand else range
      ]

  unfoldable pub validate_mode : StoreConfig → StoreMode → Option MemoryError
  unfolding validate_rest
  validate_mode s on_demand = validate_rest s true
  validate_mode s always = validate_rest s false
  validate_mode s _ = some invalid_mode

  -- StoreConfig.Validate
  unfoldable pub validate_store : StoreConfig → Option MemoryError
  unfolding resolve_kind validate_mode
  validate_store s = elim (resolve_kind s "") [ inr e ↦ some e | inl kind ↦ validate_mode s s.mode ]

  -- c.TagResolvers[key]
  abbrev pub tag_resolver : ScopeConfig → String → Option ScopeResolver
  tag_resolver c key = elim (GoMap.lookup key c.tag_resolvers) [ none ↦ none | some r ↦ r ]

  -- ScopeConfig.Validate, over the keys.
  unfoldable pub validate_keys : ScopeConfig → List String → Option MemoryError
  validate_keys c [] = none
  validate_keys c (key ∷ keys) = elim (tag_resolver c key) [
    | none ↦ some (resolver_missing key)
    | some r ↦ validate_keys c keys
  ]

  -- The loop of ScopeConfig.Resolve over the keys.
  unfoldable pub resolve_tags :
      ScopeConfig → Ctx → List String → GoMap String String → GoMap String String
  resolve_tags c ctx [] tags = tags
  resolve_tags c ctx (key ∷ keys) tags =
      let v : String = elim (tag_resolver c key) [ none ↦ "" | some r ↦ r ctx ] in
      resolve_tags c ctx keys (if v == "" then tags else GoMap.insert key v tags)

  abbrev pub resolved : Option ScopeResolver → Ctx → String
  resolved none ctx = ""
  resolved (some r) ctx = r ctx

  -- ScopeConfig.Resolve
  unfoldable pub resolve : ScopeConfig → Ctx → MemoryScope ⊎ MemoryError
  unfolding validate_keys resolve_tags
  resolve c ctx =
      let tags = resolve_tags c ctx c.extra_keys [] in
      if_nil (validate_keys c c.extra_keys)
        (inl (record {
          tenant_id = resolved c.tenant_id_resolver ctx;
          user_id = resolved c.user_id_resolver ctx;
          agent_id = resolved c.agent_id_resolver ctx;
          tags = if is_empty tags then none else some tags;
        }))
        λ e. inr e

  -- DefaultScopeConfig and DefaultTTLPolicy; the keys of a context are their names.
  abbrev pub default_scope_config : ScopeConfig
  default_scope_config = record {
    tenant_id_resolver = some (h.context_string "memory:tenant_id");
    user_id_resolver = some (h.context_string "memory:user_id");
    agent_id_resolver = some (h.context_string "memory:agent_id");
    extra_keys = [];
    tag_resolvers = [];
  }

  abbrev pub default_ttl_policy : GoMap String ℕ
  default_ttl_policy =
      ("decision", h.ttl_decision)
      ∷ ("fact", 0)
      ∷ ("preference", 0)
      ∷ ("instruction", 0)
      ∷ ("note", h.ttl_note)
      ∷ []

  abbrev pub is_nil : {A : Type 0} → Option A → Bool
  is_nil none = true
  is_nil (some a) = false

  -- Config.WithDefaults
  unfoldable pub with_defaults : MemoryConfig → MemoryConfig
  unfolding store_with_defaults
  with_defaults c = record c {
    scope_config =
        if is_nil c.scope_config.tenant_id_resolver
          && is_nil c.scope_config.user_id_resolver
          && is_nil c.scope_config.agent_id_resolver
          && is_empty c.scope_config.extra_keys
        then default_scope_config
        else c.scope_config;
    ttl_policy = if is_empty c.ttl_policy then default_ttl_policy else c.ttl_policy;
    store = store_with_defaults c.store;
    recall = record c.recall { limit = if le64 c.recall.limit 0 then 10 else c.recall.limit };
  }

  -- Config.Validate
  unfoldable pub validate : MemoryConfig → Option MemoryError
  unfolding validate_store validate_keys
  validate c = elim c.memory [
    | none ↦ some memory_required
    | some m ↦
        if_nil (validate_keys c.scope_config c.scope_config.extra_keys) (validate_store c.store)
          λ e. some e
  ]

  -- Config.ExpiresAtForKind
  unfoldable pub expires_at_for_kind : MemoryConfig → String → Time → Option Time
  unfolding resolve_kind expires_at
  expires_at_for_kind c kind now = elim (resolve_kind c.store kind) [
    | inr e ↦ none
    | inl k ↦ expires_at c.ttl_policy k now
  ]

  -- RecallConfig.loadOptions
  unfoldable pub load_options : RecallConfig → Bool → LoadMemoryOptions
  load_options r with_min_score = record {
    limit = r.limit;
    min_score = if with_min_score && is_positive r.min_score then some r.min_score else none;
    kinds = r.kinds;
  }

-- The first loop of ScopeMetadata.
unfoldable pub copy_tags : GoMap String String → GoMap String String → GoMap String String
copy_tags [] out = out
copy_tags ((k, v) ∷ tags) out =
    let reserved = (k == "user_id") || (k == "tenant_id") || (k == "agent_id") in
    copy_tags tags (if reserved then out else GoMap.insert k v out)

abbrev pub is_ok : {A E : Type 0} → A ⊎ E → Bool
is_ok (inl a) = true
is_ok (inr e) = false

abbrev pub put_field : String → String → GoMap String String → GoMap String String
put_field key value out = if value == "" then out else GoMap.insert key value out

-- ScopeMetadata
unfoldable pub scope_metadata : MemoryScope → GoMap String String
unfolding copy_tags
scope_metadata s =
    let tags : GoMap String String = elim s.tags [ none ↦ [] | some m ↦ m ] in
    put_field "agent_id" s.agent_id
      (put_field "tenant_id" s.tenant_id (put_field "user_id" s.user_id (copy_tags tags [])))
