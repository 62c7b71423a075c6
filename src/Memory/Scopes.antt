-- ===== src/Memory/Scopes.antt =====
-- The flat form of a memory scope, ScopeMetadata of pkg/memory/config.go, and the tags that Resolve
-- puts into a scope.
use agent_sdk_go.Prelude.{
  Bool, true, false, ◌||◌, Option, none, some, [], ◌∷◌, String, string_eq, ◌==◌, beq_iff, ◌≡◌, refl,
  if◌then◌else◌, arith,
}
use agent_sdk_go.Prelude.GoMap
use agent_sdk_go.Prelude.GoMap.{GoMap}
use agent_sdk_go.Loop.{MemoryScope}
use agent_sdk_go.Memory.{copy_tags, put_field, scope_metadata}

abbrev pub reserved : String → Bool
reserved k = (k == "user_id") || (k == "tenant_id") || (k == "agent_id")

abbrev or_else : Option String → Option String → Option String
or_else (some v) o = some v
or_else none o = o

abbrev field : String → Option String
field value = if value == "" then none else some value

copy_tags-lookup :
    (tags out : GoMap String String) (k : String)
    → GoMap.UniqueKeys tags
    → GoMap.lookup k (copy_tags tags out) ≡ (
        if reserved k
        then GoMap.lookup k out
        else or_else (GoMap.lookup k tags) (GoMap.lookup k out))
unfolding copy_tags GoMap.lookup
copy_tags-lookup [] out k u = ground arith
copy_tags-lookup ((j, v) ∷ tags) out k (fresh, u) = ground (
  arith,
  copy_tags-lookup tags (if reserved j then out else GoMap.insert j v out) k u,
  GoMap.lookup-insert j k v out,
  beq_iff j k,
  GoMap.lookup_of_has_key j tags fresh,
)

beq_sym : (a b : String) → (a == b) ≡ (b == a)
beq_sym a b = ground (arith, beq_iff a b, beq_iff b a)

-- No text is two of the reserved keys.
user_or_tenant : (k : String) → k == "user_id" ≡ true → k == "tenant_id" ≡ false
user_or_tenant k e = rw ((beq_iff k "user_id").0 e) refl

user_or_agent : (k : String) → k == "user_id" ≡ true → k == "agent_id" ≡ false
user_or_agent k e = rw ((beq_iff k "user_id").0 e) refl

tenant_or_agent : (k : String) → k == "tenant_id" ≡ true → k == "agent_id" ≡ false
tenant_or_agent k e = rw ((beq_iff k "tenant_id").0 e) refl

put_field-lookup :
    (key value k : String) (out : GoMap String String)
    → GoMap.lookup k (put_field key value out)
      ≡ (if key == k then or_else (field value) (GoMap.lookup k out) else GoMap.lookup k out)
put_field-lookup key value k out = ground (arith, GoMap.lookup-insert key k value out)

abbrev tags_of : MemoryScope → GoMap String String
tags_of s = elim s.tags [ none ↦ [] | some m ↦ m ]

-- The flat form of a scope has under the three reserved keys exactly the scope's fields that are not
-- empty, whatever its tags are, and under every other key what the tags have there.
scope_metadata_lem :
    (s : MemoryScope) (k : String)
    → GoMap.UniqueKeys (tags_of s)
    → GoMap.lookup k (scope_metadata s) ≡ (
        if k == "user_id"
        then field s.user_id
        else if k == "tenant_id"
        then field s.tenant_id
        else if k == "agent_id"
        then field s.agent_id
        else GoMap.lookup k (tags_of s))
unfolding scope_metadata GoMap.lookup
scope_metadata_lem s k u =
    let tags = copy_tags (tags_of s) [] in
    let with_user = put_field "user_id" s.user_id tags in
    let with_tenant = put_field "tenant_id" s.tenant_id with_user in
    ground (
      arith,
      put_field-lookup "agent_id" s.agent_id k with_tenant,
      put_field-lookup "tenant_id" s.tenant_id k with_user,
      put_field-lookup "user_id" s.user_id k tags,
      copy_tags-lookup (tags_of s) [] k u,
      beq_sym k "user_id",
      beq_sym k "tenant_id",
      beq_sym k "agent_id",
      user_or_tenant k,
      user_or_agent k,
      tenant_or_agent k,
    )
