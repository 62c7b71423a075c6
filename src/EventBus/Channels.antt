-- ===== src/EventBus/Channels.antt =====
-- Which channels are open, and what they carry.
use agent_sdk_go.Prelude.{
  ℕ, ◌+◌, ◌≤◌, ◌≡◌, inl, inr, refl, Bool, true, false, none, some, List, [], ◌∷◌, ◌++◌, String,
  string_eq, arith, nat_beq, if◌then◌else◌, Bool-cases, ◌==◌,
}
use agent_sdk_go.Prelude.GoMap
use agent_sdk_go.Prelude.GoMap.{GoMap}
use agent_sdk_go.EventBus.{Inmem, remove_chan, has_chan}

-- How often a channel is listed.
unfoldable pub occurs : ℕ → List ℕ → ℕ
occurs ch [] = 0
occurs ch (x ∷ xs) = (if nat_beq x ch then 1 else 0) + occurs ch xs

unfoldable pub listed : ℕ → GoMap String (List ℕ) → ℕ
listed ch [] = 0
listed ch ((channel, chs) ∷ rest) = occurs ch chs + listed ch rest

abbrev pub bit : Bool → ℕ
bit b = if b then 1 else 0

-- Every channel is listed once while it is open and never afterwards; nothing has panicked.
pub record Tidy (c : Inmem) : Type 0 where
  pub calm : c.panicked ≡ false
  pub live : (ch : ℕ) → listed ch c.subs ≡ bit (c.heap ch).is_open
  pub fresh : (ch : ℕ) → c.next ≤ ch → (c.heap ch).is_open ≡ false

unfoldable pub entry : GoMap String (List ℕ) → String → List ℕ
entry m channel = elim (GoMap.lookup channel m) [ none ↦ [] | some chs ↦ chs ]

entry_head :
    (i channel : String) (xs : List ℕ) (rest : GoMap String (List ℕ))
    → entry ((i, xs) ∷ rest) channel ≡ (if i == channel then xs else entry rest channel)
unfolding entry GoMap.lookup
entry_head i channel xs rest = elim (Bool-cases (i == channel)) [
  | inl same ↦ rw (same, entry) refl
  | inr other ↦ rw (other, entry) refl
]

pub listed-insert :
    (ch : ℕ) (channel : String) (chs : List ℕ) (m : GoMap String (List ℕ))
    → listed ch (GoMap.insert channel chs m) + occurs ch (entry m channel)
      ≡ listed ch m + occurs ch chs
unfolding listed entry GoMap.insert GoMap.lookup occurs
listed-insert ch channel chs [] = omega arith
listed-insert ch channel chs ((i, xs) ∷ rest) =
    let later = listed-insert ch channel chs rest in
    elim (Bool-cases (i == channel)) [
      | inl same ↦ rw (entry_head i channel xs rest, same) (omega arith)
      | inr other ↦ rw (entry_head i channel xs rest, other) (omega (arith, later))
    ]

pub occurs-append : (ch : ℕ) (xs ys : List ℕ) → occurs ch (xs ++ ys) ≡ occurs ch xs + occurs ch ys
unfolding occurs
occurs-append ch [] ys = omega arith
occurs-append ch (x ∷ xs) ys = omega (arith, occurs-append ch xs ys)

pub occurs-remove :
    (ch other : ℕ) (xs : List ℕ)
    → has_chan ch xs ≡ true
    → occurs other (remove_chan ch xs) + (if nat_beq ch other then 1 else 0) ≡ occurs other xs
unfolding occurs has_chan remove_chan
occurs-remove ch other [] has = cc
occurs-remove ch other (x ∷ xs) has = elim (Bool-cases (nat_beq x ch)) [
  | inl same ↦ ground arith
  | inr different ↦ let later = occurs-remove ch other xs (ground arith) in ground (arith, later)
]

pub has-occurs : (ch : ℕ) (xs : List ℕ) → has_chan ch xs ≡ true → 1 ≤ occurs ch xs
unfolding occurs has_chan
has-occurs ch [] has = cc
has-occurs ch (x ∷ xs) has = elim (Bool-cases (nat_beq x ch)) [
  | inl same ↦ ground arith
  | inr different ↦ let later = has-occurs ch xs (ground arith) in ground (arith, later)
]

pub entry-listed :
    (ch : ℕ) (channel : String) (m : GoMap String (List ℕ))
    → occurs ch (entry m channel) ≤ listed ch m
unfolding listed entry GoMap.lookup occurs
entry-listed ch channel [] = ground arith
entry-listed ch channel ((i, xs) ∷ rest) =
    let later = entry-listed ch channel rest in
    elim (Bool-cases (i == channel)) [
      | inl same ↦ rw (entry_head i channel xs rest, same) (omega arith)
      | inr other ↦ rw (entry_head i channel xs rest, other) (omega (arith, later))
    ]
