-- ===== src/Config/Names/Accepted.antt =====
-- What a sanitized name is.
use agent_sdk_go.Prelude.{
  ℕ, suc, ◌+◌, ◌≤◌, ◌<◌, ◌≡◌, ◌⊎◌, ◌↔◌, inl, inr, refl, sym, ◌∙◌, true, false, none, List, [], ◌∷◌,
  ◌++◌, arith, if_keeps, ltb, leb, nat_beq, length, All, Bool-cases, length-append, append_nil,
  append_snoc, subst,
}
use agent_sdk_go.Config.Names.{
  is_kept, is_allowed, is_blank, hyphen, written, strip, sanitize_name, byte_len, rune_len,
  check_runes, validate_agent_name, max_agent_name_len,
}

-- A name that sanitizeName leaves alone.
abbrev pub Clean : List ℕ → Type 0
Clean name = All (λ r. is_kept r ≡ true) name × (length name ≤ 64)

All-snoc :
    (xs : List ℕ) (x : ℕ)
    → All (λ r. is_kept r ≡ true) xs
    → is_kept x ≡ true
    → All (λ r. is_kept r ≡ true) (xs ++ x ∷ [])
All-snoc [] x ps p = (p, tt)
All-snoc (y ∷ ys) x (q, ps) p = (q, All-snoc ys x ps p)

length-snoc : (xs : List ℕ) (x : ℕ) → length (xs ++ x ∷ []) ≡ suc (length xs)
length-snoc xs x = ground (arith, length-append xs (x ∷ []))

written-All :
    (out : List ℕ) (r : ℕ)
    → All (λ r. is_kept r ≡ true) out
    → All (λ r. is_kept r ≡ true) (written out r)
written-All out r ps = elim (Bool-cases (is_blank r)) [
  | inl b ↦ rw b (All-snoc out hyphen ps refl)
  | inr b ↦ elim (Bool-cases (is_kept r)) [
    | inl k ↦ rw (b, k) (All-snoc out r ps k)
    | inr k ↦ rw (b, k) ps
  ]
]

length-written : (out : List ℕ) (r : ℕ) → length (written out r) ≤ suc (length out)
length-written out r = ground (arith, length-snoc out hyphen, length-snoc out r)

strip-Clean :
    (out rs : List ℕ) → All (λ r. is_kept r ≡ true) out → length out < 64 → Clean (strip out rs)
unfolding strip
strip-Clean out [] ps short = (ps, ground arith)
strip-Clean out (r ∷ rs) ps short =
    let kept = written-All out r ps in
    let longer = length-written out r in
    elim (Bool-cases (leb max_agent_name_len (length (written out r)))) [
      | inl full ↦ rw (full, strip) (kept, ground arith)
      | inr more ↦ rw (more, strip) (strip-Clean (written out r) rs kept (ground arith))
    ]

written_kept : (out : List ℕ) (r : ℕ) → is_kept r ≡ true → written out r ≡ out ++ r ∷ []
written_kept out r k = ground arith

strip-fixed :
    (out rs : List ℕ)
    → All (λ r. is_kept r ≡ true) rs
    → length out + length rs ≤ 64
    → strip out rs ≡ out ++ rs
unfolding strip
strip-fixed out [] ps short = sym (append_nil out)
strip-fixed out (r ∷ []) (p, ps) short =
    if_keeps (λ x. x ≡ out ++ r ∷ []) _ (written_kept out r p) (written_kept out r p)
strip-fixed out (r ∷ r' ∷ rs) (p, ps) short =
    let w = written_kept out r p in
    let n = length-snoc out r in
    let not_full : leb max_agent_name_len (length (out ++ r ∷ [])) ≡ false = ground (arith, n) in
    rw (w, not_full, strip)
      (strip-fixed (out ++ r ∷ []) (r' ∷ rs) ps (ground (arith, n)) ∙ append_snoc out r (r' ∷ rs))

kept_allowed : (r : ℕ) → is_kept r ≡ true → is_allowed r ≡ true
kept_allowed r p = ground arith

kept_one_byte : (r : ℕ) → is_kept r ≡ true → rune_len r ≡ 1
kept_one_byte r p = ground arith

check_runes-kept : (rs : List ℕ) → All (λ r. is_kept r ≡ true) rs → check_runes rs ≡ none
unfolding check_runes
check_runes-kept [] ps = refl
check_runes-kept (r ∷ rs) (p, ps) = ground (arith, kept_allowed r p, check_runes-kept rs ps)

byte_len-kept : (rs : List ℕ) → All (λ r. is_kept r ≡ true) rs → byte_len rs ≡ length rs
unfolding byte_len
byte_len-kept [] ps = refl
byte_len-kept (r ∷ rs) (p, ps) = ground (arith, kept_one_byte r p, byte_len-kept rs ps)

-- A clean name is accepted, unless it is empty.
validate-Clean : (name : List ℕ) → Clean name → (name ≡ []) ⊎ (validate_agent_name name ≡ none)
unfolding validate_agent_name
validate-Clean [] clean = inl refl
validate-Clean (r ∷ rs) (kept, short) =
    let runes = check_runes-kept (r ∷ rs) kept in
    let bytes = byte_len-kept (r ∷ rs) kept in inr (ground (arith, runes, bytes))

module _ (trim to_lower : List ℕ → List ℕ) where
  sanitize_name-Clean : (name : List ℕ) → Clean (sanitize_name trim to_lower name)
  unfolding sanitize_name
  sanitize_name-Clean name =
      let clean = strip-Clean [] (to_lower (trim name)) tt (ground arith) in
      let fits : ltb max_agent_name_len (length (strip [] (to_lower (trim name)))) ≡ false =
        ground (arith, clean) in
      let empty : Clean [] = (tt, ground arith) in
      elim (Bool-cases (nat_beq (length (trim name)) 0)) [
        | inl none_left ↦ rw (none_left, sanitize_name) empty
        | inr rest ↦ rw (rest, fits, sanitize_name) clean
      ]

  sanitize_fixed :
      (name : List ℕ)
      → ((text : List ℕ) → Clean text → (trim text ≡ text) × (to_lower text ≡ text))
      → Clean name
      → sanitize_name trim to_lower name ≡ name
  unfolding sanitize_name
  sanitize_fixed [] same clean = rw ((same [] clean).0, sanitize_name) refl
  sanitize_fixed (r ∷ rs) same clean =
      let (t, l) = same (r ∷ rs) clean in
      let fixed : strip [] (r ∷ rs) ≡ r ∷ rs =
        strip-fixed [] (r ∷ rs) clean.0 (ground (arith, clean)) in
      let fits : ltb max_agent_name_len (length (r ∷ rs)) ≡ false = ground (arith, clean) in
      let some_text : nat_beq (length (r ∷ rs)) 0 ≡ false = ground arith in
      rw (t, l, fixed, some_text, fits, sanitize_name) refl

  -- sanitizeName gives the empty text or a name that validateAgentName accepts, and it leaves alone
  -- exactly the texts of at most 64 lower-case letters, digits, hyphens and underscores, so that
  -- what it gave stays as it is, provided that strings.TrimSpace and strings.ToLower change no such
  -- text.
  pub sanitize_name-accepted :
      (name : List ℕ)
      → ((text : List ℕ) → Clean text → (trim text ≡ text) × (to_lower text ≡ text))
      → let out = sanitize_name trim to_lower name in
        ((out ≡ []) ⊎ (validate_agent_name out ≡ none))
        × ((sanitize_name trim to_lower name ≡ name) ↔ Clean name)
        × (sanitize_name trim to_lower out ≡ out)
  sanitize_name-accepted name same =
      let clean = sanitize_name-Clean name in
      (
        validate-Clean _ clean,
        (λ e. subst Clean e clean, sanitize_fixed name same),
        sanitize_fixed _ same clean,
      )
