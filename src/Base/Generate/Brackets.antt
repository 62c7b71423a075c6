-- ===== src/Base/Generate/Brackets.antt =====
-- The events of a call of the model are well bracketed: a protocol that reads them one by one, and
-- the calls of internal/runtime/base/runtime.go against it.
use agent_sdk_go.Prelude.{
  Bool, true, false, not, ◌&&◌, Option, none, some, List, [], ◌∷◌, ◌++◌, String, string_eq, ◌==◌,
  beq_refl, ◌⊎◌, inl, inr, ◌≡◌, refl, sym, subst, if◌then◌else◌, if_keeps, Option-cases, arith,
}
use agent_sdk_go.Agent.{GoError}
use agent_sdk_go.Base.{Outside}
use agent_sdk_go.Base.Streaming.{
  TextEvent, text_start, text_content, text_end, reasoning_start, reasoning_message_start,
  reasoning_message_content, reasoning_message_end, reasoning_end, Chunk, Emitted, emit_event,
  Flags, open_text_msg, close_text_msg, finalize_assistant_text, flush_reasoning, open_reasoning,
  text_chunk, thinking_chunk, drain,
}

-- Where a reader stands in the reasoning: outside, in a phase, or in its message.
pub data Nesting : Type 0 where
  outside : Nesting
  in_phase in_message : (id : String) → Nesting

pub record Reader : Type 0 where
  pub text_open : Bool
  pub nesting : Nesting

abbrev pub when : {A : Type 0} → Bool → A → Option A
when true a = some a
when false a = none

-- Reading an event of the call with the id; `none` refuses it. Texts stand outside reasoning, and in
-- an open message of the assistant.
unfoldable pub read : String → Reader → TextEvent → Option Reader
read id r (text_start i) = when (i == id && not r.text_open) (record r { text_open = true })
read id r (text_content i delta) = elim r.nesting [
  | outside ↦ when (i == id && r.text_open) r
  | in_phase j ↦ none
  | in_message j ↦ none
]
read id r (text_end i) = elim r.nesting [
  | outside ↦ when (i == id && r.text_open) (record r { text_open = false })
  | in_phase j ↦ none
  | in_message j ↦ none
]
read id r (reasoning_start i) = elim r.nesting [
  | outside ↦ some (record r { nesting = in_phase i })
  | in_phase j ↦ none
  | in_message j ↦ none
]
read id r (reasoning_message_start i) = elim r.nesting [
  | outside ↦ none
  | in_phase j ↦ when (i == j) (record r { nesting = in_message j })
  | in_message j ↦ none
]
read id r (reasoning_message_content i delta) = elim r.nesting [
  | outside ↦ none
  | in_phase j ↦ none
  | in_message j ↦ when (i == j) r
]
read id r (reasoning_message_end i) = elim r.nesting [
  | outside ↦ none
  | in_phase j ↦ none
  | in_message j ↦ when (i == j) (record r { nesting = in_phase j })
]
read id r (reasoning_end i) = elim r.nesting [
  | outside ↦ none
  | in_phase j ↦ when (i == j) (record r { nesting = outside })
  | in_message j ↦ none
]

unfoldable pub read_all : String → Reader → List TextEvent → Option Reader
unfolding read
read_all id r [] = some r
read_all id r (e ∷ es) = elim (read id r e) [ none ↦ none | some r' ↦ read_all id r' es ]

abbrev pub at_rest : Bool → Reader
at_rest text = record { text_open = text; nesting = outside }

-- The events of a call are read to the end: with nothing left open if it gives a result, and with at
-- most the assistant's message left open if it gives an error.
unfoldable pub Bracketed : {W : Type 0} {A : Type 0} → String → (A ⊎ GoError) × Emitted W → Type 0
Bracketed id (inl result, s) = read_all id (at_rest false) s.events ≡ some (at_rest false)
Bracketed id (inr e, s) =
    (text : Bool) × (read_all id (at_rest false) s.events ≡ some (at_rest text))

read_all-snoc :
    (id : String) (r : Reader) (es : List TextEvent) (e : TextEvent) {r' r'' : Reader}
    → read_all id r es ≡ some r'
    → read id r' e ≡ some r''
    → read_all id r (es ++ e ∷ []) ≡ some r''
unfolding read_all
read_all-snoc id r [] e h k = ground arith
read_all-snoc id r (x ∷ es) e {r'} {r''} h k = elim (Option-cases (read id r x)) [
  | inl stop ↦ cc (rw (stop, read_all) at h)
  | inr (next, e') ↦
      let h' : read_all id next es ≡ some r' = rw (e', read_all) at h in
      rw (e', read_all) (read_all-snoc id next es e h' k)
]

-- The flags, when both of the reasoning are the same.
abbrev pub flags : Bool → Bool → String → Flags
flags text phase j = record {
  text_open = text;
  phase_open = phase;
  msg_open = phase;
  reasoning_id = j;
}

-- Where flags say that the reader is.
abbrev pub reader : Bool → Bool → String → Reader
reader text phase j = record { text_open = text; nesting = if phase then in_message j else outside }

beq_self : (j : String) (r : Reader) → when (j == j) r ≡ some r
beq_self j r = rw (beq_refl j) refl

pub beq_self_and : (j : String) (r : Reader) → when (j == j && true) r ≡ some r
beq_self_and j r = rw (beq_refl j) refl

module _ {W : Type 0} (id : String) where
  -- The events so far lead the reader here.
  abbrev pub Led : Reader → Emitted W → Type 0
  Led r s = read_all id (at_rest false) s.events ≡ some r

  pub led :
      {r r' : Reader} (e : TextEvent) (s : Emitted W)
      → Led r s
      → read id r e ≡ some r'
      → Led r' (emit_event e s)
  led e s h k = read_all-snoc id (at_rest false) s.events e h k

  abbrev pub Follows : Flags × Emitted W → Type 0
  Follows (f, s) =
      (f.msg_open ≡ f.phase_open) × Led (reader f.text_open f.phase_open f.reasoning_id) s

  -- It is enough to look at flags of that form.
  pub by_flags :
      (P : Flags × Emitted W → Type 0) (op : Flags → Emitted W → Flags × Emitted W)
      → ((text phase : Bool) (j : String) (s : Emitted W)
          → Led (reader text phase j) s
          → P (op (flags text phase j) s))
      → (f : Flags) (s : Emitted W) → Follows (f, s)
      → P (op f s)
  by_flags P op each f s (same, h) =
      subst (λ (msg : Bool). P (op (record f { msg_open = msg }) s)) (sym same)
        (each f.text_open f.phase_open f.reasoning_id s h)

  pub flush_reasoning-Led :
      (text phase : Bool) (j : String) (s : Emitted W)
      → Led (reader text phase j) s
      → Led (at_rest text) (flush_reasoning (flags text phase j) s).1
  unfolding flush_reasoning read
  flush_reasoning-Led text true j s h =
      led (reasoning_end j) (emit_event (reasoning_message_end j) s)
        (led (reasoning_message_end j) s h
          (beq_self j (record { text_open = text; nesting = in_phase j })))
        (beq_self j (at_rest text))
  flush_reasoning-Led text false j s h = h

  pub finalize-Led :
      (text : Bool) (j content : String) (s : Emitted W)
      → Led (at_rest text) s
      → Led (at_rest false) (finalize_assistant_text id content (flags text false j) s).1
  unfolding finalize_assistant_text close_text_msg open_text_msg read
  finalize-Led true j content s h = led (text_end id) s h (beq_self_and id (at_rest false))
  finalize-Led false j content s h =
      let opened = led (text_start id) s h (beq_self_and id (at_rest true)) in
      let filled =
        led (text_content id content) (emit_event (text_start id) s) opened
          (beq_self_and id (at_rest true)) in
      led (text_end id) (emit_event (text_content id content) (emit_event (text_start id) s)) filled
        (beq_self_and id (at_rest false))

module _ (o : Outside) (id : String) where
  text_chunk-Follows :
      (delta : String) (text phase : Bool) (j : String) (s : Emitted o.W)
      → Led id (reader text phase j) s
      → Follows id (text_chunk o id delta (flags text phase j) s)
  unfolding text_chunk flush_reasoning open_text_msg read
  text_chunk-Follows delta true phase j s h =
      if_keeps (Follows id) (delta == "") (refl, h)
        (
          refl,
          led id (text_content id delta) (flush_reasoning (flags true phase j) s).1
              (flush_reasoning-Led id true phase j s h) (beq_self_and id (at_rest true)),
        )
  text_chunk-Follows delta false phase j s h =
      let s' = (flush_reasoning (flags false phase j) s).1 in
      if_keeps (Follows id) (delta == "") (refl, h)
        (
          refl,
          led id (text_content id delta) (emit_event (text_start id) s')
              (led id (text_start id) s' (flush_reasoning-Led id false phase j s h)
                (beq_self_and id (at_rest true)))
              (beq_self_and id (at_rest true)),
        )

  thinking_chunk-Follows :
      (delta : String) (text phase : Bool) (j : String) (s : Emitted o.W)
      → Led id (reader text phase j) s
      → Follows id (thinking_chunk o delta (flags text phase j) s)
  unfolding thinking_chunk open_reasoning read
  thinking_chunk-Follows delta text true j s h =
      if_keeps (Follows id) (delta == "") (refl, h)
        (refl, led id (reasoning_message_content j delta) s h (beq_self j (reader text true j)))
  thinking_chunk-Follows delta text false j s h =
      let (k, w) = o.uuid s.world in
      let s' : Emitted o.W = record s { world = w } in
      let in_ : Reader = record { text_open = text; nesting = in_phase k } in
      let phase_ : Led id in_ (emit_event (reasoning_start k) s') =
        led id (reasoning_start k) s' h refl in
      let opened = emit_event (reasoning_message_start k) (emit_event (reasoning_start k) s') in
      let msg : Led id (reader text true k) opened =
        led id (reasoning_message_start k) (emit_event (reasoning_start k) s') phase_
          (beq_self k (reader text true k)) in
      if_keeps (Follows id) (delta == "") (refl, h)
        (
          refl,
          led id (reasoning_message_content k delta) opened msg (beq_self k (reader text true k)),
        )

  pub drain-Follows :
      (chunks : List (Option Chunk)) (f : Flags) (s : Emitted o.W)
      → Follows id (f, s)
      → Follows id (drain o id chunks f s)
  unfolding drain
  drain-Follows [] f s h = h
  drain-Follows (none ∷ chunks) f s h = drain-Follows chunks f s h
  drain-Follows (some c ∷ chunks) f s h =
      let (f', s') = text_chunk o id c.content_delta f s in
      let (f'', s'') = thinking_chunk o c.thinking_delta f' s' in
      drain-Follows chunks f'' s'' (
        by_flags id (Follows id) (thinking_chunk o c.thinking_delta)
          (thinking_chunk-Follows c.thinking_delta) f' s'
          (by_flags id (Follows id) (text_chunk o id c.content_delta)
            (text_chunk-Follows c.content_delta) f s h))
