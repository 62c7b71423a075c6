-- ===== src/EventBus/Safety.antt =====
-- No send on a closed channel, and every message once to every subscriber.
use agent_sdk_go.Prelude.{
  ℕ, zero, suc, ◌+◌, ◌-◌, ◌<◌, ltb, length, ◌≤◌, ◌≡◌, ◌⊎◌, inl, inr, refl, sym, ap, ◌∙◌, Bool, true,
  false, Option, none, some, List, [], ◌∷◌, ◌++◌, String, string_eq, arith, nat_beq, if◌then◌else◌,
  Bool-cases, if_keeps, append_nil, append_snoc,
}
use agent_sdk_go.EventBus.{
  Chan, Inmem, write, send, receive, can_send, Sends, all_sent, stuck, send_all,
}
use agent_sdk_go.EventBus.Channels.{occurs}

-- The same channels are open and listed, and no panic is new.
pub record Quiet (c c' : Inmem) : Type 0 where
  pub same_panic : c'.panicked ≡ c.panicked
  pub same_subs : c'.subs ≡ c.subs
  pub same_closed : c'.closed ≡ c.closed
  pub same_next : c'.next ≡ c.next
  pub same_open : (ch : ℕ) → (c'.heap ch).is_open ≡ (c.heap ch).is_open

Quiet-trans : (a b c : Inmem) → Quiet a b → Quiet b c → Quiet a c
Quiet-trans a b c p q = record {
  same_panic = q.same_panic ∙ p.same_panic;
  same_subs = q.same_subs ∙ p.same_subs;
  same_closed = q.same_closed ∙ p.same_closed;
  same_next = q.same_next ∙ p.same_next;
  same_open = λ ch. q.same_open ch ∙ p.same_open ch;
}

Quiet-refl : (c : Inmem) → Quiet c c
Quiet-refl c = record {
  same_panic = refl;
  same_subs = refl;
  same_closed = refl;
  same_next = refl;
  same_open = λ ch. refl;
}

-- The channel that is written, and every other.
pub write_cases :
    (c : Inmem) (ch i : ℕ) (x : Chan)
    → ((ch ≡ i) × ((write c ch x).heap i ≡ x))
      ⊎ ((nat_beq ch i ≡ false) × ((write c ch x).heap i ≡ c.heap i))
write_cases c ch i x = elim (Bool-cases (nat_beq i ch)) [
  | inl same ↦ inl (ground arith, rw same refl)
  | inr other ↦ inr (ground arith, rw other refl)
]

send_open :
    (c : Inmem) (ch : ℕ) (payload : String)
    → (c.heap ch).is_open ≡ true
    → send c ch payload
      ≡ write c ch (record (c.heap ch) { sent = (c.heap ch).sent ++ payload ∷ [] })
unfolding send
send_open c ch payload e =
    ap
      (λ (b : Bool).
        if b
        then write c ch (record (c.heap ch) { sent = (c.heap ch).sent ++ payload ∷ [] })
        else record c { panicked = true })
      e

send-Quiet :
    (c : Inmem) (ch : ℕ) (payload : String)
    → (c.heap ch).is_open ≡ true
    → Quiet c (send c ch payload)
send-Quiet c ch payload e =
    let x : Chan = record (c.heap ch) { sent = (c.heap ch).sent ++ payload ∷ [] } in
    let same : (i : ℕ) → ((write c ch x).heap i).is_open ≡ (c.heap i).is_open = λ i.
      elim (write_cases c ch i x) [
        | inl (here, written) ↦ ap (λ y. y.is_open) written ∙ ap (λ j. (c.heap j).is_open) here
        | inr (other, kept) ↦ ap (λ y. y.is_open) kept
      ] in
    let quiet : Quiet c (write c ch x) = record {
      same_panic = refl;
      same_subs = refl;
      same_closed = refl;
      same_next = refl;
      same_open = same;
    } in
    rw (send_open c ch payload e) quiet

-- What a channel gets when a message goes to all of a list.
unfoldable pub copies : ℕ → List ℕ → String → List String
copies i [] payload = []
copies i (x ∷ xs) payload =
    let rest = copies i xs payload in if nat_beq x i then payload ∷ rest else rest

send_one :
    (c : Inmem) (ch : ℕ) (payload : String) (i : ℕ)
    → (c.heap ch).is_open ≡ true
    → ((send c ch payload).heap i).sent
      ≡ (if nat_beq ch i then (c.heap i).sent ++ payload ∷ [] else (c.heap i).sent)
send_one c ch payload i e =
    let x : Chan = record (c.heap ch) { sent = (c.heap ch).sent ++ payload ∷ [] } in
    let sent : ((write c ch x).heap i).sent
        ≡ (if nat_beq ch i then (c.heap i).sent ++ payload ∷ [] else (c.heap i).sent) =
      elim (write_cases c ch i x) [
        | inl (here, written) ↦
            let test : nat_beq ch i ≡ true = ground arith in
            rw test (ap (λ y. y.sent) written ∙ ap (λ j. (c.heap j).sent ++ payload ∷ []) here)
        | inr (other, kept) ↦ rw other (ap (λ y. y.sent) kept)
      ] in
    rw (send_open c ch payload e) sent

pub receive-Quiet : (c : Inmem) (ch n : ℕ) → Quiet c (receive c ch n)
unfolding receive
receive-Quiet c ch n = record {
  same_panic = refl;
  same_subs = refl;
  same_closed = refl;
  same_next = refl;
  same_open = λ i. ground arith;
}

-- Receiving takes nothing off what was sent.
pub receive-sent : (c : Inmem) (ch n i : ℕ) → ((receive c ch n).heap i).sent ≡ (c.heap i).sent
unfolding receive
receive-sent c ch n i = ground arith

sent-Quiet :
    (c : Inmem) (ch : ℕ) (payload : String) (n : ℕ)
    → (c.heap ch).is_open ≡ true
    → Quiet c (send (receive c ch n) ch payload)
sent-Quiet c ch payload n e =
    let first = receive-Quiet c ch n in
    Quiet-trans c (receive c ch n) _ first
      (send-Quiet (receive c ch n) ch payload (first.same_open ch ∙ e))

-- Publish sends to open channels only.
pub send_all-Quiet :
    (c : Inmem) (chs : List ℕ) (payload : String) (reads : ℕ → ℕ) (patience : Option ℕ)
    → ((i : ℕ) → 1 ≤ occurs i chs → (c.heap i).is_open ≡ true)
    → Quiet c (send_all c chs payload reads patience).1
unfolding send_all occurs
send_all-Quiet c [] payload reads patience opens = Quiet-refl c
send_all-Quiet c (ch ∷ chs) payload reads (some zero) opens = receive-Quiet c ch (reads ch)
send_all-Quiet c (ch ∷ chs) payload reads none opens =
    let first = sent-Quiet c ch payload (reads ch) (opens ch (ground arith)) in
    let c' = receive c ch (reads ch) in
    if_keeps (λ (r : Sends × Inmem). Quiet c r.1) (can_send (c'.heap ch))
      (Quiet-trans c (send c' ch payload) _ first (
        send_all-Quiet (send c' ch payload) chs payload reads none
          (λ i listed. first.same_open i ∙ opens i (ground arith))))
      (receive-Quiet c ch (reads ch))
send_all-Quiet c (ch ∷ chs) payload reads (some (suc n)) opens =
    let first = sent-Quiet c ch payload (reads ch) (opens ch (ground arith)) in
    let c' = receive c ch (reads ch) in
    if_keeps (λ (r : Sends × Inmem). Quiet c r.1) (can_send (c'.heap ch))
      (Quiet-trans c (send c' ch payload) _ first (
        send_all-Quiet (send c' ch payload) chs payload reads (some n)
          (λ i listed. first.same_open i ∙ opens i (ground arith))))
      (receive-Quiet c ch (reads ch))

-- All that a Publish whose sends all go through has sent.
pub send_all-copies :
    (c : Inmem) (chs : List ℕ) (payload : String) (reads : ℕ → ℕ) (i : ℕ)
    → ((i : ℕ) → 1 ≤ occurs i chs → (c.heap i).is_open ≡ true)
    → (send_all c chs payload reads none).0 ≡ all_sent
    → ((send_all c chs payload reads none).1.heap i).sent ≡ (c.heap i).sent ++ copies i chs payload
unfolding send_all occurs copies
send_all-copies c [] payload reads i opens done = sym (append_nil (c.heap i).sent)
send_all-copies c (ch ∷ chs) payload reads i opens done =
    let c' = receive c ch (reads ch) in
    let e = opens ch (ground arith) in
    let e' = (receive-Quiet c ch (reads ch)).same_open ch ∙ e in
    let first = sent-Quiet c ch payload (reads ch) e in
    let one = send_one c' ch payload i e' in
    let kept_sent = receive-sent c ch (reads ch) i in
    elim (Bool-cases (can_send (c'.heap ch))) [
      | inr full ↦ cc (rw (full, send_all) at done)
      | inl room ↦
          let done' : (send_all (send c' ch payload) chs payload reads none).0 ≡ all_sent =
            rw (room, send_all) at done in
          let later =
            send_all-copies (send c' ch payload) chs payload reads i
              (λ j listed. first.same_open j ∙ opens j (ground arith)) done' in
          elim (Bool-cases (nat_beq ch i)) [
            | inl same ↦
                let written = rw same at one in
                rw (room, same, send_all)
                  (later
                    ∙ ap (λ y. y ++ copies i chs payload)
                        (written ∙ ap (λ y. y ++ payload ∷ []) kept_sent)
                    ∙ append_snoc (c.heap i).sent payload (copies i chs payload))
            | inr other ↦
                let kept = rw other at one in
                rw (room, other, send_all)
                  (later ∙ ap (λ y. y ++ copies i chs payload) (kept ∙ kept_sent))
          ]
    ]

-- The messages that stand in the buffer of a channel.
abbrev pub unread : Inmem → ℕ → ℕ
unread c ch = length (c.heap ch).sent - (c.heap ch).received

-- A send goes ahead exactly when a channel has fewer messages than its buffer and its readers take.
room_lem :
    (c : Inmem) (ch n : ℕ)
    → (c.heap ch).is_open ≡ true
    → can_send ((receive c ch n).heap ch) ≡ ltb (unread c ch) (64 + n)
unfolding can_send receive
room_lem c ch n e = ground arith

other_kept :
    (c : Inmem) (ch i n : ℕ) (payload : String)
    → (c.heap ch).is_open ≡ true
    → nat_beq ch i ≡ false
    → unread (send (receive c ch n) ch payload) i ≡ unread c i
unfolding receive
other_kept c ch i n payload e other =
    let c' = receive c ch n in
    let e' = (receive-Quiet c ch n).same_open ch ∙ e in
    let same : (send c' ch payload).heap i ≡ c.heap i =
      rw (send_open c' ch payload e') (ground arith) in
    ap (λ x. length x.sent - x.received) same

-- All is sent, and there was room in each channel; or a channel was full.
pub send_all-cases :
    (c : Inmem) (chs : List ℕ) (payload : String) (reads : ℕ → ℕ)
    → ((i : ℕ) → 1 ≤ occurs i chs → (c.heap i).is_open ≡ true)
    → ((i : ℕ) → occurs i chs ≤ 1)
    → (((send_all c chs payload reads none).0 ≡ all_sent)
        × ((i : ℕ) → 1 ≤ occurs i chs → unread c i < 64 + reads i))
      ⊎ (((send_all c chs payload reads none).0 ≡ stuck)
          × (i : ℕ) × (1 ≤ occurs i chs)
          × (64 + reads i ≤ unread c i))
unfolding send_all occurs
send_all-cases c [] payload reads opens once = inl (refl, λ i listed. ground arith)
send_all-cases c (ch ∷ chs) payload reads opens once =
    let c' = receive c ch (reads ch) in
    let e = opens ch (ground arith) in
    let room = room_lem c ch (reads ch) e in
    let first = sent-Quiet c ch payload (reads ch) e in
    let apart : (i : ℕ) → 1 ≤ occurs i chs → nat_beq ch i ≡ false =
      λ i listed. ground (arith, once i) in
    let kept : (i : ℕ) → 1 ≤ occurs i chs → unread (send c' ch payload) i ≡ unread c i =
      λ i listed. other_kept c ch i (reads ch) payload e (apart i listed) in
    let later =
      send_all-cases (send c' ch payload) chs payload reads
        (λ j listed. first.same_open j ∙ opens j (ground arith)) (λ i. ground (arith, once i)) in
    elim (Bool-cases (can_send (c'.heap ch))) [
      | inr full ↦ inr (rw (full, send_all) refl, ch, ground arith, ground (arith, room, full))
      | inl fits ↦ elim later [
        | inl (sent, rooms) ↦ inl (
          rw (fits, send_all) sent,
          λ i listed. elim (Bool-cases (nat_beq ch i)) [
            | inl here ↦ ground (arith, room, fits)
            | inr other ↦
                let there : 1 ≤ occurs i chs = ground arith in
                omega (arith, kept i there, rooms i there)
          ],
        )
        | inr (waits, i, listed, full) ↦
            inr (rw (fits, send_all) waits, i, ground arith, omega (arith, kept i listed, full))
      ]
    ]
