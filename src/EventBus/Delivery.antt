-- ===== src/EventBus/Delivery.antt =====
-- What the subscribers of a channel get.
use agent_sdk_go.Prelude.{
  ℕ, ◌+◌, ◌<◌, ◌⊎◌, ◌≤◌, ◌≡◌, inl, inr, refl, ap, ◌∙◌, Bool, false, none, some, List, [], ◌∷◌, ◌++◌,
  String, arith, nat_beq, if◌then◌else◌, Bool-cases,
}
use agent_sdk_go.EventBus.{
  Sends, all_sent, context_ended, stuck, err_closed, context_done, Published, returns, blocks,
  Inmem, new_inmem, subscribers, send_all, publish, has_chan,
}
use agent_sdk_go.EventBus.Channels.{occurs, entry-listed}
use agent_sdk_go.EventBus.Safety.{copies, send_all-copies, send_all-cases, unread}
use agent_sdk_go.EventBus.Runs.{Op, run, run-Tidy, subscribed_open, entry_is}

no_copy : (i : ℕ) (chs : List ℕ) (payload : String) → occurs i chs ≡ 0 → copies i chs payload ≡ []
unfolding occurs copies
no_copy i [] payload e = refl
no_copy i (x ∷ xs) payload e = ground (arith, no_copy i xs payload)

has_none : (i : ℕ) (chs : List ℕ) → occurs i chs ≡ 0 → has_chan i chs ≡ false
unfolding occurs has_chan
has_none i [] e = refl
has_none i (x ∷ xs) e = ground (arith, has_none i xs)

one_copy :
    (i : ℕ) (chs : List ℕ) (payload : String)
    → occurs i chs ≤ 1
    → copies i chs payload ≡ (if has_chan i chs then payload ∷ [] else [])
unfolding occurs copies has_chan
one_copy i [] payload most = refl
one_copy i (x ∷ xs) payload most =
    let rest = one_copy i xs payload in
    let none_left = no_copy i xs payload in
    elim (Bool-cases (nat_beq x i)) [
      | inl same ↦
          let zero_left : occurs i xs ≡ 0 = ground arith in
          let e = none_left zero_left in rw same (ap (λ ys. payload ∷ ys) e)
      | inr other ↦ let few : occurs i xs ≤ 1 = ground arith in rw other (rest few)
    ]

-- A Publish on an open bus is its loop, with a context that is never done.
publish_up :
    (c : Inmem) (channel payload : String) (reads : ℕ → ℕ) (sends : Sends)
    → c.closed ≡ false
    → (send_all c (subscribers c channel) payload reads none).0 ≡ sends
    → publish c channel payload reads none ≡ (
      elim sends [
        | all_sent ↦ returns none
        | context_ended ↦ returns (some context_done)
        | stuck ↦ blocks
      ],
      (send_all c (subscribers c channel) payload reads none).1,
    )
unfolding publish
publish_up c channel payload reads sends up e =
    let r = send_all c (subscribers c channel) payload reads none in
    let ends : Sends → Published = λ x. elim x [
      | all_sent ↦ returns none
      | context_ended ↦ returns (some context_done)
      | stuck ↦ blocks
    ] in
    ap (λ (b : Bool). if b then (returns (some err_closed), c) else (ends r.0, r.1)) up
    ∙ ap (λ (x : Sends). (ends x, r.1)) e

-- On a bus that is not closed, whatever was called before, a Publish whose context is never done
-- returns without an error exactly when each channel that is subscribed to its name has fewer unread
-- messages than the 64 of its buffer and those that its readers receive meanwhile, and otherwise
-- blocks for ever; when it returns, its message is put once into each of these channels and into no
-- other.
pub publish_delivers :
    (ops : List Op) (channel payload : String) (reads : ℕ → ℕ)
    → (run new_inmem ops).closed ≡ false
    → let c = run new_inmem ops in
      let r = publish c channel payload reads none in
      ((r.0 ≡ returns none)
        × ((ch : ℕ) → 1 ≤ occurs ch (subscribers c channel) → unread c ch < 64 + reads ch)
        × ((ch : ℕ)
            → (r.1.heap ch).sent
              ≡ (c.heap ch).sent
                ++ (if has_chan ch (subscribers c channel) then payload ∷ [] else [])))
      ⊎ ((r.0 ≡ blocks)
          × (ch : ℕ) × (1 ≤ occurs ch (subscribers c channel))
          × (64 + reads ch ≤ unread c ch))
publish_delivers ops channel payload reads up =
    let c = run new_inmem ops in
    let inv = run-Tidy ops in
    let chs = subscribers c channel in
    let opens = subscribed_open c channel inv in
    let once : (ch : ℕ) → occurs ch chs ≤ 1 = λ ch.
      let most = entry-listed ch channel c.subs in
      let same = ap (occurs ch) (entry_is c channel) in ground (arith, most, same, inv.live ch) in
    elim (send_all-cases c chs payload reads opens once) [
      | inl (sent, rooms) ↦ rw (publish_up c channel payload reads all_sent up sent) (
          inl (
            refl,
            rooms,
            λ ch.
                send_all-copies c chs payload reads ch opens sent
                ∙ ap (λ ys. (c.heap ch).sent ++ ys) (one_copy ch chs payload (once ch)),
          ))
      | inr (waits, ch, listed, full) ↦
          rw (publish_up c channel payload reads stuck up waits) (inr (refl, ch, listed, full))
    ]
