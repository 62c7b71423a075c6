-- ===== src/EventBus/Runs.antt =====
-- The bus through any sequence of calls.
use agent_sdk_go.Prelude.{
  ℕ, suc, ◌+◌, ◌≤◌, ◌≡◌, ◌⊎◌, inl, inr, refl, sym, ap, ◌∙◌, subst, true, Option, List, [], ◌∷◌,
  ◌++◌, String, string_eq, arith, nat_beq, if◌then◌else◌, if_keeps, Bool-cases,
}
use agent_sdk_go.Prelude.GoMap
use agent_sdk_go.Prelude.GoMap.{GoMap}
use agent_sdk_go.EventBus.{
  Inmem, new_inmem, close_chan, subscribers, send_all, receive, BusError, Published, publish,
  subscribe, remove_chan, has_chan, unsubscribe, close_entries, close,
}
use agent_sdk_go.EventBus.Channels.{
  occurs, listed, entry, bit, Tidy, listed-insert, occurs-append, occurs-remove, has-occurs,
  entry-listed,
}
use agent_sdk_go.EventBus.Safety.{Quiet, receive-Quiet, send_all-Quiet}
use agent_sdk_go.EventBus.Closing.{close_chan-Closing, close_entries-Closing}

close-Tidy : (c : Inmem) → Tidy c → Tidy (close c)
unfolding close listed
close-Tidy c inv =
    let all =
      close_entries-Closing (record c { closed = true }) c.subs (λ i. omega (arith, inv.live i)) in
    let ended = close_entries (record c { closed = true }) c.subs in
    let closed : Tidy (record ended { subs = [] }) = record {
      calm = all.calm ∙ inv.calm;
      live = λ ch. omega (arith, all.closes ch, inv.live ch);
      fresh = λ ch new.
          ground (arith, all.closes ch, inv.fresh ch (subst (λ k. k ≤ ch) all.same_next new));
    } in
    if_keeps Tidy c.closed inv closed

pub entry_is : (c : Inmem) (channel : String) → subscribers c channel ≡ entry c.subs channel
unfolding subscribers entry
entry_is c channel = refl

-- One more entry for the new channel, and one less for a removed one.
subscribe-listed :
    (c : Inmem) (channel : String) (ch new : ℕ)
    → listed ch (GoMap.insert channel (subscribers c channel ++ new ∷ []) c.subs)
      ≡ listed ch c.subs + (if nat_beq new ch then 1 else 0)
unfolding occurs
subscribe-listed c channel ch new =
    let chs = subscribers c channel in
    let put = listed-insert ch channel (chs ++ new ∷ []) c.subs in
    let more = occurs-append ch chs (new ∷ []) in
    let same = ap (occurs ch) (entry_is c channel) in omega (arith, put, more, same)

unsubscribe-listed :
    (c : Inmem) (channel : String) (ch other : ℕ)
    → has_chan ch (subscribers c channel) ≡ true
    → listed other (GoMap.insert channel (remove_chan ch (subscribers c channel)) c.subs)
        + (if nat_beq ch other then 1 else 0)
      ≡ listed other c.subs
unsubscribe-listed c channel ch other has =
    let chs = subscribers c channel in
    let put = listed-insert other channel (remove_chan ch chs) c.subs in
    let less = occurs-remove ch other chs has in
    let same = ap (occurs other) (entry_is c channel) in omega (arith, put, less, same)

pub subscribed_open :
    (c : Inmem) (channel : String)
    → Tidy c
    → (ch : ℕ) → 1 ≤ occurs ch (subscribers c channel)
    → (c.heap ch).is_open ≡ true
subscribed_open c channel inv ch has =
    let same = ap (occurs ch) (entry_is c channel) in
    let most = entry-listed ch channel c.subs in ground (arith, same, most, inv.live ch)

subscribe-Tidy : (c : Inmem) (channel : String) → Tidy c → Tidy (subscribe c channel).1
unfolding subscribe occurs
subscribe-Tidy c channel inv =
    let chs = subscribers c channel in
    let c' : Inmem = record c {
      subs = GoMap.insert channel (chs ++ c.next ∷ []) c.subs;
      heap = λ i.
          if nat_beq i c.next then record { is_open = true; sent = []; received = 0 } else c.heap i;
      next = suc c.next;
    } in
    let live : (ch : ℕ) → listed ch c'.subs ≡ bit (c'.heap ch).is_open = λ ch.
      let count = subscribe-listed c channel ch c.next in
      let free = inv.fresh ch in
      let before = inv.live ch in
      elim (Bool-cases (nat_beq ch c.next)) [
        | inl same ↦ rw same (ground (arith, count, free, before))
        | inr other ↦ rw other (ground (arith, count, before))
      ] in
    let subscribed : Tidy c' = record {
      calm = inv.calm;
      live = live;
      fresh = λ ch new. let free = inv.fresh ch in ground (arith, free);
    } in
    if_keeps (λ (r : (ℕ ⊎ BusError) × Inmem). Tidy r.1) c.closed inv subscribed

removed-Tidy :
    (c : Inmem) (channel : String) (ch : ℕ)
    → Tidy c
    → has_chan ch (subscribers c channel) ≡ true
    → Tidy (
        close_chan
          (record c { subs = GoMap.insert channel (remove_chan ch (subscribers c channel)) c.subs })
          ch)
removed-Tidy c channel ch inv has =
    let kept : Inmem = record c {
      subs = GoMap.insert channel (remove_chan ch (subscribers c channel)) c.subs;
    } in
    let is_open = subscribed_open c channel inv ch (has-occurs ch (subscribers c channel) has) in
    let closing = close_chan-Closing kept ch is_open in
    record {
      calm = closing.calm ∙ inv.calm;
      live = λ i.
          let less = unsubscribe-listed c channel ch i has in
          ap (listed i) closing.same_subs ∙ omega (arith, less, closing.closes i, inv.live i);
      fresh = λ i new.
          let closed = inv.fresh i (subst (λ k. k ≤ i) closing.same_next new) in
          ground (arith, closing.closes i, closed);
    }

unsubscribe-Tidy :
    (c : Inmem) (channel : String) (ch : ℕ) → Tidy c → Tidy (unsubscribe c channel ch)
unfolding unsubscribe
unsubscribe-Tidy c channel ch inv =
    let chs = subscribers c channel in
    elim (Bool-cases (has_chan ch chs)) [
      | inr missing ↦ rw (missing, unsubscribe) (if_keeps Tidy c.closed inv inv)
      | inl has ↦
          let removed = removed-Tidy c channel ch inv has in
          rw (has, unsubscribe) (if_keeps Tidy c.closed inv removed)
    ]

Quiet-Tidy : (c c' : Inmem) → Quiet c c' → Tidy c → Tidy c'
Quiet-Tidy c c' q inv = record {
  calm = q.same_panic ∙ inv.calm;
  live = λ ch. ap (listed ch) q.same_subs ∙ inv.live ch ∙ sym (ap bit (q.same_open ch));
  fresh = λ ch new. q.same_open ch ∙ inv.fresh ch (subst (λ k. k ≤ ch) q.same_next new);
}

publish-Tidy :
    (c : Inmem) (channel payload : String) (reads : ℕ → ℕ) (patience : Option ℕ)
    → Tidy c
    → Tidy (publish c channel payload reads patience).1
unfolding publish
publish-Tidy c channel payload reads patience inv =
    let quiet =
      send_all-Quiet c (subscribers c channel) payload reads patience
        (subscribed_open c channel inv) in
    if_keeps (λ (r : Published × Inmem). Tidy r.1) c.closed inv
      (Quiet-Tidy c (send_all c (subscribers c channel) payload reads patience).1 quiet inv)

-- A call of the bus or of the closeFn of a subscription, or readers that receive.
pub data Op : Type 0 where
  call_publish : (channel payload : String) (reads : ℕ → ℕ) (patience : Option ℕ) → Op
  call_receive : (ch n : ℕ) → Op
  call_subscribe : (channel : String) → Op
  call_unsubscribe : (channel : String) (ch : ℕ) → Op
  call_close : Op

unfoldable pub perform : Inmem → Op → Inmem
perform c (call_publish channel payload reads patience) =
    (publish c channel payload reads patience).1
perform c (call_receive ch n) = receive c ch n
perform c (call_subscribe channel) = (subscribe c channel).1
perform c (call_unsubscribe channel ch) = unsubscribe c channel ch
perform c call_close = close c

unfoldable pub run : Inmem → List Op → Inmem
unfolding perform
run c [] = c
run c (op ∷ ops) = run (perform c op) ops

perform-Tidy : (c : Inmem) (op : Op) → Tidy c → Tidy (perform c op)
unfolding perform
perform-Tidy c (call_publish channel payload reads patience) inv =
    publish-Tidy c channel payload reads patience inv
perform-Tidy c (call_receive ch n) inv = Quiet-Tidy c (receive c ch n) (receive-Quiet c ch n) inv
perform-Tidy c (call_subscribe channel) inv = subscribe-Tidy c channel inv
perform-Tidy c (call_unsubscribe channel ch) inv = unsubscribe-Tidy c channel ch inv
perform-Tidy c call_close inv = close-Tidy c inv

run_from-Tidy : (c : Inmem) (ops : List Op) → Tidy c → Tidy (run c ops)
unfolding run
run_from-Tidy c [] inv = inv
run_from-Tidy c (op ∷ ops) inv = run_from-Tidy (perform c op) ops (perform-Tidy c op inv)

-- From a new bus, after any sequence of Publish, Subscribe and Close calls, calls of the functions
-- that end a subscription, and receives of readers, in any order and however often, nothing has been
-- sent on a closed channel or closed twice, and each channel is open exactly while it is subscribed,
-- once.
pub run-Tidy : (ops : List Op) → Tidy (run new_inmem ops)
unfolding new_inmem listed
run-Tidy ops =
    run_from-Tidy new_inmem ops
      (record { calm = refl; live = λ ch. omega arith; fresh = λ ch new. refl })
