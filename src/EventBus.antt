-- ===== src/EventBus.antt =====
-- internal/eventbus/inmem.go: the in-memory event bus. Go's channels are a heap, where a send on a
-- closed channel and a second close panic; each method runs under its lock, so that it is one step.
pub mod Channels
pub mod Safety
pub mod Closing
pub mod Runs
pub mod Delivery
mod Examples
use agent_sdk_go.Prelude.{
  ℕ, zero, suc, ◌+◌, ◌-◌, ltb, length, Bool, true, false, not, ◌||◌, Option, none, some, List, [],
  ◌∷◌, ◌++◌, String, string_eq, nat_beq, ◌⊎◌, inl, inr, if◌then◌else◌,
}
use agent_sdk_go.Prelude.GoMap
use agent_sdk_go.Prelude.GoMap.{GoMap}

-- A channel of bytes: whether it is open, all that was sent on it, and how many of those messages
-- its readers have received.
pub record Chan : Type 0 where
  pub is_open : Bool
  pub sent : List String
  pub received : ℕ

-- The bus and the heap of its channels, whose addresses below `next` are in use. `logger` is left out.
pub record Inmem : Type 0 where
  pub subs : GoMap String (List ℕ)
  pub closed : Bool
  pub heap : ℕ → Chan
  pub next : ℕ
  pub panicked : Bool

unfoldable pub new_inmem : Inmem
new_inmem = record {
  subs = [];
  closed = false;
  heap = λ ch. record { is_open = false; sent = []; received = 0 };
  next = 0;
  panicked = false;
}

abbrev pub write : Inmem → ℕ → Chan → Inmem
write c ch x = record c { heap = λ i. if nat_beq i ch then x else c.heap i }

-- ch <- payload
unfoldable pub send : Inmem → ℕ → String → Inmem
send c ch payload =
    let x = c.heap ch in
    let done = write c ch (record x { sent = x.sent ++ payload ∷ [] }) in
    if x.is_open then done else record c { panicked = true }

-- close(ch)
unfoldable pub close_chan : Inmem → ℕ → Inmem
close_chan c ch =
    let x = c.heap ch in
    let done = write c ch (record x { is_open = false }) in
    if x.is_open then done else record c { panicked = true }

-- c.subs[channel]
unfoldable pub subscribers : Inmem → String → List ℕ
subscribers c channel = elim (GoMap.lookup channel c.subs) [ none ↦ [] | some chs ↦ chs ]

-- The capacity that Subscribe gives a channel.
abbrev pub capacity : ℕ
capacity = 64

-- A send goes ahead while the buffer has room; on a closed channel it panics at once.
unfoldable pub can_send : Chan → Bool
can_send x = not x.is_open || ltb (length x.sent - x.received) capacity

-- Readers of a channel receive as many of the messages that stand in its buffer, or all.
unfoldable pub receive : Inmem → ℕ → ℕ → Inmem
receive c ch n =
    let x = c.heap ch in
    let left = length x.sent - x.received in
    write c ch (record x { received = x.received + (if ltb left n then left else n) })

-- How the loop of Publish ends: all is sent, the context is done, or a send waits for ever.
pub data Sends : Type 0 where
  all_sent context_ended stuck : Sends

-- The loop of Publish. `reads` says how many messages the readers of a channel receive before the
-- send to it, or while it waits. `patience` is the number of sends after which the context is done,
-- and `none` if it never is: then a send on a channel that stays full waits for ever.
unfoldable pub send_all :
    Inmem → List ℕ → String → (reads : ℕ → ℕ) → (patience : Option ℕ) → Sends × Inmem
unfolding send receive can_send
send_all c [] payload reads patience = (all_sent, c)
send_all c (ch ∷ chs) payload reads none =
    let c' = receive c ch (reads ch) in
    let rest = send_all (send c' ch payload) chs payload reads none in
    if can_send (c'.heap ch) then rest else (stuck, c')
send_all c (ch ∷ chs) payload reads (some zero) = (context_ended, receive c ch (reads ch))
send_all c (ch ∷ chs) payload reads (some (suc n)) =
    let c' = receive c ch (reads ch) in
    let rest = send_all (send c' ch payload) chs payload reads (some n) in
    if can_send (c'.heap ch) then rest else (context_ended, c')

pub data BusError : Type 0 where
  err_closed context_done : BusError

-- What Publish does: it returns, or it never returns and holds its read lock.
pub data Published : Type 0 where
  returns : (err : Option BusError) → Published
  blocks : Published

unfoldable pub publish :
    Inmem → String → String → (reads : ℕ → ℕ) → (patience : Option ℕ) → Published × Inmem
unfolding send_all subscribers
publish c channel payload reads patience =
    let (sends, c') = send_all c (subscribers c channel) payload reads patience in
    let ends : Published = elim sends [
      | all_sent ↦ returns none
      | context_ended ↦ returns (some context_done)
      | stuck ↦ blocks
    ] in
    if c.closed then (returns (some err_closed), c) else (ends, c')

-- Subscribe, with the new channel.
unfoldable pub subscribe : Inmem → String → (ℕ ⊎ BusError) × Inmem
unfolding subscribers
subscribe c channel =
    let c' = record c {
      subs = GoMap.insert channel (subscribers c channel ++ c.next ∷ []) c.subs;
      heap = λ i.
          if nat_beq i c.next then record { is_open = true; sent = []; received = 0 } else c.heap i;
      next = suc c.next;
    } in
    if c.closed then (inr err_closed, c) else (inl c.next, c')

-- append(subs[:i], subs[i+1:]...) for the first i with subs[i] == ch
unfoldable pub remove_chan : ℕ → List ℕ → List ℕ
remove_chan ch [] = []
remove_chan ch (x ∷ xs) = let rest = remove_chan ch xs in if nat_beq x ch then xs else x ∷ rest

unfoldable pub has_chan : ℕ → List ℕ → Bool
has_chan ch [] = false
has_chan ch (x ∷ xs) = nat_beq x ch || has_chan ch xs

-- closeFn of a subscription, which may be called again.
unfoldable pub unsubscribe : Inmem → String → ℕ → Inmem
unfolding subscribers remove_chan has_chan close_chan
unsubscribe c channel ch =
    let chs = subscribers c channel in
    let c' = close_chan (record c { subs = GoMap.insert channel (remove_chan ch chs) c.subs }) ch in
    if c.closed then c else if has_chan ch chs then c' else c

unfoldable pub close_list : Inmem → List ℕ → Inmem
unfolding close_chan
close_list c [] = c
close_list c (ch ∷ chs) = close_list (close_chan c ch) chs

unfoldable pub close_entries : Inmem → GoMap String (List ℕ) → Inmem
unfolding close_list
close_entries c [] = c
close_entries c ((channel, chs) ∷ rest) = close_entries (close_list c chs) rest

unfoldable pub close : Inmem → Inmem
unfolding close_entries
close c =
    let c' = record (close_entries (record c { closed = true }) c.subs) { subs = [] } in
    if c.closed then c else c'
