-- ===== src/Handles/Once.antt =====
-- What the three sync.Once of a handle guarantee in every interleaving: internal/runtime/local.
use agent_sdk_go.Prelude.{
  ℕ, ◌+◌, ◌<◌, ◌≤◌, Bool, true, false, Option, none, some, ◌≡◌, ◌⊎◌, refl, arith,
}
use agent_sdk_go.Handles.{
  is_terminal, Handle, EngineAnswer, accepted, already_finished, refused, new_handle,
  do_cancel_once, cancel, cancel_durable, final_status, write_done, release, close_done, events,
  Step, cancels, cancels_durable, writes, releases, closes, takes_events, Reach, here, after,
}

abbrev one : Bool → ℕ
one true = 1
one false = 0

-- The cancel function runs at most once, and has run if a Cancel without an engine gave nil; Done is
-- closed exactly by the first markDone to get there, and only after a status was written; the channel
-- of events is handed out at most once.
pub record IsSound {R E : Type 0} (h : Handle R E) : Type 0 where
  pub cancels_once : h.cancel_calls + one h.cancel ≤ 1
  pub answers : h.nil_answers ≤ h.cancel_calls
  pub closes_once : h.closings ≡ one h.done_once
  pub written : (h.closings + h.marking ≡ 0) ⊎ (is_terminal h.status ≡ true)
  pub handed : h.handed_out + one h.event_ch ≤ 1

final_status-terminal :
    {E : Type 0} (is_cancelled : E → Bool) (err : Option E)
    → is_terminal (final_status is_cancelled err) ≡ true
unfolding final_status is_terminal
final_status-terminal is_cancelled none = refl
final_status-terminal is_cancelled (some e) = ground arith

module _ {R E : Type 0} (is_cancelled : E → Bool) where
  new_handle-IsSound : (c e : Bool) → IsSound (new_handle {R = R} {E = E} c e)
  unfolding new_handle
  new_handle-IsSound c e = ground arith

  do_cancel_once-IsSound : (h : Handle R E) → IsSound h → IsSound (do_cancel_once h).0
  unfolding do_cancel_once
  do_cancel_once-IsSound h s = ground arith

  cancel-IsSound : (h : Handle R E) → IsSound h → IsSound (cancel h).0
  unfolding cancel do_cancel_once
  cancel-IsSound h s = ground arith

  cancel_durable-IsSound :
      (a : EngineAnswer E) (h : Handle R E) → IsSound h → IsSound (cancel_durable a h).0
  unfolding cancel_durable
  cancel_durable-IsSound accepted h s = do_cancel_once-IsSound h s
  cancel_durable-IsSound already_finished h s = do_cancel_once-IsSound h s
  cancel_durable-IsSound (refused e) h s = do_cancel_once-IsSound h s

  write_done-IsSound :
      (res : Option R) (err : Option E) (h : Handle R E)
      → IsSound h
      → IsSound (write_done is_cancelled res err h)
  unfolding write_done
  write_done-IsSound res err h s = ground (arith, final_status-terminal is_cancelled err)

  close_done-IsSound : (h : Handle R E) → 0 < h.marking → IsSound h → IsSound (close_done h)
  unfolding close_done
  close_done-IsSound h m s = ground arith

  events-IsSound : (o : ℕ) (h : Handle R E) → IsSound h → IsSound (events o h).0
  unfolding events
  events-IsSound o h s = ground arith

  Step-IsSound : {h h' : Handle R E} → Step is_cancelled h h' → IsSound h → IsSound h'
  unfolding release
  Step-IsSound (cancels h) s = cancel-IsSound h s
  Step-IsSound (cancels_durable a h) s = cancel_durable-IsSound a h s
  Step-IsSound (writes res err h) s = write_done-IsSound res err h s
  Step-IsSound (releases h m) s = do_cancel_once-IsSound h s
  Step-IsSound (closes h m) s = close_done-IsSound h m s
  Step-IsSound (takes_events o h) s = events-IsSound o h s

  -- In every interleaving of Cancel, markDone and Events calls on a new handle, the cancel function of
  -- the run is called at most once and at least as often as a Cancel without an engine gave nil, the
  -- Done channel is closed at most once, and only after a terminal status was written, and the channel
  -- of events is handed out at most once.
  pub Reach-IsSound :
      (c e : Bool) {h : Handle R E} → Reach is_cancelled (new_handle c e) h → IsSound h
  Reach-IsSound c e here = new_handle-IsSound c e
  Reach-IsSound c e (after r st) = Step-IsSound st (Reach-IsSound c e r)
