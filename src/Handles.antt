-- ===== src/Handles.antt =====
-- The handles of runs: internal/runtime/local/run_handle.go and stream_handle.go. A body that runs
-- under a lock or a sync.Once is one step; the goroutine of a run and its callers interleave.
pub mod Once
pub mod Approvals
pub mod Drive
mod Examples
use agent_sdk_go.Prelude.{
  ℕ, suc, ◌+◌, ◌-◌, ◌<◌, Bool, true, false, not, ◌&&◌, Option, none, some, String, ◌⊎◌, inl, inr,
  if◌then◌else◌, lt64,
}

-- types.RunStatus
pub data RunStatus : Type 0 where
  pending running completed failed cancelled : RunStatus

-- RunStatus.IsTerminal
unfoldable pub is_terminal : RunStatus → Bool
is_terminal pending = false
is_terminal running = false
is_terminal _ = true

-- The errors of the handles; `engine_error` is one of durable.Engine.CancelRun.
pub data HandleError (E : Type 0) : Type 0 where
  run_already_completed stream_already_consumed offset_not_supported : HandleError E
  engine_error : (err : E) → HandleError E

-- What durable.Engine.CancelRun answers.
pub data EngineAnswer (E : Type 0) : Type 0 where
  accepted already_finished : EngineAnswer E
  refused : (err : E) → EngineAnswer E

-- runHandle with what streamHandle adds: the fields, the states of the three sync.Once, and counts of
-- the calls of the cancel function, of the closings of Done, of the Cancel calls of a handle without
-- an engine that gave nil, and of the hand-outs of the event channel. `marking` counts the markDone
-- calls that have written and not yet reached doneOnce.
pub record Handle (R E : Type 0) : Type 0 where
  pub status : RunStatus
  pub res : Option R
  pub err : Option E
  pub cancel : Bool
  pub cancel_once : Bool
  pub done_once : Bool
  pub events_once : Bool
  pub event_ch : Bool
  pub cancel_calls : ℕ
  pub closings : ℕ
  pub nil_answers : ℕ
  pub handed_out : ℕ
  pub marking : ℕ

-- The status that markDone writes. `is_cancelled` is errors.Is of context.Canceled or of
-- durable.ErrRunCancelled, or that error's text.
unfoldable pub final_status : {E : Type 0} → (E → Bool) → Option E → RunStatus
final_status is_cancelled none = completed
final_status is_cancelled (some e) = if is_cancelled e then cancelled else failed

module _ {R E : Type 0} where
  -- newRunHandle and newStreamHandle
  unfoldable pub new_handle : Bool → Bool → Handle R E
  new_handle cancel event_ch = record {
    status = running;
    res = none;
    err = none;
    cancel = cancel;
    cancel_once = false;
    done_once = false;
    events_once = false;
    event_ch = event_ch;
    cancel_calls = 0;
    closings = 0;
    nil_answers = 0;
    handed_out = 0;
    marking = 0;
  }

  -- cancelOnce.Do: whether this call ran the function.
  unfoldable pub do_cancel_once : Handle R E → Handle R E × Bool
  do_cancel_once h =
      if h.cancel_once
      then (h, false)
      else if h.cancel
      then (
        record h { cancel_once = true; cancel = false; cancel_calls = suc h.cancel_calls },
        true,
      )
      else (record h { cancel_once = true }, false)

  -- Cancel without an engine.
  unfoldable pub cancel : Handle R E → Handle R E × Option (HandleError E)
  unfolding do_cancel_once
  cancel h =
      let (h', ran) = do_cancel_once h in
      if not ran
      then (h', some run_already_completed)
      else (record h' { nil_answers = suc h'.nil_answers }, none)

  -- Cancel with an engine, on its answer.
  unfoldable pub cancel_durable : EngineAnswer E → Handle R E → Handle R E × Option (HandleError E)
  unfolding do_cancel_once
  cancel_durable accepted h = ((do_cancel_once h).0, none)
  cancel_durable already_finished h = ((do_cancel_once h).0, some run_already_completed)
  cancel_durable (refused e) h = ((do_cancel_once h).0, some (engine_error e))

  -- The two parts of markDone: what it writes under the lock, and the two sync.Once after it.
  unfoldable pub write_done : (E → Bool) → Option R → Option E → Handle R E → Handle R E
  unfolding final_status
  write_done is_cancelled res err h = record h {
    res = res;
    err = err;
    status = final_status is_cancelled err;
    marking = suc h.marking;
  }

  unfoldable pub release : Handle R E → Handle R E
  unfolding do_cancel_once
  release h = (do_cancel_once h).0

  unfoldable pub close_done : Handle R E → Handle R E
  close_done h =
      let h' = record h { marking = h.marking - 1 } in
      if h.done_once then h' else record h' { done_once = true; closings = suc h.closings }

  -- Get once Done is closed; before that it waits, or gives the error of its context.
  unfoldable pub get : Handle R E → Option (Option R × Option E)
  get h = if h.done_once then some (h.res, h.err) else none

  -- streamHandle.Events
  unfoldable pub events : ℕ → Handle R E → Handle R E × Option (HandleError E)
  unfolding is_terminal
  events from_offset h =
      if lt64 0 from_offset
      then (h, some offset_not_supported)
      else if is_terminal h.status
      then (h, some run_already_completed)
      else if not h.events_once && h.event_ch
      then (record h { events_once = true; event_ch = false; handed_out = suc h.handed_out }, none)
      else (record h { events_once = true }, some stream_already_consumed)

  -- One step of anyone who holds the handle. A second sync.Once of markDone is reached only by a
  -- call that has written.
  pub data Step (is_cancelled : E → Bool) : Handle R E → Handle R E → Type 0 where
    cancels : (h : Handle R E) → Step is_cancelled h (cancel h).0
    cancels_durable :
        (answer : EngineAnswer E) (h : Handle R E) → Step is_cancelled h (cancel_durable answer h).0
    writes :
        (res : Option R) (err : Option E) (h : Handle R E)
        → Step is_cancelled h (write_done is_cancelled res err h)
    releases : (h : Handle R E) → 0 < h.marking → Step is_cancelled h (release h)
    closes : (h : Handle R E) → 0 < h.marking → Step is_cancelled h (close_done h)
    takes_events : (offset : ℕ) (h : Handle R E) → Step is_cancelled h (events offset h).0

  pub data Reach (is_cancelled : E → Bool) (start : Handle R E) : Handle R E → Type 0 where
    here : Reach is_cancelled start start
    after :
        {h h' : Handle R E}
        → Reach is_cancelled start h
        → Step is_cancelled h h'
        → Reach is_cancelled start h'
