-- ===== src/Handles/Examples.antt =====
-- A run that is cancelled and then ends, on a handle with a stream.
use agent_sdk_go.Prelude.{ℕ, ◌<◌, Bool, true, none, some, String, ◌≡◌, refl, arith}
use agent_sdk_go.Handles.{
  Handle, cancelled, new_handle, cancel, write_done, release, close_done, cancels, writes, releases,
  closes, Reach, here, after, get,
}
use agent_sdk_go.Handles.Once.{IsSound, Reach-IsSound}

-- Every error is a cancellation.
abbrev any_cancels : String → Bool
any_cancels e = true

abbrev first : Handle ℕ String
first = new_handle true true

abbrev second : Handle ℕ String
second = (cancel first).0

abbrev third : Handle ℕ String
third = write_done any_cancels none (some "context canceled") second

abbrev fourth : Handle ℕ String
fourth = release third

abbrev last : Handle ℕ String
last = close_done fourth

written_lem : (0 < third.marking) × (0 < fourth.marking)
unfolding write_done release cancel new_handle
written_lem = (omega arith, omega arith)

run_lem : Reach any_cancels first last
run_lem =
    after
      (after (after (after here (cancels first)) (writes none (some "context canceled") second))
        (releases third written_lem.0))
      (closes fourth written_lem.1)

Reach-IsSound_example : IsSound last
Reach-IsSound_example = Reach-IsSound any_cancels true true run_lem

-- Get gives what the run left, and the status is that of a cancelled run.
cancelled_run : (get last ≡ some (none, some "context canceled")) × (last.status ≡ cancelled)
unfolding get close_done release cancel write_done new_handle
cancelled_run = (refl, refl)
