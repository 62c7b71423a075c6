-- ===== src/Handles/Drive/Ends.antt =====
-- What the handle of a run learns, and what its stream announces: internal/runtime/local/runtime.go.
use agent_sdk_go.Prelude.{
  ℕ, suc, false, ◌*◌, ◌≤◌, ◌^◌, Bool, Option, none, some, List, String, ◌≡◌, refl, ◌⊎◌, inl, inr,
  arith, Option-cases, string_eq,
}
use agent_sdk_go.ErrorControl.{effective_max_iterations}
use agent_sdk_go.Agent.{GoError}
use agent_sdk_go.Loop.{Host, State}
use agent_sdk_go.Loop.Gate.Calls.{calls_in}
use agent_sdk_go.Loop.Rounds.{RoundState}
use agent_sdk_go.Loop.Run.{Returned}
use agent_sdk_go.Loop.Run.Rounding.{WordHook}
use agent_sdk_go.Loop.Run.Ends.{Answer, execute_agent_loop-Answer}
use agent_sdk_go.EventBus
use agent_sdk_go.EventBus.{blocks}
use agent_sdk_go.Handles.{final_status, write_done, release, close_done, do_cancel_once, get}
use agent_sdk_go.Handles.Drive.{
  AgentRunResult, Lifecycle, RunHandle, mark_done, RunRequest, Driver, Driven, run_with,
  custom_if_handled, run_result, reported, drive_run,
}

mark_done-get :
    (is_cancelled : GoError → Bool) (res : Option AgentRunResult) (err : Option GoError)
    (h : RunHandle)
    → (get (mark_done is_cancelled res err h) ≡ some (res, err))
      × ((mark_done is_cancelled res err h).status ≡ final_status is_cancelled err)
unfolding get mark_done write_done release close_done do_cancel_once
mark_done-get is_cancelled res err h = (ground arith, ground arith)

module _ (h : Host) (d : Driver h) (req : RunRequest h) (run_id : String) where
  -- As many calls of the model as a run makes at most.
  abbrev pub most_calls : ℕ
  most_calls = suc (2 * effective_max_iterations d.runtime.max_iterations)

  reported-cases :
      (r : Returned h)
      → Answer h most_calls r
      → ((rs : RoundState h) × (reported h d req run_id r ≡ inl (run_result h d req run_id rs))
          × (calls_in rs.telemetry ≤ most_calls))
        ⊎ ((e : GoError) × (reported h d req run_id r ≡ inr e) × (r.err ≡ some e))
  reported-cases r a = elim (Option-cases r.err) [
    | inr (e, failed) ↦ inr (e, rw failed refl, failed)
    | inl ok ↦ elim (Option-cases r.result) [
      | inl nil ↦ absurd (a.answered (nil, ok))
      | inr (rs, there) ↦ inl (rs, rw (ok, there) refl, rw there at a.few_calls)
    ]
  ]

  run_with-Answer :
      (streaming : Bool) (channel : String) (types : List String) (s : State h)
      → WordHook h d.runtime
      → effective_max_iterations d.runtime.max_iterations ≤ 2 ^ 61
      → Answer h most_calls (run_with h d req run_id streaming channel types s).0
  unfolding run_with
  run_with-Answer streaming channel types s words small =
      execute_agent_loop-Answer h d.depth d.runtime _ _ words small

  -- A run that is driven without a stream publishes nothing, and Get on its handle gives what the
  -- loop has returned.
  drive_run_ends :
      (x : Driven h)
      → WordHook h d.runtime
      → effective_max_iterations d.runtime.max_iterations ≤ 2 ^ 61
      → let r =
          run_with h d req run_id false ""
            (custom_if_handled h d req run_id d.approval_handler)
            x.state in
        let y = drive_run h d req run_id x in
        (y.published ≡ x.published)
        × (((rs : RoundState h) × (get y.handle ≡ some (some (run_result h d req run_id rs), none)))
            ⊎ ((e : GoError) × (get y.handle ≡ some (none, some e)) × (r.0.err ≡ some e)))
  unfolding drive_run
  drive_run_ends x words small =
      let r =
        run_with h d req run_id false "" (custom_if_handled h d req run_id d.approval_handler)
          x.state in
      elim (reported-cases r.0 (run_with-Answer _ _ _ x.state words small)) [
        | inl (rs, e, few) ↦
            let told =
              mark_done-get d.is_cancelled (some (run_result h d req run_id rs)) none x.handle in
            (rw (e, drive_run) refl, inl (rs, rw (e, drive_run) told.0))
        | inr (err, e, failed) ↦
            let told = mark_done-get d.is_cancelled none (some err) x.handle in
            (rw (e, drive_run) refl, inr (err, rw (e, drive_run) told.0, failed))
      ]

  -- The bus blocks on a lifecycle event, and the handle stays as it was.
  pub record Stuck (channel : String) (event : Lifecycle) (x y : Driven h) (s : State h)
      : Type 0 where
    pub payload : String
    pub coded : d.encode event ≡ some payload
    pub full : (EventBus.publish (d.bus_of s) channel payload d.reads none).0 ≡ blocks
    pub same_handle : y.handle ≡ x.handle
    pub same_published : y.published ≡ x.published
