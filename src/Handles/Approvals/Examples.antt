-- ===== src/Handles/Approvals/Examples.antt =====
-- A wait whose token is approved once, and once more.
use agent_sdk_go.Prelude.{ℕ, Bool, true, false, some, string_eq, ◌≡◌, ◌⊎◌, refl}
use agent_sdk_go.Prelude.GoMap
use agent_sdk_go.Handles.Approvals.{
  Approvals, delivered, approval_already_resolved, no_approvals, open_wait, approve, receive, waits,
  Reach, start, after,
}
use agent_sdk_go.Handles.Approvals.Once.{approve_delivers}

abbrev opened : Approvals Bool
opened = open_wait "token" no_approvals

reached : Reach false opened
unfolding no_approvals
reached = after start (waits "token" no_approvals refl)

approve_delivers_example :
    (approve "token" true opened ≡ (opened, approval_already_resolved))
    ⊎ ((ch : ℕ) × (GoMap.lookup "token" opened.pending ≡ some ch)
        × (opened.taken "token" ≡ 0)
        × ((approve "token" true opened).1 ≡ delivered)
        × ((receive ch (approve "token" true opened).0).1 ≡ some true))
approve_delivers_example = approve_delivers reached "token" true

-- The second Approve reports that the first has resolved the wait.
second_refused :
    (approve "token" false (approve "token" true opened).0).1 ≡ approval_already_resolved
unfolding approve open_wait no_approvals GoMap.lookup GoMap.insert GoMap.delete
second_refused = refl
