-- ===== src/EventBus/Examples.antt =====
-- Two subscribers of one channel, of which one leaves.
use agent_sdk_go.Prelude.{
  ℕ, zero, suc, ◌+◌, ◌<◌, ◌≤◌, ◌⊎◌, ◌≡◌, refl, false, none, List, [], ◌∷◌, ◌++◌, string_eq,
  if◌then◌else◌,
}
use agent_sdk_go.Prelude.GoMap
use agent_sdk_go.EventBus.{
  new_inmem, publish, subscribe, unsubscribe, subscribers, has_chan, remove_chan, close_chan,
  send_all, send, receive, can_send, returns, blocks, Inmem,
}
use agent_sdk_go.EventBus.Channels.{Tidy, occurs}
use agent_sdk_go.EventBus.Safety.{unread}
use agent_sdk_go.EventBus.Runs.{
  Op, call_publish, call_subscribe, call_unsubscribe, call_close, run, perform, run-Tidy,
}
use agent_sdk_go.EventBus.Delivery.{publish_delivers}

abbrev calls : List Op
calls =
    call_subscribe "run"
    ∷ call_subscribe "run"
    ∷ call_publish "run" "hello" (λ ch. 0) none
    ∷ call_unsubscribe "run" 0
    ∷ call_unsubscribe "run" 0
    ∷ []

run-Tidy_example : Tidy (run new_inmem (calls ++ call_close ∷ []))
run-Tidy_example = run-Tidy (calls ++ call_close ∷ [])

still_up : (run new_inmem calls).closed ≡ false
unfolding run perform publish subscribe unsubscribe subscribers has_chan remove_chan close_chan
    send_all send new_inmem GoMap.lookup GoMap.insert
still_up = refl

publish_delivers_example :
    let c = run new_inmem calls in
    let r = publish c "run" "bye" (λ ch. 0) none in
    ((r.0 ≡ returns none)
      × ((ch : ℕ) → 1 ≤ occurs ch (subscribers c "run") → unread c ch < 64 + 0)
      × ((ch : ℕ)
          → (r.1.heap ch).sent
            ≡ (c.heap ch).sent ++ (if has_chan ch (subscribers c "run") then "bye" ∷ [] else [])))
    ⊎ ((r.0 ≡ blocks) × (ch : ℕ) × (1 ≤ occurs ch (subscribers c "run")) × (64 + 0 ≤ unread c ch))
publish_delivers_example = publish_delivers calls "run" "bye" (λ ch. 0) still_up

-- 64 messages that nobody has read fill the channel, and the next Publish blocks.
abbrev filled : ℕ → Inmem
filled zero = (subscribe new_inmem "run").1
filled (suc n) = (publish (filled n) "run" "hello" (λ ch. 0) none).1

full_blocks : (publish (filled 64) "run" "hello" (λ ch. 0) none).0 ≡ blocks
unfolding publish subscribe subscribers send_all send receive can_send new_inmem GoMap.lookup
    GoMap.insert
full_blocks = refl

-- Once a reader has received one message, it goes through.
read_goes_on : (publish (filled 64) "run" "hello" (λ ch. 1) none).0 ≡ returns none
unfolding publish subscribe subscribers send_all send receive can_send new_inmem GoMap.lookup
    GoMap.insert
read_goes_on = refl
