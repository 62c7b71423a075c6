-- ===== src/Handles/Approvals.antt =====
-- The approvals that a run without an engine waits for: pendingApprovals, LocalRuntime.approve in
-- internal/runtime/local/runtime.go and the waits of agent_loop.go. A channel of one place is an
-- address; sync.Map is a map whose methods are single steps.
pub mod Once
mod Examples
use agent_sdk_go.Prelude.{
  ℕ, suc, Bool, true, false, Option, none, some, [], String, string_eq, nat_beq, ◌≡◌, ◌==◌,
  if◌then◌else◌,
}
use agent_sdk_go.Prelude.GoMap
use agent_sdk_go.Prelude.GoMap.{GoMap}

-- pendingApprovals, what stands in each channel, and the next address. `used` holds the tokens drawn
-- so far, `taken` counts the Approve calls that found their token.
pub record Approvals (S : Type 0) : Type 0 where
  pub pending : GoMap String ℕ
  pub buffer : ℕ → Option S
  pub next : ℕ
  pub used : String → Bool
  pub taken : String → ℕ

pub data Outcome : Type 0 where
  delivered approval_already_resolved blocked : Outcome

module _ {S : Type 0} where
  unfoldable pub no_approvals : Approvals S
  no_approvals = record {
    pending = [];
    buffer = λ ch. none;
    next = 0;
    used = λ t. false;
    taken = λ t. 0;
  }

  -- resultCh <- status, with room in the channel.
  unfoldable pub put : ℕ → Option S → Approvals S → Approvals S
  put ch x s = record s { buffer = λ i. if nat_beq i ch then x else s.buffer i }

  -- make(chan, 1) and pendingApprovals.Store
  unfoldable pub open_wait : String → Approvals S → Approvals S
  open_wait token s = record s {
    pending = GoMap.insert token s.next s.pending;
    buffer = λ i. if nat_beq i s.next then none else s.buffer i;
    next = suc s.next;
    used = λ t. if t == token then true else s.used t;
  }

  -- LoadAndDelete, and a send that blocks while the channel is full.
  unfoldable pub approve : String → S → Approvals S → Approvals S × Outcome
  unfolding put
  approve token status s =
      let s' : Approvals S = record s {
        pending = GoMap.delete token s.pending;
        taken = λ t. if t == token then suc (s.taken t) else s.taken t;
      } in
      elim (GoMap.lookup token s.pending) [
        | none ↦ (s, approval_already_resolved)
        | some ch ↦ elim (s.buffer ch) [
          | some x ↦ (s', blocked)
          | none ↦ (put ch (some status) s', delivered)
        ]
      ]

  -- The receive of the select that waits.
  unfoldable pub receive : ℕ → Approvals S → Approvals S × Option S
  unfolding put
  receive ch s = (put ch none s, s.buffer ch)

  -- The deferred pendingApprovals.Delete, whichever way the wait ends.
  unfoldable pub leave : String → Approvals S → Approvals S
  leave token s = record s { pending = GoMap.delete token s.pending }

  -- The steps of waits and callers in any order; uuid.New draws no token twice. With a handler, its
  -- Respond sends on the channel that it was given, and so does an Approve that was blocked.
  pub data Step (handler : Bool) : Approvals S → Approvals S → Type 0 where
    waits :
        (token : String) (s : Approvals S)
        → s.used token ≡ false
        → Step handler s (open_wait token s)
    approves :
        (token : String) (status : S) (s : Approvals S) → Step handler s (approve token status s).0
    sends :
        (ch : ℕ) (status : S) (s : Approvals S)
        → handler ≡ true
        → s.buffer ch ≡ none
        → Step handler s (put ch (some status) s)
    receives : (ch : ℕ) (s : Approvals S) → Step handler s (receive ch s).0
    leaves : (token : String) (s : Approvals S) → Step handler s (leave token s)

  pub data Reach (handler : Bool) : Approvals S → Type 0 where
    start : Reach handler no_approvals
    after : {s s' : Approvals S} → Reach handler s → Step handler s s' → Reach handler s'
