-- ===== src/Handles/Approvals/Once.antt =====
-- How often an approval is resolved: internal/runtime/local/runtime.go.
use agent_sdk_go.Prelude.{
  ℕ, ◌+◌, ◌<◌, ◌≤◌, Bool, false, none, some, String, string_eq, ◌≡◌, ◌⊎◌, inl, inr, Option-cases,
  arith, refl,
}
use agent_sdk_go.Prelude.GoMap
use agent_sdk_go.Handles.Approvals.{
  Approvals, delivered, approval_already_resolved, no_approvals, put, open_wait, approve, receive,
  leave, Step, waits, approves, sends, receives, leaves, Reach, start, after,
}

-- One if the token is pending.
abbrev waiting : {S : Type 0} → Approvals S → String → ℕ
waiting s t = elim (GoMap.lookup t s.pending) [ none ↦ 0 | some ch ↦ 1 ]

-- No token is resolved twice, and a token that was not drawn is neither pending nor resolved.
record IsFair {S : Type 0} (s : Approvals S) : Type 0 where
  pub at_most_one : (t : String) → s.taken t + waiting s t ≤ 1
  pub undrawn : (t : String) → s.used t ≡ false → s.taken t + waiting s t ≡ 0

module _ {S : Type 0} where
  open_wait-IsFair :
      (token : String) (s : Approvals S)
      → s.used token ≡ false
      → IsFair s
      → IsFair (open_wait token s)
  unfolding open_wait
  open_wait-IsFair token s new f = record {
    at_most_one = λ t. ground (
      arith,
      GoMap.lookup-insert token t s.next s.pending,
      f.at_most_one t,
      f.undrawn t,
      string_eq.beq_iff token t,
      string_eq.beq_iff t token,
    );
    undrawn = λ t e. ground (
      arith,
      GoMap.lookup-insert token t s.next s.pending,
      f.undrawn t,
      string_eq.beq_iff token t,
      string_eq.beq_iff t token,
    );
  }

  leave-IsFair : (token : String) (s : Approvals S) → IsFair s → IsFair (leave token s)
  unfolding leave
  leave-IsFair token s f = record {
    at_most_one = λ t. ground (arith, GoMap.lookup-delete token t s.pending, f.at_most_one t);
    undrawn = λ t e. ground (arith, GoMap.lookup-delete token t s.pending, f.undrawn t);
  }

  approve-IsFair :
      (token : String) (status : S) (s : Approvals S) → IsFair s → IsFair (approve token status s).0
  unfolding approve put
  approve-IsFair token status s f = record {
    at_most_one = λ t. ground (
      arith,
      GoMap.lookup-delete token t s.pending,
      f.at_most_one t,
      string_eq.beq_iff token t,
      string_eq.beq_iff t token,
    );
    undrawn = λ t e. ground (
      arith,
      GoMap.lookup-delete token t s.pending,
      f.undrawn t,
      string_eq.beq_iff token t,
      string_eq.beq_iff t token,
    );
  }

  Step-IsFair : {handler : Bool} {s s' : Approvals S} → Step handler s s' → IsFair s → IsFair s'
  unfolding put receive
  Step-IsFair (waits token s new) f = open_wait-IsFair token s new f
  Step-IsFair (approves token status s) f = approve-IsFair token status s f
  Step-IsFair (sends ch status s h room) f = record {
    at_most_one = f.at_most_one;
    undrawn = f.undrawn;
  }
  Step-IsFair (receives ch s) f = record { at_most_one = f.at_most_one; undrawn = f.undrawn }
  Step-IsFair (leaves token s) f = leave-IsFair token s f

  Reach-IsFair : {handler : Bool} {s : Approvals S} → Reach handler s → IsFair s
  unfolding no_approvals GoMap.lookup
  Reach-IsFair start = record { at_most_one = λ t. omega arith; undrawn = λ t e. refl }
  Reach-IsFair (after r st) = Step-IsFair st (Reach-IsFair r)

-- The channel of a pending token is empty and no other token's.
record IsRoomy {S : Type 0} (s : Approvals S) : Type 0 where
  pub made : (t : String) (ch : ℕ) → GoMap.lookup t s.pending ≡ some ch → ch < s.next
  pub room : (t : String) (ch : ℕ) → GoMap.lookup t s.pending ≡ some ch → s.buffer ch ≡ none
  pub own :
      (t u : String) (ch : ℕ)
      → GoMap.lookup t s.pending ≡ some ch
      → GoMap.lookup u s.pending ≡ some ch
      → t ≡ u

module _ {S : Type 0} where
  open_wait-IsRoomy : (token : String) (s : Approvals S) → IsRoomy s → IsRoomy (open_wait token s)
  unfolding open_wait
  open_wait-IsRoomy token s f = record {
    made = λ t ch e. ground (arith, GoMap.lookup-insert token t s.next s.pending, f.made t ch);
    room = λ t ch e. ground (arith, GoMap.lookup-insert token t s.next s.pending, f.room t ch);
    own = λ t u ch e e'. ground (
      arith,
      GoMap.lookup-insert token t s.next s.pending,
      GoMap.lookup-insert token u s.next s.pending,
      f.own t u ch,
      f.made t ch,
      f.made u ch,
      string_eq.beq_iff token t,
      string_eq.beq_iff token u,
    );
  }

  leave-IsRoomy : (token : String) (s : Approvals S) → IsRoomy s → IsRoomy (leave token s)
  unfolding leave
  leave-IsRoomy token s f = record {
    made = λ t ch e. ground (arith, GoMap.lookup-delete token t s.pending, f.made t ch);
    room = λ t ch e. ground (arith, GoMap.lookup-delete token t s.pending, f.room t ch);
    own = λ t u ch e e'. ground (
      arith,
      GoMap.lookup-delete token t s.pending,
      GoMap.lookup-delete token u s.pending,
      f.own t u ch,
    );
  }

  approve-IsRoomy :
      (token : String) (status : S) (s : Approvals S)
      → IsRoomy s
      → IsRoomy (approve token status s).0
  unfolding approve put
  approve-IsRoomy token status s f = record {
    made = λ t ch e. ground (arith, GoMap.lookup-delete token t s.pending, f.made t ch);
    room = λ t ch e. ground (
      arith,
      GoMap.lookup-delete token t s.pending,
      f.room t ch,
      f.own t token ch,
      string_eq.beq_iff token t,
    );
    own = λ t u ch e e'. ground (
      arith,
      GoMap.lookup-delete token t s.pending,
      GoMap.lookup-delete token u s.pending,
      f.own t u ch,
    );
  }

  receive-IsRoomy : (ch : ℕ) (s : Approvals S) → IsRoomy s → IsRoomy (receive ch s).0
  unfolding receive put
  receive-IsRoomy ch s f = record {
    made = f.made;
    room = λ t i e. ground (arith, f.room t i);
    own = f.own;
  }

  Step-IsRoomy : {s s' : Approvals S} → Step false s s' → IsRoomy s → IsRoomy s'
  Step-IsRoomy (waits token s new) f = open_wait-IsRoomy token s f
  Step-IsRoomy (approves token status s) f = approve-IsRoomy token status s f
  Step-IsRoomy (sends ch status s h room) f = cc
  Step-IsRoomy (receives ch s) f = receive-IsRoomy ch s f
  Step-IsRoomy (leaves token s) f = leave-IsRoomy token s f

  Reach-IsRoomy : {s : Approvals S} → Reach false s → IsRoomy s
  unfolding no_approvals GoMap.lookup
  Reach-IsRoomy start = record { made = λ t ch e. cc; room = λ t ch e. cc; own = λ t u ch e e'. cc }
  Reach-IsRoomy (after r st) = Step-IsRoomy st (Reach-IsRoomy r)

  -- In every interleaving of waits without a handler and Approve calls, where no token is drawn twice,
  -- an Approve never blocks: it reports that the approval was resolved and changes nothing, or it is
  -- the first that finds the token, gives no error, and its status is what the wait of the token
  -- receives next.
  pub approve_delivers :
      {s : Approvals S}
      → Reach false s
      → (token : String) (status : S)
      → (approve token status s ≡ (s, approval_already_resolved))
        ⊎ ((ch : ℕ) × (GoMap.lookup token s.pending ≡ some ch)
            × (s.taken token ≡ 0)
            × ((approve token status s).1 ≡ delivered)
            × ((receive ch (approve token status s).0).1 ≡ some status))
  unfolding approve put receive
  approve_delivers {s} r token status = elim (Option-cases (GoMap.lookup token s.pending)) [
    | inl e ↦ inl (rw (e, approve) refl)
    | inr (ch, e) ↦
        let room = (Reach-IsRoomy r).room token ch e in
        let once : s.taken token + 1 ≤ 1 =
          rw (e, waiting) at ((Reach-IsFair r).at_most_one token) in
        inr (ch, e, omega arith, rw (e, room, approve) refl, rw (e, room, approve) ground arith)
  ]
