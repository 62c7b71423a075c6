-- ===== src/Loop/Run/Bound.antt =====
-- The rounds end: the fuel of a run is  and the calls of the model have a bound.
use agent_sdk_go.Prelude.{
  ℕ, zero, suc, ◌+◌, ◌*◌, ◌≤◌, ◌<◌, ◌^◌, ◌≡◌, ◌⊎◌, inl, inr, refl, true, Option, none, some, arith,
  add64, lt64, Bool-cases, List,
}
use agent_sdk_go.ErrorControl.{effective_max_iterations}
use agent_sdk_go.Agent.{GoError, Message}
use agent_sdk_go.Loop.{Host, State, LocalRuntime, AgentLoopInput, AgentLoopResult, Searched}
use agent_sdk_go.Loop.Gate.Calls.{calls_in}
use agent_sdk_go.Loop.Rounds.{RoundState, Contexts}
use agent_sdk_go.Loop.Round.{round}
use agent_sdk_go.Loop.Run.{Outcome, completed, aborted, out_of_fuel, rounds, start_state}
use agent_sdk_go.Loop.Run.Exits.{Exits-cases}
use agent_sdk_go.Loop.Run.Rounding.{WordHook, Next, Called, round-Exits}

effective_fixed :
    (m : ℕ)
    → effective_max_iterations m ≤ 2 ^ 61
    → effective_max_iterations (effective_max_iterations m) ≡ effective_max_iterations m
unfolding effective_max_iterations
effective_fixed m small = ground arith

effective_positive : (m : ℕ) → effective_max_iterations m ≤ 2 ^ 61 → 1 ≤ effective_max_iterations m
unfolding effective_max_iterations
effective_positive m small = ground arith

module _ (h : Host)
    (delegate : LocalRuntime h
      → AgentLoopInput h
      → Option ℕ
      → State h
      → (AgentLoopResult h ⊎ GoError) × State h)
    (rt : LocalRuntime h) where
  -- Between two rounds: a call for each round, and the bound extended once at most.
  pub record Bounded (iter : ℕ) (rs : RoundState h) : Type 0 where
    pub within : iter ≤ rs.max_iter
    pub counted : calls_in rs.telemetry ≡ iter
    pub bound :
        (rs.max_iter ≤ effective_max_iterations rt.max_iterations)
        ⊎ ((rs.max_iter ≤ 2 * effective_max_iterations rt.max_iterations) × (rs.extended ≡ true))

  -- What the rounds return, with at most `n` calls of the model.
  abbrev pub Calls : ℕ → Outcome h → Type 0
  Calls n (completed rs) = calls_in rs.telemetry ≤ n
  Calls n (aborted none e) = Unit
  Calls n (aborted (some rs) e) = calls_in rs.telemetry ≤ n
  Calls n out_of_fuel = ⊥

  -- Four states of the bound: before and after a round, each extended or not.
  Next-Bounded :
      (iter : ℕ) (rs rs' : RoundState h)
      → effective_max_iterations rt.max_iterations ≤ 2 ^ 61
      → Bounded iter rs
      → lt64 iter rs.max_iter ≡ true
      → Next h delegate rt iter rs rs'
      → Bounded (add64 iter 1) rs'
  Next-Bounded iter rs rs' small b more n =
      let fixed = effective_fixed rt.max_iterations small in
      elim n.bound [
        | inl (same, ext) ↦ record {
          within = ground (arith, b, same);
          counted = ground (arith, b, n);
          bound = elim b.bound [
            | inl low ↦ inl (ground (arith, same))
            | inr (high, e) ↦ inr (ground (arith, same), ground (arith, ext, e))
          ];
        }
        | inr (extra, some_extra, few_extra, longer, not_before, now, last) ↦ elim b.bound [
          | inl low ↦ record {
            within = ground arith;
            counted = ground (arith, b, n);
            bound = inr (ground arith, now);
          }
          | inr (high, e) ↦ record {
            within = ground arith;
            counted = ground (arith, b, n);
            bound = inr (ground arith, now);
          }
        ]
      ]

  pub rounds-Calls :
      (fuel : ℕ) (input : AgentLoopInput h) (ctx : Contexts h) (iter : ℕ) (rs : RoundState h)
      (s : State h)
      → WordHook h rt
      → effective_max_iterations rt.max_iterations ≤ 2 ^ 61
      → fuel + iter ≡ suc (2 * effective_max_iterations rt.max_iterations)
      → Bounded iter rs
      → Calls
          (suc (2 * effective_max_iterations rt.max_iterations))
          (rounds h delegate fuel rt input ctx iter rs s).0
  unfolding rounds
  rounds-Calls zero input ctx iter rs s words small fuel_is b = ground (arith, b)
  rounds-Calls (suc fuel) input ctx iter rs s words small fuel_is b =
      let x = round h delegate rt input ctx iter rs s in
      let q = round-Exits h delegate rt input ctx iter rs s words (ground arith) in
      elim (Bool-cases (lt64 iter rs.max_iter)) [
        | inr done ↦ rw (done, rounds) (ground (arith, b))
        | inl more ↦
            let within : iter < 2 * effective_max_iterations rt.max_iterations =
              ground (arith, b) in
            elim (Exits-cases h (Next h delegate rt iter rs) (Called h delegate rt rs)
              (Called h delegate rt rs) x.0 q) [
                | inl (rs', e, next) ↦
                    rw (more, e, rounds)
                      (rounds-Calls fuel input ctx (add64 iter 1) rs' x.1 words small (ground arith)
                        (Next-Bounded iter rs rs' small b more next))
                | inr (inl (rs', e, called)) ↦ rw (more, e, rounds) (ground (arith, b, called))
                | inr (inr (inl (err, e))) ↦ rw (more, e, rounds) tt
                | inr (inr (inr (rs', err, e, called))) ↦
                    rw (more, e, rounds) (ground (arith, b, called))
              ]
      ]

  pub start_state-Bounded :
      (msgs : List (Message h.circuit.Args)) (history : ℕ) (m f : Searched)
      → Bounded 0 (start_state h rt msgs history m f)
  unfolding start_state
  start_state-Bounded msgs history m f = record {
    within = ground arith;
    counted = refl;
    bound = inl (ground arith);
  }
