-- ===== src/Loop/Run/Ends.antt =====
-- A run of the agent ends, with a bounded number of calls of the model.
use agent_sdk_go.Prelude.{
  ℕ, zero, suc, ◌+◌, ◌*◌, ◌≤◌, ◌^◌, ◌≡◌, ◌⊎◌, inl, inr, refl, true, Option, none, some, arith, lt64,
  Bool-cases, ⊎-cases, Option-cases, List, ap, sym, ◌∙◌, add64,
}
use agent_sdk_go.CircuitBreaker
use agent_sdk_go.ErrorControl.{effective_max_iterations}
use agent_sdk_go.Agent.{GoError, Message}
use agent_sdk_go.Loop.{Host, State, LocalRuntime, AgentLoopInput, AgentLoopResult, Searched}
use agent_sdk_go.Loop.Gate.Calls.{calls_in}
use agent_sdk_go.Loop.Rounds.{RoundState, Exit, again, finished, returned, Contexts}
use agent_sdk_go.Loop.Round.{round}
use agent_sdk_go.Loop.Run.{
  Outcome, completed, aborted, out_of_fuel, rounds, enough, start_state, store_run, end_run,
  Returned, conclude, run_loop, with_breaker, delegate_at, execute_agent_loop, start_messages,
  recall_memory, prefetch_context,
}
use agent_sdk_go.Loop.Run.Rounding.{WordHook}
use agent_sdk_go.Loop.Run.Bound.{Calls, rounds-Calls, start_state-Bounded}

module _ (h : Host) where
  pub Exit-cases :
      (x : Exit h)
      → ((rs : RoundState h) × (x ≡ again rs))
        ⊎ ((rs : RoundState h) × (x ≡ finished rs))
        ⊎ ((o : Option (RoundState h)) × (e : GoError) × (x ≡ returned o e))
  Exit-cases (again rs) = inl (rs, refl)
  Exit-cases (finished rs) = inr (inl (rs, refl))
  Exit-cases (returned o e) = inr (inr (o, e, refl))

  store_run-calls :
      (rt : LocalRuntime h) (input : AgentLoopInput h) (rs : RoundState h) (s : State h)
      → calls_in (store_run h rt input rs s).0.telemetry ≡ calls_in rs.telemetry
  unfolding store_run
  store_run-calls rt input rs s = ground arith

  end_run-calls :
      (rt : LocalRuntime h) (input : AgentLoopInput h) (rs : RoundState h) (s : State h)
      → calls_in (end_run h rt input rs s).0.telemetry ≡ calls_in rs.telemetry
  unfolding end_run
  end_run-calls rt input rs s = store_run-calls rt input rs _

  -- A result with at most `n` calls of the model, or none.
  abbrev pub CallsIn : ℕ → Option (RoundState h) → Type 0
  CallsIn n none = Unit
  CallsIn n (some rs) = calls_in rs.telemetry ≤ n

  -- A run returns a result or an error.
  pub record Answer (n : ℕ) (r : Returned h) : Type 0 where
    pub few_calls : CallsIn n r.result
    pub answered : ¬ ((r.result ≡ none) × (r.err ≡ none))

  module _
      (delegate : LocalRuntime h
        → AgentLoopInput h
        → Option ℕ
        → State h
        → (AgentLoopResult h ⊎ GoError) × State h)
      (rt : LocalRuntime h) where
    conclude-Answer :
        (n : ℕ) (input : AgentLoopInput h) (o : Outcome h) (s : State h)
        → Calls h delegate rt n o
        → Answer n (conclude h delegate rt input o s).0
    conclude-Answer n input (completed rs) s q = record {
      few_calls = ground (arith, q, end_run-calls rt input rs s);
      answered = λ (a, b). cc;
    }
    conclude-Answer n input (aborted none e) s q = record {
      few_calls = tt;
      answered = λ (a, b). cc;
    }
    conclude-Answer n input (aborted (some rs) e) s q = record {
      few_calls = q;
      answered = λ (a, b). cc;
    }
    conclude-Answer n input out_of_fuel s q = elim q [ ]

    run_loop-Answer :
        (input : AgentLoopInput h) (s : State h)
        → WordHook h rt
        → effective_max_iterations rt.max_iterations ≤ 2 ^ 61
        → Answer
            (suc (2 * effective_max_iterations rt.max_iterations))
            (run_loop h delegate rt input s).0
    unfolding run_loop
    run_loop-Answer input s words small =
        let ((msgs, history), s₁) = start_messages h rt input s in
        let recalled = recall_memory h rt input s₁ in
        let found = prefetch_context h rt input recalled.1 in
        elim (⊎-cases recalled.0) [
          | inr (e, bad) ↦ rw (bad, run_loop) (record { few_calls = tt; answered = λ (a, b). cc })
          | inl (m, ok) ↦ elim (⊎-cases found.0) [
            | inr (e, bad) ↦
                rw (ok, bad, run_loop) (record { few_calls = tt; answered = λ (a, b). cc })
            | inl (f, ok₂) ↦
                let ctx : Contexts h = record { memory = m.context; retrieved = f.context } in
                let rs = start_state h rt msgs history m f in
                rw (ok, ok₂, run_loop)
                  (conclude-Answer _ input _ _ (
                    rounds-Calls h delegate rt (enough h delegate rt) input ctx 0 rs found.1 words
                      small (ground arith) (start_state-Bounded h delegate rt msgs history m f)))
          ]
        ]

    with_breaker-Answer :
        (input : AgentLoopInput h) (s : State h)
        → WordHook h rt
        → effective_max_iterations rt.max_iterations ≤ 2 ^ 61
        → Answer
            (suc (2 * effective_max_iterations rt.max_iterations))
            (with_breaker h delegate rt input s).0
    unfolding with_breaker
    with_breaker-Answer input s words small =
        let own : State h = record s {
          breaker = CircuitBreaker.new_circuit_breaker rt.circuit_config;
        } in
        elim (Option-cases s.breaker) [
          | inl none_given ↦ rw (none_given, with_breaker) (run_loop-Answer input own words small)
          | inr (b, given) ↦ rw (given, with_breaker) (run_loop-Answer input s words small)
        ]

    pub rounds-again :
        (fuel : ℕ) (input : AgentLoopInput h) (ctx : Contexts h) (iter : ℕ) (rs rs' : RoundState h)
        (s : State h)
        → lt64 iter rs.max_iter ≡ true
        → (round h delegate rt input ctx iter rs s).0 ≡ again rs'
        → rounds h delegate (suc fuel) rt input ctx iter rs s
          ≡ rounds h delegate fuel rt input ctx
              (add64 iter 1)
              rs'
              (round h delegate rt input ctx iter rs s).1
    unfolding rounds
    rounds-again fuel input ctx iter rs rs' s more e = rw (more, e, rounds) refl

    rounds-more :
        (fuel : ℕ) (input : AgentLoopInput h) (ctx : Contexts h) (iter : ℕ) (rs : RoundState h)
        (s : State h)
        → ¬ ((rounds h delegate fuel rt input ctx iter rs s).0 ≡ out_of_fuel)
        → rounds h delegate (suc fuel) rt input ctx iter rs s
          ≡ rounds h delegate fuel rt input ctx iter rs s
    unfolding rounds
    rounds-more zero input ctx iter rs s ends = elim (ends refl) [ ]
    rounds-more (suc fuel) input ctx iter rs s ends =
        let x = round h delegate rt input ctx iter rs s in
        elim (Bool-cases (lt64 iter rs.max_iter)) [
          | inr done ↦ rw (done, rounds) refl
          | inl more ↦ elim (Exit-cases x.0) [
            | inl (rs', e) ↦
                let here = rounds-again fuel input ctx iter rs rs' s more e in
                let there = rounds-again (suc fuel) input ctx iter rs rs' s more e in
                there
                ∙ rounds-more fuel input ctx (add64 iter 1) rs' x.1
                    (λ q. ends (ap (λ y. y.0) here ∙ q))
                ∙ sym here
            | inr (inl (rs', e)) ↦ rw (more, e, rounds) refl
            | inr (inr (o, err, e)) ↦ rw (more, e, rounds) refl
          ]
        ]

    rounds-extra :
        (extra fuel : ℕ) (input : AgentLoopInput h) (ctx : Contexts h) (iter : ℕ)
        (rs : RoundState h) (s : State h)
        → ¬ ((rounds h delegate fuel rt input ctx iter rs s).0 ≡ out_of_fuel)
        → rounds h delegate (extra + fuel) rt input ctx iter rs s
          ≡ rounds h delegate fuel rt input ctx iter rs s
    rounds-extra zero fuel input ctx iter rs s ends =
        let none_more : 0 + fuel ≡ fuel = omega arith in
        ap (λ n. rounds h delegate n rt input ctx iter rs s) none_more
    rounds-extra (suc extra) fuel input ctx iter rs s ends =
        let same = rounds-extra extra fuel input ctx iter rs s ends in
        let one_more : suc extra + fuel ≡ suc (extra + fuel) = omega arith in
        ap (λ n. rounds h delegate n rt input ctx iter rs s) one_more
        ∙ rounds-more (extra + fuel) input ctx iter rs s (λ q. ends (ap (λ y. y.0) (sym same) ∙ q))
        ∙ same

    Calls-ends : (n : ℕ) (o : Outcome h) → Calls h delegate rt n o → ¬ (o ≡ out_of_fuel)
    Calls-ends n (completed rs) q = λ e. cc
    Calls-ends n (aborted none e) q = λ e. cc
    Calls-ends n (aborted (some rs) e) q = λ e. cc
    Calls-ends n out_of_fuel q = elim q [ ]

    -- The rounds of a run end: from the first round, with whatever was fetched before, they do not use
    -- up fuel for twice the bound on iterations plus one, and any more fuel gives the same, when that
    -- bound is at most 2 ^ 61 and hooks ask for 64-bit numbers of rounds.
    pub rounds-enough :
        (extra : ℕ) (input : AgentLoopInput h) (ctx : Contexts h)
        (msgs : List (Message h.circuit.Args)) (history : ℕ) (memory found : Searched) (s : State h)
        → WordHook h rt
        → effective_max_iterations rt.max_iterations ≤ 2 ^ 61
        → let rs = start_state h rt msgs history memory found in
          let end = rounds h delegate (enough h delegate rt) rt input ctx 0 rs s in
          (¬ (end.0 ≡ out_of_fuel))
          × (rounds h delegate (extra + enough h delegate rt) rt input ctx 0 rs s ≡ end)
    rounds-enough extra input ctx msgs history memory found s words small =
        let rs = start_state h rt msgs history memory found in
        let ends = Calls-ends _ _ (
          rounds-Calls h delegate rt (enough h delegate rt) input ctx 0 rs s words small
            (ground arith) (start_state-Bounded h delegate rt msgs history memory found)) in
        (ends, rounds-extra extra (enough h delegate rt) input ctx 0 rs s ends)

  -- A run of the agent, at every depth of delegation, returns a result or an error, and a result that
  -- it returns counts at most twice as many calls of the model as the bound on iterations, plus one,
  -- when that bound is at most 2 ^ 61 and hooks ask for 64-bit numbers of rounds.
  pub execute_agent_loop-Answer :
      (depth : ℕ) (rt : LocalRuntime h) (input : AgentLoopInput h) (s : State h)
      → WordHook h rt
      → effective_max_iterations rt.max_iterations ≤ 2 ^ 61
      → Answer
          (suc (2 * effective_max_iterations rt.max_iterations))
          (execute_agent_loop h depth rt input s).0
  unfolding execute_agent_loop
  execute_agent_loop-Answer depth rt input s words small =
      with_breaker-Answer (delegate_at h depth) rt input s words small
