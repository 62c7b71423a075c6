-- ===== src/Loop/Run/Answers.antt =====
-- Every call of a tool in a run's messages is answered.
use agent_sdk_go.Prelude.{◌⊎◌, Option, none, some, List}
use agent_sdk_go.Agent.{Message}
use agent_sdk_go.Loop.{Host, LocalRuntime}
use agent_sdk_go.Loop.Rounds.{RoundState}
use agent_sdk_go.Loop.Run.{Outcome, completed, aborted, out_of_fuel}
use agent_sdk_go.Loop.Run.Pairing.{Paired, Ended}

module _ (h : Host) where
  -- The messages of a result.
  abbrev pub WellPaired :
      LocalRuntime h → List (Message h.circuit.Args) → Option (RoundState h) → Type 0
  WellPaired rt start none = Unit
  WellPaired rt start (some rs) = Ended h rt start rs.messages ⊎ Paired h rt start rs.messages

  abbrev OutcomePaired : LocalRuntime h → List (Message h.circuit.Args) → Outcome h → Type 0
  OutcomePaired rt start (completed rs) = WellPaired rt start (some rs)
  OutcomePaired rt start (aborted r e) = WellPaired rt start r
  OutcomePaired rt start out_of_fuel = Unit
