-- ===== src/Loop/Run/Examples.antt =====
-- A run of two rounds: a call of `ls`, and the answer.
use agent_sdk_go.Prelude.{suc, ◌+◌, ◌*◌, ◌^◌, ◌≤◌, ◌≡◌, none, [], arith}
use agent_sdk_go.ErrorControl.{effective_max_iterations}
use agent_sdk_go.Loop.{State}
use agent_sdk_go.Loop.Sample.{host, runtime, input}
use agent_sdk_go.Loop.Rounds.{Contexts}
use agent_sdk_go.Loop.Run.{
  rounds, enough, start_state, out_of_fuel, delegate_at, execute_agent_loop, nothing_found,
}
use agent_sdk_go.Loop.Run.Rounding.{WordHook}
use agent_sdk_go.Loop.Run.Ends.{Answer, rounds-enough, execute_agent_loop-Answer}
use agent_sdk_go.Loop.Run.Depth.{execute_agent_loop-depth}

abbrev start : State host
start = record { w = 0; tracker = none; breaker = none }

abbrev contexts : Contexts host
contexts = record { memory = ""; retrieved = "" }

no_hook : WordHook host runtime
no_hook c hook info e e' = cc

small_bound : effective_max_iterations runtime.max_iterations ≤ 2 ^ 61
unfolding effective_max_iterations
small_bound = ground arith

rounds-enough_example :
    let rs = start_state host runtime [] 0 (nothing_found host) (nothing_found host) in
    let end =
      rounds host
        (delegate_at host 2)
        (enough host (delegate_at host 2) runtime)
        runtime
        input
        contexts
        0
        rs
        start in
    (¬ (end.0 ≡ out_of_fuel))
    × (rounds host
          (delegate_at host 2)
          (5 + enough host (delegate_at host 2) runtime)
          runtime
          input
          contexts
          0
          rs
          start
        ≡ end)
rounds-enough_example =
    rounds-enough host (delegate_at host 2) runtime 5 input contexts [] 0 (nothing_found host)
      (nothing_found host) start no_hook small_bound

execute_agent_loop-Answer_example :
    Answer host
      (suc (2 * effective_max_iterations runtime.max_iterations))
      (execute_agent_loop host 2 runtime input start).0
execute_agent_loop-Answer_example =
    execute_agent_loop-Answer host 2 runtime input start no_hook small_bound

execute_agent_loop-depth_example :
    execute_agent_loop host 2 runtime input start
    ≡ execute_agent_loop host (2 + 3) runtime input start
execute_agent_loop-depth_example =
    execute_agent_loop-depth host 2 3 runtime input start (ground arith) (ground arith)
      (ground arith)
