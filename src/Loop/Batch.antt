-- ===== src/Loop/Batch.antt =====
-- The tool calls of one round: executeToolsSequential and executeToolsParallel of
-- internal/runtime/local/agent_loop.go. The goroutines of the parallel mode finish in any order; each
-- is one step here, so interleavings inside a call are not modelled.
pub mod Slots
use Prim.Native.String.{◌++◌ as str_append}
use agent_sdk_go.Prelude.{
  ℕ, zero, suc, Bool, true, false, Option, none, some, List, [], ◌∷◌, String, ◌⊎◌, length,
  replicate, get_elem?,
}
use agent_sdk_go.Agent.{ToolCallRequest, GoError}
use agent_sdk_go.Loop.{Host, State, LocalRuntime, AgentLoopInput, AgentLoopResult, ToolResult}
use agent_sdk_go.Loop.Call.{tool_message, zero_message}
use agent_sdk_go.Loop.Tool.{execute_single_tool, settle_result}

-- results[i] = a
unfoldable pub set_at : {A : Type 0} → ℕ → A → List A → List A
set_at i a [] = []
set_at zero a (x ∷ xs) = a ∷ xs
set_at (suc i) a (x ∷ xs) = x ∷ set_at i a xs

module _ (h : Host) where
  open h use {circuit}

  abbrev pub zero_result : ToolResult h
  zero_result = record { message = zero_message h; failed = false }

  module _
      (delegate : LocalRuntime h
        → AgentLoopInput h
        → Option ℕ
        → State h
        → (AgentLoopResult h ⊎ GoError) × State h) where
    unfoldable pub execute_tools_sequential :
        LocalRuntime h
        → AgentLoopInput h
        → String
        → List (ToolCallRequest circuit.Args)
        → State h
        → List (ToolResult h) × State h
    execute_tools_sequential rt input message_id [] s = ([], s)
    execute_tools_sequential rt input message_id (tc ∷ tcs) s =
        let ((result, err), s₁) = execute_single_tool h delegate rt input message_id tc s in
        let (results, s₂) = execute_tools_sequential rt input message_id tcs s₁ in
        (settle_result h tc result err ∷ results, s₂)

    -- One goroutine, which writes its own slot.
    unfoldable pub parallel_call :
        LocalRuntime h
        → AgentLoopInput h
        → String
        → List (ToolCallRequest circuit.Args)
        → ℕ
        → List (ToolResult h)
        → State h
        → List (ToolResult h) × State h
    unfolding set_at
    parallel_call rt input message_id tcs idx results s = elim (get_elem? tcs idx) [
      | none ↦ (results, s)
      | some tc ↦
          let ((result, err), s') = execute_single_tool h delegate rt input message_id tc s in
          (set_at idx (settle_result h tc result err) results, s')
    ]

    -- The goroutines in the order in which they run.
    unfoldable pub run_order :
        LocalRuntime h
        → AgentLoopInput h
        → String
        → List (ToolCallRequest circuit.Args)
        → List ℕ
        → List (ToolResult h)
        → State h
        → List (ToolResult h) × State h
    unfolding parallel_call
    run_order rt input message_id tcs [] results s = (results, s)
    run_order rt input message_id tcs (idx ∷ order) results s =
        let (results', s') = parallel_call rt input message_id tcs idx results s in
        run_order rt input message_id tcs order results' s'

    unfoldable pub execute_tools_parallel :
        LocalRuntime h
        → AgentLoopInput h
        → String
        → List ℕ
        → List (ToolCallRequest circuit.Args)
        → State h
        → List (ToolResult h) × State h
    execute_tools_parallel rt input message_id order tcs s =
        run_order rt input message_id tcs order (replicate (length tcs) zero_result) s
