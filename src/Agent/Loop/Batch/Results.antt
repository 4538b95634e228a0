-- ===== src/Agent/Loop/Batch/Results.antt =====
-- pkg/agent/loop.go: every tool call gets its result.
use midas.Common.{ℕ, suc, ◌≡◌, refl, ap, Option, List, [], ◌∷◌, map, arith}
use midas.Common.Text.{Text}
use midas.Ai.Message.{StopReason, ToolCall}
use midas.Agent.Loop.{RunError, Tool, ToolExecutionMode, ExecutedCall, Execution, failed_call}
use midas.Agent.Loop.Batch.{
  Worker, execute_tool_after_start, execute_tool, refuse_truncated, execute_sequential, workers,
  execute_tool_batch,
}

abbrev pub called : ExecutedCall → ToolCall
called x = x.call

call-execute_tool_after_start :
    (tools : List Tool) (c : ToolCall) (x : Execution)
    → (execute_tool_after_start tools c x).0.call ≡ c
unfolding execute_tool_after_start failed_call
call-execute_tool_after_start tools c x = ground arith

calls-refuse_truncated :
    (quote : Text → Text) (cs : List ToolCall) → map called (refuse_truncated quote cs).0 ≡ cs
unfolding refuse_truncated failed_call
calls-refuse_truncated quote [] = refl
calls-refuse_truncated quote (c ∷ cs) = ap (c ∷◌) (calls-refuse_truncated quote cs)

module _ (tools : List Tool) (execute : ℕ → Execution) where
  calls-execute_sequential :
      (ctx : ℕ → Option RunError) (i : ℕ) (cs : List ToolCall)
      → map called (execute_sequential tools ctx execute i cs).0 ≡ cs
  unfolding execute_sequential execute_tool failed_call
  calls-execute_sequential ctx i [] = refl
  calls-execute_sequential ctx i (c ∷ cs) = ground (
    arith,
    calls-execute_sequential ctx (suc i) cs,
    call-execute_tool_after_start tools c (execute i),
  )

  calls-workers :
      (i : ℕ) (cs : List ToolCall)
      → map called (map (λ (w : Worker). w.executed) (workers tools execute i cs)) ≡ cs
  unfolding workers
  calls-workers i [] = refl
  calls-workers i (c ∷ cs) =
      ground (arith, calls-workers (suc i) cs, call-execute_tool_after_start tools c (execute i))

-- Whatever the mode, the stop reason, the tools and the cancellation, the batch gives one result
-- for each call, in the order of the calls.
pub calls-execute_tool_batch :
    (quote : Text → Text) (tools : List Tool) (calls : List ToolCall) (stop_reason : StopReason)
    (mode : ToolExecutionMode) (ctx : ℕ → Option RunError) (execute : ℕ → Execution)
    (schedule : List ℕ)
    → map called (execute_tool_batch quote tools calls stop_reason mode ctx execute schedule).0
      ≡ calls
unfolding execute_tool_batch
calls-execute_tool_batch quote tools calls stop_reason mode ctx execute schedule = ground (
  arith,
  calls-refuse_truncated quote calls,
  calls-execute_sequential tools execute ctx 0 calls,
  calls-workers tools execute 0 calls,
)
