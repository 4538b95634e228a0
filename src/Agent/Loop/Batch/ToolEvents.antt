-- ===== src/Agent/Loop/Batch/ToolEvents.antt =====
-- pkg/agent/loop.go: a batch pushes only events of tool executions.
use midas.Common.{
  ℕ, zero, suc, ◌≡◌, refl, Bool, true, false, Option, List, [], ◌∷◌, ◌++◌, All, All-append,
  Bool-cases, ◌||◌, Option-cases, inl, inr,
}
use midas.Common.Text.{Text, is_empty}
use midas.Ai.Message.{StopReason, ToolCall}
use midas.Agent.Loop.{
  RunError, Tool, ToolExecutionMode, ToolResult, Execution, Event, tool_execution_start,
  tool_execution_update, tool_execution_end, contains_sequential_tool,
}
use midas.Agent.Loop.Batch.{
  Worker, update_events, execute_tool_after_start, execute_tool, refuse_truncated,
  execute_sequential, workers, advance, flatten_events, run_out, interleave, execute_tool_batch,
  find_tool, is_sequential, is_length,
}

abbrev pub is_tool_event : Event → Bool
is_tool_event (tool_execution_start _) = true
is_tool_event (tool_execution_update _ _) = true
is_tool_event (tool_execution_end _) = true
is_tool_event _ = false

abbrev pub OnlyTool : List Event → Type 0
OnlyTool = All (λ e. is_tool_event e ≡ true)

OnlyTool-update_events :
    (b : Bool) (c : ToolCall) (us : List ToolResult) → OnlyTool (update_events b c us)
OnlyTool-update_events b c [] = tt
OnlyTool-update_events true c (u ∷ us) = (refl, OnlyTool-update_events true c us)
OnlyTool-update_events false c (u ∷ us) = OnlyTool-update_events false c us

OnlyTool-after_start :
    (tools : List Tool) (c : ToolCall) (x : Execution)
    → OnlyTool (execute_tool_after_start tools c x).1
unfolding execute_tool_after_start
OnlyTool-after_start tools c x = elim (Option-cases (find_tool tools c.name)) [
  | inl e ↦ rw (e, execute_tool_after_start) (refl, tt)
  | inr (t, e) ↦
      rw (e, execute_tool_after_start)
        (All-append _ (update_events true c x.updates) _ (OnlyTool-update_events true c x.updates)
          (refl, OnlyTool-update_events false c x.late_updates))
]

OnlyTool-refuse_truncated :
    (quote : Text → Text) (cs : List ToolCall) → OnlyTool (refuse_truncated quote cs).1
unfolding refuse_truncated
OnlyTool-refuse_truncated quote [] = tt
OnlyTool-refuse_truncated quote (c ∷ cs) = (refl, (refl, OnlyTool-refuse_truncated quote cs))

abbrev OnlyToolWorker : Worker → Type 0
OnlyToolWorker w = (is_tool_event w.start ≡ true) × OnlyTool w.events

module _ (tools : List Tool) (execute : ℕ → Execution) where
  OnlyTool-execute_sequential :
      (ctx : ℕ → Option RunError) (i : ℕ) (cs : List ToolCall)
      → OnlyTool (execute_sequential tools ctx execute i cs).1
  unfolding execute_sequential execute_tool
  OnlyTool-execute_sequential ctx i [] = tt
  OnlyTool-execute_sequential ctx i (c ∷ cs) = elim (Option-cases (ctx i)) [
    | inl e ↦
        rw (e, execute_sequential)
          (
            refl,
            All-append _ (execute_tool_after_start tools c (execute i)).1 _
                (OnlyTool-after_start tools c (execute i))
                (OnlyTool-execute_sequential ctx (suc i) cs),
          )
    | inr (err, e) ↦
        rw (e, execute_sequential) (refl, (refl, OnlyTool-execute_sequential ctx (suc i) cs))
  ]

  OnlyTool-workers : (i : ℕ) (cs : List ToolCall) → All OnlyToolWorker (workers tools execute i cs)
  unfolding workers
  OnlyTool-workers i [] = tt
  OnlyTool-workers i (c ∷ cs) =
      ((refl, OnlyTool-after_start tools c (execute i)), OnlyTool-workers (suc i) cs)

OnlyTool-flatten :
    (running : List (List Event)) → All OnlyTool running → OnlyTool (flatten_events running)
OnlyTool-flatten [] h = tt
OnlyTool-flatten (es ∷ rest) h = All-append _ es _ h.0 (OnlyTool-flatten rest h.1)

OnlyTool-advance :
    (i : ℕ) (running : List (List Event))
    → All OnlyTool running
    → OnlyTool (advance i running).0 × All OnlyTool (advance i running).1
unfolding advance
OnlyTool-advance i [] h = (tt, tt)
OnlyTool-advance zero ([] ∷ rest) h = (tt, h)
OnlyTool-advance zero ((e ∷ es) ∷ rest) h = ((h.0.0, tt), (h.0.1, h.1))
OnlyTool-advance (suc i) (es ∷ rest) h = let (p, q) = OnlyTool-advance i rest h.1 in (p, (h.0, q))

OnlyTool-run_out :
    (ws : List Worker) (running : List (List Event))
    → All OnlyToolWorker ws
    → All OnlyTool running
    → OnlyTool (run_out ws running)
OnlyTool-run_out [] running h k = OnlyTool-flatten running k
OnlyTool-run_out (w ∷ ws) running h k = (
  h.0.0,
  OnlyTool-run_out ws (running ++ w.events ∷ []) h.1 (All-append _ running _ k (h.0.1, tt)),
)

OnlyTool-interleave :
    (schedule : List ℕ) (ws : List Worker) (running : List (List Event))
    → All OnlyToolWorker ws
    → All OnlyTool running
    → OnlyTool (interleave schedule ws running)
unfolding interleave
OnlyTool-interleave [] ws running h k = OnlyTool-run_out ws running h k
OnlyTool-interleave (zero ∷ schedule) [] running h k = OnlyTool-interleave schedule [] running h k
OnlyTool-interleave (zero ∷ schedule) (w ∷ ws) running h k = (
  h.0.0,
  OnlyTool-interleave schedule ws (running ++ w.events ∷ []) h.1
      (All-append _ running _ k (h.0.1, tt)),
)
OnlyTool-interleave (suc i ∷ schedule) ws running h k =
    let (p, q) = OnlyTool-advance i running k in
    All-append _ (advance i running).0 _ p (OnlyTool-interleave schedule ws _ h q)

pub OnlyTool-execute_tool_batch :
    (quote : Text → Text) (tools : List Tool) (calls : List ToolCall) (stop_reason : StopReason)
    (mode : ToolExecutionMode) (ctx : ℕ → Option RunError) (execute : ℕ → Execution)
    (schedule : List ℕ)
    → OnlyTool (execute_tool_batch quote tools calls stop_reason mode ctx execute schedule).1
unfolding execute_tool_batch
OnlyTool-execute_tool_batch quote tools calls stop_reason mode ctx execute schedule =
    elim (Bool-cases (is_empty calls)) [
      | inl none_left ↦ rw (none_left, execute_tool_batch) tt
      | inr some_left ↦ elim (Bool-cases (is_length stop_reason)) [
        | inl cut ↦ rw (some_left, cut, execute_tool_batch) (OnlyTool-refuse_truncated quote calls)
        | inr whole ↦
            elim (Bool-cases (is_sequential mode || contains_sequential_tool tools calls)) [
              | inl one_by_one ↦
                  rw (some_left, whole, one_by_one, execute_tool_batch)
                    (OnlyTool-execute_sequential tools execute ctx 0 calls)
              | inr together ↦
                  rw (some_left, whole, together, execute_tool_batch)
                    (OnlyTool-interleave schedule _ [] (OnlyTool-workers tools execute 0 calls) tt)
            ]
      ]
    ]
