-- ===== src/Agent/Loop/Batch.antt =====
-- pkg/agent/loop.go: the execution of one assistant message's tool calls. `execute i` is what the
-- tool of the i-th call does if it is run, `ctx i` what ctx.Err() gives before it.
pub mod Results
pub mod ToolEvents
pub mod Interleave
use midas.Common.{
  ℕ, zero, suc, Bool, true, false, ◌||◌, Option, none, some, List, [], ◌∷◌, ◌++◌, map,
  if◌then◌else◌,
}
use midas.Common.Text.{Text, text_eq, codes, is_empty}
use midas.Ai.Message.{StopReason, ToolCall, length as length_stop}
use midas.Agent.Loop.{
  RunError, ToolResult, Tool, Outcome, Execution, ToolExecutionMode, sequential_mode, ExecutedCall,
  Event, tool_execution_start, tool_execution_update, tool_execution_end, failed_call,
  contains_sequential_tool,
}

-- The first tool of that name.
abbrev pub find_tool : List Tool → Text → Option Tool
find_tool [] name = none
find_tool (t ∷ tools) name = if text_eq t.name name then some t else find_tool tools name

-- The update callback; it drops what comes once `accepting` is false.
abbrev pub update_events : Bool → ToolCall → List ToolResult → List Event
update_events accepting call [] = []
update_events accepting call (u ∷ us) =
    let rest = update_events accepting call us in
    if accepting then tool_execution_update call u ∷ rest else rest

abbrev pub finish_call : ToolCall → Outcome ToolResult → ExecutedCall
finish_call call (Outcome.ok r) = record { call = call; result = r; is_error = false }
finish_call call (Outcome.err e) = failed_call call e.message

abbrev pub not_found : Text → Text
not_found name = codes "tool " ++ name ++ codes " not found"

-- executeToolAfterStart: the result, and the events that the call pushes, in order.
unfoldable pub execute_tool_after_start :
    List Tool → ToolCall → Execution → ExecutedCall × List Event
execute_tool_after_start tools call x = elim (find_tool tools call.name) [
  | none ↦
      let result = failed_call call (not_found call.name) in
      (result, tool_execution_end result ∷ [])
  | some tool ↦
      let result = finish_call call x.outcome in
      (
        result,
        update_events true call x.updates
            ++ tool_execution_end result ∷ update_events false call x.late_updates,
      )
]

-- executeTool
unfoldable pub execute_tool : List Tool → ToolCall → Execution → ExecutedCall × List Event
execute_tool tools call x =
    let (result, events) = execute_tool_after_start tools call x in
    (result, tool_execution_start call ∷ events)

abbrev pub refused_call : ToolCall → Text → ExecutedCall × List Event
refused_call call e =
    let result = failed_call call e in
    (result, tool_execution_start call ∷ tool_execution_end result ∷ [])

-- `quote` is strconv.Quote, which the verb %q applies.
abbrev pub truncated : (Text → Text) → Text → Text
truncated quote name =
    codes "tool call "
    ++ quote name
    ++ codes
        " was not executed: the response hit the output token limit, so its arguments may be truncated"

abbrev pub Batch : Type 0
Batch = List ExecutedCall × List Event

abbrev pub add_call : ExecutedCall × List Event → Batch → Batch
add_call x rest = (x.0 ∷ rest.0, x.1 ++ rest.1)

-- The branch of a response that hit the token limit: nothing is executed.
unfoldable pub refuse_truncated : (Text → Text) → List ToolCall → Batch
refuse_truncated quote [] = ([], [])
refuse_truncated quote (c ∷ cs) =
    add_call (refused_call c (truncated quote c.name)) (refuse_truncated quote cs)

-- The sequential branch, from the call number `i` on.
unfoldable pub execute_sequential :
    List Tool → (ℕ → Option RunError) → (ℕ → Execution) → ℕ → List ToolCall → Batch
execute_sequential tools ctx execute i [] = ([], [])
execute_sequential tools ctx execute i (c ∷ cs) =
    let rest = execute_sequential tools ctx execute (suc i) cs in
    elim (ctx i) [
      | some e ↦ add_call (refused_call c e.message) rest
      | none ↦ add_call (execute_tool tools c (execute i)) rest
    ]

-- The goroutines of the parallel branch, one for each call: its result, the event that is pushed
-- before it is started, and the events that it pushes.
pub record Worker : Type 0 where
  pub executed : ExecutedCall
  pub start : Event
  pub events : List Event

unfoldable pub workers : List Tool → (ℕ → Execution) → ℕ → List ToolCall → List Worker
workers tools execute i [] = []
workers tools execute i (c ∷ cs) =
    let (result, events) = execute_tool_after_start tools c (execute i) in
    record { executed = result; start = tool_execution_start c; events = events }
    ∷ workers tools execute (suc i) cs

-- The worker at a place makes its next push; a choice of none changes nothing.
unfoldable pub advance : ℕ → List (List Event) → List Event × List (List Event)
advance i [] = ([], [])
advance zero ([] ∷ rest) = ([], [] ∷ rest)
advance zero ((e ∷ es) ∷ rest) = (e ∷ [], es ∷ rest)
advance (suc i) (es ∷ rest) = let (out, rest') = advance i rest in (out, es ∷ rest')

abbrev pub flatten_events : List (List Event) → List Event
flatten_events [] = []
flatten_events (es ∷ rest) = es ++ flatten_events rest

-- wg.Wait, where the schedule has no more choices: what is left runs in order.
abbrev pub run_out : List Worker → List (List Event) → List Event
run_out [] running = flatten_events running
run_out (w ∷ ws) running = w.start ∷ run_out ws (running ++ w.events ∷ [])

-- The events of the parallel branch under a schedule: 0 lets the loop push the next start and
-- start its goroutine, `suc i` lets the i-th goroutine push.
unfoldable pub interleave : List ℕ → List Worker → List (List Event) → List Event
unfolding advance
interleave [] ws running = run_out ws running
interleave (zero ∷ schedule) [] running = interleave schedule [] running
interleave (zero ∷ schedule) (w ∷ ws) running =
    w.start ∷ interleave schedule ws (running ++ w.events ∷ [])
interleave (suc i ∷ schedule) ws running =
    let (out, running') = advance i running in out ++ interleave schedule ws running'

abbrev pub is_sequential : ToolExecutionMode → Bool
is_sequential sequential_mode = true
is_sequential _ = false

abbrev pub is_length : StopReason → Bool
is_length length_stop = true
is_length _ = false

-- executeToolBatch; with no call no branch does anything.
unfoldable pub execute_tool_batch :
    (Text → Text)
    → List Tool
    → List ToolCall
    → StopReason
    → ToolExecutionMode
    → (ℕ → Option RunError)
    → (ℕ → Execution)
    → List ℕ
    → Batch
unfolding workers
execute_tool_batch quote tools calls stop_reason mode ctx execute schedule =
    if is_empty calls
    then ([], [])
    else if is_length stop_reason
    then refuse_truncated quote calls
    else if is_sequential mode || contains_sequential_tool tools calls
    then execute_sequential tools ctx execute 0 calls
    else let ws = workers tools execute 0 calls in
      (map (λ (w : Worker). w.executed) ws, interleave schedule ws [])
