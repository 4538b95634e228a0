-- ===== src/Agent/Loop/Run.antt =====
-- pkg/agent/loop.go: the run, turn by turn.
pub mod Events
pub mod Balanced
pub mod Pairs
pub mod Steering
pub mod Compacted
use midas.Common.{
  ℕ, Bool, true, false, ◌&&◌, ◌||◌, not, Option, none, some, List, [], ◌∷◌, ◌++◌, map,
  if◌then◌else◌,
}
use midas.Common.Int.{ℤ}
use midas.Common.Text.{Text, is_empty}
use midas.Ai.Message.{AssistantMessage, ToolResultMessage, Body, Message}
use midas.Agent.Calls.{tool_calls}
use midas.Agent.Compaction.{is_failure}
use midas.Agent.Steering.{SteeringQueue, push_all, drain, drain_or_close, close}
use midas.Agent.Loop.{
  RunError, Tool, Execution, ToolExecutionMode, CacheWarmingMode, off, Model, ExecutedCall, Event,
  agent_start, turn_start, message_start, message_end, turn_end, agent_end, Effect, emit,
  warmer_settle, warmer_close, pair_of_events, tool_result_message,
}
use midas.Agent.Loop.Batch.{Batch, execute_tool_batch}
use midas.Agent.Loop.Assistant.{
  Response, Warmer, no_warmer, owned, shared, Streamed, assistant, stream_assistant,
}

-- The configuration of a run, the tools of its context included. `quote` is strconv.Quote.
pub record Config : Type 0 where
  pub model : Model
  pub tools : List Tool
  pub tool_execution : ToolExecutionMode
  pub cache_warming : CacheWarmingMode
  pub has_cache_warmer : Bool
  pub quote : Text → Text

-- What the world does in one turn.
pub record Turn : Type 0 where
  pub now : ℤ
  pub response : Option Response
  pub ctx : ℕ → Option RunError
  pub execute : ℕ → Execution
  pub schedule : List ℕ
  pub pushes : List Message
  pub ctx_after : Option RunError

-- `steering` is `none` for a run without a queue.
pub record RunState : Type 0 where
  pub current : List Message
  pub new_messages : List Message
  pub steering : Option SteeringQueue
  pub trace : List Effect

pub data Progress : Type 0 where
  continues : Progress
  finished : Option RunError → Progress

is_off : CacheWarmingMode → Bool
is_off off = true
is_off _ = false

-- The warmer that `run` uses.
unfoldable pub run_warmer : Config → Warmer
unfolding is_off
run_warmer c =
    if c.has_cache_warmer then shared else if is_off c.cache_warming then no_warmer else owned

abbrev pub all_pairs : List Message → List Effect
all_pairs [] = []
all_pairs (m ∷ ms) = pair_of_events m ++ all_pairs ms

-- A message joins the context and the new messages.
unfoldable pub add_message : RunState → Message → List Effect → RunState
add_message s m effects = record s {
  current = s.current ++ m ∷ [];
  new_messages = s.new_messages ++ m ∷ [];
  trace = s.trace ++ effects;
}

-- appendSteers, and the loop over the prompts.
unfoldable pub append_messages : RunState → List Message → RunState
append_messages s [] = s
append_messages s (m ∷ ms) = append_messages (add_message s m (pair_of_events m)) ms

abbrev pub tool_result : ToolResultMessage → Message
tool_result m = Message.value (Body.tool_result m)

abbrev pub emits : RunState → Event → RunState
emits s e = record s { trace = s.trace ++ emit e ∷ [] }

abbrev pub empty_run : List Message → Option SteeringQueue → RunState
empty_run initial steering = record {
  current = initial;
  new_messages = [];
  steering = steering;
  trace = emit agent_start ∷ emit turn_start ∷ [];
}

-- The state behind the prompts, before the first turn.
unfoldable pub start_run : List Message → Option SteeringQueue → List Message → RunState
start_run initial steering prompts = append_messages (empty_run initial steering) prompts

abbrev pub all_terminate : List ExecutedCall → Bool
all_terminate [] = true
all_terminate (x ∷ xs) = x.result.terminate && all_terminate xs

abbrev pub is_some {ℓ} : {A : Type ℓ} → Option A → Bool
is_some none = false
is_some (some _) = true

-- `drainOrClose` at a turn that would finish, `drain` at one that would not; `true` is that the
-- queue closed.
abbrev pub drain_at_boundary : Bool → SteeringQueue → List Message × Bool × SteeringQueue
drain_at_boundary true q = drain_or_close q
drain_at_boundary false q = let (ms, q') = drain q in (ms, false, q')

abbrev pub after_drain :
    RunState → Option RunError → List Message × Bool × SteeringQueue → RunState × Progress
after_drain s run_err (ms, true, q) = (record s { steering = some q }, finished run_err)
after_drain s run_err (ms, false, q) =
    (emits (append_messages (record s { steering = some q }) ms) turn_start, continues)

-- The boundary behind a turn.
unfoldable pub steer : RunState → Option RunError → Bool → RunState × Progress
steer s run_err would_finish = elim s.steering [
  | none ↦ if would_finish then (s, finished run_err) else (emits s turn_start, continues)
  | some q ↦ after_drain s run_err (drain_at_boundary would_finish q)
]

-- The boundary behind a turn whose context was cancelled: the queue is closed, and what it held is
-- appended.
unfoldable pub stop_steering : RunState → RunState
stop_steering s = elim s.steering [
  | none ↦ s
  | some q ↦ let (ms, q') = close q in append_messages (record s { steering = some q' }) ms
]

-- Pushes of other goroutines up to the boundary.
unfoldable pub receive_pushes : RunState → List Message → RunState
receive_pushes s ms = elim s.steering [
  | none ↦ s
  | some q ↦ record s { steering = some (push_all q ms) }
]

abbrev pub batch_of : Config → Turn → AssistantMessage → Batch
batch_of config turn m =
    execute_tool_batch config.quote config.tools (tool_calls m) m.stop_reason config.tool_execution
      turn.ctx turn.execute turn.schedule

abbrev pub result_messages : Turn → List ExecutedCall → List ToolResultMessage
result_messages turn = map (tool_result_message turn.now)

-- The tool calls of a response, their results, and the end of the turn.
unfoldable pub run_tools : Config → Turn → AssistantMessage → RunState → RunState
run_tools config turn m s =
    let (results, events) = batch_of config turn m in
    let s' = record s { trace = s.trace ++ map emit events } in
    emits (append_messages s' (map tool_result (result_messages turn results)))
      (turn_end m (result_messages turn results) none)

-- What follows a response that did not fail.
unfoldable pub complete_turn :
    Config → Turn → AssistantMessage → Option RunError → RunState → RunState × Progress
complete_turn config turn m model_err s =
    let ended = receive_pushes (run_tools config turn m s) turn.pushes in
    let results = (batch_of config turn m).0 in
    if is_failure m.stop_reason || is_some turn.ctx_after
    then (stop_steering ended, finished model_err)
    else steer ended model_err
        (is_empty (tool_calls m) || not (is_empty results) && all_terminate results)

-- One round of the loop of `run`. A response that failed ends it at once, whatever the queue
-- holds.
unfoldable pub take_turn : Config → Turn → RunState → RunState × Progress
take_turn config turn s =
    let (m, model_err, effects) =
      stream_assistant config.model turn.now (run_warmer config) turn.response in
    let s' = add_message s (assistant m) effects in
    if is_failure m.stop_reason
    then (receive_pushes (emits s' (turn_end m [] model_err)) turn.pushes, finished model_err)
    else complete_turn config turn m model_err s'

abbrev pub leave_warmer : Warmer → List Effect
leave_warmer no_warmer = []
leave_warmer owned = warmer_close ∷ []
leave_warmer shared = warmer_settle ∷ []

-- The end of `run`, its deferred call included.
unfoldable pub end_run : Config → RunState → Option RunError → RunState
end_run config s run_err = record s {
  trace = s.trace ++ emit (agent_end s.new_messages run_err) ∷ leave_warmer (run_warmer config);
}

abbrev pub after_turn : Config → RunState → Progress → RunState × Progress → RunState × Progress
after_turn config s continues rest = rest
after_turn config s (finished run_err) rest = (end_run config s run_err, finished run_err)

-- The loop over the turns that the world has answered so far; `continues` is a run that waits for
-- the next response.
unfoldable pub run_turns : Config → RunState → List Turn → RunState × Progress
run_turns config s [] = (s, continues)
run_turns config s (turn ∷ turns) =
    let (s', progress) = take_turn config turn s in
    after_turn config s' progress (run_turns config s' turns)

-- run: the context's messages, the queue, the prompts, and the turns.
unfoldable pub run :
    Config → List Message → Option SteeringQueue → List Message → List Turn → RunState × Progress
unfolding run_turns start_run
run config initial steering prompts turns =
    run_turns config (start_run initial steering prompts) turns
