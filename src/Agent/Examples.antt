-- ===== src/Agent/Examples.antt =====
-- pkg/agent: the theorems and the definitions at concrete inputs.
use mathlib.Core.List.{Perm}
use midas.Common.{◌≡◌, refl, true, false, none, some, List, [], ◌∷◌, map, All}
use midas.Common.Int.{pos}
use midas.Common.Text.{Text, codes, text_eq}
use midas.Common.Within.{Within}
use midas.Ai.Message.{
  StopReason, tool_use, zero_usage, ToolCall, Part, Content, plain, AssistantMessage, user, Message,
}
use midas.Agent.Calls.{tool_calls}
use midas.Agent.Steering.{SteeringQueue, push, push_all, drain, drain_or_close}
use midas.Agent.Loop.{
  ToolResult, Tool, Outcome, Execution, parallel, off, assistant_failure, contains_sequential_tool,
}
use midas.Agent.Loop.Assistant.{stream, terminal, stream_assistant, finish_response, read_response}
use midas.Agent.Loop.Batch.{
  Worker, workers, interleave, flatten_events, execute_tool_batch, execute_tool_after_start,
}
use midas.Agent.Loop.Batch.Results.{called, calls-execute_tool_batch}
use midas.Agent.Loop.Batch.Interleave.{own_events, interleave_lem}
use midas.Agent.Loop.Run.{
  Config, Turn, RunState, start_run, end_run, take_turn, run, run_turns, append_messages,
  add_message, complete_turn, run_tools, steer, receive_pushes, run_warmer,
}
use midas.Agent.Loop.Run.Events.{ended, run_announces}
use midas.Agent.Loop.Run.Compacted.{run_then_compact}
use midas.Agent.Compaction.{plan_compaction, estimate_tokens}
use midas.Agent.Calls.{paired}
use midas.Agent.Loop.{tool_result_message}
use midas.Common.{take, drop}
use midas.Agent.Loop.Run.Pairs.{run-IsBalanced}
use midas.Agent.Loop.Run.Balanced.{IsBalanced, owed_through}
use midas.Agent.Loop.Run.Steering.{
  is_finished, queue, Steers, steered, response_of, run_turns-Steers,
}

abbrev said : Text → Message
said t = Message.value (user (record { content = plain t; timestamp = pos 1; synthetic = false }))

abbrev read_call : ToolCall
read_call = record { id = codes "1"; name = codes "read"; arguments = none }

abbrev answer : StopReason → List Content → AssistantMessage
answer reason content = record {
  content = content;
  api = [];
  provider = [];
  model = codes "m";
  usage = zero_usage;
  stop_reason = reason;
  error_message = [];
  timestamp = pos 2;
}

abbrev calls_read : AssistantMessage
calls_read = answer tool_use (Content.value (Part.tool_call read_call) ∷ [])

abbrev says_done : AssistantMessage
says_done = answer StopReason.complete (Content.value (Part.text (codes "done")) ∷ [])

abbrev fails : AssistantMessage
fails = answer StopReason.error []

abbrev file_text : ToolResult
file_text = record { content = Content.value (Part.text (codes "text")) ∷ []; terminate = false }

abbrev read_execution : Execution
read_execution = record {
  updates = file_text ∷ [];
  outcome = Outcome.ok file_text;
  late_updates = [];
}

abbrev read_tool : Tool
read_tool = record { name = codes "read"; sequential = false }

abbrev config : Config
config = record {
  model = record { id = codes "m"; api = []; provider = [] };
  tools = read_tool ∷ [];
  tool_execution = parallel;
  cache_warming = off;
  has_cache_warmer = false;
  quote = λ t. t;
}

abbrev turn : AssistantMessage → List Message → Turn
turn m pushes = record {
  now = pos 3;
  response = some (stream (terminal ∷ []) none (Outcome.ok m));
  ctx = λ i. none;
  execute = λ i. read_execution;
  schedule = 0 ∷ 1 ∷ [];
  pushes = pushes;
  ctx_after = none;
}

abbrev two_turns : List Turn
two_turns = turn calls_read (said (codes "hurry") ∷ []) ∷ turn says_done [] ∷ []

abbrev hello : List Message
hello = said (codes "hello") ∷ []

abbrev open_queue : SteeringQueue
open_queue = queue [] false

run_ends : is_finished (run config [] (some open_queue) hello two_turns).1 ≡ true
unfolding run start_run run_turns take_turn append_messages add_message complete_turn run_tools
    steer receive_pushes run_warmer stream_assistant read_response finish_response
    execute_tool_batch tool_calls contains_sequential_tool text_eq execute_tool_after_start drain
    push_all push drain_or_close assistant_failure
run_ends = refl

run-IsBalanced_example : IsBalanced (run config [] (some open_queue) hello two_turns).0.current
unfolding owed_through
run-IsBalanced_example =
    run-IsBalanced config [] hello (some open_queue) two_turns refl (refl, tt) tt
      ((refl, tt), (tt, tt))

run_announces_example :
    (ended (run config [] (some open_queue) hello two_turns).0.trace
      ≡ (run config [] (some open_queue) hello two_turns).0.new_messages)
    × ((run config [] (some open_queue) hello two_turns).0.current
        ≡ (run config [] (some open_queue) hello two_turns).0.new_messages)
run_announces_example = run_announces config [] hello (some open_queue) two_turns

abbrev begun : RunState
begun = record { current = hello; new_messages = hello; steering = some open_queue; trace = [] }

run_turns-Steers_example :
    Steers begun (steered config begun [] two_turns) (run_turns config begun two_turns)
unfolding response_of start_run run_turns take_turn append_messages add_message complete_turn
    run_tools steer receive_pushes run_warmer stream_assistant read_response finish_response
    execute_tool_batch tool_calls contains_sequential_tool text_eq execute_tool_after_start drain
    push_all push drain_or_close assistant_failure
run_turns-Steers_example = run_turns-Steers config begun [] two_turns (refl, (refl, tt)) refl refl

abbrev two_calls : List ToolCall
two_calls = read_call ∷ record { id = codes "2"; name = codes "write"; arguments = none } ∷ []

abbrev two_workers : List Worker
two_workers = workers (read_tool ∷ []) (λ i. read_execution) 0 two_calls

interleave_lem_example :
    Perm
      (interleave (0 ∷ 0 ∷ 2 ∷ 1 ∷ []) two_workers [])
      (flatten_events (map own_events two_workers))
    × All (λ w. Within (own_events w) (interleave (0 ∷ 0 ∷ 2 ∷ 1 ∷ []) two_workers [])) two_workers
    × Within
        (map (λ (w : Worker). w.start) two_workers)
        (interleave (0 ∷ 0 ∷ 2 ∷ 1 ∷ []) two_workers [])
interleave_lem_example = interleave_lem (0 ∷ 0 ∷ 2 ∷ 1 ∷ []) two_workers

calls-execute_tool_batch_example :
    map called
      (execute_tool_batch
        (λ t. t)
        (read_tool ∷ [])
        two_calls
        tool_use
        parallel
        (λ i. none)
        (λ i. read_execution)
        []).0
    ≡ two_calls
calls-execute_tool_batch_example =
    calls-execute_tool_batch (λ t. t) (read_tool ∷ []) two_calls tool_use parallel (λ i. none)
      (λ i. read_execution) []

abbrev transcript : List Message
transcript = (run config [] (some open_queue) hello two_turns).0.current

run_then_compact_example : paired [] (drop 3 transcript) ≡ true
unfolding run start_run run_turns take_turn append_messages add_message complete_turn run_tools
    steer receive_pushes run_warmer stream_assistant read_response finish_response
    execute_tool_batch tool_calls contains_sequential_tool text_eq execute_tool_after_start drain
    push_all push drain_or_close assistant_failure plan_compaction estimate_tokens
    tool_result_message owed_through end_run
run_then_compact_example =
    run_then_compact config [] hello (some open_queue) two_turns (pos 2) (take 3 transcript)
      (drop 3 transcript) refl (refl, tt) tt ((refl, tt), (tt, tt)) refl
