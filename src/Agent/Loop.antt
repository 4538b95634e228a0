-- ===== src/Agent/Loop.antt =====
-- pkg/agent/loop.go and pkg/agent/types.go: the run loop. What the provider, the tools, the
-- context and other goroutines do in a turn is the turn's input.
pub mod Batch
pub mod Run
pub mod Assistant
use midas.Common.{
  ℕ, suc, ◌+◌, Bool, true, false, not, ◌&&◌, ◌||◌, Option, none, some, List, [], ◌∷◌, ◌++◌, map,
  any, if◌then◌else◌,
}
use midas.Common.Int.{ℤ, pos, ◌+ℤ◌, wrap64}
use midas.Common.Text.{Text, text_eq, trim_space, is_empty, codes}
use midas.Ai.Message.{
  StopReason, Usage, zero_usage, ToolCall, Part, Content, AssistantMessage, ToolResultMessage, Body,
  Message, error, aborted, length as length_stop,
}
use midas.Agent.Calls.{tool_calls}
use midas.Agent.Compaction.{is_failure}
use midas.Agent.Steering.{SteeringQueue, push_all, drain, drain_or_close, close}

-- A Go error: its text, and whether it is context.Canceled.
pub record RunError : Type 0 where
  pub message : Text
  pub is_canceled : Bool

abbrev pub canceled : RunError
canceled = record { message = codes "context canceled"; is_canceled = true }

pub record ToolResult : Type 0 where
  pub content : List Content
  pub terminate : Bool

pub record Tool : Type 0 where
  pub name : Text
  pub sequential : Bool

pub data Outcome (A : Type 0) : Type 0 where
  ok : A → Outcome A
  err : RunError → Outcome A

-- What one call of a tool's `Execute` does: the updates that it reports before it returns, what it
-- returns, and the updates that it reports later.
pub record Execution : Type 0 where
  pub updates : List ToolResult
  pub outcome : Outcome ToolResult
  pub late_updates : List ToolResult

pub data ToolExecutionMode : Type 0 where
  parallel sequential_mode : ToolExecutionMode

pub data CacheWarmingMode : Type 0 where
  off streaming idle : CacheWarmingMode

pub record Model : Type 0 where
  pub id : Text
  pub api : Text
  pub provider : Text

pub record ExecutedCall : Type 0 where
  pub call : ToolCall
  pub result : ToolResult
  pub is_error : Bool

pub data Event : Type 0 where
  agent_start turn_start : Event
  message_start message_end : Message → Event
  message_update : AssistantMessage → Event
  tool_execution_start : ToolCall → Event
  tool_execution_update : ToolCall → ToolResult → Event
  tool_execution_end : ExecutedCall → Event
  turn_end : AssistantMessage → List ToolResultMessage → Option RunError → Event
  agent_end : List Message → Option RunError → Event

-- What a run does to the world, in order: events on its stream, and calls of its cache warmer.
pub data Effect : Type 0 where
  emit : Event → Effect
  warmer_stop warmer_settle warmer_close : Effect
  warmer_start : ℤ → Effect

abbrev pub pair_of_events : Message → List Effect
pair_of_events m = emit (message_start m) ∷ emit (message_end m) ∷ []

-- errorMessage
unfoldable pub error_message : Model → ℤ → RunError → AssistantMessage
error_message model now e = record {
  content = [];
  api = model.api;
  provider = model.provider;
  model = model.id;
  usage = zero_usage;
  stop_reason = if e.is_canceled then aborted else error;
  error_message = e.message;
  timestamp = now;
}

is_error_reason : StopReason → Bool
is_error_reason error = true
is_error_reason _ = false

is_aborted_reason : StopReason → Bool
is_aborted_reason aborted = true
is_aborted_reason _ = false

-- assistantFailure
unfoldable pub assistant_failure : AssistantMessage → Option RunError → Option RunError
unfolding is_error_reason is_aborted_reason
assistant_failure m (some e) = some e
assistant_failure m none =
    if is_error_reason m.stop_reason && not (is_empty (trim_space m.error_message))
    then some (record { message = m.error_message; is_canceled = false })
    else if is_aborted_reason m.stop_reason
    then some canceled
    else none

-- failedCall
unfoldable pub failed_call : ToolCall → Text → ExecutedCall
failed_call call e = record {
  call = call;
  result = record { content = Content.value (Part.text e) ∷ []; terminate = false };
  is_error = true;
}

-- toolResultMessage
unfoldable pub tool_result_message : ℤ → ExecutedCall → ToolResultMessage
tool_result_message now x = record {
  tool_call_id = x.call.id;
  tool_name = x.call.name;
  content = x.result.content;
  is_error = x.is_error;
  timestamp = now;
}

-- containsSequentialTool
unfoldable pub contains_sequential_tool : List Tool → List ToolCall → Bool
contains_sequential_tool tools calls =
    any (λ (c : ToolCall). any (λ (t : Tool). text_eq t.name c.name && t.sequential) tools) calls
