-- ===== src/Agent/Compaction/Summary.antt =====
-- pkg/agent/compaction.go: the summary of what is cut off, and the checkpoint that holds it. The call of the
-- summarizing provider is an argument, a function of what the request says.
pub mod RoundTrip
use midas.Common.{
  ℕ, Bool, true, false, not, ◌&&◌, ◌||◌, Option, none, some, List, [], ◌∷◌, ◌++◌, if◌then◌else◌,
}
use midas.Common.Int.{ℤ}
use midas.Common.Text.{Text, codes, text_eq, is_empty, has_prefix, trim_prefix, trim_space}
use midas.Ai.Message.{
  StopReason, error, aborted, Part, Content, tool_call_kind, UserContent, plain, parts, UserMessage,
  AssistantMessage, ToolResultMessage, Body, user, assistant, tool_result, Message,
  new_synthetic_message,
}
use midas.Agent.Compaction.{CompactionSettings, normalize, plan_compaction}
use midas.Agent.Compaction.Prompts.{compaction_prompt, update_compaction_prompt, summary_marker}

-- The text of a value of type TextContent, or behind a pointer to one.
abbrev text_of : Content → Text
text_of (Content.value (Part.text t)) = t
text_of (Content.pointer (Part.text t)) = t
text_of _ = []

texts : List Content → Text
texts [] = []
texts (c ∷ cs) = text_of c ++ texts cs

-- userText
unfoldable pub user_text : UserContent → Text
unfolding texts
user_text (plain t) = trim_space t
user_text (parts cs) = trim_space (texts cs)

-- A call in an assistant's message counts only as a value.
assistant_part_text : Content → Text
assistant_part_text (Content.value (Part.tool_call call)) = codes "tool call " ++ call.name
assistant_part_text c = text_of c

assistant_part_texts : List Content → Text
assistant_part_texts [] = []
assistant_part_texts (c ∷ cs) = assistant_part_text c ++ assistant_part_texts cs

-- assistantText
pub assistant_text : List Content → Text
unfolding assistant_part_texts
assistant_text cs = trim_space (assistant_part_texts cs)

serialize_body : Body → Text
serialize_body (user m) = codes "user: " ++ user_text m.content
serialize_body (assistant m) = codes "assistant: " ++ assistant_text m.content
serialize_body (tool_result m) =
    codes "tool result (" ++ m.tool_name ++ codes "): " ++ assistant_text m.content

-- serializeMessage
pub serialize_message : Message → Text
unfolding serialize_body
serialize_message (Message.value b) = serialize_body b
serialize_message (Message.pointer b) = serialize_body b
serialize_message (Message.nil_pointer _) = []

serialize_messages : List Message → Text
serialize_messages [] = []
serialize_messages (m ∷ ms) = serialize_message m ++ 10 ∷ [] ++ serialize_messages ms

abbrev blank_line : Text
blank_line = 10 ∷ 10 ∷ []

-- buildSummarizationPrompt
unfoldable pub build_summarization_prompt : List Message → Text → Text
unfolding serialize_messages
build_summarization_prompt messages previous =
    let conversation =
      codes "<conversation>" ++ 10 ∷ serialize_messages messages ++ codes "</conversation>" in
    if is_empty (trim_space previous)
    then conversation ++ blank_line ++ compaction_prompt
    else conversation
      ++ blank_line
      ++ codes "<previous-summary>"
      ++ 10 ∷ trim_space previous
      ++ 10 ∷ codes "</previous-summary>"
      ++ blank_line
      ++ update_compaction_prompt

-- What a request of the summarizer says: its prompt, its token cap, and its reasoning, empty where unset.
pub record SummaryRequest : Type 0 where
  pub prompt : Text
  pub max_tokens : ℤ
  pub reasoning : Text

-- What the call gives: an error of the provider or its stream, or a message.
pub data Answer : Type 0 where
  no_answer : Text → Answer
  answered : AssistantMessage → Answer

pub data SummaryError : Type 0 where
  no_provider no_messages truncated called_tool no_text : SummaryError
  provider_error failed : Text → SummaryError

pub data Summary : Type 0 where
  summary : Text → Summary
  failure : SummaryError → Summary

abbrev is_call : Content → Bool
is_call (Content.value (Part.tool_call _)) = true
is_call (Content.pointer (Part.tool_call _)) = true
is_call (Content.nil_pointer tool_call_kind) = true
is_call _ = false

-- The text of an answer, `none` if it holds a call of a tool.
answer_text : List Content → Option Text
answer_text [] = some []
answer_text (c ∷ cs) =
    let rest = answer_text cs in
    if is_call c then none else elim rest [ none ↦ none | some t ↦ some (text_of c ++ t) ]

summary_of_text : Option Text → Summary
summary_of_text none = failure called_tool
summary_of_text (some t) =
    let trimmed = trim_space t in if is_empty trimmed then failure no_text else summary trimmed

abbrev check_stop : StopReason → Text → Summary → Summary
check_stop error message s = failure (failed message)
check_stop aborted message s = failure (failed message)
check_stop StopReason.length message s = failure truncated
check_stop _ message s = s

pub summary_of : Answer → Summary
unfolding answer_text summary_of_text
summary_of (no_answer e) = failure (provider_error e)
summary_of (answered m) =
    check_stop m.stop_reason m.error_message (summary_of_text (answer_text m.content))

-- `can_reason` is the model's flag; the level is the one of the options.
abbrev pub Level : Type 0
Level = Bool × Text

abbrev requested : Level → Text
requested (can_reason, level) =
    if can_reason && not (is_empty level) && not (text_eq level (codes "off")) then level else []

-- Summarize; a nil provider is `none`.
unfoldable pub summarize :
    Option (SummaryRequest → Answer) → Level → List Message → Text → CompactionSettings → Summary
unfolding summary_of
summarize none level messages previous settings = failure no_provider
summarize (some provider) level [] previous settings = failure no_messages
summarize (some provider) level (m ∷ ms) previous settings = summary_of (
    provider (record {
      prompt = build_summarization_prompt (m ∷ ms) previous;
      max_tokens = (normalize settings).reserve_tokens;
      reasoning = requested level;
    }))

-- ApplyCompaction
unfoldable pub apply_compaction : Text → List Message → ℤ → List Message
apply_compaction text keep at =
    Message.value
      (user (new_synthetic_message (summary_marker ++ blank_line ++ trim_space text) at))
    ∷ keep

abbrev marked : Text → Option Text
marked text =
    if has_prefix text summary_marker
    then some (trim_space (trim_prefix text summary_marker))
    else none

-- The summary in a message that is a checkpoint.
checkpoint : Message → Option Text
checkpoint (Message.value (user m)) = if m.synthetic then marked (user_text m.content) else none
checkpoint _ = none

abbrev or_else : Option Text → Text → Text
or_else none t = t
or_else (some s) t = s

-- PreviousSummary
unfoldable pub previous_summary : List Message → Text
unfolding checkpoint
previous_summary [] = []
previous_summary (m ∷ ms) = or_else (checkpoint m) (previous_summary ms)

pub data Compacted : Type 0 where
  unchanged : Compacted
  compacted : List Message → Compacted
  not_compacted : SummaryError → Compacted

apply_summary : Summary → List Message → ℤ → Compacted
apply_summary (failure e) keep at = not_compacted e
apply_summary (summary t) keep at = compacted (apply_compaction t keep at)

-- Compact; the instant is that of the checkpoint.
unfoldable pub compact :
    Option (SummaryRequest → Answer) → Level → List Message → CompactionSettings → ℤ → Compacted
unfolding apply_summary
compact provider level messages settings at =
    elim (plan_compaction messages (normalize settings).keep_recent_tokens) [
      | none ↦ unchanged
      | some (old, keep) ↦
          apply_summary (summarize provider level old (previous_summary messages) settings) keep at
    ]
