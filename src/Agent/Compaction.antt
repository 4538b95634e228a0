-- ===== src/Agent/Compaction.antt =====
-- pkg/agent/compaction.go: when a conversation is compacted, and where it is cut. A nil pointer
-- in a message counts as the source counts it.
pub mod Prompts
pub mod Cut
pub mod Tokens
pub mod Pairs
pub mod Summary
mod Examples
use midas.Common.{
  ℕ, zero, suc, ◌+◌, ◌/◌, Bool, true, false, Option, none, some, List, [], ◌∷◌, ◌++◌, not, ◌||◌,
  if◌then◌else◌, ltb, leb, length, drop, take, get_elem?,
}
use midas.Common.Int.{ℤ, pos, ◌+ℤ◌, ◌-ℤ◌, ltb_ℤ, leb_ℤ, wrap64}
use midas.Common.Text.{Text}
use midas.Ai.Message.{
  StopReason, Usage, Part, Content, UserContent, plain, parts, AssistantMessage, Body, Author,
  Message, image_kind, tool_result_author, error, aborted,
}

pub record CompactionSettings : Type 0 where
  pub enabled : Bool
  pub reserve_tokens : ℤ
  pub keep_recent_tokens : ℤ

abbrev pub default_compaction_settings : CompactionSettings
default_compaction_settings = record {
  enabled = true;
  reserve_tokens = pos 16384;
  keep_recent_tokens = pos 20000;
}

unfoldable pub normalize : CompactionSettings → CompactionSettings
normalize s = record s {
  reserve_tokens =
      if leb_ℤ s.reserve_tokens (pos 0)
      then default_compaction_settings.reserve_tokens
      else s.reserve_tokens;
  keep_recent_tokens =
      if leb_ℤ s.keep_recent_tokens (pos 0)
      then default_compaction_settings.keep_recent_tokens
      else s.keep_recent_tokens;
}

unfoldable pub should_compact : ℤ → ℤ → CompactionSettings → Bool
unfolding normalize
should_compact context_tokens context_window settings =
    if not settings.enabled || leb_ℤ context_window (pos 0)
    then false
    else ltb_ℤ (wrap64 (context_window -ℤ (normalize settings).reserve_tokens)) context_tokens

abbrev pub estimated_image_chars : ℕ
estimated_image_chars = 4800

user_part_chars : Content → ℕ
user_part_chars (Content.value (Part.text t)) = length t
user_part_chars (Content.pointer (Part.text t)) = length t
user_part_chars (Content.value (Part.image _)) = estimated_image_chars
user_part_chars (Content.pointer (Part.image _)) = estimated_image_chars
user_part_chars (Content.nil_pointer image_kind) = estimated_image_chars
user_part_chars _ = 0

user_parts_chars : List Content → ℕ
user_parts_chars [] = 0
user_parts_chars (c ∷ cs) = user_part_chars c + user_parts_chars cs

user_content_chars : UserContent → ℕ
user_content_chars (plain t) = length t
user_content_chars (parts cs) = user_parts_chars cs

argument_chars : Option Text → ℕ
argument_chars none = 0
argument_chars (some t) = length t

-- A tool call behind a pointer is counted without its arguments, thinking behind one not at all.
assistant_part_chars : Content → ℕ
assistant_part_chars (Content.value (Part.text t)) = length t
assistant_part_chars (Content.pointer (Part.text t)) = length t
assistant_part_chars (Content.value (Part.thinking t)) = length t
assistant_part_chars (Content.value (Part.tool_call c)) = length c.name + argument_chars c.arguments
assistant_part_chars (Content.pointer (Part.tool_call c)) = length c.name
assistant_part_chars (Content.value (Part.image _)) = estimated_image_chars
assistant_part_chars (Content.pointer (Part.image _)) = estimated_image_chars
assistant_part_chars (Content.nil_pointer image_kind) = estimated_image_chars
assistant_part_chars _ = 0

assistant_content_chars : List Content → ℕ
assistant_content_chars [] = 0
assistant_content_chars (c ∷ cs) = assistant_part_chars c + assistant_content_chars cs

body_chars : Body → ℕ
body_chars (Body.user m) = user_content_chars m.content
body_chars (Body.assistant m) = assistant_content_chars m.content
body_chars (Body.tool_result m) = assistant_content_chars m.content

message_chars : Message → ℕ
message_chars (Message.value b) = body_chars b
message_chars (Message.pointer b) = body_chars b
message_chars (Message.nil_pointer _) = 0

unfoldable pub estimate_tokens : Message → ℕ
unfolding message_chars body_chars user_content_chars user_parts_chars user_part_chars
    assistant_content_chars assistant_part_chars argument_chars
estimate_tokens m = (message_chars m + 3) / 4

-- contextUsageTokens
unfoldable pub context_usage_tokens : Usage → ℤ
context_usage_tokens u =
    if ltb_ℤ (pos 0) u.total_tokens
    then u.total_tokens
    else wrap64 (u.input +ℤ u.output +ℤ u.cache_read +ℤ u.cache_write)

-- assistantMessage
abbrev pub assistant_message : Message → Option AssistantMessage
assistant_message (Message.value (Body.assistant m)) = some m
assistant_message (Message.pointer (Body.assistant m)) = some m
assistant_message _ = none

abbrev pub is_failure : StopReason → Bool
is_failure error = true
is_failure aborted = true
is_failure _ = false

-- The usage that a message settles, if it is a completed turn that reports one.
reported_usage : Option AssistantMessage → Option ℤ
reported_usage none = none
reported_usage (some m) =
    if is_failure m.stop_reason
    then none
    else if ltb_ℤ (pos 0) (context_usage_tokens m.usage)
    then some (context_usage_tokens m.usage)
    else none

unfoldable pub message_usage : Message → Option ℤ
unfolding reported_usage
message_usage m = reported_usage (assistant_message m)

-- The variables of the first loop of `ContextTokens`; `last_usage` is `none` for -1.
pub record Scan : Type 0 where
  pub tokens : ℤ
  pub last_usage : Option ℕ

scan_message : ℕ → Option ℤ → Scan → Scan
scan_message index none s = s
scan_message index (some u) s = record { tokens = u; last_usage = some index }

pub scan_usage : ℕ → List Message → Scan → Scan
unfolding scan_message
scan_usage index [] s = s
scan_usage index (m ∷ ms) s = scan_usage (suc index) ms (scan_message index (message_usage m) s)

pub add_estimates : ℤ → List Message → ℤ
add_estimates tokens [] = tokens
add_estimates tokens (m ∷ ms) = add_estimates (wrap64 (tokens +ℤ pos (estimate_tokens m))) ms

-- The loops behind the first; the third runs where no usage was found.
pub finish_context_tokens : Scan → List Message → ℤ
finish_context_tokens s ms = elim s.last_usage [
  | none ↦ add_estimates (pos 0) ms
  | some last ↦ add_estimates s.tokens (drop (suc last) ms)
]

-- ContextTokens
unfoldable pub context_tokens : List Message → ℤ
unfolding scan_usage finish_context_tokens
context_tokens ms =
    finish_context_tokens (scan_usage 0 ms (record { tokens = pos 0; last_usage = none })) ms

pub is_tool_result : Message → Bool
is_tool_result (Message.value (Body.tool_result _)) = true
is_tool_result (Message.pointer (Body.tool_result _)) = true
is_tool_result (Message.nil_pointer tool_result_author) = true
is_tool_result _ = false

-- The loop of `validCutIndex` over the messages from `index` on; `size` is the number of all.
skip_tool_results : ℕ → ℕ → List Message → ℕ
unfolding is_tool_result
skip_tool_results size index [] = size
skip_tool_results size index (m ∷ ms) =
    let rest = skip_tool_results size (suc index) ms in if is_tool_result m then rest else index

pub valid_cut_index : List Message → ℕ → ℕ
unfolding skip_tool_results
valid_cut_index ms cut = skip_tool_results (length ms) cut (drop cut ms)

estimate_at : Option Message → ℕ
estimate_at none = 0
estimate_at (some m) = estimate_tokens m

-- The loop of `PlanCompaction` at `index = rounds - 1`, downwards; `none` is a cut of -1.
find_cut : List Message → ℤ → ℕ → ℕ → Option ℕ
unfolding estimate_at
find_cut ms keep_recent zero accumulated = none
find_cut ms keep_recent (suc index) accumulated =
    let accumulated' = accumulated + estimate_at (get_elem? ms index) in
    let rest = find_cut ms keep_recent index accumulated' in
    if ltb_ℤ (pos accumulated') keep_recent then rest else some index

-- `messages[:cut], messages[cut:]`, unless the cut is 0.
split_at_cut : List Message → ℕ → Option (List Message × List Message)
split_at_cut ms zero = none
split_at_cut ms (suc cut) = some (take (suc cut) ms, drop (suc cut) ms)

cut_messages : List Message → Option ℕ → Option (List Message × List Message)
unfolding valid_cut_index split_at_cut
cut_messages ms none = none
cut_messages ms (some cut) = split_at_cut ms (valid_cut_index ms cut)

-- PlanCompaction: the messages to summarize and those to keep, `none` where `ok` is false.
unfoldable pub plan_compaction : List Message → ℤ → Option (List Message × List Message)
unfolding find_cut cut_messages
plan_compaction ms keep_recent =
    if ltb (length ms) 2 || leb_ℤ keep_recent (pos 0)
    then none
    else cut_messages ms (find_cut ms keep_recent (length ms) 0)
