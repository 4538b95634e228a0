-- ===== src/Agent/Calls.antt =====
-- pkg/agent/loop.go: the tool calls of an assistant message, and what a transcript has to look
-- like for the next provider request to be valid.
use midas.Common.{Bool, true, false, List, [], ◌∷◌, ◌++◌, ◌&&◌, map, any}
use midas.Common.Text.{Text, text_eq}
use midas.Ai.Message.{ToolCall, Part, Content, AssistantMessage, Body, Author, Message}

content_call : Content → List ToolCall
content_call (Content.value (Part.tool_call c)) = c ∷ []
content_call (Content.pointer (Part.tool_call c)) = c ∷ []
content_call _ = []

calls_of : List Content → List ToolCall
unfolding content_call
calls_of [] = []
calls_of (c ∷ cs) = content_call c ++ calls_of cs

-- toolCalls
unfoldable pub tool_calls : AssistantMessage → List ToolCall
unfolding calls_of
tool_calls m = calls_of m.content

abbrev pub call_ids : List ToolCall → List Text
call_ids = map (λ (c : ToolCall). c.id)

abbrev pub contains : List Text → Text → Bool
contains ids id = any (text_eq id) ids

-- The calls that are open for results behind a message, given those open before it: an assistant
-- message opens its own, a user message closes all.
unfoldable pub next_open : List Text → Message → List Text
next_open open_ids (Message.value (Body.assistant m)) = call_ids (tool_calls m)
next_open open_ids (Message.pointer (Body.assistant m)) = call_ids (tool_calls m)
next_open open_ids (Message.value (Body.tool_result t)) = open_ids
next_open open_ids (Message.pointer (Body.tool_result t)) = open_ids
next_open open_ids _ = []

-- A tool result answers an open call.
unfoldable pub answers : List Text → Message → Bool
answers open_ids (Message.value (Body.tool_result t)) = contains open_ids t.tool_call_id
answers open_ids (Message.pointer (Body.tool_result t)) = contains open_ids t.tool_call_id
answers open_ids (Message.nil_pointer Author.tool_result_author) = false
answers open_ids _ = true

-- Every tool result of the list follows the assistant message with its call, with only other
-- tool results between them.
unfoldable pub paired : List Text → List Message → Bool
paired open_ids [] = true
paired open_ids (m ∷ ms) = answers open_ids m && paired (next_open open_ids m) ms
