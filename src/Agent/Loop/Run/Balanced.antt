-- ===== src/Agent/Loop/Run/Balanced.antt =====
-- pkg/agent/loop.go: what a transcript owes, and what a turn adds to it.
use midas.Common.{
  ◌≡◌, refl, ◌∙◌, ap, Bool, true, false, Option, none, some, List, [], ◌∷◌, ◌++◌, map, arith, All,
  if◌then◌else◌,
}
use mathlib.Core.Path.{subst}
use midas.Common.Int.{ℤ}
use midas.Common.Text.{Text, text_eq, text_eq_refl}
use midas.Ai.Message.{AssistantMessage, Message, Body}
use midas.Agent.Compaction.{is_failure}
use midas.Agent.Calls.{tool_calls, call_ids}
use midas.Agent.Loop.{ExecutedCall, tool_result_message}
use midas.Agent.Loop.Batch.Results.{called, calls-execute_tool_batch}
use midas.Agent.Loop.Assistant.{assistant}
use midas.Agent.Loop.Run.{Config, Turn, batch_of, result_messages, tool_result}

-- The results that a transcript owes behind a message, by the ids of their calls in order; `none`
-- where a message stands at a place where another is owed. A response that failed owes nothing.
unfoldable pub owed_result : List Text → Text → Option (List Text)
owed_result [] id = none
owed_result (o ∷ owed) id = if text_eq o id then some owed else none

unfoldable pub owed_call : List Text → List Text → Option (List Text)
owed_call [] ids = some ids
owed_call (_ ∷ _) ids = none

unfoldable pub owed_body : List Text → Body → Option (List Text)
unfolding owed_result owed_call
owed_body owed (Body.user m) = owed_call owed []
owed_body owed (Body.assistant m) =
    owed_call owed (if is_failure m.stop_reason then [] else call_ids (tool_calls m))
owed_body owed (Body.tool_result m) = owed_result owed m.tool_call_id

unfoldable pub owed_after : Option (List Text) → Message → Option (List Text)
unfolding owed_body
owed_after none m = none
owed_after (some owed) (Message.value b) = owed_body owed b
owed_after (some owed) (Message.pointer b) = owed_body owed b
owed_after (some owed) (Message.nil_pointer _) = none

unfoldable pub owed_through : Option (List Text) → List Message → Option (List Text)
owed_through owed [] = owed
owed_through owed (m ∷ ms) = owed_through (owed_after owed m) ms

-- Every call has its result, in order, before any other message.
abbrev pub IsBalanced : List Message → Type 0
IsBalanced ms = owed_through (some []) ms ≡ some []

abbrev pub is_user : Message → Bool
is_user (Message.value (Body.user _)) = true
is_user (Message.pointer (Body.user _)) = true
is_user _ = false

abbrev pub OnlyUser : List Message → Type 0
OnlyUser = All (λ m. is_user m ≡ true)

owed-append :
    (o : Option (List Text)) (xs ys : List Message)
    → owed_through o (xs ++ ys) ≡ owed_through (owed_through o xs) ys
unfolding owed_through
owed-append o [] ys = refl
owed-append o (x ∷ xs) ys = owed-append (owed_after o x) xs ys

owed-user : (m : Message) → is_user m ≡ true → owed_after (some []) m ≡ some []
unfolding owed_after
owed-user m h = ground arith

pub IsBalanced-users : (ms : List Message) → OnlyUser ms → IsBalanced ms
unfolding owed_through
IsBalanced-users [] h = refl
IsBalanced-users (m ∷ ms) h = rw (owed-user m h.0) (IsBalanced-users ms h.1)

pub IsBalanced-append :
    (xs ys : List Message) → IsBalanced xs → IsBalanced ys → IsBalanced (xs ++ ys)
IsBalanced-append xs ys h k = owed-append (some []) xs ys ∙ rw h k

owed-result : (owed : List Text) (id : Text) → owed_result (id ∷ owed) id ≡ some owed
unfolding owed_result
owed-result owed id = rw (text_eq_refl id)

owed-assistant :
    (m : AssistantMessage)
    → owed_after (some []) (assistant m)
      ≡ some (if is_failure m.stop_reason then [] else call_ids (tool_calls m))
unfolding owed_after
owed-assistant m = refl

owed-results :
    (now : ℤ) (xs : List ExecutedCall)
    → owed_through
        (some (call_ids (map called xs)))
        (map tool_result (map (tool_result_message now) xs))
      ≡ some []
unfolding owed_through owed_after tool_result_message
owed-results now [] = refl
owed-results now (x ∷ xs) =
    ap (λ o. owed_through o (map tool_result (map (tool_result_message now) xs)))
      (owed-result (call_ids (map called xs)) x.call.id)
    ∙ owed-results now xs

-- What a response and its results add to a transcript.
pub IsBalanced-turn :
    (c : Config) (t : Turn) (m : AssistantMessage)
    → is_failure m.stop_reason ≡ false
    → IsBalanced (assistant m ∷ map tool_result (result_messages t (batch_of c t m).0))
unfolding owed_through
IsBalanced-turn c t m h =
    let results = (batch_of c t m).0 in
    let rest = map tool_result (result_messages t results) in
    ap (λ o. owed_through o rest) (rw h at (owed-assistant m))
    ∙ subst (λ cs. owed_through (some (call_ids cs)) rest ≡ some [])
        (calls-execute_tool_batch c.quote c.tools (tool_calls m) m.stop_reason c.tool_execution
          t.ctx t.execute t.schedule)
        (owed-results t.now results)

pub IsBalanced-failure :
    (m : AssistantMessage) → is_failure m.stop_reason ≡ true → IsBalanced (assistant m ∷ [])
unfolding owed_through owed_after
IsBalanced-failure m h = ap (λ b. some (if b then [] else call_ids (tool_calls m))) h
