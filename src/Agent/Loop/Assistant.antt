-- ===== src/Agent/Loop/Assistant.antt =====
-- pkg/agent/loop.go: one model response, streamed.
use midas.Common.{Bool, true, false, Option, none, some, List, [], ◌∷◌, ◌++◌, if◌then◌else◌}
use midas.Common.Int.{ℤ, ◌+ℤ◌, wrap64}
use midas.Common.Text.{codes}
use midas.Ai.Message.{AssistantMessage, Body, Message}
use midas.Agent.Compaction.{is_failure}
use midas.Agent.Loop.{
  RunError, Outcome, Model, message_start, message_end, message_update, Effect, emit, warmer_stop,
  warmer_start, error_message, assistant_failure,
}

-- The events of a provider's stream: a start and the updates with their partial message, if they
-- have one, and the two terminal events.
pub data AssistantEvent : Type 0 where
  start update : Option AssistantMessage → AssistantEvent
  terminal : AssistantEvent

-- What a provider does with a request: an error at once, or a stream, whose `Next` gives the
-- events and then, if none was terminal, an error or its end, and whose `Result` gives `result`.
pub data Response : Type 0 where
  refused : RunError → Response
  stream : List AssistantEvent → Option RunError → Outcome AssistantMessage → Response

-- The cache warmer of a run: none, one made for the run, or the caller's.
pub data Warmer : Type 0 where
  no_warmer owned shared : Warmer

abbrev pub has_warmer : Warmer → Bool
has_warmer no_warmer = false
has_warmer _ = true

-- startCacheWarming
unfoldable pub start_cache_warming : Warmer → AssistantMessage → List Effect
start_cache_warming warmer m =
    if has_warmer warmer
    then if is_failure m.stop_reason
      then []
      else warmer_start (wrap64 (m.usage.input +ℤ m.usage.cache_read +ℤ m.usage.cache_write)) ∷ []
    else []

abbrev pub Streamed : Type 0
Streamed = AssistantMessage × Option RunError × List Effect

abbrev pub assistant : AssistantMessage → Message
assistant m = Message.value (Body.assistant m)

abbrev pub opening : Bool → AssistantMessage → List Effect
opening started m = if started then [] else emit (message_start (assistant m)) ∷ []

-- An error that ends the response.
abbrev pub fail_response : Bool → AssistantMessage → RunError → Streamed
fail_response started m e = (m, some e, opening started m ++ emit (message_end (assistant m)) ∷ [])

-- The end of a response, behind a terminal event or the end of the stream.
abbrev pub settle_result : Model → ℤ → Outcome AssistantMessage → AssistantMessage × Option RunError
settle_result model now (Outcome.ok m) = (m, none)
settle_result model now (Outcome.err e) = (error_message model now e, some e)

unfoldable pub finish_response : Model → ℤ → Warmer → Bool → Outcome AssistantMessage → Streamed
finish_response model now warmer started result =
    let (m, e) = settle_result model now result in
    (
      m,
      assistant_failure m e,
      opening started m ++ emit (message_end (assistant m)) ∷ start_cache_warming warmer m,
    )

abbrev pub before : List Effect → Streamed → Streamed
before effects r = (r.0, r.1, effects ++ r.2)

-- The loop over `Next`. A pointer to the partial message is pushed.
unfoldable pub read_response :
    Model
    → ℤ
    → Warmer
    → Option RunError
    → Outcome AssistantMessage
    → Bool
    → List AssistantEvent
    → Streamed
unfolding finish_response
read_response model now warmer none result started [] =
    finish_response model now warmer started result
read_response model now _ (some e) result started [] =
    fail_response started (error_message model now e) e
read_response model now warmer closing result started (terminal ∷ es) =
    finish_response model now warmer started result
read_response model now warmer closing result started (start (some partial) ∷ es) =
    before (emit (message_start (Message.pointer (Body.assistant partial))) ∷ [])
      (read_response model now warmer closing result true es)
read_response model now warmer closing result started (start none ∷ es) =
    read_response model now warmer closing result started es
read_response model now warmer closing result started (update (some partial) ∷ es) =
    before (emit (message_update partial) ∷ [])
      (read_response model now warmer closing result started es)
read_response model now warmer closing result started (update none ∷ es) =
    read_response model now warmer closing result started es

abbrev pub no_provider : RunError
no_provider = record { message = codes "agent: provider is nil"; is_canceled = false }

abbrev pub stop_warmer : Warmer → List Effect
stop_warmer warmer = if has_warmer warmer then warmer_stop ∷ [] else []

-- streamAssistant; `none` is a nil provider.
unfoldable pub stream_assistant : Model → ℤ → Warmer → Option Response → Streamed
unfolding read_response
stream_assistant model now _ none =
    fail_response false (error_message model now no_provider) no_provider
stream_assistant model now warmer (some (refused e)) =
    before (stop_warmer warmer) (fail_response false (error_message model now e) e)
stream_assistant model now warmer (some (stream es closing result)) =
    before (stop_warmer warmer) (read_response model now warmer closing result false es)
