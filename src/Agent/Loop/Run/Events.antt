-- ===== src/Agent/Loop/Run/Events.antt =====
-- pkg/agent/loop.go: the messages of a run, and the events that announce them.
use midas.Common.{
  ◌≡◌, refl, sym, ◌∙◌, ap, Bool, true, false, Option, none, some, List, [], ◌∷◌, ◌++◌, ◌||◌, map,
  arith, append_assoc, append-nil, Bool-cases, Option-cases, inl, inr,
}
use midas.Common.Int.{ℤ}
use midas.Ai.Message.{AssistantMessage, Message}
use midas.Agent.Compaction.{is_failure}
use midas.Agent.Steering.{SteeringQueue, close}
use midas.Agent.Calls.{tool_calls}
use midas.Agent.Loop.{
  RunError, Outcome, Model, Event, turn_start, turn_end, agent_end, message_end, Effect, emit,
  pair_of_events,
}
use midas.Agent.Loop.Batch.ToolEvents.{OnlyTool, OnlyTool-execute_tool_batch}
use midas.Agent.Loop.Assistant.{
  Response, AssistantEvent, Warmer, assistant, stream_assistant, read_response, finish_response,
  start_cache_warming, start, update, terminal, refused, stream, settle_result, stop_warmer,
  no_warmer, owned, shared,
}
use midas.Agent.Loop.Run.{
  Config, Turn, RunState, Progress, continues, finished, add_message, append_messages, start_run,
  drain_at_boundary, after_drain, steer, stop_steering, receive_pushes, complete_turn, take_turn,
  empty_run, after_turn, batch_of, result_messages, run_tools, tool_result, is_some, end_run,
  run_turns, run, leave_warmer, run_warmer,
}

-- The messages whose ends are announced, in order.
abbrev pub ended : List Effect → List Message
ended [] = []
ended (emit (message_end m) ∷ es) = m ∷ ended es
ended (_ ∷ es) = ended es

ended-append : (xs ys : List Effect) → ended (xs ++ ys) ≡ ended xs ++ ended ys
ended-append [] ys = refl
ended-append (emit (message_end m) ∷ xs) ys = ap (m ∷◌) (ended-append xs ys)
ended-append (_ ∷ xs) ys = ended-append xs ys

ended-tool_events : (es : List Event) → OnlyTool es → ended (map emit es) ≡ []
ended-tool_events [] h = refl
ended-tool_events (message_end m ∷ es) h = cc
ended-tool_events (_ ∷ es) h = ended-tool_events es h.1

-- The response announces the end of exactly the message that it returns.
ended-start_cache_warming :
    (w : Warmer) (m : AssistantMessage) → ended (start_cache_warming w m) ≡ []
unfolding start_cache_warming
ended-start_cache_warming w m = ground arith

ended-finish :
    (model : Model) (now : ℤ) (w : Warmer) (b : Bool) (r : Outcome AssistantMessage)
    → ended (finish_response model now w b r).2 ≡ assistant (finish_response model now w b r).0 ∷ []
unfolding finish_response
ended-finish model now w true r =
    ap (assistant (settle_result model now r).0 ∷◌)
      (ended-start_cache_warming w (settle_result model now r).0)
ended-finish model now w false r =
    ap (assistant (settle_result model now r).0 ∷◌)
      (ended-start_cache_warming w (settle_result model now r).0)

ended-read :
    (model : Model) (now : ℤ) (w : Warmer) (closing : Option RunError)
    (r : Outcome AssistantMessage) (b : Bool) (es : List AssistantEvent)
    → ended (read_response model now w closing r b es).2
      ≡ assistant (read_response model now w closing r b es).0 ∷ []
unfolding read_response
ended-read model now w none r b [] = ended-finish model now w b r
ended-read model now w (some e) r true [] = refl
ended-read model now w (some e) r false [] = refl
ended-read model now w closing r b (terminal ∷ es) = ended-finish model now w b r
ended-read model now w closing r b (start (some p) ∷ es) = ended-read model now w closing r true es
ended-read model now w closing r b (start none ∷ es) = ended-read model now w closing r b es
ended-read model now w closing r b (update (some p) ∷ es) = ended-read model now w closing r b es
ended-read model now w closing r b (update none ∷ es) = ended-read model now w closing r b es

ended-stop_warmer : (w : Warmer) (es : List Effect) → ended (stop_warmer w ++ es) ≡ ended es
ended-stop_warmer no_warmer es = refl
ended-stop_warmer owned es = refl
ended-stop_warmer shared es = refl

ended-leave_warmer : (w : Warmer) → ended (leave_warmer w) ≡ []
ended-leave_warmer no_warmer = refl
ended-leave_warmer owned = refl
ended-leave_warmer shared = refl

ended-stream_assistant :
    (model : Model) (now : ℤ) (w : Warmer) (r : Option Response)
    → ended (stream_assistant model now w r).2 ≡ assistant (stream_assistant model now w r).0 ∷ []
unfolding stream_assistant
ended-stream_assistant model now w none = refl
ended-stream_assistant model now w (some (refused e)) = ended-stop_warmer w _
ended-stream_assistant model now w (some (stream es closing r)) =
    ended-stop_warmer w _ ∙ ended-read model now w closing r false es

module _ (initial : List Message) where
  -- The events announce the new messages, and the context holds them behind those it started with.
  abbrev pub IsLogged : RunState → Type 0
  IsLogged s = (ended s.trace ≡ s.new_messages) × (s.current ≡ initial ++ s.new_messages)

  IsLogged-effects :
      (s : RunState) (es : List Effect)
      → ended es ≡ []
      → IsLogged s
      → IsLogged (record s { trace = s.trace ++ es })
  IsLogged-effects s es e h = (ended-append s.trace es ∙ rw (e, append-nil) h.0, h.1)

  IsLogged-add_message :
      (s : RunState) (m : Message) (es : List Effect)
      → ended es ≡ m ∷ []
      → IsLogged s
      → IsLogged (add_message s m es)
  unfolding add_message
  IsLogged-add_message s m es e h = (
    ended-append s.trace es ∙ rw (e, h.0),
    ap (◌++ m ∷ []) h.1 ∙ append_assoc initial s.new_messages (m ∷ []),
  )

  IsLogged-append_messages :
      (s : RunState) (ms : List Message) → IsLogged s → IsLogged (append_messages s ms)
  unfolding append_messages
  IsLogged-append_messages s [] h = h
  IsLogged-append_messages s (m ∷ ms) h =
      IsLogged-append_messages (add_message s m (pair_of_events m)) ms
        (IsLogged-add_message s m (pair_of_events m) refl h)

  IsLogged-after_drain :
      (s : RunState) (e : Option RunError) (d : List Message × Bool × SteeringQueue)
      → IsLogged s
      → IsLogged (after_drain s e d).0
  IsLogged-after_drain s e (ms, true, q) h = h
  IsLogged-after_drain s e (ms, false, q) h =
      IsLogged-effects (append_messages (record s { steering = some q }) ms) (emit turn_start ∷ [])
        refl (IsLogged-append_messages (record s { steering = some q }) ms h)

  IsLogged-steer :
      (s : RunState) (e : Option RunError) (b : Bool) → IsLogged s → IsLogged (steer s e b).0
  unfolding steer
  IsLogged-steer s e b h = elim (Option-cases s.steering) [
    | inl n ↦ ground (arith, n, IsLogged-effects s (emit turn_start ∷ []) refl h)
    | inr (q, n) ↦ rw (n, steer) (IsLogged-after_drain s e (drain_at_boundary b q) h)
  ]

  IsLogged-stop_steering : (s : RunState) → IsLogged s → IsLogged (stop_steering s)
  unfolding stop_steering
  IsLogged-stop_steering s h = elim (Option-cases s.steering) [
    | inl n ↦ rw (n, stop_steering) h
    | inr (q, n) ↦
        rw (n, stop_steering)
          (IsLogged-append_messages (record s { steering = some (close q).1 }) (close q).0 h)
  ]

  IsLogged-receive_pushes :
      (s : RunState) (ms : List Message) → IsLogged s → IsLogged (receive_pushes s ms)
  unfolding receive_pushes
  IsLogged-receive_pushes s ms h = elim (Option-cases s.steering) [
    | inl n ↦ rw (n, receive_pushes) h
    | inr (q, n) ↦ rw (n, receive_pushes) h
  ]

  IsLogged-run_tools :
      (c : Config) (t : Turn) (m : AssistantMessage) (s : RunState)
      → IsLogged s
      → IsLogged (run_tools c t m s)
  unfolding run_tools
  IsLogged-run_tools c t m s h =
      let b = batch_of c t m in
      let quiet = ended-tool_events b.1 (
        OnlyTool-execute_tool_batch c.quote c.tools (tool_calls m) m.stop_reason c.tool_execution
          t.ctx t.execute t.schedule) in
      let s' = record s { trace = s.trace ++ map emit b.1 } in
      let ms = map tool_result (result_messages t b.0) in
      IsLogged-effects (append_messages s' ms) (emit (turn_end m (result_messages t b.0) none) ∷ [])
        refl (IsLogged-append_messages s' ms (IsLogged-effects s (map emit b.1) quiet h))

  IsLogged-complete_turn :
      (c : Config) (t : Turn) (m : AssistantMessage) (e : Option RunError) (s : RunState)
      → IsLogged s
      → IsLogged (complete_turn c t m e s).0
  unfolding complete_turn
  IsLogged-complete_turn c t m e s h =
      let s' = receive_pushes (run_tools c t m s) t.pushes in
      let h' =
        IsLogged-receive_pushes (run_tools c t m s) t.pushes (IsLogged-run_tools c t m s h) in
      elim (Bool-cases (is_failure m.stop_reason || is_some t.ctx_after)) [
        | inl b ↦ rw (b, complete_turn) (IsLogged-stop_steering s' h')
        | inr b ↦ rw (b, complete_turn) (IsLogged-steer s' e _ h')
      ]

  IsLogged-take_turn :
      (c : Config) (t : Turn) (s : RunState) → IsLogged s → IsLogged (take_turn c t s).0
  unfolding take_turn
  IsLogged-take_turn c t s h =
      let r = stream_assistant c.model t.now (run_warmer c) t.response in
      let s' = add_message s (assistant r.0) r.2 in
      let h' =
        IsLogged-add_message s (assistant r.0) r.2
          (ended-stream_assistant c.model t.now (run_warmer c) t.response) h in
      elim (Bool-cases (is_failure r.0.stop_reason)) [
        | inl b ↦
            rw (b, take_turn)
              (IsLogged-receive_pushes _ t.pushes
                (IsLogged-effects s' (emit (turn_end r.0 [] r.1) ∷ []) refl h'))
        | inr b ↦ rw (b, take_turn) (IsLogged-complete_turn c t r.0 r.1 s' h')
      ]

  IsLogged-end_run :
      (c : Config) (s : RunState) (e : Option RunError) → IsLogged s → IsLogged (end_run c s e)
  unfolding end_run
  IsLogged-end_run c s e h =
      IsLogged-effects s (emit (agent_end s.new_messages e) ∷ leave_warmer (run_warmer c))
        (ended-leave_warmer (run_warmer c)) h

  IsLogged-after_turn :
      (c : Config) (s : RunState) (p : Progress) (rest : RunState × Progress)
      → IsLogged s
      → IsLogged rest.0
      → IsLogged (after_turn c s p rest).0
  IsLogged-after_turn c s continues rest h k = k
  IsLogged-after_turn c s (finished e) rest h k = IsLogged-end_run c s e h

  IsLogged-run_turns :
      (c : Config) (s : RunState) (ts : List Turn) → IsLogged s → IsLogged (run_turns c s ts).0
  unfolding run_turns
  IsLogged-run_turns c s [] h = h
  IsLogged-run_turns c s (t ∷ ts) h =
      let s' = (take_turn c t s).0 in
      let h' = IsLogged-take_turn c t s h in
      IsLogged-after_turn c s' (take_turn c t s).1 (run_turns c s' ts) h'
        (IsLogged-run_turns c s' ts h')

-- At every point of every run the messages whose ends were announced on the stream are, in order,
-- the run's new messages, and the context holds them behind the messages that it was given.
pub run_announces :
    (c : Config) (initial prompts : List Message) (q : Option SteeringQueue) (ts : List Turn)
    → let s = (run c initial q prompts ts).0 in
      (ended s.trace ≡ s.new_messages) × (s.current ≡ initial ++ s.new_messages)
unfolding run
run_announces c initial prompts q ts =
    IsLogged-run_turns initial c (start_run initial q prompts) ts (
      IsLogged-append_messages initial (empty_run initial q) prompts
        (refl, sym (append-nil initial)))
