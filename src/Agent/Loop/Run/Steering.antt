-- ===== src/Agent/Loop/Run/Steering.antt =====
-- pkg/agent/loop.go and pkg/agent/steering.go: what becomes of the messages that are pushed while
-- a run is going.
use mathlib.Core.Path.{subst}
use midas.Common.{
  ◌≡◌, refl, sym, ◌∙◌, ap, ap₂, Bool, true, false, Option, some, List, [], ◌∷◌, ◌++◌, ◌||◌, ◌&&◌,
  not, map, arith, All, append_assoc, append-nil, Bool-cases, inl, inr, if◌then◌else◌,
}
use midas.Common.Text.{is_empty}
use midas.Common.Within.{Within, Within-refl, Within-append, Within-append_left}
use midas.Ai.Message.{AssistantMessage, Message}
use midas.Agent.Compaction.{is_failure}
use midas.Agent.Steering.{
  SteeringQueue, push, push_all, accepted, messages-push_all, drain, drain_or_close, close,
}
use midas.Agent.Calls.{tool_calls}
use midas.Agent.Loop.{RunError, emit}
use midas.Agent.Loop.Assistant.{assistant, stream_assistant}
use midas.Agent.Loop.Run.{
  Config, Turn, RunState, Progress, continues, finished, add_message, append_messages,
  drain_at_boundary, after_drain, steer, stop_steering, receive_pushes, complete_turn, take_turn,
  end_run, run_turns, run_warmer, after_turn, batch_of, result_messages, run_tools, tool_result,
  is_some, all_terminate,
}
use midas.Agent.Loop.Run.Pairs.{current-append_messages}

abbrev pub is_finished : Progress → Bool
is_finished continues = false
is_finished (finished _) = true

abbrev pub queue : List Message → Bool → SteeringQueue
queue ms closed = record { messages = ms; closed = closed }

-- The messages join the new messages, and the queue is empty, and closed if and only if the run
-- ends.
abbrev IsDrained : List Message → List Message → RunState × Progress → Type 0
IsDrained new ms r =
    (r.0.new_messages ≡ new ++ ms) × (r.0.steering ≡ some (queue [] (is_finished r.1)))

IsDrained-append :
    (s : RunState) (ms : List Message) (closed : Bool)
    → let s' = append_messages (record s { steering = some (queue [] closed) }) ms in
      (s'.new_messages ≡ s.new_messages ++ ms) × (s'.steering ≡ some (queue [] closed))
IsDrained-append s ms closed =
    let s' = record s { steering = some (queue [] closed) } in
    let (_, new, kept) = current-append_messages s' ms in (new, kept)

IsDrained-boundary :
    (s : RunState) (e : Option RunError) (b : Bool) (ms : List Message)
    → IsDrained s.new_messages ms (after_drain s e (drain_at_boundary b (queue ms false)))
unfolding drain_or_close drain
IsDrained-boundary s e true [] = (sym (append-nil _), refl)
IsDrained-boundary s e true (m ∷ ms) = IsDrained-append s (m ∷ ms) false
IsDrained-boundary s e false ms = IsDrained-append s ms false

IsDrained-steer :
    (s : RunState) (e : Option RunError) (b : Bool) (ms : List Message)
    → s.steering ≡ some (queue ms false)
    → IsDrained s.new_messages ms (steer s e b)
unfolding steer
IsDrained-steer s e b ms h = rw (h, steer) (IsDrained-boundary s e b ms)

IsDrained-stop_steering :
    (s : RunState) (e : Option RunError) (ms : List Message)
    → s.steering ≡ some (queue ms false)
    → IsDrained s.new_messages ms (stop_steering s, finished e)
unfolding stop_steering close drain
IsDrained-stop_steering s e ms h = rw (h, stop_steering) (IsDrained-append s ms true)

closed-push_all : (q : SteeringQueue) (ms : List Message) → (push_all q ms).closed ≡ q.closed
unfolding push_all push
closed-push_all q [] = refl
closed-push_all q (m ∷ ms) = ground (arith, closed-push_all (push q m).0 ms)

push_all-open :
    (waiting ms : List Message)
    → push_all (queue waiting false) ms ≡ queue (waiting ++ accepted (queue waiting false) ms) false
push_all-open waiting ms =
    let q = push_all (queue waiting false) ms in
    ap₂ queue (messages-push_all (queue waiting false) ms)
      (closed-push_all (queue waiting false) ms)

-- What stands in the queue when a turn reaches its boundary.
receive_pushes-open :
    (s : RunState) (waiting ms : List Message)
    → s.steering ≡ some (queue waiting false)
    → ((receive_pushes s ms).steering
        ≡ some (queue (waiting ++ accepted (queue waiting false) ms) false))
      × ((receive_pushes s ms).new_messages ≡ s.new_messages)
unfolding receive_pushes
receive_pushes-open s waiting ms h =
    rw (h, receive_pushes) (ap some (push_all-open waiting ms), refl)

unfoldable pub response_of : Config → Turn → AssistantMessage
response_of c t = (stream_assistant c.model t.now (run_warmer c) t.response).0

-- The provider's response of a turn did not fail.
abbrev pub Succeeds : Config → Turn → Type 0
Succeeds c t = is_failure (response_of c t).stop_reason ≡ false

results_of : Config → Turn → AssistantMessage → List Message
results_of c t m = map tool_result (result_messages t (batch_of c t m).0)

run_tools-results :
    (c : Config) (t : Turn) (m : AssistantMessage) (s : RunState)
    → ((run_tools c t m s).new_messages ≡ s.new_messages ++ results_of c t m)
      × ((run_tools c t m s).steering ≡ s.steering)
unfolding run_tools results_of
run_tools-results c t m s =
    let (_, new, kept) =
      current-append_messages (record s { trace = s.trace ++ map emit (batch_of c t m).1 })
        (map tool_result (result_messages t (batch_of c t m).0)) in
    (new, kept)

IsDrained-complete_turn :
    (c : Config) (t : Turn) (m : AssistantMessage) (e : Option RunError) (s : RunState)
    (waiting : List Message)
    → is_failure m.stop_reason ≡ false
    → s.steering ≡ some (queue waiting false)
    → IsDrained
        (s.new_messages ++ results_of c t m)
        (waiting ++ accepted (queue waiting false) t.pushes)
        (complete_turn c t m e s)
unfolding complete_turn
IsDrained-complete_turn c t m e s waiting ok h =
    let (new, kept) = run_tools-results c t m s in
    let after = run_tools c t m s in
    let ended = receive_pushes after t.pushes in
    let ms = waiting ++ accepted (queue waiting false) t.pushes in
    let (q, same) = receive_pushes-open after waiting t.pushes (kept ∙ h) in
    subst (λ n. IsDrained n ms (complete_turn c t m e s)) (same ∙ new)
      (elim (Bool-cases (is_some t.ctx_after)) [
        | inl x ↦ rw (ok, x, complete_turn) (IsDrained-stop_steering ended e ms q)
        | inr x ↦
            rw (ok, x, complete_turn)
              (IsDrained-steer ended e
                (is_empty (tool_calls m)
                  || not (is_empty (batch_of c t m).0) && all_terminate (batch_of c t m).0)
                ms q)
      ])

-- A turn whose response did not fail, with an open queue.
IsDrained-take_turn :
    (c : Config) (t : Turn) (s : RunState) (waiting : List Message)
    → Succeeds c t
    → s.steering ≡ some (queue waiting false)
    → IsDrained
        ((s.new_messages ++ assistant (response_of c t) ∷ []) ++ results_of c t (response_of c t))
        (waiting ++ accepted (queue waiting false) t.pushes)
        (take_turn c t s)
unfolding take_turn add_message response_of
IsDrained-take_turn c t s waiting ok h =
    let r = stream_assistant c.model t.now (run_warmer c) t.response in
    rw (ok, take_turn)
      (IsDrained-complete_turn c t r.0 r.1 (add_message s (assistant r.0) r.2) waiting ok h)

-- The messages for which `Push` returned true up to the end of the run, when `waiting` stand in the
-- open queue at the start. A turn that goes on leaves an empty, open queue.
unfoldable pub steered : Config → RunState → List Message → List Turn → List Message
steered c s waiting [] = waiting
steered c s waiting (t ∷ ts) =
    let now = waiting ++ accepted (queue waiting false) t.pushes in
    let rest = steered c (take_turn c t s).0 [] ts in
    if is_finished (take_turn c t s).1 then now else now ++ rest

-- The run has ended with an empty, closed queue, and the messages are among those that joined the
-- new messages of `s` since, in order.
abbrev pub Steers : RunState → List Message → RunState × Progress → Type 0
Steers s ms r =
    (more : List Message) × (r.0.new_messages ≡ s.new_messages ++ more)
    × Within ms more
    × (r.0.steering ≡ some (queue [] true))

Steers-after_turn :
    (c : Config) (s s' : RunState) (p : Progress) (rest : RunState × Progress)
    (own now later : List Message)
    → s'.new_messages ≡ (s.new_messages ++ own) ++ now
    → s'.steering ≡ some (queue [] (is_finished p))
    → (s'.steering ≡ some (queue [] false) → is_finished rest.1 ≡ true → Steers s' later rest)
    → is_finished (after_turn c s' p rest).1 ≡ true
    → Steers s (if is_finished p then now else now ++ later) (after_turn c s' p rest)
unfolding end_run
Steers-after_turn c s s' continues rest own now later new kept next f =
    let (more, e, w, done) = next kept f in
    (
      own ++ (now ++ more),
      e
          ∙ ap (◌++ more) new
          ∙ append_assoc (s.new_messages ++ own) now more
          ∙ append_assoc s.new_messages own (now ++ more),
      Within-append_left own (Within-append (Within-refl now) w),
      done,
    )
Steers-after_turn c s s' (finished x) rest own now later new kept next f = (
  own ++ now,
  new ∙ append_assoc s.new_messages own now,
  Within-append_left own (Within-refl now),
  kept,
)

-- A run that starts with an open queue, whose responses do not fail and which ends, ends with the
-- queue closed and empty, and everything that waited in it or for which `Push` returned true is
-- among the new messages, in the order of the pushes.
pub run_turns-Steers :
    (c : Config) (s : RunState) (waiting : List Message) (ts : List Turn)
    → All (Succeeds c) ts
    → s.steering ≡ some (queue waiting false)
    → is_finished (run_turns c s ts).1 ≡ true
    → Steers s (steered c s waiting ts) (run_turns c s ts)
unfolding run_turns steered
run_turns-Steers c s waiting [] ok h f = cc
run_turns-Steers c s waiting (t ∷ ts) ok h f =
    let s' = (take_turn c t s).0 in
    let (new, kept) = IsDrained-take_turn c t s waiting ok.0 h in
    let own = assistant (response_of c t) ∷ results_of c t (response_of c t) in
    Steers-after_turn c s s' (take_turn c t s).1 (run_turns c s' ts) own
      (waiting ++ accepted (queue waiting false) t.pushes) (steered c s' [] ts)
      (new
        ∙ ap (◌++ (waiting ++ accepted (queue waiting false) t.pushes)) (
            append_assoc s.new_messages (assistant (response_of c t) ∷ [])
              (results_of c t (response_of c t))))
      kept (run_turns-Steers c s' [] ts ok.1) f
