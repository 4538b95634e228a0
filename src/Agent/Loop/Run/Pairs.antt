-- ===== src/Agent/Loop/Run/Pairs.antt =====
-- pkg/agent/loop.go: a run leaves a transcript in which every tool call has its one result.
use midas.Common.{
  ◌≡◌, refl, sym, ◌∙◌, Bool, true, false, Option, none, some, List, [], ◌∷◌, ◌++◌, map, arith, All,
  All-append, append_assoc, append-nil, Bool-cases, Option-cases, inl, inr,
}
use mathlib.Core.Path.{subst}
use midas.Common.Text.{is_empty}
use midas.Ai.Message.{AssistantMessage, Message}
use midas.Agent.Compaction.{is_failure}
use midas.Agent.Steering.{SteeringQueue, push, push_all, drain, drain_or_close, close}
use midas.Agent.Loop.{RunError, Effect, emit, pair_of_events}
use midas.Agent.Loop.Assistant.{assistant, stream_assistant}
use midas.Agent.Loop.Run.{
  Config, Turn, RunState, Progress, continues, finished, add_message, append_messages, start_run,
  drain_at_boundary, after_drain, steer, stop_steering, receive_pushes, complete_turn, take_turn,
  end_run, run_turns, run, run_warmer, empty_run, after_turn, batch_of, result_messages, run_tools,
  tool_result, is_some,
}
use midas.Agent.Loop.Run.Balanced.{
  IsBalanced, is_user, OnlyUser, IsBalanced-users, IsBalanced-append, IsBalanced-turn,
  IsBalanced-failure,
}

pub current-append_messages :
    (s : RunState) (ms : List Message)
    → ((append_messages s ms).current ≡ s.current ++ ms)
      × ((append_messages s ms).new_messages ≡ s.new_messages ++ ms)
      × ((append_messages s ms).steering ≡ s.steering)
unfolding append_messages add_message
current-append_messages s [] = (sym (append-nil _), sym (append-nil _), refl)
current-append_messages s (m ∷ ms) =
    let (p, q, r) = current-append_messages (add_message s m (pair_of_events m)) ms in
    (p ∙ append_assoc s.current (m ∷ []) ms, q ∙ append_assoc s.new_messages (m ∷ []) ms, r)

abbrev pub UsersQueued : Option SteeringQueue → Type 0
UsersQueued none = Unit
UsersQueued (some q) = OnlyUser q.messages

-- The transcript is balanced, and only user messages wait in the queue.
abbrev pub IsPaired : RunState → Type 0
IsPaired s = IsBalanced s.current × UsersQueued s.steering

IsPaired-append_messages :
    (s : RunState) (ms : List Message)
    → IsBalanced ms
    → IsPaired s
    → IsPaired (append_messages s ms)
IsPaired-append_messages s ms h k =
    let (p, _, r) = current-append_messages s ms in
    (rw p (IsBalanced-append s.current ms k.0 h), rw r k.1)

OnlyUser-push :
    (q : SteeringQueue) (m : Message)
    → OnlyUser q.messages
    → is_user m ≡ true
    → OnlyUser (push q m).0.messages
unfolding push
OnlyUser-push q m h k = elim (Bool-cases q.closed) [
  | inl c ↦ rw (c, push) h
  | inr c ↦ rw (c, push) (All-append _ q.messages (m ∷ []) h (k, tt))
]

OnlyUser-push_all :
    (q : SteeringQueue) (ms : List Message)
    → OnlyUser q.messages
    → OnlyUser ms
    → OnlyUser (push_all q ms).messages
unfolding push_all
OnlyUser-push_all q [] h k = h
OnlyUser-push_all q (m ∷ ms) h k = OnlyUser-push_all (push q m).0 ms (OnlyUser-push q m h k.0) k.1

IsPaired-receive_pushes :
    (s : RunState) (ms : List Message) → OnlyUser ms → IsPaired s → IsPaired (receive_pushes s ms)
unfolding receive_pushes
IsPaired-receive_pushes s ms u h = elim (Option-cases s.steering) [
  | inl n ↦ rw (n, receive_pushes) h
  | inr (q, n) ↦ rw (n, receive_pushes) (h.0, OnlyUser-push_all q ms (rw n at h.1) u)
]

IsPaired-after_drain :
    (s : RunState) (e : Option RunError) (d : List Message × Bool × SteeringQueue)
    → IsBalanced s.current
    → OnlyUser d.0
    → OnlyUser d.2.messages
    → IsPaired (after_drain s e d).0
IsPaired-after_drain s e (ms, true, q) h u v = (h, v)
IsPaired-after_drain s e (ms, false, q) h u v =
    IsPaired-append_messages (record s { steering = some q }) ms (IsBalanced-users ms u) (h, v)

users_drained :
    (b : Bool) (q : SteeringQueue)
    → OnlyUser q.messages
    → OnlyUser (drain_at_boundary b q).0 × OnlyUser (drain_at_boundary b q).2.messages
unfolding drain_or_close drain
users_drained true q h = elim (Bool-cases (is_empty q.messages)) [
  | inl c ↦ rw (c, drain_or_close) (tt, h)
  | inr c ↦ rw (c, drain_or_close) (h, tt)
]
users_drained false q h = (h, tt)

IsPaired-steer :
    (s : RunState) (e : Option RunError) (b : Bool) → IsPaired s → IsPaired (steer s e b).0
unfolding steer
IsPaired-steer s e b h = elim (Option-cases s.steering) [
  | inl n ↦ ground (arith, n)
  | inr (q, n) ↦
      let (u, v) = users_drained b q (subst UsersQueued n h.1) in
      rw (n, steer) (IsPaired-after_drain s e (drain_at_boundary b q) h.0 u v)
]

IsPaired-stop_steering : (s : RunState) → IsPaired s → IsPaired (stop_steering s)
unfolding stop_steering close drain
IsPaired-stop_steering s h = elim (Option-cases s.steering) [
  | inl n ↦ rw (n, stop_steering) h
  | inr (q, n) ↦
      rw (n, stop_steering)
        (IsPaired-append_messages (record s { steering = some (close q).1 }) q.messages
          (IsBalanced-users q.messages (subst UsersQueued n h.1)) (h.0, tt))
]

-- A response that did not fail, with the results of its calls.
IsPaired-run_tools :
    (c : Config) (t : Turn) (m : AssistantMessage) (effects : List Effect) (s : RunState)
    → is_failure m.stop_reason ≡ false
    → IsPaired s
    → IsPaired (run_tools c t m (add_message s (assistant m) effects))
unfolding run_tools add_message
IsPaired-run_tools c t m effects s ok h =
    let results = map tool_result (result_messages t (batch_of c t m).0) in
    let s' = add_message s (assistant m) effects in
    let s'' = record s' { trace = s'.trace ++ map emit (batch_of c t m).1 } in
    let (p, _, r) = current-append_messages s'' results in
    let whole = p ∙ append_assoc s.current (assistant m ∷ []) results in
    (
      subst IsBalanced (sym whole)
          (IsBalanced-append s.current (assistant m ∷ results) h.0 (IsBalanced-turn c t m ok)),
      rw r h.1,
    )

IsPaired-take_turn :
    (c : Config) (t : Turn) (s : RunState)
    → OnlyUser t.pushes
    → IsPaired s
    → IsPaired (take_turn c t s).0
unfolding take_turn complete_turn add_message
IsPaired-take_turn c t s u h =
    let r = stream_assistant c.model t.now (run_warmer c) t.response in
    let s' = add_message s (assistant r.0) r.2 in
    elim (Bool-cases (is_failure r.0.stop_reason)) [
      | inl b ↦
          rw (b, take_turn)
            (IsPaired-receive_pushes _ t.pushes u (
              IsBalanced-append s.current (assistant r.0 ∷ []) h.0 (IsBalanced-failure r.0 b),
              h.1,
            ))
      | inr b ↦
          let tools = IsPaired-run_tools c t r.0 r.2 s b h in
          let ended = receive_pushes (run_tools c t r.0 s') t.pushes in
          let h' = IsPaired-receive_pushes (run_tools c t r.0 s') t.pushes u tools in
          elim (Bool-cases (is_some t.ctx_after)) [
            | inl x ↦ rw (b, x, take_turn, complete_turn) (IsPaired-stop_steering ended h')
            | inr x ↦ rw (b, x, take_turn, complete_turn) (IsPaired-steer ended r.1 _ h')
          ]
    ]

IsPaired-after_turn :
    (c : Config) (s : RunState) (p : Progress) (rest : RunState × Progress)
    → IsPaired s
    → IsPaired rest.0
    → IsPaired (after_turn c s p rest).0
unfolding end_run
IsPaired-after_turn c s continues rest h k = k
IsPaired-after_turn c s (finished e) rest h k = h

IsPaired-run_turns :
    (c : Config) (s : RunState) (ts : List Turn)
    → All (λ (t : Turn). OnlyUser t.pushes) ts
    → IsPaired s
    → IsPaired (run_turns c s ts).0
unfolding run_turns
IsPaired-run_turns c s [] u h = h
IsPaired-run_turns c s (t ∷ ts) u h =
    let s' = (take_turn c t s).0 in
    let h' = IsPaired-take_turn c t s u.0 h in
    IsPaired-after_turn c s' (take_turn c t s).1 (run_turns c s' ts) h'
      (IsPaired-run_turns c s' ts u.1 h')

-- If the conversation that a run continues is balanced, and what it is prompted and steered with
-- are user messages, then at every point between turns the context is balanced: each tool call of
-- each response that did not fail has its one result, in the order of the calls, before any other
-- message.
pub run-IsBalanced :
    (c : Config) (initial prompts : List Message) (q : Option SteeringQueue) (ts : List Turn)
    → IsBalanced initial
    → OnlyUser prompts
    → UsersQueued q
    → All (λ (t : Turn). OnlyUser t.pushes) ts
    → IsBalanced (run c initial q prompts ts).0.current
unfolding run
run-IsBalanced c initial prompts q ts b p v u =
    (IsPaired-run_turns c (start_run initial q prompts) ts u (
      IsPaired-append_messages (empty_run initial q) prompts (IsBalanced-users prompts p) (b, v))).0
