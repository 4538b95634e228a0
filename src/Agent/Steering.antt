-- ===== src/Agent/Steering.antt =====
-- pkg/agent/steering.go: the queue through which user messages enter a running loop. Each method
-- holds the mutex throughout, so it is one step.
use midas.Common.{
  ◌≡◌, Bool, true, false, List, [], ◌∷◌, ◌++◌, if◌then◌else◌, arith, append_assoc, append-nil,
}
use midas.Common.Text.{is_empty}
use midas.Ai.Message.{Message}

pub record SteeringQueue : Type 0 where
  pub messages : List Message
  pub closed : Bool

-- NewSteeringQueue
abbrev pub new_steering_queue : SteeringQueue
new_steering_queue = record { messages = []; closed = false }

-- Push; `false` once the run has committed to ending.
unfoldable pub push : SteeringQueue → Message → SteeringQueue × Bool
push q m = if q.closed then (q, false) else (record q { messages = q.messages ++ m ∷ [] }, true)

-- drainLocked and drain
unfoldable pub drain : SteeringQueue → List Message × SteeringQueue
drain q = (q.messages, record q { messages = [] })

-- drainOrClose; `true` is that the queue closed and the run may finish.
unfoldable pub drain_or_close : SteeringQueue → List Message × Bool × SteeringQueue
unfolding drain
drain_or_close q =
    if is_empty q.messages
    then ([], true, record q { closed = true })
    else ((drain q).0, false, (drain q).1)

-- close
unfoldable pub close : SteeringQueue → List Message × SteeringQueue
unfolding drain
close q = drain (record q { closed = true })

-- The pushes of other goroutines, in the order in which they get the mutex.
unfoldable pub push_all : SteeringQueue → List Message → SteeringQueue
push_all q [] = q
push_all q (m ∷ ms) = push_all (push q m).0 ms

-- The messages for which `Push` returned true.
unfoldable pub accepted : SteeringQueue → List Message → List Message
accepted q [] = []
accepted q (m ∷ ms) = let rest = accepted (push q m).0 ms in if (push q m).1 then m ∷ rest else rest

-- A push that returned true is queued, in order, and one that returned false left the queue as
-- it was.
pub messages-push_all :
    (q : SteeringQueue) (ms : List Message) → (push_all q ms).messages ≡ q.messages ++ accepted q ms
unfolding push_all accepted push
messages-push_all q [] = rw append-nil
messages-push_all q (m ∷ ms) = ground (
  arith,
  messages-push_all (push q m).0 ms,
  append_assoc q.messages (m ∷ []) (accepted (push q m).0 ms),
)
