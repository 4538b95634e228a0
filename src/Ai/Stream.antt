-- ===== src/Ai/Stream.antt =====
-- pkg/ai/stream.go: the event queue between a producer and its consumer.
pub mod Laws
pub mod Order
use midas.Common.{
  ℕ, suc, ◌+◌, Bool, true, false, Option, none, some, List, [], ◌∷◌, ◌++◌, if◌then◌else◌, ◌==◌,
  get_elem?, set, length,
}

-- `result` is `none` until `resultReady`. The channels that wake a waiting consumer carry no
-- value and are left out: a consumer that would wait gets `wait`.
pub record EventStream (T R : Type 0) : Type 0 where
  pub queue : List T
  pub head : ℕ
  pub done : Bool
  pub result : Option R

-- What `Next` gives: an event, `ok = false`, or a wait for the producer or the context.
pub data NextResult (T : Type 0) : Type 0 where
  event : T → NextResult T
  ended wait : NextResult T

module _ {T R : Type 0} where
  -- NewEventStream
  abbrev pub new : EventStream T R
  new = record { queue = []; head = 0; done = false; result = none }

  -- `complete` gives the result of a terminal event.
  unfoldable pub push : (T → Option R) → EventStream T R → T → EventStream T R
  push complete s e = if s.done then s else elim (complete e) [
    | none ↦ record s { queue = s.queue ++ e ∷ [] }
    | some r ↦ record s { queue = s.queue ++ e ∷ []; done = true; result = some r }
  ]

  -- `End`; the argument is nil or a result.
  unfoldable pub end : EventStream T R → Option R → EventStream T R
  end s none = record s { done = true }
  end s (some r) = elim s.result [
    | none ↦ record s { done = true; result = some r }
    | some old ↦ record s { done = true }
  ]

  -- One round of the loop of `Next`. A consumed slot is overwritten by the zero value, and the
  -- slice is used again once all of it is read.
  unfoldable pub next : T → EventStream T R → NextResult T × EventStream T R
  next zero_value s = elim (get_elem? s.queue s.head) [
    | some e ↦ (
      event e,
      if s.head + 1 == length s.queue
          then record s { queue = []; head = 0 }
          else record s { queue = set s.queue s.head zero_value; head = s.head + 1 },
    )
    | none ↦ (if s.done then ended else wait, s)
  ]
