-- ===== src/Ai/Stream/Laws.antt =====
-- pkg/ai/stream.go: the queue with its head index refines a first-in first-out list.
use midas.Common.{
  suc, ◌≤◌, ◌≡◌, Bool, true, Option, none, some, List, [], ◌∷◌, ◌++◌, if◌then◌else◌, length, drop,
  drop-set, drop_all, drop-append, get_elem?-cases, length-append, arith, inl, inr, length-set,
}
use native.Mathlib.Numerals.{add-one}
use midas.Ai.Stream.{EventStream, NextResult, event, ended, wait, push, next}

-- What a stream promises: the events not yet read, in order.
pub record Fifo (T R : Type 0) : Type 0 where
  pub pending : List T
  pub done : Bool
  pub result : Option R

module _ {T R : Type 0} where
  abbrev pub view : EventStream T R → Fifo T R
  view s = record { pending = drop s.head s.queue; done = s.done; result = s.result }

  pub fifo_push : (T → Option R) → Fifo T R → T → Fifo T R
  fifo_push complete s e = if s.done then s else elim (complete e) [
    | none ↦ record s { pending = s.pending ++ e ∷ [] }
    | some r ↦ record { pending = s.pending ++ e ∷ []; done = true; result = some r }
  ]

  pub fifo_next : Fifo T R → NextResult T × Fifo T R
  fifo_next s = elim s.pending [
    | [] ↦ (if s.done then ended else wait, s)
    | e ∷ rest ↦ (event e, record s { pending = rest })
  ]

  abbrev pub IsValid : EventStream T R → Type 0
  IsValid s = s.head ≤ length s.queue

  pub push-IsValid :
      (complete : T → Option R) (s : EventStream T R) (e : T)
      → IsValid s
      → IsValid (push complete s e)
  unfolding push
  push-IsValid complete s e h = ground (arith, length-append s.queue (e ∷ []))

  pub next-IsValid : (z : T) (s : EventStream T R) → IsValid s → IsValid (next z s).1
  unfolding next
  next-IsValid z s h = elim (get_elem?-cases s.queue s.head) [
    | inl (p, _) ↦ ground arith
    | inr (e, p, _, b) ↦ ground (arith, length-set s.queue s.head z)
  ]

  -- A push adds its event behind the unread ones, unless the stream has ended; a terminal event ends
  -- it and sets the result. The head of the queue is inside it.
  pub view-push :
      (complete : T → Option R) (s : EventStream T R) (e : T)
      → IsValid s
      → view (push complete s e) ≡ fifo_push complete (view s) e
  unfolding push fifo_push
  view-push complete s e h = ground (arith, drop-append s.queue (e ∷ []) s.head)

  -- The queue and its head index do what a first-in first-out list does.
  pub view-next :
      (z : T) (s : EventStream T R)
      → ((next z s).0 ≡ (fifo_next (view s)).0) × (view (next z s).1 ≡ (fifo_next (view s)).1)
  unfolding next fifo_next
  view-next z s = elim (get_elem?-cases s.queue s.head) [
    | inl (p, q) ↦ ground arith
    | inr (e, p, q, b) ↦
        ground (arith, add-one s.head, drop-set s.queue s.head z, drop_all s.queue (suc s.head))
  ]
