-- ===== src/Ai/Stream/Order.antt =====
-- pkg/ai/stream.go under every interleaving of the producer's and the consumer's calls.
use mathlib.Core.Path.{◌≡⟨◌⟩◌, ◌∎}
use midas.Common.{
  ap₂, ◌⊎◌, ◌≡◌, refl, Bool, true, false, Option, none, some, List, [], ◌∷◌, ◌++◌, arith, drop-set,
  drop_all, drop-append, get_elem?-cases, suc, inl, inr, append_assoc, append-nil, sym, ap,
}
use native.Mathlib.Numerals.{add-one}
use midas.Ai.Stream.{EventStream, NextResult, event, ended, wait, new, push, end, next}
use midas.Ai.Stream.Laws.{view, IsValid, push-IsValid, next-IsValid}

pub data Call (T R : Type 0) : Type 0 where
  push_call : T → Call T R
  end_call : Option R → Call T R
  next_call : Call T R

module _ {T R : Type 0} (complete : T → Option R) (z : T) where
  abbrev pub delivered : NextResult T → List T
  delivered (event e) = e ∷ []
  delivered ended = []
  delivered wait = []

  -- One call: the events that it hands to the consumer, and the stream behind it.
  unfoldable pub call : EventStream T R → Call T R → List T × EventStream T R
  call s (push_call e) = ([], push complete s e)
  call s (end_call r) = ([], end s r)
  call s next_call = (delivered (next z s).0, (next z s).1)

  unfoldable pub run : EventStream T R → List (Call T R) → List T × EventStream T R
  run s [] = ([], s)
  run s (c ∷ cs) = let (out, s') = call s c in let rest = run s' cs in (out ++ rest.0, rest.1)

  abbrev is_terminal : Option R → Bool
  is_terminal none = false
  is_terminal (some _) = true

  -- The events that are pushed before the stream has ended, the terminal one included.
  unfoldable pub accepted : Bool → List (Call T R) → List T
  accepted true _ = []
  accepted false [] = []
  accepted false (push_call e ∷ cs) = e ∷ accepted (is_terminal (complete e)) cs
  accepted false (end_call r ∷ cs) = accepted true cs
  accepted false (next_call ∷ cs) = accepted false cs

  accepted_step : Bool → Call T R → List T × Bool
  accepted_step true c = ([], true)
  accepted_step false (push_call e) = (e ∷ [], is_terminal (complete e))
  accepted_step false (end_call r) = ([], true)
  accepted_step false next_call = ([], false)

  accepted-nil : (b : Bool) → accepted b [] ≡ []
  unfolding accepted
  accepted-nil true = refl
  accepted-nil false = refl

  accepted-cons :
      (b : Bool) (c : Call T R) (cs : List (Call T R))
      → accepted b (c ∷ cs) ≡ (accepted_step b c).0 ++ accepted (accepted_step b c).1 cs
  unfolding accepted accepted_step
  accepted-cons true c cs = refl
  accepted-cons false (push_call e) cs = refl
  accepted-cons false (end_call r) cs = refl
  accepted-cons false next_call cs = refl

  pending : EventStream T R → List T
  pending s = (view s).pending

  pending-next : (s : EventStream T R) → delivered (next z s).0 ++ pending (next z s).1 ≡ pending s
  unfolding pending next
  pending-next s = elim (get_elem?-cases s.queue s.head) [
    | inl (p, q) ↦ ground arith
    | inr (e, p, q, b) ↦
        ground (arith, add-one s.head, drop-set s.queue s.head z, drop_all s.queue (suc s.head))
  ]

  done-next : (s : EventStream T R) → (next z s).1.done ≡ s.done
  unfolding next
  done-next s = ground arith

  call-pending :
      (s : EventStream T R) (c : Call T R)
      → IsValid s
      → (call s c).0 ++ pending (call s c).1 ≡ pending s ++ (accepted_step s.done c).0
  unfolding call accepted_step pending push end
  call-pending s (push_call e) h =
      ground (arith, append-nil (pending s), drop-append s.queue (e ∷ []) s.head)
  call-pending s (end_call r) h = ground (arith, append-nil (pending s))
  call-pending s next_call h = ground (arith, append-nil (pending s), pending-next s)

  call-done : (s : EventStream T R) (c : Call T R) → (call s c).1.done ≡ (accepted_step s.done c).1
  unfolding call accepted_step push end
  call-done s (push_call e) = ground arith
  call-done s (end_call r) = ground arith
  call-done s next_call = ground (arith, done-next s)

  call-IsValid : (s : EventStream T R) (c : Call T R) → IsValid s → IsValid (call s c).1
  unfolding call end
  call-IsValid s (push_call e) h = push-IsValid complete s e h
  call-IsValid s (end_call r) h = ground arith
  call-IsValid s next_call h = next-IsValid z s h

  run_from :
      (s : EventStream T R) (cs : List (Call T R))
      → IsValid s
      → (run s cs).0 ++ pending (run s cs).1 ≡ pending s ++ accepted s.done cs
  unfolding run
  run_from s [] h = rw (accepted-nil s.done, append-nil)
  run_from s (c ∷ cs) h =
      let s' = (call s c).1 in
      ((call s c).0 ++ (run s' cs).0) ++ pending (run s' cs).1
      ≡⟨ append_assoc (call s c).0 _ _ ⟩ (call s c).0 ++ ((run s' cs).0 ++ pending (run s' cs).1)
      ≡⟨ ap ((call s c).0 ++◌) (run_from s' cs (call-IsValid s c h)) ⟩
        (call s c).0 ++ (pending s' ++ accepted s'.done cs)
      ≡⟨ sym (append_assoc (call s c).0 _ _) ⟩ ((call s c).0 ++ pending s') ++ accepted s'.done cs
      ≡⟨ ap₂ (λ l b. l ++ accepted b cs) (call-pending s c h) (call-done s c) ⟩
        (pending s ++ (accepted_step s.done c).0) ++ accepted (accepted_step s.done c).1 cs
      ≡⟨ append_assoc (pending s) _ _ ⟩
        pending s ++ ((accepted_step s.done c).0 ++ accepted (accepted_step s.done c).1 cs)
      ≡⟨ ap (pending s ++◌) (sym (accepted-cons s.done c cs)) ⟩
        pending s ++ accepted s.done (c ∷ cs) ∎

  -- Whatever the order in which producer and consumer call a new stream, the events that the
  -- consumer was given, then those that it can still read, are the events pushed before the
  -- stream ended, in order, each once.
  pub run_keeps_order :
      (cs : List (Call T R)) → (run new cs).0 ++ (view (run new cs).1).pending ≡ accepted false cs
  unfolding pending
  run_keeps_order cs = run_from new cs (omega arith)

  -- A result is set only by what ends the stream.
  abbrev IsSettled : EventStream T R → Type 0
  IsSettled s = (s.done ≡ true) ⊎ (s.result ≡ none)

  call-IsSettled : (s : EventStream T R) (c : Call T R) → IsSettled s → IsSettled (call s c).1
  unfolding call push end next
  call-IsSettled s (push_call e) h = ground arith
  call-IsSettled s (end_call r) h = ground arith
  call-IsSettled s next_call h = ground arith

  call_keeps_result :
      (s : EventStream T R) (c : Call T R) (r : R)
      → IsSettled s
      → s.result ≡ some r
      → (call s c).1.result ≡ some r
  unfolding call push end next
  call_keeps_result s (push_call e) r h q = ground arith
  call_keeps_result s (end_call x) r h q = ground arith
  call_keeps_result s next_call r h q = ground arith

  run-IsSettled :
      (s : EventStream T R) (cs : List (Call T R)) → IsSettled s → IsSettled (run s cs).1
  unfolding run
  run-IsSettled s [] h = h
  run-IsSettled s (c ∷ cs) h = run-IsSettled (call s c).1 cs (call-IsSettled s c h)

  run_from_keeps_result :
      (s : EventStream T R) (cs : List (Call T R)) (r : R)
      → IsSettled s
      → s.result ≡ some r
      → (run s cs).1.result ≡ some r
  unfolding run
  run_from_keeps_result s [] r h q = q
  run_from_keeps_result s (c ∷ cs) r h q =
      run_from_keeps_result (call s c).1 cs r (call-IsSettled s c h) (call_keeps_result s c r h q)

  -- A result that a stream has after some calls stays its result under all later calls.
  pub run_keeps_result :
      (before later : List (Call T R)) (r : R)
      → (run new before).1.result ≡ some r
      → (run (run new before).1 later).1.result ≡ some r
  run_keeps_result before later r q =
      run_from_keeps_result (run new before).1 later r (run-IsSettled new before (inr refl)) q
