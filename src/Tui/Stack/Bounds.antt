-- ===== src/Tui/Stack/Bounds.antt =====
-- internal/tui/stack.go: the sizes and the bounds of their entries.
use midas.Common.{
  ℕ, suc, zero, ◌-◌, ◌≤◌, max, ◌≡◌, Bool, true, false, ◌&&◌, ◌||◌, not, Option, none, some, List,
  [], ◌∷◌, length, ltb, ◌==◌, All, arith, Bool-cases, inl, inr,
}
use midas.Common.Int.{ℤ}
use midas.Tui.Stack.{
  StackLayoutEntry, Slot, Share, minimum, maximum, clamp_stack_size, is_candidate, weights,
  capacity, resize, delta, round, has_candidate, distribute, initial_slots, tail, allocate, total,
  content_size,
}

-- At least the minimum, and at most the maximum, or the minimum where that is larger.
abbrev pub IsBounded : Slot → Type 0
IsBounded s = (minimum s.entry ≤ s.size) × (s.size ≤ max (minimum s.entry) (maximum s.entry))

resized-IsBounded :
    (grow : Bool) (d : ℕ) (s : Slot)
    → is_candidate grow s ≡ true
    → d ≤ capacity grow s
    → IsBounded s
    → IsBounded (resize grow d s)
resized-IsBounded true d s c le h = ground (arith, c, le, h)
resized-IsBounded false d s c le h = ground (arith, c, le, h)

module _ (share : Share) (grow : Bool) where
  resize-IsBounded :
      (ws : List ℕ) (remaining : ℕ) (s : Slot)
      → is_candidate grow s ≡ true
      → IsBounded s
      → IsBounded (resize grow (delta share grow ws remaining s) s)
  resize-IsBounded ws remaining s c h =
      resized-IsBounded grow (delta share grow ws remaining s) s c (omega arith) h

  round-IsBounded :
      (ws : List ℕ) (remaining : ℕ) (ss : List Slot)
      → All IsBounded ss
      → All IsBounded (round share grow ws remaining ss).0
  unfolding round
  round-IsBounded ws remaining [] h = tt
  round-IsBounded ws remaining (s ∷ ss) h =
      elim (Bool-cases (is_candidate grow s && ltb 0 remaining)) [
        | inl p ↦ rw p (
          resize-IsBounded ws remaining s (ground (arith, p)) h.0,
          round-IsBounded ws (remaining - delta share grow ws remaining s) ss h.1,
        )
        | inr p ↦ rw p (h.0, round-IsBounded ws remaining ss h.1)
      ]

  distribute-IsBounded :
      (k remaining : ℕ) (ss : List Slot)
      → All IsBounded ss
      → All IsBounded (distribute share grow k remaining ss).0
  unfolding distribute
  distribute-IsBounded zero remaining ss h = h
  distribute-IsBounded (suc k) remaining ss h =
      let next = round-IsBounded (weights grow ss) remaining ss h in
      let r = round share grow (weights grow ss) remaining ss in
      elim (Bool-cases (remaining == 0 || not (has_candidate share grow ss))) [
        | inl p ↦ rw p h
        | inr p ↦ elim (Bool-cases (r.1 == remaining)) [
          | inl q ↦ rw (p, q) next
          | inr q ↦ rw (p, q) (distribute-IsBounded k r.1 r.0 next)
        ]
      ]

initial_slots-IsBounded :
    (entries : List StackLayoutEntry) (intrinsic : List ℤ)
    → All IsBounded (initial_slots entries intrinsic)
unfolding initial_slots clamp_stack_size
initial_slots-IsBounded [] intrinsic = tt
initial_slots-IsBounded (e ∷ es) intrinsic =
    ((omega arith, omega arith), initial_slots-IsBounded es (tail intrinsic))

-- Whatever the shares of a round come to, every size is at least the minimum of its entry and at
-- most its maximum (its minimum, where that is the larger), with and without a given size of the
-- stack.
pub allocate-IsBounded :
    (share : Share) (entries : List StackLayoutEntry) (intrinsic : List ℤ) (available : Option ℤ)
    (gap : ℕ)
    → All IsBounded (allocate share entries intrinsic available gap)
unfolding allocate
allocate-IsBounded share entries intrinsic none gap = initial_slots-IsBounded entries intrinsic
allocate-IsBounded share entries intrinsic (some available) gap =
    let ss = initial_slots entries intrinsic in
    let content = content_size available (length entries) gap in
    let bounded = initial_slots-IsBounded entries intrinsic in
    elim (Bool-cases (ltb (total ss) content)) [
      | inl p ↦
          rw p
            (distribute-IsBounded share true (content - total ss) (content - total ss) ss bounded)
      | inr p ↦ elim (Bool-cases (ltb content (total ss))) [
        | inl q ↦
            rw (p, q)
              (distribute-IsBounded share false (total ss - content) (total ss - content) ss
                bounded)
        | inr q ↦ rw (p, q) bounded
      ]
    ]
