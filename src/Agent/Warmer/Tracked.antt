-- ===== src/Agent/Warmer/Tracked.antt =====
-- pkg/agent/cache_warmer.go: the contexts of the refreshes, under all calls and steps.
use midas.Common.{
  ℕ, ◌+◌, ◌≤◌, ◌≡◌, refl, Bool, ◌||◌, Option, none, some, List, [], ◌∷◌, ltb, get_elem?, All,
  All-append, arith, Bool-cases, Option-cases, inl, inr,
}
use midas.Ai.Message.{StopReason, Usage}
use midas.Agent.Warmer.{
  Request, Timer, Refresh, Flight, CacheWarmer, World, start, settle, stop, close, fire, enter,
  send, answered, is_stale, is_idle, schedule_locked, stop_locked,
}
use midas.Agent.Warmer.Events.{
  Event, start_event, settle_event, stop_event, close_event, fire_event, enter_event, send_event,
  answer_event, remove_at, after_event, after_events, Precedes, IsNumbered, All-remove_at,
  All-get_elem?, All-imply, IsNumbered-after_event,
}
use midas.Agent.Warmer.Chains.{
  has, tally, tally-append, tally-remove_at, timer_tally, timer_tally-le, refresh_of, chains,
  IsHeld, IsCancelled, IsTracked, start-Stopped, settle-Stopped, IsTracked-with_warmer,
}

IsTracked-fire :
    (worth : Request → Bool → Bool) (now : ℕ) (s : World) (o : Option Timer)
    → s.warmer.timer ≡ o
    → IsTracked s
    → IsTracked (fire worth now s)
unfolding fire IsTracked chains timer_tally
IsTracked-fire worth now s none e h = rw (fire, e) h
IsTracked-fire worth now s (some t) e h = elim (Bool-cases (t.fired || ltb now t.due)) [
  | inl p ↦ rw (fire, e, p) h
  | inr p ↦
      let r : Refresh = record { serial = t.serial; delay = t.delay } in
      let old : timer_tally s.warmer.serial s.warmer.timer ≡ has s.warmer.serial r =
        rw e (ground (arith, p)) in
      rw (fire, e, p)
        (omega (arith, h.0, old, tally-append (λ r. r) s.warmer.serial s.entering r), h.1, h.2)
]

-- Where no goroutine of a list has the warmer's number, their contexts are cancelled.
All-IsCancelled :
    (w : CacheWarmer) (fs : List Flight)
    → tally refresh_of w.serial fs ≡ 0
    → All (IsHeld w) fs
    → All (IsCancelled w) fs
unfolding tally
All-IsCancelled w [] z h = tt
All-IsCancelled w (f ∷ fs) z (inl c, hs) = (c, All-IsCancelled w fs (omega (arith, z)) hs)
All-IsCancelled w (f ∷ fs) z (inr (p, e), hs) = absurd (ground (arith, z, e))

schedule_locked_keeps :
    (now delay : ℕ) (w : CacheWarmer)
    → w.cancel ≡ none
    → ((schedule_locked now delay w).cancelled ≡ w.cancelled)
      × ((schedule_locked now delay w).serial ≡ w.serial)
unfolding schedule_locked stop_locked
schedule_locked_keeps now delay w e = ground (arith, e)

module _ (worth : Request → Bool → Bool) where
  -- A goroutine that enters has been the only one with its number.
  IsTracked-enter :
      (r : Refresh) (s : World)
      → chains s + has s.warmer.serial r ≤ 1
      → IsNumbered s
      → IsTracked s
      → IsTracked (enter worth r s)
  unfolding enter stop_locked IsTracked chains timer_tally
  IsTracked-enter r s c n h = elim (Bool-cases (is_stale worth s.warmer r)) [
    | inl p ↦ rw p h
    | inr p ↦ elim (Bool-cases (worth s.warmer.request (is_idle s.warmer.phase))) [
      | inl q ↦
          let one : has s.warmer.serial r ≡ 1 = ground (arith, p) in
          let f : Flight = record {
            refresh = r;
            request = s.warmer.request;
            context = s.contexts;
          } in
          let w = record s.warmer { cancel = some s.contexts; timer = none } in
          let keeps : (fs : List Flight)
              → tally refresh_of s.warmer.serial fs ≡ 0
              → All (IsHeld s.warmer) fs
              → All (IsHeld w) fs =
            λ fs z hs.
              All-imply (IsCancelled s.warmer) (IsHeld w) fs (λ f x. inl x)
                (All-IsCancelled s.warmer fs z hs) in
          rw (p, q)
            (
              omega (arith, c, one, tally-append refresh_of s.warmer.serial s.ready f),
              All-append (IsHeld w) s.ready (f ∷ []) (keeps s.ready (omega (arith, c, one)) h.1)
                  (inr (refl, ground (arith, p)), tt),
              keeps s.asking (omega (arith, c, one)) h.2,
            )
      | inr q ↦
          rw (p, q)
            (IsTracked-with_warmer s (stop_locked s.warmer) (inr (refl, inl (refl, refl))) n h)
    ]
  ]

  IsTracked-answered :
      (now : ℕ) (answer : Option (StopReason × Usage)) (f : Flight) (s : World)
      → chains s + has s.warmer.serial f.refresh ≤ 1
      → IsTracked s
      → IsTracked (answered worth now answer f s)
  unfolding answered IsTracked chains
  IsTracked-answered now answer f s c h = elim (Bool-cases (is_stale worth s.warmer f.refresh)) [
    | inl p ↦
        let w = record s.warmer { cancelled = f.context ∷ s.warmer.cancelled } in
        let keeps : (g : Flight) → IsHeld s.warmer g → IsHeld w g =
          λ g x. elim x [ inl e ↦ inl (ground (arith, e)) | inr e ↦ inr e ] in
        rw p (
          h.0,
          All-imply (IsHeld s.warmer) (IsHeld w) s.ready keeps h.1,
          All-imply (IsHeld s.warmer) (IsHeld w) s.asking keeps h.2,
        )
    | inr p ↦
        let w = record s.warmer { cancel = none; cancelled = f.context ∷ s.warmer.cancelled } in
        let v = schedule_locked now f.refresh.delay w in
        let (same, number) = schedule_locked_keeps now f.refresh.delay w refl in
        let one : has s.warmer.serial f.refresh ≡ 1 = ground (arith, p) in
        let keeps : (fs : List Flight)
            → tally refresh_of s.warmer.serial fs ≡ 0
            → All (IsHeld s.warmer) fs
            → All (IsHeld v) fs =
          λ fs z hs.
            All-imply (IsCancelled s.warmer) (IsHeld v) fs
              (λ g x. inl (rw same (ground (arith, x)))) (All-IsCancelled s.warmer fs z hs) in
        rw p (
          rw number (omega (arith, c, one, timer_tally-le s.warmer.serial v.timer)),
          keeps s.ready (omega (arith, c, one)) h.1,
          keeps s.asking (omega (arith, c, one)) h.2,
        )
  ]

pub IsTracked-after_event :
    (worth : Request → Bool → Bool) (e : Event) (s : World)
    → IsNumbered s
    → IsTracked s
    → IsTracked (after_event worth e s)
unfolding after_event stop close stop_locked send IsTracked chains
IsTracked-after_event worth (start_event now r mode) s n h =
    IsTracked-with_warmer s (start worth now r mode s.warmer)
      (start-Stopped worth now r mode s.warmer) n h
IsTracked-after_event worth (settle_event now mode) s n h =
    IsTracked-with_warmer s (settle worth now mode s.warmer)
      (settle-Stopped worth now mode s.warmer) n h
IsTracked-after_event worth stop_event s n h =
    IsTracked-with_warmer s (stop s.warmer) (inr (refl, inr (omega arith))) n h
IsTracked-after_event worth close_event s n h =
    IsTracked-with_warmer s (close s.warmer) (inr (refl, inr (omega arith))) n h
IsTracked-after_event worth (fire_event now) s n h =
    IsTracked-fire worth now s s.warmer.timer refl h
IsTracked-after_event worth (enter_event i) s n h = elim (Option-cases (get_elem? s.entering i)) [
  | inl p ↦ rw p h
  | inr (r, p) ↦
      let count = tally-remove_at (λ r. r) s.warmer.serial s.entering i r p in
      let s' = record s { entering = remove_at s.entering i } in
      rw p (
        IsTracked-enter worth r s' (omega (arith, h.0, count))
          (n.0, All-remove_at (Precedes s.warmer.serial) s.entering i n.1, n.2, n.3)
          (omega (arith, h.0, count), h.1, h.2))
]
IsTracked-after_event worth (send_event i) s n h = elim (Option-cases (get_elem? s.ready i)) [
  | inl p ↦ rw p h
  | inr (f, p) ↦
      let count = tally-remove_at refresh_of s.warmer.serial s.ready i f p in
      let more = tally-append refresh_of s.warmer.serial s.asking f in
      rw (p, send)
        (
          omega (arith, h.0, count, more),
          All-remove_at (IsHeld s.warmer) s.ready i h.1,
          All-append (IsHeld s.warmer) s.asking (f ∷ []) h.2
              (All-get_elem? (IsHeld s.warmer) s.ready i f h.1 p, tt),
        )
]
IsTracked-after_event worth (answer_event now answer i) s n h =
    elim (Option-cases (get_elem? s.asking i)) [
      | inl p ↦ rw p h
      | inr (f, p) ↦
          let count = tally-remove_at refresh_of s.warmer.serial s.asking i f p in
          let s' = record s { asking = remove_at s.asking i } in
          rw p (
            IsTracked-answered worth now answer f s' (omega (arith, h.0, count))
              (omega (arith, h.0, count), h.1, All-remove_at (IsHeld s.warmer) s.asking i h.2))
    ]

pub IsTracked-after_events :
    (worth : Request → Bool → Bool) (es : List Event) (s : World)
    → IsNumbered s
    → IsTracked s
    → IsTracked (after_events worth es s)
unfolding after_events
IsTracked-after_events worth [] s n h = h
IsTracked-after_events worth (e ∷ es) s n h =
    IsTracked-after_events worth es (after_event worth e s) (IsNumbered-after_event worth e s n)
      (IsTracked-after_event worth e s n h)
