-- ===== src/Agent/Warmer/Deadlines.antt =====
-- pkg/agent/cache_warmer.go: when the refreshes that scheduleLocked sets are due.
use midas.Common.{
  ℕ, suc, ◌+◌, ◌≤◌, ◌≡◌, refl, sym, ap, ◌∙◌, subst, Bool, ◌||◌, Option, none, some, List, [], ◌∷◌,
  ltb, get_elem?, All, All-append, arith, ◌⊎◌, Bool-cases, Option-cases, inl, inr,
}
use midas.Ai.Message.{StopReason, Usage}
use midas.Agent.Warmer.{
  Mode, Request, Timer, Refresh, Flight, CacheWarmer, World, start, settle, stop, close, fire,
  enter, send, answered, is_stale, is_idle, schedule_locked, stop_locked, cache_warming_delay,
  prompt_cache_ttl, deadline,
}
use midas.Agent.Warmer.Events.{
  Event, start_event, settle_event, stop_event, close_event, fire_event, enter_event, send_event,
  answer_event, with_warmer, remove_at, after_event, after_events, new_world, Precedes, IsNumbered,
  All-remove_at, All-get_elem?, IsNumbered-after_event,
}

-- The delay of the refreshes of a warmer's request.
abbrev pub delay_of : CacheWarmer → ℕ
delay_of w = cache_warming_delay (prompt_cache_ttl w.request)

-- A timer that was set at the latest at `clock`.
abbrev pub IsTimely : ℕ → CacheWarmer → Option Timer → Type 0
IsTimely clock w none = Unit
IsTimely clock w (some t) =
    (t.delay ≡ delay_of w)
    × (t.due ≤ clock + delay_of w)
    × (t.due ≤ deadline w)
    × (t.serial ≡ w.serial)

abbrev HasDelay : CacheWarmer → Refresh → Type 0
HasDelay w r = r.serial ≡ w.serial → r.delay ≡ delay_of w

abbrev InTime : ℕ → World → Type 0
InTime clock s =
    IsTimely clock s.warmer s.warmer.timer
    × All (HasDelay s.warmer) s.entering
    × All (λ f. HasDelay s.warmer f.refresh) s.ready
    × All (λ f. HasDelay s.warmer f.refresh) s.asking

-- A change of the warmer that keeps its request, or that gives out a new number.
Follows : ℕ → CacheWarmer → CacheWarmer → Type 0
Follows clock w v =
    IsTimely clock v v.timer
    × (((v.serial ≡ w.serial) × (v.request ≡ w.request)) ⊎ (suc w.serial ≤ v.serial))

start-Follows :
    (worth : Request → Bool → Bool) (now : ℕ) (r : Request) (mode : Mode) (w : CacheWarmer)
    → IsTimely now w w.timer
    → Follows now w (start worth now r mode w)
unfolding Follows start stop schedule_locked stop_locked
start-Follows worth now r mode w h = ground arith

settle-Follows :
    (worth : Request → Bool → Bool) (now : ℕ) (mode : Mode) (w : CacheWarmer)
    → IsTimely now w w.timer
    → Follows now w (settle worth now mode w)
unfolding Follows settle stop stop_locked
settle-Follows worth now mode w h = ground arith

schedule_locked-Follows :
    (now delay : ℕ) (w : CacheWarmer)
    → delay ≡ delay_of w
    → Follows now w (schedule_locked now delay w)
unfolding Follows schedule_locked stop_locked
schedule_locked-Follows now delay w h = ground arith

All-HasDelay {ℓ} :
    {A : Type ℓ} (clock : ℕ) (w v : CacheWarmer) (refresh : A → Refresh) (xs : List A)
    → Follows clock w v
    → All (λ x. Precedes w.serial (refresh x)) xs
    → All (λ x. HasDelay w (refresh x)) xs
    → All (λ x. HasDelay v (refresh x)) xs
unfolding Follows
All-HasDelay clock w v refresh [] f p h = tt
All-HasDelay clock w v refresh (x ∷ xs) f p h =
    (kept f.1, All-HasDelay clock w v refresh xs f p.1 h.1)
  where
    kept :
        ((v.serial ≡ w.serial) × (v.request ≡ w.request)) ⊎ (suc w.serial ≤ v.serial)
        → HasDelay v (refresh x)
    kept (inl (same, request)) e =
        h.0 (e ∙ same) ∙ ap (λ q. cache_warming_delay (prompt_cache_ttl q)) (sym request)
    kept (inr later) e = absurd (omega (arith, p.0, later, e))

InTime-with_warmer :
    (clock : ℕ) (s : World) (v : CacheWarmer)
    → Follows clock s.warmer v
    → IsNumbered s
    → InTime clock s
    → InTime clock (with_warmer s v)
unfolding Follows
InTime-with_warmer clock s v f n h = (
  f.0,
  All-HasDelay clock s.warmer v (λ r. r) s.entering f n.1 h.1,
  All-HasDelay clock s.warmer v (λ f. f.refresh) s.ready f n.2 h.2,
  All-HasDelay clock s.warmer v (λ f. f.refresh) s.asking f n.3 h.3,
)

IsTimely-later :
    (clock now : ℕ) (w : CacheWarmer) (o : Option Timer)
    → clock ≤ now
    → IsTimely clock w o
    → IsTimely now w o
IsTimely-later clock now w none le h = tt
IsTimely-later clock now w (some t) le h = (h.0, omega (arith, le, h.1), h.2, h.3)

InTime-later : (clock now : ℕ) (s : World) → clock ≤ now → InTime clock s → InTime now s
InTime-later clock now s le h =
    (IsTimely-later clock now s.warmer s.warmer.timer le h.0, h.1, h.2, h.3)

InTime-fire :
    (worth : Request → Bool → Bool) (clock now : ℕ) (s : World) (o : Option Timer)
    → s.warmer.timer ≡ o
    → InTime clock s
    → InTime clock (fire worth now s)
unfolding fire
InTime-fire worth clock now s none e h = rw (fire, e) h
InTime-fire worth clock now s (some t) e h = elim (Bool-cases (t.fired || ltb now t.due)) [
  | inl p ↦ rw (fire, e, p) h
  | inr p ↦
      let timely = subst (IsTimely clock s.warmer) e h.0 in
      rw (fire, e, p)
        (timely, All-append (HasDelay s.warmer) s.entering _ h.1 ((λ q. timely.0), tt), h.2, h.3)
]

module _ (worth : Request → Bool → Bool) (clock : ℕ) (r : Refresh) (s : World)
    (d : HasDelay s.warmer r) (h : InTime clock s) where
  InTime-enter : InTime clock (enter worth r s)
  unfolding enter stop_locked
  InTime-enter = elim (Bool-cases (is_stale worth s.warmer r)) [
    | inl p ↦ rw p h
    | inr p ↦ elim (Bool-cases (worth s.warmer.request (is_idle s.warmer.phase))) [
      | inl q ↦
          rw (p, q)
            (tt, h.1, All-append (λ f. HasDelay s.warmer f.refresh) s.ready _ h.2 (d, tt), h.3)
      | inr q ↦ rw (p, q) (tt, h.1, h.2, h.3)
    ]
  ]

InTime-answered :
    (worth : Request → Bool → Bool) (clock : ℕ) (f : Flight) (s : World)
    (answer : Option (StopReason × Usage))
    → HasDelay s.warmer f.refresh
    → InTime clock s
    → IsNumbered s
    → InTime clock (answered worth clock answer f s)
unfolding answered Follows
InTime-answered worth clock f s answer d h n =
    elim (Bool-cases (is_stale worth s.warmer f.refresh)) [
      | inl p ↦ rw p h
      | inr p ↦
          let w = record s.warmer { cancel = none; cancelled = f.context ∷ s.warmer.cancelled } in
          rw p (
            InTime-with_warmer clock s (schedule_locked clock f.refresh.delay w)
              (schedule_locked-Follows clock f.refresh.delay w (d (ground (arith, p)))) n h)
    ]

-- The instant of an event, or the clock before it.
abbrev clock_after : ℕ → Event → ℕ
clock_after clock (start_event now r mode) = now
clock_after clock (settle_event now mode) = now
clock_after clock stop_event = clock
clock_after clock close_event = clock
clock_after clock (fire_event now) = now
clock_after clock (enter_event i) = clock
clock_after clock (send_event i) = clock
clock_after clock (answer_event now answer i) = now

InTime-after_event :
    (worth : Request → Bool → Bool) (clock : ℕ) (e : Event) (s : World)
    → clock ≤ clock_after clock e
    → IsNumbered s
    → InTime clock s
    → InTime (clock_after clock e) (after_event worth e s)
unfolding after_event Follows stop close stop_locked send
InTime-after_event worth clock (start_event now r mode) s le n h =
    let later = InTime-later clock now s le h in
    InTime-with_warmer now s (start worth now r mode s.warmer)
      (start-Follows worth now r mode s.warmer later.0) n later
InTime-after_event worth clock (settle_event now mode) s le n h =
    let later = InTime-later clock now s le h in
    InTime-with_warmer now s (settle worth now mode s.warmer)
      (settle-Follows worth now mode s.warmer later.0) n later
InTime-after_event worth clock stop_event s le n h =
    InTime-with_warmer clock s (stop s.warmer) (tt, inr (omega arith)) n h
InTime-after_event worth clock close_event s le n h =
    InTime-with_warmer clock s (close s.warmer) (tt, inr (omega arith)) n h
InTime-after_event worth clock (fire_event now) s le n h =
    InTime-fire worth now now s s.warmer.timer refl (InTime-later clock now s le h)
InTime-after_event worth clock (enter_event i) s le n h =
    elim (Option-cases (get_elem? s.entering i)) [
      | inl p ↦ rw p h
      | inr (r, p) ↦ rw p (
          InTime-enter worth clock r (record s { entering = remove_at s.entering i })
            (All-get_elem? (HasDelay s.warmer) s.entering i r h.1 p)
            (h.0, All-remove_at (HasDelay s.warmer) s.entering i h.1, h.2, h.3))
    ]
InTime-after_event worth clock (send_event i) s le n h = elim (Option-cases (get_elem? s.ready i)) [
  | inl p ↦ rw p h
  | inr (f, p) ↦
      let P : Flight → Type 0 = λ f. HasDelay s.warmer f.refresh in
      rw (p, send)
        (
          h.0,
          h.1,
          All-remove_at P s.ready i h.2,
          All-append P s.asking _ h.3 (All-get_elem? P s.ready i f h.2 p, tt),
        )
]
InTime-after_event worth clock (answer_event now answer i) s le n h =
    let later = InTime-later clock now s le h in
    elim (Option-cases (get_elem? s.asking i)) [
      | inl p ↦ rw p later
      | inr (f, p) ↦
          let P : Flight → Type 0 = λ f. HasDelay s.warmer f.refresh in
          let Q : Flight → Type 0 = λ f. Precedes s.warmer.serial f.refresh in
          rw p (
            InTime-answered worth now f (record s { asking = remove_at s.asking i }) answer
              (All-get_elem? P s.asking i f later.3 p)
              (later.0, later.1, later.2, All-remove_at P s.asking i later.3)
              (n.0, n.1, n.2, All-remove_at Q s.asking i n.3))
    ]

-- The instants of the events do not decrease.
abbrev pub IsClocked : ℕ → List Event → Type 0
IsClocked clock [] = Unit
IsClocked clock (e ∷ es) = (clock ≤ clock_after clock e) × IsClocked (clock_after clock e) es

IsTimely-after_events :
    (worth : Request → Bool → Bool) (clock : ℕ) (es : List Event) (s : World)
    → IsClocked clock es
    → IsNumbered s
    → InTime clock s
    → (end : ℕ) × IsTimely end
        (after_events worth es s).warmer
        (after_events worth es s).warmer.timer
unfolding after_events
IsTimely-after_events worth clock [] s c n h = (clock, h.0)
IsTimely-after_events worth clock (e ∷ es) s c n h =
    IsTimely-after_events worth (clock_after clock e) es (after_event worth e s) c.1
      (IsNumbered-after_event worth e s n) (InTime-after_event worth clock e s c.0 n h)

-- Whatever a new warmer goes through, at instants that do not decrease: where a timer is set, it
-- is due at the latest an hour after the last start that set one, and half an hour after it if the
-- warmer has settled to idle.
pub due-le-deadline :
    (worth : Request → Bool → Bool) (has_provider : Bool) (r : Request) (es : List Event)
    (t : Timer)
    → IsClocked 0 es
    → (after_events worth es (new_world has_provider r)).warmer.timer ≡ some t
    → t.due ≤ deadline (after_events worth es (new_world has_provider r)).warmer
due-le-deadline worth has_provider r es t c e =
    let s = after_events worth es (new_world has_provider r) in
    let (end, timely) =
      IsTimely-after_events worth 0 es (new_world has_provider r) c (tt, tt, tt, tt)
        (tt, tt, tt, tt) in
    (subst (IsTimely end s.warmer) e timely).2
