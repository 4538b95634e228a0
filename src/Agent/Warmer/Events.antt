-- ===== src/Agent/Warmer/Events.antt =====
-- pkg/agent/cache_warmer.go: the calls of the warmer and the steps of its goroutines in any order.
use midas.Common.{
  ℕ, suc, zero, ◌≤◌, ◌≡◌, refl, subst, Bool, false, ◌||◌, Option, none, some, List, [], ◌∷◌, ltb,
  get_elem?, All, All-append, arith, Bool-cases, Option-cases, inl, inr,
}
use mathlib.Core.Option.{some-injective}
use midas.Ai.Message.{StopReason, Usage}
use midas.Agent.Warmer.{
  Mode, off, Request, Timer, Refresh, Flight, CacheWarmer, World, start, settle, stop, close, fire,
  enter, send, answered, is_stale, is_idle, schedule_locked, stop_locked,
}

-- A call of the warmer, or a step of the goroutine with a number; the numbers are instants.
pub data Event : Type 0 where
  start_event : ℕ → Request → Mode → Event
  settle_event : ℕ → Mode → Event
  stop_event close_event : Event
  fire_event : ℕ → Event
  enter_event : ℕ → Event
  send_event : ℕ → Event
  answer_event : ℕ → Option (StopReason × Usage) → ℕ → Event

abbrev pub remove_at {ℓ} : {A : Type ℓ} → List A → ℕ → List A
remove_at [] i = []
remove_at (x ∷ xs) zero = xs
remove_at (x ∷ xs) (suc i) = x ∷ remove_at xs i

abbrev pub with_warmer : World → CacheWarmer → World
with_warmer s w = record s { warmer = w }

module _ (worth : Request → Bool → Bool) where
  abbrev pub enter_at : World → ℕ → Option Refresh → World
  enter_at s i none = s
  enter_at s i (some r) = enter worth r (record s { entering = remove_at s.entering i })

  abbrev pub send_at : World → ℕ → Option Flight → World
  send_at s i none = s
  send_at s i (some f) = send worth f (record s { ready = remove_at s.ready i })

  abbrev pub answer_at : ℕ → Option (StopReason × Usage) → World → ℕ → Option Flight → World
  answer_at now answer s i none = s
  answer_at now answer s i (some f) =
      answered worth now answer f (record s { asking = remove_at s.asking i })

  unfoldable pub after_event : Event → World → World
  unfolding start settle stop close fire enter send answered
  after_event (start_event now r mode) s = with_warmer s (start worth now r mode s.warmer)
  after_event (settle_event now mode) s = with_warmer s (settle worth now mode s.warmer)
  after_event stop_event s = with_warmer s (stop s.warmer)
  after_event close_event s = with_warmer s (close s.warmer)
  after_event (fire_event now) s = fire worth now s
  after_event (enter_event i) s = enter_at s i (get_elem? s.entering i)
  after_event (send_event i) s = send_at s i (get_elem? s.ready i)
  after_event (answer_event now answer i) s = answer_at now answer s i (get_elem? s.asking i)

  unfoldable pub after_events : List Event → World → World
  unfolding after_event
  after_events [] s = s
  after_events (e ∷ es) s = after_events es (after_event e s)

-- NewCacheWarmer: the phase, the instant and the request are of no account before a start.
abbrev pub new_world : Bool → Request → World
new_world has_provider r = record {
  warmer = record {
    has_provider = has_provider;
    timer = none;
    cancel = none;
    cancelled = [];
    closed = false;
    serial = 0;
    phase = off;
    started = 0;
    request = r;
  };
  entering = [];
  ready = [];
  asking = [];
  contexts = 0;
  sent = [];
  warmed = [];
}

-- No goroutine and no timer has a number that the warmer has not given out.
abbrev pub Precedes : ℕ → Refresh → Type 0
Precedes n r = r.serial ≤ n

abbrev pub TimerPrecedes : ℕ → Option Timer → Type 0
TimerPrecedes n none = Unit
TimerPrecedes n (some t) = t.serial ≤ n

abbrev pub IsNumbered : World → Type 0
IsNumbered s =
    TimerPrecedes s.warmer.serial s.warmer.timer
    × All (Precedes s.warmer.serial) s.entering
    × All (λ f. Precedes s.warmer.serial f.refresh) s.ready
    × All (λ f. Precedes s.warmer.serial f.refresh) s.asking

pub All-remove_at {ℓ κ} :
    {A : Type ℓ} (P : A → Type κ) (xs : List A) (i : ℕ) → All P xs → All P (remove_at xs i)
All-remove_at P [] i h = tt
All-remove_at P (x ∷ xs) zero h = h.1
All-remove_at P (x ∷ xs) (suc i) h = (h.0, All-remove_at P xs i h.1)

pub All-get_elem? {ℓ κ} :
    {A : Type ℓ} (P : A → Type κ) (xs : List A) (i : ℕ) (x : A)
    → All P xs
    → get_elem? xs i ≡ some x
    → P x
All-get_elem? P [] i x h e = absurd (ground arith)
All-get_elem? P (y ∷ ys) zero x h e = subst P (some-injective _ _ e) h.0
All-get_elem? P (y ∷ ys) (suc i) x h e = All-get_elem? P ys i x h.1 e

pub All-imply {ℓ κ} :
    {A : Type ℓ} (P Q : A → Type κ) (xs : List A) → ((x : A) → P x → Q x) → All P xs → All Q xs
All-imply P Q [] f h = tt
All-imply P Q (x ∷ xs) f h = (f x h.0, All-imply P Q xs f h.1)

-- What start and settle do to the number and the timer.
Numbering : CacheWarmer → CacheWarmer → Type 0
Numbering w v = (w.serial ≤ v.serial) × TimerPrecedes v.serial v.timer

start-Numbering :
    (worth : Request → Bool → Bool) (now : ℕ) (r : Request) (mode : Mode) (w : CacheWarmer)
    → TimerPrecedes w.serial w.timer
    → Numbering w (start worth now r mode w)
unfolding Numbering start stop schedule_locked stop_locked
start-Numbering worth now r mode w h = ground arith

settle-Numbering :
    (worth : Request → Bool → Bool) (now : ℕ) (mode : Mode) (w : CacheWarmer)
    → TimerPrecedes w.serial w.timer
    → Numbering w (settle worth now mode w)
unfolding Numbering settle stop stop_locked
settle-Numbering worth now mode w h = ground arith

schedule_locked-Numbering :
    (now delay : ℕ) (w : CacheWarmer) → Numbering w (schedule_locked now delay w)
unfolding Numbering schedule_locked stop_locked
schedule_locked-Numbering now delay w = ground arith

IsNumbered-with_warmer :
    (s : World) (w : CacheWarmer)
    → IsNumbered s
    → Numbering s.warmer w
    → IsNumbered (with_warmer s w)
unfolding Numbering
IsNumbered-with_warmer s w h n = (
  n.1,
  All-imply (Precedes s.warmer.serial) (Precedes w.serial) s.entering
      (λ r le. omega (arith, le, n.0)) h.1,
  All-imply (λ f. Precedes s.warmer.serial f.refresh) (λ f. Precedes w.serial f.refresh) s.ready
      (λ f le. omega (arith, le, n.0)) h.2,
  All-imply (λ f. Precedes s.warmer.serial f.refresh) (λ f. Precedes w.serial f.refresh) s.asking
      (λ f le. omega (arith, le, n.0)) h.3,
)

IsNumbered-fire :
    (worth : Request → Bool → Bool) (now : ℕ) (s : World) (o : Option Timer)
    → s.warmer.timer ≡ o
    → IsNumbered s
    → IsNumbered (fire worth now s)
unfolding fire
IsNumbered-fire worth now s none e h = rw (fire, e) h
IsNumbered-fire worth now s (some t) e h = elim (Bool-cases (t.fired || ltb now t.due)) [
  | inl p ↦ rw (fire, e, p) h
  | inr p ↦
      let le = subst (TimerPrecedes s.warmer.serial) e h.0 in
      rw (fire, e, p)
        (le, All-append (Precedes s.warmer.serial) s.entering _ h.1 (le, tt), h.2, h.3)
]

IsNumbered-enter :
    (worth : Request → Bool → Bool) (r : Refresh) (s : World)
    → r.serial ≤ s.warmer.serial
    → IsNumbered s
    → IsNumbered (enter worth r s)
unfolding enter stop_locked
IsNumbered-enter worth r s le h = elim (Bool-cases (is_stale worth s.warmer r)) [
  | inl p ↦ rw p h
  | inr p ↦ elim (Bool-cases (worth s.warmer.request (is_idle s.warmer.phase))) [
    | inl q ↦
        rw (p, q)
          (
            tt,
            h.1,
            All-append (λ f. Precedes s.warmer.serial f.refresh) s.ready _ h.2 (le, tt),
            h.3,
          )
    | inr q ↦ rw (p, q) (tt, h.1, h.2, h.3)
  ]
]

IsNumbered-answered :
    (worth : Request → Bool → Bool) (now : ℕ) (answer : Option (StopReason × Usage)) (f : Flight)
    (s : World)
    → IsNumbered s
    → IsNumbered (answered worth now answer f s)
unfolding answered Numbering
IsNumbered-answered worth now answer f s h = elim (Bool-cases (is_stale worth s.warmer f.refresh)) [
  | inl p ↦ rw p h
  | inr p ↦
      let w = record s.warmer { cancel = none; cancelled = f.context ∷ s.warmer.cancelled } in
      rw p (
        IsNumbered-with_warmer s (schedule_locked now f.refresh.delay w) h
          (schedule_locked-Numbering now f.refresh.delay w))
]

pub IsNumbered-after_event :
    (worth : Request → Bool → Bool) (e : Event) (s : World)
    → IsNumbered s
    → IsNumbered (after_event worth e s)
unfolding after_event Numbering stop close stop_locked send
IsNumbered-after_event worth (start_event now r mode) s h =
    IsNumbered-with_warmer s (start worth now r mode s.warmer) h
      (start-Numbering worth now r mode s.warmer h.0)
IsNumbered-after_event worth (settle_event now mode) s h =
    IsNumbered-with_warmer s (settle worth now mode s.warmer) h
      (settle-Numbering worth now mode s.warmer h.0)
IsNumbered-after_event worth stop_event s h =
    IsNumbered-with_warmer s (stop s.warmer) h (omega arith, tt)
IsNumbered-after_event worth close_event s h =
    IsNumbered-with_warmer s (close s.warmer) h (omega arith, tt)
IsNumbered-after_event worth (fire_event now) s h =
    IsNumbered-fire worth now s s.warmer.timer refl h
IsNumbered-after_event worth (enter_event i) s h = elim (Option-cases (get_elem? s.entering i)) [
  | inl p ↦ rw p h
  | inr (r, p) ↦ rw p (
      IsNumbered-enter worth r (record s { entering = remove_at s.entering i })
        (All-get_elem? (Precedes s.warmer.serial) s.entering i r h.1 p)
        (h.0, All-remove_at (Precedes s.warmer.serial) s.entering i h.1, h.2, h.3))
]
IsNumbered-after_event worth (send_event i) s h = elim (Option-cases (get_elem? s.ready i)) [
  | inl p ↦ rw p h
  | inr (f, p) ↦
      let P : Flight → Type 0 = λ f. Precedes s.warmer.serial f.refresh in
      rw (p, send)
        (
          h.0,
          h.1,
          All-remove_at P s.ready i h.2,
          All-append P s.asking _ h.3 (All-get_elem? P s.ready i f h.2 p, tt),
        )
]
IsNumbered-after_event worth (answer_event now answer i) s h =
    elim (Option-cases (get_elem? s.asking i)) [
      | inl p ↦ rw p h
      | inr (f, p) ↦ rw p (
          IsNumbered-answered worth now answer f (record s { asking = remove_at s.asking i })
            (h.0, h.1, h.2, All-remove_at (λ f. Precedes s.warmer.serial f.refresh) s.asking i h.3))
    ]

pub IsNumbered-after_events :
    (worth : Request → Bool → Bool) (es : List Event) (s : World)
    → IsNumbered s
    → IsNumbered (after_events worth es s)
unfolding after_events
IsNumbered-after_events worth [] s h = h
IsNumbered-after_events worth (e ∷ es) s h =
    IsNumbered-after_events worth es (after_event worth e s) (IsNumbered-after_event worth e s h)
