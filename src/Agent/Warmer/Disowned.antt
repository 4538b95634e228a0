-- ===== src/Agent/Warmer/Disowned.antt =====
-- pkg/agent/cache_warmer.go: the steps of a warmer that has been silenced.
use mathlib.Core.Bool.{true≢false}
use midas.Common.{
  ℕ, suc, ◌≤◌, ◌≡◌, refl, ap, ◌∙◌, Bool, true, false, not, none, List, [], ◌∷◌, ◌++◌, if◌then◌else◌,
  get_elem?, All, All-append, arith, ◌⊎◌, Option-cases, inl, inr,
}
use midas.Agent.Warmer.{
  Mode, Request, Refresh, Flight, Sent, CacheWarmer, World, start, settle, stop, close, fire, enter,
  send, answered, is_stale, is_cancelled, cancel_context, stop_locked,
}
use midas.Agent.Warmer.Events.{
  Event, start_event, settle_event, stop_event, close_event, fire_event, enter_event, send_event,
  answer_event, with_warmer, remove_at, after_event, after_events, All-remove_at, All-get_elem?,
  All-imply,
}
use midas.Agent.Warmer.Chains.{IsCancelled, IsHeld-Stopped}

abbrev pub is_start : Event → Bool
is_start (start_event now r mode) = true
is_start (settle_event now mode) = false
is_start stop_event = false
is_start close_event = false
is_start (fire_event now) = false
is_start (enter_event i) = false
is_start (send_event i) = false
is_start (answer_event now answer i) = false

-- A goroutine that has been overtaken finds that it is: the warmer is closed, or has given out a
-- later number.
abbrev pub IsOvertaken : CacheWarmer → Refresh → Type 0
IsOvertaken w r = (w.closed ≡ true) ⊎ (suc r.serial ≤ w.serial)

-- A goroutine that has left the lock is overtaken and its context is cancelled.
abbrev pub IsDisowned : CacheWarmer → Flight → Type 0
IsDisowned w f = IsOvertaken w f.refresh × IsCancelled w f

abbrev pub IsQuiet : World → Type 0
IsQuiet s =
    (s.warmer.timer ≡ none)
    × All (IsOvertaken s.warmer) s.entering
    × All (IsDisowned s.warmer) s.ready
    × All (IsDisowned s.warmer) s.asking

-- The requests that the provider was called for with a context that was live.
abbrev pub live_requests : List Sent → List Request
live_requests [] = []
live_requests (x ∷ xs) = let rest = live_requests xs in if x.live then x.request ∷ rest else rest

live_requests-cancelled :
    (xs : List Sent) (x : Sent) → x.live ≡ false → live_requests (xs ++ x ∷ []) ≡ live_requests xs
live_requests-cancelled [] x e = rw e refl
live_requests-cancelled (y ∷ ys) x e =
    ap (λ l. if y.live then y.request ∷ l else l) (live_requests-cancelled ys x e)

-- What a call makes of a warmer without a timer.
Silences : CacheWarmer → CacheWarmer → Type 0
Silences w v =
    (v.timer ≡ none)
    × (w.serial ≤ v.serial)
    × (w.closed ≡ true → v.closed ≡ true)
    × ((v.cancelled ≡ w.cancelled) ⊎ (v.cancelled ≡ cancel_context w.cancel w.cancelled))

IsOvertaken-later :
    (w v : CacheWarmer) (r : Refresh) → Silences w v → IsOvertaken w r → IsOvertaken v r
unfolding Silences
IsOvertaken-later w v r n (inl c) = inl (n.2 c)
IsOvertaken-later w v r n (inr le) = inr (omega (arith, le, n.1))

IsDisowned-later : (w v : CacheWarmer) (f : Flight) → Silences w v → IsDisowned w f → IsDisowned v f
unfolding Silences
IsDisowned-later w v f n (o, c) = (IsOvertaken-later w v f.refresh n o, cancelled n.3)
  where
    cancelled :
        (v.cancelled ≡ w.cancelled) ⊎ (v.cancelled ≡ cancel_context w.cancel w.cancelled)
        → IsCancelled v f
    cancelled (inl e) = rw e c
    cancelled (inr e) = IsHeld-Stopped w v f e (inl c)

is_stale-IsOvertaken :
    (worth : Request → Bool → Bool) (w : CacheWarmer) (r : Refresh)
    → IsOvertaken w r
    → is_stale worth w r ≡ true
is_stale-IsOvertaken worth w r (inl c) = rw c refl
is_stale-IsOvertaken worth w r (inr le) = ground (arith, le)

-- One step of a quiet world: it stays quiet, and sends nothing on a live context.
abbrev StaysQuiet : World → World → Type 0
StaysQuiet s t =
    IsQuiet t
    × (live_requests t.sent ≡ live_requests s.sent)
    × (s.warmer.closed ≡ true → t.warmer.closed ≡ true)

StaysQuiet-with_warmer :
    (s : World) (v : CacheWarmer) → IsQuiet s → Silences s.warmer v → StaysQuiet s (with_warmer s v)
unfolding Silences
StaysQuiet-with_warmer s v q n =
    let later : (f : Flight) → IsDisowned s.warmer f → IsDisowned v f =
      λ f. IsDisowned-later s.warmer v f n in
    (
      (
        n.0,
        All-imply (IsOvertaken s.warmer) (IsOvertaken v) s.entering
            (λ r. IsOvertaken-later s.warmer v r n) q.1,
        All-imply (IsDisowned s.warmer) (IsDisowned v) s.ready later q.2,
        All-imply (IsDisowned s.warmer) (IsDisowned v) s.asking later q.3,
      ),
      refl,
      n.2,
    )

-- No request went out on a live context between the two worlds, and every call of the provider that
-- waits for its answer in the second has a cancelled one.
abbrev pub IsSilent : World → World → Type 0
IsSilent s t = (live_requests t.sent ≡ live_requests s.sent) × All (IsCancelled t.warmer) t.asking

module _ (worth : Request → Bool → Bool) where
  start_closed :
      (now : ℕ) (r : Request) (mode : Mode) (w : CacheWarmer)
      → w.timer ≡ none
      → w.closed ≡ true
      → Silences w (start worth now r mode w)
  unfolding Silences start stop stop_locked
  start_closed now r mode w t c = ground arith

  settle_quiet :
      (now : ℕ) (mode : Mode) (w : CacheWarmer)
      → w.timer ≡ none
      → Silences w (settle worth now mode w)
  unfolding Silences settle stop stop_locked
  settle_quiet now mode w t = ground arith

  StaysQuiet-after_event :
      (e : Event) (s : World)
      → (s.warmer.closed ≡ true) ⊎ (is_start e ≡ false)
      → IsQuiet s
      → StaysQuiet s (after_event worth e s)
  unfolding after_event Silences stop close stop_locked fire enter send answered
  StaysQuiet-after_event (start_event now r mode) s (inl c) q =
      StaysQuiet-with_warmer s (start worth now r mode s.warmer) q
        (start_closed now r mode s.warmer q.0 c)
  StaysQuiet-after_event (start_event now r mode) s (inr c) q = absurd (true≢false c)
  StaysQuiet-after_event (settle_event now mode) s h q =
      StaysQuiet-with_warmer s (settle worth now mode s.warmer) q
        (settle_quiet now mode s.warmer q.0)
  StaysQuiet-after_event stop_event s h q =
      StaysQuiet-with_warmer s (stop s.warmer) q (refl, omega arith, (λ c. c), inr refl)
  StaysQuiet-after_event close_event s h q =
      StaysQuiet-with_warmer s (close s.warmer) q (refl, omega arith, (λ c. refl), inr refl)
  StaysQuiet-after_event (fire_event now) s h q = rw (fire, q.0) (q, refl, λ c. c)
  StaysQuiet-after_event (enter_event i) s h q = elim (Option-cases (get_elem? s.entering i)) [
    | inl p ↦ rw p (q, refl, λ c. c)
    | inr (r, p) ↦
        let stale =
          is_stale-IsOvertaken worth s.warmer r
            (All-get_elem? (IsOvertaken s.warmer) s.entering i r q.1 p) in
        rw (p, enter, stale)
          ((q.0, All-remove_at (IsOvertaken s.warmer) s.entering i q.1, q.2, q.3), refl, λ c. c)
  ]
  StaysQuiet-after_event (send_event i) s h q = elim (Option-cases (get_elem? s.ready i)) [
    | inl p ↦ rw p (q, refl, λ c. c)
    | inr (f, p) ↦
        let disowned = All-get_elem? (IsDisowned s.warmer) s.ready i f q.2 p in
        let x : Sent = record {
          request = f.request;
          live = not (is_cancelled s.warmer f.context);
        } in
        rw (p, send)
          (
            (
              q.0,
              q.1,
              All-remove_at (IsDisowned s.warmer) s.ready i q.2,
              All-append (IsDisowned s.warmer) s.asking (f ∷ []) q.3 (disowned, tt),
            ),
            live_requests-cancelled s.sent x (ap not disowned.1),
            λ c. c,
          )
  ]
  StaysQuiet-after_event (answer_event now answer i) s h q =
      elim (Option-cases (get_elem? s.asking i)) [
        | inl p ↦ rw p (q, refl, λ c. c)
        | inr (f, p) ↦
            let disowned = All-get_elem? (IsDisowned s.warmer) s.asking i f q.3 p in
            let stale = is_stale-IsOvertaken worth s.warmer f.refresh disowned.0 in
            let w = record s.warmer { cancelled = f.context ∷ s.warmer.cancelled } in
            let later : (g : Flight) → IsDisowned s.warmer g → IsDisowned w g =
              λ g d. (d.0, ground (arith, d.1)) in
            rw (p, answered, stale)
              (
                (
                  q.0,
                  q.1,
                  All-imply (IsDisowned s.warmer) (IsDisowned w) s.ready later q.2,
                  All-imply (IsDisowned s.warmer) (IsDisowned w) (remove_at s.asking i) later
                      (All-remove_at (IsDisowned s.warmer) s.asking i q.3),
                ),
                refl,
                λ c. c,
              )
      ]

  pub sent-after_events :
      (es : List Event) (s : World)
      → (s.warmer.closed ≡ true) ⊎ All (λ e. is_start e ≡ false) es
      → IsQuiet s
      → IsSilent s (after_events worth es s)
  unfolding after_events
  sent-after_events [] s h q =
      (refl, All-imply (IsDisowned s.warmer) (IsCancelled s.warmer) s.asking (λ f d. d.1) q.3)
  sent-after_events (e ∷ es) s (inl c) q =
      let step = StaysQuiet-after_event e s (inl c) q in
      let rest = sent-after_events es (after_event worth e s) (inl (step.2 c)) step.0 in
      (rest.0 ∙ step.1, rest.1)
  sent-after_events (e ∷ es) s (inr c) q =
      let step = StaysQuiet-after_event e s (inr c.0) q in
      let rest = sent-after_events es (after_event worth e s) (inr c.1) step.0 in
      (rest.0 ∙ step.1, rest.1)
