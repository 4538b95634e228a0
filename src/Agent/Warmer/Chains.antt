-- ===== src/Agent/Warmer/Chains.antt =====
-- pkg/agent/cache_warmer.go: the goroutines of one serial, and the contexts of their requests.
use mathlib.Core.Option.{some-injective}
use midas.Common.{
  ℕ, suc, zero, ◌+◌, ◌≤◌, ◌<◌, ◌≡◌, refl, ap, Bool, true, Option, none, some, List, [], ◌∷◌, ◌++◌,
  if◌then◌else◌, ◌==◌, get_elem?, All, arith, ◌⊎◌, inl, inr,
}
use midas.Agent.Warmer.{
  Mode, Request, Timer, Refresh, Flight, CacheWarmer, World, start, settle, stop, is_cancelled,
  cancel_context, schedule_locked, stop_locked,
}
use midas.Agent.Warmer.Events.{with_warmer, remove_at, Precedes, IsNumbered, All-imply}

abbrev pub has : ℕ → Refresh → ℕ
has n r = if r.serial == n then 1 else 0

-- How many goroutines of a list have a number.
unfoldable pub tally {ℓ} : {A : Type ℓ} → (A → Refresh) → ℕ → List A → ℕ
tally refresh n [] = 0
tally refresh n (x ∷ xs) = has n (refresh x) + tally refresh n xs

pub tally-append {ℓ} :
    {A : Type ℓ} (refresh : A → Refresh) (n : ℕ) (xs : List A) (x : A)
    → tally refresh n (xs ++ x ∷ []) ≡ tally refresh n xs + has n (refresh x)
unfolding tally
tally-append refresh n [] x = omega arith
tally-append refresh n (y ∷ ys) x = omega (arith, tally-append refresh n ys x)

pub tally-remove_at {ℓ} :
    {A : Type ℓ} (refresh : A → Refresh) (n : ℕ) (xs : List A) (i : ℕ) (x : A)
    → get_elem? xs i ≡ some x
    → tally refresh n xs ≡ has n (refresh x) + tally refresh n (remove_at xs i)
unfolding tally
tally-remove_at refresh n [] i x e = absurd (ground arith)
tally-remove_at refresh n (y ∷ ys) zero x e =
    ap (λ z. has n (refresh z) + tally refresh n ys) (some-injective _ _ e)
tally-remove_at refresh n (y ∷ ys) (suc i) x e = omega (arith, tally-remove_at refresh n ys i x e)

tally-later {ℓ} :
    {A : Type ℓ} (refresh : A → Refresh) (n k : ℕ) (xs : List A)
    → n < k
    → All (λ x. Precedes n (refresh x)) xs
    → tally refresh k xs ≡ 0
unfolding tally
tally-later refresh n k [] lt h = refl
tally-later refresh n k (x ∷ xs) lt h = ground (arith, lt, h.0, tally-later refresh n k xs lt h.1)

-- A timer that has not fired.
unfoldable pub timer_tally : ℕ → Option Timer → ℕ
timer_tally n none = 0
timer_tally n (some t) = if t.fired then 0 else if t.serial == n then 1 else 0

pub timer_tally-le : (n : ℕ) (o : Option Timer) → timer_tally n o ≤ 1
unfolding timer_tally
timer_tally-le n none = omega arith
timer_tally-le n (some t) = ground arith

abbrev pub refresh_of : Flight → Refresh
refresh_of f = f.refresh

-- The timer and the goroutines that have the warmer's number.
unfoldable pub chains : World → ℕ
unfolding tally timer_tally
chains s =
    timer_tally s.warmer.serial s.warmer.timer
    + tally (λ r. r) s.warmer.serial s.entering
    + tally refresh_of s.warmer.serial s.ready
    + tally refresh_of s.warmer.serial s.asking

-- A context that is cancelled, or that the warmer can cancel.
abbrev pub IsHeld : CacheWarmer → Flight → Type 0
IsHeld w f =
    (is_cancelled w f.context ≡ true)
    ⊎ ((w.cancel ≡ some f.context) × (f.refresh.serial ≡ w.serial))

abbrev pub IsCancelled : CacheWarmer → Flight → Type 0
IsCancelled w f = is_cancelled w f.context ≡ true

unfoldable pub IsTracked : World → Type 0
unfolding chains
IsTracked s = (chains s ≤ 1) × All (IsHeld s.warmer) s.ready × All (IsHeld s.warmer) s.asking

-- What a call makes of the warmer: it keeps its contexts, or has cancelled the one it held.
abbrev pub Stopped : CacheWarmer → CacheWarmer → Type 0
Stopped w v =
    (v.cancelled ≡ cancel_context w.cancel w.cancelled)
    × (((v.serial ≡ w.serial) × (v.timer ≡ none)) ⊎ (suc w.serial ≤ v.serial))

abbrev pub Kept : CacheWarmer → CacheWarmer → Type 0
Kept w v =
    (v.serial ≡ w.serial)
    × (v.cancel ≡ w.cancel)
    × (v.cancelled ≡ w.cancelled)
    × (v.timer ≡ w.timer)

pub start-Stopped :
    (worth : Request → Bool → Bool) (now : ℕ) (r : Request) (mode : Mode) (w : CacheWarmer)
    → Kept w (start worth now r mode w) ⊎ Stopped w (start worth now r mode w)
unfolding start stop schedule_locked stop_locked
start-Stopped worth now r mode w = ground arith

pub settle-Stopped :
    (worth : Request → Bool → Bool) (now : ℕ) (mode : Mode) (w : CacheWarmer)
    → Kept w (settle worth now mode w) ⊎ Stopped w (settle worth now mode w)
unfolding settle stop stop_locked
settle-Stopped worth now mode w = ground arith

pub IsHeld-Stopped :
    (w v : CacheWarmer) (f : Flight)
    → v.cancelled ≡ cancel_context w.cancel w.cancelled
    → IsHeld w f
    → IsCancelled v f
IsHeld-Stopped w v f e h = cancelled w.cancel refl h
  where
    cancelled : (o : Option ℕ) → w.cancel ≡ o → IsHeld w f → IsCancelled v f
    cancelled none q (inl c) = rw (e, q) c
    cancelled none q (inr (p, n)) = absurd (ground arith)
    cancelled (some k) q (inl c) = rw (e, q) (ground (arith, c))
    cancelled (some k) q (inr (p, n)) = rw (e, p) (ground arith)

pub IsTracked-with_warmer :
    (s : World) (v : CacheWarmer)
    → Kept s.warmer v ⊎ Stopped s.warmer v
    → IsNumbered s
    → IsTracked s
    → IsTracked (with_warmer s v)
unfolding IsTracked chains
IsTracked-with_warmer s v (inl (a, b, c, d)) n h = rw (a, b, c, d) h
IsTracked-with_warmer s v (inr (c, moved)) n h = (
  fewer moved,
  All-imply (IsHeld s.warmer) (IsHeld v) s.ready (λ f i. inl (IsHeld-Stopped s.warmer v f c i)) h.1,
  All-imply (IsHeld s.warmer) (IsHeld v) s.asking (λ f i. inl (IsHeld-Stopped s.warmer v f c i))
      h.2,
)
  where
    fewer :
        ((v.serial ≡ s.warmer.serial) × (v.timer ≡ none)) ⊎ (suc s.warmer.serial ≤ v.serial)
        → chains (with_warmer s v) ≤ 1
    fewer (inl (a, b)) = rw (a, b) (omega (arith, h.0))
    fewer (inr lt) = omega (
      arith,
      timer_tally-le v.serial v.timer,
      tally-later (λ r. r) s.warmer.serial v.serial s.entering lt n.1,
      tally-later refresh_of s.warmer.serial v.serial s.ready lt n.2,
      tally-later refresh_of s.warmer.serial v.serial s.asking lt n.3,
    )
