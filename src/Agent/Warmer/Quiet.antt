-- ===== src/Agent/Warmer/Quiet.antt =====
-- pkg/agent/cache_warmer.go: Stop, Close and settle, and the requests that are sent after them.
use mathlib.Core.Bool.{true≢false}
use midas.Common.{
  ℕ, suc, ◌≤◌, ◌≡◌, refl, sym, subst, Bool, true, false, none, List, [], ◌∷◌, All, arith, inl, inr,
}
use midas.Agent.Warmer.{
  Mode, Request, Flight, CacheWarmer, World, settle, stop, close, is_idle, cancel_context,
  stop_locked,
}
use midas.Agent.Warmer.Events.{
  Event, start_event, settle_event, stop_event, close_event, fire_event, enter_event, send_event,
  answer_event, with_warmer, after_event, after_events, new_world, Precedes, IsNumbered, All-imply,
  IsNumbered-after_events,
}
use midas.Agent.Warmer.Chains.{IsHeld, IsTracked, IsHeld-Stopped}
use midas.Agent.Warmer.Tracked.{IsTracked-after_events}
use midas.Agent.Warmer.Disowned.{
  is_start, IsOvertaken, IsDisowned, IsQuiet, IsSilent, sent-after_events,
}

-- A change of the number or of `closed` that cancels the context of the warmer disowns everything.
IsQuiet-stopped :
    (s : World) (v : CacheWarmer)
    → v.timer ≡ none
    → v.cancelled ≡ cancel_context s.warmer.cancel s.warmer.cancelled
    → suc s.warmer.serial ≤ v.serial
    → IsNumbered s
    → IsTracked s
    → IsQuiet (with_warmer s v)
unfolding IsTracked
IsQuiet-stopped s v t c le n h = (
  t,
  All-imply (Precedes s.warmer.serial) (IsOvertaken v) s.entering
      (λ r p. inr (omega (arith, p, le))) n.1,
  disown s.ready n.2 h.1,
  disown s.asking n.3 h.2,
)
  where
    disown :
        (fs : List Flight)
        → All (λ f. Precedes s.warmer.serial f.refresh) fs
        → All (IsHeld s.warmer) fs
        → All (IsDisowned v) fs
    disown [] p x = tt
    disown (f ∷ fs) p x =
        ((inr (omega (arith, p.0, le)), IsHeld-Stopped s.warmer v f c x.0), disown fs p.1 x.1)

IsQuiet-stop : (s : World) → IsNumbered s → IsTracked s → IsQuiet (with_warmer s (stop s.warmer))
unfolding stop stop_locked
IsQuiet-stop s = IsQuiet-stopped s (stop s.warmer) refl refl (omega arith)

IsQuiet-close : (s : World) → IsNumbered s → IsTracked s → IsQuiet (with_warmer s (close s.warmer))
unfolding close stop_locked
IsQuiet-close s = IsQuiet-stopped s (close s.warmer) refl refl (omega arith)

-- What silences the warmer for the events that follow: Close for all, Stop for all but a start.
abbrev pub IsSilencedBy : Event → List Event → Type 0
IsSilencedBy close_event after = Unit
IsSilencedBy stop_event after = All (λ e. is_start e ≡ false) after
IsSilencedBy (settle_event now mode) after =
    (is_idle mode ≡ false) × All (λ e. is_start e ≡ false) after
IsSilencedBy (start_event now r mode) after = true ≡ false
IsSilencedBy (fire_event now) after = true ≡ false
IsSilencedBy (enter_event i) after = true ≡ false
IsSilencedBy (send_event i) after = true ≡ false
IsSilencedBy (answer_event now answer i) after = true ≡ false

settle_stops :
    (worth : Request → Bool → Bool) (now : ℕ) (mode : Mode) (w : CacheWarmer)
    → is_idle mode ≡ false
    → settle worth now mode w ≡ stop w
unfolding settle
settle_stops worth now mode w h = rw h refl

closed-close : (w : CacheWarmer) → (close w).closed ≡ true
unfolding close stop_locked
closed-close w = refl

sent-silence :
    (worth : Request → Bool → Bool) (silence : Event) (after : List Event) (s : World)
    → IsSilencedBy silence after
    → IsNumbered s
    → IsTracked s
    → IsSilent s (after_events worth (silence ∷ after) s)
unfolding after_events after_event
sent-silence worth close_event after s h n k =
    sent-after_events worth after (with_warmer s (close s.warmer)) (inl (closed-close s.warmer))
      (IsQuiet-close s n k)
sent-silence worth stop_event after s h n k =
    sent-after_events worth after (with_warmer s (stop s.warmer)) (inr h) (IsQuiet-stop s n k)
sent-silence worth (settle_event now mode) after s h n k =
    subst (λ w. IsSilent s (after_events worth after (with_warmer s w)))
      (sym (settle_stops worth now mode s.warmer h.0))
      (sent-after_events worth after (with_warmer s (stop s.warmer)) (inr h.1) (IsQuiet-stop s n k))
sent-silence worth (start_event now r mode) after s h n k = absurd (true≢false h)
sent-silence worth (fire_event now) after s h n k = absurd (true≢false h)
sent-silence worth (enter_event i) after s h n k = absurd (true≢false h)
sent-silence worth (send_event i) after s h n k = absurd (true≢false h)
sent-silence worth (answer_event now answer i) after s h n k = absurd (true≢false h)

new_world-IsTracked : (has_provider : Bool) (r : Request) → IsTracked (new_world has_provider r)
unfolding IsTracked
new_world-IsTracked has_provider r = (omega arith, tt, tt)

-- Whatever a new warmer has been through, with timers that fired and goroutines that wait for its
-- lock, have left it on their way to the provider, or wait for the provider's answer: after Close,
-- whatever follows, and after Stop or a settle that is not for an idle time, whatever follows but a
-- start, the provider is called for no request on a live context, and every request that waits for
-- an answer has had its context cancelled. (A refresh that has left the lock before may still call
-- the provider, with a context that is cancelled by then.)
pub silenced_warmer :
    (worth : Request → Bool → Bool) (has_provider : Bool) (r : Request) (before : List Event)
    (silence : Event) (after : List Event)
    → IsSilencedBy silence after
    → IsSilent (after_events worth before (new_world has_provider r)) (
        after_events worth (silence ∷ after) (after_events worth before (new_world has_provider r)))
silenced_warmer worth has_provider r before silence after h =
    let start = new_world has_provider r in
    sent-silence worth silence after (after_events worth before start) h
      (IsNumbered-after_events worth before start (tt, tt, tt, tt))
      (IsTracked-after_events worth before start (tt, tt, tt, tt)
        (new_world-IsTracked has_provider r))
