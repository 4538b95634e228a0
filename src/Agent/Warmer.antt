-- ===== src/Agent/Warmer.antt =====
-- pkg/agent/cache_warmer.go: the refreshes that keep a provider's cached prefix alive. The prices are
-- floating point numbers, so whether a refresh is worth its cost is an argument.
pub mod Events
pub mod Chains
pub mod Tracked
pub mod Disowned
pub mod Quiet
pub mod Deadlines
mod Examples
use midas.Common.{
  ℕ, suc, zero, ◌+◌, ◌-◌, ◌*◌, Bool, true, false, not, ◌&&◌, ◌||◌, Option, none, some, List, [],
  ◌∷◌, ◌++◌, if◌then◌else◌, ltb, leb, ◌==◌, get_elem?, any,
}
use midas.Common.Int.{ℤ, pos, pos_part, scale, quot, wrap64, ◌-ℤ◌, ltb_ℤ, leb_ℤ}
use midas.Common.Text.{Text, text_eq, codes}
use midas.Ai.Message.{StopReason, Usage, error, aborted}

-- CacheWarmingMode
pub data Mode : Type 0 where
  off streaming idle : Mode

-- ai.CacheRetention; a word that is neither `none` nor `long` is short.
pub data Retention : Type 0 where
  retain_none retain_short retain_long : Retention

-- cacheWarmRequest, as far as the warmer reads it; `prompt` is the rest, which it hands on. The
-- lifetimes are in seconds.
pub record Request : Type 0 where
  pub thinks : Bool
  pub api : Text
  pub adaptive_thinking : Bool
  pub retention : Retention
  pub short : ℤ
  pub long : ℤ
  pub prompt : ℕ

-- A timer of the runtime that was set and not stopped: when it is due, and whether it has fired.
pub record Timer : Type 0 where
  pub serial : ℕ
  pub delay : ℕ
  pub due : ℕ
  pub fired : Bool

-- A goroutine that runs `refresh`.
pub record Refresh : Type 0 where
  pub serial : ℕ
  pub delay : ℕ

-- A goroutine in `refresh` behind its first section: what it sends, and its context's number.
pub record Flight : Type 0 where
  pub refresh : Refresh
  pub request : Request
  pub context : ℕ

-- A call of the provider's Stream, and whether its context was live.
pub record Sent : Type 0 where
  pub request : Request
  pub live : Bool

-- CacheWarmer; `cancel` is the context whose cancel function it holds. `cancelled` is what those
-- functions have done so far: the contexts that are cancelled.
pub record CacheWarmer : Type 0 where
  pub has_provider : Bool
  pub timer : Option Timer
  pub cancel : Option ℕ
  pub cancelled : List ℕ
  pub closed : Bool
  pub serial : ℕ
  pub phase : Mode
  pub started : ℕ
  pub request : Request

-- The warmer, the goroutines of `refresh` that wait for its lock at the beginning, that have left
-- the lock to call the provider, and that wait for its answer, the number of contexts made so far,
-- and what was done outside: the calls of the provider, and the usages given to `onWarmed`.
pub record World : Type 0 where
  pub warmer : CacheWarmer
  pub entering : List Refresh
  pub ready : List Flight
  pub asking : List Flight
  pub contexts : ℕ
  pub sent : List Sent
  pub warmed : List Usage

abbrev pub second : ℕ
second = 1000000000

abbrev pub maximum_age : ℕ
maximum_age = 3600 * second

abbrev pub idle_maximum_age : ℕ
idle_maximum_age = 1800 * second

-- promptCacheTTL, in nanoseconds.
unfoldable pub prompt_cache_ttl : Request → ℤ
prompt_cache_ttl r = elim r.retention [
  | retain_none ↦ pos 0
  | retain_long ↦ wrap64 (scale r.long second)
  | retain_short ↦ wrap64 (scale r.short second)
]

abbrev pub at_least_ms : ℤ → ℕ
at_least_ms delay = if ltb_ℤ delay (pos 1000000) then 1000000 else pos_part delay

-- cacheWarmingDelay
unfoldable pub cache_warming_delay : ℤ → ℕ
cache_warming_delay ttl =
    if leb_ℤ ttl (pos (10 * second))
    then 0
    else let delay = quot (wrap64 (scale ttl 9)) 10 in
      let latest = ttl -ℤ pos (10 * second) in
      at_least_ms (if ltb_ℤ latest delay then latest else delay)

-- The call of a cancel function, if there is one.
abbrev pub cancel_context : Option ℕ → List ℕ → List ℕ
cancel_context none cancelled = cancelled
cancel_context (some context) cancelled = context ∷ cancelled

abbrev pub is_cancelled : CacheWarmer → ℕ → Bool
is_cancelled w context = any (context ==◌) w.cancelled

-- stopLocked
unfoldable pub stop_locked : CacheWarmer → CacheWarmer
stop_locked w = record w {
  timer = none;
  cancel = none;
  cancelled = cancel_context w.cancel w.cancelled;
}

abbrev pub deadline : CacheWarmer → ℕ
deadline w = elim w.phase [
  | idle ↦ w.started + idle_maximum_age
  | streaming ↦ w.started + maximum_age
  | off ↦ w.started + maximum_age
]

-- scheduleLocked
unfoldable pub schedule_locked : ℕ → ℕ → CacheWarmer → CacheWarmer
unfolding stop_locked
schedule_locked now delay w = if ltb (deadline w) (now + delay) then stop_locked w else record w {
  timer = some (record { serial = w.serial; delay = delay; due = now + delay; fired = false });
}

-- Stop
unfoldable pub stop : CacheWarmer → CacheWarmer
unfolding stop_locked
stop w = stop_locked (record w { serial = suc w.serial })

-- Close
unfoldable pub close : CacheWarmer → CacheWarmer
unfolding stop_locked
close w = stop_locked (record w { closed = true; serial = suc w.serial })

abbrev pub is_off : Mode → Bool
is_off off = true
is_off streaming = false
is_off idle = false

abbrev pub is_idle : Mode → Bool
is_idle idle = true
is_idle off = false
is_idle streaming = false

abbrev pub anthropic : Text
anthropic = codes "anthropic-messages"

-- Thinking that the provider ties to the prompt is not refreshed.
abbrev pub is_pinned : Request → Bool
is_pinned r = r.thinks && text_eq r.api anthropic && not r.adaptive_thinking

module _ (worth : Request → Bool → Bool) where
  -- start
  unfoldable pub start : ℕ → Request → Mode → CacheWarmer → CacheWarmer
  unfolding stop schedule_locked
  start now r mode w =
      if not w.has_provider
      then w
      else if is_off mode || is_pinned r
      then stop w
      else let delay = cache_warming_delay (prompt_cache_ttl r) in
        let stopped = stop_locked w in
        if w.closed || delay == 0 || not (worth r false)
        then stopped
        else schedule_locked now delay (record stopped {
          serial = suc w.serial;
          phase = streaming;
          started = now;
          request = r;
        })

  abbrev pub settle_idle : ℕ → CacheWarmer → CacheWarmer
  settle_idle now w =
      let delay = cache_warming_delay (prompt_cache_ttl w.request) in
      if not (worth w.request true)
        || delay == 0
        || ltb (w.started + idle_maximum_age) (now + delay)
      then stop w
      else w

  abbrev pub is_set : Option Timer → Bool
  is_set none = false
  is_set (some t) = true

  -- settle
  unfoldable pub settle : ℕ → Mode → CacheWarmer → CacheWarmer
  unfolding stop
  settle now mode w =
      if not (is_idle mode) || w.closed || not (is_set w.timer)
      then stop w
      else settle_idle now (record w { phase = idle })

  -- The time of a timer has come, and the runtime starts its goroutine.
  unfoldable pub fire : ℕ → World → World
  fire now s = elim s.warmer.timer [
    | none ↦ s
    | some t ↦ if t.fired || ltb now t.due then s else record s {
      warmer = record s.warmer { timer = some (record t { fired = true }) };
      entering = s.entering ++ record { serial = t.serial; delay = t.delay } ∷ [];
    }
  ]

  abbrev pub is_stale : CacheWarmer → Refresh → Bool
  is_stale w r = w.closed || not (r.serial == w.serial)

  -- The part of refresh up to the first Unlock.
  unfoldable pub enter : Refresh → World → World
  unfolding stop_locked
  enter r s =
      if is_stale s.warmer r
      then s
      else if not (worth s.warmer.request (is_idle s.warmer.phase))
      then record s { warmer = stop_locked s.warmer }
      else record s {
        warmer = record s.warmer { cancel = some s.contexts; timer = none };
        ready =
            s.ready
            ++ record { refresh = r; request = s.warmer.request; context = s.contexts } ∷ [];
        contexts = suc s.contexts;
      }

  -- The call of the provider, without the lock.
  unfoldable pub send : Flight → World → World
  send f s = record s {
    asking = s.asking ++ f ∷ [];
    sent =
        s.sent ++ record { request = f.request; live = not (is_cancelled s.warmer f.context) } ∷ [];
  }

  -- The part behind the call; `answer` is the final message's reason and usage, if there is one.
  -- It is one step, since what comes before the lock, `onWarmed` and the cancelling of its own
  -- context, reads nothing that the lock protects.
  abbrev pub is_warmed : Option (StopReason × Usage) → List Usage
  is_warmed none = []
  is_warmed (some (error, usage)) = []
  is_warmed (some (aborted, usage)) = []
  is_warmed (some (_, usage)) = usage ∷ []

  unfoldable pub answered : ℕ → Option (StopReason × Usage) → Flight → World → World
  unfolding schedule_locked
  answered now answer f s =
      let w = record s.warmer { cancelled = f.context ∷ s.warmer.cancelled } in
      let told = record s { warmer = w; warmed = s.warmed ++ is_warmed answer } in
      if is_stale w f.refresh
      then told
      else record told { warmer = schedule_locked now f.refresh.delay (record w { cancel = none }) }
