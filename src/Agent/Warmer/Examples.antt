-- ===== src/Agent/Warmer/Examples.antt =====
-- pkg/agent/cache_warmer.go: the theorems and the definitions at concrete inputs.
use midas.Common.{
  ℕ, ◌*◌, ◌≤◌, ◌≡◌, refl, Bool, true, false, none, some, List, [], ◌∷◌, ◌++◌, arith, ltb, map,
}
use midas.Common.Int.{pos, ◌-ℤ◌, wrap64}
use midas.Common.Text.{codes}
use midas.Ai.Message.{complete, zero_usage}
use midas.Agent.Warmer.{
  Request, Timer, World, retain_short, second, streaming, cache_warming_delay, prompt_cache_ttl,
  deadline,
}
use midas.Agent.Warmer.Events.{
  Event, start_event, stop_event, fire_event, enter_event, send_event, answer_event, after_events,
  new_world,
}
use midas.Agent.Warmer.Quiet.{silenced_warmer}
use midas.Agent.Warmer.Disowned.{IsSilent, live_requests}
use midas.Agent.Warmer.Deadlines.{due-le-deadline}

abbrev request : ℕ → Request
request prompt = record {
  thinks = false;
  api = codes "openai-responses";
  adaptive_thinking = false;
  retention = retain_short;
  short = pos 300;
  long = pos 3600;
  prompt = prompt;
}

-- Prompts below 10 are not worth a refresh.
abbrev worth : Request → Bool → Bool
worth r is_idle = ltb 9 r.prompt

abbrev run : List Event → World
run es = after_events worth es (new_world true (request 0))

-- Nine tenths of five minutes.
delay_of_five_minutes : cache_warming_delay (prompt_cache_ttl (request 10)) ≡ 270 * second
unfolding cache_warming_delay prompt_cache_ttl wrap64 ◌-ℤ◌
delay_of_five_minutes = refl

abbrev begun : List Event
begun = start_event 0 (request 10) streaming ∷ fire_event (270 * second) ∷ []

-- The refresh has left the lock when the warmer is stopped.
abbrev leaving : List Event
leaving = begun ++ enter_event 0 ∷ []

abbrev after_stop : List Event
after_stop = send_event 0 ∷ fire_event (540 * second) ∷ enter_event 0 ∷ []

silenced_warmer_example :
    IsSilent (run leaving) (after_events worth (stop_event ∷ after_stop) (run leaving))
silenced_warmer_example =
    silenced_warmer worth true (request 0) leaving stop_event after_stop (refl, (refl, (refl, tt)))

-- The provider is called all the same, on a context that is cancelled.
late_call :
    map (λ x. x.live) (after_events worth (stop_event ∷ after_stop) (run leaving)).sent ≡ false ∷ []
unfolding after_events cache_warming_delay prompt_cache_ttl wrap64 ◌-ℤ◌
late_call = refl

abbrev one_timer : Timer
one_timer = record { serial = 1; delay = 270 * second; due = 540 * second; fired = false }

abbrev one_round : List Event
one_round =
    start_event 0 (request 10) streaming
    ∷ fire_event (270 * second)
    ∷ enter_event 0
    ∷ send_event 0
    ∷ answer_event (270 * second) (some (complete, zero_usage)) 0
    ∷ []

due-le-deadline_example : 540 * second ≤ deadline (run one_round).warmer
unfolding after_events cache_warming_delay prompt_cache_ttl wrap64 ◌-ℤ◌
due-le-deadline_example =
    due-le-deadline worth true (request 0) one_round one_timer
      (omega arith, (omega arith, (omega arith, (omega arith, (omega arith, tt))))) refl

-- A refresh of one prompt is under way when a start for another, which is not worth a refresh,
-- stops the timers. It goes on to refresh the first prompt once more.
abbrev replaced : List Event
replaced =
    start_event 0 (request 10) streaming
    ∷ fire_event (270 * second)
    ∷ enter_event 0
    ∷ send_event 0
    ∷ start_event (271 * second) (request 9) streaming
    ∷ answer_event (272 * second) none 0
    ∷ fire_event (542 * second)
    ∷ enter_event 0
    ∷ send_event 0
    ∷ []

overtaken_refresh_goes_on : map (λ r. r.prompt) (live_requests (run replaced).sent) ≡ 10 ∷ 10 ∷ []
unfolding after_events cache_warming_delay prompt_cache_ttl wrap64 ◌-ℤ◌
overtaken_refresh_goes_on = refl
