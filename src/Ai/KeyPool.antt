-- ===== src/Ai/KeyPool.antt =====
-- pkg/ai/api_key_pool.go: a provider with several keys. What the wrapped provider does with a key is an argument;
-- a key is tried at most once in a call, so a function of the key says all of it.
pub mod Candidates
pub mod Attempts
use midas.Common.{
  ℕ, ◌+◌, Bool, true, false, not, ◌&&◌, ◌||◌, Option, none, some, List, [], ◌∷◌, ◌++◌,
  if◌then◌else◌, ltb, leb, length, ◌==◌,
}
use midas.Common.Text.{Text, text_eq, is_empty}

-- Instants and durations are numbers of nanoseconds.
abbrev pub rate_limit_cooldown : ℕ
rate_limit_cooldown = 60_000_000_000

abbrev pub invalid_cooldown : ℕ
invalid_cooldown = 300_000_000_000

-- An error of the wrapped provider: an HTTPError with its status, or another one.
pub data ProviderError : Type 0 where
  http : ℕ → Text → ProviderError
  other : Text → ProviderError

-- apiKeyHealth; an instant that was never set is 0.
pub record KeyHealth : Type 0 where
  pub invalid_until : ℕ
  pub limited_until : ℕ
  pub last_error : Option ProviderError

abbrev pub unknown_health : KeyHealth
unknown_health = record { invalid_until = 0; limited_until = 0; last_error = none }

-- APIKeyPoolProvider; a key that is not in the map `health` has `unknown_health`.
pub record Pool : Type 0 where
  pub keys : List Text
  pub active : Text
  pub health : Text → KeyHealth

unfoldable pub holds : List Text → Text → Bool
holds [] key = false
holds (k ∷ ks) key = text_eq k key || holds ks key

-- uniqueAPIKeys, with the result so far.
unfoldable pub unique_from : List Text → List Text → List Text
unique_from result [] = result
unique_from result (value ∷ values) =
    unique_from (if is_empty value || holds result value then result else result ++ value ∷ [])
      values

abbrev pub unique_api_keys : List Text → List Text
unique_api_keys values = unique_from [] values

abbrev first_of : List Text → Text
first_of [] = []
first_of (k ∷ ks) = k

-- NewAPIKeyPoolProvider of a provider; `none` is the provider itself.
unfoldable pub new : List Text → Text → Option Pool
new keys active =
    let unique = unique_api_keys (active ∷ keys) in
    if leb (length unique) 1
    then none
    else some (record { keys = unique; active = first_of unique; health = λ key. unknown_health })

abbrev pub set_aside : KeyHealth → ℕ → Bool
set_aside health now = ltb now health.invalid_until || ltb now health.limited_until

-- The keys of a list that are not set aside.
unfoldable pub eligible : Pool → ℕ → List Text → List Text
eligible p now [] = []
eligible p now (key ∷ ks) =
    let rest = eligible p now ks in if set_aside (p.health key) now then rest else key ∷ rest

abbrev first_error : Option ProviderError → Option ProviderError → Option ProviderError
first_error none e = e
first_error (some e) _ = some e

-- The error of the first key that is set aside and has one.
unfoldable pub unavailable : Pool → ℕ → List Text → Option ProviderError
unavailable p now [] = none
unavailable p now (key ∷ ks) =
    let rest = unavailable p now ks in
    if set_aside (p.health key) now then first_error (p.health key).last_error rest else rest

abbrev pub ordered : Pool → Text → List Text
ordered p preferred = unique_api_keys (preferred ∷ p.active ∷ p.keys)

-- candidates
abbrev pub candidates : Pool → Text → ℕ → List Text × Option ProviderError
candidates p preferred now =
    (eligible p now (ordered p preferred), unavailable p now (ordered p preferred))

abbrev pub put : (Text → KeyHealth) → Text → KeyHealth → Text → KeyHealth
put health key h other_key = if text_eq key other_key then h else health other_key

-- markHealthy
unfoldable pub mark_healthy : Text → Pool → Pool
mark_healthy key p = record p { active = key; health = put p.health key unknown_health }

pub data Penalty : Type 0 where
  invalid limited no_penalty : Penalty

abbrev pub penalty : ProviderError → Penalty
penalty (http status _) =
    if status == 401
    then invalid
    else if status == 403 || status == 429
    then limited
    else no_penalty
penalty (other _) = no_penalty

abbrev pub penalise : Penalty → ProviderError → ℕ → KeyHealth → KeyHealth
penalise invalid e now h = record h { last_error = some e; invalid_until = now + invalid_cooldown }
penalise limited e now h = record h {
  last_error = some e;
  limited_until = now + rate_limit_cooldown;
}
penalise no_penalty e now h = h

abbrev pub retries : ProviderError → Bool
retries e = elim (penalty e) [ no_penalty ↦ false | _ ↦ true ]

-- markFailure
unfoldable pub mark_failure : Text → ProviderError → ℕ → Pool → Pool × Bool
mark_failure key e now p = (
  if retries e
      then record p { health = put p.health key (penalise (penalty e) e now (p.health key)) }
      else p,
  retries e,
)

-- A part of a call of `Stream` that changes the pool; the lock is held in it, and not between two.
pub data Change : Type 0 where
  healthy_change : Text → Change
  failure_change : Text → ProviderError → ℕ → Change

unfoldable pub after_change : Change → Pool → Pool
after_change (healthy_change key) p = mark_healthy key p
after_change (failure_change key e at) p = (mark_failure key e at p).0

unfoldable pub after_changes : List Change → Pool → Pool
unfolding after_change
after_changes [] p = p
after_changes (c ∷ cs) p = after_changes cs (after_change c p)

-- What the wrapped provider does with a key: it opens a stream, or it fails at an instant.
pub data Attempt (S : Type 0) : Type 0 where
  opened : S → Attempt S
  failed : ProviderError → ℕ → Attempt S

-- What `Stream` returns.
pub data Outcome (S : Type 0) : Type 0 where
  streams : S → Outcome S
  none_available : Outcome S
  all_unavailable : ProviderError → Outcome S
  refused : ProviderError → Outcome S
  all_failed : Option ProviderError → Outcome S

-- A call of `Stream` that has candidates: the pool after it, what it returns, and the keys it tried.
pub record Trial (S : Type 0) : Type 0 where
  pub pool : Pool
  pub outcome : Outcome S
  pub tried : List Text

module _ {S : Type 0} where
  -- What an attempt changes.
  abbrev pub change_of : Text → Attempt S → Change
  change_of key (opened s) = healthy_change key
  change_of key (failed e at) = failure_change key e at

  -- What an attempt does to the pool.
  abbrev pub note_attempt : Text → Attempt S → Pool → Pool
  note_attempt key a p = after_change (change_of key a) p

  -- What an attempt makes the call return, if it ends it.
  abbrev pub ends : Attempt S → Option (Outcome S)
  ends (opened s) = some (streams s)
  ends (failed e at) = if retries e then none else some (refused e)

  abbrev error_of : Attempt S → Option ProviderError
  error_of (opened s) = none
  error_of (failed e at) = some e

  abbrev pub joined : Text → Pool → Option (Outcome S) → Trial S → Trial S
  joined key p (some outcome) rest = record { pool = p; outcome = outcome; tried = key ∷ [] }
  joined key p none rest = record rest { tried = key ∷ rest.tried }

  -- The loop of `Stream`, with the last error; `meanwhile` is what other calls change, without the
  -- lock in this one, until the attempt at a key is noted.
  unfoldable pub try_keys :
      (Text → Attempt S) → (Text → List Change) → List Text → Option ProviderError → Pool → Trial S
  unfolding after_changes
  try_keys provider meanwhile [] last p = record { pool = p; outcome = all_failed last; tried = [] }
  try_keys provider meanwhile (key ∷ keys) last p =
      let p' = note_attempt key (provider key) (after_changes (meanwhile key) p) in
      joined key p' (ends (provider key))
        (try_keys provider meanwhile keys (error_of (provider key)) p')

  abbrev no_candidates : Option ProviderError → Pool → Trial S
  no_candidates none p = record { pool = p; outcome = none_available; tried = [] }
  no_candidates (some e) p = record { pool = p; outcome = all_unavailable e; tried = [] }

  -- Stream
  unfoldable pub stream : (Text → Attempt S) → (Text → List Change) → Text → ℕ → Pool → Trial S
  unfolding try_keys
  stream provider meanwhile preferred now p =
      let (keys, e) = candidates p preferred now in
      if is_empty keys then no_candidates e p else try_keys provider meanwhile keys none p
