-- ===== src/Goal.antt =====
-- internal/goal/goal.go: the goal of a session, its clock and its limits. An instant is a number of
-- nanoseconds, a duration an int64 of nanoseconds.
pub mod Store
mod Examples
use midas.Common.{
  ℕ, ◌-◌, ◌^◌, ◌<◌, min, Bool, true, false, ◌&&◌, ◌||◌, Option, none, some, List, if◌then◌else◌,
  ltb, leb,
}
use midas.Common.Int.{ℤ, pos, ◌+ℤ◌, ltb_ℤ, leb_ℤ, scale, wrap64}
use midas.Common.Text.{Text, trim_space, is_empty}

-- `other` is any other string.
pub data Status : Type 0 where
  active paused complete blocked : Status
  other : Text → Status

pub data EventKind : Type 0 where
  created objective_updated turn : EventKind
  status_changed : Status → EventKind

pub record Event : Type 0 where
  pub at : ℕ
  pub kind : EventKind
  pub detail : Text
  pub tokens : ℤ
  pub turns : ℤ

-- `max_duration` is in nanoseconds.
pub record Limits : Type 0 where
  pub token_budget : ℤ
  pub max_turns : ℤ
  pub max_duration : ℤ

pub record Goal : Type 0 where
  pub id : Text
  pub objective : Text
  pub status : Status
  pub created_at : ℕ
  pub updated_at : ℕ
  pub active_since : Option ℕ
  pub active_duration_ms : ℤ
  pub token_budget : ℤ
  pub tokens_used : ℤ
  pub max_turns : ℤ
  pub turns_used : ℤ
  pub max_duration_ms : ℤ
  pub evidence : Text
  pub blocker : Text
  pub history : List Event

abbrev pub is_active : Status → Bool
is_active active = true
is_active _ = false

abbrev pub is_closed_status : Status → Bool
is_closed_status complete = true
is_closed_status blocked = true
is_closed_status _ = false

-- Closed
abbrev pub closed : Goal → Bool
closed g = is_closed_status g.status

abbrev pub nanoseconds_per_ms : ℕ
nanoseconds_per_ms = 1_000_000

-- `at.Sub(since)` of a later instant, which stops at the greatest duration.
abbrev pub since_until : ℕ → ℕ → ℕ
since_until since at = min (at - since) (2 ^ 63 - 1)

abbrev pub running_time : Status → Option ℕ → ℕ → ℕ
running_time s none at = 0
running_time s (some since) at = if is_active s && ltb since at then since_until since at else 0

-- ActiveDuration
unfoldable pub active_duration : Goal → ℕ → ℤ
active_duration g at = wrap64 (
    wrap64 (scale g.active_duration_ms nanoseconds_per_ms)
    +ℤ pos (running_time g.status g.active_since at))

pub data LimitReason : Type 0 where
  no_limit token_limit turn_limit duration_limit : LimitReason

-- LimitReached
unfoldable pub limit_reached : Goal → ℕ → LimitReason
limit_reached g at =
    if ltb_ℤ (pos 0) g.token_budget && leb_ℤ g.token_budget g.tokens_used
    then token_limit
    else if ltb_ℤ (pos 0) g.max_turns && leb_ℤ g.max_turns g.turns_used
    then turn_limit
    else if ltb_ℤ (pos 0) g.max_duration_ms
        && leb_ℤ (wrap64 (scale g.max_duration_ms nanoseconds_per_ms)) (active_duration g at)
    then duration_limit
    else no_limit

-- normalizeObjective; `none` is the error.
unfoldable pub normalize_objective : Text → Option Text
normalize_objective value =
    let trimmed = trim_space value in if is_empty trimmed then none else some trimmed

-- validateLimits; `false` is the error.
unfoldable pub validate_limits : Limits → Bool
validate_limits l =
    if ltb_ℤ l.token_budget (pos 0) || ltb_ℤ l.max_turns (pos 0) || ltb_ℤ l.max_duration (pos 0)
    then false
    else true
