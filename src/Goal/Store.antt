-- ===== src/Goal/Store.antt =====
-- internal/goal/store.go: the current goal in one file. The file is given by what decoding makes of
-- it; a call is one step, since the mutex is held throughout.
pub mod Disk
pub mod Calls
use midas.Common.{
  ℕ, ◌+◌, ◌-◌, ◌/◌, Bool, true, false, ◌&&◌, ◌||◌, Option, none, some, List, [], ◌∷◌, ◌++◌,
  if◌then◌else◌, ltb, ◌==◌, drop, length, not,
}
use midas.Common.Int.{ℤ, pos, ◌+ℤ◌, ltb_ℤ, quot, wrap64}
use midas.Common.Text.{Text, text_eq, trim_space, is_empty}
use midas.Goal.{
  Status, active, paused, complete, blocked, other, EventKind, created, objective_updated, turn,
  status_changed, Event, Limits, Goal, closed, is_active, since_until, LimitReason, limit_reached,
  normalize_objective, validate_limits, nanoseconds_per_ms,
}
use midas.Goal.Store.Disk.{
  File, Writing, missing, unreadable, undecodable, envelope, WriteStep, write,
}

pub data GoalError : Type 0 where
  empty_objective negative_limits cancelled read_failed decode_failed invalid_state : GoalError
  conflict no_goal goal_closed id_failed empty_update evidence_required : GoalError
  blocker_required negative_tokens clear_failed : GoalError
  invalid_status not_active : Status → GoalError
  write_failed : WriteStep → GoalError

-- What the world does in one call: whether the context is cancelled, the clock, random bytes, and
-- the step of `write` that fails, and whether the removal of a temporary file does.
pub record World : Type 0 where
  pub ctx_done : Bool
  pub now : ℕ
  pub id : Option Text
  pub fault : Option WriteStep
  pub removal_fails : Bool

pub data ReadResult : Type 0 where
  found : Goal → ReadResult
  not_found : ReadResult
  bad : GoalError → ReadResult

-- read
unfoldable pub read : File → ReadResult
read missing = not_found
read unreadable = bad read_failed
read undecodable = bad decode_failed
read (envelope version g) =
    if not (version == 1) || is_empty g.id then bad invalid_state else found g

pub data Result {ℓ} (A : Type ℓ) : Type ℓ where
  ok : A → Result A
  err : GoalError → Result A

-- The end of a call that writes: the file, and the goal or the error of the write.
unfoldable pub save : World → File → Goal → File × Result Goal
save world file g =
    let w = write file g world.fault world.removal_fails in
    (w.file, elim w.failed [ none ↦ ok g | some step ↦ err (write_failed step) ])

abbrev pub max_goal_history : ℕ
max_goal_history = 500

-- trimHistory
unfoldable pub trim_history : Goal → Goal
trim_history g =
    if ltb max_goal_history (length g.history)
    then record g { history = drop (length g.history - max_goal_history) g.history }
    else g

abbrev pub elapsed_ms : ℕ → ℕ → ℕ
elapsed_ms since now = if ltb since now then since_until since now / nanoseconds_per_ms else 0

-- freezeActiveDuration
unfoldable pub freeze_active_duration : Goal → ℕ → Goal
freeze_active_duration g now =
    if is_active g.status
    then elim g.active_since [
      | none ↦ g
      | some since ↦ record g {
        active_duration_ms =
            if ltb since now
            then wrap64 (g.active_duration_ms +ℤ pos (elapsed_ms since now))
            else g.active_duration_ms;
        active_since = none;
      }
    ]
    else g

-- What follows a change: the time of the update, the trimmed history, and the write.
unfoldable pub finish_mutate : World → File → Result Goal → File × Result Goal
unfolding save
finish_mutate world file (err e) = (file, err e)
finish_mutate world file (ok g) =
    save world file (trim_history (record g { updated_at = world.now }))

abbrev pub mutate_found : World → File → (Goal → ℕ → Result Goal) → ReadResult → File × Result Goal
mutate_found world file change (found g) = finish_mutate world file (change g world.now)
mutate_found world file change not_found = (file, err no_goal)
mutate_found world file change (bad e) = (file, err e)

-- mutate
unfoldable pub mutate : World → File → (Goal → ℕ → Result Goal) → File × Result Goal
mutate world file change =
    if world.ctx_done then (file, err cancelled) else mutate_found world file change (read file)
