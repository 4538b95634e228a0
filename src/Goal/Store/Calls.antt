-- ===== src/Goal/Store/Calls.antt =====
-- internal/goal/store.go: the methods of the store.
pub mod Sound
pub mod Files
pub mod Turns
use midas.Common.{
  ℕ, ◌+◌, Bool, true, false, ◌&&◌, ◌||◌, not, Option, none, some, List, [], ◌∷◌, ◌++◌,
  if◌then◌else◌,
}
use midas.Common.Int.{ℤ, pos, ◌+ℤ◌, ltb_ℤ, quot, wrap64}
use midas.Common.Text.{Text, text_eq, trim_space, is_empty, codes}
use midas.Goal.{
  Status, active, paused, complete, blocked, other, EventKind, created, objective_updated, turn,
  status_changed, Event, Limits, Goal, closed, is_active, LimitReason, no_limit, limit_reached,
  normalize_objective, validate_limits, nanoseconds_per_ms,
}
use midas.Goal.Store.Disk.{File, missing, write, WriteStep}
use midas.Goal.Store.{
  GoalError, empty_objective, negative_limits, cancelled, conflict, no_goal, goal_closed, id_failed,
  empty_update, evidence_required, blocker_required, invalid_status, negative_tokens, not_active,
  clear_failed, World, ReadResult, found, not_found, bad, read, Result, ok, err, save,
  freeze_active_duration, mutate,
}

-- CreateResult with its error; a conflict hands back the goal that is there.
pub data CreateResult : Type 0 where
  fresh reused conflicting : Goal → CreateResult
  failed : GoalError → CreateResult

pub new_goal : Text → Text → Limits → ℕ → Goal
new_goal id objective limits now = record {
  id = id;
  objective = objective;
  status = active;
  created_at = now;
  updated_at = now;
  active_since = some now;
  active_duration_ms = pos 0;
  token_budget = limits.token_budget;
  tokens_used = pos 0;
  max_turns = limits.max_turns;
  turns_used = pos 0;
  max_duration_ms = quot limits.max_duration nanoseconds_per_ms;
  evidence = [];
  blocker = [];
  history = record { at = now; kind = created; detail = []; tokens = pos 0; turns = pos 0 } ∷ [];
}

abbrev pub saved : File × Result Goal → File × CreateResult
saved (file, ok g) = (file, fresh g)
saved (file, err e) = (file, failed e)

-- newID, from the hexadecimal text of the random bytes.
abbrev pub new_id : Text → Text
new_id hex = codes "goal_" ++ hex

create_with : World → File → Text → Limits → Option Text → File × CreateResult
unfolding new_goal
create_with world file objective limits none = (file, failed id_failed)
create_with world file objective limits (some hex) =
    saved (save world file (new_goal (new_id hex) objective limits world.now))

create_new : World → File → Text → Limits → File × CreateResult
unfolding create_with
create_new world file objective limits = create_with world file objective limits world.id

create_beside : World → File → Text → Limits → ReadResult → File × CreateResult
unfolding create_new
create_beside world file objective limits (bad e) = (file, failed e)
create_beside world file objective limits not_found = create_new world file objective limits
create_beside world file objective limits (found g) =
    if closed g
    then create_new world file objective limits
    else if text_eq g.objective objective
    then (file, reused g)
    else (file, conflicting g)

create_normalized : World → File → Limits → Option Text → File × CreateResult
unfolding create_beside
create_normalized world file limits none = (file, failed empty_objective)
create_normalized world file limits (some objective) =
    if not (validate_limits limits)
    then (file, failed negative_limits)
    else if world.ctx_done
    then (file, failed cancelled)
    else create_beside world file objective limits (read file)

-- Create
unfoldable pub create : World → File → Text → Limits → File × CreateResult
unfolding create_normalized
create world file value limits = create_normalized world file limits (normalize_objective value)

abbrev get_found : ReadResult → Result Goal
get_found (found g) = ok g
get_found not_found = err no_goal
get_found (bad e) = err e

-- Get
unfoldable pub get : World → File → Result Goal
get world file = if world.ctx_done then err cancelled else get_found (read file)

pub record Patch : Type 0 where
  pub objective : Option Text
  pub status : Option Status
  pub detail : Text

-- The checks of `Update` on the status, with the trimmed detail.
pub check_status : Option Status → Text → Result (Unit {0})
check_status none detail = ok tt
check_status (some active) detail = ok tt
check_status (some paused) detail = ok tt
check_status (some complete) detail = if is_empty detail then err evidence_required else ok tt
check_status (some blocked) detail = if is_empty detail then err blocker_required else ok tt
check_status (some (other s)) detail = err (invalid_status (other s))

abbrev event : ℕ → EventKind → Text → Event
event now kind detail = record {
  at = now;
  kind = kind;
  detail = detail;
  tokens = pos 0;
  turns = pos 0;
}

change_objective : Option Text → Goal → ℕ → Goal
change_objective none g now = g
change_objective (some objective) g now = record g {
  objective = objective;
  history = g.history ++ event now objective_updated objective ∷ [];
}

is_paused : Status → Bool
is_paused paused = true
is_paused _ = false

-- The switch on the new status.
enter_status : Status → Text → Goal → ℕ → Goal
unfolding is_paused
enter_status active detail g now = record g {
  active_since = if is_paused g.status then some now else g.active_since;
  blocker = [];
}
enter_status paused detail g now = freeze_active_duration g now
enter_status complete detail g now = record (freeze_active_duration g now) { evidence = detail }
enter_status blocked detail g now = record (freeze_active_duration g now) { blocker = detail }
enter_status (other s) detail g now = g

change_status : Option Status → Text → Goal → ℕ → Goal
unfolding enter_status
change_status none detail g now = g
change_status (some s) detail g now =
    let g' = enter_status s detail g now in
    record g' { status = s; history = g'.history ++ event now (status_changed s) detail ∷ [] }

-- The change that `Update` makes to a goal.
pub apply_patch : Option Text → Option Status → Text → Goal → ℕ → Result Goal
unfolding change_objective change_status
apply_patch objective status detail g now =
    if closed g
    then err goal_closed
    else ok (change_status status detail (change_objective objective g now) now)

abbrev pub is_none {ℓ} : {A : Type ℓ} → Option A → Bool
is_none none = true
is_none (some _) = false

abbrev pub normalized : Option Text → Result (Option Text)
normalized none = ok none
normalized (some value) = elim (normalize_objective value) [
  | none ↦ err empty_objective
  | some objective ↦ ok (some objective)
]

update_checked :
    World
    → File
    → Option Status
    → Text
    → Result (Option Text)
    → Result (Unit {0})
    → File × Result Goal
update_checked world file status detail (err e) checked = (file, err e)
update_checked world file status detail (ok objective) (err e) = (file, err e)
update_checked world file status detail (ok objective) (ok _) =
    mutate world file (apply_patch objective status detail)

-- Update
unfoldable pub update : World → File → Patch → File × Result Goal
unfolding update_checked check_status
update world file patch =
    if is_none patch.objective && is_none patch.status
    then (file, err empty_update)
    else let detail = trim_space patch.detail in
      update_checked world file patch.status detail (normalized patch.objective)
        (check_status patch.status detail)

-- UpdateObjective and SetStatus
unfoldable pub update_objective : World → File → Text → File × Result Goal
update_objective world file objective =
    update world file (record { objective = some objective; status = none; detail = [] })

unfoldable pub set_status : World → File → Status → Text → File × Result Goal
set_status world file status detail =
    update world file (record { objective = none; status = some status; detail = detail })

-- The change that `RecordTurn` makes to a goal.
pub add_turn : ℤ → Goal → ℕ → Result Goal
add_turn tokens g now =
    if not (is_active g.status)
    then err (not_active g.status)
    else ok (record g {
      turns_used = wrap64 (g.turns_used +ℤ pos 1);
      tokens_used = wrap64 (g.tokens_used +ℤ tokens);
      history =
          g.history
          ++ record { at = now; kind = turn; detail = []; tokens = tokens; turns = pos 1 } ∷ [];
    })

abbrev with_reason : ℕ → Result Goal → Result (Goal × LimitReason)
with_reason later (err e) = err e
with_reason later (ok g) = ok (g, limit_reached g later)

-- RecordTurn; `later` is the second reading of the clock.
unfoldable pub record_turn : World → ℕ → File → ℤ → File × Result (Goal × LimitReason)
record_turn world later file tokens =
    if ltb_ℤ tokens (pos 0)
    then (file, err negative_tokens)
    else let (file', r) = mutate world file (add_turn tokens) in (file', with_reason later r)

-- What os.Remove gives.
pub data RemoveResult : Type 0 where
  removed not_exist remove_failed : RemoveResult

remove_file : RemoveResult → File → File × Result (Unit {0})
remove_file removed file = (missing, ok tt)
remove_file not_exist file = (file, ok tt)
remove_file remove_failed file = (file, err clear_failed)

-- Clear
unfoldable pub clear : World → RemoveResult → File → File × Result (Unit {0})
unfolding remove_file
clear world result file = if world.ctx_done then (file, err cancelled) else remove_file result file
