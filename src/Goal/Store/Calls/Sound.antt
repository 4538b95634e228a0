-- ===== src/Goal/Store/Calls/Sound.antt =====
-- internal/goal/store.go: what every method keeps of the goal in the file.
use midas.Common.{
  ℕ, ◌-◌, ◌≤◌, ◌≡◌, Bool, true, false, Option, none, some, arith, length, length-drop,
}
use midas.Common.Int.{ℤ}
use midas.Common.Text.{Text, is_empty}
use midas.Goal.{Status, complete, blocked, other, Limits, Goal, is_active}
use midas.Goal.Store.{ok, trim_history, freeze_active_duration, max_goal_history}
use midas.Goal.Store.Calls.{new_goal, new_id, check_status, apply_patch, add_turn}

abbrev pub is_some {ℓ} : {A : Type ℓ} → Option A → Bool
is_some none = false
is_some (some _) = true

abbrev pub is_complete : Status → Bool
is_complete complete = true
is_complete _ = false

abbrev pub is_blocked : Status → Bool
is_blocked blocked = true
is_blocked _ = false

abbrev pub is_known : Status → Bool
is_known (other _) = false
is_known _ = true

-- The status is one of the four, the clock runs exactly while the goal is active, a complete goal has its evidence, a blocked one
-- its blocker, and the goal has an id.
pub record IsSound (g : Goal) : Type 0 where
  pub clock : is_some g.active_since ≡ is_active g.status
  pub proven : is_complete g.status ≡ true → is_empty g.evidence ≡ false
  pub explained : is_blocked g.status ≡ true → is_empty g.blocker ≡ false
  pub known : is_known g.status ≡ true
  pub named : is_empty g.id ≡ false

-- Such a goal with a bounded history.
pub record IsValid (g : Goal) : Type 0 where
  pub sound : IsSound g
  pub short : length g.history ≤ max_goal_history

pub IsSound-apply_patch :
    (objective : Option Text) (status : Option Status) (detail : Text) (g g' : Goal) (now : ℕ)
    → check_status status detail ≡ ok tt
    → apply_patch objective status detail g now ≡ ok g'
    → IsSound g
    → IsSound g'
unfolding apply_patch check_status freeze_active_duration
IsSound-apply_patch objective status detail g g' now c e h = ground arith

pub IsSound-add_turn :
    (tokens : ℤ) (g g' : Goal) (now : ℕ) → add_turn tokens g now ≡ ok g' → IsSound g → IsSound g'
unfolding add_turn
IsSound-add_turn tokens g g' now e h = ground arith

pub IsValid-trim :
    (g : Goal) (now : ℕ) → IsSound g → IsValid (trim_history (record g { updated_at = now }))
unfolding trim_history
IsValid-trim g now h = ground (arith, length-drop (length g.history - max_goal_history) g.history)

pub IsValid-new_goal :
    (hex objective : Text) (limits : Limits) (now : ℕ)
    → IsValid (new_goal (new_id hex) objective limits now)
unfolding new_goal
IsValid-new_goal hex objective limits now = ground arith
