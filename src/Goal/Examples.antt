-- ===== src/Goal/Examples.antt =====
-- internal/goal: the theorems and the definitions at concrete inputs.
use midas.Common.{ℕ, ◌≡◌, refl, true, false, none, some, List, [], ◌∷◌, arith}
use midas.Common.Int.{pos}
use midas.Common.Text.{codes}
use midas.Goal.{Limits, Goal, active, complete}
use midas.Goal.Store.{World, read}
use midas.Goal.Store.Disk.{missing, envelope, sync, write, write_atomic}
use midas.Goal.Store.Calls.{Patch, update, record_turn}
use midas.Goal.Store.Calls.Files.{
  FileIsValid, Call, create_call, update_call, turn_call, after_calls, FileIsValid-after_calls,
}
use midas.Goal.Store.Calls.Turns.{
  Refuses, closed_is_final, Counted, TurnCall, record_turns, Counted-record_turns,
}

abbrev limits : Limits
limits = record { token_budget = pos 0; max_turns = pos 3; max_duration = pos 0 }

abbrev at : ℕ → World
at now = record {
  ctx_done = false;
  now = now;
  id = some (codes "c0ffee");
  fault = none;
  removal_fails = true;
}

abbrev ship : Goal
ship = record {
  id = codes "goal_c0ffee";
  objective = codes "ship";
  status = active;
  created_at = 10;
  updated_at = 10;
  active_since = some 10;
  active_duration_ms = pos 0;
  token_budget = pos 0;
  tokens_used = pos 0;
  max_turns = pos 3;
  turns_used = pos 0;
  max_duration_ms = pos 0;
  evidence = [];
  blocker = [];
  history = [];
}

abbrev shipped : Goal
shipped = record ship { status = complete; active_since = none; evidence = codes "v1" }

abbrev finish : Patch
finish = record { objective = none; status = some complete; detail = codes "v1" }

abbrev session : List Call
session =
    create_call (at 10) (codes " ship ") limits
    ∷ turn_call (at 20) 21 (pos 400)
    ∷ update_call (at 30) finish
    ∷ []

FileIsValid-after_calls_example : FileIsValid (after_calls missing session)
FileIsValid-after_calls_example = FileIsValid-after_calls missing session tt

write_atomic_example :
    ((write missing ship (some sync) true).file ≡ missing)
    × ((write missing ship (some sync) true).failed ≡ some sync)
    × ((write missing ship (some sync) true).temporary ≡ true)
write_atomic_example = let (w, t) = write_atomic missing ship (some sync) true in (w.0, w.1, t)

closed_is_final_example :
    Refuses (envelope 1 shipped) (update (at 40) (envelope 1 shipped) finish)
    × Refuses (envelope 1 shipped) (record_turn (at 40) 41 (envelope 1 shipped) (pos 5))
unfolding read
closed_is_final_example =
    closed_is_final (at 40) 41 (envelope 1 shipped) shipped finish (pos 5) refl refl

abbrev two_turns : List TurnCall
two_turns = (at 20, 21, pos 100) ∷ (at 30, 31, pos 50) ∷ []

Counted-record_turns_example : Counted 2 (record_turns two_turns (envelope 1 ship))
unfolding Counted read
Counted-record_turns_example =
    Counted-record_turns two_turns (envelope 1 ship) 0
      (
        record { live = refl; writes = refl; counts = refl },
        (record { live = refl; writes = refl; counts = refl }, tt),
      )
      (omega arith) (ship, refl, refl, refl)
