-- ===== src/Goal/Store/Calls/Files.antt =====
-- internal/goal/store.go: every method keeps the goal in the file valid.
use midas.Common.{
  ℕ, ◌≡◌, refl, Bool, true, false, not, ◌&&◌, Option, none, some, List, [], ◌∷◌, arith, Bool-cases,
  inl, inr, if◌then◌else◌,
}
use midas.Common.Int.{ℤ, pos, ltb_ℤ}
use midas.Common.Text.{Text, text_eq, trim_space}
use midas.Goal.{Status, Limits, Goal, closed, normalize_objective, validate_limits}
use midas.Goal.Store.Disk.{
  open_directory, sync_directory, File, missing, unreadable, undecodable, envelope, write,
  WriteStep, Wrote, write_atomic,
}
use midas.Goal.Store.{
  cancelled, negative_limits, World, ReadResult, found, not_found, bad, read, Result, ok, err, save,
  finish_mutate, mutate_found, mutate,
}
use midas.Goal.Store.Calls.{
  new_goal, new_id, create_new, create_beside, create, check_status, is_none, normalized,
  create_with, create_normalized, saved, reused, conflicting, failed, removed, not_exist,
  remove_failed, remove_file, apply_patch, update_checked, update, Patch, add_turn, record_turn,
  clear, RemoveResult,
}
use midas.Goal.Store.Calls.Sound.{
  IsSound, IsValid, IsSound-apply_patch, IsSound-add_turn, IsValid-trim, IsValid-new_goal,
}

-- The goal in the file, if there is one, is valid.
abbrev pub FileIsValid : File → Type 0
FileIsValid (envelope version g) = IsValid g
FileIsValid _ = Unit

FileIsValid-if {ℓ} :
    {R : Type ℓ} (b : Bool) (x y : File × R)
    → FileIsValid x.0
    → FileIsValid y.0
    → FileIsValid (if b then x else y).0
FileIsValid-if true x y h k = h
FileIsValid-if false x y h k = k

FileIsValid-save :
    (world : World) (file : File) (g : Goal)
    → IsValid g
    → FileIsValid file
    → FileIsValid (save world file g).0
unfolding save
FileIsValid-save world file g h k =
    file_of world.fault (write_atomic file g world.fault world.removal_fails).0
  where
    file_of :
        (fault : Option WriteStep)
        → Wrote file g fault (write file g world.fault world.removal_fails)
        → FileIsValid (write file g world.fault world.removal_fails).file
    file_of none w = rw w.0 h
    file_of (some open_directory) w = rw w.0 h
    file_of (some sync_directory) w = rw w.0 h
    file_of (some _) w = rw w.0 k

FileIsValid-finish :
    (world : World) (file : File) (r : Result Goal)
    → ((g : Goal) → r ≡ ok g → IsSound g)
    → FileIsValid file
    → FileIsValid (finish_mutate world file r).0
unfolding finish_mutate
FileIsValid-finish world file (err e) h k = k
FileIsValid-finish world file (ok g) h k =
    FileIsValid-save world file _ (IsValid-trim g world.now (h g refl)) k

-- What is read from a file with a valid goal.
IsValid-read : (file : File) (g : Goal) → FileIsValid file → read file ≡ found g → IsValid g
unfolding read
IsValid-read missing g h e = cc
IsValid-read unreadable g h e = cc
IsValid-read undecodable g h e = cc
IsValid-read (envelope v g0) g h e = ground arith

FileIsValid-mutate :
    (world : World) (file : File) (change : Goal → ℕ → Result Goal)
    → ((g g' : Goal) (now : ℕ) → IsSound g → change g now ≡ ok g' → IsSound g')
    → FileIsValid file
    → FileIsValid (mutate world file change).0
unfolding mutate
FileIsValid-mutate world file change keep h =
    FileIsValid-if world.ctx_done (file, err cancelled) (mutate_found world file change (read file))
      h (of_read (read file) refl)
  where
    of_read : (r : ReadResult) → read file ≡ r → FileIsValid (mutate_found world file change r).0
    of_read (found g) e =
        FileIsValid-finish world file (change g world.now)
          (λ g' e'. keep g g' world.now (IsValid-read file g h e).sound e') h
    of_read not_found e = h
    of_read (bad x) e = h

FileIsValid-record_turn :
    (world : World) (later : ℕ) (file : File) (tokens : ℤ)
    → FileIsValid file
    → FileIsValid (record_turn world later file tokens).0
unfolding record_turn
FileIsValid-record_turn world later file tokens h = elim (Bool-cases (ltb_ℤ tokens (pos 0))) [
  | inl c ↦ rw (c, record_turn) h
  | inr c ↦
      rw (c, record_turn)
        (FileIsValid-mutate world file (add_turn tokens)
          (λ g g' now s e. IsSound-add_turn tokens g g' now e s) h)
]

FileIsValid-update_checked :
    (world : World) (file : File) (status : Option Status) (detail : Text)
    (objective : Result (Option Text)) (checked : Result (Unit {0}))
    → check_status status detail ≡ checked
    → FileIsValid file
    → FileIsValid (update_checked world file status detail objective checked).0
unfolding update_checked
FileIsValid-update_checked world file status detail (err e) checked c h = h
FileIsValid-update_checked world file status detail (ok o) (err e) c h = h
FileIsValid-update_checked world file status detail (ok o) (ok _) c h =
    FileIsValid-mutate world file (apply_patch o status detail)
      (λ g g' now s e. IsSound-apply_patch o status detail g g' now c e s) h

FileIsValid-update :
    (world : World) (file : File) (patch : Patch)
    → FileIsValid file
    → FileIsValid (update world file patch).0
unfolding update
FileIsValid-update world file patch h =
    elim (Bool-cases (is_none patch.objective && is_none patch.status)) [
      | inl c ↦ rw (c, update) h
      | inr c ↦
          rw (c, update)
            (FileIsValid-update_checked world file patch.status (trim_space patch.detail)
              (normalized patch.objective) (check_status patch.status (trim_space patch.detail))
              refl h)
    ]

FileIsValid-clear :
    (world : World) (result : RemoveResult) (file : File)
    → FileIsValid file
    → FileIsValid (clear world result file).0
unfolding clear
FileIsValid-clear world result file h =
    FileIsValid-if world.ctx_done (file, err cancelled) (remove_file result file) h
      (after_remove result)
  where
    after_remove : (r : RemoveResult) → FileIsValid (remove_file r file).0
    after_remove removed = tt
    after_remove not_exist = h
    after_remove remove_failed = h

FileIsValid-create_new :
    (world : World) (file : File) (objective : Text) (limits : Limits)
    → FileIsValid file
    → FileIsValid (create_new world file objective limits).0
unfolding create_new
FileIsValid-create_new world file objective limits h = from_bytes world.id
  where
    after_save : (r : File × Result Goal) → FileIsValid r.0 → FileIsValid (saved r).0
    after_save (f, ok g) k = k
    after_save (f, err e) k = k

    from_bytes : (id : Option Text) → FileIsValid (create_with world file objective limits id).0
    from_bytes none = h
    from_bytes (some hex) =
        let g = new_goal (new_id hex) objective limits world.now in
        after_save (save world file g)
          (FileIsValid-save world file g (IsValid-new_goal hex objective limits world.now) h)

FileIsValid-create_beside :
    (world : World) (file : File) (objective : Text) (limits : Limits) (r : ReadResult)
    → FileIsValid file
    → FileIsValid (create_beside world file objective limits r).0
unfolding create_beside
FileIsValid-create_beside world file objective limits (bad e) h = h
FileIsValid-create_beside world file objective limits not_found h =
    FileIsValid-create_new world file objective limits h
FileIsValid-create_beside world file objective limits (found g) h =
    FileIsValid-if (closed g) (create_new world file objective limits)
      (if text_eq g.objective objective then (file, reused g) else (file, conflicting g))
      (FileIsValid-create_new world file objective limits h)
      (FileIsValid-if (text_eq g.objective objective) (file, reused g) (file, conflicting g) h h)

FileIsValid-create_normalized :
    (world : World) (file : File) (limits : Limits) (objective : Option Text)
    → FileIsValid file
    → FileIsValid (create_normalized world file limits objective).0
unfolding create_normalized
FileIsValid-create_normalized world file limits none h = h
FileIsValid-create_normalized world file limits (some objective) h =
    FileIsValid-if (not (validate_limits limits)) (file, failed negative_limits)
      (if world.ctx_done
        then (file, failed cancelled)
        else create_beside world file objective limits (read file))
      h
      (FileIsValid-if world.ctx_done (file, failed cancelled)
        (create_beside world file objective limits (read file)) h
        (FileIsValid-create_beside world file objective limits (read file) h))

-- The methods of the store, each with what the world does during it.
pub data Call : Type 0 where
  create_call : World → Text → Limits → Call
  update_call : World → Patch → Call
  turn_call : World → ℕ → ℤ → Call
  clear_call : World → RemoveResult → Call

pub after_call : File → Call → File
after_call file (create_call world value limits) = (create world file value limits).0
after_call file (update_call world patch) = (update world file patch).0
after_call file (turn_call world later tokens) = (record_turn world later file tokens).0
after_call file (clear_call world result) = (clear world result file).0

pub after_calls : File → List Call → File
after_calls file [] = file
after_calls file (c ∷ cs) = after_calls (after_call file c) cs

FileIsValid-after_call :
    (file : File) (c : Call) → FileIsValid file → FileIsValid (after_call file c)
unfolding after_call create
FileIsValid-after_call file (create_call world value limits) h =
    FileIsValid-create_normalized world file limits (normalize_objective value) h
FileIsValid-after_call file (update_call world patch) h = FileIsValid-update world file patch h
FileIsValid-after_call file (turn_call world later tokens) h =
    FileIsValid-record_turn world later file tokens h
FileIsValid-after_call file (clear_call world result) h = FileIsValid-clear world result file h

-- Whatever is called, with whatever faults of the disk, clock and context, a file that holds no
-- goal or a valid one still does: its status is one of the four, its clock runs exactly while it is
-- active, a complete goal has its evidence and a blocked one its blocker, and its history has at
-- most 500 events.
pub FileIsValid-after_calls :
    (file : File) (cs : List Call) → FileIsValid file → FileIsValid (after_calls file cs)
unfolding after_calls
FileIsValid-after_calls file [] h = h
FileIsValid-after_calls file (c ∷ cs) h =
    FileIsValid-after_calls (after_call file c) cs (FileIsValid-after_call file c h)
