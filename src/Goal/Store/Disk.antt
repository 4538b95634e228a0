-- ===== src/Goal/Store/Disk.antt =====
-- internal/goal/store.go: how a goal is written to its file.
use midas.Common.{ℕ, ◌≡◌, refl, Bool, true, false, Option, none, some, if◌then◌else◌, ◌==◌, ◌&&◌}
use midas.Goal.{Goal}

-- What reading the file gives: nothing, an error, text that does not decode, or the version and the
-- goal of an envelope.
pub data File : Type 0 where
  missing unreadable undecodable : File
  envelope : ℕ → Goal → File

pub data WriteStep : Type 0 where
  make_directory encode create_temporary protect write_temporary sync close : WriteStep
  rename open_directory sync_directory : WriteStep

abbrev pub step_number : WriteStep → ℕ
step_number make_directory = 0
step_number encode = 1
step_number create_temporary = 2
step_number protect = 3
step_number write_temporary = 4
step_number sync = 5
step_number close = 6
step_number rename = 7
step_number open_directory = 8
step_number sync_directory = 9

-- A call of `write` under way: the goal's file, whether the call's temporary file is there, and the
-- step that failed.
pub record Writing : Type 0 where
  pub file : File
  pub temporary : Bool
  pub failed : Option WriteStep

abbrev is_fault : Option WriteStep → WriteStep → Bool
is_fault none step = false
is_fault (some f) step = step_number f == step_number step

-- One step of the body, unless an earlier one failed.
attempt : Option WriteStep → WriteStep → (Writing → Writing) → Writing → Writing
attempt fault step effect w = elim w.failed [
  | some e ↦ w
  | none ↦ if is_fault fault step then record w { failed = some step } else effect w
]

abbrev no_effect : Writing → Writing
no_effect w = w

abbrev create : Writing → Writing
create w = record w { temporary = true }

abbrev replace : Goal → Writing → Writing
replace g w = record w { file = envelope 1 g; temporary = false }

-- The deferred removal of the temporary file, which the rename has taken away. Its error is ignored.
abbrev clean_up : Bool → Writing → Writing
clean_up true w = w
clean_up false w = record w { temporary = false }

-- write; `fault` is the step that fails, if one does, and `removal_fails` says whether os.Remove
-- would fail on the temporary file.
unfoldable pub write : File → Goal → Option WriteStep → Bool → Writing
unfolding attempt
write file g fault removal_fails =
    let start : Writing = record { file = file; temporary = false; failed = none } in
    let w1 = attempt fault make_directory no_effect start in
    let w2 = attempt fault encode no_effect w1 in
    let w3 = attempt fault create_temporary create w2 in
    let w4 = attempt fault protect no_effect w3 in
    let w5 = attempt fault write_temporary no_effect w4 in
    let w6 = attempt fault sync no_effect w5 in
    let w7 = attempt fault close no_effect w6 in
    let w8 = attempt fault rename (replace g) w7 in
    let w9 = attempt fault open_directory no_effect w8 in
    let w10 = attempt fault sync_directory no_effect w9 in clean_up removal_fails w10

-- Without a fault the file holds the goal. With one before the replacement is complete the file is
-- what it was; where only the directory could not be synced the file holds the goal although an
-- error is returned.
abbrev pub Wrote : File → Goal → Option WriteStep → Writing → Type 0
Wrote file g none w = (w.file ≡ envelope 1 g) × (w.failed ≡ none)
Wrote file g (some open_directory) w = (w.file ≡ envelope 1 g) × (w.failed ≡ some open_directory)
Wrote file g (some sync_directory) w = (w.file ≡ envelope 1 g) × (w.failed ≡ some sync_directory)
Wrote file g (some step) w = (w.file ≡ file) × (w.failed ≡ some step)

-- The steps between the creation of the temporary file and the end of the rename.
abbrev pub strands : Option WriteStep → Bool
strands (some protect) = true
strands (some write_temporary) = true
strands (some sync) = true
strands (some close) = true
strands (some rename) = true
strands _ = false

-- A call of `write` returns an error exactly if a step failed, and replaces the file as a whole or
-- not at all: the new goal stands in it if no step up to the rename failed, else it is untouched.
-- Its temporary file stays behind exactly if a step between its creation and the end of the rename
-- failed and its removal fails too.
pub write_atomic :
    (file : File) (g : Goal) (fault : Option WriteStep) (removal_fails : Bool)
    → Wrote file g fault (write file g fault removal_fails)
      × ((write file g fault removal_fails).temporary ≡ (removal_fails && strands fault))
unfolding write
write_atomic file g none true = ((refl, refl), refl)
write_atomic file g none false = ((refl, refl), refl)
write_atomic file g (some make_directory) true = ((refl, refl), refl)
write_atomic file g (some make_directory) false = ((refl, refl), refl)
write_atomic file g (some _) true = ((refl, refl), refl)
write_atomic file g (some _) false = ((refl, refl), refl)

pub write_clean :
    (file : File) (g : Goal) (removal_fails : Bool)
    → write file g none removal_fails
      ≡ record { file = envelope 1 g; temporary = false; failed = none }
unfolding write
write_clean file g true = refl
write_clean file g false = refl
