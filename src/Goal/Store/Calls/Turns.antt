-- ===== src/Goal/Store/Calls/Turns.antt =====
-- internal/goal/store.go: turns are counted, and a closed goal stays as it is.
use midas.Common.{
  ℕ, suc, ◌+◌, ◌^◌, ◌<◌, ◌≡◌, refl, ◌∙◌, ap, Bool, true, false, not, ◌&&◌, Option, none, some, List,
  [], ◌∷◌, ◌++◌, arith, length, if◌then◌else◌, All,
}
use midas.Common.Int.{ℤ, pos, ◌+ℤ◌, ltb_ℤ, wrap64, wrap64-id}
use midas.Common.Text.{Text, is_empty, trim_space}
use midas.Goal.{Goal, closed, is_active, turn}
use midas.Goal.Store.Disk.{write_clean, WriteStep, File, envelope, write}
use midas.Goal.Store.{
  GoalError, goal_closed, empty_update, write_failed, not_active, cancelled, negative_tokens, World,
  found, read, Result, ok, err, save, trim_history, finish_mutate, mutate_found, mutate,
}
use midas.Goal.Store.Calls.{
  check_status, apply_patch, update_checked, update, Patch, add_turn, record_turn, is_none,
  normalized, with_reason,
}

abbrev pub is_ok {ℓ} : {A : Type ℓ} → Result A → Bool
is_ok (ok _) = true
is_ok (err _) = false

-- The call fails and leaves the file.
abbrev pub Refuses {ℓ} : {A : Type ℓ} → File → File × Result A → Type 0
Refuses file r = (r.0 ≡ file) × (is_ok r.1 ≡ false)

Refuses-if {ℓ} :
    {A : Type ℓ} (file : File) (b : Bool) (x y : File × Result A)
    → Refuses file x
    → Refuses file y
    → Refuses file (if b then x else y)
Refuses-if file true x y h k = h
Refuses-if file false x y h k = k

Refuses-mutate :
    (world : World) (file : File) (g : Goal) (change : Goal → ℕ → Result Goal) (e : GoalError)
    → read file ≡ found g
    → change g world.now ≡ err e
    → Refuses file (mutate world file change)
unfolding mutate finish_mutate
Refuses-mutate world file g change e r c =
    Refuses-if file world.ctx_done (file, err cancelled)
      (mutate_found world file change (read file)) (refl, refl)
      (rw (r, c, finish_mutate) (refl, refl))

update_closed :
    (world : World) (file : File) (g : Goal) (patch : Patch)
    → read file ≡ found g
    → closed g ≡ true
    → Refuses file (update world file patch)
unfolding update
update_closed world file g patch r c =
    Refuses-if file (is_none patch.objective && is_none patch.status) (file, err empty_update)
      (update_checked world file patch.status (trim_space patch.detail) (normalized patch.objective)
        (check_status patch.status (trim_space patch.detail)))
      (refl, refl)
      (checked (normalized patch.objective) (check_status patch.status (trim_space patch.detail)))
  where
    refused :
        (o : Option Text)
        → apply_patch o patch.status (trim_space patch.detail) g world.now ≡ err goal_closed
    refused o = unfold apply_patch in (rw c)

    checked :
        (o : Result (Option Text)) (s : Result (Unit {0}))
        → Refuses file (update_checked world file patch.status (trim_space patch.detail) o s)
    checked (err e) s = (refl, refl)
    checked (ok o) (err e) = (refl, refl)
    checked (ok o) (ok _) =
        Refuses-mutate world file g (apply_patch o patch.status (trim_space patch.detail))
          goal_closed r (refused o)

turn_refused :
    (world : World) (later : ℕ) (file : File) (tokens : ℤ)
    → Refuses file (mutate world file (add_turn tokens))
    → Refuses file (record_turn world later file tokens)
unfolding record_turn
turn_refused world later file tokens h =
    Refuses-reason (ltb_ℤ tokens (pos 0)) (mutate world file (add_turn tokens)) h
  where
    Refuses-reason :
        (b : Bool) (r : File × Result Goal)
        → Refuses file r
        → Refuses file (if b then (file, err negative_tokens) else (r.0, with_reason later r.1))
    Refuses-reason true r k = (refl, refl)
    Refuses-reason false (f, ok g) k = ground arith
    Refuses-reason false (f, err e) k = k

closed_not_active : (g : Goal) → closed g ≡ true → is_active g.status ≡ false
closed_not_active g c = ground arith

turn_closed :
    (world : World) (later : ℕ) (file : File) (g : Goal) (tokens : ℤ)
    → read file ≡ found g
    → closed g ≡ true
    → Refuses file (record_turn world later file tokens)
turn_closed world later file g tokens r c =
    turn_refused world later file tokens
      (Refuses-mutate world file g (add_turn tokens) (not_active g.status) r refused)
  where
    refused : add_turn tokens g world.now ≡ err (not_active g.status)
    refused = unfold add_turn in (rw (closed_not_active g c))

-- With a closed goal in the file every update and every turn fails and leaves the file as it is.
pub closed_is_final :
    (world : World) (later : ℕ) (file : File) (g : Goal) (patch : Patch) (tokens : ℤ)
    → read file ≡ found g
    → closed g ≡ true
    → Refuses file (update world file patch) × Refuses file (record_turn world later file tokens)
closed_is_final world later file g patch tokens r c =
    (update_closed world file g patch r c, turn_closed world later file g tokens r c)

-- A turn of a run in which nothing fails.
pub record Clean (world : World) (tokens : ℤ) : Type 0 where
  pub live : world.ctx_done ≡ false
  pub writes : world.fault ≡ none
  pub counts : ltb_ℤ tokens (pos 0) ≡ false

-- The file holds an active goal that has used `k` turns.
unfoldable pub Counted : ℕ → File → Type 0
Counted k file =
    (g : Goal) × (read file ≡ found g) × (is_active g.status ≡ true) × (g.turns_used ≡ pos k)

if-false {ℓ} : {A : Type ℓ} (b : Bool) (x y : A) → b ≡ false → (if b then x else y) ≡ y
if-false b x y e = rw e

stamped : Goal → ℕ → Goal
stamped g now = trim_history (record g { updated_at = now })

save_clean :
    (world : World) (file : File) (g : Goal)
    → world.fault ≡ none
    → save world file g ≡ (envelope 1 g, ok g)
unfolding save
save_clean world file g e = clean world.fault e
  where
    clean :
        (fault : Option WriteStep)
        → fault ≡ none
        → ◌≡◌ {A = File × Result Goal}
            (
              (write file g fault world.removal_fails).file,
              elim (write file g fault world.removal_fails).failed [
                | none ↦ ok g
                | some step ↦ err (write_failed step)
              ],
            )
            (envelope 1 g, ok g)
    clean none e = rw (write_clean file g world.removal_fails)
    clean (some step) e = ground arith

mutate_clean :
    (world : World) (file : File) (change : Goal → ℕ → Result Goal) (g g' : Goal)
    → world.ctx_done ≡ false
    → world.fault ≡ none
    → read file ≡ found g
    → change g world.now ≡ ok g'
    → mutate world file change ≡ (envelope 1 (stamped g' world.now), ok (stamped g' world.now))
unfolding mutate finish_mutate stamped
mutate_clean world file change g g' l w r c =
    if-false world.ctx_done (file, err cancelled) (mutate_found world file change (read file)) l
    ∙ rw (r, c, finish_mutate) (save_clean world file (stamped g' world.now) w)

stamped_lem :
    (g : Goal) (now : ℕ)
    → ((stamped g now).status ≡ g.status)
      × ((stamped g now).turns_used ≡ g.turns_used)
      × ((stamped g now).id ≡ g.id)
unfolding stamped trim_history
stamped_lem g now = ground arith

read_named : (file : File) (g : Goal) → read file ≡ found g → is_empty g.id ≡ false
unfolding read
read_named file g e = ground arith

read_stamped : (g : Goal) → is_empty g.id ≡ false → read (envelope 1 g) ≡ found g
unfolding read
read_stamped g e = rw e

pos-suc : (k : ℕ) → pos k +ℤ pos 1 ≡ pos (suc k)
unfolding ◌+ℤ◌
pos-suc k = ground arith

add_turn_active :
    (tokens : ℤ) (g : Goal) (now k : ℕ)
    → is_active g.status ≡ true
    → g.turns_used ≡ pos k
    → suc k < 2 ^ 63
    → (g' : Goal) × (add_turn tokens g now ≡ ok g')
      × (g'.status ≡ g.status)
      × (g'.turns_used ≡ pos (suc k))
      × (g'.id ≡ g.id)
unfolding add_turn
add_turn_active tokens g now k a t b = (
  record g {
    turns_used = wrap64 (g.turns_used +ℤ pos 1);
    tokens_used = wrap64 (g.tokens_used +ℤ tokens);
    history =
        g.history
        ++ record { at = now; kind = turn; detail = []; tokens = tokens; turns = pos 1 } ∷ [];
  },
  if-false (not (is_active g.status)) (err (not_active g.status)) _ (rw a),
  refl,
  ap (λ x. wrap64 (x +ℤ pos 1)) t ∙ next,
  refl,
)
  where
    next : wrap64 (pos k +ℤ pos 1) ≡ pos (suc k)
    next = ap wrap64 (pos-suc k) ∙ wrap64-id (pos (suc k)) b (omega arith)

record_turn_file :
    (world : World) (later : ℕ) (file : File) (tokens : ℤ)
    → ltb_ℤ tokens (pos 0) ≡ false
    → (record_turn world later file tokens).0 ≡ (mutate world file (add_turn tokens)).0
unfolding record_turn
record_turn_file world later file tokens e = rw e

Counted-turn :
    (world : World) (later : ℕ) (file : File) (tokens : ℤ) (k : ℕ)
    → Clean world tokens
    → suc k < 2 ^ 63
    → Counted k file
    → Counted (suc k) (record_turn world later file tokens).0
unfolding Counted
Counted-turn world later file tokens k h b (g, r, a, t) =
    let (g', c, s, u, i) = add_turn_active tokens g world.now k a t b in
    let e : (record_turn world later file tokens).0 ≡ envelope 1 (stamped g' world.now) =
      record_turn_file world later file tokens h.counts
      ∙ ap (λ p. p.0) (mutate_clean world file (add_turn tokens) g g' h.live h.writes r c) in
    let (s', u', i') = stamped_lem g' world.now in
    rw e (
      stamped g' world.now,
      read_stamped (stamped g' world.now) (rw (i', i) (read_named file g r)),
      rw (s', s) a,
      u' ∙ u,
    )

-- One turn of a run: its world, the second reading of its clock, its tokens.
abbrev pub TurnCall : Type 0
TurnCall = World × ℕ × ℤ

unfoldable pub record_turns : List TurnCall → File → File
record_turns [] file = file
record_turns ((world, later, tokens) ∷ calls) file =
    record_turns calls (record_turn world later file tokens).0

add-zero : (k : ℕ) → k + 0 ≡ k
add-zero k = omega arith

add-suc : (k n : ℕ) → k + suc n ≡ suc k + n
add-suc k n = omega arith

-- Recording turns none of which fails, short of the greatest int64, leaves an active goal whose count of turns grew by
-- the number of those calls.
pub Counted-record_turns :
    (calls : List TurnCall) (file : File) (k : ℕ)
    → All (λ c. Clean c.0 c.2) calls
    → k + length calls < 2 ^ 63
    → Counted k file
    → Counted (k + length calls) (record_turns calls file)
unfolding record_turns
Counted-record_turns [] file k h b c = rw (add-zero k) c
Counted-record_turns ((world, later, tokens) ∷ calls) file k h b c = rw (add-suc k (length calls)) (
    Counted-record_turns calls (record_turn world later file tokens).0 (suc k) h.1 (omega arith)
      (Counted-turn world later file tokens k h.0 (omega arith) c))
