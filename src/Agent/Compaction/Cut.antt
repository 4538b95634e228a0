-- ===== src/Agent/Compaction/Cut.antt =====
-- pkg/agent/compaction.go: where `PlanCompaction` cuts.
use midas.Common.{
  ℕ, zero, suc, ◌+◌, ◌≤◌, ◌<◌, ◌≡◌, refl, false, none, some, List, [], ◌∷◌, ◌++◌, inl, inr,
  if◌then◌else◌, length, drop, take, get_elem?, arith, Bool-cases, Option-cases, drop_all,
  take-append-drop, length-drop, drop-drop, length-take,
}
use midas.Common.Int.{ℤ, pos, ◌<ℤ◌}
use native.Mathlib.Nat.{add-zero, add-suc, le_refl}
use midas.Ai.Message.{Message}
use midas.Agent.Compaction.{
  estimate_tokens, is_tool_result, skip_tool_results, valid_cut_index, estimate_at, find_cut,
  split_at_cut, cut_messages, plan_compaction,
}

abbrev pub total_estimate : List Message → ℕ
total_estimate [] = 0
total_estimate (m ∷ ms) = estimate_tokens m + total_estimate ms

-- The first message of a list, if it has one, is no tool result.
abbrev pub StartsTurn : List Message → Type 0
StartsTurn [] = Unit
StartsTurn (m ∷ _) = is_tool_result m ≡ false

-- The number of tool results that a list starts with.
leading : List Message → ℕ
leading [] = 0
leading (m ∷ ms) = if is_tool_result m then suc (leading ms) else 0

leading-le : (ms : List Message) → leading ms ≤ length ms
unfolding leading
leading-le [] = omega arith
leading-le (m ∷ ms) = ground (arith, leading-le ms)

leading-StartsTurn : (ms : List Message) → StartsTurn (drop (leading ms) ms)
unfolding leading
leading-StartsTurn [] = tt
leading-StartsTurn (m ∷ ms) = elim (Bool-cases (is_tool_result m)) [
  | inl e ↦ rw e (leading-StartsTurn ms)
  | inr e ↦ rw e e
]

skip-leading :
    (size index : ℕ) (ms : List Message)
    → size ≡ index + length ms
    → skip_tool_results size index ms ≡ index + leading ms
unfolding skip_tool_results leading
skip-leading size index [] h = omega arith
skip-leading size index (m ∷ ms) h = ground (arith, skip-leading size (suc index) ms)

valid_cut-leading :
    (ms : List Message) (cut : ℕ)
    → cut ≤ length ms
    → valid_cut_index ms cut ≡ cut + leading (drop cut ms)
unfolding valid_cut_index
valid_cut-leading ms cut h =
    skip-leading (length ms) cut (drop cut ms) (omega (arith, length-drop {0} cut ms))

pub valid_cut-StartsTurn :
    (ms : List Message) (cut : ℕ) → cut ≤ length ms → StartsTurn (drop (valid_cut_index ms cut) ms)
valid_cut-StartsTurn ms cut h =
    rw (valid_cut-leading ms cut h, ← drop-drop ms cut (leading (drop cut ms)))
      (leading-StartsTurn (drop cut ms))

total-drop :
    (ms : List Message) (i : ℕ)
    → total_estimate (drop i ms) ≡ estimate_at (get_elem? ms i) + total_estimate (drop (suc i) ms)
unfolding estimate_at
total-drop [] zero = refl
total-drop [] (suc i) = refl
total-drop (m ∷ ms) zero = refl
total-drop (m ∷ ms) (suc i) = total-drop ms i

total-drop-le :
    (ms : List Message) (i j : ℕ) → total_estimate (drop (i + j) ms) ≤ total_estimate (drop i ms)
total-drop-le ms i zero = rw add-zero (le_refl _)
total-drop-le ms i (suc j) = rw add-suc (omega (arith, total-drop ms (i + j), total-drop-le ms i j))

find_cut_lem :
    (ms : List Message) (keep : ℤ) (rounds accumulated : ℕ)
    → accumulated ≡ total_estimate (drop rounds ms)
    → pos accumulated <ℤ keep
    → (i : ℕ) → find_cut ms keep rounds accumulated ≡ some i
    → (i < rounds) × (pos (total_estimate (drop (suc i) ms)) <ℤ keep)
unfolding find_cut
find_cut_lem ms keep zero acc e b i h = cc
find_cut_lem ms keep (suc r) acc e b i h = ground (
  arith,
  total-drop ms r,
  λ (p : acc + estimate_at (get_elem? ms r) ≡ total_estimate (drop r ms))
        (q : pos (acc + estimate_at (get_elem? ms r)) <ℤ keep).
      find_cut_lem ms keep r (acc + estimate_at (get_elem? ms r)) p q i,
)

find_cut_none :
    (ms : List Message) (keep : ℤ) (rounds accumulated : ℕ)
    → accumulated ≡ total_estimate (drop rounds ms)
    → pos accumulated <ℤ keep
    → find_cut ms keep rounds accumulated ≡ none
    → pos (total_estimate ms) <ℤ keep
unfolding find_cut
find_cut_none ms keep zero acc e b h = omega arith
find_cut_none ms keep (suc r) acc e b h =
    ground (arith, total-drop ms r, find_cut_none ms keep r (acc + estimate_at (get_elem? ms r)))

split_at_cut_lem :
    (ms : List Message) (n : ℕ) {a b : List Message}
    → split_at_cut ms n ≡ some (a, b)
    → (0 < n) × (a ≡ take n ms) × (b ≡ drop n ms)
unfolding split_at_cut
split_at_cut_lem ms zero h = cc
split_at_cut_lem ms (suc n) h = (omega arith, cc, cc)

cut_messages-none :
    (ms : List Message) (r : List Message × List Message) → ¬ (cut_messages ms none ≡ some r)
unfolding cut_messages
cut_messages-none ms r h = cc

split_at_cut-none : (ms : List Message) (n : ℕ) → split_at_cut ms n ≡ none → n ≡ 0
unfolding split_at_cut
split_at_cut-none ms zero h = refl
split_at_cut-none ms (suc n) h = cc

plan_guard :
    (ms : List Message) (keep : ℤ) {r : List Message × List Message}
    → plan_compaction ms keep ≡ some r
    → (pos 0 <ℤ keep) × (cut_messages ms (find_cut ms keep (length ms) 0) ≡ some r)
unfolding plan_compaction
plan_guard ms keep h = ground arith

start : (ms : List Message) → 0 ≡ total_estimate (drop (length ms) ms)
start ms = rw (drop_all ms (length ms) (le_refl _))

-- What a plan is made of: the cut that is found, moved behind the tool results that stand there.
pub plan_cut :
    (ms : List Message) (keep : ℤ) (summarize kept : List Message)
    → plan_compaction ms keep ≡ some (summarize, kept)
    → (cut : ℕ) × (cut < length ms)
      × (pos (total_estimate (drop (suc cut) ms)) <ℤ keep)
      × (summarize ≡ take (valid_cut_index ms cut) ms)
      × (kept ≡ drop (valid_cut_index ms cut) ms)
      × (0 < valid_cut_index ms cut)
unfolding cut_messages
plan_cut ms keep summarize kept h =
    let (positive, cut_eq) = plan_guard ms keep h in
    elim (Option-cases (find_cut ms keep (length ms) 0)) [
      | inl e ↦ absurd (cut_messages-none ms _ (rw e at cut_eq))
      | inr (cut, e) ↦
          let (lt, budget) = find_cut_lem ms keep (length ms) 0 (start ms) positive cut e in
          let (p, q, r) = split_at_cut_lem ms (valid_cut_index ms cut) (rw e at cut_eq) in
          (cut, lt, budget, q, r, p)
    ]

valid_cut_budget :
    (ms : List Message) (cut : ℕ)
    → cut ≤ length ms
    → total_estimate (drop (valid_cut_index ms cut + 1) ms) ≤ total_estimate (drop (suc cut) ms)
valid_cut_budget ms cut h =
    let more = leading (drop cut ms) in
    let e : valid_cut_index ms cut + 1 ≡ suc cut + more =
      omega (arith, valid_cut-leading ms cut h) in
    rw e (total-drop-le ms (suc cut) more)

-- A plan splits the conversation in two, summarizes something, keeps a tail that does not start
-- with a tool result, and keeps less than the budget behind the first kept message.
pub plan_splits :
    (ms : List Message) (keep : ℤ) (summarize kept : List Message)
    → plan_compaction ms keep ≡ some (summarize, kept)
    → (summarize ++ kept ≡ ms)
      × (0 < length summarize)
      × StartsTurn kept
      × (pos (total_estimate (drop 1 kept)) <ℤ keep)
plan_splits ms keep summarize kept h =
    let (cut, lt, budget, q, r, p) = plan_cut ms keep summarize kept h in
    let v = valid_cut_index ms cut in
    (
      rw (q, r) (take-append-drop v ms),
      rw q (omega (arith, length-take {0} v ms)),
      rw r (valid_cut-StartsTurn ms cut (omega arith)),
      rw (r, drop-drop ms v 1) (omega (arith, valid_cut_budget ms cut (omega arith))),
    )

plan_none :
    (ms : List Message) (keep : ℤ) (cut : ℕ)
    → 2 ≤ length ms
    → pos 0 <ℤ keep
    → find_cut ms keep (length ms) 0 ≡ some cut
    → plan_compaction ms keep ≡ none
    → split_at_cut ms (valid_cut_index ms cut) ≡ none
unfolding plan_compaction cut_messages
plan_none ms keep cut n k e h = ground arith

-- A conversation of two messages or more whose messages behind the first fill the budget is
-- planned: there is no plan only where they stay below the budget.
pub plan_refuses_short :
    (ms : List Message) (keep : ℤ)
    → 2 ≤ length ms
    → pos 0 <ℤ keep
    → plan_compaction ms keep ≡ none
    → pos (total_estimate (drop 1 ms)) <ℤ keep
plan_refuses_short ms keep n k h = elim (Option-cases (find_cut ms keep (length ms) 0)) [
  | inl e ↦ omega (arith, find_cut_none ms keep (length ms) 0 (start ms) k e, total-drop-le ms 0 1)
  | inr (cut, e) ↦
      let (lt, budget) = find_cut_lem ms keep (length ms) 0 (start ms) k cut e in
      let v0 = split_at_cut-none ms (valid_cut_index ms cut) (plan_none ms keep cut n k e h) in
      let c0 : cut ≡ 0 = omega (arith, v0, valid_cut-leading ms cut) in rw c0 at budget
]
