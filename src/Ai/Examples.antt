-- ===== src/Ai/Examples.antt =====
-- pkg/ai: the theorems and the definitions at concrete inputs.
use midas.Common.{
  ℕ, ◌≡◌, refl, true, false, Option, none, some, List, [], ◌∷◌, ◌++◌, arith, not, ◌&&◌, ◌||◌,
}
use midas.Common.Text.{Text, codes, text_eq, is_empty}
use midas.Ai.Stream.{EventStream, new, push, next}
use midas.Ai.Stream.Laws.{view}
use midas.Ai.Stream.Order.{
  Call, push_call, end_call, next_call, run, call, accepted, run_keeps_order, run_keeps_result,
}
use midas.Ai.KeyPool
use midas.Ai.KeyPool.{
  Pool, Attempt, opened, failed, http, streams, all_failed, unknown_health, holds, candidates,
  try_keys, unique_api_keys, set_aside, Change, healthy_change, failure_change, after_changes,
}
use midas.Ai.KeyPool.Candidates.{candidates_are, Distinct}
use midas.Ai.KeyPool.Attempts.{failed_key_waits, stream_is_of_active, giving_up_tries_all}

-- An event of 9 is terminal.
abbrev nine_ends : ℕ → Option ℕ
nine_ends n = elim (text_eq (n ∷ []) (9 ∷ [])) [ true ↦ some n | false ↦ none ]

abbrev calls : List (Call ℕ ℕ)
calls =
    push_call 1 ∷ next_call ∷ next_call ∷ push_call 2 ∷ push_call 9 ∷ push_call 3 ∷ next_call ∷ []

stream_run : (run nine_ends 0 new calls).0 ≡ 1 ∷ 2 ∷ []
unfolding run call push next text_eq
stream_run = refl

run_keeps_order_example :
    (run nine_ends 0 new calls).0 ++ (view (run nine_ends 0 new calls).1).pending
    ≡ accepted nine_ends 0 false calls
run_keeps_order_example = run_keeps_order nine_ends 0 calls

run_keeps_result_example :
    (run nine_ends 0 (run nine_ends 0 new calls).1 (end_call (some 4) ∷ [])).1.result ≡ some 9
unfolding run call push next text_eq
run_keeps_result_example = run_keeps_result nine_ends 0 calls (end_call (some 4) ∷ []) 9 refl

abbrev half_read : EventStream ℕ ℕ
half_read = record { queue = 0 ∷ 2 ∷ []; head = 1; done = false; result = none }

abbrev old_key : Text
old_key = codes "old"

abbrev new_key : Text
new_key = codes "new"

abbrev pool : Pool
pool = record { keys = old_key ∷ new_key ∷ []; active = old_key; health = λ key. unknown_health }

-- The old key is limited, the new one opens a stream.
abbrev provider : Text → Attempt ℕ
provider key = elim (text_eq key old_key) [ true ↦ failed (http 429 []) 5 | false ↦ opened 7 ]

abbrev both : List Text
both = old_key ∷ new_key ∷ []

candidates_run : (candidates pool [] 5).0 ≡ both
unfolding KeyPool.unique_from KeyPool.eligible holds text_eq
candidates_run = refl

candidates_are_example :
    Distinct (candidates pool [] 5).0
    × (holds (candidates pool [] 5).0 new_key
        ≡ (not (is_empty new_key)
            && (text_eq [] new_key || (text_eq pool.active new_key || holds pool.keys new_key)))
          && not (set_aside (pool.health new_key) 5))
candidates_are_example = candidates_are pool [] 5 new_key

-- Another call succeeds with the new key, and the old one fails again.
abbrev others : List Change
others = healthy_change new_key ∷ failure_change old_key (http 403 []) 20 ∷ []

failed_key_waits_example :
    holds
      (candidates
        (after_changes others (KeyPool.mark_failure old_key (http 429 []) 5 pool).0)
        []
        60).0
      old_key
    ≡ false
unfolding text_eq
failed_key_waits_example =
    failed_key_waits old_key [] (http 429 []) 5 60 others pool refl (omega arith)
      (refl, ((λ e. omega arith), tt))

-- While the old key is tried, another call finds it invalid.
abbrev meanwhile : Text → List Change
meanwhile key = failure_change old_key (http 401 []) 3 ∷ []

stream_is_of_active_example :
    (provider (try_keys provider meanwhile both none pool).pool.active ≡ opened 7)
    × ((try_keys provider meanwhile both none pool).pool.health
          (try_keys provider meanwhile both none pool).pool.active
        ≡ unknown_health)
unfolding try_keys KeyPool.mark_failure KeyPool.mark_healthy holds text_eq
stream_is_of_active_example = stream_is_of_active provider meanwhile both none pool 7 refl

giving_up_tries_all_example :
    (try_keys provider meanwhile (old_key ∷ []) none pool).tried ≡ old_key ∷ []
unfolding try_keys KeyPool.mark_failure text_eq
giving_up_tries_all_example =
    giving_up_tries_all provider meanwhile (old_key ∷ []) none (some (http 429 [])) pool refl
