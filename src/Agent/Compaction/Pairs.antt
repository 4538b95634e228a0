-- ===== src/Agent/Compaction/Pairs.antt =====
-- pkg/agent/compaction.go: compaction keeps every tool result behind its call.
use midas.Common.{ℕ, zero, suc, ◌≡◌, refl, true, false, some, List, [], ◌∷◌, drop, arith}
use midas.Common.Int.{ℤ}
use midas.Common.Text.{Text}
use midas.Ai.Message.{Message}
use midas.Agent.Calls.{next_open, answers, paired}
use midas.Agent.Compaction.{is_tool_result, plan_compaction}
use midas.Agent.Compaction.Cut.{StartsTurn, plan_cut, valid_cut-StartsTurn}

turn_start :
    (open_ids : List Text) (m : Message)
    → is_tool_result m ≡ false
    → (answers open_ids m ≡ answers [] m) × (next_open open_ids m ≡ next_open [] m)
unfolding is_tool_result answers next_open
turn_start open_ids m s = ground arith

-- What does not start with a tool result does not depend on the calls that are open before it.
paired_fresh :
    (open_ids : List Text) (ms : List Message)
    → StartsTurn ms
    → paired open_ids ms ≡ true
    → paired [] ms ≡ true
unfolding paired
paired_fresh open_ids [] s h = refl
paired_fresh open_ids (m ∷ ms) s h =
    let (same_answer, same_open) = turn_start open_ids m s in rw (same_answer, same_open) at h

paired-drop :
    (open_ids : List Text) (ms : List Message) (n : ℕ)
    → paired open_ids ms ≡ true
    → StartsTurn (drop n ms)
    → paired [] (drop n ms) ≡ true
unfolding paired
paired-drop open_ids ms zero h s = paired_fresh open_ids ms s h
paired-drop open_ids [] (suc n) h s = refl
paired-drop open_ids (m ∷ ms) (suc n) h s = ground (arith, paired-drop (next_open open_ids m) ms n)

-- In a conversation where every tool result answers a call of the assistant message that it
-- follows, the kept tail of a plan is again such a conversation, by itself.
pub plan-paired :
    (ms : List Message) (keep : ℤ) (summarize kept : List Message)
    → plan_compaction ms keep ≡ some (summarize, kept)
    → paired [] ms ≡ true
    → paired [] kept ≡ true
plan-paired ms keep summarize kept h p =
    let (cut, lt, _, _, tail, _) = plan_cut ms keep summarize kept h in
    rw tail (paired-drop [] ms _ p (valid_cut-StartsTurn ms cut (omega arith)))
