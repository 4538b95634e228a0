-- ===== src/Agent/Loop/Run/Compacted.antt =====
-- pkg/agent/loop.go and pkg/agent/compaction.go: the transcript of a run may be compacted.
use mathlib.Core.Option.{some-injective}
use midas.Common.{
  ◌≡◌, refl, sym, ap, ◌∙◌, subst, Bool, true, false, Option, none, some, List, [], ◌∷◌, arith, All,
  Option-cases, inl, inr, if◌then◌else◌,
}
use midas.Common.Int.{ℤ}
use midas.Common.Text.{Text, text_eq, text_eq→eq, text_eq_refl}
use midas.Ai.Message.{Body, Message}
use midas.Agent.Calls.{tool_calls, call_ids, contains, next_open, answers, paired}
use midas.Agent.Compaction.{is_failure, plan_compaction}
use midas.Agent.Compaction.Pairs.{plan-paired}
use midas.Agent.Steering.{SteeringQueue}
use midas.Agent.Loop.Run.{Config, Turn, run}
use midas.Agent.Loop.Run.Pairs.{UsersQueued, run-IsBalanced}
use midas.Agent.Loop.Run.Balanced.{
  owed_result, owed_call, owed_body, owed_after, owed_through, IsBalanced, OnlyUser,
}

-- Every owed result answers an open call.
abbrev AllOpen : List Text → List Text → Type 0
AllOpen open_ids = All (λ o. contains open_ids o ≡ true)

AllOpen-skip :
    (id : Text) (open_ids owed : List Text) → AllOpen open_ids owed → AllOpen (id ∷ open_ids) owed
AllOpen-skip id open_ids [] h = tt
AllOpen-skip id open_ids (o ∷ owed) h = (ground (arith, h.0), AllOpen-skip id open_ids owed h.1)

AllOpen-refl : (ids : List Text) → AllOpen ids ids
AllOpen-refl [] = tt
AllOpen-refl (id ∷ ids) =
    (ground (arith, text_eq_refl id), AllOpen-skip id ids ids (AllOpen-refl ids))

none_stays : (ms : List Message) (x : List Text) → owed_through none ms ≡ some x → ⊥
unfolding owed_through owed_after
none_stays [] x e = ground arith
none_stays (m ∷ ms) x e = none_stays ms x e

-- An assistant or user message behind which `ids` are owed, at a place where nothing was.
AllOpen-owed_call :
    (open_ids owed ids owed' : List Text)
    → AllOpen open_ids ids
    → owed_call owed ids ≡ some owed'
    → AllOpen open_ids owed'
unfolding owed_call
AllOpen-owed_call open_ids [] ids owed' h e = subst (AllOpen open_ids) (some-injective _ _ e) h
AllOpen-owed_call open_ids (_ ∷ _) ids owed' h e = absurd (ground arith)

AllOpen-if : (b : Bool) (open_ids : List Text) → AllOpen open_ids (if b then [] else open_ids)
AllOpen-if true open_ids = tt
AllOpen-if false open_ids = AllOpen-refl open_ids

owed_result_step :
    (open_ids owed owed' : List Text) (id : Text)
    → AllOpen open_ids owed
    → owed_result owed id ≡ some owed'
    → (contains open_ids id ≡ true) × AllOpen open_ids owed'
unfolding owed_result
owed_result_step open_ids [] owed' id h e = absurd (ground arith)
owed_result_step open_ids (o ∷ owed) owed' id h e = go (text_eq o id) refl e
  where
    go :
        (b : Bool)
        → text_eq o id ≡ b
        → (if b then some owed else none) ≡ some owed'
        → (contains open_ids id ≡ true) × AllOpen open_ids owed'
    go true q k = (
      ap (contains open_ids) (sym (text_eq→eq o id q)) ∙ h.0,
      subst (AllOpen open_ids) (some-injective _ _ k) h.1,
    )
    go false q k = absurd (ground arith)

-- What makes a message behind open calls paired, with what is owed behind it still open.
Follows : List Text → Message → List Text → Type 0
Follows open_ids m owed' = (answers open_ids m ≡ true) × AllOpen (next_open open_ids m) owed'

owed_after-Follows :
    (open_ids owed owed' : List Text) (m : Message)
    → AllOpen open_ids owed
    → owed_after (some owed) m ≡ some owed'
    → Follows open_ids m owed'
unfolding owed_after owed_body answers next_open Follows
owed_after-Follows open_ids owed owed' (Message.value (Body.user m)) h e =
    (refl, AllOpen-owed_call [] owed [] owed' tt e)
owed_after-Follows open_ids owed owed' (Message.pointer (Body.user m)) h e =
    (refl, AllOpen-owed_call [] owed [] owed' tt e)
owed_after-Follows open_ids owed owed' (Message.value (Body.assistant m)) h e = (
  refl,
  AllOpen-owed_call _ owed _ owed' (AllOpen-if (is_failure m.stop_reason) (call_ids (tool_calls m)))
      e,
)
owed_after-Follows open_ids owed owed' (Message.pointer (Body.assistant m)) h e = (
  refl,
  AllOpen-owed_call _ owed _ owed' (AllOpen-if (is_failure m.stop_reason) (call_ids (tool_calls m)))
      e,
)
owed_after-Follows open_ids owed owed' (Message.value (Body.tool_result m)) h e =
    owed_result_step open_ids owed owed' m.tool_call_id h e
owed_after-Follows open_ids owed owed' (Message.pointer (Body.tool_result m)) h e =
    owed_result_step open_ids owed owed' m.tool_call_id h e
owed_after-Follows open_ids owed owed' (Message.nil_pointer _) h e = absurd (ground arith)

paired_through :
    (open_ids owed : List Text) (ms : List Message) (x : List Text)
    → AllOpen open_ids owed
    → owed_through (some owed) ms ≡ some x
    → paired open_ids ms ≡ true
unfolding owed_through paired Follows
paired_through open_ids owed [] x h e = refl
paired_through open_ids owed (m ∷ ms) x h e = elim (Option-cases (owed_after (some owed) m)) [
  | inl q ↦ absurd (none_stays ms x (ap (λ o. owed_through o ms) (sym q) ∙ e))
  | inr (owed', q) ↦
      let (a, k) = owed_after-Follows open_ids owed owed' m h q in
      rw a (
        paired_through (next_open open_ids m) owed' ms x k
          (ap (λ o. owed_through o ms) (sym q) ∙ e))
]

-- A balanced conversation is one in which every tool result answers a call of the assistant message that it follows.
IsBalanced-paired : (ms : List Message) → IsBalanced ms → paired [] ms ≡ true
IsBalanced-paired ms b = paired_through [] [] ms [] tt b

-- What a compaction keeps of the conversation behind a run that began balanced, with user messages as prompts and in the
-- queue, is by itself a conversation in which every tool result answers a call of the assistant message that it follows.
pub run_then_compact :
    (c : Config) (initial prompts : List Message) (q : Option SteeringQueue) (ts : List Turn)
    (budget : ℤ) (summarize kept : List Message)
    → IsBalanced initial
    → OnlyUser prompts
    → UsersQueued q
    → All (λ (t : Turn). OnlyUser t.pushes) ts
    → plan_compaction (run c initial q prompts ts).0.current budget ≡ some (summarize, kept)
    → paired [] kept ≡ true
run_then_compact c initial prompts q ts budget summarize kept b p v u h =
    plan-paired (run c initial q prompts ts).0.current budget summarize kept h (
      IsBalanced-paired (run c initial q prompts ts).0.current
        (run-IsBalanced c initial prompts q ts b p v u))
