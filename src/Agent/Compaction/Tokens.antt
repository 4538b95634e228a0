-- ===== src/Agent/Compaction/Tokens.antt =====
-- pkg/agent/compaction.go: what `ContextTokens` adds up.
use midas.Common.{
  ℕ, suc, ◌+◌, ◌≡◌, refl, ◌∙◌, ap, none, some, List, [], ◌∷◌, ◌++◌, All, length, drop,
}
use midas.Common.Int.{ℤ, pos}
use native.Mathlib.Nat.{add-zero, add-suc, suc-add, zero-add}
use midas.Ai.Message.{Message}
use midas.Agent.Compaction.{
  Scan, message_usage, scan_usage, add_estimates, context_tokens, scan_message,
}

abbrev pub NoUsage : Message → Type 0
NoUsage m = message_usage m ≡ none

scan_without :
    (index : ℕ) (ms : List Message) (s : Scan) → All NoUsage ms → scan_usage index ms s ≡ s
unfolding scan_usage
scan_without index [] s h = refl
scan_without index (m ∷ ms) s h = rw h.0 (scan_without (suc index) ms s h.1)

scan_last :
    (index : ℕ) (before after : List Message) (m : Message) (u : ℤ) (s : Scan)
    → message_usage m ≡ some u
    → All NoUsage after
    → scan_usage index (before ++ m ∷ after) s
      ≡ record { tokens = u; last_usage = some (index + length before) }
unfolding scan_usage
scan_last index [] after m u s e h = rw add-zero (
    ap (λ o. scan_usage (suc index) after (scan_message index o s)) e
    ∙ scan_without (suc index) after (record { tokens = u; last_usage = some index }) h)
scan_last index (b ∷ before) after m u s e h =
    rw (add-suc, ← suc-add)
      (scan_last (suc index) before after m u (scan_message index (message_usage b) s) e h)

drop-append-cons :
    (before after : List Message) (m : Message)
    → drop (suc (length before)) (before ++ m ∷ after) ≡ after
drop-append-cons [] after m = refl
drop-append-cons (b ∷ before) after m = drop-append-cons before after m

-- With a last message that reports a usage, the size is that usage and the estimates of the
-- messages behind it, whatever stands before it.
pub context_tokens_after_usage :
    (before after : List Message) (m : Message) (u : ℤ)
    → message_usage m ≡ some u
    → All NoUsage after
    → context_tokens (before ++ m ∷ after) ≡ add_estimates u after
unfolding context_tokens
context_tokens_after_usage before after m u e h =
    rw (scan_last 0 before after m u (record { tokens = pos 0; last_usage = none }) e h, zero-add)
      (ap (add_estimates u) (drop-append-cons before after m))

-- Where no message reports a usage, the size is the sum of all estimates.
pub context_tokens_estimated :
    (ms : List Message) → All NoUsage ms → context_tokens ms ≡ add_estimates (pos 0) ms
unfolding context_tokens
context_tokens_estimated ms h =
    rw (scan_without 0 ms (record { tokens = pos 0; last_usage = none }) h)
