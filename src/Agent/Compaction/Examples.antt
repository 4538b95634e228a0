-- ===== src/Agent/Compaction/Examples.antt =====
-- pkg/agent/compaction.go: the theorems and the definitions at concrete inputs.
use midas.Common.{◌<◌, ◌≡◌, refl, true, false, some, List, [], ◌∷◌, arith, drop}
use midas.Common.Int.{pos, ◌<ℤ◌, ◌+ℤ◌, wrap64}
use midas.Common.Text.{Text, codes, is_empty, trim_space}
use midas.Ai.Message.{
  Usage, zero_usage, Part, Content, plain, AssistantMessage, Body, user, Message, complete,
}
use midas.Agent.Calls.{paired, next_open, answers}
use midas.Agent.Compaction.{
  CompactionSettings, normalize, plan_compaction, estimate_tokens, message_usage,
  context_usage_tokens, context_tokens, add_estimates,
}
use midas.Agent.Compaction.Cut.{total_estimate, StartsTurn, plan_splits, plan_refuses_short}
use midas.Agent.Compaction.Pairs.{plan-paired}
use midas.Agent.Compaction.Tokens.{context_tokens_after_usage}
use midas.Agent.Compaction.Summary.{
  SummaryRequest, Answer, answered, Level, summary, summarize, apply_compaction, previous_summary,
  compact,
}
use midas.Agent.Compaction.Summary.RoundTrip.{previous_summary-apply_compaction, compact_lem}

abbrev said : Text → Message
said t = Message.value (user (record { content = plain t; timestamp = pos 1; synthetic = false }))

abbrev answer : Usage → Text → AssistantMessage
answer usage t = record {
  content = Content.value (Part.text t) ∷ [];
  api = [];
  provider = [];
  model = [];
  usage = usage;
  stop_reason = complete;
  error_message = [];
  timestamp = pos 2;
}

abbrev ask : Message
ask = said (codes "a question")

abbrev reply : Message
reply = Message.value (Body.assistant (answer zero_usage (codes "an answer")))

abbrev measured : Message
measured = Message.value (
    Body.assistant
      (answer (record zero_usage { input = pos 100; output = pos 20 }) (codes "an answer")))

abbrev talk : List Message
talk = ask ∷ reply ∷ ask ∷ reply ∷ []

plan_run : plan_compaction talk (pos 5) ≡ some (ask ∷ reply ∷ [], ask ∷ reply ∷ [])
unfolding plan_compaction estimate_tokens
plan_run = refl

plan_splits_example :
    (talk ≡ talk)
    × (0 < 2)
    × StartsTurn (ask ∷ reply ∷ [])
    × (pos (total_estimate (drop 1 (ask ∷ reply ∷ []))) <ℤ pos 5)
plan_splits_example = plan_splits talk (pos 5) (ask ∷ reply ∷ []) (ask ∷ reply ∷ []) plan_run

plan-paired_example : paired [] (ask ∷ reply ∷ []) ≡ true
unfolding paired answers next_open
plan-paired_example = plan-paired talk (pos 5) (ask ∷ reply ∷ []) (ask ∷ reply ∷ []) plan_run refl

plan_refuses_short_example : pos (total_estimate (drop 1 talk)) <ℤ pos 1000
unfolding plan_compaction estimate_tokens
plan_refuses_short_example = plan_refuses_short talk (pos 1000) (omega arith) (omega arith) refl

context_tokens_after_usage_example :
    context_tokens (ask ∷ measured ∷ ask ∷ []) ≡ add_estimates (pos 120) (ask ∷ [])
unfolding message_usage context_usage_tokens wrap64 ◌+ℤ◌
context_tokens_after_usage_example =
    context_tokens_after_usage (ask ∷ []) (ask ∷ []) measured (pos 120) refl (refl, tt)

previous_summary-apply_compaction_example :
    previous_summary (apply_compaction (codes " so far ") talk (pos 9))
    ≡ trim_space (codes " so far ")
previous_summary-apply_compaction_example =
    previous_summary-apply_compaction (codes " so far ") talk (pos 9)

abbrev settings : CompactionSettings
settings = record { enabled = true; reserve_tokens = pos 10; keep_recent_tokens = pos 5 }

abbrev summarizer : SummaryRequest → Answer
summarizer request = answered (answer zero_usage (codes " so far "))

abbrev level : Level
level = (false, [])

compact_lem_example :
    (old : List Message) × ((keep : List Message) × ((plan_compaction talk
            (normalize settings).keep_recent_tokens
          ≡ some (old, keep))
        × ((summarize (some summarizer) level old (previous_summary talk) settings
              ≡ summary
                  (previous_summary (apply_compaction (codes "so far") (ask ∷ reply ∷ []) (pos 9))))
            × (is_empty
                  (previous_summary (apply_compaction (codes "so far") (ask ∷ reply ∷ []) (pos 9)))
                ≡ false)
            × (drop 1 (apply_compaction (codes "so far") (ask ∷ reply ∷ []) (pos 9)) ≡ keep))))
unfolding compact plan_compaction estimate_tokens summarize normalize trim_space apply_compaction
compact_lem_example =
    compact_lem (some summarizer) level talk
      (apply_compaction (codes "so far") (ask ∷ reply ∷ []) (pos 9)) settings (pos 9) refl
