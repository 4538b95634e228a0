-- ===== src/Agent/Compaction/Summary/RoundTrip.antt =====
-- pkg/agent/compaction.go: a checkpoint is read back as it was written.
use midas.Common.{
  ℕ, ◌≡◌, refl, sym, ap, subst, drop, ◌∙◌, Bool, true, false, Option, none, some, List, [], ◌∷◌,
  ◌++◌, arith, if◌then◌else◌,
}
use midas.Common.Int.{ℤ}
use midas.Common.Text.{Text, is_empty, trim_space, space_width}
use midas.Common.Text.Trim.{
  IsTrimmed, trim_space_trimmed, IsTrimmed-trim_space, back_newline, trim_space_newline,
  has_prefix-append, trim_prefix-append,
}
use midas.Ai.Message.{StopReason, error, aborted, Message, new_synthetic_message}
use midas.Agent.Compaction.{CompactionSettings, normalize, plan_compaction}
use midas.Agent.Compaction.Prompts.{summary_marker}
use midas.Agent.Compaction.Summary.{
  marked, or_else, user_text, SummaryRequest, no_text, no_answer, answered, Answer, summary_of_text,
  summary_of, build_summarization_prompt, requested, check_stop, answer_text, apply_summary, Level,
  Summary, summary, failure, summarize, apply_compaction, previous_summary, unchanged, compacted,
  compact,
}

abbrev checkpoint_text : Text → Text
checkpoint_text t = summary_marker ++ 10 ∷ 10 ∷ t

IsTrimmed-checkpoint_text :
    (a : ℕ) (t : Text) → IsTrimmed (a ∷ t) → IsTrimmed (checkpoint_text (a ∷ t))
unfolding space_width
IsTrimmed-checkpoint_text a t h = record {
  front = refl;
  back = back_newline (summary_marker ++ 10 ∷ []) (a ∷ t) refl h.back;
}

-- Trimming such a text keeps the marker, and the text behind it.
marker_stays :
    (t : Text)
    → IsTrimmed t
    → (u : Text) × (trim_space (checkpoint_text t) ≡ summary_marker ++ u) × (trim_space u ≡ t)
unfolding trim_space
marker_stays [] h = ([], refl, refl)
marker_stays (a ∷ t) h = (
  10 ∷ 10 ∷ a ∷ t,
  trim_space_trimmed (checkpoint_text (a ∷ t)) (IsTrimmed-checkpoint_text a t h),
  trim_space_newline (10 ∷ a ∷ t) ∙ trim_space_newline (a ∷ t) ∙ trim_space_trimmed (a ∷ t) h,
)

read_back :
    (t rest : Text) → IsTrimmed t → or_else (marked (trim_space (checkpoint_text t))) rest ≡ t
read_back t rest h =
    let (u, e, k) = marker_stays t h in
    rw (e, has_prefix-append summary_marker u, trim_prefix-append summary_marker u) k

-- What ApplyCompaction writes, PreviousSummary reads: the summary it was given, trimmed, whatever follows the checkpoint.
pub previous_summary-apply_compaction :
    (text : Text) (keep : List Message) (at : ℤ)
    → previous_summary (apply_compaction text keep at) ≡ trim_space text
unfolding previous_summary apply_compaction new_synthetic_message user_text
previous_summary-apply_compaction text keep at =
    read_back (trim_space text) (previous_summary keep) (IsTrimmed-trim_space text)

-- Every summary is trimmed and not empty.
IsSummary : Text → Type 0
IsSummary t = IsTrimmed t × (is_empty t ≡ false)

summary_of_text-IsSummary :
    (o : Option Text) (t : Text) → summary_of_text o ≡ summary t → IsSummary t
unfolding summary_of_text IsSummary
summary_of_text-IsSummary none t e = absurd (ground arith)
summary_of_text-IsSummary (some x) t e = go (is_empty (trim_space x)) refl e
  where
    go :
        (b : Bool)
        → is_empty (trim_space x) ≡ b
        → (if b then failure no_text else summary (trim_space x)) ≡ summary t
        → IsTrimmed t × (is_empty t ≡ false)
    go true q h = absurd (ground arith)
    go false q h =
        let r : trim_space x ≡ t = cc in
        (subst IsTrimmed r (IsTrimmed-trim_space x), ap is_empty (sym r) ∙ q)

summary_of-IsSummary : (a : Answer) (t : Text) → summary_of a ≡ summary t → IsSummary t
unfolding summary_of
summary_of-IsSummary (no_answer x) t e = absurd (ground arith)
summary_of-IsSummary (answered m) t e = go m.stop_reason e
  where
    go :
        (r : StopReason)
        → check_stop r m.error_message (summary_of_text (answer_text m.content)) ≡ summary t
        → IsSummary t
    go error e = absurd (ground arith)
    go aborted e = absurd (ground arith)
    go StopReason.length e = absurd (ground arith)
    go _ e = summary_of_text-IsSummary (answer_text m.content) t e

summarize-IsSummary :
    (provider : Option (SummaryRequest → Answer)) (level : Level) (ms : List Message)
    (previous : Text) (settings : CompactionSettings) (t : Text)
    → summarize provider level ms previous settings ≡ summary t
    → IsSummary t
unfolding summarize
summarize-IsSummary none level ms previous settings t e = absurd (ground arith)
summarize-IsSummary (some provider) level [] previous settings t e = absurd (ground arith)
summarize-IsSummary (some provider) level (m ∷ ms) previous settings t e =
    summary_of-IsSummary
      (provider (record {
        prompt = build_summarization_prompt (m ∷ ms) previous;
        max_tokens = (normalize settings).reserve_tokens;
        reasoning = requested level;
      }))
      t e

-- A compaction that rewrites the conversation has put one checkpoint before the messages it keeps, and the next compaction
-- reads from it exactly the summary that the provider gave for the messages cut off, which is not empty.
pub compact_lem :
    (provider : Option (SummaryRequest → Answer)) (level : Level) (ms ms' : List Message)
    (settings : CompactionSettings) (at : ℤ)
    → compact provider level ms settings at ≡ compacted ms'
    → (old : List Message) × ((keep : List Message) × ((plan_compaction ms
              (normalize settings).keep_recent_tokens
            ≡ some (old, keep))
          × ((summarize provider level old (previous_summary ms) settings
                ≡ summary (previous_summary ms'))
              × (is_empty (previous_summary ms') ≡ false)
              × (drop 1 ms' ≡ keep))))
unfolding compact apply_summary apply_compaction IsSummary
compact_lem provider level ms ms' settings at e =
    go (plan_compaction ms (normalize settings).keep_recent_tokens) refl e
  where
    Keeps : List Message → List Message → Type 0
    Keeps old keep =
        (summarize provider level old (previous_summary ms) settings
          ≡ summary (previous_summary ms'))
        × (is_empty (previous_summary ms') ≡ false)
        × (drop 1 ms' ≡ keep)

    of_summary :
        (old keep : List Message) (s : Summary)
        → summarize provider level old (previous_summary ms) settings ≡ s
        → apply_summary s keep at ≡ compacted ms'
        → Keeps old keep
    of_summary old keep (failure x) q h = absurd (ground arith)
    of_summary old keep (summary t) q h =
        let r : apply_compaction t keep at ≡ ms' = cc in
        let valid = summarize-IsSummary provider level old (previous_summary ms) settings t q in
        let back : previous_summary ms' ≡ t =
          ap previous_summary (sym r)
          ∙ previous_summary-apply_compaction t keep at
          ∙ trim_space_trimmed t valid.0 in
        (q ∙ ap summary (sym back), ap is_empty back ∙ valid.1, ap (drop 1) (sym r))

    go :
        (plan : Option (List Message × List Message))
        → plan_compaction ms (normalize settings).keep_recent_tokens ≡ plan
        → elim plan [
          | none ↦ unchanged
          | some (old, keep) ↦
              apply_summary (summarize provider level old (previous_summary ms) settings) keep at
        ]
          ≡ compacted ms'
        → (old : List Message) × ((keep : List Message) × ((plan_compaction ms
                  (normalize settings).keep_recent_tokens
                ≡ some (old, keep))
              × Keeps old keep))
    go none q h = absurd (ground arith)
    go (some (old, keep)) q h = (
      old,
      (
        keep,
        (
          q,
          of_summary old keep (summarize provider level old (previous_summary ms) settings) refl h,
        ),
      ),
    )
