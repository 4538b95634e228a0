-- ===== src/Agent/Compaction/Prompts.antt =====
-- pkg/agent/compaction.go: the prompts of the summarizer, as bytes.
use mathlib.Core.List.{flatten}
use midas.Common.{[], ◌∷◌, ◌++◌}
use midas.Common.Text.{Text, codes}
use Prim.Native.String.{String}

-- A line and its newline.
line : String → Text
line s = codes s ++ 10 ∷ []

-- CompactionPrompt
unfoldable pub compaction_prompt : Text
unfolding line
compaction_prompt = flatten (
    line
      "The messages above are a conversation to summarize. Create a structured context checkpoint summary that another LLM will use to continue the work."
    ∷ line ""
    ∷ line "Use this EXACT format:"
    ∷ line ""
    ∷ line "## Goal"
    ∷ line
        "[What is the user trying to accomplish? Can be multiple items if the session covers different tasks.]"
    ∷ line ""
    ∷ line "## Constraints & Preferences"
    ∷ line "- [Any constraints, preferences, or requirements mentioned by the user]"
    ∷ line "- [Or \"(none)\" if not applicable]"
    ∷ line ""
    ∷ line "## Progress"
    ∷ line "### Done"
    ∷ line "- [x] [Completed tasks/changes]"
    ∷ line ""
    ∷ line "### In Progress"
    ∷ line "- [ ] [Current work]"
    ∷ line ""
    ∷ line "### Blocked"
    ∷ line "- [Issues preventing progress, if any]"
    ∷ line ""
    ∷ line "## Key Decisions"
    ∷ line "- **[Decision]**: [Brief rationale]"
    ∷ line ""
    ∷ line "## Next Steps"
    ∷ line "1. [Ordered list of what should happen next]"
    ∷ line ""
    ∷ line "## Critical Context"
    ∷ line "- [Any data, examples, or references needed to continue]"
    ∷ line "- [Or \"(none)\" if not applicable]"
    ∷ line ""
    ∷ codes
        "Keep each section concise. Preserve exact file paths, function names, and error messages."
    ∷ [])

-- UpdateCompactionPrompt
unfoldable pub update_compaction_prompt : Text
unfolding line
update_compaction_prompt = flatten (
    line
      "The messages above are NEW conversation messages to incorporate into the existing summary provided in <previous-summary> tags."
    ∷ line ""
    ∷ line "RULES:"
    ∷ line "- PRESERVE all existing information from the previous summary"
    ∷ line "- ADD new progress, decisions, and context from the new messages"
    ∷ line
        "- UPDATE the Progress section: move items from \"In Progress\" to \"Done\" when completed"
    ∷ line "- UPDATE \"Next Steps\" based on what was accomplished"
    ∷ line "- PRESERVE exact file paths, function names, and error messages"
    ∷ line "- If something is no longer relevant, you may remove it"
    ∷ line ""
    ∷ codes "Use the same EXACT format as the previous summary. Keep each section concise."
    ∷ [])

-- summaryMarker
abbrev pub summary_marker : Text
summary_marker = codes "Compaction summary of earlier conversation:"
