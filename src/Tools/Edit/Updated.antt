-- ===== src/Tools/Edit/Updated.antt =====
-- internal/tools/edit.go: the whole update of a normalized text.
use mathlib.Core.List.{Perm}
use midas.Common.{
  ℕ, suc, ◌≡◌, refl, subst, false, List, [], ◌∷◌, All, arith, Bool-cases, inl, inr, ◌⊎◌,
}
use midas.Common.Sort.{sort_stable, sort_stable-perm, All-sort_stable}
use midas.Common.Text.{Text, text_eq}
use midas.Tools.Edit.{
  Replacement, Outcome, EditError, ok, failed, locate, locate_all, is_no_later, overlaps,
  apply_edits, update,
}
use midas.Tools.Edit.Spliced.{Replaced, IsThere, AreLocated, locate-IsLocated, apply_edits_from}

pub Outcome-cases :
    {A : Type 0} (o : Outcome A)
    → ((error : EditError) × (o ≡ failed error)) ⊎ ((a : A) × (o ≡ ok a))
Outcome-cases (failed error) = inl (error, refl)
Outcome-cases (ok a) = inr (a, refl)

locate_all-AreLocated :
    (content : Text) (number : ℕ) (edits located : List Replacement)
    → locate_all content number edits ≡ ok located
    → AreLocated content edits located
unfolding locate_all
locate_all-AreLocated content number [] [] h = tt
locate_all-AreLocated content number [] (e ∷ es) h = absurd (ground arith)
locate_all-AreLocated content number (raw ∷ raws) located h =
    elim (Outcome-cases (locate content number raw)) [
      | inl (error, p) ↦ absurd (ground arith)
      | inr (e, p) ↦ elim (Outcome-cases (locate_all content (suc number) raws)) [
        | inl (error, q) ↦ absurd (ground arith)
        | inr (es, q) ↦
            let whole : e ∷ es ≡ located = ground arith in
            subst (AreLocated content (raw ∷ raws)) whole (
              locate-IsLocated content number raw e p,
              locate_all-AreLocated content (suc number) raws es q,
            )
      ]
    ]

All-IsThere :
    (content : Text) (edits located : List Replacement)
    → AreLocated content edits located
    → All (IsThere content) located
All-IsThere content [] [] h = tt
All-IsThere content [] (e ∷ es) h = absurd (ground arith)
All-IsThere content (raw ∷ raws) [] h = absurd (ground arith)
All-IsThere content (raw ∷ raws) (e ∷ es) h = (h.0.1.0, All-IsThere content raws es h.1)

Replaced-apply_edits :
    (content : Text) (es : List Replacement)
    → overlaps es ≡ false
    → All (IsThere content) es
    → Replaced es content (apply_edits es content)
Replaced-apply_edits content [] o h = (apply_edits_from content [] 0 refl (omega arith) h).1
Replaced-apply_edits content (e ∷ es) o h =
    (apply_edits_from content (e ∷ es) 0 (ground arith) (omega arith) h).1

-- An update: each edit asked for is located, and the text with the located pieces replaced, in
-- their order, is the new one, which differs from the old one.
abbrev pub IsUpdate : Text → List Replacement → Text → Type 0
IsUpdate content edits updated =
    (located : List Replacement) × (sorted : List Replacement) × AreLocated content edits located
    × Perm sorted located
    × Replaced sorted content updated
    × (text_eq updated content ≡ false)

-- If Execute gets as far as new text for the normalized content of a file, then every edit's old
-- text, with its line ends normalized, is not empty and was counted once in that content; and the
-- content is a sequence of pieces in which the old texts stand in their order with gaps between
-- them, of which the new text is the same sequence with every old text replaced by its new one.
-- The edits do not see one another's results, and the new text is not the old one.
pub update-IsUpdate :
    (content : Text) (edits : List Replacement) (updated : Text)
    → update content edits ≡ ok updated
    → IsUpdate content edits updated
unfolding update
update-IsUpdate content edits updated h = elim (Outcome-cases (locate_all content 0 edits)) [
  | inl (error, p) ↦ absurd (ground arith)
  | inr (located, p) ↦
      let sorted = sort_stable is_no_later located in
      let there = locate_all-AreLocated content 0 edits located p in
      elim (Bool-cases (overlaps sorted)) [
        | inl q ↦ absurd (ground (arith, h, p, q))
        | inr q ↦ elim (Bool-cases (text_eq (apply_edits sorted content) content)) [
          | inl r ↦ absurd (ground (arith, h, p, q, r))
          | inr r ↦
              let same : apply_edits sorted content ≡ updated = ground (arith, h, p, q, r) in
              subst (IsUpdate content edits) same (
                located,
                sorted,
                there,
                sort_stable-perm is_no_later located,
                Replaced-apply_edits content sorted q (
                    All-sort_stable is_no_later (IsThere content) located
                      (All-IsThere content edits located there)),
                r,
              )
        ]
      ]
]
