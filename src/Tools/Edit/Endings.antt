-- ===== src/Tools/Edit/Endings.antt =====
-- internal/tools/edit.go: line ends, before and after an edit.
use mathlib.Core.Bool.{true≢false}
use midas.Common.{
  ℕ, suc, ◌≤◌, ◌≡◌, refl, sym, ap, ap₂, ◌∙◌, subst, Bool, true, false, not, ◌&&◌, ◌||◌, List, [],
  ◌∷◌, ◌++◌, if◌then◌else◌, ◌==◌, arith, Bool-cases, inl, inr,
}
use midas.Common.Text.{Text, has_prefix, trim_prefix}
use midas.Common.Text.Find.{
  contains, count, count_from, replace_all, replace_from, has_prefix_splits,
}
use midas.Tools.Edit.{
  crlf, lf, normalize_newlines, has_mixed_line_endings, mark, rewrite, update, ok, Replacement,
}
use midas.Tools.Edit.Updated.{Outcome-cases}

-- Every carriage return stands before a line feed.
abbrev pub has_lone_cr : Text → Bool
has_lone_cr [] = false
has_lone_cr (c ∷ []) = c == 13
has_lone_cr (c ∷ d ∷ s) = c == 13 && not (d == 10) || has_lone_cr (d ∷ s)

-- The text that the tool would write for an unchanged one.
abbrev pub restored : Text → Text
restored s =
    if contains s crlf then replace_all (normalize_newlines s) lf crlf else normalize_newlines s

pairs-le-feeds : (s : Text) → count s crlf ≤ count s lf
unfolding count_from has_prefix
pairs-le-feeds [] = omega arith
pairs-le-feeds (c ∷ []) = ground arith
pairs-le-feeds (c ∷ d ∷ s) = ground (arith, pairs-le-feeds s, pairs-le-feeds (d ∷ s))

abbrev KeptByte : ℕ → Text → Type 0
KeptByte c s = normalize_newlines (c ∷ s) ≡ c ∷ normalize_newlines s

-- A byte that is no carriage return is kept.
normalize_other : (c : ℕ) (s : Text) → (c == 13) ≡ false → KeptByte c s
unfolding normalize_newlines replace_from has_prefix
normalize_other c s h = rw h (rw h refl)

normalize_pair : (s : Text) → normalize_newlines (13 ∷ 10 ∷ s) ≡ 10 ∷ normalize_newlines s
unfolding normalize_newlines replace_from has_prefix
normalize_pair s = refl

abbrev restore : Text → Text
restore s = replace_all s lf crlf

restore_other : (c : ℕ) (s : Text) → (c == 10) ≡ false → restore (c ∷ s) ≡ c ∷ restore s
unfolding replace_from has_prefix
restore_other c s h = rw h refl

restore_feed : (s : Text) → restore (10 ∷ s) ≡ 13 ∷ 10 ∷ restore s
unfolding replace_from has_prefix
restore_feed s = refl

is : (c n : ℕ) → (c == n) ≡ true → c ≡ n
is c n h = ground arith

count_other :
    (c n : ℕ) (s rest : Text) → (c == n) ≡ false → count (c ∷ s) (n ∷ rest) ≡ count s (n ∷ rest)
unfolding count_from has_prefix
count_other c n s rest h = rw h refl

count_feed : (s : Text) → count (10 ∷ s) lf ≡ suc (count s lf)
unfolding count_from has_prefix
count_feed s = refl

count_pair_feeds : (s : Text) → count (13 ∷ 10 ∷ s) lf ≡ suc (count s lf)
unfolding count_from has_prefix
count_pair_feeds s = refl

count_pair : (s : Text) → count (13 ∷ 10 ∷ s) crlf ≡ suc (count s crlf)
unfolding count_from has_prefix
count_pair s = refl

-- With no bare line feed and no lone carriage return the ends are all pairs.
restored_pairs :
    (s : Text)
    → has_lone_cr s ≡ false
    → count s lf ≤ count s crlf
    → restore (normalize_newlines s) ≡ s
unfolding normalize_newlines replace_from has_prefix count_from
restored_pairs [] h e = refl
restored_pairs (c ∷ []) h e = elim (Bool-cases (c == 10)) [
  | inl p ↦ absurd (ground (arith, h, e, p))
  | inr p ↦ ap restore (normalize_other c [] h) ∙ restore_other c [] p
]
restored_pairs (c ∷ d ∷ s) h e = elim (Bool-cases (c == 13)) [
  | inl p ↦
      let second : (d == 10) ≡ true = ground (arith, h, p) in
      let pair = ap₂ (λ x y. x ∷ y ∷ s) (is c 13 p) (is d 10 second) in
      let fewer : count s lf ≤ count s crlf =
        omega (
          arith,
          subst (λ x. count x lf ≤ count x crlf) pair e,
          count_pair s,
          count_pair_feeds s,
        ) in
      let rest = restored_pairs s (ground (arith, h)) fewer in
      ap (λ x. restore (normalize_newlines x)) pair ∙ ap (λ x. 13 ∷ 10 ∷ x) rest ∙ sym pair
  | inr p ↦ elim (Bool-cases (c == 10)) [
    | inl q ↦
        let bare = subst (λ x. count (x ∷ d ∷ s) lf ≤ count (x ∷ d ∷ s) crlf) (is c 10 q) e in
        absurd (
          omega (
            arith,
            bare,
            count_feed (d ∷ s),
            count_other 10 13 (d ∷ s) lf refl,
            pairs-le-feeds (d ∷ s),
          ))
    | inr q ↦
        let fewer : count (d ∷ s) lf ≤ count (d ∷ s) crlf =
          omega (arith, e, count_other c 10 (d ∷ s) [] q, count_other c 13 (d ∷ s) lf p) in
        ap restore (normalize_other c (d ∷ s) p)
        ∙ restore_other c (normalize_newlines (d ∷ s)) q
        ∙ ap (c ∷◌) (restored_pairs (d ∷ s) (ground (arith, h, p)) fewer)
  ]
]

-- Without any carriage return nothing is normalized.
restored_none :
    (s : Text) → has_lone_cr s ≡ false → contains s crlf ≡ false → normalize_newlines s ≡ s
unfolding contains has_prefix normalize_newlines replace_from
restored_none [] h e = refl
restored_none (c ∷ []) h e = normalize_other c [] h
restored_none (c ∷ d ∷ s) h e = elim (Bool-cases (c == 13)) [
  | inl p ↦ absurd (ground (arith, h, e, p))
  | inr p ↦
      normalize_other c (d ∷ s) p
      ∙ ap (c ∷◌) (restored_none (d ∷ s) (ground (arith, h, p)) (ground (arith, e, p)))
]

pairs_found : (s : Text) → contains s crlf ≡ true → (count s crlf ≡ 0) → true ≡ false
unfolding contains count_from has_prefix
pairs_found [] h z = sym h
pairs_found (c ∷ []) h z = ground (arith, h)
pairs_found (c ∷ d ∷ s) h z = elim (Bool-cases (c == 13 && d == 10)) [
  | inl p ↦ ground (arith, z, p)
  | inr p ↦ pairs_found (d ∷ s) (ground (arith, h, p)) (ground (arith, z, p))
]

few_feeds :
    (s : Text)
    → contains s crlf ≡ true
    → has_mixed_line_endings s ≡ false
    → count s lf ≤ count s crlf
unfolding has_mixed_line_endings
few_feeds s p m = elim (Bool-cases (count s crlf == 0)) [
  | inl q ↦ absurd (true≢false (pairs_found s p (ground (arith, q))))
  | inr q ↦ ground (arith, m, q)
]

line_endings_kept :
    (s : Text)
    → has_lone_cr s ≡ false
    → (contains s crlf && has_mixed_line_endings s) ≡ false
    → restored s ≡ s
line_endings_kept s h m = elim (Bool-cases (contains s crlf)) [
  | inl p ↦ rw p (restored_pairs s h (few_feeds s p (ground (arith, m, p))))
  | inr p ↦ rw p (restored_none s h p)
]

-- The bytes that the tool makes of normalized text, in a file that begins with a mark or not and
-- has pairs for line ends or not.
abbrev pub bytes_of : Bool → Bool → Text → Text
bytes_of marked windows s = (if marked then mark else []) ++ (if windows then restore s else s)

-- The new bytes are those of an updated text, and the old ones those of the text before it.
abbrev pub IsRewrite : Text → List Replacement → Text → Type 0
IsRewrite raw edits bytes =
    (content : Text) × (updated : Text) × (marked : Bool) × (windows : Bool) × (raw
      ≡ bytes_of marked windows content)
    × (bytes ≡ bytes_of marked windows updated)
    × (content ≡ normalize_newlines (trim_prefix raw mark))
    × (update content edits ≡ ok updated)

raw_marked : (raw : Text) → raw ≡ (if has_prefix raw mark then mark else []) ++ trim_prefix raw mark
unfolding trim_prefix
raw_marked raw = elim (Bool-cases (has_prefix raw mark)) [
  | inl p ↦ rw p (has_prefix_splits raw mark p)
  | inr p ↦ rw p refl
]

-- If the tool has new bytes for a file whose every carriage return stands before a line feed, then
-- there is one normalized text of which the file is the bytes, with or without a byte order mark and
-- with one kind of line end throughout, and the new bytes are, with the same mark and the same line
-- ends, those of the text that the edits make of it. So a line that no edit touches keeps its
-- bytes, its end included.
pub rewrite_keeps_endings :
    (raw : Text) (edits : List Replacement) (bytes : Text)
    → has_lone_cr (trim_prefix raw mark) ≡ false
    → rewrite raw edits ≡ ok bytes
    → IsRewrite raw edits bytes
unfolding rewrite
rewrite_keeps_endings raw edits bytes h e =
    let content = trim_prefix raw mark in
    let marked = has_prefix raw mark in
    let windows = contains content crlf in
    elim (Bool-cases (windows && has_mixed_line_endings content)) [
      | inl p ↦ absurd (ground (arith, e, p))
      | inr p ↦ elim (Outcome-cases (update (normalize_newlines content) edits)) [
        | inl (error, q) ↦ absurd (ground (arith, e, p, q))
        | inr (updated, q) ↦ (
          normalize_newlines content,
          updated,
          marked,
          windows,
          raw_marked raw
              ∙ ap (λ x. (if marked then mark else []) ++ x) (sym (line_endings_kept content h p)),
          sym (ground (arith, e, p, q)),
          refl,
          q,
        )
      ]
    ]
