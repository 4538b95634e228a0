-- ===== src/Tools/Edit.antt =====
-- internal/tools/edit.go: the tool that replaces exact pieces of a file.
pub mod Arguments
pub mod Spliced
pub mod Updated
pub mod Endings
use midas.Common.{
  ℕ, suc, zero, ◌+◌, ◌-◌, Bool, true, false, not, ◌&&◌, ◌||◌, Option, none, some, List, [], ◌∷◌,
  ◌++◌, if◌then◌else◌, ltb, leb, ◌==◌, length, take, drop, map,
}
use midas.Common.Sort.{sort_stable}
use midas.Common.Text.{Text, text_eq, is_empty, has_prefix, trim_prefix, codes}
use midas.Common.Text.Find.{index_of, contains, count, replace_all}
use midas.Tools.Edit.Arguments.{
  ArgumentError, Checked, valid, invalid, Json, Fields, edit_arguments, string_argument,
}

-- replacement
pub record Replacement : Type 0 where
  pub old_text : Text
  pub new_text : Text
  pub index : ℕ

pub data EditError : Type 0 where
  bad_arguments : ArgumentError → EditError
  unresolved cancelled read_failed mixed_endings overlap no_changes write_failed : EditError
  empty_old not_found : ℕ → EditError
  not_unique : ℕ → ℕ → EditError

pub data Outcome {ℓ} (A : Type ℓ) : Type ℓ where
  ok : A → Outcome A
  failed : EditError → Outcome A

abbrev pub crlf : Text
crlf = 13 ∷ 10 ∷ []

abbrev pub lf : Text
lf = 10 ∷ []

abbrev pub cr : Text
cr = 13 ∷ []

-- normalizeNewlines
unfoldable pub normalize_newlines : Text → Text
normalize_newlines s = replace_all (replace_all s crlf lf) cr lf

-- hasMixedLineEndings
unfoldable pub has_mixed_line_endings : Text → Bool
has_mixed_line_endings s =
    let pairs = count s crlf in let bare = count s lf - pairs in ltb 0 pairs && ltb 0 bare

-- The byte order mark.
abbrev pub mark : Text
mark = 0xef ∷ 0xbb ∷ 0xbf ∷ []

-- The text and the edit behind the normalization, with the place where the old text stands.
abbrev pub normalized_edit : Replacement → Replacement
normalized_edit e = record e {
  old_text = normalize_newlines e.old_text;
  new_text = normalize_newlines e.new_text;
}

abbrev pub found_at : Replacement → Option ℕ → Replacement
found_at e none = e
found_at e (some i) = record e { index = i }

-- The round of the loop for the edit with a number.
unfoldable pub locate : Text → ℕ → Replacement → Outcome Replacement
unfolding normalize_newlines
locate content number raw =
    let e = normalized_edit raw in
    if is_empty e.old_text
    then failed (empty_old number)
    else if count content e.old_text == 0
    then failed (not_found number)
    else if ltb 1 (count content e.old_text)
    then failed (not_unique (count content e.old_text) number)
    else ok (found_at e (index_of content e.old_text))

unfoldable pub locate_all : Text → ℕ → List Replacement → Outcome (List Replacement)
unfolding locate
locate_all content number [] = ok []
locate_all content number (e ∷ es) = elim (locate content number e) [
  | failed error ↦ failed error
  | ok located ↦ elim (locate_all content (suc number) es) [
    | failed error ↦ failed error
    | ok rest ↦ ok (located ∷ rest)
  ]
]

abbrev pub is_no_later : Replacement → Replacement → Bool
is_no_later a b = leb a.index b.index

-- The end of an edit's old text.
abbrev pub end_of : Replacement → ℕ
end_of e = e.index + length e.old_text

-- Whether an edit begins before the previous one ends; `bound` is that end.
abbrev pub overlaps_from : ℕ → List Replacement → Bool
overlaps_from bound [] = false
overlaps_from bound (e ∷ es) = ltb e.index bound || overlaps_from (end_of e) es

abbrev pub overlaps : List Replacement → Bool
overlaps [] = false
overlaps (e ∷ es) = overlaps_from (end_of e) es

-- The replacements, from the last one to the first.
unfoldable pub apply_edits : List Replacement → Text → Text
apply_edits [] content = content
apply_edits (e ∷ es) content =
    let later = apply_edits es content in
    take e.index later ++ (e.new_text ++ drop (end_of e) later)

-- The body of Execute between the normalization and the restored line ends.
unfoldable pub update : Text → List Replacement → Outcome Text
unfolding locate_all apply_edits sort_stable
update content edits = elim (locate_all content 0 edits) [
  | failed error ↦ failed error
  | ok located ↦
      let sorted = sort_stable is_no_later located in
      if overlaps sorted
      then failed overlap
      else let updated = apply_edits sorted content in
        if text_eq updated content then failed no_changes else ok updated
]

-- The file's new bytes.
unfoldable pub rewrite : Text → List Replacement → Outcome Text
unfolding update
rewrite raw edits =
    let bom = if has_prefix raw mark then mark else [] in
    let content = trim_prefix raw mark in
    let windows = contains content crlf in
    if windows && has_mixed_line_endings content
    then failed mixed_endings
    else elim (update (normalize_newlines content) edits) [
      | failed error ↦ failed error
      | ok updated ↦ ok (bom ++ (if windows then replace_all updated lf crlf else updated))
    ]

-- What one call meets outside the tool: the resolved path, whether the context is done before the
-- file is read and before it is written, the file, and whether the write succeeds.
pub record World : Type 0 where
  pub path : Option Text
  pub done_first : Bool
  pub done_last : Bool
  pub file : Option Text
  pub writes : Bool

-- The end of Execute: the bytes that stand in the file, and the number of replacements.
abbrev pub write_back : World → ℕ → Outcome Text → Outcome (Text × ℕ)
write_back world n (failed error) = failed error
write_back world n (ok bytes) =
    if world.done_last
    then failed cancelled
    else if world.writes
    then ok (bytes, n)
    else failed write_failed

abbrev pub edit_file : World → List Replacement → Option Text → Outcome (Text × ℕ)
edit_file world edits none = failed read_failed
edit_file world edits (some raw) = write_back world (length edits) (rewrite raw edits)

abbrev pub start_edit : World → List Replacement → Option Text → Outcome (Text × ℕ)
start_edit world edits none = failed unresolved
start_edit world edits (some path) =
    if world.done_first then failed cancelled else edit_file world edits world.file

abbrev pub fresh : List (Text × Text) → List Replacement
fresh edits = map (λ e. record { old_text = e.0; new_text = e.1; index = 0 }) edits

abbrev pub edit_with : World → Text → Checked (List (Text × Text)) → Outcome (Text × ℕ)
edit_with world name (invalid error) = failed (bad_arguments error)
edit_with world name (valid edits) = start_edit world (fresh edits) world.path

abbrev pub edit_named : Checked (List (Text × Text)) → World → Checked Text → Outcome (Text × ℕ)
edit_named edits world (invalid error) = failed (bad_arguments error)
edit_named edits world (valid name) = edit_with world name edits

-- Execute. What a write that fails leaves in the file is not modelled.
unfoldable pub execute : (Text → Option Json) → World → Fields → Outcome (Text × ℕ)
unfolding rewrite edit_arguments string_argument
execute unmarshal world arguments =
    edit_named (edit_arguments unmarshal arguments) world (string_argument arguments (codes "path"))
