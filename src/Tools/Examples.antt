-- ===== src/Tools/Examples.antt =====
-- internal/tools: the theorems and the definitions at concrete inputs.
use midas.Common.{◌≡◌, refl, true, false, none, some, List, [], ◌∷◌, ◌++◌}
use midas.Common.Text.{Text, codes, text_eq, trim_prefix}
use midas.Common.Text.Find.{index_of, contains, count_from, replace_from}
use midas.Common.Sort.{sort_stable}
use midas.Tools.Edit.{
  Replacement, ok, failed, overlap, update, rewrite, execute, mark, normalize_newlines,
  has_mixed_line_endings,
}
use midas.Tools.Edit.Arguments.{
  text, array, item, no_items, object, field, no_fields, Fields, get_field,
}
use midas.Tools.Edit.Updated.{IsUpdate, update-IsUpdate}
use midas.Tools.Edit.Endings.{IsRewrite, rewrite_keeps_endings}

abbrev edit : Text → Text → Replacement
edit old new = record { old_text = old; new_text = new; index = 0 }

-- Two edits out of their order, one of which would match what the other inserts.
abbrev edits : List Replacement
edits = edit (codes "two") (codes "one") ∷ edit (codes "one") (codes "1") ∷ []

both_edits : update (codes "one two") edits ≡ ok (codes "1 one")
unfolding update text_eq index_of count_from normalize_newlines sort_stable replace_from
both_edits = refl

update-IsUpdate_example : IsUpdate (codes "one two") edits (codes "1 one")
update-IsUpdate_example = update-IsUpdate (codes "one two") edits (codes "1 one") both_edits

abbrev windows_file : Text
windows_file = mark ++ codes "one" ++ 13 ∷ 10 ∷ codes "two" ++ 13 ∷ 10 ∷ []

abbrev windows_edited : Text
windows_edited = mark ++ codes "1" ++ 13 ∷ 10 ∷ codes "one" ++ 13 ∷ 10 ∷ []

rewrites : rewrite windows_file edits ≡ ok windows_edited
unfolding rewrite text_eq index_of count_from normalize_newlines sort_stable trim_prefix contains
    has_mixed_line_endings replace_from
rewrites = refl

rewrite_keeps_endings_example : IsRewrite windows_file edits windows_edited
unfolding trim_prefix
rewrite_keeps_endings_example =
    rewrite_keeps_endings windows_file edits windows_edited refl rewrites

-- A file whose lines end in single carriage returns and in line feeds is not refused, and all its
-- line ends change.
lone_returns_change :
    rewrite (codes "one" ++ 13 ∷ codes "two" ++ 10 ∷ []) (edit (codes "two") (codes "2") ∷ [])
    ≡ ok (codes "one" ++ 10 ∷ codes "2" ++ 10 ∷ [])
unfolding rewrite text_eq index_of count_from normalize_newlines sort_stable trim_prefix contains
    has_mixed_line_endings replace_from
lone_returns_change = refl

overlapping :
    update (codes "abc") (edit (codes "bc") (codes "x") ∷ edit (codes "ab") (codes "y") ∷ [])
    ≡ failed overlap
unfolding update text_eq index_of count_from normalize_newlines sort_stable replace_from
overlapping = refl

abbrev call : Fields
call = field (codes "path") (text (codes "notes")) (
    field (codes "edits")
      (array (
        item
          (object (
            field (codes "oldText") (text (codes "a"))
              (field (codes "newText") (text (codes "b")) no_fields)))
          no_items))
      no_fields)

executes :
    execute
      (λ s. none)
      (record {
        path = some (codes "/notes");
        done_first = false;
        done_last = false;
        file = some (codes "cab");
        writes = true;
      })
      call
    ≡ ok (codes "cbb", 1)
unfolding execute text_eq index_of count_from normalize_newlines sort_stable trim_prefix contains
    get_field replace_from
executes = refl
