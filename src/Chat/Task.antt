-- ===== src/Chat/Task.antt =====
-- internal/chat/task.go: the text that a delegated task streams back, kept to a number of bytes.
pub mod Bounded
use midas.Common.{
  ℕ, suc, zero, ◌+◌, ◌-◌, Bool, true, false, not, ◌&&◌, Option, none, some, List, [], ◌∷◌, ◌++◌,
  if◌then◌else◌, leb, ltb, length, take, get_elem?,
}
use midas.Common.Text.{Text}

-- The negation of utf8.RuneStart.
abbrev pub continues_rune : ℕ → Bool
continues_rune b = leb 0x80 b && leb b 0xbf

abbrev pub is_inside : Option ℕ → Bool
is_inside none = false
is_inside (some b) = continues_rune b

-- The loop of truncateAtRune.
unfoldable pub cut_back : ℕ → Text → ℕ
cut_back zero value = 0
cut_back (suc n) value =
    let earlier = cut_back n value in if is_inside (get_elem? value (suc n)) then earlier else suc n

-- truncateAtRune
unfoldable pub truncate_at_rune : Text → ℕ → Text
unfolding cut_back
truncate_at_rune value limit =
    if leb (length value) limit then value else take (cut_back limit value) value

-- The mark of a text that was cut, `…`.
abbrev pub cut_mark : Text
cut_mark = 0xe2 ∷ 0x80 ∷ 0xa6 ∷ []

-- appendBounded
unfoldable pub append_bounded : Text → Text → ℕ → Text
unfolding truncate_at_rune
append_bounded built text limit =
    let remaining = limit - length built in
    if leb limit (length built)
    then built
    else if ltb remaining (length text)
    then built ++ (truncate_at_rune text remaining ++ cut_mark)
    else built ++ text
