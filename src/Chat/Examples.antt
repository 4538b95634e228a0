-- ===== src/Chat/Examples.antt =====
-- internal/chat: the theorems and the definitions at concrete inputs.
use midas.Common.{◌≡◌, refl, List, [], ◌∷◌, ◌++◌}
use midas.Common.Text.{Text, codes}
use midas.Chat.Task.{truncate_at_rune, cut_mark}
use midas.Chat.Task.Bounded.{append_all, flat, IsKept, append_all-keeps}

abbrev pieces : List Text
pieces = codes "ab" ∷ codes "cdef" ∷ codes "g" ∷ []

append_all-keeps_example : IsKept 4 (flat pieces) (append_all pieces [] 4)
append_all-keeps_example = append_all-keeps pieces 4 (refl, (refl, (refl, tt)))

-- Four bytes are the limit, and seven are kept.
kept_bytes : append_all pieces [] 4 ≡ codes "abcd" ++ cut_mark
unfolding append_all
kept_bytes = refl

-- A piece that fills the room exactly leaves no mark, although the next one is dropped.
exact_fit : append_all (codes "abcd" ∷ codes "e" ∷ []) [] 4 ≡ codes "abcd"
unfolding append_all
exact_fit = refl

-- A character is not split.
whole_character : truncate_at_rune (codes "a" ++ 0xc3 ∷ 0xa9 ∷ []) 2 ≡ codes "a"
unfolding truncate_at_rune
whole_character = refl
