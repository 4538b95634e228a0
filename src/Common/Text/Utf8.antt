-- ===== src/Common/Text/Utf8.antt =====
-- What the sources use of the package unicode/utf8.
use Prim.Native.Nat.{ℕ, ◌+◌, ◌-◌, ◌*◌, ◌≤◌}
use mathlib.Core.Bool.{Bool, true, false, not, ◌&&◌, ◌||◌}
use mathlib.Core.List.{[], ◌∷◌}
use native.Mathlib.Omega.{arith}
use midas.Common.Tests.{ltb, leb, ◌==◌, if◌then◌else◌}
use midas.Common.Text.{Text}

abbrev between : ℕ → ℕ → ℕ → Bool
between lo hi b = leb lo b && leb b hi

abbrev is_continuation : ℕ → Bool
is_continuation = between 0x80 0xbf

-- The length that the first byte of an encoding announces; 1 for a byte that begins none.
unfoldable pub announced : ℕ → ℕ
announced b =
    if ltb b 0xc2
    then 1
    else if ltb b 0xe0
    then 2
    else if ltb b 0xf0
    then 3
    else if ltb b 0xf5
    then 4
    else 1

-- Whether the second byte may follow the first.
unfoldable pub accepts : ℕ → ℕ → Bool
accepts a b =
    if a == 0xe0
    then between 0xa0 0xbf b
    else if a == 0xed
    then between 0x80 0x9f b
    else if a == 0xf0
    then between 0x90 0xbf b
    else if a == 0xf4
    then between 0x80 0x8f b
    else is_continuation b

abbrev accepts_third : ℕ → ℕ → ℕ → Bool
accepts_third a b c = accepts a b && is_continuation c

-- The size that utf8.DecodeRuneInString returns: 0 for no text, 1 for bytes that are no encoding.
unfoldable pub rune_size : Text → ℕ
unfolding announced accepts
rune_size [] = 0
rune_size (a ∷ []) = 1
rune_size (a ∷ b ∷ []) = if announced a == 2 && accepts a b then 2 else 1
rune_size (a ∷ b ∷ c ∷ []) =
    if announced a == 2 && accepts a b
    then 2
    else if announced a == 3 && accepts_third a b c
    then 3
    else 1
rune_size (a ∷ b ∷ c ∷ d ∷ _) =
    if announced a == 2 && accepts a b
    then 2
    else if announced a == 3 && accepts_third a b c
    then 3
    else if announced a == 4 && accepts_third a b c && is_continuation d
    then 4
    else 1

-- utf8.FullRuneInString: whether the text begins with an encoding, or with bytes that cannot become one.
unfoldable pub full_rune : Text → Bool
unfolding announced accepts
full_rune [] = false
full_rune (a ∷ []) = announced a == 1
full_rune (a ∷ b ∷ []) = leb (announced a) 2 || not (accepts a b)
full_rune (a ∷ b ∷ c ∷ []) = leb (announced a) 3 || not (accepts a b) || not (is_continuation c)
full_rune (a ∷ b ∷ c ∷ _ ∷ _) = true

-- The character that utf8.DecodeRuneInString returns for a text of a given size: U+FFFD where the
-- bytes are no encoding.
unfoldable pub rune_value : ℕ → Text → ℕ
rune_value size [] = 0xfffd
rune_value size (a ∷ []) = if ltb a 0x80 then a else 0xfffd
rune_value size (a ∷ b ∷ []) =
    if size == 2 then (a - 0xc0) * 64 + (b - 0x80) else if ltb a 0x80 then a else 0xfffd
rune_value size (a ∷ b ∷ c ∷ []) =
    if size == 3
    then (a - 0xe0) * 4096 + (b - 0x80) * 64 + (c - 0x80)
    else if size == 2
    then (a - 0xc0) * 64 + (b - 0x80)
    else if ltb a 0x80
    then a
    else 0xfffd
rune_value size (a ∷ b ∷ c ∷ d ∷ _) =
    if size == 4
    then (a - 0xf0) * 262144 + (b - 0x80) * 4096 + (c - 0x80) * 64 + (d - 0x80)
    else if size == 3
    then (a - 0xe0) * 4096 + (b - 0x80) * 64 + (c - 0x80)
    else if size == 2
    then (a - 0xc0) * 64 + (b - 0x80)
    else if ltb a 0x80
    then a
    else 0xfffd

pub rune_size-positive : (a : ℕ) (s : Text) → 1 ≤ rune_size (a ∷ s)
unfolding rune_size
rune_size-positive a [] = omega arith
rune_size-positive a (b ∷ []) = ground arith
rune_size-positive a (b ∷ c ∷ []) = ground arith
rune_size-positive a (b ∷ c ∷ d ∷ s) = ground arith
