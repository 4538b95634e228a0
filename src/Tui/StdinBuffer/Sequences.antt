-- ===== src/Tui/StdinBuffer/Sequences.antt =====
-- internal/tui/stdin_buffer.go: what one key is, and how a text is cut into keys.
use midas.Common.{
  ℕ, suc, zero, ◌+◌, ◌-◌, ◌*◌, Bool, true, false, not, ◌&&◌, ◌||◌, Option, none, some, List, [],
  ◌∷◌, if◌then◌else◌, ltb, leb, ◌==◌, length, take, drop, get_elem?,
}
use midas.Common.Text.{Text, codes, text_eq, has_prefix, is_empty}
use midas.Common.Text.Utf8.{rune_size, full_rune}

abbrev pub escape : ℕ
escape = 0x1b

abbrev pub is_digit : ℕ → Bool
is_digit c = leb 48 c && leb c 57

abbrev pub skip_digits : Text → Text
skip_digits [] = []
skip_digits (c ∷ s) = let rest = skip_digits s in if is_digit c then rest else c ∷ s

-- `\d+` and one more byte, in the patterns of the file.
abbrev pub after_digits : Text → Option Text
after_digits [] = none
after_digits (c ∷ s) = if is_digit c then some (skip_digits s) else none

abbrev pub expect : ℕ → Option Text → Option Text
expect c none = none
expect c (some []) = none
expect c (some (d ∷ s)) = if d == c then some s else none

abbrev pub and_digits : Option Text → Option Text
and_digits none = none
and_digits (some s) = after_digits s

abbrev pub is_mouse_end : Option Text → Bool
is_mouse_end none = false
is_mouse_end (some []) = false
is_mouse_end (some (c ∷ [])) = c == 77 || c == 109
is_mouse_end (some (_ ∷ _ ∷ _)) = false

-- sgrMousePattern, for what follows `ESC [`.
abbrev pub is_sgr_mouse : Text → Bool
is_sgr_mouse s =
    is_mouse_end (and_digits (expect 59 (and_digits (expect 59 (and_digits (expect 60 (some s)))))))

pub data Status : Type 0 where
  not_escape incomplete complete_sequence : Status

abbrev pub complete_if : Bool → Status
complete_if true = complete_sequence
complete_if false = incomplete

abbrev pub last : Text → ℕ
last [] = 0
last (c ∷ []) = c
last (c ∷ d ∷ s) = last (d ∷ s)

-- strings.HasSuffix with `ESC \`.
abbrev pub ends_string : Text → Bool
ends_string [] = false
ends_string (c ∷ []) = false
ends_string (c ∷ d ∷ []) = c == escape && d == 92
ends_string (c ∷ d ∷ e ∷ s) = ends_string (d ∷ e ∷ s)

-- The cases after `ESC [`, for what follows it.
abbrev pub control_status : Text → Status
control_status payload =
    if has_prefix payload (codes "M")
    then complete_if (leb 4 (length payload))
    else if is_empty payload
    then incomplete
    else if ltb (last payload) 0x40 || ltb 0x7e (last payload)
    then incomplete
    else if has_prefix payload (codes "<")
    then complete_if ((last payload == 77 || last payload == 109) && is_sgr_mouse payload)
    else complete_sequence

abbrev pub is_partial : Text → Bool
is_partial s = rune_size s == 1 && not (full_rune s)

abbrev pub follows_escape : Text → Text → Status
follows_escape whole [] = incomplete
follows_escape whole (c ∷ s) =
    if c == 91
    then control_status s
    else if c == 93
    then complete_if (ends_string whole || last whole == 7)
    else if c == 80 || c == 95
    then complete_if (ends_string whole)
    else if c == 79
    then complete_if (not (is_empty s))
    else complete_if (not (leb 0x80 c && is_partial (c ∷ s)))

-- completeInputSequence
unfoldable pub complete_input_sequence : Text → Status
unfolding has_prefix rune_size full_rune
complete_input_sequence [] = not_escape
complete_input_sequence (c ∷ s) = if c == escape then follows_escape (c ∷ s) s else not_escape

-- runeBoundaries, from an index on; the fuel is of characters.
unfoldable pub rune_boundaries : ℕ → ℕ → Text → List ℕ
unfolding rune_size full_rune
rune_boundaries zero index s = []
rune_boundaries (suc k) index [] = []
rune_boundaries (suc k) index (c ∷ s) =
    let size = rune_size (c ∷ s) in
    let rest = rune_boundaries k (index + size) (drop size (c ∷ s)) in
    if leb 0x80 c && is_partial (c ∷ s) then [] else (index + size) ∷ rest

-- Two escapes before a byte that begins a longer sequence are one escape and that sequence.
abbrev pub begins_sequence : Option ℕ → Bool
begins_sequence none = false
begins_sequence (some c) = c == 91 || c == 93 || c == 79 || c == 80 || c == 95

abbrev pub taken : Text → ℕ → ℕ
taken s end =
    if text_eq (take end s) (escape ∷ escape ∷ []) && begins_sequence (get_elem? s end)
    then 1
    else end

-- The length of the first sequence of a text that begins with an escape.
unfoldable pub first_complete : Text → List ℕ → Option ℕ
unfolding complete_input_sequence text_eq
first_complete s [] = none
first_complete s (end ∷ ends) =
    let later = first_complete s ends in
    elim (complete_input_sequence (take end s)) [
      | complete_sequence ↦ some (taken s end)
      | incomplete ↦ later
      | not_escape ↦ some end
    ]

-- The length of the first key of a text, if it is complete.
unfoldable pub first_key : Text → Option ℕ
unfolding first_complete rune_boundaries rune_size full_rune
first_key [] = none
first_key (c ∷ s) =
    if c == escape
    then first_complete (c ∷ s) (rune_boundaries (length (c ∷ s)) 0 (c ∷ s))
    else if leb 0x80 c && is_partial (c ∷ s)
    then none
    else some (rune_size (c ∷ s))

abbrev pub with_key : Text → List Text × Text → List Text × Text
with_key key rest = (key ∷ rest.0, rest.1)

-- extractCompleteInputSequences: the keys and the remainder. The fuel is of keys.
unfoldable pub extract : ℕ → Text → List Text × Text
unfolding first_key
extract zero s = ([], s)
extract (suc k) s = elim (first_key s) [
  | none ↦ ([], s)
  | some n ↦ with_key (take n s) (extract k (drop n s))
]

abbrev pub extract_all : Text → List Text × Text
extract_all s = extract (length s) s

-- The digits that a text begins with, as a number.
abbrev pub number_from : ℕ → Text → ℕ
number_from n [] = n
number_from n (c ∷ s) =
    let more = number_from (n * 10 + (c - 48)) s in if is_digit c then more else n

abbrev pub is_u : Option Text → Bool
is_u none = false
is_u (some []) = false
is_u (some (c ∷ [])) = c == 117
is_u (some (_ ∷ _ ∷ _)) = false

abbrev pub skipped : Option Text → Option Text
skipped none = none
skipped (some s) = some (skip_digits s)

-- unmodifiedKittyPrintablePattern behind the number: nothing, a shifted key, a modifier, or both.
abbrev pub is_kitty_rest : Text → Bool
is_kitty_rest s =
    is_u (some s)
    || is_u (skipped (expect 58 (some s)))
    || is_u (and_digits (expect 58 (some s)))
    || is_u (and_digits (expect 58 (skipped (expect 58 (some s)))))

-- unmodifiedKittyPrintable; a number that an int does not hold is too large in any case.
unfoldable pub kitty_printable : Text → Option ℕ
unfolding has_prefix
kitty_printable s =
    let payload = drop 2 s in
    let n = number_from 0 payload in
    elim (after_digits payload) [
      | none ↦ none
      | some rest ↦
          if has_prefix s (escape ∷ 91 ∷ []) && is_kitty_rest rest && leb 32 n && leb n 0x10ffff
          then some n
          else none
    ]
