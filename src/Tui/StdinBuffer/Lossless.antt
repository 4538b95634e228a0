-- ===== src/Tui/StdinBuffer/Lossless.antt =====
-- internal/tui/stdin_buffer.go: what extractCompleteInputSequences makes of a text.
use midas.Common.{
  ℕ, suc, zero, ◌+◌, ◌≤◌, ◌≡◌, refl, ap, ◌∙◌, ◌&&◌, none, some, List, [], ◌∷◌, ◌++◌, leb, ◌==◌,
  length, take, drop, All, arith, Bool-cases, Option-cases, inl, inr, ◌⊎◌, take-append-drop,
  length-drop, append_assoc,
}
use midas.Common.Text.{Text}
use midas.Common.Text.Utf8.{rune_size, rune_size-positive}
use midas.Tui.StdinBuffer.Sequences.{
  Status, not_escape, incomplete, complete_sequence, rune_boundaries, taken, first_complete,
  first_key, extract, extract_all, escape, is_partial, complete_input_sequence,
}

abbrev pub joined : List Text → Text
joined [] = []
joined (s ∷ ss) = s ++ joined ss

rune_boundaries-positive :
    (k index : ℕ) (s : Text) → All (λ end. 1 ≤ end) (rune_boundaries k index s)
unfolding rune_boundaries
rune_boundaries-positive zero index s = tt
rune_boundaries-positive (suc k) index [] = tt
rune_boundaries-positive (suc k) index (c ∷ s) =
    elim (Bool-cases (leb 0x80 c && is_partial (c ∷ s))) [
      | inl p ↦ rw p tt
      | inr p ↦ rw p (
        omega (arith, rune_size-positive c s),
        rune_boundaries-positive k (index + rune_size (c ∷ s)) (drop (rune_size (c ∷ s)) (c ∷ s)),
      )
    ]

taken-positive : (s : Text) (end : ℕ) → 1 ≤ end → 1 ≤ taken s end
taken-positive s end l = ground (arith, l)

Status-cases : (t : Status) → (t ≡ complete_sequence) ⊎ ((t ≡ incomplete) ⊎ (t ≡ not_escape))
Status-cases complete_sequence = inl refl
Status-cases incomplete = inr (inl refl)
Status-cases not_escape = inr (inr refl)

first_complete-positive :
    (s : Text) (ends : List ℕ) (n : ℕ)
    → All (λ end. 1 ≤ end) ends
    → first_complete s ends ≡ some n
    → 1 ≤ n
unfolding first_complete
first_complete-positive s [] n h e = absurd (ground arith)
first_complete-positive s (end ∷ ends) n h e =
    elim (Status-cases (complete_input_sequence (take end s))) [
      | inl p ↦
          let same : taken s end ≡ n = ground (arith, e, p) in
          omega (arith, same, taken-positive s end h.0)
      | inr (inl p) ↦ first_complete-positive s ends n h.1 (ground (arith, e, p))
      | inr (inr p) ↦ let same : end ≡ n = ground (arith, e, p) in omega (arith, same, h.0)
    ]

-- The first key of a text has a byte.
first_key-positive : (s : Text) (n : ℕ) → first_key s ≡ some n → 1 ≤ n
unfolding first_key
first_key-positive [] n e = absurd (ground arith)
first_key-positive (c ∷ s) n e = elim (Bool-cases (c == escape)) [
  | inl p ↦
      first_complete-positive (c ∷ s) (rune_boundaries (length (c ∷ s)) 0 (c ∷ s)) n
        (rune_boundaries-positive (length (c ∷ s)) 0 (c ∷ s)) (ground (arith, e, p))
  | inr p ↦ elim (Bool-cases (leb 0x80 c && is_partial (c ∷ s))) [
    | inl q ↦ absurd (ground (arith, e, p, q))
    | inr q ↦
        let size : rune_size (c ∷ s) ≡ n = ground (arith, e, p, q) in
        omega (arith, size, rune_size-positive c s)
  ]
]

-- A text cut into keys: the keys and what remains make it up again, and what remains begins with no
-- complete key.
abbrev pub IsCut : Text → List Text → Text → Type 0
IsCut s keys rest = (joined keys ++ rest ≡ s) × (first_key rest ≡ none)

extract-IsCut : (k : ℕ) (s : Text) → length s ≤ k → IsCut s (extract k s).0 (extract k s).1
unfolding extract
extract-IsCut zero [] l = (refl, refl)
extract-IsCut zero (c ∷ s) l = absurd (omega arith)
extract-IsCut (suc k) s l = elim (Option-cases (first_key s)) [
  | inl p ↦ rw (extract, p) (refl, p)
  | inr (n, p) ↦
      let some_bytes = first_key-positive s n p in
      let rest = extract-IsCut k (drop n s) (omega (arith, l, length-drop n s, some_bytes)) in
      rw (extract, p)
        (
          append_assoc (take n s) (joined (extract k (drop n s)).0) (extract k (drop n s)).1
              ∙ ap (λ x. take n s ++ x) rest.0
              ∙ take-append-drop n s,
          rest.1,
        )
]

-- Whatever the terminal has sent, the loop that cuts it into keys ends, the keys in their order
-- with the remainder behind them are the bytes that were sent, and the remainder begins with no
-- complete key.
pub extract_all-IsCut : (s : Text) → IsCut s (extract_all s).0 (extract_all s).1
extract_all-IsCut s = extract-IsCut (length s) s (omega arith)
