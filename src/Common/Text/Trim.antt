-- ===== src/Common/Text/Trim.antt =====
-- What strings.TrimSpace gives: a text without white space at its ends, which it leaves alone.
use mathlib.Core.Path.{◌≡◌, refl, sym, ap, ◌∙◌}
use mathlib.Core.Bool.{true, false}
use mathlib.Core.List.{
  [], ◌∷◌, ◌++◌, reverse, reverse-append, reverse-cons, append_assoc, reverse-reverse,
}
use Prim.Native.Nat.{ℕ, zero, suc}
use native.Mathlib.Omega.{arith}
use midas.Common.Lists.{length, drop}
use midas.Common.Text.{
  Text, strip, space_width, space_width_back, trim_space, is_empty, has_prefix, trim_prefix,
  is_ascii_space, is_space_2, is_space_3,
}

-- No white space at the beginning, and at the end.
pub record IsTrimmed (s : Text) : Type 0 where
  pub front : space_width s ≡ 0
  pub back : space_width_back (reverse s) ≡ 0

strip_none : (width : Text → ℕ) (s : Text) → width s ≡ 0 → strip width 0 s ≡ s
unfolding strip
strip_none width [] e = refl
strip_none width (a ∷ s) e = go (width (a ∷ s)) e
  where
    go : (n : ℕ) → n ≡ 0 → elim n [ zero ↦ a ∷ s | suc w ↦ strip width w s ] ≡ a ∷ s
    go n q = rw q refl

strip_width : (width : Text → ℕ) (k : ℕ) (s : Text) → width [] ≡ 0 → width (strip width k s) ≡ 0
unfolding strip
strip_width width k [] e = e
strip_width width (suc k) (a ∷ s) e = strip_width width k s e
strip_width width zero (a ∷ s) e = go (width (a ∷ s)) refl (λ w. strip_width width w s e)
  where
    go :
        (n : ℕ)
        → width (a ∷ s) ≡ n
        → ((w : ℕ) → width (strip width w s) ≡ 0)
        → width (elim n [ zero ↦ a ∷ s | suc w ↦ strip width w s ]) ≡ 0
    go zero q ih = q
    go (suc w) q ih = ih w

pub trim_space_trimmed : (s : Text) → IsTrimmed s → trim_space s ≡ s
unfolding trim_space
trim_space_trimmed s h =
    ap (λ r. reverse (strip space_width_back 0 (reverse r))) (strip_none space_width s h.front)
    ∙ ap reverse (strip_none space_width_back (reverse s) h.back)
    ∙ reverse-reverse s

-- What is cut off at the end leaves the beginning.
space_width_prefix : (s t : Text) → space_width (s ++ t) ≡ 0 → space_width s ≡ 0
unfolding space_width is_ascii_space is_space_2 is_space_3
space_width_prefix [] t h = refl
space_width_prefix (a ∷ []) [] h = h
space_width_prefix (a ∷ []) (x ∷ []) h = ground arith
space_width_prefix (a ∷ []) (x ∷ y ∷ t) h = ground arith
space_width_prefix (a ∷ b ∷ []) [] h = h
space_width_prefix (a ∷ b ∷ []) (x ∷ t) h = ground arith
space_width_prefix (a ∷ b ∷ c ∷ s) t h = h

strip_suffix : (width : Text → ℕ) (k : ℕ) (s : Text) → (p : Text) × (s ≡ p ++ strip width k s)
unfolding strip
strip_suffix width k [] = ([], refl)
strip_suffix width (suc k) (a ∷ s) = let (p, e) = strip_suffix width k s in (a ∷ p, ap (a ∷◌) e)
strip_suffix width zero (a ∷ s) = go (width (a ∷ s)) (λ w. strip_suffix width w s)
  where
    go :
        (n : ℕ)
        → ((w : ℕ) → (p : Text) × (s ≡ p ++ strip width w s))
        → (p : Text) × (a ∷ s ≡ p ++ elim n [ zero ↦ a ∷ s | suc w ↦ strip width w s ])
    go zero ih = ([], refl)
    go (suc w) ih = let (p, e) = ih w in (a ∷ p, ap (a ∷◌) e)

pub IsTrimmed-trim_space : (s : Text) → IsTrimmed (trim_space s)
unfolding trim_space space_width space_width_back
IsTrimmed-trim_space s =
    let inner = strip space_width 0 s in
    let kept = strip space_width_back 0 (reverse inner) in
    let (p, e) = strip_suffix space_width_back 0 (reverse inner) in
    let whole : inner ≡ reverse kept ++ reverse p =
      sym (reverse-reverse inner) ∙ ap reverse e ∙ reverse-append p kept in
    record {
      front =
          space_width_prefix (reverse kept) (reverse p)
            (ap space_width (sym whole) ∙ strip_width space_width 0 s refl);
      back =
          ap space_width_back (reverse-reverse kept)
          ∙ strip_width space_width_back 0 (reverse inner) refl;
    }

-- A newline before a text, and anything before that, does not make its end white space.
space_width_back_newline :
    (r z : Text) → is_empty r ≡ false → space_width_back r ≡ 0 → space_width_back (r ++ 10 ∷ z) ≡ 0
unfolding space_width_back is_ascii_space is_space_2 is_space_3
space_width_back_newline [] z e h = absurd (ground arith)
space_width_back_newline (a ∷ []) [] e h = ground arith
space_width_back_newline (a ∷ []) (x ∷ z) e h = ground arith
space_width_back_newline (a ∷ b ∷ []) z e h = ground arith
space_width_back_newline (a ∷ b ∷ c ∷ r) z e h = h

reverse_nonempty : (s : Text) → is_empty s ≡ false → is_empty (reverse s) ≡ false
reverse_nonempty [] e = e
reverse_nonempty (a ∷ s) e = ap is_empty (reverse-cons a s) ∙ last_nonempty (reverse s)
  where
    last_nonempty : (r : Text) → is_empty (r ++ a ∷ []) ≡ false
    last_nonempty [] = refl
    last_nonempty (_ ∷ _) = refl

-- The end of a text that is not empty, after a newline.
pub back_newline :
    (x t : Text)
    → is_empty t ≡ false
    → space_width_back (reverse t) ≡ 0
    → space_width_back (reverse (x ++ 10 ∷ t)) ≡ 0
back_newline x t e h =
    ap space_width_back (
      reverse-append x (10 ∷ t)
      ∙ ap (λ r. r ++ reverse x) (reverse-cons 10 t)
      ∙ append_assoc (reverse t) (10 ∷ []) (reverse x))
    ∙ space_width_back_newline (reverse t) (reverse x) (reverse_nonempty t e) h

pub trim_space_newline : (t : Text) → trim_space (10 ∷ t) ≡ trim_space t
unfolding trim_space strip space_width is_ascii_space
trim_space_newline [] = refl
trim_space_newline (a ∷ []) = refl
trim_space_newline (a ∷ b ∷ t) = refl

pub has_prefix-append : (p t : Text) → has_prefix (p ++ t) p ≡ true
unfolding has_prefix
has_prefix-append [] [] = refl
has_prefix-append [] (_ ∷ _) = refl
has_prefix-append (a ∷ p) t = ground (arith, has_prefix-append p t)

pub trim_prefix-append : (p t : Text) → trim_prefix (p ++ t) p ≡ t
unfolding trim_prefix
trim_prefix-append p t = rw (has_prefix-append p t) (drop-append_same p)
  where
    drop-append_same : (p : Text) → drop (length p) (p ++ t) ≡ t
    drop-append_same [] = refl
    drop-append_same (_ ∷ p) = drop-append_same p
