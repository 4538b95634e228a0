-- ===== src/Common/Text/Find.antt =====
-- What the sources use of the package strings to search and to replace.
use midas.Common.Lists.{length, drop, length-drop, length-append}
use midas.Common.Tests.{◌==◌, if◌then◌else◌, Bool-cases, Option-cases}
use midas.Common.Text.{Text, has_prefix}
use Prim.Native.Nat.{ℕ, zero, suc, ◌+◌, ◌-◌, ◌≤◌}
use mathlib.Core.Path.{◌≡◌, refl, ap, ap₂, subst}
use mathlib.Core.Bool.{Bool, true, ◌&&◌, ◌||◌}
use mathlib.Core.Logic.{inl, inr}
use mathlib.Core.Option.{Option, none, some, some-injective}
use mathlib.Core.List.{[], ◌∷◌, ◌++◌}
use native.Mathlib.Omega.{arith}

abbrev pub next_index : Option ℕ → Option ℕ
next_index none = none
next_index (some i) = some (suc i)

-- strings.Index
unfoldable pub index_of : Text → Text → Option ℕ
unfolding has_prefix
index_of [] sub = if has_prefix [] sub then some 0 else none
index_of (c ∷ s) sub =
    let later = index_of s sub in if has_prefix (c ∷ s) sub then some 0 else next_index later

-- strings.Contains
unfoldable pub contains : Text → Text → Bool
unfolding has_prefix
contains [] sub = has_prefix [] sub
contains (c ∷ s) sub = has_prefix (c ∷ s) sub || contains s sub

-- strings.Count of a text that is not empty; the number is of bytes of the last one found that are
-- still to be passed.
unfoldable pub count_from : ℕ → Text → Text → ℕ
unfolding has_prefix
count_from k [] sub = 0
count_from (suc k) (c ∷ s) sub = count_from k s sub
count_from zero (c ∷ s) sub =
    let found = suc (count_from (length sub - 1) s sub) in
    let later = count_from 0 s sub in if has_prefix (c ∷ s) sub then found else later

abbrev pub count : Text → Text → ℕ
count s sub = count_from 0 s sub

-- strings.ReplaceAll of a text that is not empty.
unfoldable pub replace_from : ℕ → Text → Text → Text → Text
unfolding has_prefix
replace_from k [] old new = []
replace_from (suc k) (c ∷ s) old new = replace_from k s old new
replace_from zero (c ∷ s) old new =
    let found = new ++ replace_from (length old - 1) s old new in
    let later = c ∷ replace_from 0 s old new in if has_prefix (c ∷ s) old then found else later

abbrev pub replace_all : Text → Text → Text → Text
replace_all s old new = replace_from 0 s old new

pub has_prefix_splits : (s p : Text) → has_prefix s p ≡ true → s ≡ p ++ drop (length p) s
unfolding has_prefix
has_prefix_splits s [] h = refl
has_prefix_splits [] (b ∷ p) h = absurd (ground arith)
has_prefix_splits (a ∷ s) (b ∷ p) h =
    ap₂ (λ x xs. x ∷ xs) (ground arith) (has_prefix_splits s p (ground arith))

-- A text stands at a place.
abbrev pub Stands : Text → Text → ℕ → Type 0
Stands s sub i = drop i s ≡ sub ++ drop (length sub) (drop i s)

Stands-first : (s sub : Text) (i : ℕ) → has_prefix s sub ≡ true → some 0 ≡ some i → Stands s sub i
Stands-first s sub i p h = subst (Stands s sub) (some-injective _ _ h) (has_prefix_splits s sub p)

-- What is found stands there.
pub index_of_splits : (s sub : Text) (i : ℕ) → index_of s sub ≡ some i → Stands s sub i
unfolding index_of
index_of_splits [] sub i h = elim (Bool-cases (has_prefix [] sub)) [
  | inl p ↦ Stands-first [] sub i p (ground (arith, h, p))
  | inr p ↦ absurd (ground (arith, h, p))
]
index_of_splits (c ∷ s) sub i h = elim (Bool-cases (has_prefix (c ∷ s) sub)) [
  | inl p ↦ Stands-first (c ∷ s) sub i p (ground (arith, h, p))
  | inr p ↦ elim (Option-cases (index_of s sub)) [
    | inl q ↦ absurd (ground (arith, h, p, q))
    | inr (j, q) ↦
        let e : suc j ≡ i = ground (arith, h, p, q) in
        subst (Stands (c ∷ s) sub) e (index_of_splits s sub j q)
  ]
]

has_prefix-append : (s t p : Text) → length p ≤ length s → has_prefix (s ++ t) p ≡ has_prefix s p
unfolding has_prefix
has_prefix-append s t [] l = refl
has_prefix-append [] t (b ∷ p) l = absurd (omega arith)
has_prefix-append (a ∷ s) t (b ∷ p) l =
    ap (λ x. a == b && x) (has_prefix-append s t p (omega (arith, l)))

pub index-le-length :
    (s sub : Text) (i : ℕ) → Stands s sub i → i ≤ length s → i + length sub ≤ length s
index-le-length s sub i st l =
    let cut = ap length st in
    omega (arith, length-drop i s, cut, length-append sub (drop (length sub) (drop i s)), l)

pub index_of-le-length : (s sub : Text) (i : ℕ) → index_of s sub ≡ some i → i ≤ length s
unfolding index_of
index_of-le-length [] sub i h = ground (arith, h)
index_of-le-length (c ∷ s) sub i h = elim (Bool-cases (has_prefix (c ∷ s) sub)) [
  | inl p ↦ ground (arith, h, p)
  | inr p ↦ elim (Option-cases (index_of s sub)) [
    | inl q ↦ absurd (ground (arith, h, p, q))
    | inr (j, q) ↦
        let e : suc j ≡ i = ground (arith, h, p, q) in
        omega (arith, e, index_of-le-length s sub j q)
  ]
]

pub index_of-fits : (s sub : Text) (i : ℕ) → index_of s sub ≡ some i → i + length sub ≤ length s
index_of-fits s sub i h =
    index-le-length s sub i (index_of_splits s sub i h) (index_of-le-length s sub i h)

-- What is found is found in the same place when more text follows.
pub index_of-append :
    (s t sub : Text) (i : ℕ) → index_of s sub ≡ some i → index_of (s ++ t) sub ≡ some i
unfolding index_of
index_of-append [] [] sub i h = h
index_of-append [] (c ∷ t) sub i h =
    let fits = index_of-fits [] sub i h in
    rw (has_prefix-append [] (c ∷ t) sub (omega (arith, fits))) (ground (arith, h))
index_of-append (c ∷ s) t sub i h =
    let fits = index_of-fits (c ∷ s) sub i h in
    let same = has_prefix-append (c ∷ s) t sub (omega (arith, fits)) in
    elim (Bool-cases (has_prefix (c ∷ s) sub)) [
      | inl p ↦ rw (same, p) (ground (arith, h, p))
      | inr p ↦ elim (Option-cases (index_of s sub)) [
        | inl q ↦ absurd (ground (arith, h, p, q))
        | inr (j, q) ↦ rw (same, p, index_of-append s t sub j q) (ground (arith, h, p, q))
      ]
    ]
