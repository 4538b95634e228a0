-- ===== src/Tools/Edit/Spliced.antt =====
-- internal/tools/edit.go: the search for each edit, and the replacements from the back.
use mathlib.Core.Bool.{true≢false}
use midas.Common.{
  ℕ, suc, zero, ◌+◌, ◌≤◌, ◌≡◌, refl, sym, ap, ◌∙◌, subst, true, false, Option, none, some, List, [],
  ◌∷◌, ◌++◌, ltb, ◌==◌, length, take, drop, All, arith, Bool-cases, inl, inr, take-append-drop,
  length-take, length-drop, drop-drop, length-append,
}
use midas.Common.Text.{Text, is_empty, has_prefix}
use midas.Common.Text.Find.{index_of, next_index, count, count_from, Stands, index_of_splits}
use midas.Tools.Edit.{
  Replacement, ok, locate, normalized_edit, found_at, end_of, overlaps_from, apply_edits,
}

-- The pieces of a list of edits, in their order, with what stands between them.
pub data Replaced : List Replacement → Text → Text → Type 0 where
  done : (s : Text) → Replaced [] s s
  replaced :
      (gap : Text) (e : Replacement) {es : List Replacement} {s t : Text}
      → Replaced es s t
      → Replaced (e ∷ es) (gap ++ (e.old_text ++ s)) (gap ++ (e.new_text ++ t))

abbrev pub IsThere : Text → Replacement → Type 0
IsThere content e = Stands content e.old_text e.index × (is_empty e.old_text ≡ false)

take-take : (s : Text) (b i : ℕ) → b ≤ i → take b (take i s) ≡ take b s
take-take s zero i h = refl
take-take [] (suc b) zero h = refl
take-take [] (suc b) (suc i) h = refl
take-take (c ∷ s) (suc b) zero h = absurd (omega arith)
take-take (c ∷ s) (suc b) (suc i) h = ap (c ∷◌) (take-take s b i (omega arith))

take-append : (s t : Text) (b : ℕ) → b ≤ length s → take b (s ++ t) ≡ take b s
take-append s t zero h = refl
take-append [] t (suc b) h = absurd (omega arith)
take-append (c ∷ s) t (suc b) h = ap (c ∷◌) (take-append s t b (omega arith))

drop-append_le : (s t : Text) (b : ℕ) → b ≤ length s → drop b (s ++ t) ≡ drop b s ++ t
drop-append_le s t zero h = refl
drop-append_le [] t (suc b) h = absurd (omega arith)
drop-append_le (c ∷ s) t (suc b) h = drop-append_le s t b (omega arith)

-- Where a text that is not empty stands there is room for it.
index-le-length :
    (s sub : Text) (i : ℕ) → Stands s sub i → is_empty sub ≡ false → i + length sub ≤ length s
index-le-length s [] i st ne = absurd (true≢false ne)
index-le-length s (c ∷ sub) i st ne =
    let cut = ap length st in
    omega
      (arith, length-drop i s, cut, length-append (c ∷ sub) (drop (suc (length sub)) (drop i s)))

-- A text around a place, and the text behind it.
around :
    (s sub : Text) (b i : ℕ)
    → b ≤ i
    → i ≤ length s
    → Stands s sub i
    → drop b s ≡ drop b (take i s) ++ (sub ++ drop (i + length sub) s)
around s sub b i le l st =
    ap (drop b) (sym (take-append-drop i s))
    ∙ drop-append_le (take i s) (drop i s) b (omega (arith, length-take i s))
    ∙ ap (λ x. drop b (take i s) ++ x) (st ∙ ap (λ x. sub ++ x) (drop-drop s i (length sub)))

-- The later edits leave what stands before a bound alone, and replace their pieces behind it.
pub apply_edits_from :
    (content : Text) (es : List Replacement) (b : ℕ)
    → overlaps_from b es ≡ false
    → b ≤ length content
    → All (IsThere content) es
    → (take b (apply_edits es content) ≡ take b content)
      × Replaced es (drop b content) (drop b (apply_edits es content))
unfolding apply_edits
apply_edits_from content [] b o l h = (refl, done (drop b content))
apply_edits_from content (e ∷ es) b o l ((st, ne), hs) =
    let later = apply_edits es content in
    let room = index-le-length content e.old_text e.index st ne in
    let before : b ≤ e.index = ground (arith, o) in
    let rest : overlaps_from (end_of e) es ≡ false = ground (arith, o) in
    let (kept, pieces) = apply_edits_from content es (end_of e) rest room hs in
    let front : take e.index later ≡ take e.index content =
      sym (take-take later e.index (end_of e) (omega arith))
      ∙ ap (take e.index) kept
      ∙ take-take content e.index (end_of e) (omega arith) in
    let tail = e.new_text ++ drop (end_of e) later in
    let fits : b ≤ length (take e.index content) =
      omega (arith, length-take e.index content, room, before) in
    (
      ap (λ x. take b (x ++ tail)) front
          ∙ take-append (take e.index content) tail b fits
          ∙ take-take content b e.index before,
      subst (λ x. Replaced (e ∷ es) x (drop b (take e.index later ++ tail)))
          (sym (around content e.old_text b e.index before (omega (arith, room)) st))
          (subst
            (λ x.
              Replaced (e ∷ es)
                (drop b (take e.index content) ++ (e.old_text ++ drop (end_of e) content)) x)
            (sym (
              ap (λ x. drop b (x ++ tail)) front
              ∙ drop-append_le (take e.index content) tail b fits))
            (replaced (drop b (take e.index content)) e pieces)),
    )

abbrev pub IsOnce : Text → Replacement → Type 0
IsOnce content e = IsThere content e × (count content e.old_text ≡ 1)

abbrev pub texts : Replacement → Text × Text
texts e = (e.old_text, e.new_text)

-- What is known of one edit that was located.
abbrev pub IsLocated : Text → Replacement → Replacement → Type 0
IsLocated content raw e = (texts e ≡ texts (normalized_edit raw)) × IsOnce content e

next_index-none : (o : Option ℕ) → next_index o ≡ none → o ≡ none
next_index-none none h = refl
next_index-none (some i) h = absurd (ground arith)

-- What is not found is not counted.
count-none : (s sub : Text) → index_of s sub ≡ none → count s sub ≡ 0
unfolding index_of count_from
count-none [] sub h = refl
count-none (c ∷ s) sub h = elim (Bool-cases (has_prefix (c ∷ s) sub)) [
  | inl p ↦ absurd (ground (arith, h, p))
  | inr p ↦ rw p (count-none s sub (next_index-none (index_of s sub) (ground (arith, h, p))))
]

found_at-IsOnce :
    (content : Text) (e : Replacement) (o : Option ℕ)
    → index_of content e.old_text ≡ o
    → is_empty e.old_text ≡ false
    → count content e.old_text ≡ 1
    → IsOnce content (found_at e o)
found_at-IsOnce content e none p ne c = absurd (omega (arith, c, count-none content e.old_text p))
found_at-IsOnce content e (some i) p ne c = ((index_of_splits content e.old_text i p, ne), c)

texts-found_at : (e : Replacement) (o : Option ℕ) → texts (found_at e o) ≡ texts e
texts-found_at e none = refl
texts-found_at e (some i) = refl

pub locate-IsLocated :
    (content : Text) (number : ℕ) (raw e : Replacement)
    → locate content number raw ≡ ok e
    → IsLocated content raw e
unfolding locate
locate-IsLocated content number raw e h =
    let n = normalized_edit raw in
    let times = count content n.old_text in
    elim (Bool-cases (is_empty n.old_text)) [
      | inl p ↦ absurd (ground (arith, h, p))
      | inr p ↦ elim (Bool-cases (times == 0)) [
        | inl q ↦ absurd (ground (arith, h, p, q))
        | inr q ↦ elim (Bool-cases (ltb 1 times)) [
          | inl r ↦ absurd (ground (arith, h, p, q, r))
          | inr r ↦
              let e' = found_at n (index_of content n.old_text) in
              let once : times ≡ 1 = ground (arith, q, r) in
              let same : e' ≡ e = ground (arith, h, p, q, r) in
              subst (IsLocated content raw) same (
                texts-found_at n (index_of content n.old_text),
                found_at-IsOnce content n (index_of content n.old_text) refl p once,
              )
        ]
      ]
    ]

-- The edits that were located, one for each that was asked for.
abbrev pub AreLocated : Text → List Replacement → List Replacement → Type 0
AreLocated content [] [] = Unit
AreLocated content [] (e ∷ es) = true ≡ false
AreLocated content (raw ∷ raws) [] = true ≡ false
AreLocated content (raw ∷ raws) (e ∷ es) = IsLocated content raw e × AreLocated content raws es
