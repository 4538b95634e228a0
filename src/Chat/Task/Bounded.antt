-- ===== src/Chat/Task/Bounded.antt =====
-- internal/chat/task.go: appendBounded on the pieces of a stream.
use midas.Common.{
  ℕ, suc, zero, ◌+◌, ◌-◌, ◌≤◌, ◌≡◌, refl, sym, ap, ◌∙◌, subst, Bool, true, false, ◌&&◌, ◌||◌, List,
  [], ◌∷◌, ◌++◌, leb, ltb, length, take, drop, get_elem?, All, arith, Bool-cases, inl, inr, ◌⊎◌,
  length-append, length-take, append_assoc, append-nil, take-append-drop,
}
use midas.Common.Text.{Text}
use midas.Chat.Task.{
  continues_rune, is_inside, cut_back, truncate_at_rune, cut_mark, append_bounded,
}

-- Four bytes in a row that continue a character, as no UTF-8 text has them.
abbrev pub has_long_run : Text → Bool
has_long_run [] = false
has_long_run (a ∷ []) = false
has_long_run (a ∷ b ∷ []) = false
has_long_run (a ∷ b ∷ c ∷ []) = false
has_long_run (a ∷ b ∷ c ∷ d ∷ s) =
    (continues_rune a && continues_rune b && continues_rune c && continues_rune d)
    || has_long_run (b ∷ c ∷ d ∷ s)

no_run_at :
    (s : Text) (i : ℕ)
    → has_long_run s ≡ false
    → (is_inside (get_elem? s i)
        && is_inside (get_elem? s (suc i))
        && is_inside (get_elem? s (suc (suc i)))
        && is_inside (get_elem? s (suc (suc (suc i)))))
      ≡ false
no_run_at [] zero h = refl
no_run_at [] (suc i) h = refl
no_run_at (a ∷ []) i h = ground arith
no_run_at (a ∷ b ∷ []) i h = ground arith
no_run_at (a ∷ b ∷ c ∷ []) i h = ground arith
no_run_at (a ∷ b ∷ c ∷ d ∷ s) zero h = ground (arith, h)
no_run_at (a ∷ b ∷ c ∷ d ∷ s) (suc i) h = no_run_at (b ∷ c ∷ d ∷ s) i (ground (arith, h))

cut_back-le : (n : ℕ) (s : Text) → cut_back n s ≤ n
unfolding cut_back
cut_back-le zero s = omega arith
cut_back-le (suc n) s = elim (Bool-cases (is_inside (get_elem? s (suc n)))) [
  | inl p ↦ rw p (omega (arith, cut_back-le n s))
  | inr p ↦ rw p (omega arith)
]

cut_back-near : (n : ℕ) (s : Text) → has_long_run s ≡ false → n ≤ cut_back n s + 3
unfolding cut_back
cut_back-near zero s h = omega arith
cut_back-near (suc zero) s h = omega arith
cut_back-near (suc (suc zero)) s h = omega arith
cut_back-near (suc (suc (suc zero))) s h = omega arith
cut_back-near (suc (suc (suc (suc n)))) s h = ground (arith, no_run_at s (suc n) h)

-- All pieces of a stream, one after the other.
unfoldable pub append_all : List Text → Text → ℕ → Text
unfolding append_bounded
append_all [] built limit = built
append_all (t ∷ ts) built limit = append_all ts (append_bounded built t limit) limit

abbrev pub flat : List Text → Text
flat [] = []
flat (t ∷ ts) = t ++ flat ts

-- Nothing of what came is missing; or what is kept is a beginning of it, within the limit, with or
-- without the mark, and there is no room for more.
abbrev pub IsWhole : ℕ → Text → Text → Type 0
IsWhole limit came built = (built ≡ came) × (length came ≤ limit)

abbrev pub IsCutOff : ℕ → Text → Text → Type 0
IsCutOff limit came built =
    (kept : Text) × (rest : Text) × (came ≡ kept ++ rest)
    × (length kept ≤ limit)
    × (limit ≤ length built)
    × ((built ≡ kept) ⊎ ((built ≡ kept ++ cut_mark) × (suc limit ≤ length came)))

IsCutOff-more :
    (limit : ℕ) (came built text : Text)
    → IsCutOff limit came built
    → IsCutOff limit (came ++ text) (append_bounded built text limit)
unfolding append_bounded
IsCutOff-more limit came built text (kept, rest, e, l, full, o) =
    let stops : leb limit (length built) ≡ true = ground (arith, full) in
    rw (append_bounded, stops)
      (kept, rest ++ text, ap (λ x. x ++ text) e ∙ append_assoc kept rest text, l, full, later o)
  where
    later :
        (built ≡ kept) ⊎ ((built ≡ kept ++ cut_mark) × (suc limit ≤ length came))
        → (built ≡ kept) ⊎ ((built ≡ kept ++ cut_mark) × (suc limit ≤ length (came ++ text)))
    later (inl same) = inl same
    later (inr (same, more)) = inr (same, omega (arith, more, length-append came text))

truncate_at_rune_long :
    (value : Text) (limit : ℕ)
    → ltb limit (length value) ≡ true
    → truncate_at_rune value limit ≡ take (cut_back limit value) value
unfolding truncate_at_rune
truncate_at_rune_long value limit h =
    let long : leb (length value) limit ≡ false = ground (arith, h) in
    rw (truncate_at_rune, long) refl

IsWhole-more :
    (limit : ℕ) (came text : Text)
    → has_long_run text ≡ false
    → length came ≤ limit
    → IsWhole limit (came ++ text) (append_bounded came text limit)
      ⊎ IsCutOff limit (came ++ text) (append_bounded came text limit)
unfolding append_bounded
IsWhole-more limit came text h l = elim (Bool-cases (leb limit (length came))) [
  | inl p ↦ inr (rw (append_bounded, p) (came, text, refl, l, ground (arith, p), inl refl))
  | inr p ↦ elim (Bool-cases (ltb (limit - length came) (length text))) [
    | inl q ↦
        let room = limit - length came in
        let cut = cut_back room text in
        let sizes = length-append came (take cut text) in
        let within = cut_back-le room text in
        let near = cut_back-near room text h in
        let longer : suc room ≤ length text = ground (arith, q) in
        inr (
          rw (append_bounded, p, q, truncate_at_rune_long text room q)
            (
              came ++ take cut text,
              drop cut text,
              ap (λ x. came ++ x) (sym (take-append-drop cut text))
                  ∙ sym (append_assoc came (take cut text) (drop cut text)),
              omega (arith, sizes, length-take cut text, within, l),
              omega (
                arith,
                length-append came (take cut text ++ cut_mark),
                length-append (take cut text) cut_mark,
                length-take cut text,
                near,
                within,
                longer,
              ),
              inr (
                sym (append_assoc came (take cut text) cut_mark),
                omega (arith, length-append came text, longer),
              ),
            ))
    | inr q ↦
        inl (rw (append_bounded, p, q) (refl, ground (arith, p, q, l, length-append came text)))
  ]
]

-- What the pieces leave.
abbrev pub IsKept : ℕ → Text → Text → Type 0
IsKept limit came built = IsWhole limit came built ⊎ IsCutOff limit came built

append_all-IsKept :
    (ts : List Text) (came built : Text) (limit : ℕ)
    → All (λ t. has_long_run t ≡ false) ts
    → IsKept limit came built
    → IsKept limit (came ++ flat ts) (append_all ts built limit)
unfolding append_all
append_all-IsKept [] came built limit h k =
    subst (λ x. IsKept limit x built) (sym (append-nil came)) k
append_all-IsKept (t ∷ ts) came built limit h k =
    subst (λ x. IsKept limit x (append_all ts (append_bounded built t limit) limit))
      (append_assoc came t (flat ts))
      (append_all-IsKept ts (came ++ t) (append_bounded built t limit) limit h.1 (step k))
  where
    step : IsKept limit came built → IsKept limit (came ++ t) (append_bounded built t limit)
    step (inl (e, l)) =
        subst (λ x. IsKept limit (came ++ t) (append_bounded x t limit)) (sym e)
          (IsWhole-more limit came t h.0 l)
    step (inr c) = inr (IsCutOff-more limit came built t c)

-- Of the pieces of a stream, each of them UTF-8 text, a task keeps all bytes if they are no more
-- than the limit; else it keeps a beginning of them within the limit, with the mark of a cut behind
-- it or, where the beginning has exactly the limit's bytes, without one, and no later piece is added.
pub append_all-keeps :
    (ts : List Text) (limit : ℕ)
    → All (λ t. has_long_run t ≡ false) ts
    → IsKept limit (flat ts) (append_all ts [] limit)
append_all-keeps ts limit h = append_all-IsKept ts [] [] limit h (inl (refl, omega arith))
