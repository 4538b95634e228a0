-- ===== src/Ai/KeyPool/Candidates.antt =====
-- pkg/ai/api_key_pool.go: which keys a call tries.
use midas.Common.{
  ℕ, ◌≡◌, refl, sym, ap, subst, ◌∙◌, false, not, ◌&&◌, ◌||◌, List, [], ◌∷◌, ◌++◌, arith, Bool-cases,
  inl, inr, if◌then◌else◌,
}
use midas.Common.Text.{Text, text_eq, text_eq→eq, text_eq_refl, is_empty}
use midas.Ai.KeyPool.{Pool, holds, unique_from, unique_api_keys, set_aside, eligible, candidates}

-- No key stands twice in the list.
unfoldable pub Distinct : List Text → Type 0
Distinct [] = Unit
Distinct (k ∷ ks) = (holds ks k ≡ false) × Distinct ks

holds-append : (xs ys : List Text) (k : Text) → holds (xs ++ ys) k ≡ holds xs k || holds ys k
unfolding holds
holds-append [] ys k = refl
holds-append (x ∷ xs) ys k = ground (arith, holds-append xs ys k)

-- A test of texts that agree.
text_eq_sym : (a b : Text) → text_eq a b ≡ text_eq b a
text_eq_sym a b = elim (Bool-cases (text_eq a b)) [
  | inl e ↦
      ap (λ x. text_eq a x) (sym (text_eq→eq a b e)) ∙ ap (λ x. text_eq x a) (text_eq→eq a b e)
  | inr e ↦ elim (Bool-cases (text_eq b a)) [
    | inl f ↦
        ap (λ x. text_eq a x) (text_eq→eq b a f) ∙ ap (λ x. text_eq x a) (sym (text_eq→eq b a f))
    | inr f ↦ e ∙ sym f
  ]
]

step : List Text → Text → List Text
step result value = if is_empty value || holds result value then result else result ++ value ∷ []

holds-step_same :
    (result : List Text) (k : Text) → holds (step result k) k ≡ holds result k || not (is_empty k)
unfolding step holds
holds-step_same result k = ground (arith, text_eq_refl k, holds-append result (k ∷ []) k)

holds-step_other :
    (result : List Text) (value k : Text)
    → text_eq value k ≡ false
    → holds (step result value) k ≡ holds result k
unfolding step holds
holds-step_other result value k e = ground (arith, holds-append result (value ∷ []) k)

holds-step :
    (result : List Text) (value k : Text)
    → holds (step result value) k ≡ holds result k || (not (is_empty k) && text_eq value k)
holds-step result value k = elim (Bool-cases (text_eq value k)) [
  | inl e ↦
      subst (λ v. holds (step result v) k ≡ holds result k || (not (is_empty k) && text_eq v k))
        (sym (text_eq→eq value k e)) (ground (arith, holds-step_same result k, text_eq_refl k))
  | inr e ↦ ground (arith, holds-step_other result value k e)
]

holds-unique_from :
    (result values : List Text) (k : Text)
    → holds (unique_from result values) k ≡ holds result k || (not (is_empty k) && holds values k)
unfolding unique_from holds step
holds-unique_from result [] k = ground arith
holds-unique_from result (value ∷ values) k =
    ground (arith, holds-step result value k, holds-unique_from (step result value) values k)

Distinct-append :
    (xs : List Text) (v : Text) → holds xs v ≡ false → Distinct xs → Distinct (xs ++ v ∷ [])
unfolding Distinct holds
Distinct-append [] v h d = (refl, tt)
Distinct-append (x ∷ xs) v h d = (
  ground (arith, holds-append xs (v ∷ []) x, text_eq_sym v x),
  Distinct-append xs v (ground arith) d.1,
)

Distinct-step : (result : List Text) (value : Text) → Distinct result → Distinct (step result value)
unfolding step
Distinct-step result value d = elim (Bool-cases (is_empty value || holds result value)) [
  | inl e ↦ rw e d
  | inr e ↦ rw e (Distinct-append result value (ground arith) d)
]

Distinct-unique_from :
    (result values : List Text) → Distinct result → Distinct (unique_from result values)
unfolding unique_from step
Distinct-unique_from result [] d = d
Distinct-unique_from result (value ∷ values) d =
    Distinct-unique_from (step result value) values (Distinct-step result value d)

-- The tests of `candidates` on a key.
holds-eligible :
    (p : Pool) (now : ℕ) (ks : List Text) (k : Text)
    → holds (eligible p now ks) k ≡ holds ks k && not (set_aside (p.health k) now)
unfolding eligible holds
holds-eligible p now [] k = refl
holds-eligible p now (x ∷ ks) k = elim (Bool-cases (text_eq x k)) [
  | inl e ↦
      ground
        (arith, holds-eligible p now ks k, ap (λ y. set_aside (p.health y) now) (text_eq→eq x k e))
  | inr e ↦ ground (arith, holds-eligible p now ks k)
]

Distinct-eligible :
    (p : Pool) (now : ℕ) (ks : List Text) → Distinct ks → Distinct (eligible p now ks)
unfolding eligible Distinct
Distinct-eligible p now [] d = tt
Distinct-eligible p now (x ∷ ks) d =
    ground (arith, Distinct-eligible p now ks d.1, d.0, holds-eligible p now ks x)

-- The candidates of a call are, each once, the keys that are not empty, not set aside at its time, and are the key asked for,
-- the active key or a saved one.
pub candidates_are :
    (p : Pool) (preferred : Text) (now : ℕ) (k : Text)
    → Distinct (candidates p preferred now).0
      × (holds (candidates p preferred now).0 k
          ≡ (not (is_empty k) && (text_eq preferred k || (text_eq p.active k || holds p.keys k)))
            && not (set_aside (p.health k) now))
unfolding Distinct holds
candidates_are p preferred now k =
    let values = preferred ∷ p.active ∷ p.keys in
    (
      Distinct-eligible p now (unique_api_keys values) (Distinct-unique_from [] values tt),
      holds-eligible p now (unique_api_keys values) k
          ∙ ap (λ b. b && not (set_aside (p.health k) now)) (holds-unique_from [] values k),
    )
