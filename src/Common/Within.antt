-- ===== src/Common/Within.antt =====
-- Subsequences: the elements of one list stand in another, in the same order.
use mathlib.Core.List.{List, [], ◌∷◌, ◌++◌}

pub data Within {ℓ} {A : Type ℓ} : List A → List A → Type ℓ where
  nil : (ys : List A) → Within [] ys
  keep : (x : A) {xs ys : List A} → Within xs ys → Within (x ∷ xs) (x ∷ ys)
  skip : (y : A) {xs ys : List A} → Within xs ys → Within xs (y ∷ ys)

module _ {ℓ} {A : Type ℓ} where
  pub Within-refl : (xs : List A) → Within xs xs
  Within-refl [] = nil []
  Within-refl (x ∷ xs) = keep x (Within-refl xs)

  pub Within-append_left : (zs : List A) {xs ys : List A} → Within xs ys → Within xs (zs ++ ys)
  Within-append_left [] w = w
  Within-append_left (z ∷ zs) w = skip z (Within-append_left zs w)

  pub Within-append :
      {xs ys zs ws : List A} → Within xs ys → Within zs ws → Within (xs ++ zs) (ys ++ ws)
  Within-append (nil ys) v = Within-append_left ys v
  Within-append (keep x w) v = keep x (Within-append w v)
  Within-append (skip y w) v = skip y (Within-append w v)
