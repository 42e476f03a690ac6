-- ===== src/Base/Sublist.antt =====
-- Subsequences.
use mathlib.Core.List.{List, [], ◌∷◌, ◌++◌}

-- A subsequence.
pub data Within {A : Type 0} : List A → List A → Type 0 where
  done : Within [] []
  skip : {x : A} {xs ys : List A} → Within xs ys → Within xs (x ∷ ys)
  both : {x : A} {xs ys : List A} → Within xs ys → Within (x ∷ xs) (x ∷ ys)

module _ {A : Type 0} where
  pub sublist_refl : (xs : List A) → Within xs xs
  sublist_refl [] = done
  sublist_refl (x ∷ xs) = both (sublist_refl xs)

  pub sublist_trans : {ys zs : List A} → Within ys zs → {xs : List A} → Within xs ys → Within xs zs
  sublist_trans done w = w
  sublist_trans (skip v) w = skip (sublist_trans v w)
  sublist_trans (both v) (skip w) = skip (sublist_trans v w)
  sublist_trans (both v) (both w) = both (sublist_trans v w)

  pub sublist_snoc : (x : A) {xs ys : List A} → Within xs ys → Within (xs ++ x ∷ []) (ys ++ x ∷ [])
  sublist_snoc x done = both done
  sublist_snoc x (skip w) = skip (sublist_snoc x w)
  sublist_snoc x (both w) = both (sublist_snoc x w)

  pub sublist_behind : (x : A) {xs ys : List A} → Within xs ys → Within xs (ys ++ x ∷ [])
  sublist_behind x done = skip done
  sublist_behind x (skip w) = skip (sublist_behind x w)
  sublist_behind x (both w) = both (sublist_behind x w)

  pub sublist_without : (x : A) (a b : List A) → Within (a ++ b) (a ++ x ∷ b)
  sublist_without x [] b = skip (sublist_refl b)
  sublist_without x (y ∷ a) b = both (sublist_without x a b)
