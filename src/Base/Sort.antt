-- ===== src/Base/Sort.antt =====
-- The sorts of the program, all by a comparison key: `slice::sort_by` and its variants keep the
-- elements and order them, the stable ones with ties in their old order. Insertion sort is stable.
use mathlib.Core.Path.{◌≡◌}
use mathlib.Core.Logic.{inl, inr}
use mathlib.Core.Bool.{Bool, true, false}
use mathlib.Core.List.{List, [], ◌∷◌, Perm}
use mathlib.Core.List.Perm
use drgtw.Base.Tests.{if◌then◌else◌, Bool-cases}
use drgtw.Base.Lists.{All, In}

module _ {A : Type 0} (le : A → A → Bool) where
  unfoldable pub insert_by : A → List A → List A
  insert_by x [] = x ∷ []
  insert_by x (y ∷ ys) = let rest = insert_by x ys in if le x y then x ∷ y ∷ ys else y ∷ rest

  unfoldable pub sort_by : List A → List A
  unfolding insert_by
  sort_by [] = []
  sort_by (x ∷ xs) = insert_by x (sort_by xs)

  abbrev pub IsSorted : List A → Type 0
  IsSorted [] = Unit
  IsSorted (x ∷ xs) = All (λ y. le x y ≡ true) xs × IsSorted xs

  insert_by-perm : (x : A) (xs : List A) → Perm (insert_by x xs) (x ∷ xs)
  unfolding insert_by
  insert_by-perm x [] = Perm.refl _
  insert_by-perm x (y ∷ ys) = elim (Bool-cases (le x y)) [
    | inl h ↦ rw h (Perm.refl _)
    | inr h ↦ rw h (Perm.trans (Perm.cons y (insert_by-perm x ys)) (Perm.swap x y ys))
  ]

  -- The result is a rearrangement of the input.
  pub sort_by-perm : (xs : List A) → Perm (sort_by xs) xs
  unfolding sort_by
  sort_by-perm [] = Perm.refl _
  sort_by-perm (x ∷ xs) = Perm.trans (insert_by-perm x (sort_by xs)) (Perm.cons x (sort_by-perm xs))

  pub insert_by-In : (a x : A) (xs : List A) → In a (insert_by x xs) → In a (x ∷ xs)
  unfolding insert_by
  insert_by-In a x [] h = h
  insert_by-In a x (y ∷ ys) h = elim (Bool-cases (le x y)) [
    | inl e ↦ rw e at h
    | inr e ↦ elim (let h' : In a (y ∷ insert_by x ys) = rw e at h in h') [
      | inl i ↦ inr (inl i)
      | inr i ↦ elim (insert_by-In a x ys i) [ inl j ↦ inl j | inr j ↦ inr (inr j) ]
    ]
  ]

  In-insert_by : (a x : A) (xs : List A) → In a (x ∷ xs) → In a (insert_by x xs)
  unfolding insert_by
  In-insert_by a x [] h = h
  In-insert_by a x (y ∷ ys) h = elim (Bool-cases (le x y)) [
    | inl e ↦ rw e h
    | inr e ↦ rw e (elim h [
      | inl i ↦ inr (In-insert_by a x ys (inl i))
      | inr (inl i) ↦ inl i
      | inr (inr i) ↦ inr (In-insert_by a x ys (inr i))
    ])
  ]

  pub sort_by-In : (a : A) (xs : List A) → In a (sort_by xs) → In a xs
  unfolding sort_by
  sort_by-In a [] h = h
  sort_by-In a (x ∷ xs) h = elim (insert_by-In a x (sort_by xs) h) [
    | inl e ↦ inl e
    | inr i ↦ inr (sort_by-In a xs i)
  ]

  pub In-sort_by : (a : A) (xs : List A) → In a xs → In a (sort_by xs)
  unfolding sort_by
  In-sort_by a [] h = h
  In-sort_by a (x ∷ xs) (inl e) = In-insert_by a x (sort_by xs) (inl e)
  In-sort_by a (x ∷ xs) (inr i) = In-insert_by a x (sort_by xs) (inr (In-sort_by a xs i))

-- What makes the result sorted: a comparison that is transitive and total.
module _ {A : Type 0} (le : A → A → Bool)
    (le_trans : (x y z : A) → le x y ≡ true → le y z ≡ true → le x z ≡ true)
    (le_total : (x y : A) → le x y ≡ false → le y x ≡ true) where
  All-le :
      (x y : A) (xs : List A)
      → le x y ≡ true
      → All (λ z. le y z ≡ true) xs
      → All (λ z. le x z ≡ true) xs
  All-le x y [] h k = tt
  All-le x y (z ∷ zs) h (k, ks) = (le_trans x y z h k, All-le x y zs h ks)

  All-insert_by :
      (y x : A) (xs : List A)
      → le y x ≡ true
      → All (λ z. le y z ≡ true) xs
      → All (λ z. le y z ≡ true) (insert_by le x xs)
  unfolding insert_by
  All-insert_by y x [] h k = (h, tt)
  All-insert_by y x (z ∷ zs) h (k, ks) = elim (Bool-cases (le x z)) [
    | inl e ↦ rw e (h, (k, ks))
    | inr e ↦ rw e (k, All-insert_by y x zs h ks)
  ]

  insert_by-IsSorted : (x : A) (xs : List A) → IsSorted le xs → IsSorted le (insert_by le x xs)
  unfolding insert_by
  insert_by-IsSorted x [] h = (tt, tt)
  insert_by-IsSorted x (y ∷ ys) (k, s) = elim (Bool-cases (le x y)) [
    | inl e ↦ rw e ((e, All-le x y ys e k), (k, s))
    | inr e ↦ rw e (All-insert_by y x ys (le_total x y e) k, insert_by-IsSorted x ys s)
  ]

  pub sort_by-IsSorted : (xs : List A) → IsSorted le (sort_by le xs)
  unfolding sort_by
  sort_by-IsSorted [] = tt
  sort_by-IsSorted (x ∷ xs) = insert_by-IsSorted x (sort_by le xs) (sort_by-IsSorted xs)
