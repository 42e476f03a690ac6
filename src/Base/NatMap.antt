-- ===== src/Base/NatMap.antt =====
-- `BTreeMap` with integer keys: an association list in ascending order of the keys.
use Prim.Native.Nat.{ℕ, ◌<◌}
use mathlib.Core.Path.{◌≡◌, refl}
use mathlib.Core.List.{List, [], ◌∷◌}
use mathlib.Core.Option.{Option, none, some}
use native.Mathlib.Omega.{arith}
use drgtw.Base.Tests.{if◌then◌else◌, ◌==◌, ltb}

module _ {V : Type 0} where
  unfoldable pub find : ℕ → List (ℕ × V) → Option V
  find k [] = none
  find k ((j, v) ∷ m) = let later = find k m in if j == k then some v else later

  unfoldable pub put : ℕ → V → List (ℕ × V) → List (ℕ × V)
  put k w [] = (k, w) ∷ []
  put k w ((j, v) ∷ m) =
      let later = put k w m in
      if ltb k j then (k, w) ∷ (j, v) ∷ m else if j == k then (k, w) ∷ m else (j, v) ∷ later

  abbrev pub IsAbove : ℕ → List (ℕ × V) → Type 0
  IsAbove k [] = Unit
  IsAbove k ((j, v) ∷ m) = (k < j) × IsAbove j m

  abbrev pub IsAscending : List (ℕ × V) → Type 0
  IsAscending [] = Unit
  IsAscending ((j, v) ∷ m) = IsAbove j m

  pub find-IsAbove : (k j : ℕ) (m : List (ℕ × V)) → IsAbove j m → k < j → find k m ≡ none
  unfolding find
  find-IsAbove k j [] h l = refl
  find-IsAbove k j ((i, v) ∷ m) (a, h) l = ground (arith, find-IsAbove k i m h)

  find-put_above :
      (k j b : ℕ) (w : V) (m : List (ℕ × V))
      → IsAbove b m
      → find j (put k w m) ≡ (if k == j then some w else find j m)
  unfolding find put
  find-put_above k j b w [] h = refl
  find-put_above k j b w ((i, v) ∷ m) (a, h) = ground (arith, find-put_above k j i w m h)

  pub find-put :
      (k j : ℕ) (w : V) (m : List (ℕ × V))
      → IsAscending m
      → find j (put k w m) ≡ (if k == j then some w else find j m)
  unfolding find put
  find-put k j w [] h = refl
  find-put k j w ((i, v) ∷ m) h = ground (arith, find-put_above k j i w m h)

  put-IsAbove : (k b : ℕ) (w : V) (m : List (ℕ × V)) → IsAbove b m → b < k → IsAbove b (put k w m)
  unfolding put
  put-IsAbove k b w [] h l = (l, tt)
  put-IsAbove k b w ((j, v) ∷ m) (a, h) l = ground (arith, put-IsAbove k j w m h)

  pub put-IsAscending : (k : ℕ) (w : V) (m : List (ℕ × V)) → IsAscending m → IsAscending (put k w m)
  unfolding put
  put-IsAscending k w [] h = tt
  put-IsAscending k w ((j, v) ∷ m) h = ground (arith, put-IsAbove k j w m h)
