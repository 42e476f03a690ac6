-- ===== src/Base/Assoc.antt =====
-- `HashMap` as an association list with at most one entry for a key. The order of the entries
-- stands for the unspecified iteration order.
use mathlib.Core.Path.{◌≡◌, refl, subst}
use mathlib.Core.Logic.{◌↔◌, ◌⊎◌, inl, inr, ◌≢◌}
use mathlib.Core.Bool.{Bool, true, ◌&&◌}
use mathlib.Core.List.{List, [], ◌∷◌}
use mathlib.Core.Option.{Option, none, some}
use Prim.Native.Nat.{ℕ, ◌+◌, ◌≤◌}
use native.Mathlib.Omega.{arith}
use drgtw.Base.Tests.{if◌then◌else◌, Bool-cases, ◌==◌, ==_iff}
use drgtw.Base.Lists.{length, In}
use drgtw.Base.Text.{Bytes, equal, equal_iff}

pub record Eq {ℓ} (A : Type ℓ) : Type ℓ where
  pub beq : A → A → Bool
  pub beq_iff : (a b : A) → (beq a b ≡ true) ↔ (a ≡ b)

instance abbrev pub bytes_eq : Eq Bytes
bytes_eq = record { beq = equal; beq_iff = equal_iff }

instance abbrev pub nat_eq : Eq ℕ
nat_eq = record { beq = ◌==◌; beq_iff = ==_iff }

unfoldable pub pair_beq : Bytes × Bytes → Bytes × Bytes → Bool
pair_beq (a, b) (c, d) = equal a c && equal b d

pub pair_beq_iff : (p q : Bytes × Bytes) → (pair_beq p q ≡ true) ↔ (p ≡ q)
unfolding pair_beq
pair_beq_iff (a, b) (c, d) = ground (arith, equal_iff a c, equal_iff b d)

instance abbrev pub pair_eq : Eq (Bytes × Bytes)
pair_eq = record { beq = pair_beq; beq_iff = pair_beq_iff }

module _ {K V : Type 0} ⦃e : Eq K⦄ where
  unfoldable pub lookup : K → List (K × V) → Option V
  lookup k [] = none
  lookup k ((j, v) ∷ m) = let rest = lookup k m in if e.beq j k then some v else rest

  -- `HashMap::insert`: an entry of that key is replaced.
  unfoldable pub insert : K → V → List (K × V) → List (K × V)
  insert k v [] = (k, v) ∷ []
  insert k v ((j, w) ∷ m) =
      let rest = insert k v m in if e.beq j k then (k, v) ∷ m else (j, w) ∷ rest

  -- With no side condition.
  pub lookup-insert :
      (k j : K) (v : V) (m : List (K × V))
      → lookup j (insert k v m) ≡ (if e.beq k j then some v else lookup j m)
  unfolding lookup insert
  lookup-insert k j v [] = refl
  lookup-insert k j v ((i, w) ∷ m) =
      ground (arith, e.beq_iff k j, e.beq_iff i k, e.beq_iff i j, lookup-insert k j v m)

  pub lookup-insert_self : (k : K) (v : V) (m : List (K × V)) → lookup k (insert k v m) ≡ some v
  unfolding lookup insert
  lookup-insert_self k v [] = ground (arith, e.beq_iff k k)
  lookup-insert_self k v ((j, w) ∷ m) =
      ground (arith, e.beq_iff k k, e.beq_iff j k, lookup-insert_self k v m)

  pub lookup-insert_ne :
      (k j : K) (v : V) (m : List (K × V)) → j ≢ k → lookup k (insert j v m) ≡ lookup k m
  unfolding lookup insert
  lookup-insert_ne k j v [] h = ground (arith, e.beq_iff j k)
  lookup-insert_ne k j v ((i, w) ∷ m) h =
      ground (arith, e.beq_iff j k, e.beq_iff i j, e.beq_iff i k, lookup-insert_ne k j v m h)

  pub In-lookup : (k : K) (v : V) (m : List (K × V)) → lookup k m ≡ some v → In (k, v) m
  unfolding lookup
  In-lookup k v [] h = ground arith
  In-lookup k v ((j, w) ∷ m) h = elim (Bool-cases (e.beq j k)) [
    | inl same ↦ inl (ground (arith, e.beq_iff j k))
    | inr other ↦ inr (In-lookup k v m (rw other at h))
  ]

  pub insert-In :
      (a : K × V) (k : K) (v : V) (m : List (K × V)) → In a (insert k v m) → (a ≡ (k, v)) ⊎ In a m
  unfolding insert
  insert-In a k v [] h = h
  insert-In a k v ((j, w) ∷ m) h = elim (Bool-cases (e.beq j k)) [
    | inl same ↦ elim (let h' : In a ((k, v) ∷ m) = rw same at h in h') [
      | inl x ↦ inl x
      | inr x ↦ inr (inr x)
    ]
    | inr other ↦ elim (let h' : In a ((j, w) ∷ insert k v m) = rw other at h in h') [
      | inl x ↦ inr (inl x)
      | inr x ↦ elim (insert-In a k v m x) [ inl y ↦ inl y | inr y ↦ inr (inr y) ]
    ]
  ]

  pub length-insert : (k : K) (v : V) (m : List (K × V)) → length (insert k v m) ≤ length m + 1
  unfolding insert
  length-insert k v [] = omega arith
  length-insert k v ((j, w) ∷ m) = ground (arith, length-insert k v m)

  pub length-insert_new :
      (k : K) (v : V) (m : List (K × V)) → lookup k m ≡ none → length (insert k v m) ≡ length m + 1
  unfolding insert lookup
  length-insert_new k v [] h = omega arith
  length-insert_new k v ((j, w) ∷ m) h = ground (arith, length-insert_new k v m)

  -- One entry for a key.
  abbrev pub HasUniqueKeys : List (K × V) → Type 0
  HasUniqueKeys [] = Unit
  HasUniqueKeys ((k, v) ∷ m) = (lookup k m ≡ none) × HasUniqueKeys m

  pub insert-HasUniqueKeys :
      (k : K) (v : V) (m : List (K × V)) → HasUniqueKeys m → HasUniqueKeys (insert k v m)
  unfolding insert
  insert-HasUniqueKeys k v [] h = (unfold lookup in refl, tt)
  insert-HasUniqueKeys k v ((j, w) ∷ m) (fresh, h) = elim (Bool-cases (e.beq j k)) [
    | inl same ↦ rw same (subst (λ x. lookup x m ≡ none) ((e.beq_iff j k).0 same) fresh, h)
    | inr other ↦ rw other (
      ground (arith, lookup-insert k j v m, e.beq_iff k j, e.beq_iff j k),
      insert-HasUniqueKeys k v m h,
    )
  ]

  pub lookup_of_In :
      (k : K) (v : V) (m : List (K × V)) → HasUniqueKeys m → In (k, v) m → lookup k m ≡ some v
  unfolding lookup
  lookup_of_In k v [] h i = absurd i
  lookup_of_In k v ((j, w) ∷ m) (fresh, h) (inl i) = ground (arith, e.beq_iff j k)
  lookup_of_In k v ((j, w) ∷ m) (fresh, h) (inr i) =
      ground (arith, e.beq_iff j k, lookup_of_In k v m h i)

  -- `HashMap::remove`.
  unfoldable pub remove : K → List (K × V) → List (K × V)
  remove k [] = []
  remove k ((j, v) ∷ m) = let rest = remove k m in if e.beq j k then rest else (j, v) ∷ rest

  pub lookup-remove :
      (k j : K) (m : List (K × V))
      → lookup j (remove k m) ≡ (if e.beq k j then none else lookup j m)
  unfolding lookup remove
  lookup-remove k j [] = ground (arith, e.beq_iff k j)
  lookup-remove k j ((i, w) ∷ m) =
      ground (arith, e.beq_iff k j, e.beq_iff i k, e.beq_iff i j, lookup-remove k j m)

  pub remove-HasUniqueKeys :
      (k : K) (m : List (K × V)) → HasUniqueKeys m → HasUniqueKeys (remove k m)
  unfolding remove
  remove-HasUniqueKeys k [] h = tt
  remove-HasUniqueKeys k ((j, w) ∷ m) (fresh, h) = elim (Bool-cases (e.beq j k)) [
    | inl same ↦ rw same (remove-HasUniqueKeys k m h)
    | inr other ↦ rw other (ground (arith, lookup-remove k j m), remove-HasUniqueKeys k m h)
  ]

  length-remove_le : (k : K) (m : List (K × V)) → length (remove k m) ≤ length m
  unfolding remove
  length-remove_le k [] = omega arith
  length-remove_le k ((j, v) ∷ m) = ground (arith, length-remove_le k m)

  pub length-remove :
      (k : K) (v : V) (m : List (K × V)) → lookup k m ≡ some v → length (remove k m) + 1 ≤ length m
  unfolding lookup remove
  length-remove k v [] h = absurd (cc h)
  length-remove k v ((j, w) ∷ m) h = ground (arith, length-remove_le k m, length-remove k v m)

  pub length-insert_old :
      (k : K) (v w : V) (m : List (K × V)) → lookup k m ≡ some w → length (insert k v m) ≡ length m
  unfolding insert lookup
  length-insert_old k v w [] h = absurd (cc h)
  length-insert_old k v w ((j, x) ∷ m) h = ground (arith, length-insert_old k v w m)
