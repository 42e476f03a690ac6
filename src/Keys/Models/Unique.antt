-- ===== src/Keys/Models/Unique.antt =====
-- Lists without duplicates, and the lists of seen names that they are built by (`ResolvedKey::allowed_models`
-- in crates/drgtw-keys/src/lib.rs).
use drgtw.Base.{
  ◌≡◌, refl, sym, ap, ◌∙◌, inl, inr, Bytes, true, false, ◌||◌, List, [], ◌∷◌, ◌++◌, arith, All,
  equal, equal_iff, Bool-cases,
}
use drgtw.Keys.Models.{contains}

-- Each element stands once.
abbrev pub IsUnique : List Bytes → Type 0
IsUnique [] = Unit
IsUnique (m ∷ ms) = (contains ms m ≡ false) × IsUnique ms

contains-cons :
    (s x : Bytes) (seen : List Bytes) → contains seen x ≡ true → contains (s ∷ seen) x ≡ true
unfolding contains
contains-cons s x seen h = ground arith

pub All-seen_cons :
    (s : Bytes) (seen xs : List Bytes)
    → All (λ m. contains seen m ≡ true) xs
    → All (λ m. contains (s ∷ seen) m ≡ true) xs
All-seen_cons s seen [] h = tt
All-seen_cons s seen (x ∷ xs) (h, hs) = (contains-cons s x seen h, All-seen_cons s seen xs hs)

pub contains_self : (s : Bytes) (seen : List Bytes) → contains (s ∷ seen) s ≡ true
unfolding contains
contains_self s seen = ground (arith, equal_iff s s)

-- What is not seen is in no list of seen names.
pub not_contains :
    (s : Bytes) (seen xs : List Bytes)
    → contains seen s ≡ false
    → All (λ m. contains seen m ≡ true) xs
    → contains xs s ≡ false
unfolding contains
not_contains s seen [] h a = refl
not_contains s seen (x ∷ xs) h (k, ks) = elim (Bool-cases (equal x s)) [
  | inl e ↦
      let same : x ≡ s = (equal_iff x s).0 e in
      let old : contains seen s ≡ true = ap (contains seen) (sym same) ∙ k in absurd (cc (h, old))
  | inr ne ↦ let rest = not_contains s seen xs h ks in ground arith
]

contains-append :
    (s : Bytes) (xs ys : List Bytes) → contains (xs ++ ys) s ≡ (contains xs s || contains ys s)
unfolding contains
contains-append s [] ys = refl
contains-append s (x ∷ xs) ys = ground (arith, contains-append s xs ys)

pub IsUnique-append :
    (xs ys : List Bytes)
    → IsUnique xs
    → IsUnique ys
    → All (λ x. contains ys x ≡ false) xs
    → IsUnique (xs ++ ys)
IsUnique-append [] ys u v h = v
IsUnique-append (x ∷ xs) ys (f, u) v (h, hs) =
    (ground (arith, contains-append x xs ys), IsUnique-append xs ys u v hs)

not_contains_one :
    (s : Bytes) (xs : List Bytes)
    → contains xs s ≡ false
    → All (λ x. contains (s ∷ []) x ≡ false) xs
unfolding contains
not_contains_one s [] h = tt
not_contains_one s (x ∷ xs) h =
    (ground (arith, equal_iff x s, equal_iff s x), not_contains_one s xs (ground arith))

pub IsUnique-push :
    (s : Bytes) (xs : List Bytes) → IsUnique xs → contains xs s ≡ false → IsUnique (xs ++ s ∷ [])
IsUnique-push s xs u h =
    IsUnique-append xs (s ∷ []) u (unfold contains in (refl, tt)) (not_contains_one s xs h)
