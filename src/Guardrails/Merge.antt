-- ===== src/Guardrails/Merge.antt =====
-- The merged spans to redact.
use drgtw.Base.{
  ℕ, ◌≤◌, ◌≡◌, refl, ap, ◌∙◌, inl, inr, Bool, true, false, ◌&&◌, ◌||◌, List, [], ◌∷◌, arith, ◌==◌,
  ltb, leb, All, All-In, In-All, Bool-cases,
}
use drgtw.Base.Sort.{insert_by, sort_by, IsSorted, sort_by-IsSorted, sort_by-In}
use drgtw.Guardrails.{before, dedup_from, dedup, merge_from, merge_sorted, merge_spans}

-- A span covers a position, and some span of a list does.
abbrev pub covers : ℕ × ℕ → ℕ → Bool
covers (s, e) i = leb s i && ltb i e

unfoldable pub covered : List (ℕ × ℕ) → ℕ → Bool
covered [] i = false
covered (span ∷ spans) i = covers span i || covered spans i

-- In order, and none begins before the one in front of it has ended.
abbrev pub AreApart : ℕ → List (ℕ × ℕ) → Type 0
AreApart from [] = Unit
AreApart from ((s, e) ∷ spans) = (from ≤ s) × AreApart e spans

-- Starts in order, all from a position on.
abbrev StartsUp : ℕ → List (ℕ × ℕ) → Type 0
StartsUp from [] = Unit
StartsUp from ((s, e) ∷ spans) = (from ≤ s) × (s ≤ e) × StartsUp s spans

StartsUp-later : (a b : ℕ) (spans : List (ℕ × ℕ)) → a ≤ b → StartsUp b spans → StartsUp a spans
StartsUp-later a b [] h u = tt
StartsUp-later a b ((s, e) ∷ spans) h (u, v, w) = (omega arith, v, w)

merge_from-AreApart :
    (from start stop : ℕ) (spans : List (ℕ × ℕ))
    → from ≤ start
    → AreApart from (merge_from start stop spans)
unfolding merge_from
merge_from-AreApart from start stop [] h = (h, tt)
merge_from-AreApart from start stop ((s, e) ∷ spans) h = elim (Bool-cases (ltb s stop)) [
  | inl over ↦ elim (Bool-cases (ltb stop e)) [
    | inl more ↦ rw (over, merge_from) (rw more (merge_from-AreApart from start e spans h))
    | inr less ↦ rw (over, merge_from) (rw less (merge_from-AreApart from start stop spans h))
  ]
  | inr apart ↦ rw (apart, merge_from) (h, merge_from-AreApart stop s e spans (ground arith))
]

-- Merging keeps the covered positions.
merge_from-covers :
    (start stop : ℕ) (spans : List (ℕ × ℕ)) (i : ℕ)
    → start ≤ stop
    → StartsUp start spans
    → covered (merge_from start stop spans) i ≡ (covers (start, stop) i || covered spans i)
unfolding merge_from covered
merge_from-covers start stop [] i h u = refl
merge_from-covers start stop ((s, e) ∷ spans) i h (u, v, w) = ground (
  arith,
  merge_from-covers start e spans i (omega arith) (StartsUp-later start s spans u w),
  merge_from-covers start stop spans i h (StartsUp-later start s spans u w),
  merge_from-covers s e spans i v w,
)

-- Sorting and removing duplicates

dedup_from-covers :
    (a b : ℕ) (spans : List (ℕ × ℕ)) (i : ℕ)
    → covered (dedup_from (a, b) spans) i ≡ (covers (a, b) i || covered spans i)
unfolding dedup_from covered
dedup_from-covers a b [] i = refl
dedup_from-covers a b ((c, d) ∷ spans) i =
    ground (arith, dedup_from-covers a b spans i, dedup_from-covers c d spans i)

dedup_from-StartsUp :
    (from a b : ℕ) (spans : List (ℕ × ℕ))
    → from ≤ a
    → a ≤ b
    → StartsUp a spans
    → StartsUp from (dedup_from (a, b) spans)
unfolding dedup_from
dedup_from-StartsUp from a b [] h v u = (h, v, tt)
dedup_from-StartsUp from a b ((c, d) ∷ spans) h v (u, x, w) = elim (Bool-cases (a == c && b == d)) [
  | inl same ↦
      rw (same, dedup_from) (dedup_from-StartsUp from a b spans h v (StartsUp-later a c spans u w))
  | inr other ↦ rw (other, dedup_from) (h, v, dedup_from-StartsUp a c d spans u x w)
]

sorted-StartsUp :
    (from : ℕ) (spans : List (ℕ × ℕ))
    → IsSorted before spans
    → All (λ s. from ≤ s.0) spans
    → All (λ s. s.0 ≤ s.1) spans
    → StartsUp from spans
sorted-StartsUp from [] s h w = tt
sorted-StartsUp from ((a, b) ∷ spans) (all, s) (h, hs) (w, ws) = (
  h,
  w,
  sorted-StartsUp a spans s
      (All-In _ spans (λ (c, d) i.
        let order : before (a, b) (c, d) ≡ true = In-All _ spans all (c, d) i in ground arith))
      ws,
)

before_trans : (x y z : ℕ × ℕ) → before x y ≡ true → before y z ≡ true → before x z ≡ true
before_trans (a, b) (c, d) (e, f) h k = ground arith

before_total : (x y : ℕ × ℕ) → before x y ≡ false → before y x ≡ true
before_total (a, b) (c, d) h = ground arith

insert_by-covers :
    (x : ℕ × ℕ) (spans : List (ℕ × ℕ)) (i : ℕ)
    → covered (insert_by before x spans) i ≡ (covers x i || covered spans i)
unfolding insert_by covered
insert_by-covers x [] i = refl
insert_by-covers (a, b) ((c, d) ∷ spans) i = ground (arith, insert_by-covers (a, b) spans i)

sort_by-covers : (spans : List (ℕ × ℕ)) (i : ℕ) → covered (sort_by before spans) i ≡ covered spans i
unfolding sort_by covered
sort_by-covers [] i = refl
sort_by-covers (x ∷ spans) i =
    insert_by-covers x (sort_by before spans) i ∙ ap (λ b. covers x i || b) (sort_by-covers spans i)

merge_sorted-AreApart : (spans : List (ℕ × ℕ)) → AreApart 0 (merge_sorted spans)
unfolding merge_sorted
merge_sorted-AreApart [] = tt
merge_sorted-AreApart ((s, e) ∷ spans) = merge_from-AreApart 0 s e spans (omega arith)

merge_sorted-covers :
    (spans : List (ℕ × ℕ)) (i : ℕ)
    → StartsUp 0 spans
    → covered (merge_sorted spans) i ≡ covered spans i
unfolding merge_sorted covered
merge_sorted-covers [] i u = refl
merge_sorted-covers ((s, e) ∷ spans) i (u, v, w) = merge_from-covers s e spans i v w

merge_dedup-covers :
    (spans : List (ℕ × ℕ)) (i : ℕ)
    → StartsUp 0 spans
    → covered (merge_sorted (dedup spans)) i ≡ covered spans i
unfolding dedup covered
merge_dedup-covers [] i u = unfold merge_sorted in refl
merge_dedup-covers ((s, e) ∷ spans) i (u, v, w) =
    merge_sorted-covers (dedup_from (s, e) spans) i (dedup_from-StartsUp 0 s e spans u v w)
    ∙ dedup_from-covers s e spans i

-- For spans that do not end before they start, the merged spans are in order and do not overlap, and
-- they cover exactly the positions that the given ones cover.
pub merge_spans-covers :
    (spans : List (ℕ × ℕ))
    → All (λ s. s.0 ≤ s.1) spans
    → AreApart 0 (merge_spans spans) × ((i : ℕ) → covered (merge_spans spans) i ≡ covered spans i)
unfolding merge_spans
merge_spans-covers spans w =
    let sorted = sort_by before spans in
    let up : StartsUp 0 sorted =
      sorted-StartsUp 0 sorted (sort_by-IsSorted before before_trans before_total spans)
        (All-In _ sorted (λ s i. omega arith))
        (All-In _ sorted (λ s i. In-All _ spans w s (sort_by-In before s spans i))) in
    (
      merge_sorted-AreApart (dedup sorted),
      λ i. merge_dedup-covers sorted i up ∙ sort_by-covers spans i,
    )
