-- ===== src/Pii/Engine/Merge.antt =====
-- The merged detections: in order, disjoint, from the candidates, and which candidates lose.
use drgtw.Base.{
  ℕ, ◌≤◌, ◌<◌, ◌≡◌, refl, ap, ◌⊎◌, inl, inr, Bool, true, false, List, [], ◌∷◌, keep, arith, leb, In,
  All, In-All, Bool-cases,
}
use drgtw.Base.Sort.{sort_by, IsSorted, sort_by-IsSorted, sort_by-In, In-sort_by}
use drgtw.Pii.Kind.{Detection}
use drgtw.Pii.Engine.{span_len, before, select_from, merge_tagged}

-- Sorted by start and not overlapping, all from a position on.
abbrev pub AreDisjoint : ℕ → List Detection → Type 0
AreDisjoint from [] = Unit
AreDisjoint from (d ∷ ds) = (from ≤ d.start) × AreDisjoint d.stop ds

select_from-AreDisjoint :
    (last : ℕ) (ts : List (ℕ × Detection)) → AreDisjoint last (select_from last ts)
unfolding select_from
select_from-AreDisjoint last [] = tt
select_from-AreDisjoint last ((i, d) ∷ ts) = elim (Bool-cases (leb last d.start)) [
  | inl h ↦ rw h (ground arith, select_from-AreDisjoint d.stop ts)
  | inr h ↦ rw h (select_from-AreDisjoint last ts)
]

select_from-In :
    (last : ℕ) (ts : List (ℕ × Detection)) (d : Detection)
    → In d (select_from last ts)
    → (i : ℕ) × In (i, d) ts
unfolding select_from
select_from-In last [] d h = absurd h
select_from-In last ((j, e) ∷ ts) d h = elim (Bool-cases (leb last e.start)) [
  | inl fits ↦ elim (let h' : In d (e ∷ select_from e.stop ts) = rw fits at h in h') [
    | inl same ↦ (j, inl (ap (λ x. (j, x)) same))
    | inr k ↦ let (i, m) = select_from-In e.stop ts d k in (i, inr m)
  ]
  | inr not_fits ↦ let (i, m) = select_from-In last ts d (rw not_fits at h) in (i, inr m)
]

before_trans : (x y z : ℕ × Detection) → before x y ≡ true → before y z ≡ true → before x z ≡ true
before_trans (i, x) (j, y) (k, z) h g = ground arith

before_total : (x y : ℕ × Detection) → before x y ≡ false → before y x ≡ true
before_total (i, x) (j, y) h = ground arith

-- The candidate `d` is selected, or a selected span that precedes it in the order covers its start.
abbrev pub IsDecided : Detection → List Detection → Type 0
IsDecided d ds =
    In d ds
    ⊎ ((r : Detection) × In r ds
        × (r.start ≤ d.start)
        × (d.start < r.stop)
        × ((r.start ≡ d.start) → span_len d ≤ span_len r))

select_from-decides :
    (last : ℕ) (ts : List (ℕ × Detection)) (i : ℕ) (d : Detection)
    → IsSorted before ts
    → In (i, d) ts
    → IsDecided d (select_from last ts) ⊎ (d.start < last)
unfolding select_from
select_from-decides last [] i d s h = absurd h
select_from-decides last ((j, e) ∷ ts) i d (all, s) h = elim (Bool-cases (leb last e.start)) [
  | inl fits ↦ rw fits (elim h [
    | inl same ↦ inl (inl (inl (ap (λ x. x.1) same)))
    | inr k ↦ elim (select_from-decides e.stop ts i d s k) [
      | inl (inl m) ↦ inl (inl (inr m))
      | inl (inr (r, m, low, high, tie)) ↦ inl (inr (r, inr m, low, high, tie))
      | inr inside ↦
          let order : before (j, e) (i, d) ≡ true = In-All _ ts all (i, d) k in
          inl (inr (e, inl refl, ground arith, inside, λ same. ground arith))
    ]
  ])
  | inr not_fits ↦ rw not_fits (elim h [
    | inl same ↦ inr (rw (ap (λ x. x.1) same) (ground arith))
    | inr k ↦ select_from-decides last ts i d s k
  ])
]

-- The merged detections are in order and do not overlap; each is a candidate; and each candidate is
-- kept, or starts inside a kept span that starts no later, and that is at least as long if both start
-- together. So the span that starts first wins, and among those the longest.
pub merge_tagged-greedy :
    (tagged : List (ℕ × Detection))
    → AreDisjoint 0 (merge_tagged tagged)
      × ((d : Detection) → In d (merge_tagged tagged) → (i : ℕ) × In (i, d) tagged)
      × ((i : ℕ) (d : Detection) → In (i, d) tagged → IsDecided d (merge_tagged tagged))
unfolding merge_tagged
merge_tagged-greedy tagged =
    let sorted = sort_by before tagged in
    (
      select_from-AreDisjoint 0 sorted,
      λ d h. let (i, k) = select_from-In 0 sorted d h in (i, sort_by-In before (i, d) tagged k),
      λ i d h.
          elim (select_from-decides 0 sorted i d
            (sort_by-IsSorted before before_trans before_total tagged)
            (In-sort_by before (i, d) tagged h)) [
              | inl decided ↦ decided
              | inr never ↦ absurd (omega arith)
            ],
    )

AreDisjoint-later : (a b : ℕ) (ds : List Detection) → a ≤ b → AreDisjoint b ds → AreDisjoint a ds
AreDisjoint-later a b [] h k = tt
AreDisjoint-later a b (d ∷ ds) h (k, ks) = (omega (arith, h, k), ks)

-- Detections that are left out of a list of well-formed ones leave it disjoint.
pub keep-AreDisjoint :
    (p : Detection → Bool) (from : ℕ) (ds : List Detection)
    → All (λ d. d.start ≤ d.stop) ds
    → AreDisjoint from ds
    → AreDisjoint from (keep p ds)
keep-AreDisjoint p from [] w h = tt
keep-AreDisjoint p from (d ∷ ds) (w, ws) (h, hs) = elim (Bool-cases (p d)) [
  | inl hit ↦ rw hit (h, keep-AreDisjoint p d.stop ds ws hs)
  | inr miss ↦
      rw miss (keep-AreDisjoint p from ds ws (AreDisjoint-later from d.stop ds (omega arith) hs))
]
