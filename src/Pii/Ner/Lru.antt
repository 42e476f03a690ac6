-- ===== src/Pii/Ner/Lru.antt =====
-- What `put` does to the entries by their stamps: the cache of verdicts is bounded and gives up an entry of
-- the least stamp (`NerCache` in crates/drgtw-pii/src/ner_bridge.rs).
use drgtw.Base.{
  ℕ, suc, ◌≤◌, ◌<◌, ◌≡◌, ◌≢◌, ◌⊎◌, refl, sym, ap, subst, inl, inr, false, Option, none, some, List,
  [], ◌∷◌, arith, In, length, leb, leb→le, ==_iff, ◌==◌, Bool-cases, Option-cases,
}
use drgtw.Base.Assoc.{
  lookup, insert, remove, lookup-insert, lookup-insert_self, lookup-remove, length-insert_old,
  length-remove, length-insert, nat_eq, HasUniqueKeys, insert-HasUniqueKeys, remove-HasUniqueKeys,
}
use drgtw.Pii.Ner.{NerSpan, NerCache, Entries, older, oldest, without_oldest, evict, put}

gt_of_leb : (a b : ℕ) → leb a b ≡ false → b < a
gt_of_leb a b h = ground arith

module _ {F : Type 0} where
  abbrev pub stamp_of : ℕ × (List (NerSpan F) × ℕ) → ℕ
  stamp_of (k, (spans, s)) = s

  -- A least stamp of the entries, and a key that has it.
  abbrev pub IsLeastRecent : ℕ → ℕ → Entries F → Type 0
  IsLeastRecent k s m =
      ((spans : List (NerSpan F)) × In (k, (spans, s)) m)
      × ((a : ℕ × (List (NerSpan F) × ℕ)) → In a m → s ≤ stamp_of a)

  -- What `oldest` answers.
  abbrev IsOldest : Option (ℕ × ℕ) → Entries F → Type 0
  IsOldest none m = m ≡ []
  IsOldest (some (k, s)) m = IsLeastRecent k s m

  nothing :
      {s : ℕ} {m : Entries F} → m ≡ [] → (a : ℕ × (List (NerSpan F) × ℕ)) → In a m → s ≤ stamp_of a
  nothing h a i = absurd (subst (In a) h i)

  least_onto :
      (k s k' s' : ℕ) (spans : List (NerSpan F)) (m : Entries F)
      → s ≤ s'
      → ((a : ℕ × (List (NerSpan F) × ℕ)) → In a m → s' ≤ stamp_of a)
      → (a : ℕ × (List (NerSpan F) × ℕ)) → In a ((k, (spans, s)) ∷ m)
      → s ≤ stamp_of a
  least_onto k s k' s' spans m l h a (inl e) = ground (arith, ap stamp_of e)
  least_onto k s k' s' spans m l h a (inr i) = omega (arith, h a i)

  later_least :
      (k s k' s' : ℕ) (spans : List (NerSpan F)) (m : Entries F)
      → s' ≤ s
      → ((a : ℕ × (List (NerSpan F) × ℕ)) → In a m → s' ≤ stamp_of a)
      → (a : ℕ × (List (NerSpan F) × ℕ)) → In a ((k, (spans, s)) ∷ m)
      → s' ≤ stamp_of a
  later_least k s k' s' spans m l h a (inl e) = ground (arith, ap stamp_of e)
  later_least k s k' s' spans m l h a (inr i) = h a i

  older-IsOldest :
      (k s : ℕ) (spans : List (NerSpan F)) (m : Entries F) (o : Option (ℕ × ℕ))
      → IsOldest o m
      → IsOldest (older (k, s) o) ((k, (spans, s)) ∷ m)
  unfolding older
  older-IsOldest k s spans m none h =
      ((spans, inl refl), least_onto k s k s spans m (omega arith) (nothing h))
  older-IsOldest k s spans m (some (k', s')) ((spans', i), least) = elim (Bool-cases (leb s s')) [
    | inl e ↦ rw e ((spans, inl refl), least_onto k s k' s' spans m (leb→le s s' e) least)
    | inr e ↦
        rw e
          ((spans', inr i), later_least k s k' s' spans m (omega (arith, gt_of_leb s s' e)) least)
  ]

  oldest-IsOldest : (m : Entries F) → IsOldest (oldest m) m
  unfolding oldest
  oldest-IsOldest [] = refl
  oldest-IsOldest ((k, (spans, s)) ∷ m) = older-IsOldest k s spans m (oldest m) (oldest-IsOldest m)

  known_key : (k : ℕ) (v : List (NerSpan F) × ℕ) (m : Entries F) → In (k, v) m → lookup k m ≢ none
  unfolding lookup
  known_key k v [] i = absurd i
  known_key k v ((j, w) ∷ m) (inl e) =
      let same : k ≡ j = ap (λ (a : ℕ × (List (NerSpan F) × ℕ)). a.0) e in ground arith
  known_key k v ((j, w) ∷ m) (inr i) = ground (arith, known_key k v m i)

  -- What `put` does to the entries

  -- The entry of `j` was given up for the new key `k`: all of the room was taken, and its stamp is a least
  -- one.
  abbrev pub IsEvicted : ℕ → ℕ → NerCache F → Type 0
  IsEvicted j k c =
      (lookup k c.entries ≡ none)
      × (c.capacity ≤ length c.entries)
      × ((s : ℕ) × IsLeastRecent j s c.entries)

  -- The entries before the insertion: all of them, or all but one of the least recent.
  abbrev Evicts : ℕ → NerCache F → Entries F → Type 0
  Evicts k c m =
      ((m ≡ c.entries)
        × (((v : List (NerSpan F) × ℕ) × (lookup k c.entries ≡ some v))
            ⊎ (length c.entries < c.capacity)))
      ⊎ ((j : ℕ) × (m ≡ remove j c.entries) × IsEvicted j k c)

  evict-Evicts : (k : ℕ) (c : NerCache F) → 0 < c.capacity → Evicts k c (evict k c)
  unfolding evict without_oldest
  evict-Evicts k c room = elim (Option-cases (lookup k c.entries)) [
    | inr (v, e) ↦ inl (rw (e, evict) refl, inl (v, e))
    | inl e ↦ elim (Bool-cases (leb c.capacity (length c.entries))) [
      | inr d ↦ inl (rw (e, evict) (rw d refl), inr (gt_of_leb c.capacity (length c.entries) d))
      | inl d ↦ elim (Option-cases (oldest c.entries)) [
        | inl o ↦ inl (
          rw (e, evict) (rw d (rw (o, without_oldest) refl)),
          inr (
              omega (
                arith,
                ap length (subst (λ x. IsOldest x c.entries) o (oldest-IsOldest c.entries)),
              )),
        )
        | inr ((j, s), o) ↦ inr (
          j,
          rw (e, evict) (rw d (rw (o, without_oldest) refl)),
          (
            e,
            leb→le c.capacity (length c.entries) d,
            (s, subst (λ x. IsOldest x c.entries) o (oldest-IsOldest c.entries)),
          ),
        )
      ]
    ]
  ]

  module _ (k : ℕ) (spans : List (NerSpan F)) (c : NerCache F) where
    abbrev entry : List (NerSpan F) × ℕ
    entry = (spans, suc c.seq)

    length-inserted :
        (m : Entries F)
        → length c.entries ≤ c.capacity
        → Evicts k c m
        → length (insert k entry m) ≤ c.capacity
    length-inserted m bounded (inl (e, inl (v, known))) =
        ground (arith, length-insert_old k entry v m)
    length-inserted m bounded (inl (e, inr less)) = ground (arith, length-insert k entry m)
    length-inserted m bounded (inr (j, e, (fresh, full, (s, ((spans', i), least))))) =
        elim (Option-cases (lookup j c.entries)) [
          | inl none_there ↦ absurd (known_key j (spans', s) c.entries i none_there)
          | inr (v, there) ↦ ground (arith, length-insert k entry m, length-remove j v c.entries)
        ]

    others :
        (m : Entries F)
        → Evicts k c m
        → (j : ℕ) → j ≢ k
        → (lookup j (insert k entry m) ≡ lookup j c.entries)
          ⊎ ((lookup j (insert k entry m) ≡ none) × IsEvicted j k c)
    others m (inl (e, h)) j ne = inl (ground (arith, lookup-insert k j entry m))
    others m (inr (i, e, gone)) j ne = elim (Bool-cases (i == j)) [
      | inl same ↦ inr (
        ground (arith, lookup-insert k j entry m, lookup-remove i j c.entries),
        subst (λ x. IsEvicted x k c) ((==_iff i j).0 same) gone,
      )
      | inr other ↦ inl (ground (arith, lookup-insert k j entry m, lookup-remove i j c.entries))
    ]

    -- After `put`, the key has its spans, the cache is still bounded, and every other key answers as before,
    -- but for one of the least stamp in a full cache that did not know the new key.
    pub put_lem :
        0 < c.capacity
        → length c.entries ≤ c.capacity
        → (lookup k (put k spans c).entries ≡ some (spans, suc c.seq))
          × (length (put k spans c).entries ≤ (put k spans c).capacity)
          × ((j : ℕ)
              → j ≢ k
              → (lookup j (put k spans c).entries ≡ lookup j c.entries)
                ⊎ ((lookup j (put k spans c).entries ≡ none) × IsEvicted j k c))
    unfolding put
    put_lem room bounded = (
      lookup-insert_self k entry (evict k c),
      length-inserted (evict k c) bounded (evict-Evicts k c room),
      others (evict k c) (evict-Evicts k c room),
    )

    kept-HasUniqueKeys : (m : Entries F) → HasUniqueKeys c.entries → Evicts k c m → HasUniqueKeys m
    kept-HasUniqueKeys m h (inl (e, x)) = subst (λ (l : Entries F). HasUniqueKeys l) (sym e) h
    kept-HasUniqueKeys m h (inr (j, e, x)) =
        subst (λ (l : Entries F). HasUniqueKeys l) (sym e) (remove-HasUniqueKeys j c.entries h)

    pub put-HasUniqueKeys :
        0 < c.capacity → HasUniqueKeys c.entries → HasUniqueKeys (put k spans c).entries
    unfolding put
    put-HasUniqueKeys room h =
        insert-HasUniqueKeys k entry (evict k c)
          (kept-HasUniqueKeys (evict k c) h (evict-Evicts k c room))
