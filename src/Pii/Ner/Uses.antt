-- ===== src/Pii/Ner/Uses.antt =====
-- The cache of verdicts gives up what was not used for longest, over any sequence of its calls (`NerCache`
-- in crates/drgtw-pii/src/ner_bridge.rs).
use drgtw.Base.{
  ℕ, suc, ◌≤◌, ◌<◌, ◌≡◌, ◌≢◌, ◌⊎◌, refl, sym, ap, ◌∙◌, subst, inl, inr, none, some, List, [], ◌∷◌,
  arith, length, ◌==◌, ==_iff, Bool-cases, Option-cases, if◌then◌else◌,
}
use drgtw.Base.Assoc.{
  lookup, insert, lookup-insert_self, lookup-insert_ne, length-insert_old, nat_eq, HasUniqueKeys,
  insert-HasUniqueKeys, lookup_of_In, In-lookup,
}
use drgtw.Pii.Ner.{NerSpan, NerCache, new, touch, get, put}
use drgtw.Pii.Ner.Lru.{IsEvicted, put_lem, put-HasUniqueKeys}

-- A call of the cache: of `get`, or of `put`.
pub data Call (F : Type 0) : Type 0 where
  reads : ℕ → Call F
  writes : ℕ → List (NerSpan F) → Call F

some_injective : {A : Type 0} {a b : A} → some a ≡ some b → a ≡ b
some_injective h = cc h

module _ {F : Type 0} where
  abbrev pub key_of : Call F → ℕ
  key_of (reads k) = k
  key_of (writes k spans) = k

  -- The cache after the calls, the latest call first.
  abbrev pub run : ℕ → List (Call F) → NerCache F
  run capacity [] = new capacity
  run capacity (reads k ∷ calls) = (get k (run capacity calls)).0
  run capacity (writes k spans ∷ calls) = put k spans (run capacity calls)

  -- The number of the latest call with the key, from 1 on; 0 if there is none.
  abbrev pub last_use : ℕ → List (Call F) → ℕ
  last_use k [] = 0
  last_use k (c ∷ calls) =
      let earlier = last_use k calls in if key_of c == k then suc (length calls) else earlier

  -- The stamps are the numbers of the last uses.
  record IsTracked (capacity : ℕ) (calls : List (Call F)) (c : NerCache F) : Type 0 where
    room : c.capacity ≡ capacity
    bounded : length c.entries ≤ capacity
    clock : c.seq ≡ length calls
    unique : HasUniqueKeys c.entries
    stamped :
        (k : ℕ) (e : List (NerSpan F) × ℕ) → lookup k c.entries ≡ some e → e.1 ≡ last_use k calls

  new-IsTracked : (capacity : ℕ) → IsTracked capacity [] (new capacity)
  unfolding new lookup
  new-IsTracked capacity = record {
    room = refl;
    bounded = omega arith;
    clock = refl;
    unique = tt;
    stamped = λ k e h. absurd (cc h);
  }

  missed-IsTracked :
      (capacity k : ℕ) (calls : List (Call F)) (c : NerCache F)
      → lookup k c.entries ≡ none
      → IsTracked capacity calls c
      → IsTracked capacity (reads k ∷ calls) (record c { seq = suc c.seq })
  missed-IsTracked capacity k calls c missing t = record {
    room = t.room;
    bounded = t.bounded;
    clock = ap suc t.clock;
    unique = t.unique;
    stamped = λ j e h. elim (Bool-cases (k == j)) [
      | inl same ↦ absurd (ground (arith, ==_iff k j))
      | inr other ↦ rw other (t.stamped j e h)
    ];
  }

  -- The stamp of a key after a call with `k` that leaves an entry of `k` with the present number.
  stamped_by :
      (k j n : ℕ) (calls : List (Call F)) (m : List (ℕ × (List (NerSpan F) × ℕ)))
      (spans : List (NerSpan F)) (e : List (NerSpan F) × ℕ)
      → n ≡ length calls
      → lookup k m ≡ some (spans, suc n)
      → (j ≢ k → lookup j m ≡ some e → e.1 ≡ last_use j calls)
      → lookup j m ≡ some e
      → e.1 ≡ (if k == j then suc (length calls) else last_use j calls)
  stamped_by k j n calls m spans e clock new old h = elim (Bool-cases (k == j)) [
    | inl same ↦
        let k_is_j : k ≡ j = (==_iff k j).0 same in
        let here : lookup j m ≡ some (spans, suc n) =
          subst (λ i. lookup i m ≡ some (spans, suc n)) k_is_j new in
        let found : e ≡ (spans, suc n) = some_injective (sym h ∙ here) in
        rw same (ap (λ (x : List (NerSpan F) × ℕ). x.1) found ∙ ap suc clock)
    | inr other ↦ rw other (old (λ d. absurd (ground (arith, ==_iff k j))) h)
  ]

  hit-IsTracked :
      (capacity k : ℕ) (calls : List (Call F)) (c : NerCache F) (spans : List (NerSpan F))
      (stamp : ℕ)
      → lookup k c.entries ≡ some (spans, stamp)
      → IsTracked capacity calls c
      → IsTracked capacity
          (reads k ∷ calls)
          (record c { seq = suc c.seq; entries = insert k (spans, suc c.seq) c.entries })
  hit-IsTracked capacity k calls c spans stamp there t =
      let entry : List (NerSpan F) × ℕ = (spans, suc c.seq) in
      record {
        room = t.room;
        bounded =
            let l = length-insert_old k entry (spans, stamp) c.entries there in
            let b = t.bounded in omega arith;
        clock = ap suc t.clock;
        unique = insert-HasUniqueKeys k entry c.entries t.unique;
        stamped = λ j e.
            stamped_by k j c.seq calls (insert k entry c.entries) spans e t.clock
              (lookup-insert_self k entry c.entries)
              (λ ne h.
                t.stamped j e (sym (lookup-insert_ne j k entry c.entries (λ d. ne (sym d))) ∙ h));
      }

  get-IsTracked :
      (capacity k : ℕ) (calls : List (Call F)) (c : NerCache F)
      → IsTracked capacity calls c
      → IsTracked capacity (reads k ∷ calls) (get k c).0
  unfolding get touch
  get-IsTracked capacity k calls c t = elim (Option-cases (lookup k c.entries)) [
    | inl missing ↦ rw (missing, get) (missed-IsTracked capacity k calls c missing t)
    | inr ((spans, stamp), there) ↦
        rw (there, get) (hit-IsTracked capacity k calls c spans stamp there t)
  ]

  put-IsTracked :
      (capacity k : ℕ) (spans : List (NerSpan F)) (calls : List (Call F)) (c : NerCache F)
      → 0 < capacity
      → IsTracked capacity calls c
      → IsTracked capacity (writes k spans ∷ calls) (put k spans c)
  put-IsTracked capacity k spans calls c positive t =
      let room : 0 < c.capacity = let r = t.room in omega arith in
      let small : length c.entries ≤ c.capacity =
        let r = t.room in let b = t.bounded in omega arith in
      let (new, bounded, others) = put_lem k spans c room small in
      let same : (put k spans c).capacity ≡ capacity = unfold put in t.room in
      record {
        room = same;
        bounded = subst (λ n. length (put k spans c).entries ≤ n) same bounded;
        clock = unfold put in ap suc t.clock;
        unique = put-HasUniqueKeys k spans c room t.unique;
        stamped = λ j e.
            stamped_by k j c.seq calls (put k spans c).entries spans e t.clock new (λ ne h.
              elim (others j ne) [
                | inl same ↦ t.stamped j e (sym same ∙ h)
                | inr (gone, x) ↦ absurd (cc (h, gone))
              ]);
      }

  run-IsTracked :
      (capacity : ℕ) (calls : List (Call F))
      → 0 < capacity
      → IsTracked capacity calls (run capacity calls)
  run-IsTracked capacity [] h = new-IsTracked capacity
  run-IsTracked capacity (reads k ∷ calls) h =
      get-IsTracked capacity k calls (run capacity calls) (run-IsTracked capacity calls h)
  run-IsTracked capacity (writes k spans ∷ calls) h =
      put-IsTracked capacity k spans calls (run capacity calls) h (run-IsTracked capacity calls h)

  -- The cache was full and did not know `k`; it knew `j`, and no key that it knew was used longer ago.
  abbrev pub IsForgotten : ℕ → ℕ → ℕ → List (Call F) → Type 0
  IsForgotten j k capacity calls =
      let m = (run capacity calls).entries in
      (lookup k m ≡ none)
      × (length m ≡ capacity)
      × (lookup j m ≢ none)
      × ((i : ℕ) → lookup i m ≢ none → last_use j calls ≤ last_use i calls)

  evicted-IsForgotten :
      (j k capacity : ℕ) (calls : List (Call F))
      → 0 < capacity
      → IsEvicted j k (run capacity calls)
      → IsForgotten j k capacity calls
  evicted-IsForgotten j k capacity calls h (fresh, full, (s, ((spans, i), least))) =
      let t = run-IsTracked capacity calls h in
      let m = (run capacity calls).entries in
      let there : lookup j m ≡ some (spans, s) = lookup_of_In j (spans, s) m t.unique i in
      let stamp : s ≡ last_use j calls = t.stamped j (spans, s) there in
      (
        fresh,
        (let r = t.room in let b = t.bounded in omega arith),
        (λ gone. cc (gone, there)),
        λ i' known. elim (Option-cases (lookup i' m)) [
          | inl missing ↦ absurd (known missing)
          | inr (e, found) ↦
              let l : s ≤ e.1 = least (i', e) (In-lookup i' e m found) in
              let stamp' : e.1 ≡ last_use i' calls = t.stamped i' e found in
              subst (λ n. n ≤ last_use i' calls) stamp (subst (λ n. s ≤ n) stamp' l)
        ],
      )

  -- Over any calls on a new cache with room for an entry, a `put` gives the key its spans and keeps the
  -- entries within the capacity. Every other key answers as before, but for one that is forgotten: that
  -- happens only if the cache was full and did not know the new key, and then to a key that it knew and
  -- whose last call is no later than that of any key it knew.
  pub put-IsLru :
      (capacity k : ℕ) (spans : List (NerSpan F)) (calls : List (Call F))
      → 0 < capacity
      → ((stamp : ℕ) × (lookup k (put k spans (run capacity calls)).entries ≡ some (spans, stamp)))
        × (length (put k spans (run capacity calls)).entries ≤ capacity)
        × ((j : ℕ)
            → j ≢ k
            → (lookup j (put k spans (run capacity calls)).entries
                ≡ lookup j (run capacity calls).entries)
              ⊎ ((lookup j (put k spans (run capacity calls)).entries ≡ none)
                  × IsForgotten j k capacity calls))
  put-IsLru capacity k spans calls h =
      let c = run capacity calls in
      let t = run-IsTracked capacity calls h in
      let room : 0 < c.capacity = let r = t.room in omega arith in
      let small : length c.entries ≤ c.capacity =
        let r = t.room in let b = t.bounded in omega arith in
      let (new, bounded, others) = put_lem k spans c room small in
      (
        (suc c.seq, new),
        (run-IsTracked capacity (writes k spans ∷ calls) h).bounded,
        λ j ne. elim (others j ne) [
          | inl same ↦ inl same
          | inr (gone, evicted) ↦ inr (gone, evicted-IsForgotten j k capacity calls h evicted)
        ],
      )
