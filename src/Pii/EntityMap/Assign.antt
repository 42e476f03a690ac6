-- ===== src/Pii/EntityMap/Assign.antt =====
-- Placeholders by local counters: a map that agrees with itself, and still does after a new pair
-- (`get_or_insert` in crates/drgtw-pii/src/entity_map.rs).
use drgtw.Base.{
  ℕ, ◌+◌, ◌≤◌, ◌≡◌, ap, Bytes, none, some, List, [], arith, length, inl, inr, Bool-cases,
  Option-cases, if◌then◌else◌,
}
use drgtw.Base.Assoc.{
  lookup, insert, bytes_eq, pair_eq, pair_beq, pair_beq_iff, lookup-insert, length-insert_new,
}
use drgtw.Base.Text.{equal, equal_iff}
use drgtw.Pii.Decimal.{placeholder, placeholder-injective}
use drgtw.Pii.EntityMap.{EntityMap, count, remember}

abbrev pub Key : Type 0
Key = Bytes × Bytes

count-insert :
    (prefix p : Bytes) (n : ℕ) (counters : List (Bytes × ℕ))
    → count p (insert prefix n counters) ≡ (if equal prefix p then n else count p counters)
unfolding count
count-insert prefix p n counters = ground (arith, lookup-insert prefix p n counters)

module _ {S : Type 0} where
  -- The placeholder of a key carries the key's prefix and a number that the counter has passed.
  pub record Numbered (m : EntityMap S) (prefix ph : Bytes) : Type 0 where
    pub number : ℕ
    pub spelled : ph ≡ placeholder prefix number
    pub passed : number ≤ count prefix m.counters

  -- The two directions agree, and the counters lie ahead of every placeholder given out.
  pub record IsConsistent (m : EntityMap S) : Type 0 where
    pub inverse :
        (key : Key) (ph : Bytes)
        → lookup key m.forward ≡ some ph
        → lookup ph m.backward ≡ some key.1
    pub numbered : (key : Key) (ph : Bytes) → lookup key m.forward ≡ some ph → Numbered m key.0 ph
    pub issued :
        (ph value : Bytes)
        → lookup ph m.backward ≡ some value
        → (prefix : Bytes) × Numbered m prefix ph
    pub bounded : (prefix : Bytes) → count prefix m.counters ≤ length m.forward

  pub new-IsConsistent :
      IsConsistent (record { forward = []; backward = []; counters = []; store = none })
  unfolding lookup count
  new-IsConsistent = record {
    inverse = λ key ph h. cc;
    numbered = λ key ph h. absurd (cc h);
    issued = λ ph value h. absurd (cc h);
    bounded = λ prefix. omega arith;
  }

  -- The next number of a prefix is one that no placeholder has.
  pub fresh :
      (m : EntityMap S) (prefix : Bytes)
      → IsConsistent m
      → lookup (placeholder prefix (count prefix m.counters + 1)) m.backward ≡ none
  fresh m prefix c =
      elim (Option-cases (lookup (placeholder prefix (count prefix m.counters + 1)) m.backward)) [
        | inl e ↦ e
        | inr (v, e) ↦
            let (prefix', given) = c.issued _ v e in
            let same = placeholder-injective prefix prefix' _ given.number given.spelled in
            absurd (omega (arith, same.1, given.passed, ap (λ p. count p m.counters) same.0))
      ]

  -- The map after a new pair, with no wrap of the counter.
  unfoldable pub grow : Key → EntityMap S → EntityMap S
  unfolding remember
  grow (prefix, original) m =
      let n = count prefix m.counters + 1 in
      remember (prefix, original) (placeholder prefix n)
        (record m { counters = insert prefix n m.counters })

  grow-inverse :
      (prefix original : Bytes) (m : EntityMap S) (key : Key) (ph : Bytes)
      → IsConsistent m
      → lookup key (grow (prefix, original) m).forward ≡ some ph
      → lookup ph (grow (prefix, original) m).backward ≡ some key.1
  unfolding grow
  grow-inverse prefix original m key ph c h = ground (
    arith,
    lookup-insert (prefix, original) key (placeholder prefix (count prefix m.counters + 1))
        m.forward,
    lookup-insert (placeholder prefix (count prefix m.counters + 1)) ph original m.backward,
    fresh m prefix c,
    c.inverse key ph,
    pair_beq_iff (prefix, original) key,
    equal_iff (placeholder prefix (count prefix m.counters + 1)) ph,
  )

  grow-Numbered :
      (prefix original : Bytes) (m : EntityMap S) (key : Key) (ph : Bytes)
      → IsConsistent m
      → lookup key (grow (prefix, original) m).forward ≡ some ph
      → Numbered (grow (prefix, original) m) key.0 ph
  unfolding grow
  grow-Numbered prefix original m key ph c h = elim (Bool-cases (pair_beq (prefix, original) key)) [
    | inl same ↦ record {
      number = count prefix m.counters + 1;
      spelled = ground (
        arith,
        lookup-insert (prefix, original) key (placeholder prefix (count prefix m.counters + 1))
            m.forward,
        pair_beq_iff (prefix, original) key,
      );
      passed = ground (
        arith,
        count-insert prefix key.0 (count prefix m.counters + 1) m.counters,
        pair_beq_iff (prefix, original) key,
        equal_iff prefix key.0,
      );
    }
    | inr other ↦
        let old : lookup key m.forward ≡ some ph = ground (
          arith,
          lookup-insert (prefix, original) key (placeholder prefix (count prefix m.counters + 1))
              m.forward,
        ) in
        let given = c.numbered key ph old in
        record {
          number = given.number;
          spelled = given.spelled;
          passed = ground (
            arith,
            given.passed,
            count-insert prefix key.0 (count prefix m.counters + 1) m.counters,
            equal_iff prefix key.0,
          );
        }
  ]

  grow-issued :
      (prefix original : Bytes) (m : EntityMap S) (ph v : Bytes)
      → IsConsistent m
      → lookup ph (grow (prefix, original) m).backward ≡ some v
      → (p : Bytes) × Numbered (grow (prefix, original) m) p ph
  unfolding grow
  grow-issued prefix original m ph v c h =
      let new_ph = placeholder prefix (count prefix m.counters + 1) in
      elim (Bool-cases (equal new_ph ph)) [
        | inl same ↦ (
          prefix,
          record {
            number = count prefix m.counters + 1;
            spelled = ground (arith, equal_iff new_ph ph);
            passed = ground (
              arith,
              count-insert prefix prefix (count prefix m.counters + 1) m.counters,
              equal_iff prefix prefix,
            );
          },
        )
        | inr other ↦
            let old : lookup ph m.backward ≡ some v =
              ground (arith, lookup-insert new_ph ph original m.backward) in
            let (p, given) = c.issued ph v old in
            (
              p,
              record {
                number = given.number;
                spelled = given.spelled;
                passed = ground (
                  arith,
                  given.passed,
                  count-insert prefix p (count prefix m.counters + 1) m.counters,
                  equal_iff prefix p,
                );
              },
            )
      ]

  -- A new pair keeps the two directions in agreement.
  pub grow-IsConsistent :
      (prefix original : Bytes) (m : EntityMap S)
      → IsConsistent m
      → lookup (prefix, original) m.forward ≡ none
      → IsConsistent (grow (prefix, original) m)
  grow-IsConsistent prefix original m c h = record {
    inverse = λ key ph. grow-inverse prefix original m key ph c;
    numbered = λ key ph. grow-Numbered prefix original m key ph c;
    issued = λ ph v. grow-issued prefix original m ph v c;
    bounded = λ p.
        unfold grow in
        ground (
          arith,
          c.bounded p,
          c.bounded prefix,
          count-insert prefix p (count prefix m.counters + 1) m.counters,
          length-insert_new (prefix, original) (placeholder prefix (count prefix m.counters + 1))
              m.forward h,
        );
  }
