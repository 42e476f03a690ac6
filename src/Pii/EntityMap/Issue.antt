-- ===== src/Pii/EntityMap/Issue.antt =====
-- What `get_or_insert` keeps, and what it gives (crates/drgtw-pii/src/entity_map.rs).
use Prim.Native.Nat.{◌^◌}
use drgtw.Base.{
  ◌+◌, ◌%◌, ◌≤◌, ◌<◌, ◌≡◌, ◌⊎◌, refl, sym, ◌∙◌, Bytes, none, some, arith, length, inl, inr,
  Option-cases,
}
use drgtw.Base.Assoc.{lookup, bytes_eq, pair_eq, lookup-insert, lookup-insert_self, length-insert}
use drgtw.Base.Text.{equal_iff}
use drgtw.Pii.Decimal.{placeholder, placeholder-injective}
use drgtw.Pii.EntityMap.{EntityMap, count, get_or_insert}
use drgtw.Pii.EntityMap.Assign.{Key, IsConsistent, grow, fresh, grow-IsConsistent}

module _ {S : Type 0} where
  -- Either the pair is known and nothing changes, or it is added under the next number. The map has
  -- room when it holds fewer pairs than a `u32` counter can number.
  pub get_or_insert-cases :
      (prefix original : Bytes) (m : EntityMap S)
      → IsConsistent m
      → length m.forward + 1 < 2 ^ 32
      → ((ph : Bytes) × (lookup (prefix, original) m.forward ≡ some ph)
          × (get_or_insert prefix original m ≡ (m, ph)))
        ⊎ ((lookup (prefix, original) m.forward ≡ none)
            × (get_or_insert prefix original m
                ≡ (grow (prefix, original) m, placeholder prefix (count prefix m.counters + 1))))
  unfolding get_or_insert grow
  get_or_insert-cases prefix original m c room =
      elim (Option-cases (lookup (prefix, original) m.forward)) [
        | inl e ↦
            let wrap : (count prefix m.counters + 1) % 2 ^ 32 ≡ count prefix m.counters + 1 =
              omega (arith, c.bounded prefix) in
            inr (e, rw (e, get_or_insert) (rw wrap refl))
        | inr (ph, e) ↦ inl (ph, e, rw (e, get_or_insert) refl)
      ]

  pub get_or_insert-IsConsistent :
      (prefix original : Bytes) (m : EntityMap S)
      → IsConsistent m
      → length m.forward + 1 < 2 ^ 32
      → IsConsistent (get_or_insert prefix original m).0
  get_or_insert-IsConsistent prefix original m c room =
      elim (get_or_insert-cases prefix original m c room) [
        | inl (ph, e, same) ↦ rw same c
        | inr (e, new) ↦ rw new (grow-IsConsistent prefix original m c e)
      ]

  -- What is bound stays bound to the same value.
  pub get_or_insert_keeps :
      (prefix original : Bytes) (m : EntityMap S) (ph v : Bytes)
      → IsConsistent m
      → length m.forward + 1 < 2 ^ 32
      → lookup ph m.backward ≡ some v
      → lookup ph (get_or_insert prefix original m).0.backward ≡ some v
  get_or_insert_keeps prefix original m ph v c room h =
      let new_ph = placeholder prefix (count prefix m.counters + 1) in
      elim (get_or_insert-cases prefix original m c room) [
        | inl (ph', e, same) ↦ rw same h
        | inr (e, new) ↦ rw new (
            unfold grow in
            ground (
              arith,
              fresh m prefix c,
              lookup-insert new_ph ph original m.backward,
              equal_iff new_ph ph,
            ))
      ]

  -- The placeholder that is given out is bound to the value it stands for.
  pub get_or_insert_binds :
      (prefix original : Bytes) (m : EntityMap S)
      → IsConsistent m
      → length m.forward + 1 < 2 ^ 32
      → lookup (get_or_insert prefix original m).1 (get_or_insert prefix original m).0.backward
        ≡ some original
  get_or_insert_binds prefix original m c room =
      elim (get_or_insert-cases prefix original m c room) [
        | inl (ph, e, same) ↦ rw same (c.inverse (prefix, original) ph e)
        | inr (e, new) ↦ rw new (
            unfold grow in
            lookup-insert_self (placeholder prefix (count prefix m.counters + 1)) original
              m.backward)
      ]

  pub length-get_or_insert :
      (prefix original : Bytes) (m : EntityMap S)
      → length (get_or_insert prefix original m).0.forward ≤ length m.forward + 1
  unfolding get_or_insert
  length-get_or_insert prefix original m = ground (
    arith,
    length-insert (prefix, original) (placeholder prefix ((count prefix m.counters + 1) % 2 ^ 32))
        m.forward,
  )

  -- A value that has been seen under a prefix keeps its placeholder, and the map does not change:
  -- the second of two equal requests returns the first one's placeholder.
  pub get_or_insert_stable :
      (prefix original : Bytes) (m : EntityMap S)
      → get_or_insert prefix original (get_or_insert prefix original m).0
        ≡ ((get_or_insert prefix original m).0, (get_or_insert prefix original m).1)
  unfolding get_or_insert
  get_or_insert_stable prefix original m = ground (
    arith,
    lookup-insert_self (prefix, original)
        (placeholder prefix ((count prefix m.counters + 1) % 2 ^ 32)) m.forward,
  )

  -- Two pairs share a placeholder only if they are the same pair.
  pub forward_injective :
      (m : EntityMap S) (a b : Key) (ph : Bytes)
      → IsConsistent m
      → lookup a m.forward ≡ some ph
      → lookup b m.forward ≡ some ph
      → a ≡ b
  forward_injective m (p, v) (q, w) ph c h k =
      let x = c.numbered (p, v) ph h in
      let y = c.numbered (q, w) ph k in
      let same = placeholder-injective p q x.number y.number (sym x.spelled ∙ y.spelled) in
      ground (arith, same.0, c.inverse (p, v) ph h, c.inverse (q, w) ph k)
