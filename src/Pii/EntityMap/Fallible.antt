-- ===== src/Pii/EntityMap/Fallible.antt =====
-- The fallible pseudonymization without a store.
use drgtw.Base.{
  ℕ, ◌≡◌, refl, ap, ◌∙◌, inl, inr, Bytes, Option, none, some, List, [], ◌∷◌, ◌++◌, arith, length,
  Option-cases,
}
use drgtw.Base.Results.{Result, ok}
use drgtw.Base.Assoc.{lookup, bytes_eq, pair_eq}
use drgtw.Pii.Kind.{Detection, placeholder_prefix}
use drgtw.Pii.Slice.{slice}
use drgtw.Pii.EntityMap.{
  EntityMap, DetectError, remember, get_or_insert, try_get_or_insert, pseudonymize_from,
  pseudonymize, try_pseudonymize_from, try_pseudonymize,
}

module _ {S : Type 0} where
  -- A plain outcome as a success.
  abbrev pub succeeded :
      Option (EntityMap S × Bytes) → Option (EntityMap S × Result DetectError Bytes)
  succeeded none = none
  succeeded (some (m, out)) = some (m, ok out)

  pub store_kept :
      (prefix original : Bytes) (m : EntityMap S)
      → (get_or_insert prefix original m).0.store ≡ m.store
  unfolding get_or_insert remember
  store_kept prefix original m = elim (Option-cases (lookup (prefix, original) m.forward)) [
    | inl new ↦ rw (new, get_or_insert) refl
    | inr (ph, known) ↦ rw (known, get_or_insert) refl
  ]

module _ {S : Type 0} (up : Bytes → Bytes)
    (get_or_assign : S → Bytes → Bytes → Result Bytes Bytes × S) where
  try_get_or_insert-plain :
      (prefix original : Bytes) (m : EntityMap S)
      → m.store ≡ none
      → try_get_or_insert get_or_assign prefix original m
        ≡ ((get_or_insert prefix original m).0, ok (get_or_insert prefix original m).1)
  unfolding try_get_or_insert get_or_insert
  try_get_or_insert-plain prefix original m h = ground arith

  try_pseudonymize_from-plain :
      (text : Bytes) (cursor : ℕ) (dets : List Detection) (out : Bytes) (m : EntityMap S)
      → m.store ≡ none
      → try_pseudonymize_from up get_or_assign text cursor dets out m
        ≡ succeeded (pseudonymize_from up text cursor dets out m)
  unfolding try_pseudonymize_from pseudonymize_from
  try_pseudonymize_from-plain text cursor [] out m h =
      elim (Option-cases (slice text cursor (length text))) [
        | inl bad ↦ rw (bad, try_pseudonymize_from, pseudonymize_from) refl
        | inr (rest, good) ↦ rw (good, try_pseudonymize_from, pseudonymize_from) refl
      ]
  try_pseudonymize_from-plain text cursor (det ∷ dets) out m h =
      elim (Option-cases (slice text cursor det.start)) [
        | inl bad ↦ rw (bad, try_pseudonymize_from, pseudonymize_from) refl
        | inr (before, good) ↦ elim (Option-cases (slice text det.start det.stop)) [
          | inl bad ↦
              rw (good, try_pseudonymize_from, pseudonymize_from)
                (rw (bad, try_pseudonymize_from, pseudonymize_from) refl)
          | inr (original, fine) ↦
              let prefix = placeholder_prefix up det.kind in
              let m' = (get_or_insert prefix original m).0 in
              let ph = (get_or_insert prefix original m).1 in
              let plain = try_get_or_insert-plain prefix original m h in
              let rest =
                try_pseudonymize_from-plain text det.stop dets (out ++ (before ++ ph)) m'
                  (store_kept prefix original m ∙ h) in
              rw (good, try_pseudonymize_from, pseudonymize_from)
                (rw (fine, try_pseudonymize_from, pseudonymize_from)
                  (rw (ap (λ x. x.1) plain, try_pseudonymize_from, pseudonymize_from)
                    (rw (ap (λ x. x.0) plain) rest)))
        ]
      ]

  -- Without a store, the fallible pseudonymization gives what the plain one gives, as a success, and
  -- leaves the same map; it panics where that panics.
  pub try_pseudonymize-plain :
      (text : Bytes) (dets : List Detection) (m : EntityMap S)
      → m.store ≡ none
      → try_pseudonymize up get_or_assign text dets m ≡ succeeded (pseudonymize up text dets m)
  unfolding try_pseudonymize pseudonymize
  try_pseudonymize-plain text dets m h = try_pseudonymize_from-plain text 0 dets [] m h
