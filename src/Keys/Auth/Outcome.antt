-- ===== src/Keys/Auth/Outcome.antt =====
-- What `authenticate` answers.
use drgtw.Base.{
  ℕ, ◌+◌, ◌%◌, ◌≤◌, max, ◌≡◌, ◌≢◌, ap, ◌∙◌, inl, inr, Bytes, true, false, Option, none, some, List,
  [], ◌∷◌, ◌++◌, arith, length, get_elem?, All, equal,
}
use drgtw.Base.Results.{Result, ok, err}
use drgtw.Keys.Auth.{
  KeyEntry, KeyStore, ResolvedKey, AuthError, unknown_key, longest_secret, resolved, entry_at,
  compare_all, check_candidate,
}
use drgtw.Keys.Auth.Compare.{IsText, AreSecrets, find_last, compare_all_small, compare_all_single}

-- A store as `new` leaves it: secrets are texts, and the longest one is known.
pub record IsBuilt (store : KeyStore) : Type 0 where
  pub texts : All (λ e. IsText e.secret) store.entries
  pub longest_is : store.max_key_len ≡ longest_secret store.entries

AreSecrets-longest :
    (es : List KeyEntry) (n : ℕ)
    → All (λ e. IsText e.secret) es
    → longest_secret es ≤ n
    → AreSecrets n es
unfolding longest_secret
AreSecrets-longest [] n t h = tt
AreSecrets-longest (e ∷ es) n (t, ts) h =
    ((omega arith, t), AreSecrets-longest es n ts (omega arith))

abbrev pub answer : Option KeyEntry → Result AuthError ResolvedKey
answer none = err unknown_key
answer (some e) = ok (resolved e)

module _ (to_str : Bytes → Option Bytes) (ct_eq : Bytes → Bytes → ℕ)
    (ct_eq_same : (a : Bytes) → ct_eq a a ≡ 1)
    (ct_eq_differ : (a b : Bytes) → a ≢ b → ct_eq a b ≡ 0) where
  -- With at most 256 keys, a credential is answered by the last key that has exactly that secret, and is
  -- unknown if no key has it. No panic happens.
  pub check_candidate-find_last :
      (store : KeyStore) (c : ℕ) (cand : Bytes)
      → IsBuilt store
      → IsText (c ∷ cand)
      → length store.entries ≤ 256
      → check_candidate to_str ct_eq store (c ∷ cand)
        ≡ some (answer (find_last (c ∷ cand) store.entries))
  unfolding check_candidate entry_at
  check_candidate-find_last store c cand built text few =
      let n = max store.max_key_len (length (c ∷ cand)) + 1 in
      let secrets =
        AreSecrets-longest store.entries n built.texts (omega (arith, built.longest_is)) in
      elim (compare_all_small ct_eq ct_eq_same ct_eq_differ n (c ∷ cand) (omega arith) text
        store.entries 0 0 false secrets (omega arith) (omega arith)) [
          | inl (miss, run) ↦ ground (arith, miss, run)
          | inr (e, k, found, at, run) ↦
              let index : compare_all ct_eq n (c ∷ cand) store.entries 0 0 0 ≡ (1, k) =
                run ∙ ap (λ x. (1, x)) (omega arith) in
              ground (arith, found, at, index)
        ]

  -- The index of a match is cut to its lowest byte: the credential of the key at index `n` is answered
  -- with the identity and the permissions of the key at index `n % 256`.
  pub check_candidate_wraps :
      (store : KeyStore) (c : ℕ) (cand : Bytes) (pre : List KeyEntry) (e : KeyEntry)
      (post : List KeyEntry) (f : KeyEntry)
      → IsBuilt store
      → IsText (c ∷ cand)
      → store.entries ≡ pre ++ e ∷ post
      → equal e.secret (c ∷ cand) ≡ true
      → find_last (c ∷ cand) pre ≡ none
      → find_last (c ∷ cand) post ≡ none
      → get_elem? store.entries (length pre % 256) ≡ some f
      → check_candidate to_str ct_eq store (c ∷ cand) ≡ some (ok (resolved f))
  unfolding check_candidate entry_at
  check_candidate_wraps store c cand pre e post f built text split hit before behind at =
      let n = max store.max_key_len (length (c ∷ cand)) + 1 in
      let secrets =
        AreSecrets-longest store.entries n built.texts (omega (arith, built.longest_is)) in
      let run =
        compare_all_single ct_eq ct_eq_same ct_eq_differ n (c ∷ cand) (omega arith) text pre e post
          0 (rw split at secrets) before hit behind in
      let index : compare_all ct_eq n (c ∷ cand) store.entries 0 0 0 ≡ (1, length pre % 256) =
        ap (λ es. compare_all ct_eq n (c ∷ cand) es 0 0 0) split
        ∙ run
        ∙ ap (λ x. (1, x)) (ap (λ x. x % 256) (omega arith)) in
      ground (arith, index, at)
