-- ===== src/Keys/Models/Wildcards.antt =====
-- The wildcard matches of a model: the longest prefix of each connection, and the rank of the connection
-- (phase 2 of `ResolvedKey::connections_for_model` in crates/drgtw-keys/src/lib.rs).
use drgtw.Base.{
  ℕ, zero, suc, ◌+◌, ◌≤◌, ◌≡◌, ◌⊎◌, refl, sym, ap, ◌∙◌, subst, inl, inr, Bytes, true, ◌&&◌, Option,
  none, some, List, [], ◌∷◌, arith, In, length, get_elem?, starts_with, Bool-cases, Option-cases,
}
use drgtw.Keys.Config.{Connection}
use drgtw.Keys.Pattern.{strip_star}
use drgtw.Keys.Models.{longer, better, best_prefix, WildcardMatch, wildcard_matches}

module _ (model : Bytes) where
  -- The pattern is a prefix of the given length, with a star, and the model starts with it.
  abbrev pub IsPrefixMatch : Bytes → ℕ → Type 0
  IsPrefixMatch pat n =
      (p : Bytes) × (strip_star pat ≡ some p) × (starts_with model p ≡ true) × (length p ≡ n)

  -- Some pattern is such a prefix, and none is a longer one.
  abbrev pub IsLongestMatch : List Bytes → ℕ → Type 0
  IsLongestMatch pats n =
      ((pat : Bytes) × In pat pats × IsPrefixMatch pat n)
      × ((pat : Bytes) (m : ℕ) → In pat pats → IsPrefixMatch pat m → m ≤ n)

  better-origin :
      (pat : Bytes) (o : Option ℕ) (m : ℕ)
      → better model pat o ≡ some m
      → (o ≡ some m) ⊎ IsPrefixMatch pat m
  unfolding better
  better-origin pat o m h = elim (Option-cases (strip_star pat)) [
    | inl e ↦ inl (rw (e, better) at h)
    | inr (p, e) ↦ elim (Bool-cases (starts_with model p && longer (length p) o)) [
      | inl b ↦ inr (p, e, ground arith, ground arith)
      | inr b ↦ inl (ground arith)
    ]
  ]

  better-grows : (pat : Bytes) (n : ℕ) → (m : ℕ) × (better model pat (some n) ≡ some m) × (n ≤ m)
  unfolding better longer
  better-grows pat n = elim (Option-cases (strip_star pat)) [
    | inl e ↦ (n, rw (e, better) refl, omega arith)
    | inr (p, e) ↦ elim (Bool-cases (starts_with model p && longer (length p) (some n))) [
      | inl b ↦ (length p, rw (e, better) (rw b refl), ground arith)
      | inr b ↦ (n, rw (e, better) (rw b refl), omega arith)
    ]
  ]

  better-hit :
      (pat : Bytes) (k : ℕ) (o : Option ℕ)
      → IsPrefixMatch pat k
      → (m : ℕ) × (better model pat o ≡ some m) × (k ≤ m)
  unfolding better longer
  better-hit pat k none (p, e, s, l) = (length p, ground arith, omega arith)
  better-hit pat k (some n) (p, e, s, l) = elim (Bool-cases (longer (length p) (some n))) [
    | inl b ↦ (length p, ground arith, omega arith)
    | inr b ↦ (n, ground arith, ground arith)
  ]

  best_prefix-grows :
      (pats : List Bytes) (n : ℕ) → (m : ℕ) × (best_prefix model pats (some n) ≡ some m) × (n ≤ m)
  unfolding best_prefix
  best_prefix-grows [] n = (n, refl, omega arith)
  best_prefix-grows (pat ∷ pats) n =
      let (k, e, l) = better-grows pat n in
      let (m, d, h) = best_prefix-grows pats k in (m, rw e d, omega arith)

  best_prefix-hit :
      (pats : List Bytes) (o : Option ℕ) (pat : Bytes) (k : ℕ)
      → In pat pats
      → IsPrefixMatch pat k
      → (m : ℕ) × (best_prefix model pats o ≡ some m) × (k ≤ m)
  unfolding best_prefix
  best_prefix-hit [] o pat k i h = absurd i
  best_prefix-hit (q ∷ pats) o pat k (inl e) h =
      let (n, d, l) = better-hit q k o (subst (λ x. IsPrefixMatch x k) e h) in
      let (m, f, g) = best_prefix-grows pats n in (m, rw d f, omega arith)
  best_prefix-hit (q ∷ pats) o pat k (inr i) h = best_prefix-hit pats (better model q o) pat k i h

  best_prefix-origin :
      (pats : List Bytes) (o : Option ℕ) (m : ℕ)
      → best_prefix model pats o ≡ some m
      → (o ≡ some m) ⊎ ((pat : Bytes) × In pat pats × IsPrefixMatch pat m)
  unfolding best_prefix
  best_prefix-origin [] o m h = inl h
  best_prefix-origin (q ∷ pats) o m h = elim (best_prefix-origin pats (better model q o) m h) [
    | inl e ↦ elim (better-origin q o m e) [ inl d ↦ inl d | inr d ↦ inr (q, inl refl, d) ]
    | inr (pat, i, d) ↦ inr (pat, inr i, d)
  ]

  same_length : (a b : ℕ) (o : Option ℕ) → o ≡ some a → o ≡ some b → a ≡ b
  same_length a b o h k = cc (h, k)

  -- The prefix that is found is a longest one,
  pub best_prefix-IsLongestMatch :
      (pats : List Bytes) (n : ℕ) → best_prefix model pats none ≡ some n → IsLongestMatch pats n
  best_prefix-IsLongestMatch pats n h = elim (best_prefix-origin pats none n h) [
    | inl e ↦ absurd (cc e)
    | inr found ↦ (
      found,
      λ pat m i p.
          let (k, e, l) = best_prefix-hit pats none pat m i p in
          let same = same_length k n (best_prefix model pats none) e h in omega arith,
    )
  ]

  -- and a longest one is found.
  pub IsLongestMatch-best_prefix :
      (pats : List Bytes) (n : ℕ) → IsLongestMatch pats n → best_prefix model pats none ≡ some n
  IsLongestMatch-best_prefix pats n ((pat, i, p), longest) =
      let (k, e, l) = best_prefix-hit pats none pat n i p in
      let ((q, j, r), others) = best_prefix-IsLongestMatch pats k e in
      let upper : k ≤ n = longest q k j r in let same : k ≡ n = omega arith in e ∙ ap some same

  -- A connection at its index, with its longest match.
  abbrev pub IsWildcardMatch : List Connection → WildcardMatch → Type 0
  IsWildcardMatch cs w =
      (get_elem? cs w.config_idx ≡ some w.conn) × IsLongestMatch w.conn.models w.prefix_len

  abbrev Found : ℕ → List Connection → WildcardMatch → Type 0
  Found idx cs w =
      (i : ℕ) × (w.config_idx ≡ idx + i)
      × (get_elem? cs i ≡ some w.conn)
      × (best_prefix model w.conn.models none ≡ some w.prefix_len)

  matched_later :
      (idx : ℕ) (c : Connection) (cs : List Connection) (w : WildcardMatch)
      → Found (idx + 1) cs w
      → Found idx (c ∷ cs) w
  matched_later idx c cs w (i, e, at, b) = (suc i, omega arith, at, b)

  matched_here :
      (idx : ℕ) (c : Connection) (cs : List Connection) (n : ℕ) (w : WildcardMatch)
      → w ≡ record { conn = c; prefix_len = n; config_idx = idx }
      → best_prefix model c.models none ≡ some n
      → Found idx (c ∷ cs) w
  matched_here idx c cs n w e b = subst (Found idx (c ∷ cs)) (sym e) (0, omega arith, refl, b)

  In-Found :
      (idx : ℕ) (cs : List Connection) (w : WildcardMatch)
      → In w (wildcard_matches model idx cs)
      → Found idx cs w
  unfolding wildcard_matches
  In-Found idx [] w i = absurd i
  In-Found idx (c ∷ cs) w i = elim (Option-cases (best_prefix model c.models none)) [
    | inl e ↦ matched_later idx c cs w (In-Found (idx + 1) cs w (rw (e, wildcard_matches) at i))
    | inr (n, e) ↦
        elim (let j : In w (
              record { conn = c; prefix_len = n; config_idx = idx }
              ∷ wildcard_matches model (idx + 1) cs) =
            rw (e, wildcard_matches) at i in
          j) [
            | inl d ↦ matched_here idx c cs n w d e
            | inr j ↦ matched_later idx c cs w (In-Found (idx + 1) cs w j)
          ]
  ]

  Found-In :
      (idx i : ℕ) (cs : List Connection) (c : Connection) (n : ℕ)
      → get_elem? cs i ≡ some c
      → best_prefix model c.models none ≡ some n
      → In
          (record { conn = c; prefix_len = n; config_idx = idx + i })
          (wildcard_matches model idx cs)
  unfolding wildcard_matches
  Found-In idx i [] c n at b = absurd (cc at)
  Found-In idx zero (d ∷ cs) c n at b =
      let same : d ≡ c = cc at in
      let here : best_prefix model d.models none ≡ some n =
        subst (λ (x : Connection). best_prefix model x.models none ≡ some n) (sym same) b in
      let first : ℕ → Connection → WildcardMatch =
        λ j x. record { conn = x; prefix_len = n; config_idx = j } in
      rw (here, wildcard_matches)
        (inl (
          ap (λ j. first j c) (let e : idx + 0 ≡ idx = omega arith in e)
          ∙ ap (first idx) (sym same)))
  Found-In idx (suc i) (d ∷ cs) c n at b =
      let later : In (record { conn = c; prefix_len = n; config_idx = idx + suc i })
          (wildcard_matches model (idx + 1) cs) =
        subst
          (λ j.
            In (record { conn = c; prefix_len = n; config_idx = j })
              (wildcard_matches model (idx + 1) cs))
          (let e : idx + 1 + i ≡ idx + suc i = omega arith in e)
          (Found-In (idx + 1) i cs c n at b) in
      elim (Option-cases (best_prefix model d.models none)) [
        | inl e ↦ rw (e, wildcard_matches) later
        | inr (m, e) ↦ rw (e, wildcard_matches) (inr later)
      ]

  pub In-IsWildcardMatch :
      (cs : List Connection) (w : WildcardMatch)
      → In w (wildcard_matches model 0 cs)
      → IsWildcardMatch cs w
  In-IsWildcardMatch cs w i =
      let (j, e, at, b) = In-Found 0 cs w i in
      let same : j ≡ w.config_idx = omega arith in
      (
        subst (λ n. get_elem? cs n ≡ some w.conn) same at,
        best_prefix-IsLongestMatch w.conn.models w.prefix_len b,
      )

  pub IsWildcardMatch-In :
      (cs : List Connection) (w : WildcardMatch)
      → IsWildcardMatch cs w
      → In w (wildcard_matches model 0 cs)
  IsWildcardMatch-In cs w (at, l) =
      subst
        (λ j.
          In (record { conn = w.conn; prefix_len = w.prefix_len; config_idx = j })
            (wildcard_matches model 0 cs))
        (let e : 0 + w.config_idx ≡ w.config_idx = omega arith in e)
        (Found-In 0 w.config_idx cs w.conn w.prefix_len at
          (IsLongestMatch-best_prefix w.conn.models w.prefix_len l))
