-- ===== src/Sse/Framing/Boundary.antt =====
-- Where an event ends: the first delimiter (`find_event_boundary` in crates/drgtw-proxy/src/sse_restore.rs).
use drgtw.Base.{
  min, ℕ, zero, suc, ◌+◌, ◌≤◌, ◌<◌, ◌≡◌, ◌⊎◌, ◌↔◌, refl, inl, inr, Bytes, true, false, Option, none,
  some, [], ◌∷◌, ◌++◌, arith, length, drop, starts_with, strip_prefix, ap, ◌∙◌, Option-cases,
  Bool-cases,
}
use drgtw.Sse.Framing.{end_of, earlier, find_event_boundary, lf_lf, crlf_crlf}

-- Prefixes of a text that grows

strip_prefix-append_some :
    (p s t r : Bytes) → strip_prefix p s ≡ some r → strip_prefix p (s ++ t) ≡ some (r ++ t)
unfolding strip_prefix
strip_prefix-append_some [] s t r h = ground arith
strip_prefix-append_some (c ∷ p) [] t r h = absurd (cc h)
strip_prefix-append_some (c ∷ p) (d ∷ s) t r h = ground (arith, strip_prefix-append_some p s t r)

strip_prefix-length : (p s r : Bytes) → strip_prefix p s ≡ some r → length p + length r ≡ length s
unfolding strip_prefix
strip_prefix-length [] s r h = ground arith
strip_prefix-length (c ∷ p) [] r h = absurd (cc h)
strip_prefix-length (c ∷ p) (d ∷ s) r h = ground (arith, strip_prefix-length p s r)

-- A prefix that only the longer text has reaches beyond the shorter one.
strip_prefix-append_none :
    (p s t r : Bytes)
    → strip_prefix p s ≡ none
    → strip_prefix p (s ++ t) ≡ some r
    → length s < length p
unfolding strip_prefix
strip_prefix-append_none [] s t r h g = absurd (cc h)
strip_prefix-append_none (c ∷ p) [] t r h g = omega arith
strip_prefix-append_none (c ∷ p) (d ∷ s) t r h g = ground (arith, strip_prefix-append_none p s t r)

module _ (p : Bytes) where
  starts_with-append : (s t : Bytes) → starts_with s p ≡ true → starts_with (s ++ t) p ≡ true
  unfolding starts_with
  starts_with-append s t h = elim (Option-cases (strip_prefix p s)) [
    | inl e ↦ absurd (ground arith)
    | inr (r, e) ↦ rw (strip_prefix-append_some p s t r e, starts_with) refl
  ]

  starts_with-fits : (s : Bytes) → starts_with s p ≡ true → length p ≤ length s
  unfolding starts_with
  starts_with-fits s h = elim (Option-cases (strip_prefix p s)) [
    | inl e ↦ absurd (ground arith)
    | inr (r, e) ↦ omega (arith, strip_prefix-length p s r e)
  ]

  starts_with-beyond :
      (s t : Bytes) → starts_with s p ≡ false → starts_with (s ++ t) p ≡ true → length s < length p
  unfolding starts_with
  starts_with-beyond s t h g = elim (Option-cases (strip_prefix p s)) [
    | inr (r, e) ↦ absurd (ground arith)
    | inl e ↦ elim (Option-cases (strip_prefix p (s ++ t))) [
      | inl d ↦ absurd (ground arith)
      | inr (r, d) ↦ strip_prefix-append_none p s t r e d
    ]
  ]

  -- The first occurrence of a delimiter

  pub end_of-bounds : (s : Bytes) (n : ℕ) → end_of p s ≡ some n → (length p ≤ n) × (n ≤ length s)
  unfolding end_of
  end_of-bounds [] n h = absurd (cc h)
  end_of-bounds (c ∷ s) n h = elim (Bool-cases (starts_with (c ∷ s) p)) [
    | inl e ↦ ground (arith, starts_with-fits (c ∷ s))
    | inr e ↦ elim (Option-cases (end_of p s)) [
      | inl d ↦ absurd (ground arith)
      | inr (m, d) ↦ ground (arith, end_of-bounds s m)
    ]
  ]

  pub end_of-append : (s t : Bytes) (n : ℕ) → end_of p s ≡ some n → end_of p (s ++ t) ≡ some n
  unfolding end_of
  end_of-append [] t n h = absurd (cc h)
  end_of-append (c ∷ s) t n h = elim (Bool-cases (starts_with (c ∷ s) p)) [
    | inl e ↦ ground (arith, starts_with-append (c ∷ s) t)
    | inr e ↦ elim (Option-cases (end_of p s)) [
      | inl d ↦ absurd (ground arith)
      | inr (m, d) ↦
          ground (arith, end_of-append s t m, end_of-bounds s m, starts_with-beyond (c ∷ s) t)
    ]
  ]

  pub end_of-beyond :
      (s t : Bytes) (n : ℕ)
      → 0 < length p
      → end_of p s ≡ none
      → end_of p (s ++ t) ≡ some n
      → length s < n
  unfolding end_of
  end_of-beyond [] t n l h g = omega (arith, (end_of-bounds t n g).0)
  end_of-beyond (c ∷ s) t n l h g = elim (Bool-cases (starts_with (c ∷ s) p)) [
    | inl e ↦ absurd (ground arith)
    | inr e ↦ elim (Option-cases (end_of p s)) [
      | inr (m, d) ↦ absurd (ground arith)
      | inl d ↦ elim (Option-cases (end_of p (s ++ t))) [
        | inl d' ↦ ground (arith, starts_with-beyond (c ∷ s) t)
        | inr (m, d') ↦ ground (arith, starts_with-beyond (c ∷ s) t, end_of-beyond s t m l d d')
      ]
    ]
  ]

-- The first end of an event

-- Some delimiter ends before the given index.
abbrev pub IsEnd : Bytes → ℕ → Type 0
IsEnd s n =
    (i : ℕ) × (((i + 2 ≡ n) × (starts_with (drop i s) lf_lf ≡ true))
      ⊎ ((i + 4 ≡ n) × (starts_with (drop i s) crlf_crlf ≡ true)))

module _ (p : Bytes) where
  -- Where the delimiter stands, and that it stands nowhere before.
  end_of-occurrence :
      (s : Bytes) (n : ℕ)
      → end_of p s ≡ some n
      → (i : ℕ) × (i + length p ≡ n) × (starts_with (drop i s) p ≡ true)
  unfolding end_of
  end_of-occurrence [] n h = absurd (cc h)
  end_of-occurrence (c ∷ s) n h = elim (Bool-cases (starts_with (c ∷ s) p)) [
    | inl e ↦ (0, ground arith, e)
    | inr e ↦ elim (Option-cases (end_of p s)) [
      | inl d ↦ absurd (ground arith)
      | inr (m, d) ↦ let (i, at, found) = end_of-occurrence s m d in (suc i, ground arith, found)
    ]
  ]

  end_of-least :
      (s : Bytes) (i : ℕ)
      → 0 < length p
      → starts_with (drop i s) p ≡ true
      → (n : ℕ) × (end_of p s ≡ some n) × (n ≤ i + length p)
  unfolding end_of
  end_of-least [] zero l h = absurd (omega (arith, starts_with-fits p [] h))
  end_of-least [] (suc i) l h = absurd (omega (arith, starts_with-fits p [] h))
  end_of-least (c ∷ s) zero l h = (length p, ground arith, omega arith)
  end_of-least (c ∷ s) (suc i) l h = elim (Bool-cases (starts_with (c ∷ s) p)) [
    | inl e ↦ (length p, ground arith, omega arith)
    | inr e ↦ let (n, found, below) = end_of-least s i l h in (suc n, ground arith, omega arith)
  ]

min-one : (x y : ℕ) → (min x y ≡ x) ⊎ (min x y ≡ y)
min-one x y = omega arith

earlier-one : (a b : Option ℕ) (n : ℕ) → earlier a b ≡ some n → (a ≡ some n) ⊎ (b ≡ some n)
unfolding earlier
earlier-one none none n h = absurd (cc h)
earlier-one none (some b) n h = inr h
earlier-one (some a) none n h = inl h
earlier-one (some a) (some b) n h = elim (min-one a b) [
  | inl e ↦ inl (ground arith)
  | inr e ↦ inr (ground arith)
]

earlier-left : (a b : Option ℕ) (x : ℕ) → a ≡ some x → (n : ℕ) × (earlier a b ≡ some n) × (n ≤ x)
unfolding earlier
earlier-left none b x h = absurd (cc h)
earlier-left (some a) none x h = (a, refl, ground arith)
earlier-left (some a) (some b) x h = (min a b, refl, ground arith)

earlier-right : (a b : Option ℕ) (x : ℕ) → b ≡ some x → (n : ℕ) × (earlier a b ≡ some n) × (n ≤ x)
unfolding earlier
earlier-right a none x h = absurd (cc h)
earlier-right none (some b) x h = (b, refl, ground arith)
earlier-right (some a) (some b) x h = (min a b, refl, ground arith)

module _ (s : Bytes) where
  pub boundary-IsEnd : (n : ℕ) → find_event_boundary s ≡ some n → IsEnd s n
  unfolding find_event_boundary
  boundary-IsEnd n h = elim (earlier-one (end_of lf_lf s) (end_of crlf_crlf s) n h) [
    | inl e ↦ let (i, at, found) = end_of-occurrence lf_lf s n e in (i, inl (at, found))
    | inr e ↦ let (i, at, found) = end_of-occurrence crlf_crlf s n e in (i, inr (at, found))
  ]

  pub boundary_least : (m : ℕ) → IsEnd s m → (n : ℕ) × (find_event_boundary s ≡ some n) × (n ≤ m)
  unfolding find_event_boundary
  boundary_least m (i, inl (at, found)) =
      let (x, e, below) = end_of-least lf_lf s i (omega arith) found in
      let (n, e', below') = earlier-left (end_of lf_lf s) (end_of crlf_crlf s) x e in
      (n, e', omega arith)
  boundary_least m (i, inr (at, found)) =
      let (x, e, below) = end_of-least crlf_crlf s i (omega arith) found in
      let (n, e', below') = earlier-right (end_of lf_lf s) (end_of crlf_crlf s) x e in
      (n, e', omega arith)

  pub boundary-bounds : (n : ℕ) → find_event_boundary s ≡ some n → (2 ≤ n) × (n ≤ length s)
  unfolding find_event_boundary
  boundary-bounds n h = elim (earlier-one (end_of lf_lf s) (end_of crlf_crlf s) n h) [
    | inl e ↦ end_of-bounds lf_lf s n e
    | inr e ↦ let (low, high) = end_of-bounds crlf_crlf s n e in (omega arith, high)
  ]

meets :
    (s : Bytes) (n : ℕ)
    → ((m : ℕ) → IsEnd s m → n ≤ m)
    → (k : ℕ) × (find_event_boundary s ≡ some k) × (k ≤ n)
    → find_event_boundary s ≡ some n
meets s n below (k, e, l) =
    let same : k ≡ n = omega (arith, below k (boundary-IsEnd s k e)) in e ∙ ap some same

below_all : (s : Bytes) (n : ℕ) → find_event_boundary s ≡ some n → (m : ℕ) → IsEnd s m → n ≤ m
below_all s n h m end = let (k, e, l) = boundary_least s m end in ground arith

-- A number is the answer of the search exactly if it is the least index that a delimiter ends at.
pub find_event_boundary-first :
    (s : Bytes) (n : ℕ)
    → (find_event_boundary s ≡ some n) ↔ (IsEnd s n × ((m : ℕ) → IsEnd s m → n ≤ m))
find_event_boundary-first s n =
    (λ h. (boundary-IsEnd s n h, below_all s n h), λ e. meets s n e.1 (boundary_least s n e.0))
