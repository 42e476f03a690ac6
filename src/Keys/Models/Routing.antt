-- ===== src/Keys/Models/Routing.antt =====
-- Which connections are candidates for a model, and in which order.
use drgtw.Base.{
  ℕ, ◌+◌, ◌≡◌, refl, sym, ap, ◌∙◌, inl, inr, Bytes, Bool, true, false, not, ◌&&◌, ◌||◌, none, some,
  List, [], ◌∷◌, arith, any, length, In, equal, starts_with, ltb, Bool-cases, Option-cases,
}
use drgtw.Keys.Config.{Connection}
use drgtw.Keys.Pattern.{strip_star, pattern_matches, is_wildcard}
use drgtw.Keys.Models.{
  serves_exactly, exact_matches, longer, better, best_prefix, WildcardMatch, wildcard_matches,
  conns,
}

-- Some pattern of the connection matches the model.
abbrev pub serves : Bytes → Connection → Bool
serves model conn = any (λ p. pattern_matches p model) conn.models

better-some : (model pat : Bytes) (n : ℕ) → (k : ℕ) × (better model pat (some n) ≡ some k)
unfolding better
better-some model pat n = elim (Option-cases (strip_star pat)) [
  | inl e ↦ (n, rw (e, better) refl)
  | inr (p, e) ↦ elim (Bool-cases (starts_with model p && ltb n (length p))) [
    | inl h ↦ (length p, ground arith)
    | inr h ↦ (n, ground arith)
  ]
]

best_prefix-some :
    (model : Bytes) (pats : List Bytes) (n : ℕ)
    → (k : ℕ) × (best_prefix model pats (some n) ≡ some k)
unfolding best_prefix
best_prefix-some model [] n = (n, refl)
best_prefix-some model (p ∷ pats) n =
    let (k, e) = better-some model p n in
    let (j, f) = best_prefix-some model pats k in (j, ap (best_prefix model pats) e ∙ f)

-- A wildcard of the list matches the model.
abbrev pub serves_by_wildcard : Bytes → List Bytes → Bool
serves_by_wildcard model pats = any (λ p. is_wildcard p && pattern_matches p model) pats

pub best_prefix_hit :
    (model : Bytes) (pats : List Bytes)
    → serves_by_wildcard model pats ≡ true
    → (k : ℕ) × (best_prefix model pats none ≡ some k)
unfolding best_prefix better longer is_wildcard pattern_matches
best_prefix_hit model [] h = absurd (cc h)
best_prefix_hit model (p ∷ pats) h = elim (Option-cases (strip_star p)) [
  | inl e ↦ let (k, f) = best_prefix_hit model pats (ground arith) in (k, rw (e, better) f)
  | inr (prefix, e) ↦ elim (Bool-cases (starts_with model prefix)) [
    | inl s ↦
        let (k, f) = best_prefix-some model pats (length prefix) in (k, rw (e, better) (rw s f))
    | inr s ↦ let (k, f) = best_prefix_hit model pats (ground arith) in (k, rw (e, better) (rw s f))
  ]
]

pub best_prefix_miss :
    (model : Bytes) (pats : List Bytes)
    → serves_by_wildcard model pats ≡ false
    → best_prefix model pats none ≡ none
unfolding best_prefix better longer is_wildcard pattern_matches
best_prefix_miss model [] h = refl
best_prefix_miss model (p ∷ pats) h = elim (Option-cases (strip_star p)) [
  | inl e ↦ rw (e, better) (best_prefix_miss model pats (ground arith))
  | inr (prefix, e) ↦
      let s : starts_with model prefix ≡ false = ground arith in
      rw (e, better) (rw s (best_prefix_miss model pats (ground arith)))
]

-- A connection serves a model by name or by a wildcard.
pub serves-or :
    (model : Bytes) (pats : List Bytes)
    → any (λ p. pattern_matches p model) pats
      ≡ (any (λ m. not (is_wildcard m) && equal m model) pats || serves_by_wildcard model pats)
unfolding is_wildcard pattern_matches
serves-or model [] = refl
serves-or model (p ∷ pats) = ground (arith, serves-or model pats)

pub In-exact_matches :
    (c : Connection) (model : Bytes) (cs : List Connection)
    → In c cs
    → serves_exactly model c ≡ true
    → In c (exact_matches model cs)
unfolding exact_matches
In-exact_matches c model [] i h = i
In-exact_matches c model (d ∷ cs) (inl e) h =
    let here : serves_exactly model d ≡ true = ap (serves_exactly model) (sym e) ∙ h in
    rw here (inl e)
In-exact_matches c model (d ∷ cs) (inr i) h = elim (Bool-cases (serves_exactly model d)) [
  | inl s ↦ rw s (inr (In-exact_matches c model cs i h))
  | inr s ↦ rw s (In-exact_matches c model cs i h)
]

pub exact_matches-In :
    (c : Connection) (model : Bytes) (cs : List Connection)
    → In c (exact_matches model cs)
    → In c cs × (serves_exactly model c ≡ true)
unfolding exact_matches
exact_matches-In c model [] i = absurd i
exact_matches-In c model (d ∷ cs) i = elim (Bool-cases (serves_exactly model d)) [
  | inl s ↦ elim (let i' : In c (d ∷ exact_matches model cs) = rw s at i in i') [
    | inl e ↦ (inl e, ap (serves_exactly model) e ∙ s)
    | inr j ↦ let (k, h) = exact_matches-In c model cs j in (inr k, h)
  ]
  | inr s ↦
      let j : In c (exact_matches model cs) = rw s at i in
      let (k, h) = exact_matches-In c model cs j in (inr k, h)
]

pub In-conns : (w : WildcardMatch) (ws : List WildcardMatch) → In w ws → In w.conn (conns ws)
unfolding conns
In-conns w [] i = i
In-conns w (v ∷ ws) (inl e) = inl (ap (λ (x : WildcardMatch). x.conn) e)
In-conns w (v ∷ ws) (inr i) = inr (In-conns w ws i)

pub conns-In :
    (c : Connection) (ws : List WildcardMatch)
    → In c (conns ws)
    → (w : WildcardMatch) × In w ws × (w.conn ≡ c)
unfolding conns
conns-In c [] i = absurd i
conns-In c (v ∷ ws) (inl e) = (v, inl refl, sym e)
conns-In c (v ∷ ws) (inr i) = let (w, j, e) = conns-In c ws i in (w, inr j, e)

pub In-wildcard_matches :
    (c : Connection) (model : Bytes) (idx : ℕ) (cs : List Connection)
    → In c cs
    → serves_by_wildcard model c.models ≡ true
    → (w : WildcardMatch) × In w (wildcard_matches model idx cs) × (w.conn ≡ c)
unfolding wildcard_matches
In-wildcard_matches c model idx [] i h = absurd i
In-wildcard_matches c model idx (d ∷ cs) (inl e) h =
    let (k, f) =
      best_prefix_hit model d.models
        (ap (λ (x : Connection). serves_by_wildcard model x.models) (sym e) ∙ h) in
    (
      record { conn = d; prefix_len = k; config_idx = idx },
      rw (f, wildcard_matches) (inl refl),
      sym e,
    )
In-wildcard_matches c model idx (d ∷ cs) (inr i) h =
    let (w, j, e) = In-wildcard_matches c model (idx + 1) cs i h in
    elim (Option-cases (best_prefix model d.models none)) [
      | inl f ↦ (w, rw (f, wildcard_matches) j, e)
      | inr (k, f) ↦ (w, rw (f, wildcard_matches) (inr j), e)
    ]

pub wildcard_matches-In :
    (w : WildcardMatch) (model : Bytes) (idx : ℕ) (cs : List Connection)
    → In w (wildcard_matches model idx cs)
    → In w.conn cs
      × (best_prefix model w.conn.models none ≡ some w.prefix_len)
      × (serves_by_wildcard model w.conn.models ≡ true)
unfolding wildcard_matches
wildcard_matches-In w model idx [] i = absurd i
wildcard_matches-In w model idx (d ∷ cs) i = elim (Option-cases (best_prefix model d.models none)) [
  | inl f ↦
      let (j, b, s) = wildcard_matches-In w model (idx + 1) cs (rw (f, wildcard_matches) at i) in
      (inr j, b, s)
  | inr (k, f) ↦
      let here : WildcardMatch = record { conn = d; prefix_len = k; config_idx = idx } in
      elim (let i' : In w (here ∷ wildcard_matches model (idx + 1) cs) =
          rw (f, wildcard_matches) at i in
        i') [
          | inl e ↦
              let same = ap (λ (x : WildcardMatch). x.conn) e in
              let len = ap (λ (x : WildcardMatch). x.prefix_len) e in
              let found : best_prefix model w.conn.models none ≡ some w.prefix_len =
                ap (λ (x : Connection). best_prefix model x.models none) same
                ∙ f
                ∙ ap some (sym len) in
              (
                inl same,
                found,
                elim (Bool-cases (serves_by_wildcard model w.conn.models)) [
                  | inl s ↦ s
                  | inr s ↦ absurd (cc (found, best_prefix_miss model w.conn.models s))
                ],
              )
          | inr i' ↦ let (j, b, s) = wildcard_matches-In w model (idx + 1) cs i' in (inr j, b, s)
        ]
]
