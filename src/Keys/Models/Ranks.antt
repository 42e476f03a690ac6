-- ===== src/Keys/Models/Ranks.antt =====
-- The order of the wildcard matches: no two have the same rank (phase 2 of
-- `ResolvedKey::connections_for_model` in crates/drgtw-keys/src/lib.rs).
use drgtw.Base.{
  ℕ, ◌+◌, ◌≤◌, ◌<◌, ◌≡◌, ◌≢◌, ◌⊎◌, sym, ap, ◌∙◌, inl, inr, Bytes, true, false, none, List, [], ◌∷◌,
  arith, ltb, All, All-In, In-All, Bool-cases, Option-cases,
}
use drgtw.Base.Sort.{sort_by, insert_by, insert_by-In, IsSorted, sort_by-IsSorted, sort_by-In}
use drgtw.Keys.Config.{Connection}
use drgtw.Keys.Models.{best_prefix, WildcardMatch, wildcard_matches, before}

-- A longer prefix, or as long a prefix and an earlier place in the configuration.
abbrev pub Outranks : WildcardMatch → WildcardMatch → Type 0
Outranks a b =
    (b.prefix_len < a.prefix_len) ⊎ ((a.prefix_len ≡ b.prefix_len) × (a.config_idx < b.config_idx))

abbrev pub IsRanked : List WildcardMatch → Type 0
IsRanked [] = Unit
IsRanked (w ∷ ws) = All (Outranks w) ws × IsRanked ws

-- No two have the same place.
abbrev Apart : List WildcardMatch → Type 0
Apart [] = Unit
Apart (w ∷ ws) = All (λ v. v.config_idx ≢ w.config_idx) ws × Apart ws

differs :
    (u w v : WildcardMatch) → u ≡ w → v.config_idx ≢ w.config_idx → u.config_idx ≢ v.config_idx
differs u w v e n d = n (sym d ∙ ap (λ (x : WildcardMatch). x.config_idx) e)

insert_by-Apart :
    (w : WildcardMatch) (ws : List WildcardMatch) → Apart (w ∷ ws) → Apart (insert_by before w ws)
unfolding insert_by
insert_by-Apart w [] h = h
insert_by-Apart w (v ∷ vs) ((n, ns), (k, ks)) = elim (Bool-cases (before w v)) [
  | inl e ↦ rw e ((n, ns), (k, ks))
  | inr e ↦ rw e (
    All-In _ (insert_by before w vs) (λ u i. elim (insert_by-In before u w vs i) [
      | inl same ↦ differs u w v same n
      | inr j ↦ In-All _ vs k u j
    ]),
    insert_by-Apart w vs (ns, ks),
  )
]

sort_by-Apart : (ws : List WildcardMatch) → Apart ws → Apart (sort_by before ws)
unfolding sort_by
sort_by-Apart [] h = tt
sort_by-Apart (w ∷ ws) (n, h) = insert_by-Apart w (sort_by before ws) (
  All-In _ (sort_by before ws) (λ u i. In-All _ ws n u (sort_by-In before u ws i)),
  sort_by-Apart ws h,
)

outranks_lem :
    (a b : WildcardMatch) → before a b ≡ true → b.config_idx ≢ a.config_idx → Outranks a b
outranks_lem a b h n = elim (Bool-cases (ltb b.prefix_len a.prefix_len)) [
  | inl e ↦ inl (ground arith)
  | inr e ↦ inr (ground arith)
]

sorted-IsRanked : (ws : List WildcardMatch) → IsSorted before ws → Apart ws → IsRanked ws
sorted-IsRanked [] h k = tt
sorted-IsRanked (w ∷ ws) (h, hs) (k, ks) = (
  All-In _ ws (λ u i. outranks_lem w u (In-All _ ws h u i) (In-All _ ws k u i)),
  sorted-IsRanked ws hs ks,
)

before_trans : (x y z : WildcardMatch) → before x y ≡ true → before y z ≡ true → before x z ≡ true
before_trans x y z h k = ground arith

before_total : (x y : WildcardMatch) → before x y ≡ false → before y x ≡ true
before_total x y h = ground arith

module _ (model : Bytes) where
  from_here :
      (idx : ℕ) (cs : List Connection)
      → All (λ w. idx ≤ w.config_idx) (wildcard_matches model idx cs)
  unfolding wildcard_matches
  from_here idx [] = tt
  from_here idx (c ∷ cs) =
      let later : All (λ w. idx ≤ w.config_idx) (wildcard_matches model (idx + 1) cs) =
        All-In _ (wildcard_matches model (idx + 1) cs) (λ w i.
          let l = In-All _ (wildcard_matches model (idx + 1) cs) (from_here (idx + 1) cs) w i in
          omega arith) in
      elim (Option-cases (best_prefix model c.models none)) [
        | inl e ↦ rw (e, wildcard_matches) later
        | inr (n, e) ↦ rw (e, wildcard_matches) (omega arith, later)
      ]

  wildcard_matches-Apart : (idx : ℕ) (cs : List Connection) → Apart (wildcard_matches model idx cs)
  unfolding wildcard_matches
  wildcard_matches-Apart idx [] = tt
  wildcard_matches-Apart idx (c ∷ cs) = elim (Option-cases (best_prefix model c.models none)) [
    | inl e ↦ rw (e, wildcard_matches) (wildcard_matches-Apart (idx + 1) cs)
    | inr (n, e) ↦
        rw (e, wildcard_matches)
          (
            All-In _ (wildcard_matches model (idx + 1) cs) (λ w i.
                let l =
                  In-All _ (wildcard_matches model (idx + 1) cs) (from_here (idx + 1) cs) w i in
                λ d. omega arith),
            wildcard_matches-Apart (idx + 1) cs,
          )
  ]

  pub sort_by-IsRanked :
      (cs : List Connection) → IsRanked (sort_by before (wildcard_matches model 0 cs))
  sort_by-IsRanked cs =
      let ws = wildcard_matches model 0 cs in
      sorted-IsRanked (sort_by before ws) (sort_by-IsSorted before before_trans before_total ws)
        (sort_by-Apart ws (wildcard_matches-Apart 0 cs))
