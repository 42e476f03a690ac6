-- ===== src/Keys/Models/Candidates.antt =====
-- The outcome of routing a model.
use drgtw.Base.{
  ◌≡◌, ◌≢◌, ◌↔◌, refl, sym, ap, ◌∙◌, inl, inr, subst, Bytes, Bool, true, false, some, List, [], ◌∷◌,
  ◌++◌, arith, any, In, In-append, In-append_left, In-append_right, if◌then◌else◌, Bool-cases, not,
  ◌&&◌, map, keep, equal,
}
use drgtw.Base.Results.{Result, ok, err}
use drgtw.Base.Sort.{sort_by, sort_by-In, In-sort_by}
use drgtw.Keys.Config.{Connection}
use drgtw.Keys.Auth.{ResolvedKey}
use drgtw.Keys.Models.{
  RouteError, model_not_allowed, unknown_model, serves_exactly, exact_matches, WildcardMatch,
  wildcard_matches, before, conns, candidates, permitted, non_empty, connections_for_model, first,
  connection_for_model,
}
use drgtw.Keys.Pattern.{is_wildcard}
use drgtw.Keys.Models.Wildcards.{IsWildcardMatch, In-IsWildcardMatch, IsWildcardMatch-In}
use drgtw.Keys.Models.Ranks.{IsRanked, sort_by-IsRanked}
use drgtw.Keys.Models.Routing.{
  serves, serves_by_wildcard, serves-or, best_prefix_hit, In-exact_matches, exact_matches-In,
  In-conns, conns-In, In-wildcard_matches, wildcard_matches-In,
}

module _ (model : Bytes) (cs : List Connection) where
  -- Every connection that serves the model is a candidate,
  In-candidates : (c : Connection) → In c cs → serves model c ≡ true → In c (candidates model cs)
  unfolding candidates serves_exactly
  In-candidates c i h = elim (Bool-cases (serves_exactly model c)) [
    | inl s ↦ In-append_left c (exact_matches model cs) _ (In-exact_matches c model cs i s)
    | inr s ↦
        let by_wildcard : serves_by_wildcard model c.models ≡ true =
          ground (arith, serves-or model c.models) in
        let (w, j, e) = In-wildcard_matches c model 0 cs i by_wildcard in
        In-append_right c (exact_matches model cs) _ (
          subst (λ x. In x (conns (sort_by before (wildcard_matches model 0 cs)))) e
            (In-conns w _ (In-sort_by before w _ j)))
  ]

  -- and every candidate is such a connection.
  candidates-In : (c : Connection) → In c (candidates model cs) → In c cs × (serves model c ≡ true)
  unfolding candidates serves_exactly
  candidates-In c i = elim (In-append c (exact_matches model cs) _ i) [
    | inl j ↦
        let (k, s) = exact_matches-In c model cs j in (k, ground (arith, serves-or model c.models))
    | inr j ↦
        let (w, v, e) = conns-In c _ j in
        let (k, _, s) = wildcard_matches-In w model 0 cs (sort_by-In before w _ v) in
        let here : serves model w.conn ≡ true = ground (arith, serves-or model w.conn.models) in
        (subst (λ x. In x cs) e k, subst (λ (x : Connection). serves model x ≡ true) e here)
  ]

any-In :
    (model : Bytes) (c : Connection) (cs : List Connection)
    → In c cs
    → serves model c ≡ true
    → any (serves model) cs ≡ true
any-In model c [] i h = absurd i
any-In model c (d ∷ cs) (inl e) h =
    let here : serves model d ≡ true = ap (serves model) (sym e) ∙ h in ground arith
any-In model c (d ∷ cs) (inr i) h = let later = any-In model c cs i h in ground arith

any_witness :
    (model : Bytes) (cs : List Connection)
    → any (serves model) cs ≡ true
    → (c : Connection) × In c cs × (serves model c ≡ true)
any_witness model [] h = absurd (cc h)
any_witness model (d ∷ cs) h = elim (Bool-cases (serves model d)) [
  | inl s ↦ (d, inl refl, s)
  | inr s ↦ let (c, i, t) = any_witness model cs (ground arith) in (c, inr i, t)
]

non_empty_hit :
    (model : Bytes) (c : Connection) (cs : List Connection) → In c cs → non_empty model cs ≡ ok cs
unfolding non_empty
non_empty_hit model c [] i = absurd i
non_empty_hit model c (d ∷ cs) i = refl

non_empty_miss :
    (model : Bytes) (cs : List Connection)
    → ((c : Connection) → In c cs → ⊥)
    → non_empty model cs ≡ err (unknown_model model)
unfolding non_empty
non_empty_miss model [] h = refl
non_empty_miss model (d ∷ cs) h = absurd (h d (inl refl))

-- A model outside the allowlist is not allowed; a model that no connection of the key serves is
-- unknown; for any other the candidates are returned.
pub connections_for_model_outcome :
    (key : ResolvedKey) (model : Bytes)
    → connections_for_model key model ≡ (
        if permitted key.model_allowlist model
        then (if any (serves model) key.connections
            then ok (candidates model key.connections)
            else err (unknown_model model))
        else err (model_not_allowed model))
unfolding connections_for_model
connections_for_model_outcome key model = elim (Bool-cases (any (serves model) key.connections)) [
  | inl some_serves ↦
      let (c, i, s) = any_witness model key.connections some_serves in
      rw some_serves (
        rw
          (non_empty_hit model c (candidates model key.connections)
            (In-candidates model key.connections c i s))
          refl)
  | inr none_serves ↦ rw none_serves (
      rw
        (non_empty_miss model (candidates model key.connections) (λ c i.
          let (j, s) = candidates-In model key.connections c i in
          let found = any-In model c key.connections j s in cc (none_serves, found)))
        refl)
]

-- The candidates are exactly the connections of the key that serve the model.
connections_for_model_iff :
    (key : ResolvedKey) (model : Bytes) (found : List Connection) (c : Connection)
    → connections_for_model key model ≡ ok found
    → In c found ↔ (In c key.connections × (serves model c ≡ true))
connections_for_model_iff key model found c h =
    let same : candidates model key.connections ≡ found =
      ground (arith, connections_for_model_outcome key model) in
    (
      λ i. candidates-In model key.connections c (subst (In c) (sym same) i),
      λ (i, s). subst (In c) same (In-candidates model key.connections c i s),
    )

-- The connection lists the model itself.
abbrev pub lists : Bytes → Connection → Bool
lists model c = any (λ m. not (is_wildcard m) && equal m model) c.models

exact_matches-keep :
    (model : Bytes) (cs : List Connection) → exact_matches model cs ≡ keep (lists model) cs
unfolding exact_matches serves_exactly
exact_matches-keep model [] = refl
exact_matches-keep model (c ∷ cs) =
    ap (λ (rest : List Connection). if lists model c then c ∷ rest else rest)
      (exact_matches-keep model cs)

-- When routing succeeds, the connections that list the model by name come first, in configuration order.
-- The connections behind them are those that match by a wildcard, all of them and once each; one with a
-- longer longest matching prefix comes first, and of two with equal ones the earlier in the configuration.
pub candidates_order :
    (key : ResolvedKey) (model : Bytes) (found : List Connection)
    → connections_for_model key model ≡ ok found
    → (wild : List WildcardMatch) × (found
        ≡ keep (lists model) key.connections ++ map (λ w. w.conn) wild)
      × IsRanked wild
      × ((w : WildcardMatch) → In w wild ↔ IsWildcardMatch model key.connections w)
unfolding candidates conns
candidates_order key model found h =
    let matches = wildcard_matches model 0 key.connections in
    let same : candidates model key.connections ≡ found =
      ground (arith, connections_for_model_outcome key model) in
    (
      sort_by before matches,
      sym same
          ∙ ap (λ l. l ++ map (λ (w : WildcardMatch). w.conn) (sort_by before matches))
              (exact_matches-keep model key.connections),
      sort_by-IsRanked model key.connections,
      λ w. (
        λ i. In-IsWildcardMatch model key.connections w (sort_by-In before w matches i),
        λ m. In-sort_by before w matches (IsWildcardMatch-In model key.connections w m),
      ),
    )

-- A connection that lists the model and also matches it by a wildcard is a candidate twice.
pub candidate_twice :
    (key : ResolvedKey) (model : Bytes) (c : Connection)
    → key.connections ≡ c ∷ []
    → permitted key.model_allowlist model ≡ true
    → serves_exactly model c ≡ true
    → serves_by_wildcard model c.models ≡ true
    → connections_for_model key model ≡ ok (c ∷ c ∷ [])
unfolding connections_for_model candidates exact_matches wildcard_matches conns sort_by
candidate_twice key model c only allowed exact wild =
    let (k, found) = best_prefix_hit model c.models wild in
    rw (only, allowed) (rw exact (rw (found, wildcard_matches) refl))

first_total :
    (allowed : Bool) (model : Bytes) (cs : List Connection)
    → (r : Result RouteError Connection) × (first
          (if allowed then non_empty model cs else err (model_not_allowed model))
        ≡ some r)
unfolding first non_empty
first_total false model cs = (err (model_not_allowed model), refl)
first_total true model [] = (err (unknown_model model), refl)
first_total true model (c ∷ cs) = (ok c, refl)

-- `connection_for_model` never panics.
pub connection_for_model_total :
    (key : ResolvedKey) (model : Bytes)
    → (r : Result RouteError Connection) × (connection_for_model key model ≡ some r)
unfolding connection_for_model
connection_for_model_total key model =
    first_total (permitted key.model_allowlist model) model (candidates model key.connections)

nonempty_lem :
    (allowed : Bool) (model : Bytes) (cs : List Connection)
    → (if allowed then non_empty model cs else err (model_not_allowed model)) ≢ ok []
unfolding non_empty
nonempty_lem false model cs h = absurd (cc h)
nonempty_lem true model [] h = absurd (cc h)
nonempty_lem true model (c ∷ cs) h =
    let e : c ∷ cs ≡ [] =
      ap (λ (r : Result RouteError (List Connection)). elim r [ err e ↦ [] | ok l ↦ l ]) h in
    cc e

-- Routing never succeeds without a candidate.
pub connections_for_model_nonempty :
    (key : ResolvedKey) (model : Bytes) → connections_for_model key model ≢ ok []
unfolding connections_for_model
connections_for_model_nonempty key model =
    nonempty_lem (permitted key.model_allowlist model) model (candidates model key.connections)
