-- ===== src/Mcp/Route.antt =====
-- A call goes to the server with the longest name that the tool's name begins with (`McpGateway::route` in
-- crates/drgtw-mcp/src/gateway.rs).
use drgtw.Base.{
  ℕ, ◌≤◌, ◌<◌, ◌≡◌, ◌≢◌, ◌⊎◌, refl, sym, ap, ◌∙◌, subst, inl, inr, Bytes, Option, none, some, List,
  [], ◌∷◌, ◌++◌, arith, In, In-append, In-append_left, In-append_right, length, append_assoc,
  append-nil, strip_prefix, strip_prefix-append, strip_prefix-eq_some, ltb, ltb→lt, Bool-cases,
}
use drgtw.Mcp.{UpstreamClient, McpGateway, separator, Best, keep_longer, route_from, route}

-- The prefixed name is the server's, the separator, and a bare name that is not empty.
abbrev Owns : Bytes → UpstreamClient → Bytes → Type 0
Owns prefixed client bare = (prefixed ≡ client.name ++ (separator ++ bare)) × (bare ≢ [])

-- Nothing found, or one of the clients seen that owns the name.
abbrev IsFound : Bytes → List UpstreamClient → Best → Type 0
IsFound prefixed seen (best, len) =
    ((best ≡ none) × (len ≡ 0))
    ⊎ ((client : UpstreamClient) × (bare : Bytes) × (best ≡ some (client, bare))
        × (len ≡ length client.name)
        × In client seen
        × Owns prefixed client bare
        × (0 < len))

-- No client seen that owns the name has a longer name.
abbrev IsBound : Bytes → List UpstreamClient → ℕ → Type 0
IsBound prefixed seen len =
    (other : UpstreamClient) (bare : Bytes)
    → In other seen
    → Owns prefixed other bare
    → length other.name ≤ len

blank : (c : ℕ) (s : Bytes) → ◌≡◌ {A = Option Bytes} (some []) (some (c ∷ s)) → ⊥
blank c s n =
    let e : [] ≡ c ∷ s = ap (λ (o : Option Bytes). elim o [ none ↦ [] | some x ↦ x ]) n in cc e

module _ (prefixed : Bytes) where
  strip_prefix-Owns :
      (client : UpstreamClient) (bare : Bytes)
      → Owns prefixed client bare
      → strip_prefix (client.name ++ separator) prefixed ≡ some bare
  strip_prefix-Owns client bare (e, ne) = rw e (
      rw (sym (append_assoc client.name separator bare))
        (strip_prefix-append (client.name ++ separator) bare))

  Owns-strip_prefix :
      (client : UpstreamClient) (c : ℕ) (bare : Bytes)
      → strip_prefix (client.name ++ separator) prefixed ≡ some (c ∷ bare)
      → Owns prefixed client (c ∷ bare)
  Owns-strip_prefix client c bare e = (
    strip_prefix-eq_some (client.name ++ separator) prefixed e
        ∙ append_assoc client.name separator (c ∷ bare),
    λ h. cc h,
  )

  module _ (seen : List UpstreamClient) (client : UpstreamClient) where
    In-snoc :
        (other : UpstreamClient) → In other (seen ++ client ∷ []) → In other seen ⊎ (other ≡ client)
    In-snoc other i = elim (In-append other seen (client ∷ []) i) [
      | inl j ↦ inl j
      | inr (inl e) ↦ inr e
      | inr (inr j) ↦ absurd j
    ]

    IsFound-more :
        (best : Best) → IsFound prefixed seen best → IsFound prefixed (seen ++ client ∷ []) best
    IsFound-more (best, len) (inl h) = inl h
    IsFound-more (best, len) (inr (found, bare, e, l, i, owns, p)) =
        inr (found, bare, e, l, In-append_left found seen (client ∷ []) i, owns, p)

    IsBound-more :
        (len len' : ℕ)
        → IsBound prefixed seen len
        → len ≤ len'
        → ((bare : Bytes) → Owns prefixed client bare → length client.name ≤ len')
        → IsBound prefixed (seen ++ client ∷ []) len'
    IsBound-more len len' h l new other bare i owns = elim (In-snoc other i) [
      | inl old ↦ omega (arith, h other bare old owns)
      | inr same ↦
          subst (λ (x : UpstreamClient). Owns prefixed x bare → length x.name ≤ len') (sym same)
            (new bare) owns
    ]

    -- A client that does not own the name.
    not_owned :
        (o : Option Bytes)
        → strip_prefix (client.name ++ separator) prefixed ≡ o
        → ((c : ℕ) (s : Bytes) → o ≢ some (c ∷ s))
        → (len : ℕ) (bare : Bytes) → Owns prefixed client bare
        → length client.name ≤ len
    not_owned o e absent len [] owns = absurd (owns.1 refl)
    not_owned o e absent len (c ∷ s) owns =
        absurd (absent c s (sym e ∙ strip_prefix-Owns client (c ∷ s) owns))

    Kept : Best → Type 0
    Kept best =
        IsFound prefixed (seen ++ client ∷ []) best × IsBound prefixed (seen ++ client ∷ []) best.1

    keep_longer-Kept :
        (o : Option Bytes) (best : Best)
        → strip_prefix (client.name ++ separator) prefixed ≡ o
        → IsFound prefixed seen best
        → IsBound prefixed seen best.1
        → Kept (keep_longer client o best)
    unfolding keep_longer Kept
    keep_longer-Kept none (b, len) e f h = (
      IsFound-more (b, len) f,
      IsBound-more len len h (omega arith) (not_owned none e (λ c s n. cc n) len),
    )
    keep_longer-Kept (some []) (b, len) e f h = (
      IsFound-more (b, len) f,
      IsBound-more len len h (omega arith) (not_owned (some []) e (λ c s n. blank c s n) len),
    )
    keep_longer-Kept (some (c ∷ bare)) (b, len) e f h =
        elim (Bool-cases (ltb len (length client.name))) [
          | inl l ↦
              let less = ltb→lt len (length client.name) l in
              rw l (
                inr (
                  client,
                  c ∷ bare,
                  refl,
                  refl,
                  In-append_right client seen (client ∷ []) (inl refl),
                  Owns-strip_prefix client c bare e,
                  omega arith,
                ),
                IsBound-more len (length client.name) h (omega arith) (λ x owns. omega arith),
              )
          | inr l ↦ rw l (
            IsFound-more (b, len) f,
            IsBound-more len len h (omega arith) (λ x owns. ground arith),
          )
        ]

  route_from-IsBest :
      (seen clients : List UpstreamClient) (best : Best)
      → IsFound prefixed seen best
      → IsBound prefixed seen best.1
      → IsFound prefixed (seen ++ clients) (route_from prefixed clients best)
        × IsBound prefixed (seen ++ clients) (route_from prefixed clients best).1
  unfolding route_from Kept
  route_from-IsBest seen [] best f h = rw (append-nil seen) (f, h)
  route_from-IsBest seen (client ∷ clients) best f h =
      let (f', h') =
        keep_longer-Kept seen client (strip_prefix (client.name ++ separator) prefixed) best refl f
          h in
      rw (sym (append_assoc seen (client ∷ []) clients)) (
        route_from-IsBest (seen ++ client ∷ []) clients
          (keep_longer client (strip_prefix (client.name ++ separator) prefixed) best) f' h')

-- What a call is routed to: a client that owns the name, and none that owns it has a longer name; nothing,
-- if no client with a name owns it.
abbrev pub IsRouted : Bytes → List UpstreamClient → Option (UpstreamClient × Bytes) → Type 0
IsRouted prefixed clients none =
    (other : UpstreamClient) (bare : Bytes)
    → In other clients
    → Owns prefixed other bare
    → length other.name ≤ 0
IsRouted prefixed clients (some (client, bare)) =
    In client clients
    × Owns prefixed client bare
    × ((other : UpstreamClient) (bare' : Bytes)
        → In other clients
        → Owns prefixed other bare'
        → length other.name ≤ length client.name)

routed :
    (prefixed : Bytes) (clients : List UpstreamClient) (best : Best)
    → IsFound prefixed clients best
    → IsBound prefixed clients best.1
    → IsRouted prefixed clients best.0
routed prefixed clients (none, len) (inl (e, l)) h =
    λ other bare i owns. omega (arith, h other bare i owns)
routed prefixed clients (some b, len) (inl (e, l)) h = absurd (cc e)
routed prefixed clients (none, len) (inr (client, bare, e, l, i, owns, p)) h = absurd (cc e)
routed prefixed clients (some (found, b), len) (inr (client, bare, e, l, i, owns, p)) h =
    subst
      (λ (x : UpstreamClient × Bytes).
        In x.0 clients
        × Owns prefixed x.0 x.1
        × ((other : UpstreamClient) (bare' : Bytes)
            → In other clients
            → Owns prefixed other bare'
            → length other.name ≤ length x.0.name))
      (sym
        (ap (λ (o : Option (UpstreamClient × Bytes)). elim o [ none ↦ (found, b) | some x ↦ x ]) e))
      (i, owns, λ other bare' j o. omega (arith, h other bare' j o, l))

-- A call is routed to a client whose name, with the separator and a bare name, is the tool's name, and to the
-- longest such; it is routed nowhere only if no client with a name qualifies.
pub route-IsRouted :
    (g : McpGateway) (prefixed : Bytes) → IsRouted prefixed g.clients (route g prefixed)
unfolding route
route-IsRouted g prefixed =
    let (f, h) =
      route_from-IsBest prefixed [] g.clients (none, 0) (inl (refl, refl))
        (λ other bare i owns. absurd i) in
    routed prefixed g.clients (route_from prefixed g.clients (none, 0)) f h
