-- ===== src/Proxy/Candidates.antt =====
-- The candidates of a request are there, and each may serve it (`proxy_endpoint` in
-- crates/drgtw-proxy/src/handlers.rs).
use drgtw.Base.{
  ◌≡◌, ◌≢◌, refl, ap, inl, inr, Bytes, Bool, true, false, not, ◌&&◌, Option, none, some, List, [],
  ◌∷◌, arith, keep, Bool-cases,
}
use drgtw.Base.Lists.{All}
use drgtw.Base.Results.{Result, ok, err}
use drgtw.Keys.Auth.{ResolvedKey}
use drgtw.Keys.Config.{ApiFormat, Connection}
use drgtw.Keys.Models.{RouteError, connections_for_model}
use drgtw.Keys.Models.Candidates.{connections_for_model_nonempty}
use drgtw.Proxy.{
  spec_accepts_format, is_bedrock, Chosen, without_bedrock, for_stream, select_matching,
  route_error, select_candidates,
}

-- The endpoint accepts the format of the connection, and a stream is not for native Bedrock.
abbrev pub MayServe : ApiFormat → Bool → Connection → Type 0
MayServe spec streaming c =
    (spec_accepts_format spec c.format ≡ true) × (streaming && is_bedrock c ≡ false)

abbrev Accepted : ApiFormat → Connection → Type 0
Accepted spec c = spec_accepts_format spec c.format ≡ true

abbrev NotBedrock : Connection → Type 0
NotBedrock c = not (is_bedrock c) ≡ true

All_keep : (p : Connection → Bool) (cs : List Connection) → All (λ c. p c ≡ true) (keep p cs)
All_keep p [] = tt
All_keep p (c ∷ cs) = elim (Bool-cases (p c)) [
  | inl e ↦ rw e (e, All_keep p cs)
  | inr e ↦ rw e (All_keep p cs)
]

keep_keeps :
    (P : Connection → Type 0) (p : Connection → Bool) (cs : List Connection)
    → All P cs
    → All P (keep p cs)
keep_keeps P p [] h = tt
keep_keeps P p (c ∷ cs) (h, hs) = elim (Bool-cases (p c)) [
  | inl e ↦ rw e (h, keep_keeps P p cs hs)
  | inr e ↦ rw e (keep_keeps P p cs hs)
]

may_stream :
    (spec : ApiFormat) (cs : List Connection)
    → All (Accepted spec) cs
    → All NotBedrock cs
    → All (MayServe spec true) cs
may_stream spec [] h k = tt
may_stream spec (c ∷ cs) (h, hs) (k, ks) = ((h, ground arith), may_stream spec cs hs ks)

may_serve :
    (spec : ApiFormat) (cs : List Connection)
    → All (Accepted spec) cs
    → All (MayServe spec false) cs
may_serve spec [] h = tt
may_serve spec (c ∷ cs) (h, hs) = ((h, refl), may_serve spec cs hs)

module _ (Usd Transport : Type 0) where
  -- No panic, and no success without a candidate or with one that may not serve the request.
  abbrev pub IsChosen : ApiFormat → Bool → Option (Chosen Usd Transport) → Type 0
  IsChosen spec streaming none = ⊥
  IsChosen spec streaming (some (err e)) = Unit
  IsChosen spec streaming (some (ok cs)) = (cs ≢ []) × All (MayServe spec streaming) cs

  abbrev after_routing :
      ApiFormat
      → Bool
      → Bool
      → Bytes
      → Result RouteError (List Connection)
      → Option (Chosen Usd Transport)
  after_routing spec fallback streaming model routed = elim routed [
    | err e ↦ some (err (route_error e))
    | ok all ↦
        select_matching spec fallback streaming model all
          (keep (λ c. spec_accepts_format spec c.format) all)
  ]

  module _ (spec : ApiFormat) where
    without_bedrock-IsChosen :
        (cs : List Connection)
        → All (MayServe spec true) cs
        → IsChosen spec true (some (without_bedrock cs))
    unfolding without_bedrock
    without_bedrock-IsChosen [] h = tt
    without_bedrock-IsChosen (c ∷ cs) h = ((λ e. grind arith), h)

    for_stream-IsChosen :
        (streaming : Bool) (c : Connection) (cs : List Connection)
        → All (Accepted spec) (c ∷ cs)
        → IsChosen spec streaming (some (for_stream streaming (c ∷ cs)))
    unfolding for_stream
    for_stream-IsChosen true c cs h =
        let kept = keep (λ d. not (is_bedrock d)) (c ∷ cs) in
        without_bedrock-IsChosen kept (
          may_stream spec kept (keep_keeps (Accepted spec) (λ d. not (is_bedrock d)) (c ∷ cs) h)
            (All_keep (λ d. not (is_bedrock d)) (c ∷ cs)))
    for_stream-IsChosen false c cs h = ((λ e. grind arith), may_serve spec (c ∷ cs) h)

    select_matching-IsChosen :
        (fallback streaming : Bool) (model : Bytes) (all found : List Connection)
        → all ≢ []
        → All (Accepted spec) found
        → IsChosen spec streaming (select_matching spec fallback streaming model all found)
    unfolding select_matching
    select_matching-IsChosen fallback streaming model [] found h k = absurd (h refl)
    select_matching-IsChosen fallback streaming model (a ∷ others) [] h k = tt
    select_matching-IsChosen true streaming model (a ∷ others) (c ∷ cs) h k =
        for_stream-IsChosen streaming c cs k
    select_matching-IsChosen false streaming model (a ∷ others) (c ∷ cs) h (k, ks) =
        for_stream-IsChosen streaming c [] (k, tt)

    routed-IsChosen :
        (fallback streaming : Bool) (model : Bytes) (routed : Result RouteError (List Connection))
        → routed ≢ ok []
        → IsChosen spec streaming (after_routing spec fallback streaming model routed)
    routed-IsChosen fallback streaming model (err e) h = tt
    routed-IsChosen fallback streaming model (ok all) h =
        select_matching-IsChosen fallback streaming model all
          (keep (λ c. spec_accepts_format spec c.format) all) (λ e. h (ap ok e))
          (All_keep (λ c. spec_accepts_format spec c.format) all)

  -- The choice of the candidates does not panic, and when it succeeds, there is a candidate, the endpoint
  -- accepts the format of each, and none is a native Bedrock connection if the request is for a stream.
  pub select_candidates-IsChosen :
      (spec : ApiFormat) (fallback streaming : Bool) (model : Bytes) (resolved : ResolvedKey)
      → IsChosen spec streaming (select_candidates spec fallback streaming model resolved)
  unfolding select_candidates
  select_candidates-IsChosen spec fallback streaming model resolved =
      routed-IsChosen spec fallback streaming model (connections_for_model resolved model)
        (connections_for_model_nonempty resolved model)
