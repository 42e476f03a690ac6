-- ===== src/Proxy/Dispatch.antt =====
-- Which candidate decides what a client gets (the fallback loop of `proxy_endpoint` in
-- crates/drgtw-proxy/src/handlers.rs).
use drgtw.Base.{
  ℕ, suc, ◌+◌, ◌%◌, ◌^◌, ◌≤◌, ◌≡◌, ◌⊎◌, refl, sym, ap, subst, inl, inr, Bytes, true, false, not,
  ◌&&◌, Option, none, some, List, [], ◌∷◌, ◌++◌, arith, length, if◌then◌else◌, Bool-cases,
}
use drgtw.Base.Json.{Value, Number}
use drgtw.Base.Results.{Result, ok, err}
use drgtw.Keys.Config.{Connection}
use drgtw.Proxy.{
  ProxyError, upstream, Sent, responded, failed, is_retriable_status, wire_body, Dispatched,
  is_last, dispatch_from, dispatch,
}

abbrev IsRetried : {Transport Response : Type 0} → Sent Transport Response → Type 0
IsRetried (responded status r) = is_retriable_status status ≡ true
IsRetried (failed e) = Unit

module _ (Usd Transport Response : Type 0) (from_slice : Bytes → Option Value)
    (to_string : Value → Bytes) (float_of : Number → Value)
    (sign : Connection → Bytes → Option Bytes)
    (send : ℕ → Connection → Bytes → Sent Transport Response) (body : Bytes) where
  abbrev wire : Connection → Result (ProxyError Usd Transport) Bytes
  wire c = wire_body from_slice to_string float_of sign send body c

  -- The attempt was made, and it failed in a way that another candidate may mend.
  abbrev PassedOver : ℕ → Connection → Type 0
  PassedOver i c = (bytes : Bytes) × (wire c ≡ ok bytes) × IsRetried (send i c bytes)

  abbrev AllPassedOver : ℕ → List Connection → Type 0
  AllPassedOver i [] = Unit
  AllPassedOver i (c ∷ cs) = PassedOver i c × AllPassedOver (suc i) cs

  -- The attempt decides: its response is relayed, if it is not to be retried or no candidate is left; or its
  -- error is, if its bytes cannot be made or no candidate is left.
  abbrev IsDecided : ℕ → Connection → List Connection → Dispatched Usd Transport Response → Type 0
  IsDecided i c post (ok ((r, d), attempts)) =
      (d ≡ c)
      × (attempts ≡ i)
      × ((bytes : Bytes) × (status : ℕ) × (wire c ≡ ok bytes)
          × (send i c bytes ≡ responded status r)
          × ((is_retriable_status status ≡ false) ⊎ (post ≡ [])))
  IsDecided i c post (err e) =
      (wire c ≡ err e)
      ⊎ ((post ≡ [])
          × ((bytes : Bytes) × (x : Transport) × (wire c ≡ ok bytes)
              × (send i c bytes ≡ failed x)
              × (e ≡ upstream x)))

  -- Some candidate decides, and those before it are passed over.
  abbrev pub Decides : ℕ → List Connection → Dispatched Usd Transport Response → Type 0
  Decides i cs d =
      (pre : List Connection) × (c : Connection) × (post : List Connection) × (cs ≡ pre ++ c ∷ post)
      × AllPassedOver i pre
      × IsDecided (i + length pre) c post d

  decided_now :
      (i : ℕ) (c : Connection) (post : List Connection) (d : Dispatched Usd Transport Response)
      → IsDecided (i + 0) c post d
      → Decides i (c ∷ post) d
  decided_now i c post d h = ([], c, post, refl, tt, h)

  decided_later :
      (i : ℕ) (c : Connection) (cs : List Connection) (d : Dispatched Usd Transport Response)
      → PassedOver i c
      → Decides (suc i) cs d
      → Decides i (c ∷ cs) d
  decided_later i c cs d h (pre, c', post, e, hs, k) = (
    c ∷ pre,
    c',
    post,
    ap (λ l. c ∷ l) e,
    (h, hs),
    subst (λ n. IsDecided n c' post d) (omega arith) k,
  )

  abbrev run :
      ℕ → Option (ProxyError Usd Transport) → List Connection → Dispatched Usd Transport Response
  run i last_err cs = dispatch_from from_slice to_string float_of sign send body i i last_err cs

  next_attempt : (i n : ℕ) → i + suc (suc n) ≤ 2 ^ 32 → (i + 1) % 2 ^ 32 ≡ suc i
  next_attempt i n h = omega (arith, h)

  -- What the loop makes of an answer, with what it does afterwards.
  abbrev after_answer :
      ℕ
      → Connection
      → List Connection
      → Dispatched Usd Transport Response
      → (Transport → Dispatched Usd Transport Response)
      → Sent Transport Response
      → Dispatched Usd Transport Response
  after_answer i c cs retried lost answer = elim answer [
    | responded status r ↦
        if is_retriable_status status && not (is_last cs) then retried else ok ((r, c), i)
    | failed x ↦ if is_last cs then err (upstream x) else lost x
  ]

  module _ (i : ℕ) (c : Connection) (bytes : Bytes) (fine : wire c ≡ ok bytes) where
    relayed_here :
        (post : List Connection) (status : ℕ) (r : Response)
        → send i c bytes ≡ responded status r
        → (is_retriable_status status ≡ false) ⊎ (post ≡ [])
        → Decides i (c ∷ post) (ok ((r, c), i))
    relayed_here post status r e h = decided_now i c post (ok ((r, c), i)) (
      refl,
      omega arith,
      (bytes, status, fine, subst (λ n. send n c bytes ≡ responded status r) (omega arith) e, h),
    )

    at_the_last :
        (answer : Sent Transport Response) (retried : Dispatched Usd Transport Response)
        (lost : Transport → Dispatched Usd Transport Response)
        → send i c bytes ≡ answer
        → Decides i (c ∷ []) (after_answer i c [] retried lost answer)
    at_the_last (responded status r) retried lost e =
        elim (Bool-cases (is_retriable_status status)) [
          | inl b ↦ rw b (relayed_here [] status r e (inr refl))
          | inr b ↦ rw b (relayed_here [] status r e (inr refl))
        ]
    at_the_last (failed x) retried lost e =
        decided_now i c [] (err (upstream x)) (
          inr
            (refl, (bytes, x, fine, subst (λ n. send n c bytes ≡ failed x) (omega arith) e, refl)))

    before_others :
        (d : Connection) (cs : List Connection) (answer : Sent Transport Response)
        (retried : Dispatched Usd Transport Response)
        (lost : Transport → Dispatched Usd Transport Response)
        → send i c bytes ≡ answer
        → Decides (suc i) (d ∷ cs) retried
        → ((x : Transport) → Decides (suc i) (d ∷ cs) (lost x))
        → Decides i (c ∷ d ∷ cs) (after_answer i c (d ∷ cs) retried lost answer)
    before_others d cs (responded status r) retried lost e h k =
        elim (Bool-cases (is_retriable_status status)) [
          | inl b ↦
              rw b (decided_later i c (d ∷ cs) retried (bytes, fine, subst IsRetried (sym e) b) h)
          | inr b ↦ rw b (relayed_here (d ∷ cs) status r e (inl b))
        ]
    before_others d cs (failed x) retried lost e h k =
        decided_later i c (d ∷ cs) (lost x) (bytes, fine, subst IsRetried (sym e) tt) (k x)

  abbrev after_wire :
      ℕ
      → Connection
      → List Connection
      → Dispatched Usd Transport Response
      → (Transport → Dispatched Usd Transport Response)
      → Result (ProxyError Usd Transport) Bytes
      → Dispatched Usd Transport Response
  after_wire i c cs retried lost w = elim w [
    | err e ↦ err e
    | ok bytes ↦ after_answer i c cs retried lost (send i c bytes)
  ]

  wire_last :
      (i : ℕ) (c : Connection) (w : Result (ProxyError Usd Transport) Bytes)
      (retried : Dispatched Usd Transport Response)
      (lost : Transport → Dispatched Usd Transport Response)
      → wire c ≡ w
      → Decides i (c ∷ []) (after_wire i c [] retried lost w)
  wire_last i c (err e) retried lost h = decided_now i c [] (err e) (inl h)
  wire_last i c (ok bytes) retried lost h =
      at_the_last i c bytes h (send i c bytes) retried lost refl

  wire_others :
      (i : ℕ) (c d : Connection) (cs : List Connection)
      (w : Result (ProxyError Usd Transport) Bytes) (retried : Dispatched Usd Transport Response)
      (lost : Transport → Dispatched Usd Transport Response)
      → wire c ≡ w
      → Decides (suc i) (d ∷ cs) retried
      → ((x : Transport) → Decides (suc i) (d ∷ cs) (lost x))
      → Decides i (c ∷ d ∷ cs) (after_wire i c (d ∷ cs) retried lost w)
  wire_others i c d cs (err e) retried lost h k l = decided_now i c (d ∷ cs) (err e) (inl h)
  wire_others i c d cs (ok bytes) retried lost h k l =
      before_others i c bytes h d cs (send i c bytes) retried lost refl k l

  dispatch_from-Decides :
      (c : Connection) (cs : List Connection) (i : ℕ) (last_err : Option (ProxyError Usd Transport))
      → i + length (c ∷ cs) ≤ 2 ^ 32
      → Decides i (c ∷ cs) (run i last_err (c ∷ cs))
  unfolding dispatch_from
  dispatch_from-Decides c [] i last_err h =
      wire_last i c (wire c)
        (dispatch_from from_slice to_string float_of sign send body (suc i) ((i + 1) % 2 ^ 32)
          last_err [])
        (λ x.
          dispatch_from from_slice to_string float_of sign send body (suc i) ((i + 1) % 2 ^ 32)
            (some (upstream x)) [])
        refl
  dispatch_from-Decides c (d ∷ cs) i last_err h =
      let next : (o : Option (ProxyError Usd Transport))
          → Decides (suc i) (d ∷ cs) (
              dispatch_from from_slice to_string float_of sign send body (suc i) ((i + 1) % 2 ^ 32)
                o (d ∷ cs)) =
        λ o.
          subst
            (λ n.
              Decides (suc i) (d ∷ cs)
                (dispatch_from from_slice to_string float_of sign send body (suc i) n o (d ∷ cs)))
            (sym (next_attempt i (length cs) h))
            (dispatch_from-Decides d cs (suc i) o (omega (arith, h))) in
      wire_others i c d cs (wire c) _ _ refl (next last_err) (λ x. next (some (upstream x)))

  -- With at least one candidate, and at most 2^32, one of them decides: those before it are passed over,
  -- since they answered with a status that is retried or not at all, and the number of attempts is theirs.
  -- Its response is relayed, if its status is not retried or it is the last; its error is, if its bytes
  -- cannot be made or it is the last.
  pub dispatch-Decides :
      (c : Connection) (cs : List Connection)
      → length (c ∷ cs) ≤ 2 ^ 32
      → Decides 0 (c ∷ cs) (dispatch from_slice to_string float_of sign send body (c ∷ cs))
  unfolding dispatch
  dispatch-Decides c cs h = dispatch_from-Decides c cs 0 none (omega (arith, h))
