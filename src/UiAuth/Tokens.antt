-- ===== src/UiAuth/Tokens.antt =====
-- A signed session is accepted until it expires, and nothing that is not signed is accepted (`sign_session`,
-- `verify_session` and `verify_csrf` in crates/drgtw-ui-auth/src).
use drgtw.Base.{
  ℕ, ◌<◌, ◌^◌, ◌≡◌, ◌≢◌, ◌↔◌, refl, sym, ap, inl, inr, ◌∙◌, Bytes, Bool, true, false, Option, none,
  some, [], ◌∷◌, ◌++◌, arith, All, All-append, leb, Bool-cases, Option-cases, equal, equal_iff,
  if◌then◌else◌,
}
use drgtw.Base.Strings.{split_once, split_once-append, split_once-eq_some}
use drgtw.EventStream.Utf8.{from_utf8, from_utf8-ascii}
use drgtw.Keys.KeyIndex.{parse_usize-decimal}
use drgtw.Pii.Decimal.{decimal, decimal-IsDigit, IsDigit}
use drgtw.UiAuth.{
  Session, dot, bar, unless_expired, session_of, encode_payload, sign_session, csrf_token,
  decode_payload, open_payload, signature_matches, verify_session, csrf_matches, verify_csrf,
}

-- What base64url without padding is relied on for: it is decoded back, and its letters are ASCII and
-- neither a dot nor a bar.
pub record IsCodec (encode : Bytes → Bytes) (decode : Bytes → Option Bytes) : Type 0 where
  pub decodes : (s : Bytes) → decode (encode s) ≡ some s
  pub letters : (s : Bytes) → All (λ c. (c < 128) × (c ≢ dot) × (c ≢ bar)) (encode s)

-- What the comparison is relied on for.
pub record Compares (ct_eq : Bytes → Bytes → ℕ) : Type 0 where
  pub same : (a : Bytes) → ct_eq a a ≡ 1
  pub differ : (a b : Bytes) → a ≢ b → ct_eq a b ≡ 0

no_dots : (s : Bytes) → All (λ c. (c < 128) × (c ≢ dot) × (c ≢ bar)) s → All (λ c. c ≢ dot) s
no_dots [] h = tt
no_dots (c ∷ s) ((a, d, b), hs) = (d, no_dots s hs)

no_bars : (s : Bytes) → All (λ c. (c < 128) × (c ≢ dot) × (c ≢ bar)) s → All (λ c. c ≢ bar) s
no_bars [] h = tt
no_bars (c ∷ s) ((a, d, b), hs) = (b, no_bars s hs)

all_ascii : (s : Bytes) → All (λ c. (c < 128) × (c ≢ dot) × (c ≢ bar)) s → All (λ c. c < 128) s
all_ascii [] h = tt
all_ascii (c ∷ s) ((a, d, b), hs) = (a, all_ascii s hs)

digits_ascii : (s : Bytes) → All IsDigit s → All (λ c. c < 128) s
digits_ascii [] h = tt
digits_ascii (c ∷ s) (h, hs) = (ground arith, digits_ascii s hs)

module _ (mac : Bytes → Bytes → Bytes) (encode : Bytes → Bytes) (decode : Bytes → Option Bytes)
    (ct_eq : Bytes → Bytes → ℕ) (codec : IsCodec encode decode) (compares : Compares ct_eq) where
  -- The parts of a token, on the way back.

  payload_ascii : (s : Session) → from_utf8 (encode_payload encode s) ≡ true
  unfolding encode_payload
  payload_ascii s = from_utf8-ascii (encode_payload encode s) (
      All-append (λ c. c < 128) (encode s.sub) (bar ∷ decimal s.exp_unix)
        (all_ascii (encode s.sub) (codec.letters s.sub))
        (omega arith, digits_ascii (decimal s.exp_unix) (decimal-IsDigit s.exp_unix)))

  payload_back :
      (s : Session)
      → from_utf8 s.sub ≡ true
      → s.exp_unix < 2 ^ 64
      → decode_payload decode (encode_payload encode s) ≡ some s
  unfolding decode_payload encode_payload session_of
  payload_back s u h =
      let parts =
        split_once-append bar (encode s.sub) (decimal s.exp_unix)
          (no_bars (encode s.sub) (codec.letters s.sub)) in
      rw (parts, decode_payload)
        (rw (codec.decodes s.sub) (rw (parse_usize-decimal s.exp_unix h) (rw (u, session_of) refl)))

  open_back :
      (s : Session) (now : ℕ)
      → from_utf8 s.sub ≡ true
      → s.exp_unix < 2 ^ 64
      → open_payload decode now (some (encode_payload encode s)) ≡ unless_expired now s
  unfolding open_payload
  open_back s now u h =
      rw (payload_ascii s, open_payload) (rw (payload_back s u h, open_payload) refl)

  signature_same :
      (key payload_b64 : Bytes)
      → signature_matches mac ct_eq key payload_b64 (some (mac key payload_b64)) ≡ true
  unfolding signature_matches
  signature_same key payload_b64 = rw (compares.same (mac key payload_b64)) refl

  -- The token of a session verifies with its key: the session comes back until its expiry, and nothing from
  -- then on.
  pub verify_session-sign_session :
      (s : Session) (key : Bytes) (now_unix : ℕ)
      → from_utf8 s.sub ≡ true
      → s.exp_unix < 2 ^ 64
      → verify_session mac decode ct_eq (sign_session mac encode s key) key now_unix
        ≡ (if leb s.exp_unix now_unix then none else some s)
  unfolding verify_session sign_session unless_expired
  verify_session-sign_session s key now u h =
      let payload_b64 = encode (encode_payload encode s) in
      let sig = mac key payload_b64 in
      let parts =
        split_once-append dot payload_b64 (encode sig)
          (no_dots payload_b64 (codec.letters (encode_payload encode s))) in
      rw (parts, verify_session)
        (rw (codec.decodes sig, verify_session)
          (rw (signature_same key payload_b64, verify_session)
            (rw (codec.decodes (encode_payload encode s)) (open_back s now u h))))

module _ (mac : Bytes → Bytes → Bytes) (decode : Bytes → Option Bytes) where
  -- A token with the signature of its payload.
  abbrev pub IsSigned : Bytes → Bytes → Type 0
  IsSigned token key =
      (payload_b64 : Bytes) × (sig_b64 : Bytes) × (token ≡ payload_b64 ++ dot ∷ sig_b64)
      × (decode sig_b64 ≡ some (mac key payload_b64))

module _ (mac : Bytes → Bytes → Bytes) (decode : Bytes → Option Bytes) (ct_eq : Bytes → Bytes → ℕ)
    (compares : Compares ct_eq) where
  equal_of_one : (a b : Bytes) → ct_eq a b ≢ 0 → a ≡ b
  equal_of_one a b h = elim (Bool-cases (equal a b)) [
    | inl e ↦ (equal_iff a b).0 e
    | inr e ↦ absurd (h (compares.differ a b (λ p. differ_absurd a b p e)))
  ]
    where
      differ_absurd : (x y : Bytes) → x ≡ y → equal x y ≡ false → ⊥
      differ_absurd x y p e = ground (arith, equal_iff x y)

  signature_genuine :
      (key payload_b64 : Bytes) (sig : Option Bytes)
      → signature_matches mac ct_eq key payload_b64 sig ≡ true
      → sig ≡ some (mac key payload_b64)
  unfolding signature_matches
  signature_genuine key payload_b64 none h = absurd (cc h)
  signature_genuine key payload_b64 (some sig) h =
      ap some (sym (equal_of_one (mac key payload_b64) sig (λ z. zero_absurd z h)))
    where
      zero_absurd :
          ct_eq (mac key payload_b64) sig ≡ 0
          → signature_matches mac ct_eq key payload_b64 (some sig) ≡ true
          → ⊥
      zero_absurd z h' = ground arith

  unless_expired-fresh :
      (now : ℕ) (s s' : Session) → unless_expired now s ≡ some s' → now < s'.exp_unix
  unfolding unless_expired
  unless_expired-fresh now s s' h = elim (Bool-cases (leb s.exp_unix now)) [
    | inl e ↦ absurd (let h' : none ≡ some s' = rw (e, unless_expired) at h in cc h')
    | inr e ↦
        (let h' : some s ≡ some s' = rw (e, unless_expired) at h in
          let same : s.exp_unix ≡ s'.exp_unix =
            ap (λ (o : Option Session). elim o [ none ↦ 0 | some x ↦ x.exp_unix ]) h' in
          ground arith)
  ]

  open_payload-fresh :
      (now : ℕ) (payload : Option Bytes) (s : Session)
      → open_payload decode now payload ≡ some s
      → now < s.exp_unix
  unfolding open_payload
  open_payload-fresh now none s h = absurd (cc h)
  open_payload-fresh now (some payload) s h = elim (Bool-cases (from_utf8 payload)) [
    | inr u ↦ absurd (let h' : none ≡ some s = rw (u, open_payload) at h in cc h')
    | inl u ↦ elim (Option-cases (decode_payload decode payload)) [
      | inl e ↦
          absurd
            (let h' : none ≡ some s = rw (e, open_payload) at (rw (u, open_payload) at h) in cc h')
      | inr (s', e) ↦
          unless_expired-fresh now s' s (rw (e, open_payload) at (rw (u, open_payload) at h))
    ]
  ]

  -- A token that is accepted is signed with the key and has not expired.
  pub verify_session-IsSigned :
      (token key : Bytes) (now_unix : ℕ) (s : Session)
      → verify_session mac decode ct_eq token key now_unix ≡ some s
      → IsSigned mac decode token key × (now_unix < s.exp_unix)
  unfolding verify_session
  verify_session-IsSigned token key now s h = elim (Option-cases (split_once dot token)) [
    | inl e ↦ absurd (let h' : none ≡ some s = rw (e, verify_session) at h in cc h')
    | inr ((payload_b64, sig_b64), e) ↦
        elim (Bool-cases (signature_matches mac ct_eq key payload_b64 (decode sig_b64))) [
          | inr f ↦ absurd (
              let h' : none ≡ some s = rw (f, verify_session) at (rw (e, verify_session) at h) in
              cc h')
          | inl f ↦ (
            (
              payload_b64,
              sig_b64,
              split_once-eq_some dot token e,
              signature_genuine key payload_b64 (decode sig_b64) f,
            ),
            open_payload-fresh now (decode payload_b64) s
                (rw (f, verify_session) at (rw (e, verify_session) at h)),
          )
        ]
  ]

some_injective : {a b : Bool} → some a ≡ some b → a ≡ b
some_injective h = cc h

module _ (mac : Bytes → Bytes → Bytes) (encode : Bytes → Bytes) (decode : Bytes → Option Bytes)
    (ct_eq : Bytes → Bytes → ℕ) (codec : IsCodec encode decode) (compares : Compares ct_eq) where
  csrf_of :
      (o : Option Bytes) (expected : Bytes)
      → (csrf_matches ct_eq o (some expected) ≡ some true) ↔ (o ≡ some expected)
  unfolding csrf_matches
  csrf_of none expected = (λ h. absurd (cc h), λ h. absurd (cc h))
  csrf_of (some tok) expected = (forth, back)
    where
      forth : csrf_matches ct_eq (some tok) (some expected) ≡ some true → some tok ≡ some expected
      forth h = elim (Bool-cases (equal tok expected)) [
        | inl e ↦ ap some ((equal_iff tok expected).0 e)
        | inr e ↦ absurd (ground (arith, equal_iff tok expected, compares.differ tok expected))
      ]

      back : some tok ≡ some expected → csrf_matches ct_eq (some tok) (some expected) ≡ some true
      back h = ground (arith, compares.same expected)

  csrf_answers :
      (o : Option Bytes) (expected : Bytes)
      → (b : Bool) × (csrf_matches ct_eq o (some expected) ≡ some b)
  unfolding csrf_matches
  csrf_answers none expected = (false, refl)
  csrf_answers (some tok) expected = (_, refl)

  -- For a codec that decodes what it encodes and a comparison that is exact, the check of a token against
  -- forged requests answers whatever the token is, so it does not panic, and its answer is yes exactly if
  -- the token decodes to the signature of the session id.
  pub verify_csrf_iff :
      (token key session_id : Bytes)
      → (b : Bool) × (verify_csrf mac encode decode ct_eq token key session_id ≡ some b)
        × ((b ≡ true) ↔ (decode token ≡ some (mac key session_id)))
  unfolding verify_csrf csrf_token
  verify_csrf_iff token key session_id =
      let expected = mac key session_id in
      let (b, e) = csrf_answers (decode token) expected in
      let (forth, back) = csrf_of (decode token) expected in
      rw (codec.decodes expected)
        (b, e, (λ h. forth (e ∙ ap some h), λ h. some_injective (sym e ∙ back h)))
