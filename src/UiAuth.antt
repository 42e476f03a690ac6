-- ===== src/UiAuth.antt =====
-- Sign-in of the admin UI: signed session tokens, tokens against forged requests, and the cookie
-- (crates/drgtw-ui-auth/src: session.rs, csrf.rs, cookie.rs). HMAC-SHA256, the base64 codec and the
-- constant-time comparison are the crates' and are parameters.
pub mod Tokens
mod Tests
use drgtw.Base.{
  ℕ, Bytes, codes, Bool, true, false, Option, none, some, List, [], ◌∷◌, ◌++◌, length, ◌==◌, leb,
  if◌then◌else◌,
}
use drgtw.Base.Strings.{split_once}
use drgtw.EventStream.Utf8.{from_utf8}
use drgtw.Keys.KeyIndex.{parse_usize}
use drgtw.Pii.Decimal.{decimal}

pub record Session : Type 0 where
  pub sub : Bytes
  pub exp_unix : ℕ

abbrev pub dot : ℕ
dot = 46

abbrev pub bar : ℕ
bar = 124

-- A token is not valid from its expiry on.
unfoldable pub unless_expired : ℕ → Session → Option Session
unless_expired now_unix s = if leb s.exp_unix now_unix then none else some s

unfoldable pub session_of : Option Bytes → Option ℕ → Option Session
unfolding from_utf8
session_of (some sub) (some exp) =
    if from_utf8 sub then some (record { sub = sub; exp_unix = exp }) else none
session_of _ _ = none

unfoldable pub encode_payload : (Bytes → Bytes) → Session → Bytes
unfolding decimal
encode_payload encode s = encode s.sub ++ bar ∷ decimal s.exp_unix

module _ (mac : Bytes → Bytes → Bytes) (encode : Bytes → Bytes) where
  unfoldable pub sign_session : Session → Bytes → Bytes
  unfolding encode_payload
  sign_session s key =
      let payload_b64 = encode (encode_payload encode s) in
      payload_b64 ++ dot ∷ encode (mac key payload_b64)

  unfoldable pub csrf_token : Bytes → Bytes → Bytes
  csrf_token key session_id = encode (mac key session_id)

module _ (decode : Bytes → Option Bytes) where
  -- `<base64url(sub)>|<exp_unix>`; a `u64` is parsed as a `usize` of 64 bits is.
  unfoldable pub decode_payload : Bytes → Option Session
  unfolding split_once session_of parse_usize
  decode_payload payload = elim (split_once bar payload) [
    | none ↦ none
    | some (sub_b64, exp_str) ↦ session_of (decode sub_b64) (parse_usize exp_str)
  ]

  unfoldable pub open_payload : ℕ → Option Bytes → Option Session
  unfolding from_utf8 decode_payload unless_expired
  open_payload now_unix none = none
  open_payload now_unix (some payload) =
      if from_utf8 payload
      then elim (decode_payload payload) [ none ↦ none | some s ↦ unless_expired now_unix s ]
      else none

module _ (mac : Bytes → Bytes → Bytes) (ct_eq : Bytes → Bytes → ℕ) where
  -- Whether the given signature is that of the payload.
  unfoldable pub signature_matches : Bytes → Bytes → Option Bytes → Bool
  signature_matches key payload_b64 none = false
  signature_matches key payload_b64 (some sig) =
      if ct_eq (mac key payload_b64) sig == 0 then false else true

module _ (mac : Bytes → Bytes → Bytes) (decode : Bytes → Option Bytes)
    (ct_eq : Bytes → Bytes → ℕ) where
  unfoldable pub verify_session : Bytes → Bytes → ℕ → Option Session
  unfolding split_once signature_matches open_payload
  verify_session token key now_unix = elim (split_once dot token) [
    | none ↦ none
    | some (payload_b64, sig_b64) ↦
        if signature_matches mac ct_eq key payload_b64 (decode sig_b64)
        then open_payload decode now_unix (decode payload_b64)
        else none
  ]

-- An inner `none` stands for the `expect` on the decoding of the expected token.
unfoldable pub csrf_matches : (Bytes → Bytes → ℕ) → Option Bytes → Option Bytes → Option Bool
csrf_matches ct_eq none expected = some false
csrf_matches ct_eq (some tok) none = none
csrf_matches ct_eq (some tok) (some exp) =
    some (if length tok == length exp then ct_eq tok exp == 1 else false)

module _ (mac : Bytes → Bytes → Bytes) (encode : Bytes → Bytes) (decode : Bytes → Option Bytes)
    (ct_eq : Bytes → Bytes → ℕ) where
  unfoldable pub verify_csrf : Bytes → Bytes → Bytes → Option Bool
  unfolding csrf_token csrf_matches
  verify_csrf token key session_id =
      csrf_matches ct_eq (decode token) (decode (csrf_token mac encode key session_id))

-- Cookies

unfoldable pub session_cookie : Bytes → Bytes → ℕ → Bool → Bytes
unfolding decimal
session_cookie name value max_age_secs secure =
    name
    ++ (codes "="
        ++ (value
            ++ (codes "; HttpOnly; SameSite=Lax; Path=/; Max-Age="
                ++ (decimal max_age_secs ++ (if secure then codes "; Secure" else [])))))

unfoldable pub clear_cookie : Bytes → Bytes
clear_cookie name = name ++ codes "=; HttpOnly; SameSite=Lax; Path=/; Max-Age=0"
