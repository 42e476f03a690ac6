-- ===== src/UiAuth/Tests.antt =====
-- Instances of the theorems on tokens, with a codec that writes a byte in unary.
use drgtw.Base.{
  ℕ, zero, suc, ◌+◌, ◌<◌, ◌≡◌, ◌≢◌, ◌↔◌, refl, ap, ◌∙◌, Bytes, Bool, true, Option, none, some, [],
  ◌∷◌, ◌++◌, arith, All, equal, equal_iff, leb, ◌==◌, if◌then◌else◌,
}
use drgtw.EventStream.Utf8.{from_utf8}
use drgtw.UiAuth.{Session, dot, bar, sign_session, verify_session, verify_csrf}
use drgtw.UiAuth.Tokens.{
  IsCodec, Compares, verify_session-sign_session, verify_session-IsSigned, IsSigned,
  verify_csrf_iff,
}

-- `c` times `a`, then `b`.
abbrev unary : ℕ → Bytes → Bytes
unary zero rest = 98 ∷ rest
unary (suc c) rest = 97 ∷ unary c rest

abbrev encode : Bytes → Bytes
encode [] = []
encode (c ∷ s) = unary c (encode s)

abbrev push_front : ℕ → Option Bytes → Option Bytes
push_front c none = none
push_front c (some s) = some (c ∷ s)

abbrev decode_from : ℕ → Bytes → Option Bytes
decode_from k [] = some []
decode_from k (c ∷ s) =
    let ended = push_front k (decode_from 0 s) in
    let longer = decode_from (suc k) s in
    if c == 97 then longer else if c == 98 then ended else none

abbrev decode : Bytes → Option Bytes
decode s = decode_from 0 s

decode_unary :
    (c k : ℕ) (rest : Bytes)
    → decode_from k (unary c rest) ≡ push_front (k + c) (decode_from 0 rest)
decode_unary zero k rest = ap (λ n. push_front n (decode_from 0 rest)) (omega arith)
decode_unary (suc c) k rest =
    decode_unary c (suc k) rest ∙ ap (λ n. push_front n (decode_from 0 rest)) (omega arith)

decode-encode : (s : Bytes) → decode (encode s) ≡ some s
decode-encode [] = refl
decode-encode (c ∷ s) =
    decode_unary c 0 (encode s)
    ∙ ap (λ n. push_front n (decode_from 0 (encode s))) (omega arith)
    ∙ ap (push_front c) (decode-encode s)

abbrev IsLetter : ℕ → Type 0
IsLetter c = (c < 128) × (c ≢ dot) × (c ≢ bar)

unary-letters : (c : ℕ) (rest : Bytes) → All IsLetter rest → All IsLetter (unary c rest)
unary-letters zero rest h = ((omega arith, omega arith, omega arith), h)
unary-letters (suc c) rest h = ((omega arith, omega arith, omega arith), unary-letters c rest h)

encode-letters : (s : Bytes) → All IsLetter (encode s)
encode-letters [] = tt
encode-letters (c ∷ s) = unary-letters c (encode s) (encode-letters s)

codec : IsCodec encode decode
codec = record { decodes = decode-encode; letters = encode-letters }

abbrev ct_eq : Bytes → Bytes → ℕ
ct_eq a b = if equal a b then 1 else 0

compares : Compares ct_eq
compares = record {
  same = λ a. ground (arith, equal_iff a a);
  differ = λ a b h. ground (arith, equal_iff a b);
}

-- A signature that is no secret.
abbrev mac : Bytes → Bytes → Bytes
mac key text = key ++ text

abbrev admin : Session
admin = record { sub = 3 ∷ []; exp_unix = 12 }

admin-text : from_utf8 admin.sub ≡ true
unfolding from_utf8
admin-text = refl

verify_session-sign_session_example :
    verify_session mac decode ct_eq (sign_session mac encode admin (2 ∷ [])) (2 ∷ []) 11
    ≡ (if leb admin.exp_unix 11 then none else some admin)
verify_session-sign_session_example =
    verify_session-sign_session mac encode decode ct_eq codec compares admin (2 ∷ []) 11 admin-text
      (omega arith)

verify_session-IsSigned_example :
    IsSigned mac decode (sign_session mac encode admin (2 ∷ [])) (2 ∷ []) × (11 < admin.exp_unix)
verify_session-IsSigned_example =
    verify_session-IsSigned mac decode ct_eq compares (sign_session mac encode admin (2 ∷ []))
      (2 ∷ []) 11 admin verify_session-sign_session_example

verify_csrf_iff_example :
    (b : Bool) × (verify_csrf mac encode decode ct_eq (encode (2 ∷ 7 ∷ [])) (2 ∷ []) (7 ∷ [])
      ≡ some b)
    × ((b ≡ true) ↔ (decode (encode (2 ∷ 7 ∷ [])) ≡ some (mac (2 ∷ []) (7 ∷ []))))
verify_csrf_iff_example =
    verify_csrf_iff mac encode decode ct_eq codec compares (encode (2 ∷ 7 ∷ [])) (2 ∷ []) (7 ∷ [])
