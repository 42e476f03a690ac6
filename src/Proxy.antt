-- ===== src/Proxy.antt =====
-- The choice of the connections for a request, and the loop over them (`proxy_endpoint` and its helpers in
-- crates/drgtw-proxy/src/handlers.rs). What the network answers to the attempt with a number, the signing of
-- a request (its error, if it fails), and the parser and printer of JSON are arguments.
pub mod Candidates
pub mod Dispatch
mod Tests
use drgtw.Base.{
  ℕ, zero, suc, ◌+◌, ◌%◌, ◌^◌, Bytes, codes, Bool, true, false, not, ◌&&◌, ◌||◌, Option, none, some,
  List, [], ◌∷◌, ◌++◌, keep, ◌==◌, if◌then◌else◌,
}
use drgtw.Base.Json.{Value, Number, null}
use drgtw.Base.Results.{Result, ok, err}
use drgtw.Converse.{unwrap_or, translate_error_text, openai_to_converse}
use drgtw.Keys.Auth.{ResolvedKey}
use drgtw.Keys.Config.{ApiFormat, open_ai, anthropic, bedrock, bedrock_converse, Connection}
use drgtw.Keys.Models.{RouteError, connections_for_model}

pub data ErrorFormat : Type 0 where
  open_ai_error anthropic_error : ErrorFormat

-- The amounts of money and the errors of the HTTP client are abstract.
pub data ProxyError (Usd Transport : Type 0) : Type 0 where
  missing_key unknown_key missing_model body_too_large : ProxyError Usd Transport
  model_not_allowed unknown_model format_mismatch : Bytes → ProxyError Usd Transport
  rate_limited : ℕ → ℕ → ProxyError Usd Transport
  budget_exhausted : Usd → ℕ → ProxyError Usd Transport
  invalid_pii_header : ErrorFormat → ProxyError Usd Transport
  pii_unavailable pii_unavailable_anthropic : Bytes → ProxyError Usd Transport
  guardrail_blocked : Bytes → ErrorFormat → ProxyError Usd Transport
  upstream : Transport → ProxyError Usd Transport

-- Candidates

unfoldable pub format_name : ApiFormat → Bytes
format_name open_ai = codes "open_ai"
format_name anthropic = codes "anthropic"
format_name bedrock = codes "bedrock"
format_name bedrock_converse = codes "bedrock_converse"

unfoldable pub spec_accepts_format : ApiFormat → ApiFormat → Bool
spec_accepts_format anthropic anthropic = true
spec_accepts_format anthropic bedrock = true
spec_accepts_format open_ai open_ai = true
spec_accepts_format open_ai bedrock_converse = true
spec_accepts_format bedrock bedrock = true
spec_accepts_format bedrock_converse bedrock_converse = true
spec_accepts_format _ _ = false

unfoldable pub is_bedrock : Connection → Bool
is_bedrock c = elim c.format [
  | open_ai ↦ false
  | anthropic ↦ false
  | bedrock ↦ true
  | bedrock_converse ↦ false
]

abbrev other_endpoint : ApiFormat → Bytes
other_endpoint open_ai = codes "/v1/messages"
other_endpoint bedrock_converse = codes "/v1/messages"
other_endpoint anthropic = codes "/v1/chat/completions"
other_endpoint bedrock = codes "/v1/chat/completions"

unfoldable pub mismatch_text : ApiFormat → ApiFormat → Bytes → Bytes
unfolding format_name
mismatch_text spec actual model =
    codes "model `"
    ++ (model
        ++ (codes "` is served by a connection with format `"
            ++ (format_name actual ++ (codes "`; use " ++ other_endpoint spec))))

abbrev pub Chosen : Type 0 → Type 0 → Type 0
Chosen Usd Transport = Result (ProxyError Usd Transport) (List Connection)

module _ {Usd Transport : Type 0} where
  -- No stream goes to a native Bedrock connection.
  unfoldable pub without_bedrock : List Connection → Chosen Usd Transport
  without_bedrock [] = err (
      format_mismatch (
        codes
          "native Bedrock streaming is not supported in this release; retry without `stream: true`"))
  without_bedrock (c ∷ cs) = ok (c ∷ cs)

  unfoldable pub for_stream : Bool → List Connection → Chosen Usd Transport
  unfolding without_bedrock is_bedrock
  for_stream streaming cs =
      if streaming then without_bedrock (keep (λ c. not (is_bedrock c)) cs) else ok cs

  -- The candidates that the endpoint accepts, the first of them if there is no fallback. The outer `none`
  -- is the panic of `all_candidates[0]`.
  unfoldable pub select_matching :
      ApiFormat
      → Bool
      → Bool
      → Bytes
      → List Connection
      → List Connection
      → Option (Chosen Usd Transport)
  unfolding for_stream mismatch_text
  select_matching spec fallback streaming model [] [] = none
  select_matching spec fallback streaming model (c ∷ cs) [] =
      some (err (format_mismatch (mismatch_text spec c.format model)))
  select_matching spec fallback streaming model all (c ∷ cs) =
      some (for_stream streaming (if fallback then c ∷ cs else c ∷ []))

  abbrev pub route_error : RouteError → ProxyError Usd Transport
  route_error (RouteError.model_not_allowed m) = model_not_allowed m
  route_error (RouteError.unknown_model m) = unknown_model m

  unfoldable pub select_candidates :
      ApiFormat → Bool → Bool → Bytes → ResolvedKey → Option (Chosen Usd Transport)
  unfolding connections_for_model spec_accepts_format select_matching
  select_candidates spec fallback streaming model resolved =
      elim (connections_for_model resolved model) [
        | err e ↦ some (err (route_error e))
        | ok all ↦
            select_matching spec fallback streaming model all
              (keep (λ c. spec_accepts_format spec c.format) all)
      ]

-- The loop

unfoldable pub is_retriable_status : ℕ → Bool
is_retriable_status status = status == 502 || (status == 503 || (status == 504 || status == 429))

-- A response with its status, or an error of the HTTP client.
pub data Sent (Transport Response : Type 0) : Type 0 where
  responded : ℕ → Response → Sent Transport Response
  failed : Transport → Sent Transport Response

-- The response to relay with its connection, and the number of attempts before it.
abbrev pub Dispatched : Type 0 → Type 0 → Type 0 → Type 0
Dispatched Usd Transport Response = Result (ProxyError Usd Transport) ((Response × Connection) × ℕ)

abbrev pub is_last : List Connection → Bool
is_last [] = true
is_last (c ∷ cs) = false

module _ {Usd Transport Response : Type 0} (from_slice : Bytes → Option Value)
    (to_string : Value → Bytes) (float_of : Number → Value)
    (sign : Connection → Bytes → Option Bytes)
    (send : ℕ → Connection → Bytes → Sent Transport Response) where
  unfoldable pub build_converse_body : Bytes → Result (ProxyError Usd Transport) Bytes
  unfolding openai_to_converse translate_error_text
  build_converse_body openai_body =
      elim (openai_to_converse float_of (unwrap_or null (from_slice openai_body))) [
        | err e ↦ err (format_mismatch (translate_error_text e))
        | ok (converse, model_id, stream) ↦ ok (to_string converse)
      ]

  abbrev signed : Connection → Bytes → Result (ProxyError Usd Transport) Bytes
  signed c body = elim (sign c body) [ none ↦ ok body | some e ↦ err (format_mismatch e) ]

  -- The bytes that a candidate is sent: for Converse, translated and signed.
  unfoldable pub wire_body : Bytes → Connection → Result (ProxyError Usd Transport) Bytes
  unfolding build_converse_body
  wire_body upstream_body c = elim c.format [
    | open_ai ↦ ok upstream_body
    | anthropic ↦ ok upstream_body
    | bedrock ↦ ok upstream_body
    | bedrock_converse ↦ elim (build_converse_body upstream_body) [
      | err e ↦ err e
      | ok body ↦ signed c body
    ]
  ]

  -- From the attempt with a number on.
  unfoldable pub dispatch_from :
      Bytes
      → ℕ
      → ℕ
      → Option (ProxyError Usd Transport)
      → List Connection
      → Dispatched Usd Transport Response
  unfolding wire_body is_retriable_status
  dispatch_from body i attempts last_err [] = err (unwrap_or body_too_large last_err)
  dispatch_from body i attempts last_err (c ∷ cs) = elim (wire_body body c) [
    | err e ↦ err e
    | ok wire ↦ elim (send i c wire) [
      | responded status r ↦
          if is_retriable_status status && not (is_last cs)
          then dispatch_from body (suc i) ((attempts + 1) % 2 ^ 32) last_err cs
          else ok ((r, c), attempts)
      | failed e ↦
          if is_last cs
          then err (upstream e)
          else dispatch_from body (suc i) ((attempts + 1) % 2 ^ 32) (some (upstream e)) cs
    ]
  ]

  unfoldable pub dispatch : Bytes → List Connection → Dispatched Usd Transport Response
  unfolding dispatch_from
  dispatch body candidates = dispatch_from body 0 0 none candidates
