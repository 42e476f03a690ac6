-- ===== src/Proxy/Tests.antt =====
-- Concrete runs of the choice of candidates and of the loop over them, and instances of their theorems.
use drgtw.Base.{
  ℕ, zero, suc, ◌+◌, ◌%◌, ◌^◌, ◌≡◌, ◌≢◌, ◌⊎◌, refl, Bytes, codes, Bool, true, false, Option, none,
  some, List, [], ◌∷◌, ◌++◌, arith, length,
}
use drgtw.Base.Json.{Value, Number, number}
use drgtw.Base.Results.{ok}
use drgtw.Keys.Auth.{ResolvedKey}
use drgtw.Keys.Config.{ApiFormat, bedrock, anthropic, Connection}
use drgtw.Proxy.{Sent, responded, dispatch, select_candidates}
use drgtw.Proxy.Dispatch.{Decides, dispatch-Decides}
use drgtw.Proxy.Candidates.{IsChosen, select_candidates-IsChosen}

abbrev connection : Bytes → ApiFormat → Connection
connection name format = record {
  name = name;
  format = format;
  base_url = [];
  api_key = [];
  models = codes "claude" ∷ [];
}

abbrev first : Connection
first = connection (codes "first") anthropic

abbrev second : Connection
second = connection (codes "second") bedrock

-- The first attempt is answered with 503, a later one with 200.
abbrev send : ℕ → Connection → Bytes → Sent Unit Bytes
send zero c bytes = responded 503 bytes
send (suc n) c bytes = responded 200 bytes

abbrev no_json : Bytes → Option Value
no_json s = none

abbrev no_text : Value → Bytes
no_text v = []

abbrev as_is : Number → Value
as_is n = number n

abbrev unsigned : Connection → Bytes → Option Bytes
unsigned c body = none

second_answers :
    dispatch {Usd = Unit} no_json no_text as_is unsigned send (codes "{}") (first ∷ second ∷ [])
    ≡ ok ((codes "{}", second), 1)
unfolding dispatch
second_answers = refl

dispatch-Decides_example :
    Decides Unit Unit Bytes no_json no_text as_is unsigned send
      (codes "{}")
      0
      (first ∷ second ∷ [])
      (dispatch no_json no_text as_is unsigned send (codes "{}") (first ∷ second ∷ []))
dispatch-Decides_example =
    dispatch-Decides Unit Unit Bytes no_json no_text as_is unsigned send (codes "{}") first
      (second ∷ []) (omega arith)

abbrev resolved : ResolvedKey
resolved = record {
  key_id = codes "vk-0";
  connections = second ∷ first ∷ [];
  model_allowlist = none;
  mcp_servers = [];
  allow_pii_bypass = false;
}

-- A stream goes past the native Bedrock connection.
first_streams :
    select_candidates {Usd = Unit} {Transport = Unit} anthropic true true (codes "claude") resolved
    ≡ some (ok (first ∷ []))
unfolding select_candidates drgtw.Keys.Models.candidates drgtw.Keys.Models.exact_matches
    drgtw.Keys.Models.serves_exactly drgtw.Keys.Pattern.is_wildcard drgtw.Base.equal
    drgtw.Base.Sort.sort_by drgtw.Keys.Models.wildcard_matches drgtw.Keys.Models.best_prefix
    drgtw.Keys.Models.better
first_streams = refl

select_candidates-IsChosen_example :
    IsChosen Unit Unit anthropic true
      (select_candidates anthropic true true (codes "claude") resolved)
select_candidates-IsChosen_example =
    select_candidates-IsChosen Unit Unit anthropic true true (codes "claude") resolved
