-- ===== src/Keys/Config.antt =====
-- The parts of the configuration that the keys and the proxy read (crates/drgtw-config/src/lib.rs). Amounts of money
-- are of an abstract type.
use drgtw.Base.{ℕ, Bytes, Bool, Option, List}

pub data ApiFormat : Type 0 where
  open_ai anthropic bedrock bedrock_converse : ApiFormat

pub record Connection : Type 0 where
  pub name : Bytes
  pub format : ApiFormat
  pub base_url : Bytes
  pub api_key : Bytes
  pub models : List Bytes

pub record RateLimit : Type 0 where
  pub requests : ℕ
  pub per_seconds : ℕ

pub record Budget (Usd : Type 0) : Type 0 where
  pub max_usd : Usd
  pub per_seconds : ℕ

pub record VirtualKey (Usd : Type 0) : Type 0 where
  pub key : Bytes
  pub connections : List Bytes
  pub models : Option (List Bytes)
  pub rate_limit : Option RateLimit
  pub budget : Option (Budget Usd)
  pub mcp_servers : Option (List Bytes)
  pub allow_pii_bypass : Bool

pub record Config (Usd : Type 0) : Type 0 where
  pub connections : List Connection
  pub virtual_keys : List (VirtualKey Usd)
