-- ===== src/Keys/Auth.antt =====
-- `KeyStore`: its construction from the configuration and the authentication of a request.
-- The header value's `to_str` (crate http) and `ct_eq` (crate subtle) are parameters. `usize` has 64
-- bits.
pub mod Compare
pub mod Outcome
use Prim.Native.Nat.{bit_and, bit_or}
use drgtw.Base.{
  ℕ, zero, suc, ◌+◌, ◌-◌, ◌%◌, ◌^◌, min, max, Bytes, codes, Bool, Option, none, some, List, [], ◌∷◌,
  ◌++◌, length, take, get_elem?, strip_prefix, ◌==◌, if◌then◌else◌,
}
use drgtw.Base.Results.{Result, ok, err}
use drgtw.Base.Assoc.{lookup, insert, bytes_eq}
use drgtw.Keys.Config.{Connection, VirtualKey, Config}
use drgtw.Pii.Decimal.{decimal}

pub record KeyEntry : Type 0 where
  pub key_id : Bytes
  pub secret : Bytes
  pub connections : List Connection
  pub model_allowlist : Option (List Bytes)
  pub mcp_servers : List Bytes
  pub allow_pii_bypass : Bool

pub record KeyStore : Type 0 where
  pub entries : List KeyEntry
  pub max_key_len : ℕ

pub record ResolvedKey : Type 0 where
  pub key_id : Bytes
  pub connections : List Connection
  pub model_allowlist : Option (List Bytes)
  pub mcp_servers : List Bytes
  pub allow_pii_bypass : Bool

pub data AuthError : Type 0 where
  missing_key unknown_key : AuthError

-- The two headers that are read, as raw bytes.
pub record HeaderMap : Type 0 where
  pub authorization : Option Bytes
  pub x_api_key : Option Bytes

-- Building the store

-- The map from names to connections: of two with one name the later stays.
conn_map : List Connection → List (Bytes × Connection) → List (Bytes × Connection)
conn_map [] m = m
conn_map (c ∷ cs) m = conn_map cs (insert c.name c m)

-- `none` is the panic of `expect` on a name that no connection has.
resolve_all : List (Bytes × Connection) → List Bytes → Option (List Connection)
resolve_all m [] = some []
resolve_all m (name ∷ names) = elim (lookup name m) [
  | none ↦ none
  | some c ↦ elim (resolve_all m names) [ none ↦ none | some cs ↦ some (c ∷ cs) ]
]

or_empty : Option (List Bytes) → List Bytes
or_empty none = []
or_empty (some l) = l

module _ {Usd : Type 0} where
  key_entries : List (Bytes × Connection) → ℕ → List (VirtualKey Usd) → Option (List KeyEntry)
  unfolding resolve_all or_empty decimal
  key_entries m idx [] = some []
  key_entries m idx (vk ∷ vks) = elim (resolve_all m vk.connections) [
    | none ↦ none
    | some cs ↦ elim (key_entries m (idx + 1) vks) [
      | none ↦ none
      | some entries ↦ some (
          record {
            key_id = codes "vk-" ++ decimal idx;
            secret = vk.key;
            connections = cs;
            model_allowlist = vk.models;
            mcp_servers = or_empty vk.mcp_servers;
            allow_pii_bypass = vk.allow_pii_bypass;
          }
          ∷ entries)
    ]
  ]

unfoldable pub longest_secret : List KeyEntry → ℕ
longest_secret [] = 0
longest_secret (e ∷ es) = max (length e.secret) (longest_secret es)

module _ {Usd : Type 0} where
  unfoldable pub new : Config Usd → Option KeyStore
  unfolding conn_map key_entries longest_secret
  new config = elim (key_entries (conn_map config.connections []) 0 config.virtual_keys) [
    | none ↦ none
    | some entries ↦ some (record { entries = entries; max_key_len = longest_secret entries })
  ]

-- Authentication

module _ (to_str : Bytes → Option Bytes) where
  -- The credential: a bearer token, or else the `x-api-key` header. An unreadable `x-api-key` next to a
  -- malformed `Authorization` is missing; alone it counts as empty.
  unfoldable pub candidate : HeaderMap → Result AuthError Bytes
  unfolding strip_prefix
  candidate headers = elim headers.authorization [
    | some auth ↦
        let s : Bytes = elim (to_str auth) [ none ↦ [] | some t ↦ t ] in
        elim (strip_prefix (codes "Bearer ") s) [
          | some token ↦ ok token
          | none ↦ elim headers.x_api_key [
            | none ↦ err missing_key
            | some v ↦ elim (to_str v) [ none ↦ err missing_key | some t ↦ ok t ]
          ]
        ]
    | none ↦ elim headers.x_api_key [
      | none ↦ err missing_key
      | some v ↦ ok (elim (to_str v) [ none ↦ [] | some t ↦ t ])
    ]
  ]

unfoldable pub filled : ℕ → Bytes
filled zero = []
filled (suc n) = 255 ∷ filled n

-- `vec![0xff; pad_len]` with the front overwritten.
unfoldable pub padded : ℕ → Bytes → Bytes
unfolding filled
padded pad_len s = take (min (length s) pad_len) s ++ filled (pad_len - min (length s) pad_len)

-- `u8::wrapping_neg`, and `!` on a `usize`.
unfoldable pub wrapping_neg : ℕ → ℕ
wrapping_neg eq = (256 - eq) % 256

unfoldable pub complement : ℕ → ℕ
complement mask = 2 ^ 64 - 1 - mask

-- One round: `(i & mask) | (matched & !mask)`, with the mask widened from a `u8`.
unfoldable pub select : ℕ → ℕ → ℕ → ℕ
unfolding wrapping_neg complement
select eq i matched =
    let mask = wrapping_neg eq in bit_or (bit_and i mask) (bit_and matched (complement mask))

module _ (ct_eq : Bytes → Bytes → ℕ) where
  -- The loop over all entries, with `found` and `matched_idx`.
  unfoldable pub compare_all : ℕ → Bytes → List KeyEntry → ℕ → ℕ → ℕ → ℕ × ℕ
  unfolding padded select
  compare_all pad_len cand [] i found matched = (found, matched)
  compare_all pad_len cand (e ∷ es) i found matched =
      let eq = ct_eq (padded pad_len cand) (padded pad_len e.secret) in
      compare_all pad_len cand es (i + 1) (bit_or found eq) (select eq i matched)

unfoldable pub resolved : KeyEntry → ResolvedKey
resolved e = record {
  key_id = e.key_id;
  connections = e.connections;
  model_allowlist = e.model_allowlist;
  mcp_servers = e.mcp_servers;
  allow_pii_bypass = e.allow_pii_bypass;
}

-- `self.entries[matched_idx]`; the outer `none` is the panic of an index out of bounds.
unfoldable pub entry_at : List KeyEntry → ℕ → Option (Result AuthError ResolvedKey)
unfolding resolved
entry_at entries i = elim (get_elem? entries i) [ none ↦ none | some e ↦ some (ok (resolved e)) ]

module _ (to_str : Bytes → Option Bytes) (ct_eq : Bytes → Bytes → ℕ) where
  unfoldable pub check_candidate : KeyStore → Bytes → Option (Result AuthError ResolvedKey)
  unfolding compare_all entry_at
  check_candidate store [] = some (err missing_key)
  check_candidate store (c ∷ cand) =
      let pad_len = max store.max_key_len (length (c ∷ cand)) + 1 in
      let (found, matched) = compare_all ct_eq pad_len (c ∷ cand) store.entries 0 0 0 in
      if found == 0 then some (err unknown_key) else entry_at store.entries matched

  unfoldable pub authenticate : KeyStore → HeaderMap → Option (Result AuthError ResolvedKey)
  unfolding candidate check_candidate
  authenticate store headers = elim (candidate to_str headers) [
    | err e ↦ some (err e)
    | ok cand ↦ check_candidate store cand
  ]
