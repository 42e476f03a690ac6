-- ===== src/Mcp.antt =====
-- The gateway to several MCP servers: tool names get their server's name as a prefix, and calls are routed by
-- it (crates/drgtw-mcp/src/gateway.rs). A client is its name; what a server lists, or its failure, is an
-- argument. The requests themselves are HTTP.
pub mod Route
mod Tests
use drgtw.Base.{
  ℕ, Bytes, codes, Bool, Option, none, some, List, [], ◌∷◌, ◌++◌, map, length, strip_prefix, ltb,
  if◌then◌else◌,
}
use drgtw.Base.Json.{Value, Step, key, string, set_path, str_at}
use drgtw.Base.Results.{Result, ok, err}

pub record UpstreamClient : Type 0 where
  pub name : Bytes

pub record McpGateway : Type 0 where
  pub clients : List UpstreamClient

-- The separator `-`.
abbrev pub separator : Bytes
separator = 45 ∷ []

unfoldable server_count : McpGateway → ℕ
server_count g = length g.clients

abbrev name_path : List Step
name_path = key (codes "name") ∷ []

-- A tool whose name is a string gets the prefix.
unfoldable prefix_tool : Bytes → Value → Value
unfolding str_at set_path
prefix_tool server tool = elim (str_at name_path tool) [
  | none ↦ tool
  | some name ↦ set_path name_path (string (server ++ (separator ++ name))) tool
]

-- A server that fails is skipped.
unfoldable prefix_tools : {E : Type 0} → Bytes → Result E (List Value) → List Value
unfolding prefix_tool
prefix_tools server (ok tools) = map (prefix_tool server) tools
prefix_tools server (err e) = []

-- The servers' answers, in the order of the clients.
unfoldable pub aggregate_tools :
    {E : Type 0} → List (UpstreamClient × Result E (List Value)) → List Value
unfolding prefix_tools
aggregate_tools [] = []
aggregate_tools ((client, answer) ∷ rest) = prefix_tools client.name answer ++ aggregate_tools rest

-- Routing

-- The best match so far, and the length of its server's name.
abbrev pub Best : Type 0
Best = Option (UpstreamClient × Bytes) × ℕ

unfoldable pub keep_longer : UpstreamClient → Option Bytes → Best → Best
keep_longer client none best = best
keep_longer client (some []) best = best
keep_longer client (some (c ∷ bare)) (best, best_len) =
    if ltb best_len (length client.name)
    then (some (client, c ∷ bare), length client.name)
    else (best, best_len)

unfoldable pub route_from : Bytes → List UpstreamClient → Best → Best
unfolding keep_longer strip_prefix
route_from prefixed [] best = best
route_from prefixed (client ∷ clients) best =
    route_from prefixed clients
      (keep_longer client (strip_prefix (client.name ++ separator) prefixed) best)

unfoldable pub route : McpGateway → Bytes → Option (UpstreamClient × Bytes)
unfolding route_from
route g prefixed = (route_from prefixed g.clients (none, 0)).0
