-- ===== src/Mcp/Tests.antt =====
-- Concrete runs of the MCP gateway, and instances of its theorems.
use drgtw.Base.{◌≡◌, refl, Bytes, codes, none, some, [], ◌∷◌}
use drgtw.Base.Json.{Value, string, object_of}
use drgtw.Base.Results.{ok, err}
use drgtw.Mcp.{UpstreamClient, McpGateway, aggregate_tools, route}
use drgtw.Mcp.Route.{IsRouted, route-IsRouted}

abbrev git : UpstreamClient
git = record { name = codes "git" }

abbrev git_hub : UpstreamClient
git_hub = record { name = codes "git-hub" }

abbrev gateway : McpGateway
gateway = record { clients = git_hub ∷ git ∷ [] }

abbrev tool : Bytes → Value
tool name = object_of ((codes "name", string name) ∷ [])

longest_wins : route gateway (codes "git-hub-x") ≡ some (git_hub, codes "x")
unfolding route
longest_wins = refl

shorter_owner : route gateway (codes "git-log") ≡ some (git, codes "log")
unfolding route
shorter_owner = refl

bare_is_empty : route gateway (codes "git-") ≡ none
unfolding route
bare_is_empty = refl

failing_server_is_skipped :
    aggregate_tools {E = Bytes}
      ((git, err (codes "503")) ∷ (git_hub, ok (tool (codes "x") ∷ [])) ∷ [])
    ≡ tool (codes "git-hub-x") ∷ []
unfolding aggregate_tools drgtw.Base.Json.fields_of drgtw.Base.equal
failing_server_is_skipped = refl

route-IsRouted_example :
    IsRouted (codes "git-hub-x") (git_hub ∷ git ∷ []) (route gateway (codes "git-hub-x"))
route-IsRouted_example = route-IsRouted gateway (codes "git-hub-x")
