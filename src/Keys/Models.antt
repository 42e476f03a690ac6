-- ===== src/Keys/Models.antt =====
-- `ResolvedKey`: which connections serve a model, and which models a key may use.
pub mod Routing
pub mod Wildcards
pub mod Ranks
pub mod Candidates
pub mod Unique
pub mod AllowedModels
use drgtw.Base.{
  ℕ, zero, suc, ◌+◌, Bytes, codes, Bool, true, false, not, ◌&&◌, ◌||◌, Option, none, some, List, [],
  ◌∷◌, ◌++◌, map, any, length, equal, starts_with, ◌==◌, ltb, leb, if◌then◌else◌,
}
use drgtw.Base.Results.{Result, ok, err}
use drgtw.Base.Sort.{sort_by, insert_by}
use drgtw.Keys.Config.{Connection}
use drgtw.Keys.Pattern.{strip_star, pattern_matches, is_wildcard}
use drgtw.Keys.Auth.{ResolvedKey}

pub data RouteError : Type 0 where
  model_not_allowed unknown_model : Bytes → RouteError

-- The connection lists the model itself.
unfoldable pub serves_exactly : Bytes → Connection → Bool
serves_exactly model conn = any (λ m. not (is_wildcard m) && equal m model) conn.models

-- Phase 1.
unfoldable pub exact_matches : Bytes → List Connection → List Connection
exact_matches model [] = []
exact_matches model (c ∷ cs) =
    let rest = exact_matches model cs in if serves_exactly model c then c ∷ rest else rest

-- Phase 2. `none` stands for the initial -1.
unfoldable pub longer : ℕ → Option ℕ → Bool
longer n none = true
longer n (some best) = ltb best n

unfoldable pub better : Bytes → Bytes → Option ℕ → Option ℕ
unfolding longer
better model pat best = elim (strip_star pat) [
  | none ↦ best
  | some prefix ↦
      if starts_with model prefix && longer (length prefix) best then some (length prefix) else best
]

unfoldable pub best_prefix : Bytes → List Bytes → Option ℕ → Option ℕ
best_prefix model [] best = best
best_prefix model (pat ∷ pats) best = best_prefix model pats (better model pat best)

pub record WildcardMatch : Type 0 where
  pub conn : Connection
  pub prefix_len : ℕ
  pub config_idx : ℕ

unfoldable pub wildcard_matches : Bytes → ℕ → List Connection → List WildcardMatch
wildcard_matches model idx [] = []
wildcard_matches model idx (c ∷ cs) =
    let rest = wildcard_matches model (idx + 1) cs in
    elim (best_prefix model c.models none) [
      | none ↦ rest
      | some n ↦ record { conn = c; prefix_len = n; config_idx = idx } ∷ rest
    ]

-- Longest prefix first, configuration order among ties.
abbrev pub before : WildcardMatch → WildcardMatch → Bool
before a b =
    ltb b.prefix_len a.prefix_len || a.prefix_len == b.prefix_len && leb a.config_idx b.config_idx

unfoldable pub conns : List WildcardMatch → List Connection
conns = map (λ w. w.conn)

unfoldable pub candidates : Bytes → List Connection → List Connection
unfolding conns
candidates model cs = exact_matches model cs ++ conns (sort_by before (wildcard_matches model 0 cs))

unfoldable pub permitted : Option (List Bytes) → Bytes → Bool
permitted none model = true
permitted (some allowlist) model = any (λ p. pattern_matches p model) allowlist

non_empty : Bytes → List Connection → Result RouteError (List Connection)
non_empty model [] = err (unknown_model model)
non_empty model (c ∷ cs) = ok (c ∷ cs)

unfoldable pub connections_for_model : ResolvedKey → Bytes → Result RouteError (List Connection)
unfolding permitted non_empty
connections_for_model key model =
    if permitted key.model_allowlist model
    then non_empty model (candidates model key.connections)
    else err (model_not_allowed model)

-- `v[0]`; `none` is the panic on an empty list.
first : Result RouteError (List Connection) → Option (Result RouteError Connection)
first (err e) = some (err e)
first (ok []) = none
first (ok (c ∷ cs)) = some (ok c)

unfoldable pub connection_for_model : ResolvedKey → Bytes → Option (Result RouteError Connection)
unfolding first connections_for_model
connection_for_model key model = first (connections_for_model key model)

-- The models of a key

-- `seen` with the two result lists.
pub record Listing : Type 0 where
  pub seen : List Bytes
  pub exact_result : List Bytes
  pub wildcard_result : List Bytes

unfoldable pub contains : List Bytes → Bytes → Bool
contains seen m = any (λ x. equal x m) seen

-- `seen.insert(..)` and the push behind it.
unfoldable pub push_exact : Bytes → Listing → Listing
unfolding contains
push_exact m l =
    if contains l.seen m
    then l
    else record l { seen = m ∷ l.seen; exact_result = l.exact_result ++ m ∷ [] }

unfoldable pub push_wildcard : Bytes → Listing → Listing
unfolding contains
push_wildcard m l =
    if contains l.seen m
    then l
    else record l { seen = m ∷ l.seen; wildcard_result = l.wildcard_result ++ m ∷ [] }

-- A wildcard of a connection is permitted by the same pattern or a lone star.
unfoldable pub wildcard_permitted : Option (List Bytes) → Bytes → Bool
wildcard_permitted none pat = true
wildcard_permitted (some allowlist) pat = any (λ p. equal p pat || equal p (codes "*")) allowlist

unfoldable pub list_model : Option (List Bytes) → Bytes → Listing → Listing
unfolding push_exact push_wildcard wildcard_permitted permitted
list_model allowlist m l =
    if is_wildcard m
    then (if wildcard_permitted allowlist m then push_wildcard m l else l)
    else (if permitted allowlist m then push_exact m l else l)

unfoldable pub list_models : Option (List Bytes) → List Bytes → Listing → Listing
list_models allowlist [] l = l
list_models allowlist (m ∷ ms) l = list_models allowlist ms (list_model allowlist m l)

unfoldable pub list_connections : Option (List Bytes) → List Connection → Listing → Listing
list_connections allowlist [] l = l
list_connections allowlist (c ∷ cs) l =
    list_connections allowlist cs (list_models allowlist c.models l)

unfoldable pub list_allowlist : List Bytes → Listing → Listing
list_allowlist [] l = l
list_allowlist (p ∷ ps) l = list_allowlist ps (if is_wildcard p then push_wildcard p l else l)

or_none : Option (List Bytes) → List Bytes
or_none none = []
or_none (some l) = l

unfoldable pub listing : ResolvedKey → Listing
unfolding or_none
listing key = list_allowlist (or_none key.model_allowlist) (
    list_connections key.model_allowlist key.connections
      (record { seen = []; exact_result = []; wildcard_result = [] }))

unfoldable pub allowed_models : ResolvedKey → List Bytes
unfolding listing
allowed_models key = let l = listing key in l.exact_result ++ l.wildcard_result
