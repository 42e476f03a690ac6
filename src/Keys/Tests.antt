-- ===== src/Keys/Tests.antt =====
-- Keys, models and budgets on concrete configurations, and the theorems there.
use drgtw.Base.{
  ℕ, zero, suc, ◌<◌, ◌≡◌, ◌≢◌, refl, Bytes, codes, false, Option, none, some, List, [], ◌∷◌, ◌++◌,
  arith, All, In, ◌↔◌, map, keep, equal, equal_iff, strip_prefix, starts_with, if◌then◌else◌,
  length,
}
use drgtw.Base.Results.{ok}
use drgtw.Base.Sort.{sort_by, insert_by}
use drgtw.Keys.Config.{open_ai, Connection}
use drgtw.Keys.Pattern.{strip_star, pattern_matches, is_wildcard}
use drgtw.Keys.Auth.{KeyEntry, KeyStore, ResolvedKey, resolved, longest_secret, check_candidate}
use drgtw.Keys.Auth.Compare.{find_last}
use drgtw.Keys.Auth.Outcome.{IsBuilt, answer, check_candidate-find_last, check_candidate_wraps}
use drgtw.Keys.Models.{
  serves_exactly, exact_matches, best_prefix, better, longer, WildcardMatch, wildcard_matches,
  conns, candidates, permitted, connections_for_model, allowed_models,
}
use drgtw.Keys.Models.Candidates.{lists, candidates_order}
use drgtw.Keys.Models.Wildcards.{IsWildcardMatch}
use drgtw.Keys.Models.Ranks.{IsRanked}
use drgtw.Keys.Models.Unique.{IsUnique}
use drgtw.Keys.Models.AllowedModels.{allowed_models-IsUnique}

-- Models

abbrev both_ways : Connection
both_ways = record {
  name = codes "both";
  format = open_ai;
  base_url = [];
  api_key = [];
  models = codes "gpt-4" ∷ codes "gpt-*" ∷ [];
}

abbrev key : ResolvedKey
key = record {
  key_id = codes "vk-0";
  connections = both_ways ∷ [];
  model_allowlist = some (codes "gpt-*" ∷ []);
  mcp_servers = [];
  allow_pii_bypass = false;
}

route : connections_for_model key (codes "gpt-5") ≡ ok (both_ways ∷ [])
unfolding connections_for_model permitted pattern_matches strip_star starts_with strip_prefix
    candidates exact_matches serves_exactly is_wildcard equal wildcard_matches best_prefix better
    longer sort_by insert_by conns
route = refl

candidates_order_example :
    (wild : List WildcardMatch) × ((both_ways ∷ [])
      ≡ keep (lists (codes "gpt-5")) key.connections ++ map (λ w. w.conn) wild)
    × IsRanked wild
    × ((w : WildcardMatch) → In w wild ↔ IsWildcardMatch (codes "gpt-5") key.connections w)
candidates_order_example = candidates_order key (codes "gpt-5") (both_ways ∷ []) route

allowed_models-IsUnique_example : IsUnique (allowed_models key)
allowed_models-IsUnique_example = allowed_models-IsUnique key

-- Authentication

abbrev entry : Bytes → Bytes → KeyEntry
entry id secret = record {
  key_id = id;
  secret = secret;
  connections = [];
  model_allowlist = none;
  mcp_servers = [];
  allow_pii_bypass = false;
}

abbrev to_text : Bytes → Option Bytes
to_text s = some s

abbrev ct_eq : Bytes → Bytes → ℕ
ct_eq a b = if equal a b then 1 else 0

ct_eq_same : (a : Bytes) → ct_eq a a ≡ 1
ct_eq_same a = ground (arith, equal_iff a a)

ct_eq_differ : (a b : Bytes) → a ≢ b → ct_eq a b ≡ 0
ct_eq_differ a b h = ground (arith, equal_iff a b)

abbrev two_keys : KeyStore
two_keys = record {
  entries = entry (codes "vk-0") (codes "ab") ∷ entry (codes "vk-1") (codes "cde") ∷ [];
  max_key_len = 3;
}

two_keys-IsBuilt : IsBuilt two_keys
unfolding longest_secret
two_keys-IsBuilt = record {
  texts = ((omega arith, (omega arith, tt)), ((omega arith, (omega arith, (omega arith, tt))), tt));
  longest_is = refl;
}

check_candidate-find_last_example :
    check_candidate to_text ct_eq two_keys (codes "cde")
    ≡ some (answer (find_last (codes "cde") two_keys.entries))
check_candidate-find_last_example =
    check_candidate-find_last to_text ct_eq ct_eq_same ct_eq_differ two_keys b'c' (codes "de")
      two_keys-IsBuilt (omega arith, (omega arith, (omega arith, tt))) (omega arith)

-- 257 keys: the last one is answered as the first one.
abbrev others : ℕ → List KeyEntry
others zero = []
others (suc n) = entry (codes "vk-0") (codes "a") ∷ others n

length-others : (n : ℕ) → length (others n) ≡ n
length-others zero = refl
length-others (suc n) = omega (arith, length-others n)

find_last-others : (n : ℕ) → find_last (codes "z") (others n) ≡ none
unfolding find_last equal
find_last-others zero = refl
find_last-others (suc n) = ground (arith, find_last-others n)

abbrev last_key : KeyEntry
last_key = entry (codes "vk-256") (codes "z")

abbrev many_keys : KeyStore
many_keys = record { entries = others 256 ++ last_key ∷ []; max_key_len = 1 }

many_texts : (n : ℕ) → All (λ e. All (λ c. c < 255) e.secret) (others n ++ last_key ∷ [])
many_texts zero = ((omega arith, tt), tt)
many_texts (suc n) = ((omega arith, tt), many_texts n)

many_longest : (n : ℕ) → 1 ≡ longest_secret (others n ++ last_key ∷ [])
unfolding longest_secret
many_longest zero = refl
many_longest (suc n) = omega (arith, many_longest n)

many_keys-IsBuilt : IsBuilt many_keys
many_keys-IsBuilt = record { texts = many_texts 256; longest_is = many_longest 256 }

check_candidate_wraps_example :
    check_candidate to_text ct_eq many_keys (codes "z")
    ≡ some (ok (resolved (entry (codes "vk-0") (codes "a"))))
unfolding find_last equal
check_candidate_wraps_example =
    check_candidate_wraps to_text ct_eq ct_eq_same ct_eq_differ many_keys b'z' [] (others 256)
      last_key [] (entry (codes "vk-0") (codes "a")) many_keys-IsBuilt (omega arith, tt) refl refl
      (find_last-others 256) refl refl
