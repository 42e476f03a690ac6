-- ===== src/Keys/Pattern.antt =====
-- Model patterns: a text, or a prefix with a trailing star.
use drgtw.Base.{
  Bytes, Bool, true, false, Option, none, some, [], ◌∷◌, equal, starts_with, strip_prefix, ◌==◌,
  if◌then◌else◌,
}

-- `pattern.strip_suffix('*')`.
unfoldable pub strip_star : Bytes → Option Bytes
strip_star [] = none
strip_star (c ∷ []) = if c == b'*' then some [] else none
strip_star (c ∷ d ∷ s) = elim (strip_star (d ∷ s)) [ none ↦ none | some p ↦ some (c ∷ p) ]

unfoldable pub pattern_matches : Bytes → Bytes → Bool
unfolding strip_star starts_with strip_prefix equal
pattern_matches pattern candidate = elim (strip_star pattern) [
  | some prefix ↦ starts_with candidate prefix
  | none ↦ equal pattern candidate
]

-- `pattern.ends_with('*')`.
unfoldable pub is_wildcard : Bytes → Bool
unfolding strip_star
is_wildcard pattern = elim (strip_star pattern) [ none ↦ false | some _ ↦ true ]
