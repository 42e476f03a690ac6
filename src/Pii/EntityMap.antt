-- ===== src/Pii/EntityMap.antt =====
-- The map of one request between original values and placeholders
-- (crates/drgtw-pii/src/entity_map.rs). A persistent store is a state and its operation
-- `get_or_assign` (crates/drgtw-pii/src/store.rs), both parameters; the map holds the state.
use Prim.Native.Nat.{◌^◌}
pub mod Assign
pub mod Issue
pub mod Scan
pub mod RoundTrip
pub mod Pseudonymize
pub mod Fallible
use drgtw.Base.{
  ℕ, zero, suc, ◌+◌, ◌%◌, max, Bytes, codes, Bool, true, not, ◌||◌, Option, none, some, List, [],
  ◌∷◌, ◌++◌, leb, ◌==◌, length, strip_prefix, is_ascii_digit, if◌then◌else◌,
}
use drgtw.Base.Results.{Result, ok, err}
use drgtw.Base.Assoc.{lookup, insert, bytes_eq, pair_eq}
use drgtw.Base.Sort.{sort_by}
use drgtw.Pii.Kind.{Detection, placeholder_prefix}
use drgtw.Pii.Decimal.{placeholder}
use drgtw.Pii.Slice.{slice}

pub record EntityMap (S : Type 0) : Type 0 where
  pub forward : List ((Bytes × Bytes) × Bytes)
  pub backward : List (Bytes × Bytes)
  pub counters : List (Bytes × ℕ)
  pub store : Option S

abbrev pub new : {S : Type 0} → EntityMap S
new = record { forward = []; backward = []; counters = []; store = none }

abbrev pub with_store : {S : Type 0} → S → EntityMap S
with_store s = record { forward = []; backward = []; counters = []; store = some s }

-- A `u32` counter; the addition wraps.
unfoldable pub count : Bytes → List (Bytes × ℕ) → ℕ
count prefix counters = elim (lookup prefix counters) [ none ↦ 0 | some n ↦ n ]

abbrev pub DetectError : Type 0
DetectError = Bytes

module _ {S : Type 0} where
  -- Both directions of a new pair.
  unfoldable pub remember : Bytes × Bytes → Bytes → EntityMap S → EntityMap S
  remember key ph m = record m {
    forward = insert key ph m.forward;
    backward = insert ph key.1 m.backward;
  }

  unfoldable pub get_or_insert : Bytes → Bytes → EntityMap S → EntityMap S × Bytes
  unfolding count remember
  get_or_insert prefix original m = elim (lookup (prefix, original) m.forward) [
    | some ph ↦ (m, ph)
    | none ↦
        let n = (count prefix m.counters + 1) % 2 ^ 32 in
        let ph = placeholder prefix n in
        (remember (prefix, original) ph (record m { counters = insert prefix n m.counters }), ph)
  ]

-- The store is shared, so its state comes back beside an error too.
module _ {S : Type 0} (get_or_assign : S → Bytes → Bytes → Result Bytes Bytes × S) where
  assigned :
      Bytes × Bytes → EntityMap S → Result Bytes Bytes × S → EntityMap S × Result DetectError Bytes
  unfolding remember
  assigned key m (ok ph, s) = (remember key ph (record m { store = some s }), ok ph)
  assigned key m (err e, s) =
      (record m { store = some s }, err (codes "entity store: entity store error: " ++ e))

  unfoldable pub try_get_or_insert :
      Bytes → Bytes → EntityMap S → EntityMap S × Result DetectError Bytes
  unfolding assigned get_or_insert
  try_get_or_insert prefix original m = elim (lookup (prefix, original) m.forward) [
    | some ph ↦ (m, ok ph)
    | none ↦ elim m.store [
      | some s ↦ assigned (prefix, original) m (get_or_assign s prefix original)
      | none ↦ let (m', ph) = get_or_insert prefix original m in (m', ok ph)
    ]
  ]

-- What both rewriting loops do with a text: copy up to a span, replace the span, go on behind it.
-- The outer `none` is a panic on a span that is no slice of the text.
module _ {S : Type 0} (to_uppercase : Bytes → Bytes) where
  unfoldable pub pseudonymize_from :
      Bytes → ℕ → List Detection → Bytes → EntityMap S → Option (EntityMap S × Bytes)
  unfolding slice
  pseudonymize_from text cursor [] out m = elim (slice text cursor (length text)) [
    | none ↦ none
    | some rest ↦ some (m, out ++ rest)
  ]
  pseudonymize_from text cursor (det ∷ dets) out m = elim (slice text cursor det.start) [
    | none ↦ none
    | some before ↦ elim (slice text det.start det.stop) [
      | none ↦ none
      | some original ↦
          let (m', ph) = get_or_insert (placeholder_prefix to_uppercase det.kind) original m in
          pseudonymize_from text det.stop dets (out ++ (before ++ ph)) m'
    ]
  ]

  unfoldable pub pseudonymize : Bytes → List Detection → EntityMap S → Option (EntityMap S × Bytes)
  unfolding pseudonymize_from get_or_insert
  pseudonymize text dets m = pseudonymize_from text 0 dets [] m

module _ {S : Type 0} (to_uppercase : Bytes → Bytes)
    (get_or_assign : S → Bytes → Bytes → Result Bytes Bytes × S) where
  unfoldable pub try_pseudonymize_from :
      Bytes
      → ℕ
      → List Detection
      → Bytes
      → EntityMap S
      → Option (EntityMap S × Result DetectError Bytes)
  unfolding slice
  try_pseudonymize_from text cursor [] out m = elim (slice text cursor (length text)) [
    | none ↦ none
    | some rest ↦ some (m, ok (out ++ rest))
  ]
  try_pseudonymize_from text cursor (det ∷ dets) out m = elim (slice text cursor det.start) [
    | none ↦ none
    | some before ↦ elim (slice text det.start det.stop) [
      | none ↦ none
      | some original ↦
          let (m', r) =
            try_get_or_insert get_or_assign (placeholder_prefix to_uppercase det.kind) original m in
          elim r [
            | ok ph ↦ try_pseudonymize_from text det.stop dets (out ++ (before ++ ph)) m'
            | err e ↦ some (m', err e)
          ]
    ]
  ]

  unfoldable pub try_pseudonymize :
      Bytes → List Detection → EntityMap S → Option (EntityMap S × Result DetectError Bytes)
  unfolding try_pseudonymize_from try_get_or_insert
  try_pseudonymize text dets m = try_pseudonymize_from text 0 dets [] m

-- The byte behind a match is neither a digit nor an underscore.
unfoldable pub at_boundary : Bytes → Bool
at_boundary [] = true
at_boundary (c ∷ s) = not (is_ascii_digit c || c == b'_')

-- The first placeholder, in the order given, that stands here: its original, and the text behind it.
unfoldable pub find_match : List (Bytes × Bytes) → Bytes → Option (Bytes × Bytes)
unfolding at_boundary
find_match [] s = none
find_match ((ph, orig) ∷ rest) s =
    let later = find_match rest s in
    elim (strip_prefix ph s) [
      | none ↦ later
      | some behind ↦ if at_boundary behind then some (orig, behind) else later
    ]

-- The scan from position `i` on. `none` stands for a scan that has not ended: fuel for each byte is
-- enough unless a placeholder is empty, and then the program does not end either.
unfoldable pub restore_from : List (Bytes × Bytes) → ℕ → Bytes → Option Bytes
unfolding find_match
restore_from entries f [] = some []
restore_from entries zero (c ∷ s) = none
restore_from entries (suc f) (c ∷ s) = elim (find_match entries (c ∷ s)) [
  | some (orig, behind) ↦ elim (restore_from entries f behind) [
    | none ↦ none
    | some t ↦ some (orig ++ t)
  ]
  | none ↦ elim (restore_from entries f s) [ none ↦ none | some t ↦ some (c ∷ t) ]
]

abbrev pub longest_first : Bytes × Bytes → Bytes × Bytes → Bool
longest_first (p, _) (q, _) = leb (length q) (length p)

unfoldable pub restore_pairs : List (Bytes × Bytes) → Bytes → Option Bytes
unfolding restore_from sort_by
restore_pairs [] text = some text
restore_pairs (e ∷ es) text = restore_from (sort_by longest_first (e ∷ es)) (length text) text

module _ {S : Type 0} where
  unfoldable pub restore : EntityMap S → Bytes → Option Bytes
  unfolding restore_pairs
  restore m text = restore_pairs m.backward text

  unfoldable pub len : EntityMap S → ℕ
  len m = length m.forward

  unfoldable pub is_empty : EntityMap S → Bool
  unfolding len
  is_empty m = len m == 0

unfoldable pub longest : List (Bytes × Bytes) → ℕ
longest [] = 0
longest ((ph, _) ∷ rest) = max (length ph) (longest rest)

module _ {S : Type 0} where
  unfoldable pub max_placeholder_len : EntityMap S → ℕ
  unfolding longest
  max_placeholder_len m = longest m.backward

  -- `iter`: the pairs of placeholder and original.
  unfoldable pub iter : EntityMap S → List (Bytes × Bytes)
  iter m = m.backward
