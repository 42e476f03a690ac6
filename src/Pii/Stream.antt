-- ===== src/Pii/Stream.antt =====
-- Restoring a response that arrives in chunks (crates/drgtw-pii/src/stream.rs). A cut of the buffer stands
-- before the first byte or behind the last byte of a placeholder, so it is a character boundary.
pub mod Holdback
pub mod Transparent
mod Tests
use drgtw.Base.{
  ℕ, zero, suc, ◌+◌, ◌-◌, ◌/◌, ◌%◌, min, max, Bytes, codes, Bool, true, false, not, Option, none,
  some, List, [], ◌∷◌, ◌++◌, map, length, take, drop, equal, strip_prefix, is_ascii_digit, ◌==◌,
  ltb, leb, if◌then◌else◌,
}
use drgtw.Base.Sort.{sort_by, insert_by}

pub record PlaceholderEntry : Type 0 where
  pub placeholder : Bytes
  pub escaped_original : Bytes

pub record StreamRestorer : Type 0 where
  pub entries : List PlaceholderEntry
  pub max_ph_len : ℕ
  pub buf : Bytes

-- JSON strings

-- `{:04X}` of a byte.
hex_digit : ℕ → ℕ
hex_digit n = if ltb n 10 then b'0' + n else b'A' + (n - 10)

hex4 : ℕ → Bytes
unfolding hex_digit
hex4 c = codes "00" ++ hex_digit (c / 16) ∷ hex_digit (c % 16) ∷ []

-- The escape of one character. The bytes of a character beyond ASCII are copied.
unfoldable pub escape_char : ℕ → Bytes
unfolding hex4
escape_char c =
    if c == 34
    then codes "\\\""
    else if c == 92
    then codes "\\\\"
    else if c == 8
    then codes "\\b"
    else if c == 9
    then codes "\\t"
    else if c == 10
    then codes "\\n"
    else if c == 12
    then codes "\\f"
    else if c == 13
    then codes "\\r"
    else if ltb c 32
    then codes "\\u" ++ hex4 c
    else c ∷ []

unfoldable pub json_escape : Bytes → Bytes
unfolding escape_char
json_escape [] = []
json_escape (c ∷ s) = escape_char c ++ json_escape s

-- Building the restorer

abbrev pub longer_first : PlaceholderEntry → PlaceholderEntry → Bool
longer_first a b = leb (length b.placeholder) (length a.placeholder)

to_entry : Bytes × Bytes → PlaceholderEntry
unfolding json_escape
to_entry (placeholder, original) = record {
  placeholder = placeholder;
  escaped_original = json_escape original;
}

-- `pairs` and `max_ph_len` are what the view of the map answers.
unfoldable pub from_view : List (Bytes × Bytes) → ℕ → StreamRestorer
unfolding to_entry sort_by
from_view pairs max_ph_len = record {
  entries = sort_by longer_first (map to_entry pairs);
  max_ph_len = max_ph_len;
  buf = [];
}

unfoldable pub fork : StreamRestorer → StreamRestorer
fork r = record r { buf = [] }

-- Replacing

-- The first entry whose placeholder stands at the front, and what follows it.
unfoldable pub find_entry : List PlaceholderEntry → Bytes → Option (PlaceholderEntry × Bytes)
unfolding strip_prefix
find_entry [] src = none
find_entry (e ∷ es) src =
    let later = find_entry es src in
    elim (strip_prefix e.placeholder src) [ none ↦ later | some rest ↦ some (e, rest) ]

-- Whether a placeholder that is followed by the given text is replaced.
unfoldable pub should_replace : Bool → Bytes → Bool
should_replace is_finish [] = is_finish
should_replace is_finish (b ∷ rest) = not (is_ascii_digit b)

-- The scan. Every round consumes a byte, since no placeholder is empty, so that the length is enough
-- fuel. The verbatim runs are appended as they are read.
unfoldable pub replace_from : List PlaceholderEntry → Bool → ℕ → Bytes → Bytes
unfolding find_entry should_replace
replace_from es is_finish fuel [] = []
replace_from es is_finish zero (c ∷ src) = c ∷ src
replace_from es is_finish (suc fuel) (c ∷ src) = elim (find_entry es (c ∷ src)) [
  | none ↦ c ∷ replace_from es is_finish fuel src
  | some (e, rest) ↦
      let after = replace_from es is_finish fuel rest in
      if should_replace is_finish rest then e.escaped_original ++ after else e.placeholder ++ after
]

unfoldable pub apply_replacements : List PlaceholderEntry → Bool → Bytes → Bytes
unfolding replace_from
apply_replacements es is_finish src = replace_from es is_finish (length src) src

-- Holding back

-- The lengths from `k` down to 1: the first suffix of that length that begins the placeholder.
unfoldable pub suffix_for : Bytes → Bytes → ℕ → ℕ
unfolding equal
suffix_for s ph zero = 0
suffix_for s ph (suc k) =
    let shorter = suffix_for s ph k in
    if equal (drop (length s - suc k) s) (take (suc k) ph) then suc k else shorter

-- The loop over the entries with `best`.
unfoldable pub longest_from : Bytes → List PlaceholderEntry → ℕ → ℕ
unfolding suffix_for
longest_from s [] best = best
longest_from s (e ∷ es) best =
    let n = suffix_for s e.placeholder (min (length s) (length e.placeholder)) in
    longest_from s es (if ltb best n then n else best)

unfoldable pub longest_prefix_suffix : Bytes → List PlaceholderEntry → ℕ
unfolding longest_from
longest_prefix_suffix [] es = 0
longest_prefix_suffix (c ∷ s) [] = 0
longest_prefix_suffix (c ∷ s) (e ∷ es) = longest_from (c ∷ s) (e ∷ es) 0

-- The stream

is_empty : List PlaceholderEntry → Bool
is_empty [] = true
is_empty (e ∷ es) = false

unfoldable pub passes_through : StreamRestorer → Bool
unfolding is_empty
passes_through r = if is_empty r.entries then true else r.max_ph_len == 0

unfoldable pub holdback_len : Bool → Bytes → List PlaceholderEntry → ℕ
unfolding longest_prefix_suffix
holdback_len true s es = 0
holdback_len false s es = longest_prefix_suffix s es

unfoldable pub process : Bool → StreamRestorer → StreamRestorer × Bytes
unfolding passes_through apply_replacements holdback_len
process is_finish r =
    if passes_through r
    then (record r { buf = [] }, r.buf)
    else (let transformed = apply_replacements r.entries is_finish r.buf in
        let release_up_to = length transformed - holdback_len is_finish transformed r.entries in
        (record r { buf = drop release_up_to transformed }, take release_up_to transformed))

unfoldable pub feed : Bytes → StreamRestorer → StreamRestorer × Bytes
unfolding process
feed chunk r = process false (record r { buf = r.buf ++ chunk })

unfoldable pub finish : StreamRestorer → StreamRestorer × Bytes
unfolding process
finish r = process true r

-- A whole response: its chunks in order, then the end.
unfoldable pub run : List Bytes → StreamRestorer → StreamRestorer × Bytes
unfolding feed finish
run [] r = finish r
run (chunk ∷ chunks) r =
    let (r', out) = feed chunk r in let (end, rest) = run chunks r' in (end, out ++ rest)
