-- ===== src/Sse/Framing.antt =====
-- The framing of server-sent events (`find_event_boundary` and the loops of `SseRestorer::push` in
-- crates/drgtw-proxy/src/sse_restore.rs and of `UsageAccumulator::push` in
-- crates/drgtw-proxy/src/usage_tap.rs, which has a copy of the framing helpers).
pub mod Boundary
pub mod Grows
pub mod Chunks
use drgtw.Base.{
  ℕ, zero, suc, min, Bytes, Bool, Option, none, some, List, [], ◌∷◌, ◌++◌, length, take, drop,
  starts_with, strip_prefix, codes, if◌then◌else◌,
}

-- The index behind the first occurrence of a delimiter, as each of the two loops finds it.
unfoldable pub end_of : Bytes → Bytes → Option ℕ
unfolding starts_with
end_of delimiter [] = none
end_of delimiter (c ∷ s) =
    let later = end_of delimiter s in
    if starts_with (c ∷ s) delimiter
    then some (length delimiter)
    else elim later [ none ↦ none | some n ↦ some (suc n) ]

unfoldable pub earlier : Option ℕ → Option ℕ → Option ℕ
earlier (some a) (some b) = some (min a b)
earlier (some a) none = some a
earlier none (some b) = some b
earlier none none = none

abbrev pub lf_lf : Bytes
lf_lf = 10 ∷ 10 ∷ []

abbrev pub crlf_crlf : Bytes
crlf_crlf = 13 ∷ 10 ∷ 13 ∷ 10 ∷ []

unfoldable pub find_event_boundary : Bytes → Option ℕ
unfolding end_of earlier
find_event_boundary buf = earlier (end_of lf_lf buf) (end_of crlf_crlf buf)

-- The payload of a `data:` line, without one leading space.
unfoldable pub data_payload : Bytes → Option Bytes
unfolding strip_prefix
data_payload line = elim (strip_prefix (codes "data:") line) [
  | none ↦ none
  | some rest ↦ some (elim (strip_prefix (codes " ") rest) [ none ↦ rest | some r ↦ r ])
]

-- The loop that takes complete events off the buffer. It answers the new buffer, the state and the
-- output. Every event is at least two bytes long, so that the length of the buffer is enough fuel. Once
-- the state is flushed, the rest of the buffer is output.
module _ {S : Type 0} (process : Bytes → S → S × Bytes) (flushed : S → Bool) where
  unfoldable pub drain_events : ℕ → Bytes → S → Bytes × S × Bytes
  unfolding find_event_boundary
  drain_events zero buf s = (buf, s, [])
  drain_events (suc fuel) buf s = elim (find_event_boundary buf) [
    | none ↦ (buf, s, [])
    | some n ↦
        let (s', out) = process (take n buf) s in
        let (buf', s'', more) = drain_events fuel (drop n buf) s' in
        if flushed s' then ([], s', out ++ drop n buf) else (buf', s'', out ++ more)
  ]
