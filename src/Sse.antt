-- ===== src/Sse.antt =====
-- Restoring placeholders in a stream of server-sent events (crates/drgtw-proxy/src/sse_restore.rs). The
-- parser and the printer of JSON (`serde_json::from_str`, `to_string`) are parameters; the parser answers
-- `none` for an error. A function that appends to `out` returns what it appends.
pub mod Framing
pub mod Transform
pub mod Flush
pub mod Push
pub mod Event
pub mod Verbatim
pub mod Restores
mod Tests
use drgtw.Base.{
  ℕ, zero, suc, Bytes, codes, Bool, true, false, ◌||◌, Option, none, some, List, [], ◌∷◌, ◌++◌,
  length, strip_prefix, equal, any, if◌then◌else◌,
}
use drgtw.Base.Json.{Value, Step, key, str_at}
use drgtw.Base.Strings.{strip_suffix, split_inclusive, lines, trim}
use drgtw.EventStream.Utf8.{from_utf8}
use drgtw.Pii.Stream.{StreamRestorer}
use drgtw.Sse.Framing.{data_payload, drain_events}
use drgtw.Sse.Transform.{Restoring, BodyFormat, openai_chat, anthropic_messages, transform, is_str}
use drgtw.Sse.Flush.{flush_holdbacks}

-- Lines

-- A line and its line end, which is `\r\n`, `\n` or nothing.
unfoldable pub split_trailing_newline : Bytes → Bytes × Bytes
unfolding strip_suffix
split_trailing_newline line = elim (strip_suffix (13 ∷ 10 ∷ []) line) [
  | some stripped ↦ (stripped, 13 ∷ 10 ∷ [])
  | none ↦ elim (strip_suffix (10 ∷ []) line) [
    | some stripped ↦ (stripped, 10 ∷ [])
    | none ↦ (line, [])
  ]
]

unfoldable pub is_done_line : Bytes → Bool
unfolding data_payload trim equal
is_done_line line = elim (data_payload line) [
  | none ↦ false
  | some p ↦ equal (trim p) (codes "[DONE]")
]

unfoldable pub is_done_event : Bytes → Bool
unfolding is_done_line lines
is_done_event event = any is_done_line (lines event)

pub record SseRestorer : Type 0 where
  pub buf : Bytes
  pub state : Restoring

unfoldable pub new : StreamRestorer → BodyFormat → SseRestorer
new restorer format = record {
  buf = [];
  state = record {
    restorer = restorer;
    arg_restorers = [];
    format = format;
    flushed = false;
    last_id = none;
    last_model = none;
    last_index = 0;
  };
}

unfoldable pub set_flushed : Restoring × Bytes → Restoring × Bytes
set_flushed (r, out) = (record r { flushed = true }, out)

module _ (from_str : Bytes → Option Value) where
  unfoldable pub is_stop_line : Bytes → Bool
  unfolding strip_prefix trim equal data_payload str_at is_str
  is_stop_line line =
      elim (strip_prefix (codes "event:") line) [
        | none ↦ false
        | some rest ↦ equal (trim rest) (codes "message_stop")
      ]
      || elim (data_payload line) [
        | none ↦ false
        | some payload ↦ elim (from_str payload) [
          | none ↦ false
          | some v ↦ is_str (codes "message_stop") (str_at (key (codes "type") ∷ []) v)
        ]
      ]

  unfoldable pub is_message_stop : Bytes → Bool
  unfolding is_stop_line lines
  is_message_stop event = any is_stop_line (lines event)

  unfoldable pub is_terminator : BodyFormat → Bytes → Bool
  unfolding is_done_event is_message_stop
  is_terminator openai_chat event = is_done_event event
  is_terminator anthropic_messages event = is_done_event event || is_message_stop event

-- Events

module _ (from_str : Bytes → Option Value) (to_string : Value → Bytes) where
  unfoldable pub transform_data_payload : Bytes → Restoring → Restoring × Bytes
  unfolding transform
  transform_data_payload payload r = elim (from_str payload) [
    | none ↦ (r, payload)
    | some v ↦ let (r', v') = transform r v in (r', to_string v')
  ]

  -- A line's content and line end, and the payload in the content, if it has one.
  unfoldable pub process_content : Bytes → Bytes → Option Bytes → Restoring → Restoring × Bytes
  unfolding transform_data_payload
  process_content content newline none r = (r, content ++ newline)
  process_content content newline (some payload) r =
      let (r', transformed) = transform_data_payload payload r in
      (r', codes "data: " ++ (transformed ++ newline))

  unfoldable pub process_line : Bytes → Restoring → Restoring × Bytes
  unfolding split_trailing_newline data_payload process_content
  process_line line r =
      let (content, newline) = split_trailing_newline line in
      process_content content newline (data_payload content) r

  unfoldable pub process_lines : List Bytes → Restoring → Restoring × Bytes
  unfolding process_line
  process_lines [] r = (r, [])
  process_lines (line ∷ ls) r =
      let (r', out) = process_line line r in
      let (r'', more) = process_lines ls r' in (r'', out ++ more)

  unfoldable pub emit_flush_then : Bytes → Restoring → Restoring × Bytes
  unfolding flush_holdbacks set_flushed
  emit_flush_then terminator r =
      let (r', out) = flush_holdbacks to_string r in set_flushed (r', out ++ terminator)

  unfoldable pub process_event : Bytes → Restoring → Restoring × Bytes
  unfolding from_utf8 is_terminator emit_flush_then process_lines split_inclusive
  process_event event r =
      if from_utf8 event
      then (if is_terminator from_str r.format event
          then emit_flush_then event r
          else process_lines (split_inclusive event) r)
      else (r, event)

  -- The whole

  -- The loop of `push` stops once the terminator was emitted, and what is buffered then is relayed.
  unfoldable pub push : Bytes → SseRestorer → SseRestorer × Bytes
  unfolding drain_events process_event
  push chunk r =
      let buf = r.buf ++ chunk in
      let (rest, state, out) =
        drain_events process_event (λ (s : Restoring). s.flushed) (length buf) buf r.state in
      if r.state.flushed then (r, chunk) else (record { buf = rest; state = state }, out)

  -- The leftover of a stream that ends, as one last event.
  unfoldable pub process_leftover : Bytes → Restoring → Restoring × Bytes
  unfolding process_event
  process_leftover [] r = (r, [])
  process_leftover (c ∷ buf) r = process_event (c ∷ buf) r

  unfoldable pub flush_at_end : Restoring → Restoring × Bytes
  unfolding flush_holdbacks set_flushed
  flush_at_end r = if r.flushed then (r, []) else set_flushed (flush_holdbacks to_string r)

  unfoldable pub finish : SseRestorer → SseRestorer × Bytes
  unfolding process_leftover flush_at_end
  finish r =
      let (s, out) = process_leftover r.buf r.state in
      let (s', more) = flush_at_end s in
      if r.state.flushed then (r, []) else (record { buf = []; state = s' }, out ++ more)

  -- A whole response: its chunks in order, then the end.
  unfoldable pub run : List Bytes → SseRestorer → SseRestorer × Bytes
  unfolding push finish
  run [] r = finish r
  run (chunk ∷ chunks) r =
      let (r', out) = push chunk r in let (r'', rest) = run chunks r' in (r'', out ++ rest)
