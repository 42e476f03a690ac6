-- ===== src/UsageTap.antt =====
-- Reading token usage from a stream that is forwarded (crates/drgtw-proxy/src/usage_tap.rs). The upstream
-- is the list of what it will still yield, each chunk with the time it arrives. The parser and the printer
-- of JSON are parameters. The framing helpers are those of the event restorer, of which the source has a
-- copy.
pub mod Chunks
pub mod Ends
mod Tests
use drgtw.Base.{
  ℕ, zero, suc, Bytes, codes, Bool, true, false, not, Option, none, some, List, [], ◌∷◌, ◌++◌,
  length, equal, if◌then◌else◌,
}
use drgtw.Base.Json.{Value}
use drgtw.Base.Strings.{lines, trim}
use drgtw.EventStream.Utf8.{from_utf8}
use drgtw.Events.Extract.{
  extract_usage_openai, extract_usage_anthropic_stream_start, extract_usage_anthropic_stream_delta,
}
use drgtw.Sse.Framing.{data_payload, drain_events}
use drgtw.Sse.Transform.{BodyFormat, openai_chat, anthropic_messages}
use drgtw.Sse.{SseRestorer}
use drgtw.Sse as Sse

pub record StreamUsage : Type 0 where
  pub input_tokens : Option ℕ
  pub output_tokens : Option ℕ
  pub first_chunk_at : Option ℕ

pub record UsageAccumulator : Type 0 where
  pub format : BodyFormat
  pub buf : Bytes
  pub usage : StreamUsage
  pub done : Bool

unfoldable pub new : BodyFormat → UsageAccumulator
new format = record {
  format = format;
  buf = [];
  usage = record { input_tokens = none; output_tokens = none; first_chunk_at = none };
  done = false;
}

unfoldable pub or_old : Option ℕ → Option ℕ → Option ℕ
or_old (some n) old = some n
or_old none old = old

unfoldable pub set_counts : Option (ℕ × ℕ) → StreamUsage → StreamUsage
set_counts none u = u
set_counts (some (i, o)) u = record u { input_tokens = some i; output_tokens = some o }

-- What one parsed payload adds.
unfoldable pub scan_value : BodyFormat → Value → StreamUsage → StreamUsage
unfolding set_counts or_old extract_usage_openai extract_usage_anthropic_stream_start
    extract_usage_anthropic_stream_delta
scan_value openai_chat v u = set_counts (extract_usage_openai v) u
scan_value anthropic_messages v u = record u {
  input_tokens = or_old (extract_usage_anthropic_stream_start v) u.input_tokens;
  output_tokens = or_old (extract_usage_anthropic_stream_delta v) u.output_tokens;
}

unfoldable pub set_first : ℕ → StreamUsage → StreamUsage
set_first now u = record u {
  first_chunk_at = elim u.first_chunk_at [ none ↦ some now | some t ↦ some t ];
}

-- What the upstream yields: a chunk and the time, or a read error.
pub data UpstreamItem : Type 0 where
  chunk : Bytes → ℕ → UpstreamItem
  failed : UpstreamItem

-- The state of the stream; `on_complete` is whether the callback was not called yet.
pub record State : Type 0 where
  pub restorer : Option SseRestorer
  pub acc : UsageAccumulator
  pub on_complete : Bool
  pub finished : Bool

unfoldable pub init : Option SseRestorer → BodyFormat → State
unfolding new
init restorer format = record {
  restorer = restorer;
  acc = new format;
  on_complete = true;
  finished = false;
}

-- One poll: the item emitted (none at the end), the state, the rest of the upstream, the callback's calls.
abbrev pub Poll : Type 0
Poll = Option Bytes × State × List UpstreamItem × List StreamUsage

unfoldable pub complete : Bool → StreamUsage → List StreamUsage
complete true u = u ∷ []
complete false u = []

unfoldable pub unless_empty : Bytes → Option Bytes
unless_empty [] = none
unless_empty (c ∷ s) = some (c ∷ s)

module _ (from_str : Bytes → Option Value) where
  -- The end marker of OpenAI, and a payload that is no JSON, are skipped.
  unfoldable pub scan_payload : BodyFormat → Bytes → StreamUsage → StreamUsage
  unfolding trim equal scan_value
  scan_payload f payload u =
      if equal (trim payload) (codes "[DONE]")
      then u
      else elim (from_str payload) [ none ↦ u | some v ↦ scan_value f v u ]

  unfoldable pub scan_line : BodyFormat → Bytes → StreamUsage → StreamUsage
  unfolding data_payload scan_payload
  scan_line f line u = elim (data_payload line) [
    | none ↦ u
    | some payload ↦ scan_payload f payload u
  ]

  unfoldable pub scan_lines : BodyFormat → List Bytes → StreamUsage → StreamUsage
  unfolding scan_line
  scan_lines f [] u = u
  scan_lines f (line ∷ ls) u = scan_lines f ls (scan_line f line u)

  unfoldable pub scan_event : BodyFormat → Bytes → StreamUsage → StreamUsage
  unfolding from_utf8 scan_lines lines
  scan_event f event u = if from_utf8 event then scan_lines f (lines event) u else u

  -- The event has no output, and nothing ends the loop before the buffer has no complete event.
  unfoldable pub tap_event : BodyFormat → Bytes → StreamUsage → StreamUsage × Bytes
  unfolding scan_event
  tap_event f event u = (scan_event f event u, [])

  unfoldable pub push : Bytes → ℕ → UsageAccumulator → UsageAccumulator
  unfolding drain_events tap_event set_first
  push bytes now acc =
      let buf = acc.buf ++ bytes in
      let (rest, usage, out) =
        drain_events (tap_event acc.format) (λ (u : StreamUsage). false) (length buf) buf
          (set_first now acc.usage) in
      if acc.done then acc else record acc { buf = rest; usage = usage }

  unfoldable pub scan_leftover : BodyFormat → Bytes → StreamUsage → StreamUsage
  unfolding scan_event
  scan_leftover f [] u = u
  scan_leftover f (c ∷ buf) u = scan_event f (c ∷ buf) u

  unfoldable pub finish : UsageAccumulator → UsageAccumulator
  unfolding scan_leftover
  finish acc =
      if acc.done
      then acc
      else record acc { buf = []; usage = scan_leftover acc.format acc.buf acc.usage; done = true }

-- The stream

-- No item is the end; another poll follows an item.
unfoldable pub after_poll :
    Option Bytes
    → List StreamUsage
    → Option (List Bytes × List StreamUsage)
    → Option (List Bytes × List StreamUsage)
after_poll none calls later = some ([], calls)
after_poll (some out) calls none = none
after_poll (some out) calls (some (outs, later)) = some (out ∷ outs, calls ++ later)

module _ (from_str : Bytes → Option Value) (to_string : Value → Bytes) where
  unfoldable pub restore_chunk : Bytes → Option SseRestorer → Option SseRestorer × Bytes
  unfolding Sse.push
  restore_chunk bytes none = (none, bytes)
  restore_chunk bytes (some r) =
      let (r', out) = Sse.push from_str to_string bytes r in (some r', out)

  unfoldable pub restore_end : Option SseRestorer → Option SseRestorer × Bytes
  unfolding Sse.finish
  restore_end none = (none, [])
  restore_end (some r) = let (r', out) = Sse.finish from_str to_string r in (some r', out)

  -- The state once the upstream has ended or failed.
  unfoldable pub closed : Option SseRestorer → State → State
  unfolding finish
  closed restorer st = record {
    restorer = restorer;
    acc = finish from_str st.acc;
    on_complete = false;
    finished = true;
  }

  unfoldable pub poll_open : State → List UpstreamItem → Poll
  unfolding restore_chunk restore_end closed complete unless_empty push
  poll_open st [] =
      let (r, tail) = restore_end st.restorer in
      (unless_empty tail, closed r st, [], complete st.on_complete (closed r st).acc.usage)
  poll_open st (failed ∷ rest) =
      (none, closed st.restorer st, rest, complete st.on_complete (closed st.restorer st).acc.usage)
  poll_open st (chunk bytes now ∷ rest) =
      let (r, out) = restore_chunk bytes st.restorer in
      let st' = record st { restorer = r; acc = push from_str bytes now st.acc } in
      elim (unless_empty out) [ none ↦ poll_open st' rest | some o ↦ (some o, st', rest, []) ]

  unfoldable pub poll : State → List UpstreamItem → Poll
  unfolding poll_open
  poll st items = if st.finished then (none, st, items, []) else poll_open st items

  -- Polling until the stream ends: what was emitted, and the callback's calls. `none` stands for a stream
  -- that has not ended after the given number of polls.
  unfoldable pub collect : ℕ → State → List UpstreamItem → Option (List Bytes × List StreamUsage)
  unfolding poll after_poll
  collect zero st items = none
  collect (suc n) st items =
      let (emitted, st', rest, calls) = poll st items in
      after_poll emitted calls (collect n st' rest)
