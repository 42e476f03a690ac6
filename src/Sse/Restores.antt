-- ===== src/Sse/Restores.antt =====
-- A response as its client reads it: the texts of its events are what one `StreamRestorer` releases for the
-- texts of the upstream's events, however the bytes are cut (`SseRestorer` in
-- crates/drgtw-proxy/src/sse_restore.rs).
use drgtw.Base.{◌≡◌, Bytes, false, Option, none, some, List, [], ◌∷◌, ◌++◌, map}
use drgtw.Base.Json.{Value}
use drgtw.Base.Strings.{concat}
use drgtw.Pii.Stream.{StreamRestorer}
use drgtw.Pii.Stream as Stream
use drgtw.Sse.Transform.{
  Restoring, BodyFormat, openai_chat, anthropic_messages, transform, transform_as,
}
use drgtw.Sse.Transform.Content.{content_of, FedBy}
use drgtw.Sse.Transform.Openai.{transform_openai-FedBy}
use drgtw.Sse.Transform.Anthropic.{transform_anthropic-FedBy}
use drgtw.Sse.Flush.{flush_args, synthetic_value, synthetic_event, unless_empty}
use drgtw.Sse.Event.{IsPrinted, is_stop, data_event}
use drgtw.Sse.{SseRestorer, finish, run, flush_at_end}

transform_as-FedBy :
    (f : BodyFormat) (r : Restoring) (v : Value)
    → FedBy (content_of f) r (content_of f v) (transform_as f r v)
unfolding transform_as
transform_as-FedBy openai_chat r v = transform_openai-FedBy r v
transform_as-FedBy anthropic_messages r v = transform_anthropic-FedBy r v

-- The text of a payload is replaced by what the restorer of the text stream releases for it, and that
-- restorer is fed nothing but those texts.
pub transform-FedBy :
    (r : Restoring) (v : Value)
    → FedBy (content_of r.format) r (content_of r.format v) (transform r v)
unfolding transform
transform-FedBy r v = transform_as-FedBy r.format r v

-- Many payloads

abbrev pub transform_all : Restoring → List Value → Restoring × List Value
transform_all r [] = (r, [])
transform_all r (v ∷ vs) =
    let (r', v') = transform r v in let (r'', vs') = transform_all r' vs in (r'', v' ∷ vs')

abbrev onto : Option Bytes → List Bytes → List Bytes
onto none ts = ts
onto (some t) ts = t ∷ ts

-- The texts of the payloads that have one.
abbrev pub texts : BodyFormat → List Value → List Bytes
texts f [] = []
texts f (v ∷ vs) = onto (content_of f v) (texts f vs)

-- The released texts, and what the restorer releases at the end.
abbrev client_text : BodyFormat → Restoring × List Value → Bytes
client_text f (r, vs) = concat (texts f vs) ++ (Stream.finish r.restorer).1

-- The bytes

module _ (from_str : Bytes → Option Value) (to_string : Value → Bytes) where
  abbrev pub event_of : Value → Bytes
  event_of v = data_event (to_string v)

  -- A payload that is printed and parsed back, and does not end the stream.
  abbrev pub IsPayload : BodyFormat → Value → Type 0
  IsPayload f v = IsPrinted from_str to_string v × (is_stop f v ≡ false)

  abbrev held : Restoring → SseRestorer
  held s = record { buf = []; state = s }

  -- All the events, each a chunk, and the end.
  abbrev ended : Restoring × List Value → SseRestorer × Bytes
  ended (s, vs) =
      let (s', tail) = flush_at_end from_str to_string s in
      (held s', concat (map event_of vs) ++ tail)

  -- What the end adds: the held text as a last event of the text stream, then the argument streams.
  abbrev pub tail_of : Restoring → Bytes
  tail_of r =
      let rest = (Stream.finish r.restorer).1 in
      unless_empty rest (synthetic_event to_string r rest)
      ++ (flush_args to_string r r.arg_restorers).1

module _ (from_str : Bytes → Option Value) (to_string : Value → Bytes) where
  -- The output is events with payloads `ws`, then an event with the held text if there is some, then the
  -- held arguments. The texts of `ws` followed by the held text are what one stream restorer answers for
  -- the texts of `vs`.
  abbrev pub IsRestored : BodyFormat → StreamRestorer → List Value → Bytes → Type 0
  IsRestored f s vs out =
      (ws : List Value) × (r : Restoring) × (out
        ≡ concat (map (event_of from_str to_string) ws) ++ tail_of from_str to_string r)
      × (content_of f (synthetic_value r (Stream.finish r.restorer).1)
          ≡ some ((Stream.finish r.restorer).1))
      × (concat (texts f ws) ++ (Stream.finish r.restorer).1 ≡ (Stream.run (texts f vs) s).1)
