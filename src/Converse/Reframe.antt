-- ===== src/Converse/Reframe.antt =====
-- A binary event stream as a stream of OpenAI chunks (`reframe_converse_stream` in
-- crates/drgtw-proxy/src/handlers.rs). A poll takes the items of the upstream that it needs; `none` stands
-- for a panic of the decoder.
use drgtw.Base.{
  ℕ, zero, suc, Bytes, Bool, true, false, Option, none, some, List, [], ◌∷◌, ◌++◌, if◌then◌else◌,
}
use drgtw.Base.Json.{Value, null}
use drgtw.Base.Results.{ok, err}
use drgtw.Converse.{unwrap_or}
use drgtw.Converse.Stream.{StreamXlateState, converse_event_to_sse, finalize}
use drgtw.EventStream.{EventFrame, DecodeError, EventStreamDecoder, feed, drain}

pub data StreamItem : Type 0 where
  received : Bytes → StreamItem
  broken : StreamItem

pub record Reframing : Type 0 where
  pub decoder : EventStreamDecoder
  pub xlate : StreamXlateState
  pub finished : Bool

-- What a poll answers.
pub data Yield : Type 0 where
  yields : Bytes → Yield
  fails ends : Yield

unfoldable pub init : Bytes → ℕ → Reframing
unfolding drgtw.EventStream.new drgtw.Converse.Stream.new
init id created = record {
  decoder = drgtw.EventStream.new;
  xlate = drgtw.Converse.Stream.new id created;
  finished = false;
}

unfoldable pub yield_of : Bytes → Yield
yield_of [] = ends
yield_of (c ∷ s) = yields (c ∷ s)

-- The type of the event, or else of the exception.
unfoldable pub event_name : EventFrame → Option Bytes
event_name frame = elim frame.headers.event_type [
  | some t ↦ some t
  | none ↦ frame.headers.exception_type
]

abbrev pub Polled : Type 0
Polled = Option (Yield × Reframing × List StreamItem)

-- A decode error ends the stream, with the marker of the end if it is not yet sent.
unfoldable pub give_up : EventStreamDecoder → Reframing → List StreamItem → Polled
unfolding finalize yield_of
give_up d st rest =
    let (x, tail) = finalize st.xlate in
    some (yield_of tail, record { decoder = d; xlate = x; finished = true }, rest)

module _ (from_slice : Bytes → Option Value) (to_string : Value → Bytes) (crc : Bytes → ℕ)
    (model : Bytes) where
  unfoldable pub translate_frames : List EventFrame → StreamXlateState → StreamXlateState × Bytes
  unfolding event_name converse_event_to_sse
  translate_frames [] x = (x, [])
  translate_frames (frame ∷ frames) x = elim (event_name frame) [
    | none ↦ translate_frames frames x
    | some t ↦
        let (x', out) =
          converse_event_to_sse to_string t (unwrap_or null (from_slice frame.payload)) model x in
        let (x'', more) = translate_frames frames x' in (x'', out ++ more)
  ]

  -- The end of the upstream.
  unfoldable pub poll_end : Reframing → Polled
  unfolding drain translate_frames finalize yield_of give_up
  poll_end st = elim (drain crc st.decoder) [
    | none ↦ none
    | some (d, err e) ↦ give_up d st []
    | some (d, ok frames) ↦
        let (x, out) = translate_frames frames st.xlate in
        let (x', tail) = finalize x in
        some (yield_of (out ++ tail), record { decoder = d; xlate = x'; finished = true }, [])
  ]

  -- The loop of a poll: it goes on as long as the items give no output.
  unfoldable pub poll_open : Reframing → List StreamItem → Polled
  unfolding poll_end feed drain translate_frames give_up
  poll_open st [] = poll_end st
  poll_open st (broken ∷ rest) = some (fails, st, rest)
  poll_open st (received bytes ∷ rest) = elim (drain crc (feed bytes st.decoder)) [
    | none ↦ none
    | some (d, err e) ↦ give_up d st rest
    | some (d, ok frames) ↦
        let (x, out) = translate_frames frames st.xlate in
        let st' = record st { decoder = d; xlate = x } in
        elim out [ [] ↦ poll_open st' rest | c ∷ s ↦ some (yields (c ∷ s), st', rest) ]
  ]

  unfoldable pub poll : Reframing → List StreamItem → Polled
  unfolding poll_open
  poll st items = if st.finished then some (ends, st, items) else poll_open st items

-- All that a client pulls: the bytes of each item, none for an error.
unfoldable pub after_poll : Yield → Option (List (Option Bytes)) → Option (List (Option Bytes))
after_poll ends later = some []
after_poll fails none = none
after_poll fails (some outs) = some (none ∷ outs)
after_poll (yields out) none = none
after_poll (yields out) (some outs) = some (some out ∷ outs)

module _ (from_slice : Bytes → Option Value) (to_string : Value → Bytes) (crc : Bytes → ℕ)
    (model : Bytes) where
  unfoldable pub collect : ℕ → Reframing → List StreamItem → Option (List (Option Bytes))
  unfolding poll after_poll
  collect zero st items = none
  collect (suc n) st items = elim (poll from_slice to_string crc model st items) [
    | none ↦ none
    | some (y, st', rest) ↦ after_poll y (collect n st' rest)
  ]
