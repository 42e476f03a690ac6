-- ===== src/Events/Sink.antt =====
-- The sink of usage events: a bounded queue and one worker that posts each event once
-- (crates/drgtw-events/src/sink.rs). The channel is the list of what is queued. What the network and the
-- serializer do with an event is an argument of the step; signing, headers and warnings are left out.
pub mod Account
mod Tests
use drgtw.Base.{
  ℕ, ◌+◌, ◌%◌, ◌^◌, Bytes, Bool, true, false, Option, none, some, List, [], ◌∷◌, ◌++◌, length, ltb,
  if◌then◌else◌,
}

-- What became of an attempt: the event could not be serialized, was answered with a status, or the
-- request failed.
pub data Attempt : Type 0 where
  not_serialized : Attempt
  answered : ℕ → Attempt
  request_failed : Bytes → Attempt

pub record DeliveryRecord (Event : Type 0) : Type 0 where
  pub event : Event
  pub status_code : Option ℕ
  pub delivered : Bool
  pub error : Option Bytes

-- The channel, the counter that the handles share, and the worker. `delivered` and `log` are what the
-- endpoint accepted and what the delivery log was told.
pub record EventSink (Event : Type 0) : Type 0 where
  pub buffer_size : ℕ
  pub queue : List Event
  pub dropped : ℕ
  pub in_flight : Option Event
  pub delivered : List Event
  pub log : List (DeliveryRecord Event)

-- `status().is_success()`.
unfoldable pub is_success : ℕ → Bool
is_success code = if ltb code 200 then false else ltb code 300

module _ {Event : Type 0} where
  unfoldable pub new : ℕ → EventSink Event
  new buffer_size = record {
    buffer_size = buffer_size;
    queue = [];
    dropped = 0;
    in_flight = none;
    delivered = [];
    log = [];
  }

  -- `AtomicU64::fetch_add`.
  unfoldable pub count_drop : EventSink Event → EventSink Event
  count_drop s = record s { dropped = (s.dropped + 1) % 2 ^ 64 }

  -- `emit` never waits: a full channel drops the event.
  unfoldable pub emit : Event → EventSink Event → EventSink Event
  unfolding count_drop
  emit ev s =
      if ltb (length s.queue) s.buffer_size
      then record s { queue = s.queue ++ ev ∷ [] }
      else count_drop s

  -- `recv`: the worker takes the oldest event, once it is done with the last.
  unfoldable pub take_next : Option Event → List Event → EventSink Event → EventSink Event
  take_next (some ev) q s = s
  take_next none [] s = s
  take_next none (ev ∷ q) s = record s { queue = q; in_flight = some ev }

  unfoldable pub recv : EventSink Event → EventSink Event
  unfolding take_next
  recv s = take_next s.in_flight s.queue s

  unfoldable pub record_of : Event → Option ℕ → Bool → Option Bytes → DeliveryRecord Event
  record_of ev code accepted message = record {
    event = ev;
    status_code = code;
    delivered = accepted;
    error = message;
  }

  -- One attempt with the event, which is done with afterwards, whatever happened: there is no retry. An
  -- event that is not serialized is not logged.
  unfoldable pub post : Event → Attempt → EventSink Event → EventSink Event
  unfolding count_drop is_success record_of
  post ev not_serialized s = count_drop (record s { in_flight = none })
  post ev (answered code) s =
      let done = record s {
        in_flight = none;
        log = s.log ++ record_of ev (some code) (is_success code) none ∷ [];
      } in
      if is_success code
      then record done { delivered = s.delivered ++ ev ∷ [] }
      else count_drop done
  post ev (request_failed message) s =
      count_drop
        (record s { in_flight = none; log = s.log ++ record_of ev none false (some message) ∷ [] })

  unfoldable pub post_taken : Option Event → Attempt → EventSink Event → EventSink Event
  unfolding post
  post_taken none a s = s
  post_taken (some ev) a s = post ev a s

  unfoldable pub attempt : Attempt → EventSink Event → EventSink Event
  unfolding post_taken
  attempt a s = post_taken s.in_flight a s
