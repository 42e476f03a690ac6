-- ===== src/EventStream.antt =====
-- The incremental decoder of `application/vnd.amazon.eventstream` (crates/drgtw-proxy/src/eventstream.rs).
-- The checksum (`crc32fast::hash`) is a parameter. An outer `none` stands for a panic: an index or a slice
-- out of range. `usize` has 64 bits.
pub mod Utf8
pub mod Wire
pub mod Reads
pub mod Moves
pub mod Safe
pub mod Poison
pub mod Drain
mod Tests
unfoldable pub use Wire.*
use drgtw.Base.{
  ℕ, zero, suc, ◌+◌, ◌-◌, ◌*◌, ◌^◌, Bytes, codes, Bool, true, false, ◌&&◌, ◌||◌, Option, none, some,
  List, [], ◌∷◌, ◌++◌, length, take, drop, get_elem?, equal, ◌==◌, ltb, leb, if◌then◌else◌,
}
use drgtw.Base.Results.{Result, ok, err}

abbrev pub min_frame_len : ℕ
min_frame_len = 16

abbrev pub max_frame_len : ℕ
max_frame_len = 16 * 1024 * 1024

pub record EventStreamDecoder : Type 0 where
  pub buf : Bytes
  pub poisoned : Option DecodeError

unfoldable pub new : EventStreamDecoder
new = record { buf = []; poisoned = none }

unfoldable pub feed : Bytes → EventStreamDecoder → EventStreamDecoder
feed bytes d = record d { buf = d.buf ++ bytes }

-- Frames

-- The frame is taken off the buffer.
unfoldable pub consume :
    EventStreamDecoder
    → Result DecodeError (Option (EventFrame × ℕ))
    → EventStreamDecoder × Result DecodeError (Option EventFrame)
consume d (err e) = (d, err e)
consume d (ok none) = (d, ok none)
consume d (ok (some (frame, total))) = (record d { buf = drop total d.buf }, ok (some frame))

-- An error is remembered.
unfoldable pub poison :
    EventStreamDecoder × Result DecodeError (Option EventFrame)
    → EventStreamDecoder × Result DecodeError (Option EventFrame)
poison (d, err e) = (record d { poisoned = some e }, err e)
poison (d, ok frame) = (d, ok frame)

-- A frame, with the bytes it takes; `none` inside means that more bytes are needed.
module _ (crc : Bytes → ℕ) where
  -- `crc32fast::hash(&buf[0..stop]) == read_u32(&buf, stop)`.
  unfoldable pub crc_matches : Bytes → ℕ → Option Bool
  unfolding sub read_u32
  crc_matches buf stop = elim (read_u32 buf stop) [
    | none ↦ none
    | some given ↦ elim (sub buf 0 stop) [ none ↦ none | some part ↦ some (crc part == given) ]
  ]

  unfoldable pub frame_body : Bytes → ℕ → ℕ → Option (Result DecodeError (Option (EventFrame × ℕ)))
  unfolding crc_matches parse_frame
  frame_body buf total headers_length = elim (crc_matches buf (total - 4)) [
    | none ↦ none
    | some false ↦ some (err message_crc)
    | some true ↦ elim (parse_frame buf 12 (12 + headers_length) (total - 4)) [
      | none ↦ none
      | some (err e) ↦ some (err e)
      | some (ok frame) ↦ some (ok (some (frame, total)))
    ]
  ]

  unfoldable pub prelude : Bytes → ℕ → ℕ → Option (Result DecodeError (Option (EventFrame × ℕ)))
  unfolding crc_matches frame_body
  prelude buf total headers_length =
      if ltb max_frame_len total
      then some (err oversized)
      else if ltb total min_frame_len || ltb (total - min_frame_len) headers_length
      then some (err bad_length)
      else elim (crc_matches buf 8) [
        | none ↦ none
        | some false ↦ some (err prelude_crc)
        | some true ↦
            if ltb (length buf) total then some (ok none) else frame_body buf total headers_length
      ]

  unfoldable pub decode_next : Bytes → Option (Result DecodeError (Option (EventFrame × ℕ)))
  unfolding read_u32 prelude
  decode_next buf = if ltb (length buf) 12 then some (ok none) else elim (read_u32 buf 0) [
    | none ↦ none
    | some total ↦ elim (read_u32 buf 4) [
      | none ↦ none
      | some headers_length ↦ prelude buf total headers_length
    ]
  ]

  unfoldable pub try_next_frame :
      EventStreamDecoder → Option (EventStreamDecoder × Result DecodeError (Option EventFrame))
  unfolding decode_next consume
  try_next_frame d = elim (decode_next d.buf) [ none ↦ none | some r ↦ some (consume d r) ]

  unfoldable pub next_frame :
      EventStreamDecoder → Option (EventStreamDecoder × Result DecodeError (Option EventFrame))
  unfolding try_next_frame poison
  next_frame d = elim d.poisoned [
    | some e ↦ some (d, err e)
    | none ↦ elim (try_next_frame d) [ none ↦ none | some r ↦ some (poison r) ]
  ]

  -- Each frame takes bytes off the buffer, so that its length and one more is enough fuel.
  unfoldable pub drain_from :
      ℕ
      → EventStreamDecoder
      → List EventFrame
      → Option (EventStreamDecoder × Result DecodeError (List EventFrame))
  unfolding next_frame
  drain_from zero d out = none
  drain_from (suc fuel) d out = elim (next_frame d) [
    | none ↦ none
    | some (d', err e) ↦ some (d', err e)
    | some (d', ok none) ↦ some (d', ok out)
    | some (d', ok (some frame)) ↦ drain_from fuel d' (out ++ frame ∷ [])
  ]

  unfoldable pub drain :
      EventStreamDecoder → Option (EventStreamDecoder × Result DecodeError (List EventFrame))
  unfolding drain_from
  drain d = drain_from (length d.buf + 1) d []
