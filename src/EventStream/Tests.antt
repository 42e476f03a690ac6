-- ===== src/EventStream/Tests.antt =====
-- The decoder on concrete bytes, and its theorems there. The checksum is a constant.
use drgtw.Base.{ℕ, ◌≡◌, refl, Bytes, some, [], ◌∷◌}
use drgtw.Base.Results.{ok}
use drgtw.EventStream.{
  EventStreamDecoder, no_headers, oversized, new, drain, feed, next_frame, try_next_frame,
  decode_next, read_u32, read_u16, prelude, consume, poison, crc_matches, sub, frame_body,
  parse_frame, parse_headers,
}
use drgtw.EventStream.Safe.{Answers, next_frame-Answers}
use drgtw.EventStream.Drain.{drain-Answers}

abbrev no_sum : Bytes → ℕ
no_sum s = 0

-- A frame of 18 bytes without headers.
abbrev wire : Bytes
wire = 0 ∷ 0 ∷ 0 ∷ 18 ∷ 0 ∷ 0 ∷ 0 ∷ 0 ∷ 0 ∷ 0 ∷ 0 ∷ 0 ∷ 123 ∷ 125 ∷ 0 ∷ 0 ∷ 0 ∷ 0 ∷ 7 ∷ []

next_frame-run :
    next_frame no_sum (feed wire new)
    ≡ some
        (feed (7 ∷ []) new, ok (some (record { headers = no_headers; payload = 123 ∷ 125 ∷ [] })))
unfolding new feed next_frame try_next_frame decode_next read_u32 read_u16 prelude consume poison
    crc_matches sub frame_body parse_frame parse_headers
next_frame-run = refl

next_frame-Answers_example : Answers (next_frame no_sum (feed wire new))
next_frame-Answers_example = next_frame-Answers no_sum (feed wire new)

abbrev huge : Bytes
huge = 255 ∷ 0 ∷ 0 ∷ 0 ∷ 0 ∷ 0 ∷ 0 ∷ 0 ∷ 0 ∷ 0 ∷ 0 ∷ 0 ∷ []

abbrev failed : EventStreamDecoder
failed = record { buf = huge; poisoned = some oversized }

drain-Answers_example : Answers (drain no_sum (feed wire new))
drain-Answers_example = drain-Answers no_sum (feed wire new)
