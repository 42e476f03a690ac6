-- ===== src/EventStream/Wire.antt =====
-- The bytes of one frame: big-endian numbers, the block of headers and the payload
-- (crates/drgtw-proxy/src/eventstream.rs, `parse_frame`). An outer `none` stands for a panic: an index or a
-- slice out of range. `usize` has 64 bits.
use drgtw.Base.{
  ℕ, zero, suc, ◌+◌, ◌-◌, ◌*◌, ◌^◌, Bytes, codes, Bool, ◌&&◌, ◌||◌, Option, none, some, length,
  take, drop, get_elem?, equal, ◌==◌, ltb, leb, if◌then◌else◌,
}
use drgtw.Base.Results.{Result, ok, err}
use drgtw.EventStream.Utf8.{from_utf8}

-- The four headers that are kept.
pub record Headers : Type 0 where
  pub message_type : Option Bytes
  pub event_type : Option Bytes
  pub content_type : Option Bytes
  pub exception_type : Option Bytes

pub record EventFrame : Type 0 where
  pub headers : Headers
  pub payload : Bytes

pub data DecodeError : Type 0 where
  prelude_crc message_crc bad_length bad_header oversized truncated : DecodeError

-- Reading

-- `buf[start..stop]`.
unfoldable pub sub : Bytes → ℕ → ℕ → Option Bytes
sub buf start stop =
    if leb start stop && leb stop (length buf)
    then some (take (stop - start) (drop start buf))
    else none

unfoldable pub read_u16 : Bytes → ℕ → Option ℕ
read_u16 buf off = elim (get_elem? buf off) [
  | none ↦ none
  | some a ↦ elim (get_elem? buf (off + 1)) [ none ↦ none | some b ↦ some (a * 256 + b) ]
]

unfoldable pub read_u32 : Bytes → ℕ → Option ℕ
unfolding read_u16
read_u32 buf off = elim (read_u16 buf off) [
  | none ↦ none
  | some a ↦ elim (read_u16 buf (off + 2)) [ none ↦ none | some b ↦ some (a * 65536 + b) ]
]

unfoldable pub checked_add : ℕ → ℕ → Option ℕ
checked_add a b = if ltb (a + b) (2 ^ 64) then some (a + b) else none

unfoldable pub advance : ℕ → ℕ → ℕ → Result DecodeError ℕ
unfolding checked_add
advance pos n limit = elim (checked_add pos n) [
  | none ↦ err bad_header
  | some next ↦ if ltb limit next then err bad_header else ok next
]

-- Headers

unfoldable pub set_header : Bytes → Bytes → Headers → Headers
unfolding equal
set_header name value h =
    if equal name (codes ":message-type")
    then record h { message_type = some value }
    else if equal name (codes ":event-type")
    then record h { event_type = some value }
    else if equal name (codes ":content-type")
    then record h { content_type = some value }
    else if equal name (codes ":exception-type")
    then record h { exception_type = some value }
    else h

-- A value of a fixed length.
unfoldable pub skip_value : ℕ → ℕ → ℕ → Headers → Option (Result DecodeError (ℕ × Headers))
unfolding advance
skip_value pos n headers_end h = elim (advance pos n headers_end) [
  | err e ↦ some (err e)
  | ok next ↦ some (ok (next, h))
]

-- The bytes of a value with a length prefix; those of a string are kept.
unfoldable pub long_value :
    Bytes → ℕ → ℕ → Bool → Bytes → Headers → Option (Result DecodeError (ℕ × Headers))
unfolding sub from_utf8 set_header
long_value buf val_start val_end is_string name h =
    if is_string
    then elim (sub buf val_start val_end) [
      | none ↦ none
      | some value ↦
          if from_utf8 value
          then some (ok (val_end, set_header name value h))
          else some (err bad_header)
    ]
    else some (ok (val_end, h))

unfoldable pub prefixed_value :
    Bytes → ℕ → ℕ → Bool → Bytes → Headers → Option (Result DecodeError (ℕ × Headers))
unfolding advance read_u16 checked_add long_value
prefixed_value buf pos headers_end is_string name h = elim (advance pos 2 headers_end) [
  | err e ↦ some (err e)
  | ok len_end ↦ elim (read_u16 buf pos) [
    | none ↦ none
    | some val_len ↦ elim (checked_add len_end val_len) [
      | none ↦ some (err bad_header)
      | some val_end ↦
          if ltb headers_end val_end
          then some (err bad_header)
          else long_value buf len_end val_end is_string name h
    ]
  ]
]

unfoldable pub parse_value :
    Bytes → ℕ → ℕ → ℕ → Bytes → Headers → Option (Result DecodeError (ℕ × Headers))
unfolding skip_value prefixed_value
parse_value buf value_type pos headers_end name h =
    if leb value_type 1
    then some (ok (pos, h))
    else if value_type == 2
    then skip_value pos 1 headers_end h
    else if value_type == 3
    then skip_value pos 2 headers_end h
    else if value_type == 4
    then skip_value pos 4 headers_end h
    else if value_type == 5
    then skip_value pos 8 headers_end h
    else if value_type == 6 || value_type == 7
    then prefixed_value buf pos headers_end (value_type == 7) name h
    else if value_type == 8
    then skip_value pos 8 headers_end h
    else if value_type == 9
    then skip_value pos 16 headers_end h
    else some (err bad_header)

-- The name and the type of a header, then its value.
unfoldable pub parse_header : Bytes → ℕ → ℕ → Headers → Option (Result DecodeError (ℕ × Headers))
unfolding checked_add sub parse_value
parse_header buf pos headers_end h = elim (get_elem? buf pos) [
  | none ↦ some (err bad_header)
  | some name_len ↦ elim (checked_add (pos + 1) name_len) [
    | none ↦ some (err bad_header)
    | some name_end ↦
        if ltb headers_end name_end
        then some (err bad_header)
        else elim (sub buf (pos + 1) name_end) [
          | none ↦ none
          | some name ↦ elim (get_elem? buf name_end) [
            | none ↦ some (err bad_header)
            | some value_type ↦ parse_value buf value_type (name_end + 1) headers_end name h
          ]
        ]
  ]
]

-- The loop. Every round moves on, so that the length of the block is enough fuel.
unfoldable pub parse_headers :
    Bytes → ℕ → ℕ → ℕ → Headers → Option (Result DecodeError (ℕ × Headers))
unfolding parse_header
parse_headers buf headers_end zero pos h = if ltb pos headers_end then none else some (ok (pos, h))
parse_headers buf headers_end (suc fuel) pos h =
    if ltb pos headers_end
    then elim (parse_header buf pos headers_end h) [
      | none ↦ none
      | some (err e) ↦ some (err e)
      | some (ok (pos', h')) ↦ parse_headers buf headers_end fuel pos' h'
    ]
    else some (ok (pos, h))

abbrev pub no_headers : Headers
no_headers = record {
  message_type = none;
  event_type = none;
  content_type = none;
  exception_type = none;
}

unfoldable pub parse_frame : Bytes → ℕ → ℕ → ℕ → Option (Result DecodeError EventFrame)
unfolding parse_headers sub
parse_frame buf headers_start headers_end payload_end =
    elim (parse_headers buf headers_end (headers_end - headers_start) headers_start no_headers) [
      | none ↦ none
      | some (err e) ↦ some (err e)
      | some (ok (pos, h)) ↦
          if pos == headers_end
          then elim (sub buf headers_end payload_end) [
            | none ↦ none
            | some payload ↦ some (ok (record { headers = h; payload = payload }))
          ]
          else some (err bad_header)
    ]
