-- ===== src/EventStream/Safe.antt =====
-- The decoder never panics, and an accepted frame is within its bounds.
use drgtw.Base.{
  ℕ, ◌+◌, ◌-◌, ◌≤◌, ◌<◌, ◌≡◌, refl, inl, inr, Bytes, Bool, true, false, ◌||◌, Option, none, some,
  arith, length, ltb, ◌==◌, if◌then◌else◌, Bool-cases,
}
use drgtw.Base.Results.{Result, ok, err}
use drgtw.EventStream.{
  Headers, EventFrame, DecodeError, bad_header, EventStreamDecoder, min_frame_len, max_frame_len,
  sub, read_u32, no_headers, parse_frame, crc_matches, frame_body, prelude, decode_next, consume,
  poison, try_next_frame, next_frame,
}
use drgtw.EventStream.Reads.{sub_in, read_u32_in}
use drgtw.EventStream.Moves.{moves, parse_headers-answers}

-- An answer, which may be an error.
abbrev pub Answers : {A : Type 0} → Option A → Type 0
Answers {A} o = (a : A) × (o ≡ some a)

sub-Answers : (s : Bytes) (a b : ℕ) → a ≤ b → b ≤ length s → Answers (sub s a b)
sub-Answers s a b h k = (_, sub_in s a b h k)

abbrev whole_frame : Headers → Bytes → EventFrame
whole_frame h p = record { headers = h; payload = p }

-- One read after another.
then_Answers :
    {A B : Type 0} (o : Option A) (k : A → Option B)
    → Answers o
    → ((a : A) → Answers (k a))
    → Answers (elim o [ none ↦ none | some a ↦ k a ])
then_Answers none k (a, e) h = absurd (cc e)
then_Answers (some a) k e h = h a

if_Answers :
    {A : Type 0} (b : Bool) (x y : Option A)
    → (b ≡ true → Answers x)
    → (b ≡ false → Answers y)
    → Answers (if b then x else y)
if_Answers true x y p q = p refl
if_Answers false x y p q = q refl

bool_Answers :
    {A : Type 0} (b : Bool) (x y : Option A)
    → Answers x
    → Answers y
    → Answers (elim b [ false ↦ x | true ↦ y ])
bool_Answers true x y p q = q
bool_Answers false x y p q = p

unless_Answers :
    {A B : Type 0} (o : Option A) (f : A → B) (y : Option B)
    → Answers y
    → Answers (elim o [ some e ↦ some (f e) | none ↦ y ])
unless_Answers none f y h = h
unless_Answers (some e) f y h = (f e, refl)

framed :
    (total : ℕ) (r : Result DecodeError EventFrame)
    → Answers {A = Result DecodeError (Option (EventFrame × ℕ))}
        (elim r [ err e ↦ some (err e) | ok frame ↦ some (ok (some (frame, total))) ])
framed total (ok frame) = (ok (some (frame, total)), refl)
framed total (err e) = (err e, refl)

after_headers :
    (o : Option (Result DecodeError (ℕ × Headers))) (payload : Option Bytes) (stop : ℕ)
    → moves 12 o ≡ true
    → Answers payload
    → Answers (elim o [
      | none ↦ none
      | some (err e) ↦ some (err e)
      | some (ok (pos, h)) ↦
          if pos == stop
          then elim payload [ none ↦ none | some p ↦ some (ok (whole_frame h p)) ]
          else some (err bad_header)
    ])
unfolding moves
after_headers none payload stop m a = absurd (cc m)
after_headers (some (err e)) payload stop m a = (err e, refl)
after_headers (some (ok (pos, h))) payload stop m (p, found) = elim (Bool-cases (pos == stop)) [
  | inl ends ↦ (ok (whole_frame h p), rw ends (rw found refl))
  | inr off ↦ (err bad_header, rw off refl)
]

parse_frame-Answers :
    (buf : Bytes) (headers_end payload_end : ℕ)
    → headers_end ≤ payload_end
    → payload_end ≤ length buf
    → Answers (parse_frame buf 12 headers_end payload_end)
unfolding parse_frame
parse_frame-Answers buf headers_end payload_end h k =
    after_headers _ (sub buf headers_end payload_end) headers_end
      (parse_headers-answers buf headers_end (headers_end - 12) 12 no_headers (omega (arith, h, k))
        (omega arith))
      (sub-Answers buf headers_end payload_end h k)

module _ (crc : Bytes → ℕ) where
  crc_matches-Answers :
      (s : Bytes) (stop : ℕ) → stop + 3 < length s → Answers (crc_matches crc s stop)
  unfolding crc_matches
  crc_matches-Answers s stop h = then_Answers (read_u32 s stop) _ (read_u32_in s stop h) (λ given.
      then_Answers (sub s 0 stop) _ (sub-Answers s 0 stop (omega arith) (omega (arith, h)))
        (λ part. (_, refl)))

  frame_body-Answers :
      (s : Bytes) (total headers_length : ℕ)
      → min_frame_len + headers_length ≤ total
      → total ≤ length s
      → Answers (frame_body crc s total headers_length)
  unfolding frame_body
  frame_body-Answers s total headers_length h k =
      then_Answers (crc_matches crc s (total - 4)) _
        (crc_matches-Answers s (total - 4) (omega (arith, h, k)))
        (λ same.
          bool_Answers same _ _ (_, refl)
            (then_Answers (parse_frame s 12 (12 + headers_length) (total - 4)) _
              (parse_frame-Answers s (12 + headers_length) (total - 4) (omega (arith, h, k))
                (omega (arith, h, k)))
              (framed total)))

  prelude-Answers :
      (s : Bytes) (total headers_length : ℕ)
      → 12 ≤ length s
      → Answers (prelude crc s total headers_length)
  unfolding prelude
  prelude-Answers s total headers_length h =
      if_Answers (ltb max_frame_len total) _ _ (λ over. (_, refl))
        (λ fits.
          if_Answers (ltb total min_frame_len || ltb (total - min_frame_len) headers_length) _ _
            (λ bad. (_, refl))
            (λ good.
              then_Answers (crc_matches crc s 8) _ (crc_matches-Answers s 8 (omega arith)) (λ same.
                bool_Answers same _ _ (_, refl)
                  (if_Answers (ltb (length s) total) _ _ (λ short. (_, refl))
                    (λ there.
                      frame_body-Answers s total headers_length (ground arith) (ground arith))))))

  pub decode_next-Answers : (s : Bytes) → Answers (decode_next crc s)
  unfolding decode_next
  decode_next-Answers s =
      if_Answers (ltb (length s) 12) _ _ (λ short. (_, refl))
        (λ there. then_Answers (read_u32 s 0) _ (read_u32_in s 0 (ground arith)) (λ total.
          then_Answers (read_u32 s 4) _ (read_u32_in s 4 (ground arith))
            (λ headers_length. prelude-Answers s total headers_length (ground arith))))

  -- Whatever bytes were fed, the next frame can be asked for without a panic: no read leaves the buffer,
  -- and the loop over the headers ends.
  pub next_frame-Answers : (d : EventStreamDecoder) → Answers (next_frame crc d)
  unfolding next_frame
  next_frame-Answers d =
      unless_Answers d.poisoned (λ e. (d, err e)) _
        (then_Answers (try_next_frame crc d) _
          (unfold try_next_frame in
            (then_Answers (decode_next crc d.buf) _ (decode_next-Answers d.buf)
              (λ r. (consume d r, refl))))
          (λ r. (poison r, refl)))
