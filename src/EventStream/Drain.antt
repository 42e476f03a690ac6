-- ===== src/EventStream/Drain.antt =====
-- Draining the decoder ends within its fuel.
use drgtw.Base.{
  ℕ, zero, suc, ◌+◌, ◌-◌, ◌≤◌, ◌<◌, ◌≡◌, refl, Bytes, Bool, true, false, ◌||◌, Option, none, some,
  List, [], ◌∷◌, ◌++◌, arith, length, length-drop, ltb, if◌then◌else◌,
}
use drgtw.Base.Results.{Result, ok, err}
use drgtw.EventStream.{
  EventFrame, DecodeError, EventStreamDecoder, min_frame_len, max_frame_len, read_u32, parse_frame,
  crc_matches, frame_body, prelude, decode_next, consume, poison, try_next_frame, next_frame,
  drain_from, drain,
}
use drgtw.EventStream.Safe.{Answers, next_frame-Answers}

abbrev Decoded : Type 0
Decoded = Option (Result DecodeError (Option (EventFrame × ℕ)))

-- A frame takes at least one byte, and it is found only in that many bytes.
abbrev Takes : ℕ → Decoded → Type 0
Takes n none = Unit
Takes n (some (err e)) = Unit
Takes n (some (ok none)) = Unit
Takes n (some (ok (some (frame, total)))) = (0 < total) × (12 ≤ n)

module _ (n : ℕ) where
  then_Takes :
      {A : Type 0} (o : Option A) (k : A → Decoded)
      → ((a : A) → Takes n (k a))
      → Takes n (elim o [ none ↦ none | some a ↦ k a ])
  then_Takes none k h = tt
  then_Takes (some a) k h = h a

  if_Takes :
      (b : Bool) (x y : Decoded)
      → (b ≡ true → Takes n x)
      → (b ≡ false → Takes n y)
      → Takes n (if b then x else y)
  if_Takes true x y p q = p refl
  if_Takes false x y p q = q refl

  bool_Takes :
      (b : Bool) (x y : Decoded) → Takes n x → Takes n y → Takes n (elim b [ false ↦ x | true ↦ y ])
  bool_Takes true x y p q = q
  bool_Takes false x y p q = p

  framed-Takes :
      (total : ℕ) (r : Result DecodeError EventFrame)
      → 0 < total
      → 12 ≤ n
      → Takes n (elim r [ err e ↦ some (err e) | ok frame ↦ some (ok (some (frame, total))) ])
  framed-Takes total (ok frame) h k = (h, k)
  framed-Takes total (err e) h k = tt

module _ (crc : Bytes → ℕ) (s : Bytes) where
  frame_body-Takes :
      (total m : ℕ) → 0 < total → 12 ≤ length s → Takes (length s) (frame_body crc s total m)
  unfolding frame_body
  frame_body-Takes total m h k = then_Takes (length s) (crc_matches crc s (total - 4)) _ (λ same.
      bool_Takes (length s) same _ _ tt (
        then_Takes (length s) (parse_frame s 12 (12 + m) (total - 4)) _
          (λ r. framed-Takes (length s) total r h k)))

  prelude-Takes : (total m : ℕ) → 12 ≤ length s → Takes (length s) (prelude crc s total m)
  unfolding prelude
  prelude-Takes total m k =
      if_Takes (length s) (ltb max_frame_len total) _ _ (λ over. tt)
        (λ fits.
          if_Takes (length s) (ltb total min_frame_len || ltb (total - min_frame_len) m) _ _
            (λ bad. tt)
            (λ good. then_Takes (length s) (crc_matches crc s 8) _ (λ same.
              bool_Takes (length s) same _ _ tt (
                if_Takes (length s) (ltb (length s) total) _ _ (λ short. tt)
                  (λ there. frame_body-Takes total m (ground arith) k)))))

  decode_next-Takes : Takes (length s) (decode_next crc s)
  unfolding decode_next
  decode_next-Takes =
      if_Takes (length s) (ltb (length s) 12) _ _ (λ short. tt)
        (λ there. then_Takes (length s) (read_u32 s 0) _ (λ total.
          then_Takes (length s) (read_u32 s 4) _ (λ m. prelude-Takes total m (ground arith))))

abbrev Stepped : Type 0
Stepped = EventStreamDecoder × Result DecodeError (Option EventFrame)

-- A frame shortens the buffer.
abbrev Shrinks : ℕ → Option Stepped → Type 0
Shrinks n none = Unit
Shrinks n (some (d, err e)) = Unit
Shrinks n (some (d, ok none)) = Unit
Shrinks n (some (d, ok (some frame))) = length d.buf < n

decoded-Shrinks :
    (d : EventStreamDecoder) (o : Decoded)
    → Takes (length d.buf) o
    → Shrinks (length d.buf) (elim o [ none ↦ none | some r ↦ some (consume d r) ])
unfolding consume
decoded-Shrinks d none h = tt
decoded-Shrinks d (some (err e)) h = tt
decoded-Shrinks d (some (ok none)) h = tt
decoded-Shrinks d (some (ok (some (frame, total)))) (h, k) = omega (arith, length-drop total d.buf)

poison-Shrinks :
    (n : ℕ) (o : Option Stepped)
    → Shrinks n o
    → Shrinks n (elim o [ none ↦ none | some r ↦ some (poison r) ])
unfolding poison
poison-Shrinks n none h = tt
poison-Shrinks n (some (d, err e)) h = tt
poison-Shrinks n (some (d, ok none)) h = tt
poison-Shrinks n (some (d, ok (some frame))) h = h

unless-Shrinks :
    (n : ℕ) (o : Option DecodeError) (d : EventStreamDecoder) (y : Option Stepped)
    → Shrinks n y
    → Shrinks n (elim o [ some e ↦ some (d, err e) | none ↦ y ])
unless-Shrinks n none d y h = h
unless-Shrinks n (some e) d y h = tt

abbrev Drained : Type 0
Drained = EventStreamDecoder × Result DecodeError (List EventFrame)

module _ (crc : Bytes → ℕ) where
  next_frame-Shrinks : (d : EventStreamDecoder) → Shrinks (length d.buf) (next_frame crc d)
  unfolding next_frame try_next_frame
  next_frame-Shrinks d = unless-Shrinks (length d.buf) d.poisoned d _ (
      poison-Shrinks (length d.buf) (try_next_frame crc d)
        (decoded-Shrinks d (decode_next crc d.buf) (decode_next-Takes crc d.buf)))

  after_frame :
      (n : ℕ) (o : Option Stepped) (out : List EventFrame)
      (k : EventStreamDecoder → EventFrame → Option Drained)
      → Answers o
      → Shrinks n o
      → ((d : EventStreamDecoder) (frame : EventFrame) → length d.buf < n → Answers (k d frame))
      → Answers {A = Drained} (elim o [
        | none ↦ none
        | some (d, err e) ↦ some (d, err e)
        | some (d, ok none) ↦ some (d, ok out)
        | some (d, ok (some frame)) ↦ k d frame
      ])
  after_frame n none out k (a, e) s h = absurd (cc e)
  after_frame n (some (d, err e)) out k a s h = ((d, err e), refl)
  after_frame n (some (d, ok none)) out k a s h = ((d, ok out), refl)
  after_frame n (some (d, ok (some frame))) out k a s h = h d frame s

  drain_from-Answers :
      (fuel : ℕ) (d : EventStreamDecoder) (out : List EventFrame)
      → length d.buf < fuel
      → Answers (drain_from crc fuel d out)
  unfolding drain_from
  drain_from-Answers zero d out h = absurd (omega (arith, h))
  drain_from-Answers (suc fuel) d out h =
      after_frame (length d.buf) (next_frame crc d) out _ (next_frame-Answers crc d)
        (next_frame-Shrinks d)
        (λ d' frame less. drain_from-Answers fuel d' (out ++ frame ∷ []) (omega (arith, h, less)))

  -- Draining returns, with all frames or with an error, whatever is in the buffer: the loop ends, since
  -- each frame shortens the buffer.
  pub drain-Answers : (d : EventStreamDecoder) → Answers (drain crc d)
  unfolding drain
  drain-Answers d = drain_from-Answers (length d.buf + 1) d [] (omega arith)
