-- ===== src/EventStream/Poison.antt =====
-- A stream that has failed stays failed.
use drgtw.Base.{arith, ℕ, ◌≡◌, inl, inr, Bytes, Option, some, Option-cases}
use drgtw.Base.Results.{Result, ok, err}
use drgtw.EventStream.{
  EventFrame, DecodeError, EventStreamDecoder, feed, poison, try_next_frame, next_frame,
}

poisoned_by :
    (e : DecodeError) (d : EventStreamDecoder)
    → (p : EventStreamDecoder × Result DecodeError (Option EventFrame)) → poison p ≡ (d, err e)
    → d.poisoned ≡ some e
unfolding poison
poisoned_by e d (c, err f) h = ground arith
poisoned_by e d (c, ok frame) h = ground arith

module _ (crc : Bytes → ℕ) where
  failed-poisoned :
      (d d' : EventStreamDecoder) (e : DecodeError)
      → next_frame crc d ≡ some (d', err e)
      → d'.poisoned ≡ some e
  unfolding next_frame
  failed-poisoned d d' e h = elim (Option-cases d.poisoned) [
    | inr (f, dead) ↦ ground arith
    | inl alive ↦ elim (Option-cases (try_next_frame crc d)) [
      | inl stuck ↦ ground arith
      | inr (p, tried) ↦ poisoned_by e d' p (ground arith)
    ]
  ]

  -- Once the decoder has reported an error, it reports that error again and again, whatever is fed to
  -- it, and its buffer is read no more.
  next_frame-poisoned :
      (d d' : EventStreamDecoder) (e : DecodeError) (bytes : Bytes)
      → next_frame crc d ≡ some (d', err e)
      → next_frame crc (feed bytes d') ≡ some (feed bytes d', err e)
  unfolding next_frame feed
  next_frame-poisoned d d' e bytes h = let dead = failed-poisoned d d' e h in ground arith
