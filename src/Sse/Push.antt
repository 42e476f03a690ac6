-- ===== src/Sse/Push.antt =====
-- The answer to a response does not depend on its chunks, and after the end nothing is added (`push` and
-- `finish` in crates/drgtw-proxy/src/sse_restore.rs).
use drgtw.Base.{
  ◌≡◌, refl, sym, ap, ◌∙◌, inl, inr, Bytes, Bool, true, false, Option, List, [], ◌∷◌, ◌++◌, arith,
  append_assoc, append-nil, Bool-cases,
}
use drgtw.Base.Json.{Value}
use drgtw.Base.Strings.{concat}
use drgtw.Sse.Transform.{Restoring}
use drgtw.Sse.Framing.Chunks.{drained-append, drained-flushed, drained, resume}
use drgtw.Sse.{
  SseRestorer, process_event, push, finish, run, flush_at_end, set_flushed, process_leftover,
}

abbrev pub is_flushed : Restoring → Bool
is_flushed s = s.flushed

abbrev pub as_push : Bytes × Restoring × Bytes → SseRestorer × Bytes
as_push (rest, s, out) = (record { buf = rest; state = s }, out)

module _ (from_str : Bytes → Option Value) (to_string : Value → Bytes) where
  abbrev after : Bytes → SseRestorer × Bytes → SseRestorer × Bytes
  after b (r, out) = ((push from_str to_string b r).0, out ++ (push from_str to_string b r).1)

  abbrev pub drain : Bytes → Restoring → Bytes × Restoring × Bytes
  drain = drained (process_event from_str to_string) is_flushed

  push_flushed :
      (chunk : Bytes) (r : SseRestorer)
      → r.state.flushed ≡ true
      → push from_str to_string chunk r ≡ (r, chunk)
  unfolding push
  push_flushed chunk r h = rw h refl

  pub push_going :
      (chunk : Bytes) (r : SseRestorer)
      → r.state.flushed ≡ false
      → push from_str to_string chunk r ≡ as_push (drain (r.buf ++ chunk) r.state)
  unfolding push
  push_going chunk r h = rw h refl

  abbrev more : Bytes → Bytes × Restoring × Bytes → Bytes × Restoring × Bytes
  more = resume (process_event from_str to_string) is_flushed

  after-as_push :
      (b : Bytes) (answer : Bytes × Restoring × Bytes)
      → (is_flushed answer.1 ≡ true → answer.0 ≡ [])
      → after b (as_push answer) ≡ as_push (more b answer)
  after-as_push b (rest, s, out) h = elim (Bool-cases s.flushed) [
    | inl e ↦ rw (push_flushed b (record { buf = rest; state = s }) e) (rw e (rw (h e) refl))
    | inr e ↦ rw (push_going b (record { buf = rest; state = s }) e) (rw e refl)
  ]

  -- Pushing two chunks, one after the other, is pushing both at once.
  pub push-append :
      (a b : Bytes) (r : SseRestorer)
      → push from_str to_string (a ++ b) r ≡ after b (push from_str to_string a r)
  push-append a b r = elim (Bool-cases r.state.flushed) [
    | inl e ↦ rw (push_flushed a r e) (rw (push_flushed b r e) (push_flushed (a ++ b) r e))
    | inr e ↦
        push_going (a ++ b) r e
        ∙ rw (sym (append_assoc r.buf a b)) (
            ap as_push (
              drained-append (process_event from_str to_string) is_flushed (r.buf ++ a) b r.state
                e))
        ∙ sym (
            after-as_push b (drain (r.buf ++ a) r.state) (
              drained-flushed (process_event from_str to_string) is_flushed (r.buf ++ a) r.state e))
        ∙ sym (ap (after b) (push_going a r e))
  ]

  run_two :
      (a b : Bytes) (chunks : List Bytes) (r : SseRestorer)
      → run from_str to_string (a ∷ b ∷ chunks) r ≡ run from_str to_string ((a ++ b) ∷ chunks) r
  unfolding run
  run_two a b chunks r = rw (push-append a b r) (
      let (r1, out1) = push from_str to_string a r in
      let (r2, out2) = push from_str to_string b r1 in
      let (r3, out3) = run from_str to_string chunks r2 in
      λ i. (r3, sym (append_assoc out1 out2 out3) i))

  -- A response is answered as if all of it arrived in one chunk.
  pub run-concat :
      (chunks : List Bytes) (c : Bytes) (r : SseRestorer)
      → run from_str to_string (c ∷ chunks) r ≡ run from_str to_string ((c ++ concat chunks) ∷ []) r
  run-concat [] c r = ap (λ s. run from_str to_string (s ∷ []) r) (sym (append-nil c))
  run-concat (d ∷ chunks) c r =
      run_two c d chunks r
      ∙ run-concat chunks (c ++ d) r
      ∙ ap (λ s. run from_str to_string (s ∷ []) r) (append_assoc c d (concat chunks))

  -- The end

  flush_at_end-flushed : (s : Restoring) → (flush_at_end from_str to_string s).0.flushed ≡ true
  unfolding flush_at_end set_flushed
  flush_at_end-flushed s = ground arith

  finish-flushed : (r : SseRestorer) → (finish from_str to_string r).0.state.flushed ≡ true
  unfolding finish
  finish-flushed r =
      ground (arith, flush_at_end-flushed (process_leftover from_str to_string r.buf r.state).0)

  finish_flushed :
      (r : SseRestorer) → r.state.flushed ≡ true → finish from_str to_string r ≡ (r, [])
  unfolding finish
  finish_flushed r h = rw h refl

  -- Once a response has ended, a further end adds nothing, and a further chunk is relayed as it is.
  finish_once :
      (r : SseRestorer) (chunk : Bytes)
      → (finish from_str to_string (finish from_str to_string r).0
          ≡ ((finish from_str to_string r).0, []))
        × (push from_str to_string chunk (finish from_str to_string r).0
            ≡ ((finish from_str to_string r).0, chunk))
  finish_once r chunk =
      let r' = (finish from_str to_string r).0 in
      (finish_flushed r' (finish-flushed r), push_flushed chunk r' (finish-flushed r))
