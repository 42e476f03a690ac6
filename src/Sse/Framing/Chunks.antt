-- ===== src/Sse/Framing/Chunks.antt =====
-- How the loop over the complete events depends on the chunks: not at all (`SseRestorer::push` in
-- crates/drgtw-proxy/src/sse_restore.rs, `UsageAccumulator::push` in crates/drgtw-proxy/src/usage_tap.rs).
use drgtw.Base.{
  ℕ, zero, suc, ◌≤◌, ◌≡◌, refl, sym, ap, ◌∙◌, inl, inr, Bytes, Bool, true, false, none, some, [],
  ◌∷◌, ◌++◌, arith, length, take, drop, length-drop, Option-cases, Bool-cases, append_assoc,
  append-nil, if◌then◌else◌,
}
use drgtw.Sse.Framing.{find_event_boundary, drain_events}
use drgtw.Sse.Framing.Boundary.{boundary-bounds}
use drgtw.Sse.Framing.Grows.{boundary-append}

take-append : (n : ℕ) (a t : Bytes) → n ≤ length a → take n (a ++ t) ≡ take n a
take-append zero a t h = refl
take-append (suc n) [] t h = absurd (omega arith)
take-append (suc n) (c ∷ a) t h = ap (λ s. c ∷ s) (take-append n a t (omega arith))

drop-append : (n : ℕ) (a t : Bytes) → n ≤ length a → drop n (a ++ t) ≡ drop n a ++ t
drop-append zero a t h = refl
drop-append (suc n) [] t h = absurd (omega arith)
drop-append (suc n) (c ∷ a) t h = drop-append n a t (omega arith)

take-all : (xs : Bytes) → take (length xs) xs ≡ xs
take-all [] = refl
take-all (x ∷ xs) = ap (λ t. x ∷ t) (take-all xs)

drop-all : (xs : Bytes) → drop (length xs) xs ≡ []
drop-all [] = refl
drop-all (x ∷ xs) = drop-all xs

module _ {S : Type 0} (process : Bytes → S → S × Bytes) (flushed : S → Bool) where
  abbrev pub Answer : Type 0
  Answer = Bytes × S × Bytes

  -- What a round answers that processed an event, from what the rounds after it answer.
  abbrev after_event : Bytes → S × Bytes → Answer → Answer
  after_event rest (s, out) (buf, s', more) =
      if flushed s then ([], s, out ++ rest) else (buf, s', out ++ more)

  drain-none :
      (fuel : ℕ) (buf : Bytes) (s : S)
      → find_event_boundary buf ≡ none
      → drain_events process flushed fuel buf s ≡ (buf, s, [])
  unfolding drain_events
  drain-none zero buf s h = refl
  drain-none (suc fuel) buf s h = rw (h, drain_events) refl

  drain-some :
      (fuel n : ℕ) (buf : Bytes) (s : S)
      → find_event_boundary buf ≡ some n
      → drain_events process flushed (suc fuel) buf s
        ≡ after_event
            (drop n buf)
            (process (take n buf) s)
            (drain_events process flushed fuel (drop n buf) (process (take n buf) s).0)
  unfolding drain_events
  drain-some fuel n buf s h = rw (h, drain_events) refl

  -- The length of the buffer is enough fuel.
  pub drain_events-enough :
      (f g : ℕ) (buf : Bytes) (s : S)
      → length buf ≤ f
      → length buf ≤ g
      → drain_events process flushed f buf s ≡ drain_events process flushed g buf s
  drain_events-enough zero g buf s hf hg = elim (Option-cases (find_event_boundary buf)) [
    | inl e ↦ drain-none zero buf s e ∙ sym (drain-none g buf s e)
    | inr (n, e) ↦ absurd (omega (arith, boundary-bounds buf n e))
  ]
  drain_events-enough (suc f) zero buf s hf hg = elim (Option-cases (find_event_boundary buf)) [
    | inl e ↦ drain-none (suc f) buf s e ∙ sym (drain-none zero buf s e)
    | inr (n, e) ↦ absurd (omega (arith, boundary-bounds buf n e))
  ]
  drain_events-enough (suc f) (suc g) buf s hf hg = elim (Option-cases (find_event_boundary buf)) [
    | inl e ↦ drain-none (suc f) buf s e ∙ sym (drain-none (suc g) buf s e)
    | inr (n, e) ↦
        (let bounds = boundary-bounds buf n e in
          let shorter = length-drop n buf in
          let s' = (process (take n buf) s).0 in
          let rest = drain_events-enough f g (drop n buf) s' (omega arith) (omega arith) in
          drain-some f n buf s e
          ∙ ap (after_event (drop n buf) (process (take n buf) s)) rest
          ∙ sym (drain-some g n buf s e))
  ]

  abbrev pub drained : Bytes → S → Answer
  drained buf s = drain_events process flushed (length buf) buf s

  drained-some :
      (n : ℕ) (buf : Bytes) (s : S)
      → find_event_boundary buf ≡ some n
      → drained buf s
        ≡ after_event
            (drop n buf)
            (process (take n buf) s)
            (drained (drop n buf) (process (take n buf) s).0)
  drained-some n buf s e =
      let bounds = boundary-bounds buf n e in
      let shorter = length-drop n buf in
      drain_events-enough (length buf) (suc (length buf)) buf s (omega arith) (omega arith)
      ∙ drain-some (length buf) n buf s e
      ∙ ap (after_event (drop n buf) (process (take n buf) s)) (
          drain_events-enough (length buf) (length (drop n buf)) (drop n buf)
            (process (take n buf) s).0 (omega arith) (omega arith))

  -- What more bytes answer after an answer: once flushed, the bytes themselves.
  abbrev pub resume : Bytes → Answer → Answer
  resume t (rest, s, out) =
      if flushed s
      then ([], s, out ++ t)
      else (let (rest', s', more) = drained (rest ++ t) s in (rest', s', out ++ more))

  abbrev prepend : Bytes → Answer → Answer
  prepend out (buf, s, more) = (buf, s, out ++ more)

  resume-prepend :
      (t out : Bytes) (later : Answer) → resume t (prepend out later) ≡ prepend out (resume t later)
  resume-prepend t out (rest, s, more) = elim (Bool-cases (flushed s)) [
    | inl e ↦ rw e (λ i. ([], s, append_assoc out more t i))
    | inr e ↦ rw e (λ i. (
      (drained (rest ++ t) s).0,
      (drained (rest ++ t) s).1,
      append_assoc out more (drained (rest ++ t) s).2 i,
    ))
  ]

  resume_after :
      (rest t out : Bytes) (s : S) (later : Answer)
      → (flushed s ≡ false → drained (rest ++ t) s ≡ resume t later)
      → after_event (rest ++ t) (s, out) (drained (rest ++ t) s)
        ≡ resume t (after_event rest (s, out) later)
  resume_after rest t out s later h = elim (Bool-cases (flushed s)) [
    | inl e ↦ rw e (rw e (λ i. ([], s, sym (append_assoc out rest t) i)))
    | inr e ↦ rw e (ap (prepend out) (h e) ∙ sym (resume-prepend t out later))
  ]

  drained-some_more :
      (n : ℕ) (a t : Bytes) (s : S)
      → find_event_boundary a ≡ some n
      → drained (a ++ t) s
        ≡ after_event
            (drop n a ++ t)
            (process (take n a) s)
            (drained (drop n a ++ t) (process (take n a) s).0)
  drained-some_more n a t s e =
      let (low, high) = boundary-bounds a n e in
      rw (sym (take-append n a t high))
        (rw (sym (drop-append n a t high)) (drained-some n (a ++ t) s (boundary-append a t n e)))

  -- Bytes that arrive at once or in two parts, the second by the first's answer, end alike.
  drained-append_fuel :
      (fuel : ℕ) (a t : Bytes) (s : S)
      → length a ≤ fuel
      → flushed s ≡ false
      → drained (a ++ t) s ≡ resume t (drained a s)
  drained-append_fuel zero a t s l h = elim (Option-cases (find_event_boundary a)) [
    | inl e ↦ rw (drain-none (length a) a s e) (rw h refl)
    | inr (n, e) ↦ absurd (omega (arith, boundary-bounds a n e))
  ]
  drained-append_fuel (suc fuel) a t s l h = elim (Option-cases (find_event_boundary a)) [
    | inl e ↦ rw (drain-none (length a) a s e) (rw h refl)
    | inr (n, e) ↦
        (let bounds = boundary-bounds a n e in
          let shorter = length-drop n a in
          let (s', out) = process (take n a) s in
          drained-some_more n a t s e
          ∙ resume_after (drop n a) t out s' (drained (drop n a) s')
              (drained-append_fuel fuel (drop n a) t s' (omega arith))
          ∙ ap (resume t) (sym (drained-some n a s e)))
  ]

  pub drained-append :
      (a t : Bytes) (s : S) → flushed s ≡ false → drained (a ++ t) s ≡ resume t (drained a s)
  drained-append a t s h = drained-append_fuel (length a) a t s (omega arith) h

  -- Nothing stays in the buffer once the state is flushed.
  flushed_fuel :
      (fuel : ℕ) (buf : Bytes) (s : S)
      → flushed s ≡ false
      → flushed (drain_events process flushed fuel buf s).1 ≡ true
      → (drain_events process flushed fuel buf s).0 ≡ []
  unfolding drain_events
  flushed_fuel zero buf s h = λ g. absurd (cc (h, g))
  flushed_fuel (suc fuel) buf s h = elim (Option-cases (find_event_boundary buf)) [
    | inl e ↦ rw (drain-none (suc fuel) buf s e) (λ g. absurd (cc (h, g)))
    | inr (n, e) ↦ elim (Bool-cases (flushed (process (take n buf) s).0)) [
      | inl f ↦ rw (drain-some fuel n buf s e) (rw f (λ g. refl))
      | inr f ↦
          rw (drain-some fuel n buf s e)
            (rw f (flushed_fuel fuel (drop n buf) (process (take n buf) s).0 f))
    ]
  ]

  pub drained-flushed :
      (buf : Bytes) (s : S)
      → flushed s ≡ false
      → flushed (drained buf s).1 ≡ true
      → (drained buf s).0 ≡ []
  drained-flushed buf s h g = flushed_fuel (length buf) buf s h g

  -- A buffer that is one event.
  pub drained-whole :
      (event out : Bytes) (s s' : S)
      → find_event_boundary event ≡ some (length event)
      → process event s ≡ (s', out)
      → flushed s' ≡ false
      → drained event s ≡ ([], s', out)
  unfolding drain_events
  drained-whole event out s s' whole e going =
      drained-some (length event) event s whole
      ∙ ap
          (λ b.
            after_event (drop (length event) event) (process b s)
              (drained (drop (length event) event) (process b s).0))
          (take-all event)
      ∙ ap (λ b. after_event b (process event s) (drained b (process event s).0)) (drop-all event)
      ∙ ap (λ (q : S × Bytes). after_event [] q (drained [] q.0)) e
      ∙ rw going (λ i. ([], s', append-nil out i))
