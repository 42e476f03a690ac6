-- ===== src/UsageTap/Chunks.antt =====
-- The token counts do not depend on how the stream is cut into chunks (`UsageAccumulator::push` in
-- crates/drgtw-proxy/src/usage_tap.rs).
use drgtw.Base.{
  ℕ, zero, suc, ◌≡◌, refl, sym, ap, ◌∙◌, inl, inr, Bytes, Bool, true, false, Option, none, some,
  List, codes, equal, [], ◌∷◌, ◌++◌, arith, append_assoc, length, take, drop, Bool-cases,
  Option-cases,
}
use drgtw.Base.Json.{Value}
use drgtw.Base.Strings.{trim, lines}
use drgtw.EventStream.Utf8.{from_utf8}
use drgtw.Sse.Framing.{find_event_boundary, data_payload, drain_events}
use drgtw.Sse.Framing.Chunks.{drained, drained-append}
use drgtw.Sse.Transform.{BodyFormat, openai_chat, anthropic_messages}
use drgtw.Events.Extract.{extract_usage_openai}
use drgtw.UsageTap.{
  StreamUsage, UsageAccumulator, set_counts, scan_value, set_first, scan_payload, scan_line,
  scan_lines, scan_event, tap_event, push,
}

-- The time of the first chunk stays, once set.
abbrev HasSameStart : StreamUsage → StreamUsage → Type 0
HasSameStart u u' = u'.first_chunk_at ≡ u.first_chunk_at

set_counts-HasSameStart : (c : Option (ℕ × ℕ)) (u : StreamUsage) → HasSameStart u (set_counts c u)
unfolding set_counts
set_counts-HasSameStart none u = refl
set_counts-HasSameStart (some (i, o)) u = refl

scan_value-HasSameStart :
    (f : BodyFormat) (v : Value) (u : StreamUsage) → HasSameStart u (scan_value f v u)
unfolding scan_value
scan_value-HasSameStart openai_chat v u = set_counts-HasSameStart (extract_usage_openai v) u
scan_value-HasSameStart anthropic_messages v u = refl

abbrev at_start : ℕ → StreamUsage → Option ℕ → StreamUsage
at_start now u o = record u { first_chunk_at = elim o [ none ↦ some now | some t ↦ some t ] }

set_first_again :
    (now : ℕ) (u : StreamUsage) (t : ℕ) → u.first_chunk_at ≡ some t → set_first now u ≡ u
unfolding set_first
set_first_again now u t e =
    ap (at_start now u) e ∙ ap (λ (o : Option ℕ). record u { first_chunk_at = o }) (sym e)

set_first-start :
    (now : ℕ) (u : StreamUsage) → (t : ℕ) × ((set_first now u).first_chunk_at ≡ some t)
unfolding set_first
set_first-start now u = elim (Option-cases u.first_chunk_at) [
  | inl e ↦ (now, ground arith)
  | inr (t, e) ↦ (t, ground arith)
]

module _ (from_str : Bytes → Option Value) (f : BodyFormat) where
  scan_payload-HasSameStart :
      (p : Bytes) (u : StreamUsage) → HasSameStart u (scan_payload from_str f p u)
  unfolding scan_payload
  scan_payload-HasSameStart p u = elim (Bool-cases (equal (trim p) (codes "[DONE]"))) [
    | inl d ↦ rw (d, scan_payload) refl
    | inr d ↦ elim (Option-cases (from_str p)) [
      | inl e ↦ rw (d, scan_payload) (rw (e, scan_payload) refl)
      | inr (v, e) ↦ rw (d, scan_payload) (rw (e, scan_payload) (scan_value-HasSameStart f v u))
    ]
  ]

  scan_line-HasSameStart :
      (line : Bytes) (u : StreamUsage) → HasSameStart u (scan_line from_str f line u)
  unfolding scan_line
  scan_line-HasSameStart line u = elim (Option-cases (data_payload line)) [
    | inl e ↦ rw (e, scan_line) refl
    | inr (p, e) ↦ rw (e, scan_line) (scan_payload-HasSameStart p u)
  ]

  scan_lines-HasSameStart :
      (ls : List Bytes) (u : StreamUsage) → HasSameStart u (scan_lines from_str f ls u)
  unfolding scan_lines
  scan_lines-HasSameStart [] u = refl
  scan_lines-HasSameStart (line ∷ ls) u =
      scan_lines-HasSameStart ls (scan_line from_str f line u) ∙ scan_line-HasSameStart line u

  scan_event-HasSameStart :
      (event : Bytes) (u : StreamUsage) → HasSameStart u (scan_event from_str f event u)
  unfolding scan_event
  scan_event-HasSameStart event u = elim (Bool-cases (from_utf8 event)) [
    | inl e ↦ rw (e, scan_event) (scan_lines-HasSameStart (lines event) u)
    | inr e ↦ rw (e, scan_event) refl
  ]

  abbrev never : StreamUsage → Bool
  never u = false

  drain-HasSameStart :
      (fuel : ℕ) (buf : Bytes) (u : StreamUsage)
      → HasSameStart u (drain_events (tap_event from_str f) never fuel buf u).1
  unfolding drain_events tap_event
  drain-HasSameStart zero buf u = refl
  drain-HasSameStart (suc fuel) buf u = elim (Option-cases (find_event_boundary buf)) [
    | inl e ↦ rw (e, drain_events) refl
    | inr (n, e) ↦
        let u' = scan_event from_str f (take n buf) u in
        rw (e, drain_events)
          (drain-HasSameStart fuel (drop n buf) u' ∙ scan_event-HasSameStart (take n buf) u)
  ]

module _ (from_str : Bytes → Option Value) where
  -- An accumulator with the buffer and the counts of an answer of the loop.
  abbrev with_answer : UsageAccumulator → Bytes × StreamUsage × Bytes → UsageAccumulator
  with_answer acc (rest, u, out) = record acc { buf = rest; usage = u }

  abbrev drain : UsageAccumulator → Bytes → StreamUsage → Bytes × StreamUsage × Bytes
  drain acc = drained (tap_event from_str acc.format) (λ (u : StreamUsage). false)

  push_done :
      (bytes : Bytes) (now : ℕ) (acc : UsageAccumulator)
      → acc.done ≡ true
      → push from_str bytes now acc ≡ acc
  unfolding push
  push_done bytes now acc h = rw h refl

  push_going :
      (bytes : Bytes) (now : ℕ) (acc : UsageAccumulator)
      → acc.done ≡ false
      → push from_str bytes now acc
        ≡ with_answer acc (drain acc (acc.buf ++ bytes) (set_first now acc.usage))
  unfolding push
  push_going bytes now acc h = rw h refl

  -- A chunk that arrives in two parts counts as if it arrived whole, with the first part.
  pub push-append :
      (a b : Bytes) (now later : ℕ) (acc : UsageAccumulator)
      → push from_str b later (push from_str a now acc) ≡ push from_str (a ++ b) now acc
  push-append a b now later acc = elim (Bool-cases acc.done) [
    | inl e ↦
        ap (push from_str b later) (push_done a now acc e)
        ∙ push_done b later acc e
        ∙ sym (push_done (a ++ b) now acc e)
    | inr e ↦
        (let u = set_first now acc.usage in
          let (rest, u', out) = drain acc (acc.buf ++ a) u in
          let (t, start) = set_first-start now acc.usage in
          let same =
            drain-HasSameStart from_str acc.format (length (acc.buf ++ a)) (acc.buf ++ a) u in
          ap (push from_str b later) (push_going a now acc e)
          ∙ push_going b later (record acc { buf = rest; usage = u' }) e
          ∙ ap (λ u''. with_answer acc (drain acc (rest ++ b) u''))
              (set_first_again later u' t (same ∙ start))
          ∙ ap (with_answer acc) (
              sym (
                drained-append (tap_event from_str acc.format) (λ (x : StreamUsage). false)
                  (acc.buf ++ a) b u refl))
          ∙ ap (λ buf. with_answer acc (drain acc buf u)) (append_assoc acc.buf a b)
          ∙ sym (push_going (a ++ b) now acc e))
  ]
