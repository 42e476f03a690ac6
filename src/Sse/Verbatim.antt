-- ===== src/Sse/Verbatim.antt =====
-- Events that carry no payload pass through byte by byte (`process_event` in
-- crates/drgtw-proxy/src/sse_restore.rs).
use drgtw.Base.{
  ◌≡◌, refl, sym, ap, ◌∙◌, inl, inr, Bytes, false, Option, none, List, [], ◌∷◌, ◌++◌, All,
  append-nil, Option-cases, Bool-cases,
}
use drgtw.Base.Json.{Value}
use drgtw.Base.Strings.{
  concat, strip_suffix, strip_suffix-eq_some, split_inclusive, concat-split_from,
}
use drgtw.EventStream.Utf8.{from_utf8}
use drgtw.Sse.Framing.{data_payload}
use drgtw.Sse.Transform.{Restoring}
use drgtw.Sse.{
  split_trailing_newline, is_terminator, process_content, process_line, process_lines,
  process_event,
}
use drgtw.Sse.Event.{process_line-split, process_event-plain}

-- A line is its content and its line end.
split-joins :
    (line : Bytes) → (split_trailing_newline line).0 ++ (split_trailing_newline line).1 ≡ line
unfolding split_trailing_newline
split-joins line = elim (Option-cases (strip_suffix (13 ∷ 10 ∷ []) line)) [
  | inr (s, e) ↦ rw (e, split_trailing_newline) (sym (strip_suffix-eq_some (13 ∷ 10 ∷ []) line e))
  | inl e ↦ elim (Option-cases (strip_suffix (10 ∷ []) line)) [
    | inr (s, d) ↦
        rw (e, split_trailing_newline)
          (rw (d, split_trailing_newline) (sym (strip_suffix-eq_some (10 ∷ []) line d)))
    | inl d ↦ rw (e, split_trailing_newline) (rw (d, split_trailing_newline) (append-nil line))
  ]
]

-- A line without a payload: a comment, an `event:` line, a blank line.
abbrev pub HasNoPayload : Bytes → Type 0
HasNoPayload line = data_payload (split_trailing_newline line).0 ≡ none

module _ (from_str : Bytes → Option Value) (to_string : Value → Bytes) where
  process_line-verbatim :
      (line : Bytes) (r : Restoring)
      → HasNoPayload line
      → process_line from_str to_string line r ≡ (r, line)
  unfolding process_content
  process_line-verbatim line r h =
      let (content, newline) = split_trailing_newline line in
      process_line-split from_str to_string line content newline r refl
      ∙ ap (λ o. process_content from_str to_string content newline o r) h
      ∙ (λ i. (r, split-joins line i))

  process_lines-verbatim :
      (ls : List Bytes) (r : Restoring)
      → All HasNoPayload ls
      → process_lines from_str to_string ls r ≡ (r, concat ls)
  unfolding process_lines
  process_lines-verbatim [] r h = refl
  process_lines-verbatim (line ∷ ls) r (h, hs) =
      ap
        (λ (q : Restoring × Bytes). (
          (process_lines from_str to_string ls q.0).0,
          q.1 ++ (process_lines from_str to_string ls q.0).1,
        ))
        (process_line-verbatim line r h)
      ∙ ap (λ (q : Restoring × Bytes). (q.0, line ++ q.1)) (process_lines-verbatim ls r hs)

  process_event-invalid :
      (event : Bytes) (r : Restoring)
      → from_utf8 event ≡ false
      → process_event from_str to_string event r ≡ (r, event)
  unfolding process_event
  process_event-invalid event r u = rw u refl

  -- An event that is no terminator and has no `data:` line is emitted as it is, and changes nothing.
  pub process_event-verbatim :
      (event : Bytes) (r : Restoring)
      → is_terminator from_str r.format event ≡ false
      → All HasNoPayload (split_inclusive event)
      → process_event from_str to_string event r ≡ (r, event)
  unfolding split_inclusive
  process_event-verbatim event r going h = elim (Bool-cases (from_utf8 event)) [
    | inr u ↦ process_event-invalid event r u
    | inl u ↦
        process_event-plain from_str to_string event r u going
        ∙ process_lines-verbatim (split_inclusive event) r h
        ∙ ap (λ out. (r, out)) (concat-split_from [] event)
  ]
