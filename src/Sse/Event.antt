-- ===== src/Sse/Event.antt =====
-- One `data:` event with a JSON payload: where it ends, and what the restorer makes of it
-- (`process_event` and the framing helpers in crates/drgtw-proxy/src/sse_restore.rs).
use drgtw.Base.{
  map, subst, Option-cases, ℕ, ◌+◌, ◌≡◌, ◌≢◌, refl, sym, ap, ◌∙◌, inl, inr, Bytes, codes, Bool,
  true, false, Option, none, some, [], ◌∷◌, ◌++◌, arith, All, All-append, append_assoc, append-nil,
  length, length-append, equal, strip_prefix, starts_with, ◌||◌,
}
use drgtw.Base.Json.{Value, key, str_at}
use drgtw.Base.Strings.{
  strip_suffix, strip_suffix-append, strip_suffix-eq_some, split_from, split_inclusive, chomp,
  lines, trim,
}
use drgtw.EventStream.Utf8.{from_utf8}
use drgtw.Sse.Framing.{end_of, earlier, find_event_boundary, data_payload, lf_lf, crlf_crlf}
use drgtw.Sse.Transform.{Restoring, BodyFormat, openai_chat, anthropic_messages, transform, is_str}
use drgtw.Sse.{
  split_trailing_newline, is_done_line, is_done_event, is_stop_line, is_message_stop,
  transform_data_payload, process_content, process_line, process_lines, is_terminator,
  process_event,
}

-- Text without line ends.
abbrev pub IsInline : ℕ → Type 0
IsInline c = (c ≢ 10) × (c ≢ 13)

-- Where the event ends

end_of-crlf : (s : Bytes) → All (λ c. c ≢ 13) s → end_of crlf_crlf s ≡ none
unfolding end_of starts_with strip_prefix
end_of-crlf [] h = refl
end_of-crlf (c ∷ s) (h, hs) = ground (arith, end_of-crlf s hs)

end_of-lf : (l : Bytes) → All IsInline l → end_of lf_lf (l ++ 10 ∷ 10 ∷ []) ≡ some (length l + 2)
unfolding end_of starts_with strip_prefix
end_of-lf [] h = refl
end_of-lf (c ∷ l) ((h, g), hs) = ground (arith, end_of-lf l hs)

no_cr : (l : Bytes) → All IsInline l → All (λ c. c ≢ 13) (l ++ 10 ∷ 10 ∷ [])
no_cr [] h = (omega arith, (omega arith, tt))
no_cr (c ∷ l) ((h, g), hs) = (g, no_cr l hs)

no_cr_one : (l : Bytes) → All IsInline l → All (λ c. c ≢ 13) (l ++ 10 ∷ [])
no_cr_one [] h = (omega arith, tt)
no_cr_one (c ∷ l) ((h, g), hs) = (g, no_cr_one l hs)

pub boundary_of_line :
    (l : Bytes)
    → All IsInline l
    → find_event_boundary (l ++ 10 ∷ 10 ∷ []) ≡ some (length (l ++ 10 ∷ 10 ∷ []))
unfolding find_event_boundary earlier
boundary_of_line l h = rw (end_of-lf l h) (
    rw (end_of-crlf (l ++ 10 ∷ 10 ∷ []) (no_cr l h))
      (ap some (sym (length-append l (10 ∷ 10 ∷ [])))))

-- Its lines

split_line :
    (line l s : Bytes)
    → All IsInline l
    → split_from line (l ++ 10 ∷ s) ≡ (line ++ (l ++ 10 ∷ [])) ∷ split_from [] s
unfolding split_from
split_line line [] s h = refl
split_line line (c ∷ l) s ((h, g), hs) =
    let longer = split_line (line ++ c ∷ []) l s hs in
    ground (arith, longer, append_assoc line (c ∷ []) (l ++ 10 ∷ []))

lines_of :
    (l : Bytes)
    → All IsInline l
    → split_inclusive (l ++ 10 ∷ 10 ∷ []) ≡ (l ++ 10 ∷ []) ∷ (10 ∷ []) ∷ []
unfolding split_inclusive split_from
lines_of l h = split_line [] l (10 ∷ []) h

-- A line feed alone ends the line, since no carriage return stands in it.

no_cr_behind : (r s : Bytes) → All (λ c. c ≢ 13) (r ++ s) → All (λ c. c ≢ 13) s
no_cr_behind [] s h = h
no_cr_behind (x ∷ r) s (h, hs) = no_cr_behind r s hs

no_suffix : (p s : Bytes) → All (λ c. c ≢ 13) s → strip_suffix (13 ∷ p) s ≡ none
no_suffix p s h = elim (Option-cases (strip_suffix (13 ∷ p) s)) [
  | inl e ↦ e
  | inr (r, e) ↦
      (let same = strip_suffix-eq_some (13 ∷ p) s e in
        let (bad, rest) = no_cr_behind r (13 ∷ p) (subst (All (λ c. c ≢ 13)) same h) in
        absurd (bad refl))
]

split_of_line : (l : Bytes) → All IsInline l → split_trailing_newline (l ++ 10 ∷ []) ≡ (l, 10 ∷ [])
unfolding split_trailing_newline
split_of_line l h =
    rw (no_suffix (10 ∷ []) (l ++ 10 ∷ []) (no_cr_one l h), split_trailing_newline)
      (rw (strip_suffix-append (10 ∷ []) l, split_trailing_newline) refl)

no_cr_in : (l : Bytes) → All IsInline l → All (λ c. c ≢ 13) l
no_cr_in [] h = tt
no_cr_in (c ∷ l) ((h, g), hs) = (g, no_cr_in l hs)

chomp_of_line : (l : Bytes) → All IsInline l → chomp (l ++ 10 ∷ []) ≡ l
unfolding chomp
chomp_of_line l h =
    rw (strip_suffix-append (10 ∷ []) l, chomp) (rw (no_suffix [] l (no_cr_in l h), chomp) refl)

-- The event

-- A payload in its event: `data: `, the text, and a blank line.
abbrev pub data_line : Bytes → Bytes
data_line payload = codes "data: " ++ payload

abbrev pub data_event : Bytes → Bytes
data_event payload = data_line payload ++ 10 ∷ 10 ∷ []

data_payload_of : (payload : Bytes) → data_payload (data_line payload) ≡ some payload
unfolding data_payload strip_prefix
data_payload_of payload = refl

pub data_line-IsInline : (payload : Bytes) → All IsInline payload → All IsInline (data_line payload)
data_line-IsInline payload h = All-append IsInline (codes "data: ") payload (omega arith) h

lines_of_event :
    (payload : Bytes)
    → All IsInline payload
    → lines (data_event payload) ≡ data_line payload ∷ [] ∷ []
unfolding lines
lines_of_event payload h =
    let inline = data_line-IsInline payload h in
    ap (map chomp) (lines_of (data_line payload) inline)
    ∙ (λ i. chomp_of_line (data_line payload) inline i ∷ chomp_of_line [] tt i ∷ [])

-- An event that ends the stream of its format.
abbrev pub is_stop : BodyFormat → Value → Bool
is_stop openai_chat v = false
is_stop anthropic_messages v = is_str (codes "message_stop") (str_at (key (codes "type") ∷ []) v)

or_false : (b : Bool) → (b || false) ≡ b
or_false true = refl
or_false false = refl

module _ (from_str : Bytes → Option Value) (to_string : Value → Bytes) where
  pub process_line-split :
      (line content newline : Bytes) (r : Restoring)
      → split_trailing_newline line ≡ (content, newline)
      → process_line from_str to_string line r
        ≡ process_content from_str to_string content newline (data_payload content) r
  unfolding process_line
  process_line-split line content newline r e =
      ap (λ (q : Bytes × Bytes). process_content from_str to_string q.0 q.1 (data_payload q.0) r) e

  process_content-some :
      (content newline payload : Bytes) (r : Restoring)
      → process_content from_str to_string content newline (some payload) r ≡ (
        (transform_data_payload from_str to_string payload r).0,
        codes "data: " ++ ((transform_data_payload from_str to_string payload r).1 ++ newline),
      )
  unfolding process_content
  process_content-some content newline payload r = refl

  process_blank_line : (r : Restoring) → process_line from_str to_string (10 ∷ []) r ≡ (r, 10 ∷ [])
  unfolding process_line split_trailing_newline data_payload strip_prefix strip_suffix equal
  process_blank_line r = refl

  pub process_event-plain :
      (event : Bytes) (r : Restoring)
      → from_utf8 event ≡ true
      → is_terminator from_str r.format event ≡ false
      → process_event from_str to_string event r
        ≡ process_lines from_str to_string (split_inclusive event) r
  unfolding process_event
  process_event-plain event r u h = rw u (rw h refl)

  process_lines-two :
      (a b : Bytes) (r : Restoring)
      → process_lines from_str to_string (a ∷ b ∷ []) r ≡ (
        (process_line from_str to_string b (process_line from_str to_string a r).0).0,
        (process_line from_str to_string a r).1
            ++ (process_line from_str to_string b (process_line from_str to_string a r).0).1,
      )
  unfolding process_lines
  process_lines-two a b r =
      let (r', out) = process_line from_str to_string a r in
      let (r'', more) = process_line from_str to_string b r' in λ i. (r'', out ++ append-nil more i)

  -- What the model relies on when a value is printed as the payload of an event: its text has no line
  -- end, is UTF-8, is not the end marker of OpenAI, and is parsed back.
  pub record IsPrinted (v : Value) : Type 0 where
    pub inline : All IsInline (to_string v)
    pub utf8 : from_utf8 (data_event (to_string v)) ≡ true
    pub not_done : equal (trim (to_string v)) (codes "[DONE]") ≡ false
    pub parsed : from_str (to_string v) ≡ some v

  module _ (v : Value) (p : IsPrinted v) where
    abbrev text : Bytes
    text = to_string v

    done_line : is_done_line (data_line text) ≡ false
    unfolding is_done_line
    done_line = p.not_done

    not_done_event : is_done_event (data_event text) ≡ false
    unfolding is_done_event is_done_line
    not_done_event = rw (lines_of_event text p.inline) (rw p.not_done refl)

    stop_event :
        is_message_stop from_str (data_event text)
        ≡ is_str (codes "message_stop") (str_at (key (codes "type") ∷ []) v)
    unfolding is_message_stop is_stop_line
    stop_event = rw (lines_of_event text p.inline) (rw (p.parsed, is_stop_line) (or_false _))

    terminator : (f : BodyFormat) → is_terminator from_str f (data_event text) ≡ is_stop f v
    unfolding is_terminator
    terminator openai_chat = not_done_event
    terminator anthropic_messages = rw not_done_event stop_event

    -- Its lines, one by one: the payload is replaced by the transformed one.

    transform_data_payload-parsed :
        (r : Restoring)
        → transform_data_payload from_str to_string text r
          ≡ ((transform r v).0, to_string (transform r v).1)
    unfolding transform_data_payload
    transform_data_payload-parsed r = rw (p.parsed, transform_data_payload) refl

    process_data_line :
        (r : Restoring)
        → process_line from_str to_string (data_line text ++ 10 ∷ []) r
          ≡ ((transform r v).0, data_line (to_string (transform r v).1) ++ 10 ∷ [])
    process_data_line r =
        process_line-split (data_line text ++ 10 ∷ []) (data_line text) (10 ∷ []) r
          (split_of_line (data_line text) (data_line-IsInline text p.inline))
        ∙ ap (λ o. process_content from_str to_string (data_line text) (10 ∷ []) o r)
            (data_payload_of text)
        ∙ process_content-some (data_line text) (10 ∷ []) text r
        ∙ ap (λ (q : Restoring × Bytes). (q.0, codes "data: " ++ (q.1 ++ 10 ∷ [])))
            (transform_data_payload-parsed r)

    process_data_lines :
        (r : Restoring)
        → process_lines from_str to_string (split_inclusive (data_event text)) r
          ≡ ((transform r v).0, data_event (to_string (transform r v).1))
    process_data_lines r =
        let r' = (transform r v).0 in
        let payload = to_string (transform r v).1 in
        ap (λ ls. process_lines from_str to_string ls r)
          (lines_of (data_line text) (data_line-IsInline text p.inline))
        ∙ process_lines-two (data_line text ++ 10 ∷ []) (10 ∷ []) r
        ∙ ap
            (λ (q : Restoring × Bytes). (
              (process_line from_str to_string (10 ∷ []) q.0).0,
              q.1 ++ (process_line from_str to_string (10 ∷ []) q.0).1,
            ))
            (process_data_line r)
        ∙ ap (λ (q : Restoring × Bytes). (q.0, (data_line payload ++ 10 ∷ []) ++ q.1))
            (process_blank_line r')
        ∙ (λ i. (r', append_assoc (data_line payload) (10 ∷ []) (10 ∷ []) i))

    -- An event with a payload that does not end the stream becomes the event with the transformed payload.
    pub process_event-transform :
        (r : Restoring)
        → is_stop r.format v ≡ false
        → process_event from_str to_string (data_event text) r
          ≡ ((transform r v).0, data_event (to_string (transform r v).1))
    process_event-transform r h =
        process_event-plain (data_event text) r p.utf8 (terminator r.format ∙ h)
        ∙ process_data_lines r
