-- ===== src/Sse/Tests.antt =====
-- Concrete runs of the event restorer, and instances of its theorems.
use drgtw.Base.{
  All, ◌≤◌, ◌↔◌, ℕ, ◌≡◌, refl, Bytes, codes, false, Option, none, some, List, [], ◌∷◌, ◌++◌, take,
  drop, strip_prefix, equal, map,
}
use drgtw.Base.Json.{Value, string, array_of, object_of}
use drgtw.Base.Strings.{lines, chomp, split_inclusive, split_from, strip_suffix, trim, concat}
use drgtw.Pii.Stream.{StreamRestorer, from_view}
use drgtw.Sse.Framing.{data_payload, find_event_boundary}
use drgtw.Sse.Framing.Boundary.{find_event_boundary-first, IsEnd}
use drgtw.Sse.Transform.{openai_chat}
use drgtw.Sse.Transform.Content.{content_of}
use drgtw.Sse.Push.{run-concat}
use drgtw.Sse.Restores.{event_of}
use drgtw.Sse.Verbatim.{process_event-verbatim, HasNoPayload}
use drgtw.Sse.{
  SseRestorer, new, push, run, is_terminator, process_event, is_done_event, is_done_line,
  split_trailing_newline,
}

-- A chunk with an assistant's text.
abbrev chunk : Bytes → Value
chunk text = object_of (
    (
      codes "choices",
      array_of
          (object_of ((codes "delta", object_of ((codes "content", string text) ∷ [])) ∷ []) ∷ []),
    )
    ∷ [])

-- A printer and a parser for such chunks.
abbrev print : Value → Bytes
print v = elim (content_of openai_chat v) [ none ↦ codes "null" | some t ↦ codes "c:" ++ t ]

abbrev parse : Bytes → Option Value
parse s = elim (strip_prefix (codes "c:") s) [ none ↦ none | some t ↦ some (chunk t) ]

abbrev email : StreamRestorer
email = from_view ((codes "EMAIL_1", codes "a@b.c") ∷ []) 7

abbrev vs : List Value
vs = chunk (codes "to EMA") ∷ chunk (codes "IL_1 now") ∷ []

abbrev bytes : Bytes
bytes = concat (map (event_of parse print) vs)

run-concat_example :
    run parse print (take 5 bytes ∷ drop 5 bytes ∷ []) (new email openai_chat)
    ≡ run parse print ((take 5 bytes ++ concat (drop 5 bytes ∷ [])) ∷ []) (new email openai_chat)
run-concat_example =
    run-concat parse print (drop 5 bytes ∷ []) (take 5 bytes) (new email openai_chat)

abbrev half_way : SseRestorer
half_way = (push parse print (take 25 bytes) (new email openai_chat)).0

-- A comment and an `event:` line.
abbrev keep_alive : Bytes
keep_alive = codes ": keep-alive" ++ (10 ∷ codes "event: ping") ++ 10 ∷ 10 ∷ []

keep_alive-HasNoPayload :
    (is_terminator parse openai_chat keep_alive ≡ false)
    × All HasNoPayload (split_inclusive keep_alive)
unfolding is_terminator is_done_event is_done_line lines chomp split_inclusive split_from
    strip_suffix strip_prefix data_payload equal trim split_trailing_newline
keep_alive-HasNoPayload = (refl, (refl, (refl, (refl, tt))))

process_event-verbatim_example :
    process_event parse print keep_alive (new email openai_chat).state
    ≡ ((new email openai_chat).state, keep_alive)
unfolding new
process_event-verbatim_example =
    process_event-verbatim parse print keep_alive (new email openai_chat).state
      keep_alive-HasNoPayload.0 keep_alive-HasNoPayload.1

find_event_boundary-first_example :
    (find_event_boundary (codes "a" ++ 10 ∷ 10 ∷ 13 ∷ 10 ∷ 13 ∷ 10 ∷ []) ≡ some 3) ↔ (
      IsEnd (codes "a" ++ 10 ∷ 10 ∷ 13 ∷ 10 ∷ 13 ∷ 10 ∷ []) 3
      × ((m : ℕ) → IsEnd (codes "a" ++ 10 ∷ 10 ∷ 13 ∷ 10 ∷ 13 ∷ 10 ∷ []) m → 3 ≤ m))
find_event_boundary-first_example =
    find_event_boundary-first (codes "a" ++ 10 ∷ 10 ∷ 13 ∷ 10 ∷ 13 ∷ 10 ∷ []) 3

-- What this run answers: the placeholder is restored although no event has the whole of it.
restored : Bytes
restored =
    (run parse print (take 5 bytes ∷ take 20 (drop 5 bytes) ∷ drop 25 bytes ∷ [])
      (new email openai_chat)).1
