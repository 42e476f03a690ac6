-- ===== src/Converse/Tests.antt =====
-- Concrete runs of the Converse translation, and instances of its theorems. The checksum and the printer are
-- constants.
use drgtw.Base.{
  ℕ, ◌+◌, ◌≡◌, refl, map, length, Bytes, codes, Bool, true, false, Option, none, some, List, [],
  ◌∷◌, ◌++◌,
}
use drgtw.Base.Json.{
  Value, Values, Fields, Number, null, bool, number, pos_int, string, object, cons, nil, end, key,
  get, str_at, fields_of, array_of, object_of,
}
use drgtw.Base.Results.{Result, ok}
use drgtw.Base.Strings.{concat}
use drgtw.Events.Extract.{extract_usage_openai}
use drgtw.Converse.{TranslateError, natural, text_block, converse_message, openai_to_converse}
use drgtw.Converse.Response.{converse_to_openai}
use drgtw.Converse.Stream.{StreamXlateState, done_block, sse_block, converse_event_to_sse}
use drgtw.Converse.Chunks.{blocks}
use drgtw.Converse.Reads.{usage-reads}
use drgtw.Converse.Reframe.{init, received, collect}
use drgtw.Converse.Completes.{reframe-Completes}
use drgtw.Converse.Request.{Message}
use drgtw.Converse.Reading.{MessagesRead}
use drgtw.Converse.Parts.{Translates, openai_to_converse-parts}

abbrev no_sum : Bytes → ℕ
no_sum s = 0

abbrev braces : Value → Bytes
braces v = codes "{}"

abbrev no_json : Bytes → Option Value
no_json s = none

abbrev as_is : Number → Value
as_is n = number n

-- A frame of the type `metadata`.
abbrev metadata_frame : Bytes
metadata_frame =
    (0 ∷ 0 ∷ 0 ∷ 41 ∷ 0 ∷ 0 ∷ 0 ∷ 23 ∷ 0 ∷ 0 ∷ 0 ∷ 0 ∷ 11 ∷ [])
    ++ (codes ":event-type" ++ ((7 ∷ 0 ∷ 8 ∷ []) ++ (codes "metadata{}" ++ (0 ∷ 0 ∷ 0 ∷ 0 ∷ []))))

metadata_ends :
    collect no_json braces no_sum (codes "m") 3 (init (codes "id") 7) (received metadata_frame ∷ [])
    ≡ some (some (codes "data: {}\n\ndata: [DONE]\n\n") ∷ [])
unfolding collect init
metadata_ends = refl

reframe-Completes_example :
    (outs : List Bytes) × (vs : List Value) × (collect no_json braces no_sum
        (codes "m")
        (length (metadata_frame ∷ []) + 2)
        (init (codes "id") 7)
        (map received (metadata_frame ∷ []))
      ≡ some (map some outs))
    × (concat outs ≡ blocks braces vs ++ done_block)
reframe-Completes_example =
    reframe-Completes no_json braces no_sum (codes "m") (codes "id") 7 (metadata_frame ∷ [])

abbrev message : Bytes → Bytes → Value
message role text = object_of ((codes "role", string role) ∷ (codes "content", string text) ∷ [])

abbrev request : Fields
request =
    fields_of
      ((codes "model", string (codes "m"))
        ∷ (codes "user", string (codes "u"))
        ∷ (
          codes "messages",
          array_of (
              message (codes "user") (codes "hi")
              ∷ message (codes "system") (codes "be kind")
              ∷ []),
        )
        ∷ [])
      end

abbrev translated : Result TranslateError (Value × Bytes × Bool)
translated = ok (
  object_of (
      (codes "messages", array_of (converse_message (codes "user") (codes "hi" ∷ []) ∷ []))
      ∷ (codes "system", array_of (text_block (codes "be kind") ∷ []))
      ∷ []),
  codes "m",
  false,
)

request_is_translated : openai_to_converse as_is (object request) ≡ translated
unfolding openai_to_converse fields_of drgtw.Base.equal
request_is_translated = refl

abbrev messages : Values
messages =
    cons (message (codes "user") (codes "hi"))
      (cons (message (codes "system") (codes "be kind")) nil)

openai_to_converse-parts_example :
    (r : Result TranslateError (List Message)) × MessagesRead messages r
    × Translates request (codes "m") r (openai_to_converse as_is (object request))
unfolding drgtw.Base.Json.get drgtw.Base.equal fields_of drgtw.Base.Json.as_str
    drgtw.Base.Json.as_array
openai_to_converse-parts_example =
    openai_to_converse-parts as_is request (codes "m") messages refl refl

abbrev fresh : StreamXlateState
fresh = record { id = codes "id"; created = 7; finish_reason = none; is_done = false }

abbrev counts : Fields
counts = fields_of ((codes "inputTokens", natural 5) ∷ (codes "outputTokens", natural 2) ∷ []) end

abbrev response : Value
response = object_of ((codes "usage", object counts) ∷ [])

usage-reads_example :
    (extract_usage_openai (converse_to_openai (codes "id") 7 response (codes "m")) ≡ some (5, 2))
    × ((v : Value) × (converse_event_to_sse braces (codes "metadata") response (codes "m") fresh
          ≡ (record fresh { is_done = true }, sse_block braces v ++ done_block))
        × (extract_usage_openai v ≡ some (5, 2)))
unfolding drgtw.Base.Json.get drgtw.Base.equal fields_of drgtw.Base.Json.as_u64
usage-reads_example =
    usage-reads braces response counts 5 2 7 (codes "id") (codes "m") fresh refl refl refl refl
