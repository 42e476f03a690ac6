-- ===== src/Converse/Response.antt =====
-- A response of Converse as one of OpenAI (`converse_to_openai` and its helpers in
-- crates/drgtw-proxy/src/converse.rs).
use drgtw.Base.{
  ℕ, ◌+◌, ◌%◌, ◌^◌, Bytes, codes, Option, none, some, [], ◌∷◌, ◌++◌, equal, if◌then◌else◌,
}
use drgtw.Base.Json.{
  Value, Values, null, bool, number, string, array, object, nil, cons, end, key, get, as_u64,
  as_array, str_at, fields_of, object_of, array_of,
}
use drgtw.Converse.{then_get, unwrap_or, or_else, natural, insert_some}

unfoldable pub block_texts : Values → Bytes
unfolding str_at
block_texts nil = []
block_texts (cons block blocks) =
    unwrap_or [] (str_at (key (codes "text") ∷ []) block) ++ block_texts blocks

unfoldable pub concat_output_text : Value → Bytes
unfolding get as_array block_texts
concat_output_text converse =
    elim (then_get as_array (
      then_get (get (key (codes "content")))
        (then_get (get (key (codes "message"))) (get (key (codes "output")) converse)))) [
          | none ↦ []
          | some blocks ↦ block_texts blocks
        ]

-- The sum of two `u64`, as it wraps in a release build.
abbrev sum : Option ℕ → Option ℕ → Option ℕ
sum (some i) (some o) = some ((i + o) % 2 ^ 64)
sum _ _ = none

unfoldable pub rename_usage : Value → Value
unfolding get as_u64 or_else
rename_usage usage =
    let input = then_get as_u64 (get (key (codes "inputTokens")) usage) in
    let output = then_get as_u64 (get (key (codes "outputTokens")) usage) in
    let total =
      or_else (then_get as_u64 (get (key (codes "totalTokens")) usage)) (sum input output) in
    object_of (
      (codes "prompt_tokens", natural (unwrap_or 0 input))
      ∷ (codes "completion_tokens", natural (unwrap_or 0 output))
      ∷ (codes "total_tokens", natural (unwrap_or 0 total))
      ∷ [])

-- `usage`, if it is an object.
unfoldable pub usage_of : Value → Option Value
unfolding get rename_usage
usage_of body = elim (get (key (codes "usage")) body) [
  | none ↦ none
  | some usage ↦ elim usage [
    | object fs ↦ some (rename_usage (object fs))
    | null ↦ none
    | bool b ↦ none
    | number n ↦ none
    | string s ↦ none
    | array vs ↦ none
  ]
]

unfoldable pub finish_reason_of : Bytes → Bytes
unfolding equal
finish_reason_of reason =
    if equal reason (codes "max_tokens")
    then codes "length"
    else if equal reason (codes "model_context_window_exceeded")
    then codes "length"
    else if equal reason (codes "tool_use")
    then codes "tool_calls"
    else if equal reason (codes "malformed_tool_use")
    then codes "tool_calls"
    else if equal reason (codes "content_filtered")
    then codes "content_filter"
    else if equal reason (codes "guardrail_intervened")
    then codes "content_filter"
    else codes "stop"

unfoldable pub map_finish_reason : Option Bytes → Bytes
unfolding finish_reason_of
map_finish_reason none = codes "stop"
map_finish_reason (some reason) = finish_reason_of reason

unfoldable pub converse_to_openai : Bytes → ℕ → Value → Bytes → Value
unfolding concat_output_text map_finish_reason str_at usage_of insert_some
converse_to_openai id created converse model = object (
    insert_some (codes "usage") (usage_of converse) (
      fields_of
        ((codes "id", string id)
          ∷ (codes "object", string (codes "chat.completion"))
          ∷ (codes "created", natural created)
          ∷ (codes "model", string model)
          ∷ (
            codes "choices",
            array_of (
                object_of (
                  (codes "index", natural 0)
                  ∷ (
                    codes "message",
                    object_of (
                        (codes "role", string (codes "assistant"))
                        ∷ (codes "content", string (concat_output_text converse))
                        ∷ []),
                  )
                  ∷ (
                    codes "finish_reason",
                    string (map_finish_reason (str_at (key (codes "stopReason") ∷ []) converse)),
                  )
                  ∷ [])
                ∷ []),
          )
          ∷ [])
        end))
