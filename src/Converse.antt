-- ===== src/Converse.antt =====
-- The translation of a request from the OpenAI to the Bedrock Converse format (`openai_to_converse` and its
-- helpers in crates/drgtw-proxy/src/converse.rs); the children have the way back. What `json!` makes of the
-- `f64` of a number is an argument.
pub mod Response
pub mod Stream
pub mod Chunks
pub mod Reframe
pub mod Completes
pub mod Reads
pub mod Request
pub mod Reading
pub mod Parts
mod Tests
use drgtw.Base.{
  ℕ, ◌+◌, ◌%◌, ◌^◌, Bytes, codes, Bool, true, false, Option, none, some, List, [], ◌∷◌, ◌++◌, map,
  equal, if◌then◌else◌,
}
use drgtw.Base.Json.{
  Value, Values, Fields, Number, null, bool, number, string, array, object, nil, cons, end, pos_int,
  key, get, as_str, as_u64, as_bool, as_array, str_at, insert_field, fields_of, object_of, array_of,
}
use drgtw.Base.Results.{Result, ok, err}

pub data TranslateError : Type 0 where
  not_an_object missing_model missing_messages : TranslateError
  unsupported_content : Bytes → TranslateError

-- The text of an error.
unfoldable pub translate_error_text : TranslateError → Bytes
translate_error_text not_an_object = codes "request body must be a JSON object"
translate_error_text missing_model = codes "request is missing a string `model` field"
translate_error_text missing_messages = codes "request is missing a `messages` array"
translate_error_text (unsupported_content what) =
    codes "unsupported message content: " ++ (what ++ codes " (text-only this round)")

abbrev pub then_get : {A : Type 0} → (Value → Option A) → Option Value → Option A
then_get f none = none
then_get f (some v) = f v

abbrev pub unwrap_or : {A : Type 0} → A → Option A → A
unwrap_or a none = a
unwrap_or a (some b) = b

-- The request

unfoldable pub json_type_name : Value → Bytes
json_type_name null = codes "null"
json_type_name (bool b) = codes "bool"
json_type_name (number n) = codes "number"
json_type_name (string s) = codes "string"
json_type_name (array vs) = codes "array"
json_type_name (object fs) = codes "object"

-- The parts of an array: each is of type `text`, and one without a text is empty.
unfoldable pub text_parts : Values → Result TranslateError (List Bytes)
unfolding str_at
text_parts nil = ok []
text_parts (cons part parts) =
    let rest = text_parts parts in
    elim (str_at (key (codes "type") ∷ []) part) [
      | none ↦ err (unsupported_content (codes "untyped content part"))
      | some t ↦
          if equal t (codes "text")
          then elim rest [
            | err e ↦ err e
            | ok texts ↦ ok (unwrap_or [] (str_at (key (codes "text") ∷ []) part) ∷ texts)
          ]
          else err (unsupported_content t)
    ]

unfoldable pub extract_text_parts : Option Value → Result TranslateError (List Bytes)
unfolding text_parts json_type_name
extract_text_parts none = ok []
extract_text_parts (some null) = ok []
extract_text_parts (some (string s)) = ok (s ∷ [])
extract_text_parts (some (array parts)) = text_parts parts
extract_text_parts (some other) =
    err (unsupported_content (codes "content of type " ++ json_type_name other))

abbrev pub text_block : Bytes → Value
text_block t = object_of ((codes "text", string t) ∷ [])

abbrev pub converse_message : Bytes → List Bytes → Value
converse_message role texts =
    object_of
      ((codes "role", string role) ∷ (codes "content", array_of (map text_block texts)) ∷ [])

unfoldable pub message_role : Value → Bytes
unfolding str_at
message_role msg = unwrap_or (codes "user") (str_at (key (codes "role") ∷ []) msg)

-- What one message adds to the system blocks and to the messages.
unfoldable pub add_message : Bytes → List Bytes → List Value × List Value → List Value × List Value
add_message role texts (system, messages) =
    if equal role (codes "system")
    then (map text_block texts ++ system, messages)
    else (system, converse_message role texts ∷ messages)

unfoldable pub translate_messages : Values → Result TranslateError (List Value × List Value)
unfolding get extract_text_parts message_role add_message
translate_messages nil = ok ([], [])
translate_messages (cons msg msgs) =
    let rest = translate_messages msgs in
    elim (extract_text_parts (get (key (codes "content")) msg)) [
      | err e ↦ err e
      | ok texts ↦ elim rest [
        | err e ↦ err e
        | ok done ↦ ok (add_message (message_role msg) texts done)
      ]
    ]

-- `filter_map` to the strings of an array.
unfoldable pub only_strings : Values → List Value
only_strings nil = []
only_strings (cons (string s) vs) = string s ∷ only_strings vs
only_strings (cons _ vs) = only_strings vs

abbrev unless_empty : List Value → Option Value
unless_empty [] = none
unless_empty (v ∷ vs) = some (array_of (v ∷ vs))

unfoldable pub stop_sequences : Option Value → Option Value
unfolding only_strings
stop_sequences (some (string s)) = some (array_of (string s ∷ []))
stop_sequences (some (array vs)) = unless_empty (only_strings vs)
stop_sequences _ = none

unfoldable pub insert_some : Bytes → Option Value → Fields → Fields
unfolding insert_field
insert_some k none fs = fs
insert_some k (some v) fs = insert_field k v fs

unfoldable pub or_else : Option ℕ → Option ℕ → Option ℕ
or_else none later = later
or_else (some n) later = some n

unfoldable pub max_tokens : Value → Option ℕ
unfolding get as_u64 or_else
max_tokens body =
    or_else (then_get as_u64 (get (key (codes "max_completion_tokens")) body))
      (then_get as_u64 (get (key (codes "max_tokens")) body))

abbrev pub natural : ℕ → Value
natural n = number (pos_int n)

abbrev natural_of : Option ℕ → Option Value
natural_of none = none
natural_of (some n) = some (natural n)

module _ (float_of : Number → Value) where
  abbrev as_f64 : Value → Option Value
  as_f64 (number n) = some (float_of n)
  as_f64 _ = none

  unfoldable pub inference_config : Value → Fields
  unfolding get insert_some max_tokens stop_sequences
  inference_config body =
      insert_some (codes "stopSequences") (stop_sequences (get (key (codes "stop")) body)) (
        insert_some (codes "topP") (then_get as_f64 (get (key (codes "top_p")) body)) (
          insert_some (codes "temperature") (then_get as_f64 (get (key (codes "temperature")) body))
            (insert_some (codes "maxTokens") (natural_of (max_tokens body)) end)))

  abbrev unless_end : Fields → Option Value
  unless_end end = none
  unless_end fs = some (object fs)

  unfoldable pub converse_body : Value → List Value → List Value → Value
  unfolding inference_config insert_some insert_field
  converse_body body system messages = object (
      insert_some (codes "inferenceConfig") (unless_end (inference_config body)) (
        insert_some (codes "system") (unless_empty system)
          (insert_field (codes "messages") (array_of messages) end)))

  -- The messages of a request that has a model.
  unfoldable pub translate_request :
      Value → Bytes → Option Values → Result TranslateError (Value × Bytes × Bool)
  unfolding translate_messages converse_body get as_bool
  translate_request body model none = err missing_messages
  translate_request body model (some msgs) = elim (translate_messages msgs) [
    | err e ↦ err e
    | ok (system, messages) ↦ ok (
      converse_body body system messages,
      model,
      unwrap_or false (then_get as_bool (get (key (codes "stream")) body)),
    )
  ]

  unfoldable pub openai_to_converse : Value → Result TranslateError (Value × Bytes × Bool)
  unfolding translate_request get as_array as_str
  openai_to_converse (object fs) = elim (then_get as_str (get (key (codes "model")) (object fs))) [
    | none ↦ err missing_model
    | some model ↦
        translate_request (object fs) model
          (then_get as_array (get (key (codes "messages")) (object fs)))
  ]
  openai_to_converse _ = err not_an_object
