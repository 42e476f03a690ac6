-- ===== src/Pii/Body.antt =====
-- Which texts of a chat body are scanned and rewritten (crates/drgtw-pii/src/body.rs). A value that the code
-- changes in place is a value that comes back; `none` is a panic of the rewriting of a text.
pub mod Texts
pub mod Walks
pub mod Contents
pub mod Requests
pub mod Fallible
pub mod Agrees
pub mod Plain
mod Tests
use drgtw.Base.{
  Bytes, codes, Bool, true, false, Option, none, some, List, [], ◌∷◌, equal, if◌then◌else◌,
}
use drgtw.Base.Json.{Value, Values, string, array, nil, cons, key, get, set, str_at}
use drgtw.Pii.Engine.{PiiEngine, scan_for_role}
use drgtw.Pii.EntityMap.{EntityMap, DetectError, pseudonymize}

pub data BodyFormat : Type 0 where
  openai_chat anthropic_messages : BodyFormat

-- The test of `type` against a word.
unfoldable pub has_type : Bytes → Value → Bool
unfolding str_at equal
has_type word v = elim (str_at (key (codes "type") ∷ []) v) [ none ↦ false | some t ↦ equal t word ]

unfoldable pub message_role : Value → Option Bytes
unfolding str_at
message_role msg = str_at (key (codes "role") ∷ []) msg

-- The walk, with the rewriting of one text for a role as a parameter, over the state that it changes.
module _ {M : Type 0} where
  unfoldable pub each : (M → Value → Option (M × Value)) → M → Values → Option (M × Values)
  each f m nil = some (m, nil)
  each f m (cons v vs) = elim (f m v) [
    | none ↦ none
    | some (m', v') ↦ elim (each f m' vs) [
      | none ↦ none
      | some (m'', vs') ↦ some (m'', cons v' vs')
    ]
  ]

  -- `as_array_mut`: each element of an array; any other value stays.
  unfoldable pub on_array : (M → Value → Option (M × Value)) → M → Value → Option (M × Value)
  unfolding each
  on_array f m (array vs) = elim (each f m vs) [
    | none ↦ none
    | some (m', vs') ↦ some (m', array vs')
  ]
  on_array f m v = some (m, v)

  -- `get_mut` of a key, if it is there.
  unfoldable pub on_field :
      Bytes → (M → Value → Option (M × Value)) → M → Value → Option (M × Value)
  unfolding get set
  on_field k f m v = elim (get (key k) v) [
    | none ↦ some (m, v)
    | some w ↦ elim (f m w) [ none ↦ none | some (m', w') ↦ some (m', set (key k) w' v) ]
  ]

  module _ (rewrite : Bytes → Option Bytes → M → Option (M × Bytes)) where
    unfoldable pub rewrite_string_value : Option Bytes → M → Value → Option (M × Value)
    rewrite_string_value role m (string s) = elim (rewrite s role m) [
      | none ↦ none
      | some (m', t) ↦ some (m', string t)
    ]
    rewrite_string_value role m v = some (m, v)

    -- A part or block of type `text`.
    unfoldable pub rewrite_text_block : Option Bytes → M → Value → Option (M × Value)
    unfolding has_type on_field rewrite_string_value
    rewrite_text_block role m block =
        if has_type (codes "text") block
        then on_field (codes "text") (rewrite_string_value role) m block
        else some (m, block)

    unfoldable pub rewrite_openai_content : Option Bytes → M → Value → Option (M × Value)
    unfolding rewrite_string_value on_array rewrite_text_block
    rewrite_openai_content role m (string s) = rewrite_string_value role m (string s)
    rewrite_openai_content role m content = on_array (rewrite_text_block role) m content

    unfoldable pub rewrite_openai_message : M → Value → Option (M × Value)
    unfolding message_role on_field rewrite_openai_content
    rewrite_openai_message m msg =
        on_field (codes "content") (rewrite_openai_content (message_role msg)) m msg

    unfoldable pub pseudonymize_openai_request : M → Value → Option (M × Value)
    unfolding on_field on_array rewrite_openai_message
    pseudonymize_openai_request m body =
        on_field (codes "messages") (on_array rewrite_openai_message) m body

    unfoldable pub rewrite_anthropic_text_field : Option Bytes → M → Value → Option (M × Value)
    unfolding rewrite_string_value on_array rewrite_text_block
    rewrite_anthropic_text_field role m (string s) = rewrite_string_value role m (string s)
    rewrite_anthropic_text_field role m value = on_array (rewrite_text_block role) m value

    -- A `text` block, or the content of a `tool_result` block.
    unfoldable pub rewrite_anthropic_block : Option Bytes → M → Value → Option (M × Value)
    unfolding has_type on_field rewrite_string_value rewrite_anthropic_text_field
    rewrite_anthropic_block role m block =
        if has_type (codes "text") block
        then on_field (codes "text") (rewrite_string_value role) m block
        else if has_type (codes "tool_result") block
        then on_field (codes "content") (rewrite_anthropic_text_field role) m block
        else some (m, block)

    unfoldable pub rewrite_anthropic_content : Option Bytes → M → Value → Option (M × Value)
    unfolding rewrite_string_value on_array rewrite_anthropic_block
    rewrite_anthropic_content role m (string s) = rewrite_string_value role m (string s)
    rewrite_anthropic_content role m content = on_array (rewrite_anthropic_block role) m content

    unfoldable pub rewrite_anthropic_message : M → Value → Option (M × Value)
    unfolding message_role on_field rewrite_anthropic_content
    rewrite_anthropic_message m msg =
        on_field (codes "content") (rewrite_anthropic_content (message_role msg)) m msg

    unfoldable pub pseudonymize_anthropic_request : M → Value → Option (M × Value)
    unfolding on_field on_array rewrite_anthropic_text_field rewrite_anthropic_message
    pseudonymize_anthropic_request m body =
        elim (on_field (codes "system") (rewrite_anthropic_text_field (some (codes "system"))) m
          body) [
            | none ↦ none
            | some (m', body') ↦
                on_field (codes "messages") (on_array rewrite_anthropic_message) m' body'
          ]

    -- `pseudonymize_body` with the rewriting of a text as a parameter.
    unfoldable pub rewrite_body : BodyFormat → M → Value → Option (M × Value)
    unfolding pseudonymize_openai_request pseudonymize_anthropic_request
    rewrite_body openai_chat m body = pseudonymize_openai_request m body
    rewrite_body anthropic_messages m body = pseudonymize_anthropic_request m body

module _ {S : Type 0} (to_uppercase : Bytes → Bytes) (engine : PiiEngine DetectError) where
  unfoldable pub scan_and_rewrite :
      Bytes → Option Bytes → EntityMap S → Option (EntityMap S × Bytes)
  unfolding pseudonymize scan_for_role
  scan_and_rewrite text role m = pseudonymize to_uppercase text (scan_for_role engine text role) m

  unfoldable pub pseudonymize_body : BodyFormat → EntityMap S → Value → Option (EntityMap S × Value)
  unfolding rewrite_body scan_and_rewrite
  pseudonymize_body format m body = rewrite_body scan_and_rewrite format m body
