-- ===== src/Pii/Body/Fallible.antt =====
-- The walk that reports the first error (`try_pseudonymize_body` and its helpers in
-- crates/drgtw-pii/src/body.rs). It stops there, with what it has rewritten by then; the outer `none` is a
-- panic of the rewriting of a text.
use drgtw.Base.{Bytes, codes, Option, none, some, if◌then◌else◌}
use drgtw.Base.Json.{Value, Values, string, array, nil, cons, key, get, set}
use drgtw.Base.Results.{Result, ok, err}
use drgtw.Pii.Engine.{PiiEngine, try_scan_for_role}
use drgtw.Pii.EntityMap.{EntityMap, DetectError, try_pseudonymize}
use drgtw.Pii.Body.{BodyFormat, openai_chat, anthropic_messages, has_type, message_role}

-- The state, the value as it is then, and the error.
abbrev pub Tried : Type 0 → Type 0 → Type 0
Tried M A = Option (M × A × Option DetectError)

module _ {M : Type 0} where
  unfoldable pub try_each : (M → Value → Tried M Value) → M → Values → Tried M Values
  try_each f m nil = some (m, nil, none)
  try_each f m (cons v vs) = elim (f m v) [
    | none ↦ none
    | some (m', v', some e) ↦ some (m', cons v' vs, some e)
    | some (m', v', none) ↦ elim (try_each f m' vs) [
      | none ↦ none
      | some (m'', vs', r) ↦ some (m'', cons v' vs', r)
    ]
  ]

  unfoldable pub try_on_array : (M → Value → Tried M Value) → M → Value → Tried M Value
  unfolding try_each
  try_on_array f m (array vs) = elim (try_each f m vs) [
    | none ↦ none
    | some (m', vs', r) ↦ some (m', array vs', r)
  ]
  try_on_array f m v = some (m, v, none)

  unfoldable pub try_on_field : Bytes → (M → Value → Tried M Value) → M → Value → Tried M Value
  unfolding get set
  try_on_field k f m v = elim (get (key k) v) [
    | none ↦ some (m, v, none)
    | some w ↦ elim (f m w) [ none ↦ none | some (m', w', r) ↦ some (m', set (key k) w' v, r) ]
  ]

  -- A value that is not rewritten if the text has an error.
  unfoldable pub rewritten : Option (M × Result DetectError Bytes) → Bytes → Tried M Value
  rewritten none s = none
  rewritten (some (m, ok t)) s = some (m, string t, none)
  rewritten (some (m, err e)) s = some (m, string s, some e)

  module _ (rewrite : Bytes → Option Bytes → M → Option (M × Result DetectError Bytes)) where
    unfoldable pub try_rewrite_string_value : Option Bytes → M → Value → Tried M Value
    unfolding rewritten
    try_rewrite_string_value role m (string s) = rewritten (rewrite s role m) s
    try_rewrite_string_value role m v = some (m, v, none)

    unfoldable pub try_rewrite_text_block : Option Bytes → M → Value → Tried M Value
    unfolding has_type try_on_field try_rewrite_string_value
    try_rewrite_text_block role m block =
        if has_type (codes "text") block
        then try_on_field (codes "text") (try_rewrite_string_value role) m block
        else some (m, block, none)

    unfoldable pub try_rewrite_openai_content : Option Bytes → M → Value → Tried M Value
    unfolding try_rewrite_string_value try_on_array try_rewrite_text_block
    try_rewrite_openai_content role m (string s) = try_rewrite_string_value role m (string s)
    try_rewrite_openai_content role m content = try_on_array (try_rewrite_text_block role) m content

    unfoldable pub try_rewrite_openai_message : M → Value → Tried M Value
    unfolding message_role try_on_field try_rewrite_openai_content
    try_rewrite_openai_message m msg =
        try_on_field (codes "content") (try_rewrite_openai_content (message_role msg)) m msg

    unfoldable pub try_pseudonymize_openai_request : M → Value → Tried M Value
    unfolding try_on_field try_on_array try_rewrite_openai_message
    try_pseudonymize_openai_request m body =
        try_on_field (codes "messages") (try_on_array try_rewrite_openai_message) m body

    unfoldable pub try_rewrite_anthropic_text_field : Option Bytes → M → Value → Tried M Value
    unfolding try_rewrite_string_value try_on_array try_rewrite_text_block
    try_rewrite_anthropic_text_field role m (string s) = try_rewrite_string_value role m (string s)
    try_rewrite_anthropic_text_field role m value =
        try_on_array (try_rewrite_text_block role) m value

    unfoldable pub try_rewrite_anthropic_block : Option Bytes → M → Value → Tried M Value
    unfolding has_type try_on_field try_rewrite_string_value try_rewrite_anthropic_text_field
    try_rewrite_anthropic_block role m block =
        if has_type (codes "text") block
        then try_on_field (codes "text") (try_rewrite_string_value role) m block
        else if has_type (codes "tool_result") block
        then try_on_field (codes "content") (try_rewrite_anthropic_text_field role) m block
        else some (m, block, none)

    unfoldable pub try_rewrite_anthropic_content : Option Bytes → M → Value → Tried M Value
    unfolding try_rewrite_string_value try_on_array try_rewrite_anthropic_block
    try_rewrite_anthropic_content role m (string s) = try_rewrite_string_value role m (string s)
    try_rewrite_anthropic_content role m content =
        try_on_array (try_rewrite_anthropic_block role) m content

    unfoldable pub try_rewrite_anthropic_message : M → Value → Tried M Value
    unfolding message_role try_on_field try_rewrite_anthropic_content
    try_rewrite_anthropic_message m msg =
        try_on_field (codes "content") (try_rewrite_anthropic_content (message_role msg)) m msg

    unfoldable pub try_pseudonymize_anthropic_request : M → Value → Tried M Value
    unfolding try_on_field try_on_array try_rewrite_anthropic_text_field
        try_rewrite_anthropic_message
    try_pseudonymize_anthropic_request m body =
        elim (try_on_field (codes "system")
          (try_rewrite_anthropic_text_field (some (codes "system"))) m body) [
            | none ↦ none
            | some (m', body', some e) ↦ some (m', body', some e)
            | some (m', body', none) ↦
                try_on_field (codes "messages") (try_on_array try_rewrite_anthropic_message) m'
                  body'
          ]

    -- `try_pseudonymize_body` with the rewriting of a text as a parameter.
    unfoldable pub try_rewrite_body : BodyFormat → M → Value → Tried M Value
    unfolding try_pseudonymize_openai_request try_pseudonymize_anthropic_request
    try_rewrite_body openai_chat m body = try_pseudonymize_openai_request m body
    try_rewrite_body anthropic_messages m body = try_pseudonymize_anthropic_request m body

module _ {S : Type 0} (to_uppercase : Bytes → Bytes)
    (get_or_assign : S → Bytes → Bytes → Result Bytes Bytes × S)
    (engine : PiiEngine DetectError) where
  unfoldable pub try_scan_and_rewrite :
      Bytes → Option Bytes → EntityMap S → Option (EntityMap S × Result DetectError Bytes)
  unfolding try_pseudonymize try_scan_for_role
  try_scan_and_rewrite text role m = elim (try_scan_for_role engine text role) [
    | err e ↦ some (m, err e)
    | ok dets ↦ try_pseudonymize to_uppercase get_or_assign text dets m
  ]

  unfoldable pub try_pseudonymize_body :
      BodyFormat → EntityMap S → Value → Tried (EntityMap S) Value
  unfolding try_rewrite_body try_scan_and_rewrite
  try_pseudonymize_body format m body = try_rewrite_body try_scan_and_rewrite format m body
