-- ===== src/Converse/Parts.antt =====
-- What a translated request holds: its texts, parted by role (`openai_to_converse` in
-- crates/drgtw-proxy/src/converse.rs).
use drgtw.Base.{
  ◌≡◌, ◌↔◌, refl, sym, subst, ap, ◌∙◌, Bytes, codes, Bool, true, false, Option, none, some, List,
  [], ◌∷◌, map,
}
use drgtw.Base.Json.{
  Value, Values, Fields, Number, null, bool, number, string, array, object, key, get, get_field,
  insert_field, get_field-insert_field, get_field-insert_field_ne, as_str, as_array, as_bool,
  object_of, array_of, end,
}
use drgtw.Base.Results.{Result, ok, err}
use drgtw.Converse.{
  TranslateError, then_get, unwrap_or, text_block, insert_some, unless_end, unless_empty,
  inference_config, converse_body, openai_to_converse,
}
use drgtw.Converse.Request.{
  Message, system_texts, other_messages, read_messages, written, insert_some_ne, request_of,
  streaming, openai_to_converse-read_messages,
}
use drgtw.Converse.Reading.{MessagesRead, read_messages-MessagesRead}

-- The values of the Converse format.

abbrev pub text_value : Bytes → Value
text_value t = object_of ((codes "text", string t) ∷ [])

abbrev pub message_value : Message → Value
message_value (role, texts) =
    object_of
      ((codes "role", string role) ∷ (codes "content", array_of (map text_value texts)) ∷ [])

abbrev pub system_value : List Bytes → Option Value
system_value [] = none
system_value (t ∷ ts) = some (array_of (map text_value (t ∷ ts)))

-- What the answer is for messages that are read as a list, or as an error.
abbrev pub Translates :
    Fields
    → Bytes
    → Result TranslateError (List Message)
    → Result TranslateError (Value × Bytes × Bool)
    → Type 0
Translates fs model (err e) answer = answer ≡ err e
Translates fs model (ok ms) answer =
    (out : Value) × (stream : Bool) × (answer ≡ ok (out, model, stream))
    × (get (key (codes "messages")) out ≡ some (array_of (map message_value (other_messages ms))))
    × (get (key (codes "system")) out ≡ system_value (system_texts ms))
    × ((stream ≡ true) ↔ (get (key (codes "stream")) (object fs) ≡ some (bool true)))

stream_lem :
    (o : Option Value) → (unwrap_or false (then_get as_bool o) ≡ true) ↔ (o ≡ some (bool true))
unfolding as_bool
stream_lem none = (λ h. absurd (cc h), λ h. absurd (cc h))
stream_lem (some (bool b)) = (λ h. ap (λ x. some (bool x)) h, λ h. cc h)
stream_lem (some null) = (λ h. absurd (cc h), λ h. absurd (cc h))
stream_lem (some (number n)) = (λ h. absurd (cc h), λ h. absurd (cc h))
stream_lem (some (string s)) = (λ h. absurd (cc h), λ h. absurd (cc h))
stream_lem (some (array vs)) = (λ h. absurd (cc h), λ h. absurd (cc h))
stream_lem (some (object fs)) = (λ h. absurd (cc h), λ h. absurd (cc h))

module _ (float_of : Number → Value) where
  module _ (body : Value) (messages : List Value) where
    messages_there :
        (system : List Value)
        → get (key (codes "messages")) (converse_body float_of body system messages)
          ≡ some (array_of messages)
    unfolding converse_body get drgtw.Base.equal
    messages_there system =
        insert_some_ne float_of (codes "inferenceConfig") (codes "messages")
          (unless_end float_of (inference_config float_of body))
          (insert_some (codes "system") (unless_empty system)
            (insert_field (codes "messages") (array_of messages) end))
          refl
        ∙ (insert_some_ne float_of (codes "system") (codes "messages") (unless_empty system)
              (insert_field (codes "messages") (array_of messages) end) refl
            ∙ get_field-insert_field (codes "messages") (array_of messages) end)

    system_there :
        (texts : List Bytes)
        → get (key (codes "system")) (converse_body float_of body (map text_block texts) messages)
          ≡ system_value texts
    unfolding converse_body get get_field insert_some drgtw.Base.equal
    system_there texts =
        insert_some_ne float_of (codes "inferenceConfig") (codes "system")
          (unless_end float_of (inference_config float_of body))
          (insert_some (codes "system") (unless_empty (map text_block texts))
            (insert_field (codes "messages") (array_of messages) end))
          refl
        ∙ go texts
      where
        go :
            (texts : List Bytes)
            → get_field (codes "system") (
                insert_some
                  (codes "system")
                  (unless_empty (map text_block texts))
                  (insert_field (codes "messages") (array_of messages) end))
              ≡ system_value texts
        go [] =
            get_field-insert_field_ne (codes "messages") (codes "system") (array_of messages) end
              refl
        go (t ∷ ts) =
            get_field-insert_field (codes "system") (array_of (map text_block (t ∷ ts)))
              (insert_field (codes "messages") (array_of messages) end)

  translates_lem :
      (fs : Fields) (model : Bytes) (r : Result TranslateError (List Message))
      → Translates fs model r (request_of float_of fs model r)
  translates_lem fs model (err e) = refl
  translates_lem fs model (ok ms) = (
    converse_body float_of (object fs) (map text_block (system_texts ms))
        (written (other_messages ms)),
    streaming float_of fs,
    refl,
    messages_there (object fs) (written (other_messages ms)) (map text_block (system_texts ms)),
    system_there (object fs) (written (other_messages ms)) (system_texts ms),
    stream_lem (get (key (codes "stream")) (object fs)),
  )

  -- The messages of a request that has a model and messages are read as a list of roles and texts, or as the
  -- error of the first message that has one. On an error the translation answers with it. Otherwise it answers with the
  -- model, with whether `stream` is true, and with a body whose `messages` are the messages of other roles
  -- than `system`, each with its role and its texts, and whose `system`, if there are such texts, are the
  -- texts of that role, all in order.
  pub openai_to_converse-parts :
      (fs : Fields) (model : Bytes) (msgs : Values)
      → then_get as_str (get (key (codes "model")) (object fs)) ≡ some model
      → then_get as_array (get (key (codes "messages")) (object fs)) ≡ some msgs
      → (r : Result TranslateError (List Message)) × MessagesRead msgs r
        × Translates fs model r (openai_to_converse float_of (object fs))
  openai_to_converse-parts fs model msgs m n = (
    read_messages msgs,
    read_messages-MessagesRead msgs,
    subst (Translates fs model (read_messages msgs))
        (sym (openai_to_converse-read_messages float_of fs model msgs m n))
        (translates_lem fs model (read_messages msgs)),
  )
