-- ===== src/Pii/Body/Requests.antt =====
-- The texts that the walk over a whole request body rewrites (`pseudonymize_body` in
-- crates/drgtw-pii/src/body.rs).
use drgtw.Base.{◌≡◌, refl, sym, ap, ◌∙◌, Bytes, codes, Option, none, some, List, ◌++◌, equal}
use drgtw.Base.Json.{Value, key, get, get-set}
use drgtw.Pii.Body.{
  BodyFormat, openai_chat, anthropic_messages, on_array, on_field, rewrite_openai_message,
  pseudonymize_openai_request, rewrite_anthropic_text_field, rewrite_anthropic_message,
  pseudonymize_anthropic_request, rewrite_body, scan_and_rewrite, pseudonymize_body,
}
use drgtw.Pii.Engine.{PiiEngine}
use drgtw.Pii.EntityMap.{EntityMap, DetectError}
use drgtw.Pii.Body.Texts.{
  Text, array_texts, in_option, field_texts, text_block_texts, content_texts, anthropic_block_texts,
  message_texts, texts, Follows, extend, rewrite_all, append_to, rewrite_all-append,
}
use drgtw.Pii.Body.Walks.{value_of, other_field, Walks, pair_of, on_array-Walks, on_field-Walks}
use drgtw.Pii.Body.Contents.{
  rewrite_anthropic_text_field-Walks, rewrite_openai_message-Walks, rewrite_anthropic_message-Walks,
}

module _ {M : Type 0} (rewrite : Bytes → Option Bytes → M → Option (M × Bytes)) where
  abbrev system_texts : Value → List Text
  system_texts =
      field_texts (codes "system") (content_texts text_block_texts (some (codes "system")))

  abbrev messages_texts : (Option Bytes → Value → List Text) → Value → List Text
  messages_texts block = field_texts (codes "messages") (array_texts (message_texts block))

  messages-Walks :
      (block : Option Bytes → Value → List Text) (f : M → Value → Option (M × Value))
      → Walks rewrite (message_texts block) f
      → (m : M) (body : Value)
      → Follows
          (messages_texts block)
          (on_field (codes "messages") (on_array f) m body)
          (rewrite_all rewrite m (messages_texts block body))
  messages-Walks block f h m body =
      on_field-Walks rewrite (codes "messages") (array_texts (message_texts block))
        (messages_texts block) (on_array f) body refl
        (λ w u e.
          ap (in_option (array_texts (message_texts block)))
            (get-set (key (codes "messages")) w body u e))
        m (on_array-Walks rewrite (message_texts block) f h)

  system-Walks :
      (m : M) (body : Value)
      → Follows system_texts
          (on_field
            (codes "system")
            (rewrite_anthropic_text_field rewrite (some (codes "system")))
            m
            body)
          (rewrite_all rewrite m (system_texts body))
  system-Walks m body =
      on_field-Walks rewrite (codes "system")
        (content_texts text_block_texts (some (codes "system"))) system_texts
        (rewrite_anthropic_text_field rewrite (some (codes "system"))) body refl
        (λ w u e.
          ap (in_option (content_texts text_block_texts (some (codes "system"))))
            (get-set (key (codes "system")) w body u e))
        m (rewrite_anthropic_text_field-Walks rewrite (some (codes "system")))

  abbrev messages_of : Option Value → List Text
  messages_of = in_option (array_texts (message_texts anthropic_block_texts))

  abbrev system_of : Option Value → List Text
  system_of = in_option (content_texts text_block_texts (some (codes "system")))

  -- The second walk of a body, over `messages`, behind the first.
  module _ (m m' : M) (body body' : Value)
      (same : get (key (codes "messages")) body' ≡ get (key (codes "messages")) body)
      (h : rewrite_all rewrite m (system_texts body) ≡ some (m', system_texts body')) where
    behind :
        rewrite_all rewrite m (texts anthropic_messages body)
        ≡ extend
            (system_texts body')
            (rewrite_all rewrite m' (messages_texts anthropic_block_texts body'))
    behind =
        rewrite_all-append rewrite m (system_texts body) (messages_texts anthropic_block_texts body)
        ∙ (ap (λ o. append_to rewrite o (messages_texts anthropic_block_texts body)) h
            ∙ ap (λ x. extend (system_texts body') (rewrite_all rewrite m' (messages_of x)))
                (sym same))

    second :
        (o : Option (M × Value))
        → get (key (codes "system")) (value_of body' o) ≡ get (key (codes "system")) body'
        → Follows
            (messages_texts anthropic_block_texts)
            o
            (rewrite_all rewrite m' (messages_texts anthropic_block_texts body'))
        → Follows
            (texts anthropic_messages)
            o
            (rewrite_all rewrite m (texts anthropic_messages body))
    second none kept hs = behind ∙ ap (extend (system_texts body')) hs
    second (some (m'', body'')) kept hs =
        behind
        ∙ (ap (extend (system_texts body')) hs
            ∙ ap
                (λ x.
                  pair_of rewrite m'' (system_of x ++ messages_texts anthropic_block_texts body''))
                (sym kept))

  first_none :
      (m : M) (body : Value)
      → rewrite_all rewrite m (system_texts body) ≡ none
      → rewrite_all rewrite m (texts anthropic_messages body) ≡ none
  first_none m body h =
      rewrite_all-append rewrite m (system_texts body) (messages_texts anthropic_block_texts body)
      ∙ ap (λ o. append_to rewrite o (messages_texts anthropic_block_texts body)) h

  anthropic-Walks :
      (m : M) (body : Value) (o : Option (M × Value))
      → o
        ≡ on_field
            (codes "system")
            (rewrite_anthropic_text_field rewrite (some (codes "system")))
            m
            body
      → Follows system_texts o (rewrite_all rewrite m (system_texts body))
      → Follows
          (texts anthropic_messages)
          (elim o [
            | none ↦ none
            | some (m', body') ↦
                on_field (codes "messages") (on_array (rewrite_anthropic_message rewrite)) m' body'
          ])
          (rewrite_all rewrite m (texts anthropic_messages body))
  unfolding equal
  anthropic-Walks m body none e h = first_none m body h
  anthropic-Walks m body (some (m', body')) e h =
      second m m' body body'
        (ap (λ o. get (key (codes "messages")) (value_of body o)) e
          ∙ other_field (codes "system") (codes "messages") _ m body refl)
        h (on_field (codes "messages") (on_array (rewrite_anthropic_message rewrite)) m' body')
        (other_field (codes "messages") (codes "system") _ m' body' refl)
        (messages-Walks anthropic_block_texts (rewrite_anthropic_message rewrite)
          (rewrite_anthropic_message-Walks rewrite) m' body')

  rewrite_body-Follows :
      (format : BodyFormat) (m : M) (body : Value)
      → Follows
          (texts format)
          (rewrite_body rewrite format m body)
          (rewrite_all rewrite m (texts format body))
  unfolding rewrite_body pseudonymize_openai_request pseudonymize_anthropic_request
  rewrite_body-Follows openai_chat m body =
      messages-Walks text_block_texts (rewrite_openai_message rewrite)
        (rewrite_openai_message-Walks rewrite) m body
  rewrite_body-Follows anthropic_messages m body =
      anthropic-Walks m body _ refl (system-Walks m body)

-- The walk panics exactly if rewriting the texts of the body in turn does; otherwise it leaves the map that
-- this leaves, and a body whose texts, with their roles, are the rewritten ones.
pub pseudonymize_body-Follows :
    {S : Type 0}
    → (to_uppercase : Bytes → Bytes) (engine : PiiEngine DetectError) (format : BodyFormat)
      (m : EntityMap S) (body : Value)
    → Follows
        (texts format)
        (pseudonymize_body to_uppercase engine format m body)
        (rewrite_all (scan_and_rewrite to_uppercase engine) m (texts format body))
unfolding pseudonymize_body
pseudonymize_body-Follows to_uppercase engine format m body =
    rewrite_body-Follows (scan_and_rewrite to_uppercase engine) format m body
