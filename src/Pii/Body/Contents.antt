-- ===== src/Pii/Body/Contents.antt =====
-- The texts that the walks over blocks, contents and messages rewrite (crates/drgtw-pii/src/body.rs).
use drgtw.Base.{
  ◌≡◌, refl, ap, inl, inr, Bytes, codes, false, Option, none, some, List, equal, Bool-cases,
  Option-cases,
}
use drgtw.Base.Json.{
  Value, Values, string, array, object, null, bool, number, key, set, get_path, str_at, get-set,
  get-set_other,
}
use drgtw.Pii.Body.{
  has_type, message_role, each, on_array, rewrite_string_value, rewrite_text_block,
  rewrite_openai_content, rewrite_openai_message, rewrite_anthropic_text_field,
  rewrite_anthropic_block, rewrite_anthropic_content, rewrite_anthropic_message,
}
use drgtw.Pii.Body.Texts.{
  Text, string_texts, all_texts, in_option, text_block_texts, content_texts, anthropic_block_texts,
  message_texts, Follows, cons_to, rewrite_all,
}
use drgtw.Pii.Body.Walks.{Walks, rewrite_string_value-Walks, each-Walks, on_field-Walks}

module _ {M : Type 0} (rewrite : Bytes → Option Bytes → M → Option (M × Bytes)) where
  -- A write to another field keeps the type.
  has_type_kept :
      (word k : Bytes) (w v : Value)
      → equal k (codes "type") ≡ false
      → has_type word (set (key k) w v) ≡ has_type word v
  unfolding has_type str_at get_path
  has_type_kept word k w v ne =
      rw (get-set_other k (codes "type") w v ne, has_type, str_at, get_path) refl

  rewrite_text_block-Walks :
      (role : Option Bytes)
      → Walks rewrite (text_block_texts role) (rewrite_text_block rewrite role)
  unfolding rewrite_text_block rewrite_all
  rewrite_text_block-Walks role m v = elim (Bool-cases (has_type (codes "text") v)) [
    | inl text ↦
        rw (text, rewrite_text_block)
          (on_field-Walks rewrite (codes "text") (string_texts role) (text_block_texts role)
            (rewrite_string_value rewrite role) v (rw text refl)
            (λ w u e.
              rw (has_type_kept (codes "text") (codes "text") w v refl) (
                rw text
                  (ap (in_option (string_texts role)) (get-set (key (codes "text")) w v u e))))
            m (rewrite_string_value-Walks rewrite role))
    | inr other ↦ rw (other, rewrite_text_block) (rw other refl)
  ]

  string_lem :
      (block : Option Bytes → Value → List Text) (role : Option Bytes) (m : M) (s : Bytes)
      → Follows
          (content_texts block role)
          (rewrite_string_value rewrite role m (string s))
          (rewrite_all rewrite m (content_texts block role (string s)))
  unfolding rewrite_string_value rewrite_all cons_to
  string_lem block role m s = elim (Option-cases (rewrite s role m)) [
    | inl e ↦ rw (e, rewrite_string_value) refl
    | inr ((m', t), e) ↦ rw (e, rewrite_string_value) refl
  ]

  blocks_lem :
      (block : Option Bytes → Value → List Text) (role : Option Bytes) (o : Option (M × Values))
      (out : Option (M × List Text))
      → Follows (all_texts (block role)) o out
      → Follows
          (content_texts block role)
          (elim o [ none ↦ none | some (m, vs) ↦ some (m, array vs) ])
          out
  blocks_lem block role none out h = h
  blocks_lem block role (some (m, vs)) out h = h

  role_kept :
      (k : Bytes) (w v : Value)
      → equal k (codes "role") ≡ false
      → message_role (set (key k) w v) ≡ message_role v
  unfolding message_role str_at get_path
  role_kept k w v ne =
      rw (get-set_other k (codes "role") w v ne, message_role, str_at, get_path) refl

  rewrite_openai_content-Walks :
      (role : Option Bytes)
      → Walks rewrite (content_texts text_block_texts role) (rewrite_openai_content rewrite role)
  unfolding rewrite_openai_content rewrite_string_value rewrite_all on_array
  rewrite_openai_content-Walks role m (string s) = string_lem text_block_texts role m s
  rewrite_openai_content-Walks role m (array vs) =
      blocks_lem text_block_texts role (each (rewrite_text_block rewrite role) m vs)
        (rewrite_all rewrite m (all_texts (text_block_texts role) vs))
        (each-Walks rewrite (text_block_texts role) (rewrite_text_block rewrite role) m vs
          (rewrite_text_block-Walks role))
  rewrite_openai_content-Walks role m null = refl
  rewrite_openai_content-Walks role m (bool b) = refl
  rewrite_openai_content-Walks role m (number b) = refl
  rewrite_openai_content-Walks role m (object b) = refl

  pub rewrite_anthropic_text_field-Walks :
      (role : Option Bytes)
      → Walks rewrite
          (content_texts text_block_texts role)
          (rewrite_anthropic_text_field rewrite role)
  unfolding rewrite_anthropic_text_field rewrite_string_value rewrite_all on_array
  rewrite_anthropic_text_field-Walks role m (string s) = string_lem text_block_texts role m s
  rewrite_anthropic_text_field-Walks role m (array vs) =
      blocks_lem text_block_texts role (each (rewrite_text_block rewrite role) m vs)
        (rewrite_all rewrite m (all_texts (text_block_texts role) vs))
        (each-Walks rewrite (text_block_texts role) (rewrite_text_block rewrite role) m vs
          (rewrite_text_block-Walks role))
  rewrite_anthropic_text_field-Walks role m null = refl
  rewrite_anthropic_text_field-Walks role m (bool b) = refl
  rewrite_anthropic_text_field-Walks role m (number b) = refl
  rewrite_anthropic_text_field-Walks role m (object b) = refl

  rewrite_anthropic_block-Walks :
      (role : Option Bytes)
      → Walks rewrite (anthropic_block_texts role) (rewrite_anthropic_block rewrite role)
  unfolding rewrite_anthropic_block rewrite_all
  rewrite_anthropic_block-Walks role m v = elim (Bool-cases (has_type (codes "text") v)) [
    | inl text ↦
        rw (text, rewrite_anthropic_block)
          (on_field-Walks rewrite (codes "text") (string_texts role) (anthropic_block_texts role)
            (rewrite_string_value rewrite role) v (rw text refl)
            (λ w u e.
              rw (has_type_kept (codes "text") (codes "text") w v refl) (
                rw text
                  (ap (in_option (string_texts role)) (get-set (key (codes "text")) w v u e))))
            m (rewrite_string_value-Walks rewrite role))
    | inr other ↦ elim (Bool-cases (has_type (codes "tool_result") v)) [
      | inl tool ↦
          rw (other, rewrite_anthropic_block)
            (rw (tool, rewrite_anthropic_block)
              (on_field-Walks rewrite (codes "content") (content_texts text_block_texts role)
                (anthropic_block_texts role) (rewrite_anthropic_text_field rewrite role) v
                (rw other (rw tool refl))
                (λ w u e. rw (has_type_kept (codes "text") (codes "content") w v refl) (
                  rw (has_type_kept (codes "tool_result") (codes "content") w v refl) (
                    rw other (
                      rw tool (
                        ap (in_option (content_texts text_block_texts role))
                          (get-set (key (codes "content")) w v u e))))))
                m (rewrite_anthropic_text_field-Walks role)))
      | inr neither ↦
          rw (other, rewrite_anthropic_block)
            (rw (neither, rewrite_anthropic_block) (rw other (rw neither refl)))
    ]
  ]

  rewrite_anthropic_content-Walks :
      (role : Option Bytes)
      → Walks rewrite
          (content_texts anthropic_block_texts role)
          (rewrite_anthropic_content rewrite role)
  unfolding rewrite_anthropic_content rewrite_string_value rewrite_all on_array
  rewrite_anthropic_content-Walks role m (string s) = string_lem anthropic_block_texts role m s
  rewrite_anthropic_content-Walks role m (array vs) =
      blocks_lem anthropic_block_texts role (each (rewrite_anthropic_block rewrite role) m vs)
        (rewrite_all rewrite m (all_texts (anthropic_block_texts role) vs))
        (each-Walks rewrite (anthropic_block_texts role) (rewrite_anthropic_block rewrite role) m vs
          (rewrite_anthropic_block-Walks role))
  rewrite_anthropic_content-Walks role m null = refl
  rewrite_anthropic_content-Walks role m (bool b) = refl
  rewrite_anthropic_content-Walks role m (number b) = refl
  rewrite_anthropic_content-Walks role m (object b) = refl

  pub rewrite_openai_message-Walks :
      Walks rewrite (message_texts text_block_texts) (rewrite_openai_message rewrite)
  unfolding rewrite_openai_message
  rewrite_openai_message-Walks m msg =
      on_field-Walks rewrite (codes "content") (content_texts text_block_texts (message_role msg))
        (message_texts text_block_texts) (rewrite_openai_content rewrite (message_role msg)) msg
        refl
        (λ w u e. rw (role_kept (codes "content") w msg refl) (
          ap (in_option (content_texts text_block_texts (message_role msg)))
            (get-set (key (codes "content")) w msg u e)))
        m (rewrite_openai_content-Walks (message_role msg))

  pub rewrite_anthropic_message-Walks :
      Walks rewrite (message_texts anthropic_block_texts) (rewrite_anthropic_message rewrite)
  unfolding rewrite_anthropic_message
  rewrite_anthropic_message-Walks m msg =
      on_field-Walks rewrite (codes "content")
        (content_texts anthropic_block_texts (message_role msg))
        (message_texts anthropic_block_texts) (rewrite_anthropic_content rewrite (message_role msg))
        msg refl
        (λ w u e. rw (role_kept (codes "content") w msg refl) (
          ap (in_option (content_texts anthropic_block_texts (message_role msg)))
            (get-set (key (codes "content")) w msg u e)))
        m (rewrite_anthropic_content-Walks (message_role msg))
