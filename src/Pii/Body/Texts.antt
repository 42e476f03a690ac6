-- ===== src/Pii/Body/Texts.antt =====
-- The texts of a request body with their roles, and rewriting a list of texts in turn.
use drgtw.Base.{
  ◌≡◌, refl, ap, ◌∙◌, inl, inr, Bytes, codes, Option, none, some, List, [], ◌∷◌, ◌++◌,
  if◌then◌else◌, Option-cases,
}
use drgtw.Base.Json.{Value, Values, string, array, nil, cons, key, get}
use drgtw.Pii.Body.{BodyFormat, openai_chat, anthropic_messages, has_type, message_role}

-- A text with the role that it is scanned for.
abbrev pub Text : Type 0
Text = Option Bytes × Bytes

-- The texts

abbrev pub string_texts : Option Bytes → Value → List Text
string_texts role (string s) = (role, s) ∷ []
string_texts role _ = []

abbrev pub all_texts : (Value → List Text) → Values → List Text
all_texts t nil = []
all_texts t (cons v vs) = t v ++ all_texts t vs

abbrev pub array_texts : (Value → List Text) → Value → List Text
array_texts t (array vs) = all_texts t vs
array_texts t _ = []

abbrev pub in_option : (Value → List Text) → Option Value → List Text
in_option t none = []
in_option t (some v) = t v

abbrev pub field_texts : Bytes → (Value → List Text) → Value → List Text
field_texts k t v = in_option t (get (key k) v)

abbrev pub text_block_texts : Option Bytes → Value → List Text
text_block_texts role v =
    if has_type (codes "text") v then field_texts (codes "text") (string_texts role) v else []

-- A string, or the blocks of an array.
abbrev pub content_texts : (Option Bytes → Value → List Text) → Option Bytes → Value → List Text
content_texts block role (string s) = (role, s) ∷ []
content_texts block role v = array_texts (block role) v

abbrev pub anthropic_block_texts : Option Bytes → Value → List Text
anthropic_block_texts role v =
    if has_type (codes "text") v
    then field_texts (codes "text") (string_texts role) v
    else if has_type (codes "tool_result") v
    then field_texts (codes "content") (content_texts text_block_texts role) v
    else []

abbrev pub message_texts : (Option Bytes → Value → List Text) → Value → List Text
message_texts block msg = field_texts (codes "content") (content_texts block (message_role msg)) msg

abbrev pub texts : BodyFormat → Value → List Text
texts openai_chat body =
    field_texts (codes "messages") (array_texts (message_texts text_block_texts)) body
texts anthropic_messages body =
    field_texts (codes "system") (content_texts text_block_texts (some (codes "system"))) body
    ++ field_texts (codes "messages") (array_texts (message_texts anthropic_block_texts)) body

-- What a walk gives, against what rewriting the list of texts gives.
abbrev pub Follows :
    {M A : Type 0} → (A → List Text) → Option (M × A) → Option (M × List Text) → Type 0
Follows t none out = out ≡ none
Follows t (some (m, v)) out = out ≡ some (m, t v)

module _ {M : Type 0} where
  unfoldable pub cons_to : Text → Option (M × List Text) → Option (M × List Text)
  cons_to x none = none
  cons_to x (some (m, us)) = some (m, x ∷ us)

  abbrev pub extend : List Text → Option (M × List Text) → Option (M × List Text)
  extend us none = none
  extend us (some (m, ws)) = some (m, us ++ ws)

  cons_to-extend :
      (x : Text) (us : List Text) (o : Option (M × List Text))
      → cons_to x (extend us o) ≡ extend (x ∷ us) o
  unfolding cons_to
  cons_to-extend x us none = refl
  cons_to-extend x us (some (m, ws)) = refl

  module _ (rewrite : Bytes → Option Bytes → M → Option (M × Bytes)) where
    -- Each text in turn, with the state that the one before left.
    unfoldable pub rewrite_all : M → List Text → Option (M × List Text)
    unfolding cons_to
    rewrite_all m [] = some (m, [])
    rewrite_all m ((role, s) ∷ ts) = elim (rewrite s role m) [
      | none ↦ none
      | some (m', t) ↦ cons_to (role, t) (rewrite_all m' ts)
    ]

    abbrev pub append_to : Option (M × List Text) → List Text → Option (M × List Text)
    append_to none ys = none
    append_to (some (m, us)) ys = extend us (rewrite_all m ys)

    cons_to-append_to :
        (x : Text) (o : Option (M × List Text)) (ys : List Text)
        → cons_to x (append_to o ys) ≡ append_to (cons_to x o) ys
    unfolding cons_to
    cons_to-append_to x none ys = refl
    cons_to-append_to x (some (m, us)) ys = cons_to-extend x us (rewrite_all m ys)

    extend-nil : (o : Option (M × List Text)) → o ≡ extend [] o
    extend-nil none = refl
    extend-nil (some (m, ws)) = refl

    pub rewrite_all-append :
        (m : M) (xs ys : List Text) → rewrite_all m (xs ++ ys) ≡ append_to (rewrite_all m xs) ys
    unfolding rewrite_all
    rewrite_all-append m [] ys = extend-nil (rewrite_all m ys)
    rewrite_all-append m ((role, s) ∷ ts) ys = elim (Option-cases (rewrite s role m)) [
      | inl e ↦ rw (e, rewrite_all) refl
      | inr ((m', t), e) ↦
          rw (e, rewrite_all)
            (ap (cons_to (role, t)) (rewrite_all-append m' ts ys)
              ∙ cons_to-append_to (role, t) (rewrite_all m' ts) ys)
    ]
