-- ===== src/Converse/Request.antt =====
-- What a translated request holds: the texts of the messages, parted by role, and no other field
-- (`openai_to_converse` in crates/drgtw-proxy/src/converse.rs).
use drgtw.Base.{
  ◌≡◌, refl, subst, sym, ap, ◌∙◌, inl, inr, Bytes, codes, Bool, false, Option, none, some, List, [],
  ◌∷◌, ◌++◌, map, equal, if◌then◌else◌, Bool-cases, Option-cases,
}
use drgtw.Base.Json.{
  Value, Values, Fields, Number, null, bool, number, string, array, insert_field, object, array_of,
  nil, cons, end, key, get, get_field, get_field-insert_field_ne, as_str, as_array, as_bool,
}
use drgtw.Base.Results.{Result, ok, err, Result-cases}
use drgtw.Converse.{
  TranslateError, then_get, unwrap_or, text_block, converse_message, message_role,
  extract_text_parts, add_message, translate_messages, insert_some, converse_body, unless_end,
  unless_empty, inference_config, translate_request, openai_to_converse,
}

-- A role and its texts.
abbrev pub Message : Type 0
Message = Bytes × List Bytes

abbrev pub read_message :
    Bytes
    → Result TranslateError (List Bytes)
    → Result TranslateError (List Message)
    → Result TranslateError (List Message)
read_message role (err e) later = err e
read_message role (ok texts) (err e) = err e
read_message role (ok texts) (ok ms) = ok ((role, texts) ∷ ms)

-- All messages, or the error of the first that has one.
abbrev pub read_messages : Values → Result TranslateError (List Message)
read_messages nil = ok []
read_messages (cons msg msgs) =
    read_message (message_role msg) (extract_text_parts (get (key (codes "content")) msg))
      (read_messages msgs)

abbrev pub system_texts : List Message → List Bytes
system_texts [] = []
system_texts ((role, texts) ∷ ms) =
    if equal role (codes "system") then texts ++ system_texts ms else system_texts ms

abbrev pub other_messages : List Message → List Message
other_messages [] = []
other_messages ((role, texts) ∷ ms) =
    if equal role (codes "system") then other_messages ms else (role, texts) ∷ other_messages ms

abbrev pub written : List Message → List Value
written = map (λ (m : Message). converse_message m.0 m.1)

abbrev parted : List Message → List Value × List Value
parted ms = (map text_block (system_texts ms), written (other_messages ms))

abbrev parted_of :
    Result TranslateError (List Message) → Result TranslateError (List Value × List Value)
parted_of (err e) = err e
parted_of (ok ms) = ok (parted ms)

map-append :
    (xs ys : List Bytes) → map text_block (xs ++ ys) ≡ map text_block xs ++ map text_block ys
map-append [] ys = refl
map-append (x ∷ xs) ys = ap (λ (l : List Value). text_block x ∷ l) (map-append xs ys)

add_message-parted :
    (role : Bytes) (texts : List Bytes) (ms : List Message)
    → add_message role texts (parted ms) ≡ parted ((role, texts) ∷ ms)
unfolding add_message
add_message-parted role texts ms = elim (Bool-cases (equal role (codes "system"))) [
  | inl e ↦
      rw (e, add_message)
        (λ i. (sym (map-append texts (system_texts ms)) i, written (other_messages ms)))
  | inr e ↦ rw (e, add_message) refl
]

abbrev ok_of : List Value × List Value → Result TranslateError (List Value × List Value)
ok_of x = ok x

abbrev stepped :
    Bytes
    → Result TranslateError (List Bytes)
    → Result TranslateError (List Value × List Value)
    → Result TranslateError (List Value × List Value)
stepped role r later = elim r [
  | err e ↦ err e
  | ok texts ↦ elim later [ err e ↦ err e | ok done ↦ ok (add_message role texts done) ]
]

stepped-parted_of :
    (role : Bytes) (r : Result TranslateError (List Bytes))
    (later : Result TranslateError (List Message))
    → stepped role r (parted_of later) ≡ parted_of (read_message role r later)
stepped-parted_of role (err e) later = refl
stepped-parted_of role (ok texts) (err e) = refl
stepped-parted_of role (ok texts) (ok ms) = ap ok_of (add_message-parted role texts ms)

-- The messages of the role `system` become the system blocks, and all others the messages, in order.
translate_messages-parts :
    (msgs : Values) → translate_messages msgs ≡ parted_of (read_messages msgs)
unfolding translate_messages
translate_messages-parts nil = refl
translate_messages-parts (cons msg msgs) =
    ap (stepped (message_role msg) (extract_text_parts (get (key (codes "content")) msg)))
      (translate_messages-parts msgs)
    ∙ stepped-parted_of (message_role msg) (extract_text_parts (get (key (codes "content")) msg))
        (read_messages msgs)

module _ (float_of : Number → Value) where
  abbrev pub Answer : Type 0
  Answer = Result TranslateError (Value × Bytes × Bool)

  abbrev pub streaming : Fields → Bool
  streaming fs = unwrap_or false (then_get as_bool (get (key (codes "stream")) (object fs)))

  abbrev pub request_of : Fields → Bytes → Result TranslateError (List Message) → Answer
  request_of fs model (err e) = err e
  request_of fs model (ok ms) = ok (
    converse_body float_of (object fs) (map text_block (system_texts ms))
        (written (other_messages ms)),
    model,
    streaming fs,
  )

  request_lem :
      (fs : Fields) (model : Bytes) (r : Result TranslateError (List Message))
      → (elim (parted_of r) [
        | err e ↦ err e
        | ok (system, messages) ↦
            ok (converse_body float_of (object fs) system messages, model, streaming fs)
      ])
        ≡ request_of fs model r
  request_lem fs model (err e) = refl
  request_lem fs model (ok ms) = refl

  -- A request with a model and messages, by what its messages are read as.
  pub openai_to_converse-read_messages :
      (fs : Fields) (model : Bytes) (msgs : Values)
      → then_get as_str (get (key (codes "model")) (object fs)) ≡ some model
      → then_get as_array (get (key (codes "messages")) (object fs)) ≡ some msgs
      → openai_to_converse float_of (object fs) ≡ request_of fs model (read_messages msgs)
  unfolding openai_to_converse translate_request
  openai_to_converse-read_messages fs model msgs m n =
      rw (m, openai_to_converse)
        (rw (n, translate_request)
          (rw (translate_messages-parts msgs) (request_lem fs model (read_messages msgs))))

  pub insert_some_ne :
      (k j : Bytes) (o : Option Value) (fs : Fields)
      → equal k j ≡ false
      → get_field j (insert_some k o fs) ≡ get_field j fs
  unfolding insert_some
  insert_some_ne k j none fs h = refl
  insert_some_ne k j (some w) fs h = get_field-insert_field_ne k j w fs h

  converse_body-fields :
      (k : Bytes) (body : Value) (system messages : List Value)
      → equal (codes "messages") k ≡ false
      → equal (codes "system") k ≡ false
      → equal (codes "inferenceConfig") k ≡ false
      → get (key k) (converse_body float_of body system messages) ≡ none
  unfolding converse_body get get_field
  converse_body-fields k body system messages m s i =
      insert_some_ne (codes "inferenceConfig") k
        (unless_end float_of (inference_config float_of body))
        (insert_some (codes "system") (unless_empty system)
          (insert_field (codes "messages") (array_of messages) end))
        i
      ∙ (insert_some_ne (codes "system") k (unless_empty system)
            (insert_field (codes "messages") (array_of messages) end) s
          ∙ get_field-insert_field_ne (codes "messages") k (array_of messages) end m)

  -- What a translation gives on success has no field `k`.
  abbrev Lacks : Bytes → Answer → Type 0
  Lacks k (err e) = Unit
  Lacks k (ok (out, model, stream)) = get (key k) out ≡ none

  translate_request-Lacks :
      (k : Bytes) (body : Value) (model : Bytes) (o : Option Values)
      → equal (codes "messages") k ≡ false
      → equal (codes "system") k ≡ false
      → equal (codes "inferenceConfig") k ≡ false
      → Lacks k (translate_request float_of body model o)
  unfolding translate_request
  translate_request-Lacks k body model none m s i = tt
  translate_request-Lacks k body model (some msgs) m s i =
      elim (Result-cases (translate_messages msgs)) [
        | inl ((system, messages), e) ↦
            rw (e, translate_request) (converse_body-fields k body system messages m s i)
        | inr (x, e) ↦ rw (e, translate_request) tt
      ]

  openai_to_converse-Lacks :
      (k : Bytes) (body : Value)
      → equal (codes "messages") k ≡ false
      → equal (codes "system") k ≡ false
      → equal (codes "inferenceConfig") k ≡ false
      → Lacks k (openai_to_converse float_of body)
  unfolding openai_to_converse
  openai_to_converse-Lacks k null m s i = tt
  openai_to_converse-Lacks k (bool b) m s i = tt
  openai_to_converse-Lacks k (number n) m s i = tt
  openai_to_converse-Lacks k (string t) m s i = tt
  openai_to_converse-Lacks k (array vs) m s i = tt
  openai_to_converse-Lacks k (object fs) m s i =
      elim (Option-cases (then_get as_str (get (key (codes "model")) (object fs)))) [
        | inl e ↦ rw (e, openai_to_converse) tt
        | inr (model, e) ↦
            rw (e, openai_to_converse)
              (translate_request-Lacks k (object fs) model
                (then_get as_array (get (key (codes "messages")) (object fs))) m s i)
      ]

  -- A translated request has no field but `messages`, `system` and `inferenceConfig`: every other field
  -- of the OpenAI request is dropped, `model` and `stream` among them.
  openai_to_converse-drops :
      (k : Bytes) (body out : Value) (model : Bytes) (stream : Bool)
      → openai_to_converse float_of body ≡ ok (out, model, stream)
      → equal (codes "messages") k ≡ false
      → equal (codes "system") k ≡ false
      → equal (codes "inferenceConfig") k ≡ false
      → get (key k) out ≡ none
  openai_to_converse-drops k body out model stream e m s i =
      subst (Lacks k) e (openai_to_converse-Lacks k body m s i)
