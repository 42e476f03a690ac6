-- ===== src/Pii/Body/Agrees.antt =====
-- The fallible walk over a body agrees with the plain one as long as no text fails.
use drgtw.Base.{
  ◌≡◌, refl, inl, inr, Bytes, codes, Bool, true, false, Option, none, some, if◌then◌else◌,
  Option-cases,
}
use drgtw.Base.Json.{
  Value, Values, null, bool, number, string, array, object, nil, cons, key, get, set,
}
use drgtw.Base.Results.{Result, ok}
use drgtw.Pii.EntityMap.{DetectError}
use drgtw.Pii.Body.{
  BodyFormat, openai_chat, anthropic_messages, has_type, message_role, each, on_array, on_field,
  rewrite_string_value, rewrite_text_block, rewrite_openai_content, rewrite_openai_message,
  pseudonymize_openai_request, rewrite_anthropic_text_field, rewrite_anthropic_block,
  rewrite_anthropic_content, rewrite_anthropic_message, pseudonymize_anthropic_request,
  rewrite_body,
}
use drgtw.Pii.Body.Fallible.{
  Tried, try_each, try_on_array, try_on_field, rewritten, try_rewrite_string_value,
  try_rewrite_text_block, try_rewrite_openai_content, try_rewrite_openai_message,
  try_pseudonymize_openai_request, try_rewrite_anthropic_text_field, try_rewrite_anthropic_block,
  try_rewrite_anthropic_content, try_rewrite_anthropic_message, try_pseudonymize_anthropic_request,
  try_rewrite_body,
}

-- `P` holds of the states in which no text fails.
module _ {M : Type 0} (P : M → Type 0) where
  abbrev pub AgreesWith : {A : Type 0} → Option (M × A) → Tried M A → Type 0
  AgreesWith none t = t ≡ none
  AgreesWith (some (m, a)) t = (t ≡ some (m, a, none)) × P m

  abbrev Agree : (M → Value → Option (M × Value)) → (M → Value → Tried M Value) → Type 0
  Agree f g = (m : M) (v : Value) → P m → AgreesWith (f m v) (g m v)

  map_AgreesWith :
      {A B : Type 0} (o : Option (M × A)) (t : Tried M A) (j : A → B)
      → AgreesWith o t
      → AgreesWith
          (elim o [ none ↦ none | some (m, a) ↦ some (m, j a) ])
          (elim t [ none ↦ none | some (m, a, r) ↦ some (m, j a, r) ])
  map_AgreesWith none t j h = rw h refl
  map_AgreesWith (some (m, a)) t j (e, p) = (rw e refl, p)

  -- One walk and then another.
  then_AgreesWith :
      {A B C : Type 0} (o : Option (M × A)) (t : Tried M A) (f : M → Option (M × B))
      (g : M → Tried M B) (j : A → B → C) (stop : A → C)
      → AgreesWith o t
      → ((m : M) → P m → AgreesWith (f m) (g m))
      → AgreesWith
          (elim o [
            | none ↦ none
            | some (m, a) ↦ elim (f m) [ none ↦ none | some (m', b) ↦ some (m', j a b) ]
          ])
          (elim t [
            | none ↦ none
            | some (m, a, some e) ↦ some (m, stop a, some e)
            | some (m, a, none) ↦ elim (g m) [ none ↦ none | some (m', b, r) ↦ some (m', j a b, r) ]
          ])
  then_AgreesWith none t f g j stop h k = rw h refl
  then_AgreesWith (some (m, a)) t f g j stop (e, p) k =
      rw e (map_AgreesWith (f m) (g m) (j a) (k m p))

  each-Agree :
      (f : M → Value → Option (M × Value)) (g : M → Value → Tried M Value) (m : M) (vs : Values)
      → Agree f g
      → P m
      → AgreesWith (each f m vs) (try_each g m vs)
  unfolding each try_each
  each-Agree f g m nil h p = (refl, p)
  each-Agree f g m (cons v vs) h p =
      then_AgreesWith (f m v) (g m v) (λ m'. each f m' vs) (λ m'. try_each g m' vs) cons
        (λ v'. cons v' vs) (h m v p) (λ m' p'. each-Agree f g m' vs h p')

  on_array-Agree :
      (f : M → Value → Option (M × Value)) (g : M → Value → Tried M Value)
      → Agree f g
      → Agree (on_array f) (try_on_array g)
  unfolding on_array try_on_array
  on_array-Agree f g h m (array vs) p =
      map_AgreesWith (each f m vs) (try_each g m vs) array (each-Agree f g m vs h p)
  on_array-Agree f g h m null p = (refl, p)
  on_array-Agree f g h m (bool b) p = (refl, p)
  on_array-Agree f g h m (number n) p = (refl, p)
  on_array-Agree f g h m (string s) p = (refl, p)
  on_array-Agree f g h m (object fs) p = (refl, p)

  on_field-Agree :
      (k : Bytes) (f : M → Value → Option (M × Value)) (g : M → Value → Tried M Value)
      → Agree f g
      → Agree (on_field k f) (try_on_field k g)
  unfolding on_field try_on_field
  on_field-Agree k f g h m v p = elim (Option-cases (get (key k) v)) [
    | inl e ↦ rw (e, on_field, try_on_field) (refl, p)
    | inr (w, e) ↦
        rw (e, on_field, try_on_field)
          (map_AgreesWith (f m w) (g m w) (λ w'. set (key k) w' v) (h m w p))
  ]

  if_AgreesWith :
      (b : Bool) (x y : Option (M × Value)) (s t : Tried M Value)
      → AgreesWith x s
      → AgreesWith y t
      → AgreesWith (if b then x else y) (if b then s else t)
  if_AgreesWith true x y s t h k = h
  if_AgreesWith false x y s t h k = k

  abbrev pub TextAgrees : Option (M × Bytes) → Option (M × Result DetectError Bytes) → Type 0
  TextAgrees none t = t ≡ none
  TextAgrees (some (m, s)) t = (t ≡ some (m, ok s)) × P m

  module _ (r : Bytes → Option Bytes → M → Option (M × Bytes))
      (t : Bytes → Option Bytes → M → Option (M × Result DetectError Bytes))
      (same : (s : Bytes) (role : Option Bytes) (m : M)
        → P m
        → TextAgrees (r s role m) (t s role m)) where
    string_AgreesWith :
        (s : Bytes) (o : Option (M × Bytes)) (u : Option (M × Result DetectError Bytes))
        → TextAgrees o u
        → AgreesWith (elim o [ none ↦ none | some (m, x) ↦ some (m, string x) ]) (rewritten u s)
    unfolding rewritten
    string_AgreesWith s none u h = rw h refl
    string_AgreesWith s (some (m, x)) u (e, p) = (rw e refl, p)

    rewrite_string_value-Agree :
        (role : Option Bytes)
        → Agree (rewrite_string_value r role) (try_rewrite_string_value t role)
    unfolding rewrite_string_value try_rewrite_string_value
    rewrite_string_value-Agree role m (string s) p =
        string_AgreesWith s (r s role m) (t s role m) (same s role m p)
    rewrite_string_value-Agree role m null p = (refl, p)
    rewrite_string_value-Agree role m (bool b) p = (refl, p)
    rewrite_string_value-Agree role m (number n) p = (refl, p)
    rewrite_string_value-Agree role m (array vs) p = (refl, p)
    rewrite_string_value-Agree role m (object fs) p = (refl, p)

    rewrite_text_block-Agree :
        (role : Option Bytes) → Agree (rewrite_text_block r role) (try_rewrite_text_block t role)
    unfolding rewrite_text_block try_rewrite_text_block
    rewrite_text_block-Agree role m v p =
        if_AgreesWith (has_type (codes "text") v)
          (on_field (codes "text") (rewrite_string_value r role) m v) (some (m, v))
          (try_on_field (codes "text") (try_rewrite_string_value t role) m v) (some (m, v, none))
          (on_field-Agree (codes "text") (rewrite_string_value r role)
            (try_rewrite_string_value t role) (rewrite_string_value-Agree role) m v p)
          (refl, p)

    rewrite_openai_content-Agree :
        (role : Option Bytes)
        → Agree (rewrite_openai_content r role) (try_rewrite_openai_content t role)
    unfolding rewrite_openai_content try_rewrite_openai_content
    rewrite_openai_content-Agree role m (string s) p =
        rewrite_string_value-Agree role m (string s) p
    rewrite_openai_content-Agree role m null p =
        on_array-Agree (rewrite_text_block r role) (try_rewrite_text_block t role)
          (rewrite_text_block-Agree role) m null p
    rewrite_openai_content-Agree role m (bool b) p =
        on_array-Agree (rewrite_text_block r role) (try_rewrite_text_block t role)
          (rewrite_text_block-Agree role) m (bool b) p
    rewrite_openai_content-Agree role m (number n) p =
        on_array-Agree (rewrite_text_block r role) (try_rewrite_text_block t role)
          (rewrite_text_block-Agree role) m (number n) p
    rewrite_openai_content-Agree role m (array vs) p =
        on_array-Agree (rewrite_text_block r role) (try_rewrite_text_block t role)
          (rewrite_text_block-Agree role) m (array vs) p
    rewrite_openai_content-Agree role m (object fs) p =
        on_array-Agree (rewrite_text_block r role) (try_rewrite_text_block t role)
          (rewrite_text_block-Agree role) m (object fs) p

    rewrite_anthropic_text_field-Agree :
        (role : Option Bytes)
        → Agree (rewrite_anthropic_text_field r role) (try_rewrite_anthropic_text_field t role)
    unfolding rewrite_anthropic_text_field try_rewrite_anthropic_text_field
    rewrite_anthropic_text_field-Agree role m (string s) p =
        rewrite_string_value-Agree role m (string s) p
    rewrite_anthropic_text_field-Agree role m null p =
        on_array-Agree (rewrite_text_block r role) (try_rewrite_text_block t role)
          (rewrite_text_block-Agree role) m null p
    rewrite_anthropic_text_field-Agree role m (bool b) p =
        on_array-Agree (rewrite_text_block r role) (try_rewrite_text_block t role)
          (rewrite_text_block-Agree role) m (bool b) p
    rewrite_anthropic_text_field-Agree role m (number n) p =
        on_array-Agree (rewrite_text_block r role) (try_rewrite_text_block t role)
          (rewrite_text_block-Agree role) m (number n) p
    rewrite_anthropic_text_field-Agree role m (array vs) p =
        on_array-Agree (rewrite_text_block r role) (try_rewrite_text_block t role)
          (rewrite_text_block-Agree role) m (array vs) p
    rewrite_anthropic_text_field-Agree role m (object fs) p =
        on_array-Agree (rewrite_text_block r role) (try_rewrite_text_block t role)
          (rewrite_text_block-Agree role) m (object fs) p

    rewrite_anthropic_block-Agree :
        (role : Option Bytes)
        → Agree (rewrite_anthropic_block r role) (try_rewrite_anthropic_block t role)
    unfolding rewrite_anthropic_block try_rewrite_anthropic_block
    rewrite_anthropic_block-Agree role m v p =
        if_AgreesWith (has_type (codes "text") v) _ _ _ _
          (on_field-Agree (codes "text") (rewrite_string_value r role)
            (try_rewrite_string_value t role) (rewrite_string_value-Agree role) m v p)
          (if_AgreesWith (has_type (codes "tool_result") v) _ _ _ _
            (on_field-Agree (codes "content") (rewrite_anthropic_text_field r role)
              (try_rewrite_anthropic_text_field t role) (rewrite_anthropic_text_field-Agree role) m
              v p)
            (refl, p))

    rewrite_anthropic_content-Agree :
        (role : Option Bytes)
        → Agree (rewrite_anthropic_content r role) (try_rewrite_anthropic_content t role)
    unfolding rewrite_anthropic_content try_rewrite_anthropic_content
    rewrite_anthropic_content-Agree role m (string s) p =
        rewrite_string_value-Agree role m (string s) p
    rewrite_anthropic_content-Agree role m null p =
        on_array-Agree (rewrite_anthropic_block r role) (try_rewrite_anthropic_block t role)
          (rewrite_anthropic_block-Agree role) m null p
    rewrite_anthropic_content-Agree role m (bool b) p =
        on_array-Agree (rewrite_anthropic_block r role) (try_rewrite_anthropic_block t role)
          (rewrite_anthropic_block-Agree role) m (bool b) p
    rewrite_anthropic_content-Agree role m (number n) p =
        on_array-Agree (rewrite_anthropic_block r role) (try_rewrite_anthropic_block t role)
          (rewrite_anthropic_block-Agree role) m (number n) p
    rewrite_anthropic_content-Agree role m (array vs) p =
        on_array-Agree (rewrite_anthropic_block r role) (try_rewrite_anthropic_block t role)
          (rewrite_anthropic_block-Agree role) m (array vs) p
    rewrite_anthropic_content-Agree role m (object fs) p =
        on_array-Agree (rewrite_anthropic_block r role) (try_rewrite_anthropic_block t role)
          (rewrite_anthropic_block-Agree role) m (object fs) p

    rewrite_openai_message-Agree : Agree (rewrite_openai_message r) (try_rewrite_openai_message t)
    unfolding rewrite_openai_message try_rewrite_openai_message
    rewrite_openai_message-Agree m msg p =
        on_field-Agree (codes "content") (rewrite_openai_content r (message_role msg))
          (try_rewrite_openai_content t (message_role msg))
          (rewrite_openai_content-Agree (message_role msg)) m msg p

    rewrite_anthropic_message-Agree :
        Agree (rewrite_anthropic_message r) (try_rewrite_anthropic_message t)
    unfolding rewrite_anthropic_message try_rewrite_anthropic_message
    rewrite_anthropic_message-Agree m msg p =
        on_field-Agree (codes "content") (rewrite_anthropic_content r (message_role msg))
          (try_rewrite_anthropic_content t (message_role msg))
          (rewrite_anthropic_content-Agree (message_role msg)) m msg p

    messages-Agree :
        (f : M → Value → Option (M × Value)) (g : M → Value → Tried M Value)
        → Agree f g
        → Agree
            (on_field (codes "messages") (on_array f))
            (try_on_field (codes "messages") (try_on_array g))
    messages-Agree f g h =
        on_field-Agree (codes "messages") (on_array f) (try_on_array g) (on_array-Agree f g h)

    two_walks :
        (o : Option (M × Value)) (u : Tried M Value)
        → AgreesWith o u
        → AgreesWith
            (elim o [
              | none ↦ none
              | some (m, v) ↦
                  on_field (codes "messages") (on_array (rewrite_anthropic_message r)) m v
            ])
            (elim u [
              | none ↦ none
              | some (m, v, some e) ↦ some (m, v, some e)
              | some (m, v, none) ↦
                  try_on_field
                    (codes "messages")
                    (try_on_array (try_rewrite_anthropic_message t))
                    m
                    v
            ])
    two_walks none u h = rw h refl
    two_walks (some (m, v)) u (e, p) = rw e (
        messages-Agree (rewrite_anthropic_message r) (try_rewrite_anthropic_message t)
          rewrite_anthropic_message-Agree m v p)

    pub rewrite_body-Agree :
        (format : BodyFormat) → Agree (rewrite_body r format) (try_rewrite_body t format)
    unfolding rewrite_body try_rewrite_body pseudonymize_openai_request
        try_pseudonymize_openai_request pseudonymize_anthropic_request
        try_pseudonymize_anthropic_request
    rewrite_body-Agree openai_chat =
        messages-Agree (rewrite_openai_message r) (try_rewrite_openai_message t)
          rewrite_openai_message-Agree
    rewrite_body-Agree anthropic_messages = λ m body p.
        two_walks
          (on_field (codes "system") (rewrite_anthropic_text_field r (some (codes "system"))) m
            body)
          (try_on_field (codes "system")
            (try_rewrite_anthropic_text_field t (some (codes "system"))) m body)
          (on_field-Agree (codes "system") (rewrite_anthropic_text_field r (some (codes "system")))
            (try_rewrite_anthropic_text_field t (some (codes "system")))
            (rewrite_anthropic_text_field-Agree (some (codes "system"))) m body p)
