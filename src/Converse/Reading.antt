-- ===== src/Converse/Reading.antt =====
-- What the messages of a request are read as, apart from the code that reads them (`extract_text_parts` and
-- the loop over the messages in `openai_to_converse`, crates/drgtw-proxy/src/converse.rs).
use drgtw.Base.{
  ◌≡◌, ◌≢◌, ◌⊎◌, refl, ap, ◌∙◌, inl, inr, Bytes, codes, Option, none, some, List, [], ◌∷◌, arith,
  equal, equal_iff, Bool-cases, Option-cases,
}
use drgtw.Base.Json.{
  Value, Values, null, bool, number, string, array, object, nil, cons, key, get, str_at,
}
use drgtw.Base.Results.{Result, ok, err}
use drgtw.Converse.{
  TranslateError, unsupported_content, unwrap_or, text_parts, extract_text_parts, json_type_name,
  message_role,
}
use drgtw.Converse.Request.{Message, read_message, read_messages}

-- A part of the type `text`; without a text of its own it is empty.
abbrev pub IsText : Value → Bytes → Type 0
IsText part t =
    (str_at (key (codes "type") ∷ []) part ≡ some (codes "text"))
    × ((str_at (key (codes "text") ∷ []) part ≡ some t)
        ⊎ ((str_at (key (codes "text") ∷ []) part ≡ none) × (t ≡ [])))

abbrev pub IsRefused : Value → TranslateError → Type 0
IsRefused part e =
    ((other : Bytes) × (str_at (key (codes "type") ∷ []) part ≡ some other)
      × (other ≢ codes "text")
      × (e ≡ unsupported_content other))
    ⊎ ((str_at (key (codes "type") ∷ []) part ≡ none)
        × (e ≡ unsupported_content (codes "untyped content part")))

-- The texts of all parts, or the error of the first part that is refused.
abbrev pub PartsRead : Values → Result TranslateError (List Bytes) → Type 0
PartsRead nil (ok []) = Unit
PartsRead nil (ok (t ∷ ts)) = ⊥
PartsRead nil (err e) = ⊥
PartsRead (cons p ps) (ok []) = ⊥
PartsRead (cons p ps) (ok (t ∷ ts)) = IsText p t × PartsRead ps (ok ts)
PartsRead (cons p ps) (err e) = IsRefused p e ⊎ ((t : Bytes) × IsText p t × PartsRead ps (err e))

abbrev pub ContentRead : Option Value → Result TranslateError (List Bytes) → Type 0
ContentRead none r = r ≡ ok []
ContentRead (some null) r = r ≡ ok []
ContentRead (some (string s)) r = r ≡ ok (s ∷ [])
ContentRead (some (array ps)) r = PartsRead ps r
ContentRead (some (bool b)) r = r ≡ err (unsupported_content (codes "content of type bool"))
ContentRead (some (number n)) r = r ≡ err (unsupported_content (codes "content of type number"))
ContentRead (some (object fs)) r = r ≡ err (unsupported_content (codes "content of type object"))

abbrev pub IsRole : Value → Bytes → Type 0
IsRole msg role =
    (str_at (key (codes "role") ∷ []) msg ≡ some role)
    ⊎ ((str_at (key (codes "role") ∷ []) msg ≡ none) × (role ≡ codes "user"))

-- All messages with their roles, or the error of the first message that has one.
abbrev pub MessagesRead : Values → Result TranslateError (List Message) → Type 0
MessagesRead nil (ok []) = Unit
MessagesRead nil (ok (m ∷ ms)) = ⊥
MessagesRead nil (err e) = ⊥
MessagesRead (cons msg msgs) (ok []) = ⊥
MessagesRead (cons msg msgs) (ok ((role, texts) ∷ ms)) =
    IsRole msg role
    × ContentRead (get (key (codes "content")) msg) (ok texts)
    × MessagesRead msgs (ok ms)
MessagesRead (cons msg msgs) (err e) =
    ContentRead (get (key (codes "content")) msg) (err e)
    ⊎ ((texts : List Bytes) × ContentRead (get (key (codes "content")) msg) (ok texts)
        × MessagesRead msgs (err e))

part_text :
    (part : Value)
    → str_at (key (codes "type") ∷ []) part ≡ some (codes "text")
    → IsText part (unwrap_or [] (str_at (key (codes "text") ∷ []) part))
part_text part h = elim (Option-cases (str_at (key (codes "text") ∷ []) part)) [
  | inl e ↦ rw e (h, inr (refl, refl))
  | inr (t, e) ↦ rw e (h, inl refl)
]

parts_step :
    (p : Value) (ps : Values) (t : Bytes) (r : Result TranslateError (List Bytes))
    → IsText p t
    → PartsRead ps r
    → PartsRead (cons p ps) (elim r [ err e ↦ err e | ok texts ↦ ok (t ∷ texts) ])
parts_step p ps t (ok ts) h k = (h, k)
parts_step p ps t (err e) h k = inr (t, h, k)

text_parts-PartsRead : (ps : Values) → PartsRead ps (text_parts ps)
unfolding text_parts
text_parts-PartsRead nil = tt
text_parts-PartsRead (cons p ps) = elim (Option-cases (str_at (key (codes "type") ∷ []) p)) [
  | inl e ↦ rw (e, text_parts) (inl (inr (e, refl)))
  | inr (t, e) ↦ elim (Bool-cases (equal t (codes "text"))) [
    | inl same ↦
        rw (e, text_parts)
          (rw same (
            parts_step p ps _ (text_parts ps)
              (part_text p (e ∙ ap some ((equal_iff t (codes "text")).0 same)))
              (text_parts-PartsRead ps)))
    | inr other ↦
        rw (e, text_parts)
          (rw other
            (inl (inl (t, e, (λ d. absurd (ground (arith, equal_iff t (codes "text")))), refl))))
  ]
]

extract_text_parts-ContentRead : (c : Option Value) → ContentRead c (extract_text_parts c)
unfolding extract_text_parts json_type_name
extract_text_parts-ContentRead none = refl
extract_text_parts-ContentRead (some null) = refl
extract_text_parts-ContentRead (some (string s)) = refl
extract_text_parts-ContentRead (some (array ps)) = text_parts-PartsRead ps
extract_text_parts-ContentRead (some (bool b)) = refl
extract_text_parts-ContentRead (some (number n)) = refl
extract_text_parts-ContentRead (some (object fs)) = refl

message_role-IsRole : (msg : Value) → IsRole msg (message_role msg)
unfolding message_role
message_role-IsRole msg = elim (Option-cases (str_at (key (codes "role") ∷ []) msg)) [
  | inl e ↦ rw e (inr (refl, refl))
  | inr (role, e) ↦ rw e (inl refl)
]

message_step :
    (msg : Value) (msgs : Values) (role : Bytes) (r : Result TranslateError (List Bytes))
    (later : Result TranslateError (List Message))
    → IsRole msg role
    → ContentRead (get (key (codes "content")) msg) r
    → MessagesRead msgs later
    → MessagesRead (cons msg msgs) (read_message role r later)
message_step msg msgs role (err e) later h c k = inl c
message_step msg msgs role (ok texts) (err e) h c k = inr (texts, c, k)
message_step msg msgs role (ok texts) (ok ms) h c k = (h, c, k)

pub read_messages-MessagesRead : (msgs : Values) → MessagesRead msgs (read_messages msgs)
read_messages-MessagesRead nil = tt
read_messages-MessagesRead (cons msg msgs) =
    message_step msg msgs (message_role msg) (extract_text_parts (get (key (codes "content")) msg))
      (read_messages msgs) (message_role-IsRole msg)
      (extract_text_parts-ContentRead (get (key (codes "content")) msg))
      (read_messages-MessagesRead msgs)
