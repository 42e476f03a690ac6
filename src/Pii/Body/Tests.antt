-- ===== src/Pii/Body/Tests.antt =====
-- A concrete request body, and an instance of the theorem on its texts.
use drgtw.Base.{ℕ, ◌≡◌, refl, Bytes, codes, Option, none, some, List, [], ◌∷◌, if◌then◌else◌, equal}
use drgtw.Base.Json.{Value, string, object_of, array_of}
use drgtw.Base.Results.{Result, ok, err}
use drgtw.Pii.Body.Fallible.{try_pseudonymize_body}
use drgtw.Pii.Body.Plain.{without_error, try_pseudonymize_body-plain}
use drgtw.Pii.Kind.{Detection, email}
use drgtw.Pii.Engine.{Recognizer, PiiEngine}
use drgtw.Pii.EntityMap.{EntityMap, new}
use drgtw.Pii.Body.{anthropic_messages, has_type, rewrite_body, scan_and_rewrite, pseudonymize_body}
use drgtw.Pii.Body.Texts.{Follows, texts, rewrite_all}
use drgtw.Pii.Body.Requests.{pseudonymize_body-Follows}

abbrev found : Bytes → List Detection
found text =
    if equal text (codes "a@b.c") then record { start = 0; stop = 5; kind = email } ∷ [] else []

abbrev mails : Recognizer Bytes
mails = record { name = codes "email"; detect = found; try_detect = λ t. ok (found t) }

abbrev engine : PiiEngine Bytes
engine = record { recognizers = mails ∷ []; allowed_kinds = none; ner_scan_roles = none }

abbrev same_name : Bytes → Bytes
same_name name = name

abbrev fresh : EntityMap (Unit {0})
fresh = new

abbrev block : Bytes → Bytes → Value
block kind text = object_of ((codes "type", string kind) ∷ (codes "text", string text) ∷ [])

-- A system text, and a message with a text block and one of another type.
abbrev request : Value
request = object_of (
    (codes "system", string (codes "be kind"))
    ∷ (
      codes "messages",
      array_of (
          object_of (
            (codes "role", string (codes "user"))
            ∷ (
              codes "content",
              array_of (
                  block (codes "text") (codes "a@b.c")
                  ∷ block (codes "image") (codes "a@b.c")
                  ∷ []),
            )
            ∷ [])
          ∷ []),
    )
    ∷ [])

request_texts :
    texts anthropic_messages request
    ≡ (some (codes "system"), codes "be kind") ∷ (some (codes "user"), codes "a@b.c") ∷ []
unfolding has_type drgtw.Base.Json.fields_of drgtw.Base.equal drgtw.Pii.Body.message_role
request_texts = refl

pseudonymize_body-Follows_example :
    Follows
      (texts anthropic_messages)
      (pseudonymize_body same_name engine anthropic_messages fresh request)
      (rewrite_all (scan_and_rewrite same_name engine) fresh (texts anthropic_messages request))
pseudonymize_body-Follows_example =
    pseudonymize_body-Follows same_name engine anthropic_messages fresh request

abbrev no_store : Unit {0} → Bytes → Bytes → Result Bytes Bytes × Unit {0}
no_store u kind value = (err (codes "none"), u)

try_pseudonymize_body-plain_example :
    try_pseudonymize_body same_name no_store engine anthropic_messages fresh request
    ≡ without_error (pseudonymize_body same_name engine anthropic_messages fresh request)
try_pseudonymize_body-plain_example =
    try_pseudonymize_body-plain same_name no_store engine (λ text. (refl, tt)) anthropic_messages
      fresh request refl
