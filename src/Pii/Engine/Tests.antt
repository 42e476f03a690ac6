-- ===== src/Pii/Engine/Tests.antt =====
-- The engine with two recognisers on a concrete text, and its theorems there.
use drgtw.Base.{
  ℕ, ◌≡◌, refl, Bytes, codes, none, some, List, [], ◌∷◌, arith, In, All, In-All, equal,
}
use drgtw.Base.Results.{ok, err}
use drgtw.Base.Sort.{sort_by, insert_by}
use drgtw.Pii.Kind.{Detection, email, phone, person}
use drgtw.Pii.Slice.{is_char_boundary}
use drgtw.Pii.EntityMap.Pseudonymize.{AreSpans}
use drgtw.Pii.Engine.{
  Recognizer, PiiEngine, span_len, select_from, merge_tagged, participates, candidates,
  scan_for_role, try_scan_for_role, ner_enabled_for_role, to_ascii_lowercase, scan_impl,
  filter_allowed,
}
use drgtw.Pii.Engine.Merge.{AreDisjoint, IsDecided, merge_tagged-greedy}
use drgtw.Pii.Engine.Scan.{IsSpan, scan_for_role-AreSpans, try_scan_for_role-err}

abbrev text : Bytes
text = codes "Ann, a@b.de"

abbrev mail : Detection
mail = record { start = 5; stop = 11; kind = email }

abbrev name_part : Detection
name_part = record { start = 0; stop = 3; kind = person }

abbrev inner : Detection
inner = record { start = 7; stop = 11; kind = phone }

abbrev mails : Recognizer Bytes
mails = record { name = codes "email"; detect = λ t. mail ∷ []; try_detect = λ t. ok (mail ∷ []) }

abbrev phones : Recognizer Bytes
phones = record {
  name = codes "phone";
  detect = λ t. inner ∷ [];
  try_detect = λ t. ok (inner ∷ []);
}

abbrev ner : Recognizer Bytes
ner = record {
  name = codes "ner";
  detect = λ t. name_part ∷ [];
  try_detect = λ t. err (codes "down");
}

abbrev engine : PiiEngine Bytes
engine = record {
  recognizers = phones ∷ mails ∷ ner ∷ [];
  allowed_kinds = none;
  ner_scan_roles = some (codes "user" ∷ []);
}

scan-overlap : scan_for_role engine text (some (codes "USER")) ≡ name_part ∷ mail ∷ []
unfolding scan_for_role scan_impl filter_allowed ner_enabled_for_role to_ascii_lowercase equal
    participates candidates merge_tagged sort_by insert_by select_from span_len
scan-overlap = refl

abbrev tagged : List (ℕ × Detection)
tagged = (0, inner) ∷ (1, mail) ∷ (2, name_part) ∷ []

merge_tagged-greedy_example :
    AreDisjoint 0 (merge_tagged tagged)
    × ((d : Detection) → In d (merge_tagged tagged) → (i : ℕ) × In (i, d) tagged)
    × ((i : ℕ) (d : Detection) → In (i, d) tagged → IsDecided d (merge_tagged tagged))
merge_tagged-greedy_example = merge_tagged-greedy tagged

recognizers-IsSpan :
    All (λ (r : Recognizer Bytes). All (IsSpan text) (r.detect text)) engine.recognizers
unfolding is_char_boundary
recognizers-IsSpan = (
  ((omega arith, omega arith, refl, refl), tt),
  (
    ((omega arith, omega arith, refl, refl), tt),
    (((omega arith, omega arith, refl, refl), tt), tt),
  ),
)

scan_for_role-AreSpans_example : AreSpans text 0 (scan_for_role engine text none)
unfolding is_char_boundary
scan_for_role-AreSpans_example =
    scan_for_role-AreSpans engine text none (In-All _ engine.recognizers recognizers-IsSpan)

try_scan_for_role-err_example :
    try_scan_for_role engine text (some (codes "user")) ≡ err (codes "down")
unfolding participates equal ner_enabled_for_role to_ascii_lowercase
try_scan_for_role-err_example =
    try_scan_for_role-err engine text (some (codes "user")) (phones ∷ mails ∷ []) ner []
      (codes "down") refl (λ h. refl, (λ h. refl, tt)) refl refl
