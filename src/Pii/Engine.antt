-- ===== src/Pii/Engine.antt =====
-- `PiiEngine`: all recognisers over a text, merged (crates/drgtw-pii/src/engine.rs). A recogniser is a
-- value with its name and its two scans; an error is of an abstract type. `usize` has 64 bits.
pub mod Merge
pub mod Scan
mod Tests
use drgtw.Base.{
  ℕ, zero, suc, ◌+◌, ◌-◌, ◌%◌, ◌^◌, Bytes, codes, Bool, true, false, not, ◌&&◌, ◌||◌, Option, none,
  some, List, [], ◌∷◌, ◌++◌, map, any, keep, equal, ◌==◌, ltb, leb, if◌then◌else◌,
}
use drgtw.Base.Results.{Result, ok, err}
use drgtw.Base.Sort.{sort_by, insert_by}
use drgtw.Pii.Kind.{
  EntityKind, Detection, email, phone, iban, credit_card, person, org, location, ip_address,
  date_time, national_id, nrp, custom,
}

pub record Recognizer (DetectError : Type 0) : Type 0 where
  pub name : Bytes
  pub detect : Bytes → List Detection
  pub try_detect : Bytes → Result DetectError (List Detection)

pub record PiiEngine (DetectError : Type 0) : Type 0 where
  pub recognizers : List (Recognizer DetectError)
  pub allowed_kinds : Option (List EntityKind)
  pub ner_scan_roles : Option (List Bytes)

-- The derived equality of `EntityKind`.
unfoldable pub same_kind : EntityKind → EntityKind → Bool
unfolding equal
same_kind email email = true
same_kind phone phone = true
same_kind iban iban = true
same_kind credit_card credit_card = true
same_kind person person = true
same_kind org org = true
same_kind location location = true
same_kind ip_address ip_address = true
same_kind date_time date_time = true
same_kind national_id national_id = true
same_kind nrp nrp = true
same_kind (custom a) (custom b) = equal a b
same_kind _ _ = false

-- Merging

-- `end - start` on a `usize`, as it wraps in a release build.
unfoldable pub span_len : Detection → ℕ
span_len d = (d.stop + 2 ^ 64 - d.start) % 2 ^ 64

-- The start first, then the longer span, then the registration order.
abbrev pub before : ℕ × Detection → ℕ × Detection → Bool
before (i, a) (j, b) =
    ltb a.start b.start
    || a.start == b.start && (ltb (span_len b) (span_len a) || span_len a == span_len b && leb i j)

-- The loop over the sorted candidates with `last_end`.
unfoldable pub select_from : ℕ → List (ℕ × Detection) → List Detection
select_from last_end [] = []
select_from last_end ((_, d) ∷ rest) =
    let skipped = select_from last_end rest in
    let taken = select_from d.stop rest in if leb last_end d.start then d ∷ taken else skipped

unfoldable pub merge_tagged : List (ℕ × Detection) → List Detection
unfolding sort_by select_from span_len
merge_tagged tagged = select_from 0 (sort_by before tagged)

-- `a.to_ascii_lowercase()`.
unfoldable pub to_ascii_lowercase : Bytes → Bytes
to_ascii_lowercase = map (λ c. if leb b'A' c && leb c b'Z' then c + 32 else c)

-- A recogniser's detections with its registration index.
abbrev pub tag : ℕ → List Detection → List (ℕ × Detection)
tag idx = map (λ d. (idx, d))

module _ {DetectError : Type 0} where
  unfoldable pub filter_allowed : PiiEngine DetectError → List Detection → List Detection
  unfolding same_kind
  filter_allowed engine dets = elim engine.allowed_kinds [
    | none ↦ dets
    | some allowed ↦ keep (λ d. any (λ k. same_kind k d.kind) allowed) dets
  ]

  unfoldable pub participates : Bool → Recognizer DetectError → Bool
  participates include_ner r = include_ner || not (equal r.name (codes "ner"))

  -- The candidates of all recognisers, from a registration index on.
  unfoldable pub candidates :
      Bytes → Bool → ℕ → List (Recognizer DetectError) → List (ℕ × Detection)
  unfolding participates
  candidates text include_ner idx [] = []
  candidates text include_ner idx (r ∷ rs) =
      let rest = candidates text include_ner (idx + 1) rs in
      if participates include_ner r then tag idx (r.detect text) ++ rest else rest

  unfoldable pub scan_impl : PiiEngine DetectError → Bytes → Bool → List Detection
  unfolding filter_allowed candidates merge_tagged
  scan_impl engine text include_ner =
      filter_allowed engine (merge_tagged (candidates text include_ner 0 engine.recognizers))

  unfoldable pub try_candidates :
      Bytes → Bool → ℕ → List (Recognizer DetectError) → Result DetectError (List (ℕ × Detection))
  unfolding participates
  try_candidates text include_ner idx [] = ok []
  try_candidates text include_ner idx (r ∷ rs) =
      let rest = try_candidates text include_ner (idx + 1) rs in
      if participates include_ner r
      then elim (r.try_detect text) [
        | err e ↦ err e
        | ok dets ↦ elim rest [ err e ↦ err e | ok more ↦ ok (tag idx dets ++ more) ]
      ]
      else rest

  unfoldable pub try_scan_impl :
      PiiEngine DetectError → Bytes → Bool → Result DetectError (List Detection)
  unfolding filter_allowed try_candidates merge_tagged
  try_scan_impl engine text include_ner =
      elim (try_candidates text include_ner 0 engine.recognizers) [
        | err e ↦ err e
        | ok tagged ↦ ok (filter_allowed engine (merge_tagged tagged))
      ]

  -- The role `none` is unknown: the recogniser runs.
  unfoldable pub ner_enabled_for_role : PiiEngine DetectError → Option Bytes → Bool
  unfolding to_ascii_lowercase
  ner_enabled_for_role engine role = elim engine.ner_scan_roles [
    | none ↦ true
    | some roles ↦ elim role [
      | none ↦ true
      | some r ↦ any (λ x. equal x (to_ascii_lowercase r)) roles
    ]
  ]

  unfoldable pub scan : PiiEngine DetectError → Bytes → List Detection
  unfolding scan_impl
  scan engine text = scan_impl engine text true

  unfoldable pub scan_for_role : PiiEngine DetectError → Bytes → Option Bytes → List Detection
  unfolding scan_impl ner_enabled_for_role
  scan_for_role engine text role = scan_impl engine text (ner_enabled_for_role engine role)

  unfoldable pub try_scan : PiiEngine DetectError → Bytes → Result DetectError (List Detection)
  unfolding try_scan_impl
  try_scan engine text = try_scan_impl engine text true

  unfoldable pub try_scan_for_role :
      PiiEngine DetectError → Bytes → Option Bytes → Result DetectError (List Detection)
  unfolding try_scan_impl ner_enabled_for_role
  try_scan_for_role engine text role = try_scan_impl engine text (ner_enabled_for_role engine role)

  unfoldable pub push_recognizer :
      Recognizer DetectError → PiiEngine DetectError → PiiEngine DetectError
  push_recognizer r engine = record engine { recognizers = engine.recognizers ++ r ∷ [] }
