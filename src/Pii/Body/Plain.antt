-- ===== src/Pii/Body/Plain.antt =====
-- The fallible walk without a persistent store, when the recognisers succeed.
use drgtw.Base.{
  ℕ, ◌≡◌, refl, subst, sym, ◌∙◌, inl, inr, Bytes, Option, none, some, List, [], ◌∷◌, ◌++◌, length,
  Option-cases,
}
use drgtw.Base.Json.{Value}
use drgtw.Base.Lists.{All, All-In, In-All}
use drgtw.Base.Results.{Result, ok}
use drgtw.Pii.Kind.{Detection, placeholder_prefix}
use drgtw.Pii.Slice.{slice}
use drgtw.Pii.Engine.{PiiEngine, scan_for_role, try_scan_for_role}
use drgtw.Pii.Engine.Scan.{try_scan_for_role-ok}
use drgtw.Pii.EntityMap.{EntityMap, DetectError, get_or_insert, pseudonymize_from, pseudonymize}
use drgtw.Pii.EntityMap.Fallible.{succeeded, store_kept, try_pseudonymize-plain}
use drgtw.Pii.Body.{BodyFormat, scan_and_rewrite, pseudonymize_body}
use drgtw.Pii.Body.Fallible.{Tried, try_scan_and_rewrite, try_pseudonymize_body}
use drgtw.Pii.Body.Agrees.{TextAgrees, AgreesWith, rewrite_body-Agree}

-- Every recogniser succeeds on every text with what its plain form detects.
abbrev pub NeverFails : PiiEngine DetectError → Type 0
NeverFails engine =
    (text : Bytes) → All (λ r. r.try_detect text ≡ ok (r.detect text)) engine.recognizers

module _ {S : Type 0} where
  abbrev IsStoreless : EntityMap S → Type 0
  IsStoreless m = m.store ≡ none

  abbrev Keeps : Option (EntityMap S × Bytes) → Type 0
  Keeps none = Unit
  Keeps (some (m, out)) = IsStoreless m

  pseudonymize_from-Keeps :
      (up : Bytes → Bytes) (text : Bytes) (cursor : ℕ) (dets : List Detection) (out : Bytes)
      (m : EntityMap S)
      → IsStoreless m
      → Keeps (pseudonymize_from up text cursor dets out m)
  unfolding pseudonymize_from
  pseudonymize_from-Keeps up text cursor [] out m h =
      elim (Option-cases (slice text cursor (length text))) [
        | inl bad ↦ rw (bad, pseudonymize_from) tt
        | inr (rest, good) ↦ rw (good, pseudonymize_from) h
      ]
  pseudonymize_from-Keeps up text cursor (det ∷ dets) out m h =
      elim (Option-cases (slice text cursor det.start)) [
        | inl bad ↦ rw (bad, pseudonymize_from) tt
        | inr (before, good) ↦ elim (Option-cases (slice text det.start det.stop)) [
          | inl bad ↦ rw (good, pseudonymize_from) (rw (bad, pseudonymize_from) tt)
          | inr (original, fine) ↦
              let prefix = placeholder_prefix up det.kind in
              rw (good, pseudonymize_from)
                (rw (fine, pseudonymize_from)
                  (pseudonymize_from-Keeps up text det.stop dets
                    (out ++ (before ++ (get_or_insert prefix original m).1))
                    (get_or_insert prefix original m).0 (store_kept prefix original m ∙ h)))
        ]
      ]

  succeeded-TextAgrees :
      (o : Option (EntityMap S × Bytes)) → Keeps o → TextAgrees IsStoreless o (succeeded o)
  succeeded-TextAgrees none h = refl
  succeeded-TextAgrees (some (m, s)) h = (refl, h)

  -- The outcome of a plain walk as one without an error.
  abbrev pub without_error : Option (EntityMap S × Value) → Tried (EntityMap S) Value
  without_error none = none
  without_error (some (m, v)) = some (m, v, none)

  AgreesWith-without_error :
      (o : Option (EntityMap S × Value)) (t : Tried (EntityMap S) Value)
      → AgreesWith IsStoreless o t
      → t ≡ without_error o
  AgreesWith-without_error none t h = h
  AgreesWith-without_error (some (m, v)) t (e, h) = e

  module _ (up : Bytes → Bytes) (goa : S → Bytes → Bytes → Result Bytes Bytes × S)
      (engine : PiiEngine DetectError) (fine : NeverFails engine) where
    text-TextAgrees :
        (text : Bytes) (role : Option Bytes) (m : EntityMap S)
        → IsStoreless m
        → TextAgrees IsStoreless
            (scan_and_rewrite up engine text role m)
            (try_scan_and_rewrite up goa engine text role m)
    unfolding scan_and_rewrite try_scan_and_rewrite
    text-TextAgrees text role m h =
        let dets = scan_for_role engine text role in
        let scanned : try_scan_for_role engine text role ≡ ok dets =
          try_scan_for_role-ok engine text role
            (All-In _ engine.recognizers (λ r i p. In-All _ engine.recognizers (fine text) r i)) in
        rw (scanned, try_scan_and_rewrite)
          (subst (TextAgrees IsStoreless (pseudonymize up text dets m))
            (sym (try_pseudonymize-plain up goa text dets m h))
            (succeeded-TextAgrees (pseudonymize up text dets m)
              (pseudonymize_from-Keeps up text 0 dets [] m h)))

    -- Without a persistent store, and if no recogniser fails on a text, the fallible walk does what the plain
    -- one does and reports no error.
    pub try_pseudonymize_body-plain :
        (format : BodyFormat) (m : EntityMap S) (body : Value)
        → m.store ≡ none
        → try_pseudonymize_body up goa engine format m body
          ≡ without_error (pseudonymize_body up engine format m body)
    unfolding try_pseudonymize_body pseudonymize_body
    try_pseudonymize_body-plain format m body h =
        AgreesWith-without_error (pseudonymize_body up engine format m body)
          (try_pseudonymize_body up goa engine format m body)
          (rewrite_body-Agree IsStoreless (scan_and_rewrite up engine)
            (try_scan_and_rewrite up goa engine) text-TextAgrees format m body h)
