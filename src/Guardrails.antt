-- ===== src/Guardrails.antt =====
-- The content guardrails (crates/drgtw-guardrails/src/engine.rs): the rules in configuration order over a
-- text, and the merging of the spans to redact. A rule's matcher is a function from a text to spans.
pub mod Merge
pub mod Outcome
mod Tests
use drgtw.Base.{
  ℕ, ◌+◌, Bytes, codes, Bool, true, false, ◌&&◌, ◌||◌, List, [], ◌∷◌, ◌++◌, keep, length, ◌==◌, ltb,
  leb, if◌then◌else◌,
}
use drgtw.Base.Sort.{sort_by, insert_by}
use drgtw.Pii.Decimal.{decimal}

pub data GuardrailPhase : Type 0 where
  pre post both : GuardrailPhase

pub data GuardrailAction : Type 0 where
  block redact flag : GuardrailAction

pub record CompiledRule : Type 0 where
  pub name : Bytes
  pub phase : GuardrailPhase
  pub action : GuardrailAction
  pub find : Bytes → List (ℕ × ℕ)

pub data GuardrailOutcome : Type 0 where
  blocked : Bytes → GuardrailOutcome
  redacted : List (ℕ × ℕ) → GuardrailOutcome
  flagged : Bytes → GuardrailOutcome
  allowed : GuardrailOutcome

unfoldable pub runs_pre : CompiledRule → Bool
runs_pre rule = elim rule.phase [ pre ↦ true | post ↦ false | both ↦ true ]

unfoldable pub runs_post : CompiledRule → Bool
runs_post rule = elim rule.phase [ pre ↦ false | post ↦ true | both ↦ true ]

-- Spans

-- The order of pairs.
abbrev pub before : ℕ × ℕ → ℕ × ℕ → Bool
before (a, b) (c, d) = ltb a c || a == c && leb b d

-- `dedup`: of equal neighbours the first stays.
unfoldable pub dedup_from : ℕ × ℕ → List (ℕ × ℕ) → List (ℕ × ℕ)
dedup_from (a, b) [] = (a, b) ∷ []
dedup_from (a, b) ((c, d) ∷ spans) =
    let same = dedup_from (a, b) spans in
    let other = dedup_from (c, d) spans in if a == c && b == d then same else (a, b) ∷ other

unfoldable pub dedup : List (ℕ × ℕ) → List (ℕ × ℕ)
unfolding dedup_from
dedup [] = []
dedup (span ∷ spans) = dedup_from span spans

-- The loop, with the last merged span, which still may grow.
unfoldable pub merge_from : ℕ → ℕ → List (ℕ × ℕ) → List (ℕ × ℕ)
merge_from start stop [] = (start, stop) ∷ []
merge_from start stop ((s, e) ∷ spans) =
    let grown = merge_from start e spans in
    let kept = merge_from start stop spans in
    let next = merge_from s e spans in
    if ltb s stop then (if ltb stop e then grown else kept) else (start, stop) ∷ next

unfoldable pub merge_sorted : List (ℕ × ℕ) → List (ℕ × ℕ)
unfolding merge_from
merge_sorted [] = []
merge_sorted ((s, e) ∷ spans) = merge_from s e spans

unfoldable pub merge_spans : List (ℕ × ℕ) → List (ℕ × ℕ)
unfolding sort_by dedup merge_sorted
merge_spans spans = merge_sorted (dedup (sort_by before spans))

-- Evaluation

unfoldable pub block_reason : Bytes → Bytes
block_reason name = codes "guardrail `" ++ name ++ codes "` blocked content"

unfoldable pub flag_reason : Bytes → ℕ → Bytes
unfolding decimal
flag_reason name n =
    codes "guardrail `" ++ name ++ codes "` matched (" ++ decimal n ++ codes " span(s))"

-- `flags.join("; ")`.
unfoldable pub join : List Bytes → Bytes
join [] = []
join (f ∷ []) = f
join (f ∷ g ∷ fs) = f ++ codes "; " ++ join (g ∷ fs)

conclude : List (ℕ × ℕ) → List Bytes → GuardrailOutcome
unfolding merge_spans join
conclude (r ∷ rs) flags = redacted (merge_spans (r ∷ rs))
conclude [] (f ∷ fs) = flagged (join (f ∷ fs))
conclude [] [] = allowed

-- The loop over the rules of the phase.
unfoldable pub evaluate_from :
    Bytes → List CompiledRule → List (ℕ × ℕ) → List Bytes → GuardrailOutcome
unfolding block_reason flag_reason conclude
evaluate_from text [] redactions flags = conclude redactions flags
evaluate_from text (rule ∷ rules) redactions flags = elim (rule.find text) [
  | [] ↦ evaluate_from text rules redactions flags
  | s ∷ spans ↦ elim rule.action [
    | block ↦ blocked (block_reason rule.name)
    | redact ↦ evaluate_from text rules (redactions ++ s ∷ spans) flags
    | flag ↦
        evaluate_from text rules redactions
          (flags ++ flag_reason rule.name (length (s ∷ spans)) ∷ [])
  ]
]

unfoldable pub evaluate : List CompiledRule → Bytes → (CompiledRule → Bool) → GuardrailOutcome
unfolding evaluate_from
evaluate rules text selector = evaluate_from text (keep selector rules) [] []

unfoldable pub check_request : List CompiledRule → Bytes → GuardrailOutcome
unfolding evaluate runs_pre
check_request rules text = evaluate rules text runs_pre

unfoldable pub check_response : List CompiledRule → Bytes → GuardrailOutcome
unfolding evaluate runs_post
check_response rules text = evaluate rules text runs_post
