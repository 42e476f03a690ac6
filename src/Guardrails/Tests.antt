-- ===== src/Guardrails/Tests.antt =====
-- The guardrails on concrete spans and rules, and their theorems there.
use drgtw.Base.{ℕ, ◌≡◌, refl, codes, List, [], ◌∷◌, arith, keep}
use drgtw.Base.Sort.{sort_by, insert_by}
use drgtw.Guardrails.{
  CompiledRule, pre, both, block, redact, blocked, dedup_from, dedup, merge_from, merge_sorted,
  merge_spans, block_reason, runs_pre, evaluate_from, evaluate, check_request,
}
use drgtw.Guardrails.Merge.{AreApart, covered, merge_spans-covers}
use drgtw.Guardrails.Outcome.{first_block, decided, redact_spans, flag_reasons, evaluate-decided}

abbrev spans : List (ℕ × ℕ)
spans = (8, 9) ∷ (2, 5) ∷ (4, 8) ∷ (2, 5) ∷ []

merge_spans-run : merge_spans spans ≡ (2, 8) ∷ (8, 9) ∷ []
unfolding merge_spans sort_by insert_by dedup dedup_from merge_sorted merge_from
merge_spans-run = refl

merge_spans-covers_example :
    AreApart 0 (merge_spans spans) × ((i : ℕ) → covered (merge_spans spans) i ≡ covered spans i)
merge_spans-covers_example =
    merge_spans-covers spans (omega arith, (omega arith, (omega arith, (omega arith, tt))))

abbrev rules : List CompiledRule
rules =
    record { name = codes "hide"; phase = both; action = redact; find = λ t. (0, 3) ∷ [] }
    ∷ record { name = codes "stop"; phase = pre; action = block; find = λ t. (1, 2) ∷ [] }
    ∷ []

check_request-run :
    check_request rules (codes "text") ≡ blocked (codes "guardrail `stop` blocked content")
unfolding check_request evaluate runs_pre evaluate_from block_reason
check_request-run = refl

evaluate-decided_example :
    evaluate rules (codes "text") runs_pre
    ≡ decided
        (first_block (codes "text") (keep runs_pre rules))
        (redact_spans (codes "text") (keep runs_pre rules))
        (flag_reasons (codes "text") (keep runs_pre rules))
evaluate-decided_example = evaluate-decided rules (codes "text") runs_pre
