-- ===== src/Guardrails/Outcome.antt =====
-- What an evaluation of the rules decides.
use drgtw.Base.{
  ℕ, ◌≡◌, refl, sym, ap, ◌∙◌, Bytes, Bool, true, false, ◌&&◌, Option, none, some, List, [], ◌∷◌,
  ◌++◌, append_assoc, append-nil, keep, if◌then◌else◌, length,
}
use drgtw.Guardrails.{
  GuardrailAction, block, redact, flag, CompiledRule, GuardrailOutcome, blocked, redacted, flagged,
  allowed, merge_spans, block_reason, flag_reason, join, conclude, evaluate_from, evaluate,
}

-- The rule matches the text, with that action.
is_some : List (ℕ × ℕ) → Bool
is_some [] = false
is_some (s ∷ spans) = true

abbrev is_block : GuardrailAction → Bool
is_block a = elim a [ block ↦ true | redact ↦ false | flag ↦ false ]

abbrev is_redact : GuardrailAction → Bool
is_redact a = elim a [ block ↦ false | redact ↦ true | flag ↦ false ]

-- The rule forbids the text.
abbrev pub blocks : Bytes → CompiledRule → Bool
unfolding is_some
blocks text rule = is_some (rule.find text) && is_block rule.action

-- The spans that the redacting rules find, in the order of the rules, and the reasons of the flags.
abbrev pub redact_spans : Bytes → List CompiledRule → List (ℕ × ℕ)
redact_spans text [] = []
redact_spans text (rule ∷ rules) =
    elim rule.action [ block ↦ [] | redact ↦ rule.find text | flag ↦ [] ] ++ redact_spans text rules

flag_of : Bytes → List (ℕ × ℕ) → List Bytes
flag_of name [] = []
flag_of name (s ∷ spans) = flag_reason name (length (s ∷ spans)) ∷ []

abbrev pub flag_reasons : Bytes → List CompiledRule → List Bytes
unfolding flag_of
flag_reasons text [] = []
flag_reasons text (rule ∷ rules) =
    elim rule.action [ block ↦ [] | redact ↦ [] | flag ↦ flag_of rule.name (rule.find text) ]
    ++ flag_reasons text rules

-- The first rule that forbids the text.
unfoldable pub first_block : Bytes → List CompiledRule → Option CompiledRule
first_block text [] = none
first_block text (rule ∷ rules) =
    let later = first_block text rules in if blocks text rule then some rule else later

-- The outcome as the first blocking rule decides it, or else all spans and reasons.
abbrev pub decided : Option CompiledRule → List (ℕ × ℕ) → List Bytes → GuardrailOutcome
decided (some rule) redactions flags = blocked (block_reason rule.name)
decided none (r ∷ rs) flags = redacted (merge_spans (r ∷ rs))
decided none [] (f ∷ fs) = flagged (join (f ∷ fs))
decided none [] [] = allowed

conclude-decided :
    (redactions : List (ℕ × ℕ)) (flags : List Bytes)
    → conclude redactions flags ≡ decided none redactions flags
unfolding conclude
conclude-decided (r ∷ rs) flags = refl
conclude-decided [] (f ∷ fs) = refl
conclude-decided [] [] = refl

-- One rule, whose matches and whose action are given.
evaluate_rule :
    (text : Bytes) (rule : CompiledRule) (rules : List CompiledRule) (spans : List (ℕ × ℕ))
    (action : GuardrailAction) (redactions : List (ℕ × ℕ)) (flags : List Bytes)
    → ((r : List (ℕ × ℕ)) (f : List Bytes)
        → evaluate_from text rules r f
          ≡ decided
              (first_block text rules)
              (r ++ redact_spans text rules)
              (f ++ flag_reasons text rules))
    → elim spans [
      | [] ↦ evaluate_from text rules redactions flags
      | s ∷ more ↦ elim action [
        | block ↦ blocked (block_reason rule.name)
        | redact ↦ evaluate_from text rules (redactions ++ s ∷ more) flags
        | flag ↦
            evaluate_from text rules redactions
              (flags ++ flag_reason rule.name (length (s ∷ more)) ∷ [])
      ]
    ]
      ≡ decided
          (if is_some spans && is_block action then some rule else first_block text rules)
          (redactions
            ++ (elim action [ block ↦ [] | redact ↦ spans | flag ↦ [] ] ++ redact_spans text rules))
          (flags
            ++ (elim action [ block ↦ [] | redact ↦ [] | flag ↦ flag_of rule.name spans ]
                ++ flag_reasons text rules))
unfolding is_some flag_of
evaluate_rule text rule rules [] block redactions flags h = h redactions flags
evaluate_rule text rule rules [] redact redactions flags h = h redactions flags
evaluate_rule text rule rules [] flag redactions flags h = h redactions flags
evaluate_rule text rule rules (s ∷ more) block redactions flags h = refl
evaluate_rule text rule rules (s ∷ more) redact redactions flags h =
    h (redactions ++ s ∷ more) flags
    ∙ ap (λ x. decided (first_block text rules) x (flags ++ flag_reasons text rules))
        (append_assoc redactions (s ∷ more) (redact_spans text rules))
evaluate_rule text rule rules (s ∷ more) flag redactions flags h =
    let one : List Bytes = flag_reason rule.name (length (s ∷ more)) ∷ [] in
    h redactions (flags ++ one)
    ∙ ap (decided (first_block text rules) (redactions ++ redact_spans text rules))
        (append_assoc flags one (flag_reasons text rules))

evaluate_from-decided :
    (text : Bytes) (rules : List CompiledRule) (redactions : List (ℕ × ℕ)) (flags : List Bytes)
    → evaluate_from text rules redactions flags
      ≡ decided
          (first_block text rules)
          (redactions ++ redact_spans text rules)
          (flags ++ flag_reasons text rules)
unfolding evaluate_from first_block is_some flag_of
evaluate_from-decided text [] redactions flags =
    conclude-decided redactions flags
    ∙ ap (λ x. decided none x flags) (sym (append-nil redactions))
    ∙ ap (decided none (redactions ++ [])) (sym (append-nil flags))
evaluate_from-decided text (rule ∷ rules) redactions flags =
    evaluate_rule text rule rules (rule.find text) rule.action redactions flags
      (evaluate_from-decided text rules)

-- The outcome of the rules of a phase: the first of them that matches and blocks decides, whatever the
-- others found. Otherwise all spans of the redacting rules are merged and redacted; without any, all
-- flags are reported, in the order of the rules; and without those the text is allowed.
pub evaluate-decided :
    (rules : List CompiledRule) (text : Bytes) (selector : CompiledRule → Bool)
    → evaluate rules text selector
      ≡ decided
          (first_block text (keep selector rules))
          (redact_spans text (keep selector rules))
          (flag_reasons text (keep selector rules))
unfolding evaluate
evaluate-decided rules text selector = evaluate_from-decided text (keep selector rules) [] []
