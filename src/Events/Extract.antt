-- ===== src/Events/Extract.antt =====
-- Token counts in the bodies of responses (crates/drgtw-events/src/extract.rs).
use drgtw.Base.{ℕ, codes, Option, none, some, [], ◌∷◌}
use drgtw.Base.Json.{Value, key, u64_at}

-- Both counts, or nothing.
unfoldable pub both_counts : Option ℕ → Option ℕ → Option (ℕ × ℕ)
both_counts none output = none
both_counts (some i) none = none
both_counts (some i) (some o) = some (i, o)

unfoldable pub extract_usage_openai : Value → Option (ℕ × ℕ)
unfolding both_counts u64_at
extract_usage_openai body =
    both_counts (u64_at (key (codes "usage") ∷ key (codes "prompt_tokens") ∷ []) body)
      (u64_at (key (codes "usage") ∷ key (codes "completion_tokens") ∷ []) body)

unfoldable pub extract_usage_anthropic : Value → Option (ℕ × ℕ)
unfolding both_counts u64_at
extract_usage_anthropic body =
    both_counts (u64_at (key (codes "usage") ∷ key (codes "input_tokens") ∷ []) body)
      (u64_at (key (codes "usage") ∷ key (codes "output_tokens") ∷ []) body)

unfoldable pub extract_usage_anthropic_stream_start : Value → Option ℕ
unfolding u64_at
extract_usage_anthropic_stream_start ev =
    u64_at (key (codes "message") ∷ key (codes "usage") ∷ key (codes "input_tokens") ∷ []) ev

unfoldable pub extract_usage_anthropic_stream_delta : Value → Option ℕ
unfolding u64_at
extract_usage_anthropic_stream_delta ev =
    u64_at (key (codes "usage") ∷ key (codes "output_tokens") ∷ []) ev
