-- ===== src/Keys/Rate/Limits.antt =====
-- What the limiter shows is what it decides, and what a change of the configuration carries over.
use drgtw.Base.{
  ℕ, zero, suc, ◌≡◌, refl, ◌∙◌, inl, inr, Bytes, Option, none, some, List, [], ◌∷◌, arith,
  get_elem?, equal, equal_iff, ==_iff, if◌then◌else◌, Bool-cases, Option-cases,
}
use drgtw.Keys.Config.{VirtualKey, Config, RateLimit}
use drgtw.Keys.OldKey.{IsFirst, IsFirst-head, IsFirst-zero, IsFirst-tail}
use drgtw.Keys.Rate.{
  FloatOps, RateDecision, unlimited, allowed, limited, Bucket, RateLimiter, RateLimiterSnapshot,
  new_bucket, current_tokens, check_bucket, find_bucket, check, carry_over, old_bucket,
  rebuild_buckets, rebuild_from, snapshot_bucket,
}

module _ {F : Type 0} (f : FloatOps F) where
  -- The decision that the shown state announces.
  unfoldable pub announced : F → RateLimiterSnapshot → RateDecision
  announced tokens s =
      if f.at_least tokens (f.of_nat 1)
      then allowed (f.floor_u32 (f.subtract tokens (f.of_nat 1))) s.capacity
      else limited s.secs_to_next_token s.capacity

  check_bucket-announced :
      (now : ℕ) (b : Bucket F)
      → (check_bucket f now b).1 ≡ announced (current_tokens f now b) (snapshot_bucket f now b)
  unfolding check_bucket snapshot_bucket announced
  check_bucket-announced now b =
      elim (Bool-cases (f.at_least (current_tokens f now b) (f.of_nat 1))) [
        | inl enough ↦ rw enough refl
        | inr short ↦ rw short refl
      ]

  -- The snapshot of a key and a check at the same time agree: both find no limit, or the check is
  -- allowed exactly if the tokens after the refill are at least one, and otherwise announces the very
  -- waiting time and capacity that the snapshot shows.
  pub check-snapshot :
      (key_id : Bytes) (now : ℕ) (l : RateLimiter F)
      → (check f key_id now l).1 ≡ elim (find_bucket f key_id l) [
        | none ↦ unlimited
        | some (_, b) ↦ announced (current_tokens f now b) (snapshot_bucket f now b)
      ]
  unfolding check
  check-snapshot key_id now l = elim (Option-cases (find_bucket f key_id l)) [
    | inl out ↦ rw out refl
    | inr ((i, b), found) ↦ rw found (check_bucket-announced now b)
  ]

  get_elem?-rebuild_buckets :
      (l : RateLimiter F) (old_keys : List (VirtualKey F)) (now : ℕ) (vks : List (VirtualKey F))
      (j : ℕ) (vk : VirtualKey F) (rl : RateLimit)
      → get_elem? vks j ≡ some vk
      → vk.rate_limit ≡ some rl
      → get_elem? (rebuild_buckets f l old_keys now vks) j
        ≡ some (some (carry_over f (old_bucket f vk.key old_keys l.buckets) rl now))
  unfolding rebuild_buckets
  get_elem?-rebuild_buckets l old_keys now [] j vk rl h g = absurd (cc h)
  get_elem?-rebuild_buckets l old_keys now (v ∷ vks) zero vk rl h g = ground arith
  get_elem?-rebuild_buckets l old_keys now (v ∷ vks) (suc j) vk rl h g =
      get_elem?-rebuild_buckets l old_keys now vks j vk rl h g

  -- The bucket of the first old key with the secret is found.
  old_bucket-first :
      (secret : Bytes) (keys : List (VirtualKey F)) (buckets : List (Option (Bucket F))) (i : ℕ)
      (o : Option (Bucket F))
      → IsFirst secret keys i
      → get_elem? buckets i ≡ some o
      → old_bucket f secret keys buckets ≡ o
  unfolding old_bucket
  old_bucket-first secret [] bs i o h at = absurd (cc h.found)
  old_bucket-first secret (vk ∷ vks) [] i o h at = absurd (cc at)
  old_bucket-first secret (vk ∷ vks) (b ∷ bs) zero o h at =
      ground (arith, equal_iff vk.key secret, IsFirst-zero secret vk vks h)
  old_bucket-first secret (vk ∷ vks) (b ∷ bs) (suc i) o h at =
      elim (Bool-cases (equal vk.key secret)) [
        | inl e ↦
            absurd
              (omega (arith, IsFirst-head secret vk vks (suc i) h ((equal_iff vk.key secret).0 e)))
        | inr e ↦
            rw (e, old_bucket)
              (old_bucket-first secret vks bs i o (IsFirst-tail secret vk vks i h) at)
      ]

  -- When the configuration changes, a key with a limit, where the first old key with its secret has a
  -- bucket, has a bucket of its new capacity and interval with that bucket's tokens, cut to the new
  -- capacity, and its last refill, whatever the old capacity was.
  pub rebuild_from_keeps_tokens :
      (l : RateLimiter F) (old_config new_config : Config F) (now i j : ℕ) (vk : VirtualKey F)
      (rl : RateLimit) (b : Bucket F)
      → get_elem? new_config.virtual_keys j ≡ some vk
      → vk.rate_limit ≡ some rl
      → IsFirst vk.key old_config.virtual_keys i
      → get_elem? l.buckets i ≡ some (some b)
      → get_elem? (rebuild_from f old_config new_config now l).buckets j
        ≡ some (
            some (record {
              capacity = rl.requests;
              refill_interval =
                  f.from_secs (f.divide (f.of_nat rl.per_seconds) (f.of_nat rl.requests));
              tokens = f.least b.tokens (f.of_nat rl.requests);
              last_refill = b.last_refill;
            }))
  unfolding rebuild_from carry_over new_bucket
  rebuild_from_keeps_tokens l old_config new_config now i j vk rl b at limit first found =
      get_elem?-rebuild_buckets l old_config.virtual_keys now new_config.virtual_keys j vk rl at
        limit
      ∙ rw (old_bucket-first vk.key old_config.virtual_keys l.buckets i (some b) first found)
          (rw ((==_iff rl.requests rl.requests).1 refl) refl)
