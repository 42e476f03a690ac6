-- ===== src/Keys/Rate.antt =====
-- `RateLimiter`: a token bucket per key (crates/drgtw-keys/src/lib.rs). Times are nanoseconds. Tokens
-- and seconds, of type `f64`, are of an abstract type with the operations that are used. The clock's
-- reading is an argument.
pub mod Limits
mod Tests
use drgtw.Base.{
  ℕ, zero, suc, ◌+◌, ◌-◌, ◌*◌, Bytes, Bool, true, false, Option, none, some, List, [], ◌∷◌,
  get_elem?, equal, ◌==◌, if◌then◌else◌,
}
use drgtw.Keys.Config.{VirtualKey, Config, RateLimit}
use drgtw.Keys.KeyIndex.{parse_key_index}
use drgtw.Keys.Budget.{set_at}

-- What is used of `f64` and of its conversions: `as f64` of a number, `as_secs_f64` of nanoseconds and
-- `from_secs_f64` back, and `floor() as u32` and `ceil() as u64`.
pub record FloatOps (F : Type 0) : Type 0 where
  pub of_nat : ℕ → F
  pub add : F → F → F
  pub subtract : F → F → F
  pub times : F → F → F
  pub divide : F → F → F
  pub least : F → F → F
  pub at_least : F → F → Bool
  pub seconds : ℕ → F
  pub from_secs : F → ℕ
  pub floor_u32 : F → ℕ
  pub ceil_u64 : F → ℕ

pub data RateDecision : Type 0 where
  unlimited : RateDecision
  allowed : ℕ → ℕ → RateDecision
  limited : ℕ → ℕ → RateDecision

pub record Bucket (F : Type 0) : Type 0 where
  pub capacity : ℕ
  pub refill_interval : ℕ
  pub tokens : F
  pub last_refill : ℕ

pub record RateLimiter (F : Type 0) : Type 0 where
  pub buckets : List (Option (Bucket F))

pub record RateLimiterSnapshot : Type 0 where
  pub remaining : ℕ
  pub capacity : ℕ
  pub secs_to_next_token : ℕ

module _ {F : Type 0} (f : FloatOps F) where
  unfoldable pub new_bucket : ℕ → ℕ → ℕ → Bucket F
  new_bucket capacity per_seconds now = record {
    capacity = capacity;
    refill_interval = f.from_secs (f.divide (f.of_nat per_seconds) (f.of_nat capacity));
    tokens = f.of_nat capacity;
    last_refill = now;
  }

  -- The tokens after the refill, at most the capacity.
  unfoldable pub current_tokens : ℕ → Bucket F → F
  current_tokens now b =
      let refill_rate = f.divide (f.of_nat 1) (f.seconds b.refill_interval) in
      f.least (f.add b.tokens (f.times (f.seconds (now - b.last_refill)) refill_rate))
        (f.of_nat b.capacity)

  unfoldable pub secs_to_token : F → Bucket F → ℕ
  secs_to_token tokens b =
      f.ceil_u64 (f.times (f.subtract (f.of_nat 1) tokens) (f.seconds b.refill_interval))

  unfoldable pub check_bucket : ℕ → Bucket F → Bucket F × RateDecision
  unfolding current_tokens secs_to_token
  check_bucket now b =
      let tokens = current_tokens now b in
      let left = f.subtract tokens (f.of_nat 1) in
      if f.at_least tokens (f.of_nat 1)
      then (record b { tokens = left; last_refill = now }, allowed (f.floor_u32 left) b.capacity)
      else (
        record b { tokens = tokens; last_refill = now },
        limited (secs_to_token tokens b) b.capacity,
      )

  buckets_of : ℕ → List (VirtualKey F) → List (Option (Bucket F))
  unfolding new_bucket
  buckets_of now [] = []
  buckets_of now (vk ∷ vks) =
      elim vk.rate_limit [
        | none ↦ none
        | some rl ↦ some (new_bucket rl.requests rl.per_seconds now)
      ]
      ∷ buckets_of now vks

  unfoldable pub new : Config F → ℕ → RateLimiter F
  unfolding buckets_of
  new config now = record { buckets = buckets_of now config.virtual_keys }

  unfoldable pub find_bucket : Bytes → RateLimiter F → Option (ℕ × Bucket F)
  unfolding parse_key_index
  find_bucket key_id l = elim (parse_key_index key_id) [
    | none ↦ none
    | some idx ↦ elim (get_elem? l.buckets idx) [
      | none ↦ none
      | some none ↦ none
      | some (some b) ↦ some (idx, b)
    ]
  ]

  unfoldable pub check : Bytes → ℕ → RateLimiter F → RateLimiter F × RateDecision
  unfolding find_bucket check_bucket set_at
  check key_id now l = elim (find_bucket key_id l) [
    | none ↦ (l, unlimited)
    | some (idx, b) ↦
        let (b', d) = check_bucket now b in (record { buckets = set_at idx (some b') l.buckets }, d)
  ]

  -- The first old key with that secret: its bucket in the old limiter.
  unfoldable pub old_bucket :
      Bytes → List (VirtualKey F) → List (Option (Bucket F)) → Option (Bucket F)
  unfolding equal
  old_bucket secret [] buckets = none
  old_bucket secret (vk ∷ vks) [] = none
  old_bucket secret (vk ∷ vks) (b ∷ bs) =
      let later = old_bucket secret vks bs in if equal vk.key secret then b else later

  unfoldable pub carry_over : Option (Bucket F) → RateLimit → ℕ → Bucket F
  unfolding new_bucket
  carry_over old rl now =
      let fresh = new_bucket rl.requests rl.per_seconds now in
      elim old [
        | none ↦ fresh
        | some b ↦
            if fresh.capacity == rl.requests
            then record fresh {
              tokens = f.least b.tokens (f.of_nat fresh.capacity);
              last_refill = b.last_refill;
            }
            else fresh
      ]

  unfoldable pub rebuild_buckets :
      RateLimiter F → List (VirtualKey F) → ℕ → List (VirtualKey F) → List (Option (Bucket F))
  unfolding carry_over old_bucket
  rebuild_buckets l old_keys now [] = []
  rebuild_buckets l old_keys now (vk ∷ vks) =
      elim vk.rate_limit [
        | none ↦ none
        | some rl ↦ some (carry_over (old_bucket vk.key old_keys l.buckets) rl now)
      ]
      ∷ rebuild_buckets l old_keys now vks

  unfoldable pub rebuild_from : Config F → Config F → ℕ → RateLimiter F → RateLimiter F
  unfolding rebuild_buckets
  rebuild_from old_config new_config now l = record {
    buckets = rebuild_buckets l old_config.virtual_keys now new_config.virtual_keys;
  }

  unfoldable pub snapshot_bucket : ℕ → Bucket F → RateLimiterSnapshot
  unfolding current_tokens secs_to_token
  snapshot_bucket now b =
      let tokens = current_tokens now b in
      record {
        remaining = f.floor_u32 tokens;
        capacity = b.capacity;
        secs_to_next_token = if f.at_least tokens (f.of_nat 1) then 0 else secs_to_token tokens b;
      }

  unfoldable pub snapshot : Bytes → ℕ → RateLimiter F → Option RateLimiterSnapshot
  unfolding find_bucket snapshot_bucket
  snapshot key_id now l = elim (find_bucket key_id l) [
    | none ↦ none
    | some (_, b) ↦ some (snapshot_bucket now b)
  ]
