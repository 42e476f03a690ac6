-- ===== src/Keys/Rate/Tests.antt =====
-- A limiter with whole tokens and nanoseconds as seconds, and the theorems at it.
use drgtw.Base.{
  arith, ℕ, ◌+◌, ◌-◌, ◌*◌, ◌/◌, min, ◌≡◌, refl, codes, false, none, some, [], ◌∷◌, get_elem?,
  strip_prefix, leb,
}
use drgtw.Pii.Decimal.{value}
use drgtw.Keys.Config.{VirtualKey, Config}
use drgtw.Keys.KeyIndex.{parse_key_index, parse_usize, parse_digits}
use drgtw.Keys.OldKey.{IsFirst}
use drgtw.Keys.Rate.{
  FloatOps, limited, Bucket, RateLimiter, current_tokens, find_bucket, check, check_bucket,
  secs_to_token, rebuild_from,
}
use drgtw.Keys.Rate.Limits.{rebuild_from_keeps_tokens}

abbrev whole : FloatOps ℕ
whole = record {
  of_nat = λ n. n;
  add = λ a b. a + b;
  subtract = λ a b. a - b;
  times = λ a b. a * b;
  divide = λ a b. a / b;
  least = min;
  at_least = λ a b. leb b a;
  seconds = λ n. n;
  from_secs = λ n. n;
  floor_u32 = λ n. n;
  ceil_u64 = λ n. n;
}

abbrev spent_bucket : Bucket ℕ
spent_bucket = record { capacity = 3; refill_interval = 7; tokens = 0; last_refill = 100 }

abbrev limiter : RateLimiter ℕ
limiter = record { buckets = none ∷ some spent_bucket ∷ [] }

check-run : (check whole (codes "vk-1") 100 limiter).1 ≡ limited 7 3
unfolding check find_bucket parse_key_index strip_prefix parse_usize parse_digits value check_bucket
    current_tokens secs_to_token
check-run = refl

abbrev key_of : ℕ → VirtualKey ℕ
key_of requests = record {
  key = codes "secret";
  connections = [];
  models = none;
  rate_limit = some (record { requests = requests; per_seconds = 21 });
  budget = none;
  mcp_servers = none;
  allow_pii_bypass = false;
}

abbrev config_of : ℕ → Config ℕ
config_of requests = record { connections = []; virtual_keys = key_of requests ∷ [] }

only_key : (requests : ℕ) → IsFirst (codes "secret") (config_of requests).virtual_keys 0
only_key requests = record {
  holder = key_of requests;
  found = refl;
  has_secret = refl;
  none_before = λ j vk at e. omega arith;
}

-- The capacity was raised from 3 to 9: the bucket stays empty.
rebuild_from_keeps_tokens_example :
    get_elem?
      (rebuild_from whole
        (config_of 3)
        (config_of 9)
        120
        (record { buckets = some spent_bucket ∷ [] })).buckets
      0
    ≡ some (
        some
          (record { capacity = 9; refill_interval = 21 / 9; tokens = min 0 9; last_refill = 100 }))
rebuild_from_keeps_tokens_example =
    rebuild_from_keeps_tokens whole (record { buckets = some spent_bucket ∷ [] }) (config_of 3)
      (config_of 9) 120 0 0 (key_of 9) (record { requests = 9; per_seconds = 21 }) spent_bucket refl
      refl (only_key 3) refl
