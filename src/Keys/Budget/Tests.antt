-- ===== src/Keys/Budget/Tests.antt =====
-- A budget in whole cents, and the theorems at it.
use drgtw.Base.{
  ℕ, ◌+◌, ◌*◌, ◌<◌, ◌≡◌, refl, codes, false, none, some, [], ◌∷◌, arith, get_elem?, strip_prefix,
  ltb, ◌==◌,
}
use drgtw.Pii.Decimal.{value}
use drgtw.Keys.Config.{VirtualKey, Config}
use drgtw.Keys.KeyIndex.{parse_key_index, parse_usize, parse_digits}
use drgtw.Keys.OldKey.{IsFirst}
use drgtw.Keys.Budget.{
  MoneyOps, allowed, BudgetWindow, BudgetTracker, nanos, check_window, maybe_reset, decision,
  retry_after, find_window, rebuild_from,
}
use drgtw.Keys.Budget.Window.{record_all, added, retry_after-suffices, record_all-adds}
use drgtw.Keys.Budget.Tracker.{IsCarried, rebuild_from_carries}

abbrev cents : MoneyOps ℕ
cents = record { zero_usd = 0; less = ltb; plus = λ a b. a + b; close = ◌==◌ }

-- Started at 5 ns, ten seconds long, all spent.
abbrev spent_window : BudgetWindow ℕ
spent_window = record { max_usd = 100; window = 10 * nanos; spent_usd = 120; window_start = some 5 }

retry_after-suffices_example :
    ((check_window cents 10000000005 (check_window cents 2000000005 spent_window).0).1
      ≡ allowed 0 100)
    × (2000000005 + 8 * nanos < 5 + spent_window.window + nanos)
unfolding check_window maybe_reset decision retry_after
retry_after-suffices_example =
    retry_after-suffices cents spent_window 5 2000000005 10000000005 8 refl (omega arith)
      (omega arith) refl (omega arith) refl

abbrev empty_window : BudgetWindow ℕ
empty_window = record { max_usd = 100; window = 10 * nanos; spent_usd = 0; window_start = none }

record_all-adds_example :
    record_all cents ((5, 30) ∷ (900, 20) ∷ []) empty_window ≡ record empty_window {
      spent_usd = added cents 0 ((5, 30) ∷ (900, 20) ∷ []);
      window_start = some 5;
    }
record_all-adds_example =
    record_all-adds cents 5 30 ((900, 20) ∷ []) empty_window refl refl (omega arith, tt)

abbrev tracker : BudgetTracker ℕ
tracker = record { windows = some empty_window ∷ some spent_window ∷ [] }

found : find_window cents (codes "vk-1") tracker ≡ some (1, spent_window)
unfolding find_window parse_key_index strip_prefix parse_usize parse_digits value
found = refl

abbrev key_of : ℕ → VirtualKey ℕ
key_of limit = record {
  key = codes "secret";
  connections = [];
  models = none;
  rate_limit = none;
  budget = some (record { max_usd = limit; per_seconds = 10 });
  mcp_servers = none;
  allow_pii_bypass = false;
}

abbrev config_of : ℕ → Config ℕ
config_of limit = record { connections = []; virtual_keys = key_of limit ∷ [] }

only_key : (limit : ℕ) → IsFirst (codes "secret") (config_of limit).virtual_keys 0
only_key limit = record {
  holder = key_of limit;
  found = refl;
  has_secret = refl;
  none_before = λ j vk at e. omega arith;
}

-- The limit was raised from 100 to 500: the spend stays.
rebuild_from_carries_example :
    (w : BudgetWindow ℕ) × (get_elem?
        (rebuild_from cents
          (config_of 100)
          (config_of 500)
          8
          (record { windows = some spent_window ∷ [] })).windows
        0
      ≡ some (some w))
    × IsCarried cents spent_window (record { max_usd = 500; per_seconds = 10 }) 8 w
rebuild_from_carries_example =
    rebuild_from_carries cents (record { windows = some spent_window ∷ [] }) (config_of 100)
      (config_of 500) 8 0 0 (key_of 500) (record { max_usd = 500; per_seconds = 10 }) spent_window
      refl refl (only_key 100) refl refl
