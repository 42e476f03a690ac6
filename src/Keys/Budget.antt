-- ===== src/Keys/Budget.antt =====
-- `BudgetTracker`: spend per key in fixed windows (crates/drgtw-keys/src/lib.rs). Times are nanoseconds.
-- Amounts of money, of type `f64`, are of an abstract type with the operations that are used. The
-- clock's reading is an argument.
pub mod Window
pub mod Tracker
mod Tests
use drgtw.Base.{
  ℕ, zero, suc, ◌+◌, ◌-◌, ◌*◌, ◌/◌, ◌%◌, ◌^◌, Bytes, Bool, true, false, Option, none, some, List,
  [], ◌∷◌, map, get_elem?, equal, ltb, leb, if◌then◌else◌,
}
use drgtw.Keys.Config.{VirtualKey, Config, Budget}
use drgtw.Keys.KeyIndex.{parse_key_index}

-- What is used of `f64`: 0, `<`, `+`, and `(a - b).abs() < f64::EPSILON`.
pub record MoneyOps (Usd : Type 0) : Type 0 where
  pub zero_usd : Usd
  pub less : Usd → Usd → Bool
  pub plus : Usd → Usd → Usd
  pub close : Usd → Usd → Bool

pub data BudgetDecision (Usd : Type 0) : Type 0 where
  unlimited : BudgetDecision Usd
  allowed : Usd → Usd → BudgetDecision Usd
  exhausted : Usd → ℕ → BudgetDecision Usd

pub record BudgetWindow (Usd : Type 0) : Type 0 where
  pub max_usd : Usd
  pub window : ℕ
  pub spent_usd : Usd
  pub window_start : Option ℕ

pub record BudgetSnapshot (Usd : Type 0) : Type 0 where
  pub spent_usd : Usd
  pub max_usd : Usd
  pub secs_to_reset : ℕ

pub record BudgetTracker (Usd : Type 0) : Type 0 where
  pub windows : List (Option (BudgetWindow Usd))

abbrev pub nanos : ℕ
nanos = 10 ^ 9

-- Replacing the element at an index: a write through a lock of the vector's element.
unfoldable pub set_at : {A : Type 0} → ℕ → A → List A → List A
set_at n x [] = []
set_at zero x (y ∷ ys) = x ∷ ys
set_at (suc n) x (y ∷ ys) = y ∷ set_at n x ys

module _ {Usd : Type 0} (money : MoneyOps Usd) where
  unfoldable pub new_window : Usd → ℕ → BudgetWindow Usd
  new_window max_usd per_seconds = record {
    max_usd = max_usd;
    window = per_seconds * nanos;
    spent_usd = money.zero_usd;
    window_start = none;
  }

  unfoldable pub maybe_reset : ℕ → BudgetWindow Usd → BudgetWindow Usd
  maybe_reset now w = elim w.window_start [
    | none ↦ w
    | some start ↦
        if leb w.window (now - start)
        then record w { spent_usd = money.zero_usd; window_start = none }
        else w
  ]

  -- Whole seconds, rounded up.
  unfoldable pub retry_after : ℕ → BudgetWindow Usd → ℕ
  retry_after now w = elim w.window_start [
    | none ↦ 0
    | some start ↦
        let remaining = w.window - (now - start) in
        remaining / nanos + (if ltb 0 (remaining % nanos) then 1 else 0)
  ]

  unfoldable pub decision : ℕ → BudgetWindow Usd → BudgetDecision Usd
  unfolding retry_after
  decision now w =
      if money.less w.spent_usd w.max_usd
      then allowed w.spent_usd w.max_usd
      else exhausted w.max_usd (retry_after now w)

  unfoldable pub check_window : ℕ → BudgetWindow Usd → BudgetWindow Usd × BudgetDecision Usd
  unfolding maybe_reset decision
  check_window now w = let r = maybe_reset now w in (r, decision now r)

  unfoldable pub started : Usd → ℕ → BudgetWindow Usd → Option ℕ
  started cost now w = elim w.window_start [
    | none ↦ if money.less money.zero_usd cost then some now else none
    | some start ↦ some start
  ]

  unfoldable pub record_window : Usd → ℕ → BudgetWindow Usd → BudgetWindow Usd
  unfolding maybe_reset started
  record_window cost now w =
      let r = maybe_reset now w in
      record r { window_start = started cost now r; spent_usd = money.plus r.spent_usd cost }

  -- The tracker

  windows_of : List (VirtualKey Usd) → List (Option (BudgetWindow Usd))
  unfolding new_window
  windows_of [] = []
  windows_of (vk ∷ vks) =
      elim vk.budget [ none ↦ none | some b ↦ some (new_window b.max_usd b.per_seconds) ]
      ∷ windows_of vks

  unfoldable pub new : Config Usd → BudgetTracker Usd
  unfolding windows_of
  new config = record { windows = windows_of config.virtual_keys }

  -- `self.windows.get(idx)` at the parsed index, with a configured budget.
  unfoldable pub find_window : Bytes → BudgetTracker Usd → Option (ℕ × BudgetWindow Usd)
  unfolding parse_key_index
  find_window key_id t = elim (parse_key_index key_id) [
    | none ↦ none
    | some idx ↦ elim (get_elem? t.windows idx) [
      | none ↦ none
      | some none ↦ none
      | some (some w) ↦ some (idx, w)
    ]
  ]

  unfoldable pub check : Bytes → ℕ → BudgetTracker Usd → BudgetTracker Usd × BudgetDecision Usd
  unfolding find_window check_window set_at
  check key_id now t = elim (find_window key_id t) [
    | none ↦ (t, unlimited)
    | some (idx, w) ↦
        let (w', d) = check_window now w in (record { windows = set_at idx (some w') t.windows }, d)
  ]

  unfoldable pub record_spend : Bytes → Usd → ℕ → BudgetTracker Usd → BudgetTracker Usd
  unfolding find_window record_window set_at
  record_spend key_id cost now t = elim (find_window key_id t) [
    | none ↦ t
    | some (idx, w) ↦ record { windows = set_at idx (some (record_window cost now w)) t.windows }
  ]

  -- The first old key with that secret: its window in the old tracker. The search stops at that key,
  -- also if it has no window.
  unfoldable pub old_window :
      Bytes → List (VirtualKey Usd) → List (Option (BudgetWindow Usd)) → Option (BudgetWindow Usd)
  unfolding equal
  old_window secret [] windows = none
  old_window secret (vk ∷ vks) [] = none
  old_window secret (vk ∷ vks) (w ∷ ws) =
      let later = old_window secret vks ws in if equal vk.key secret then w else later

  unfoldable pub carry_over : Option (BudgetWindow Usd) → Budget Usd → ℕ → BudgetWindow Usd
  unfolding new_window maybe_reset
  carry_over old budget now =
      let fresh = new_window budget.max_usd budget.per_seconds in
      elim old [
        | none ↦ fresh
        | some w ↦
            if money.close fresh.max_usd budget.max_usd
            then maybe_reset now
                (record fresh { spent_usd = w.spent_usd; window_start = w.window_start })
            else fresh
      ]

  unfoldable pub rebuild_windows :
      BudgetTracker Usd
      → List (VirtualKey Usd)
      → ℕ
      → List (VirtualKey Usd)
      → List (Option (BudgetWindow Usd))
  unfolding carry_over old_window
  rebuild_windows t old_keys now [] = []
  rebuild_windows t old_keys now (vk ∷ vks) =
      elim vk.budget [
        | none ↦ none
        | some b ↦ some (carry_over (old_window vk.key old_keys t.windows) b now)
      ]
      ∷ rebuild_windows t old_keys now vks

  unfoldable pub rebuild_from : Config Usd → Config Usd → ℕ → BudgetTracker Usd → BudgetTracker Usd
  unfolding rebuild_windows
  rebuild_from old_config new_config now t = record {
    windows = rebuild_windows t old_config.virtual_keys now new_config.virtual_keys;
  }

  secs_to_reset : ℕ → BudgetWindow Usd → ℕ
  secs_to_reset now w = elim w.window_start [
    | none ↦ 0
    | some start ↦ (w.window - (now - start)) / nanos
  ]

  -- The window is reset in place when it has elapsed.
  unfoldable pub snapshot :
      Bytes → ℕ → BudgetTracker Usd → BudgetTracker Usd × Option (BudgetSnapshot Usd)
  unfolding find_window maybe_reset set_at secs_to_reset
  snapshot key_id now t = elim (find_window key_id t) [
    | none ↦ (t, none)
    | some (idx, w) ↦
        let r = maybe_reset now w in
        (
          record { windows = set_at idx (some r) t.windows },
          some (record {
            spent_usd = r.spent_usd;
            max_usd = r.max_usd;
            secs_to_reset = secs_to_reset now r;
          }),
        )
  ]
