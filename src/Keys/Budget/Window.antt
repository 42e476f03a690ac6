-- ===== src/Keys/Budget/Window.antt =====
-- One budget window: its spend, its expiry and the announced waiting time.
use drgtw.Base.{
  ℕ, ◌+◌, ◌-◌, ◌*◌, ◌≤◌, ◌<◌, ◌≡◌, refl, sym, ap, ◌∙◌, true, none, some, List, [], ◌∷◌, arith, All,
}
use drgtw.Keys.Budget.{
  MoneyOps, allowed, exhausted, BudgetWindow, nanos, maybe_reset, retry_after, decision,
  check_window, record_window, started,
}

module _ {Usd : Type 0} (money : MoneyOps Usd) where
  maybe_reset_elapsed :
      (now start : ℕ) (w : BudgetWindow Usd)
      → w.window_start ≡ some start
      → w.window ≤ now - start
      → maybe_reset money now w ≡ record w { spent_usd = money.zero_usd; window_start = none }
  unfolding maybe_reset
  maybe_reset_elapsed now start w s h = ground arith

  maybe_reset_running :
      (now start : ℕ) (w : BudgetWindow Usd)
      → w.window_start ≡ some start
      → now - start < w.window
      → maybe_reset money now w ≡ w
  unfolding maybe_reset
  maybe_reset_running now start w s h = ground arith

  -- The announced seconds, rounded up, cover what remains of the window, and not a second more.
  retry_after-covers :
      (now start : ℕ) (w : BudgetWindow Usd)
      → w.window_start ≡ some start
      → (w.window - (now - start) ≤ retry_after money now w * nanos)
        × (retry_after money now w * nanos < w.window - (now - start) + nanos)
  unfolding retry_after
  retry_after-covers now start w s = ground arith

  exhausted_wait :
      (now : ℕ) (w : BudgetWindow Usd) (wait : ℕ)
      → decision money now w ≡ exhausted w.max_usd wait
      → retry_after money now w ≡ wait
  unfolding decision
  exhausted_wait now w wait h = ground arith

  -- A running window is exhausted with a waiting time. A check after that time, on the window that the
  -- first check left, finds the window expired: it is allowed with no spend, if the limit is positive.
  -- The waiting time is less than a second longer than what remains of the window.
  pub retry_after-suffices :
      (w : BudgetWindow Usd) (start now later wait : ℕ)
      → w.window_start ≡ some start
      → start ≤ now
      → now - start < w.window
      → (check_window money now w).1 ≡ exhausted w.max_usd wait
      → now + wait * nanos ≤ later
      → money.less money.zero_usd w.max_usd ≡ true
      → ((check_window money later (check_window money now w).0).1
          ≡ allowed money.zero_usd w.max_usd)
        × (now + wait * nanos < start + w.window + nanos)
  unfolding check_window decision
  retry_after-suffices w start now later wait s order running full time positive =
      let same = maybe_reset_running now start w s running in
      let again : (check_window money now w).0 ≡ w = same in
      let shown : decision money now w ≡ exhausted w.max_usd wait =
        ap (decision money now) (sym same) ∙ full in
      let wait_is : retry_after money now w ≡ wait = exhausted_wait now w wait shown in
      let (enough, tight) = retry_after-covers now start w s in
      let expired = maybe_reset_elapsed later start w s (omega (arith, wait_is)) in
      (rw same (rw expired (rw positive refl)), omega (arith, wait_is))

  -- The sum of the costs, in their order.
  unfoldable pub added : Usd → List (ℕ × Usd) → Usd
  added spent [] = spent
  added spent ((_, cost) ∷ costs) = added (money.plus spent cost) costs

  unfoldable pub record_all : List (ℕ × Usd) → BudgetWindow Usd → BudgetWindow Usd
  record_all [] w = w
  record_all ((now, cost) ∷ costs) w = record_all costs (record_window money cost now w)

  record_running :
      (now start : ℕ) (cost : Usd) (w : BudgetWindow Usd)
      → w.window_start ≡ some start
      → now - start < w.window
      → record_window money cost now w ≡ record w { spent_usd = money.plus w.spent_usd cost }
  unfolding record_window started
  record_running now start cost w s running =
      let same = maybe_reset_running now start w s running in ground arith

  record_first :
      (now : ℕ) (cost : Usd) (w : BudgetWindow Usd)
      → w.window_start ≡ none
      → money.less money.zero_usd cost ≡ true
      → record_window money cost now w
        ≡ record w { spent_usd = money.plus w.spent_usd cost; window_start = some now }
  unfolding record_window maybe_reset started
  record_first now cost w fresh positive = ground arith

  record_all-running :
      (costs : List (ℕ × Usd)) (start : ℕ) (w : BudgetWindow Usd)
      → w.window_start ≡ some start
      → All (λ c. c.0 - start < w.window) costs
      → record_all costs w ≡ record w { spent_usd = added w.spent_usd costs }
  unfolding record_all added
  record_all-running [] start w s h = refl
  record_all-running ((now, cost) ∷ costs) start w s (h, hs) =
      ap (record_all costs) (record_running now start cost w s h)
      ∙ record_all-running costs start (record w { spent_usd = money.plus w.spent_usd cost }) s hs

  -- A window opens with the first positive cost, and closes its length after it: the spend of all
  -- costs that are recorded in that time is their sum, in their order.
  pub record_all-adds :
      (start : ℕ) (cost : Usd) (costs : List (ℕ × Usd)) (w : BudgetWindow Usd)
      → w.window_start ≡ none
      → money.less money.zero_usd cost ≡ true
      → All (λ c. c.0 - start < w.window) costs
      → record_all ((start, cost) ∷ costs) w ≡ record w {
        spent_usd = added w.spent_usd ((start, cost) ∷ costs);
        window_start = some start;
      }
  unfolding record_all added
  record_all-adds start cost costs w fresh positive h =
      let open_at : BudgetWindow Usd = record w {
        spent_usd = money.plus w.spent_usd cost;
        window_start = some start;
      } in
      ap (record_all costs) (record_first start cost w fresh positive)
      ∙ record_all-running costs start open_at refl h
