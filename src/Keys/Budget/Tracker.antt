-- ===== src/Keys/Budget/Tracker.antt =====
-- The tracker: keys do not touch each other, and what a change of the configuration carries over.
use drgtw.Base.{
  ℕ, zero, suc, ◌*◌, ◌-◌, ◌≤◌, ◌<◌, ◌≡◌, ◌≢◌, ◌⊎◌, refl, sym, ap, ◌∙◌, inl, inr, Bytes, true,
  Option, none, some, List, [], ◌∷◌, arith, get_elem?, Option-cases, Bool-cases, equal, equal_iff,
  leb, leb→le,
}
use drgtw.Keys.Config.{VirtualKey, Config, Budget}
use drgtw.Keys.KeyIndex.{parse_key_index}
use drgtw.Keys.OldKey.{IsFirst, IsFirst-head, IsFirst-zero, IsFirst-tail}
use drgtw.Keys.Budget.{
  MoneyOps, BudgetWindow, BudgetTracker, nanos, set_at, maybe_reset, find_window, check,
  record_spend, rebuild_from, rebuild_windows, carry_over, old_window, check_window, record_window,
  new_window,
}

get_elem?-set_at_same :
    {A : Type 0} (n : ℕ) (x y : A) (xs : List A)
    → get_elem? xs n ≡ some y
    → get_elem? (set_at n x xs) n ≡ some x
unfolding set_at
get_elem?-set_at_same n x y [] h = absurd (cc h)
get_elem?-set_at_same zero x y (z ∷ xs) h = refl
get_elem?-set_at_same (suc n) x y (z ∷ xs) h = get_elem?-set_at_same n x y xs h

get_elem?-set_at_other :
    {A : Type 0} (n m : ℕ) (x : A) (xs : List A)
    → n ≢ m
    → get_elem? (set_at n x xs) m ≡ get_elem? xs m
unfolding set_at
get_elem?-set_at_other n m x [] h = refl
get_elem?-set_at_other zero zero x (z ∷ xs) h = absurd (h refl)
get_elem?-set_at_other zero (suc m) x (z ∷ xs) h = refl
get_elem?-set_at_other (suc n) zero x (z ∷ xs) h = refl
get_elem?-set_at_other (suc n) (suc m) x (z ∷ xs) h =
    get_elem?-set_at_other n m x xs (λ e. h (omega arith))

module _ {Usd : Type 0} (money : MoneyOps Usd) where
  find_window-at :
      (a : Bytes) (i : ℕ) (w : BudgetWindow Usd) (t : BudgetTracker Usd)
      → find_window money a t ≡ some (i, w)
      → (parse_key_index a ≡ some i) × (get_elem? t.windows i ≡ some (some w))
  unfolding find_window
  find_window-at a i w t h = elim (Option-cases (parse_key_index a)) [
    | inl bad ↦ ground arith
    | inr (j, good) ↦ elim (Option-cases (get_elem? t.windows j)) [
      | inl out ↦ ground arith
      | inr (o, found) ↦ ground arith
    ]
  ]

  find_window_of :
      (a : Bytes) (i : ℕ) (w : BudgetWindow Usd) (t : BudgetTracker Usd)
      → parse_key_index a ≡ some i
      → get_elem? t.windows i ≡ some (some w)
      → find_window money a t ≡ some (i, w)
  unfolding find_window
  find_window_of a i w t p g = rw p (rw g refl)

  find_window_other :
      (b : Bytes) (i : ℕ) (w' : BudgetWindow Usd) (t : BudgetTracker Usd)
      → parse_key_index b ≢ some i
      → find_window money b (record { windows = set_at i (some w') t.windows })
        ≡ find_window money b t
  unfolding find_window
  find_window_other b i w' t differ = elim (Option-cases (parse_key_index b)) [
    | inl bad ↦ rw bad refl
    | inr (j, good) ↦
        let keeps =
          get_elem?-set_at_other i j (some w') t.windows (λ e. differ (good ∙ ap some (sym e))) in
        rw good (rw keeps refl)
  ]

  check-found :
      (a : Bytes) (now i : ℕ) (w : BudgetWindow Usd) (t : BudgetTracker Usd)
      → find_window money a t ≡ some (i, w)
      → (check money a now t).1 ≡ (check_window money now w).1
  unfolding check
  check-found a now i w t h = rw h refl

  check-same :
      (b : Bytes) (now : ℕ) (t u : BudgetTracker Usd)
      → find_window money b t ≡ find_window money b u
      → (check money b now t).1 ≡ (check money b now u).1
  unfolding check
  check-same b now t u h = elim (Option-cases (find_window money b u)) [
    | inl out ↦ rw (h ∙ out) (rw out refl)
    | inr ((i, w), found) ↦
        check-found b now i w t (h ∙ found) ∙ sym (check-found b now i w u found)
  ]

  record_spend-found :
      (a : Bytes) (cost : Usd) (now i : ℕ) (w : BudgetWindow Usd) (t : BudgetTracker Usd)
      → find_window money a t ≡ some (i, w)
      → record_spend money a cost now t
        ≡ record { windows = set_at i (some (record_window money cost now w)) t.windows }
  unfolding record_spend
  record_spend-found a cost now i w t h = rw h refl

  -- Spend is recorded on the window of its key, which the next check of that key reads; the check of a
  -- key with another index answers as it did before.
  check-record_spend :
      (a : Bytes) (cost : Usd) (now later i : ℕ) (w : BudgetWindow Usd) (t : BudgetTracker Usd)
      → find_window money a t ≡ some (i, w)
      → ((check money a later (record_spend money a cost now t)).1
          ≡ (check_window money later (record_window money cost now w)).1)
        × ((b : Bytes)
            → parse_key_index b ≢ parse_key_index a
            → (check money b later (record_spend money a cost now t)).1 ≡ (check money b later t).1)
  check-record_spend a cost now later i w t h =
      let (parsed, at) = find_window-at a i w t h in
      let w' = record_window money cost now w in
      let next = record_spend-found a cost now i w t h in
      (
        ap (λ x. (check money a later x).1) next
            ∙ check-found a later i w' _ (
                find_window_of a i w' _ parsed
                  (get_elem?-set_at_same i (some w') (some w) t.windows at)),
        λ b differ.
            ap (λ x. (check money b later x).1) next
            ∙ check-same b later _ t (find_window_other b i w' t (λ e. differ (e ∙ sym parsed))),
      )

  get_elem?-rebuild_windows :
      (t : BudgetTracker Usd) (old_keys : List (VirtualKey Usd)) (now : ℕ)
      (vks : List (VirtualKey Usd)) (j : ℕ) (vk : VirtualKey Usd) (b : Budget Usd)
      → get_elem? vks j ≡ some vk
      → vk.budget ≡ some b
      → get_elem? (rebuild_windows money t old_keys now vks) j
        ≡ some (some (carry_over money (old_window money vk.key old_keys t.windows) b now))
  unfolding rebuild_windows
  get_elem?-rebuild_windows t old_keys now [] j vk b h g = absurd (cc h)
  get_elem?-rebuild_windows t old_keys now (v ∷ vks) zero vk b h g = ground arith
  get_elem?-rebuild_windows t old_keys now (v ∷ vks) (suc j) vk b h g =
      get_elem?-rebuild_windows t old_keys now vks j vk b h g

  -- The window of the first old key with the secret is found.
  old_window-first :
      (secret : Bytes) (keys : List (VirtualKey Usd)) (windows : List (Option (BudgetWindow Usd)))
      (i : ℕ) (o : Option (BudgetWindow Usd))
      → IsFirst secret keys i
      → get_elem? windows i ≡ some o
      → old_window money secret keys windows ≡ o
  unfolding old_window
  old_window-first secret [] ws i o h at = absurd (cc h.found)
  old_window-first secret (vk ∷ vks) [] i o h at = absurd (cc at)
  old_window-first secret (vk ∷ vks) (w ∷ ws) zero o h at =
      ground (arith, equal_iff vk.key secret, IsFirst-zero secret vk vks h)
  old_window-first secret (vk ∷ vks) (w ∷ ws) (suc i) o h at =
      elim (Bool-cases (equal vk.key secret)) [
        | inl e ↦
            absurd
              (omega (arith, IsFirst-head secret vk vks (suc i) h ((equal_iff vk.key secret).0 e)))
        | inr e ↦
            rw (e, old_window)
              (old_window-first secret vks ws i o (IsFirst-tail secret vk vks i h) at)
      ]

  -- What a window of an old key becomes under a new budget: it starts again with no spend if it has
  -- elapsed by the new length, and otherwise goes on with its spend.
  abbrev pub IsCarried : BudgetWindow Usd → Budget Usd → ℕ → BudgetWindow Usd → Type 0
  IsCarried old b now w =
      (w.max_usd ≡ b.max_usd)
      × (w.window ≡ b.per_seconds * nanos)
      × (((start : ℕ) × (old.window_start ≡ some start)
            × (b.per_seconds * nanos ≤ now - start)
            × (w.spent_usd ≡ money.zero_usd)
            × (w.window_start ≡ none))
          ⊎ (((start : ℕ) → old.window_start ≡ some start → now - start < b.per_seconds * nanos)
              × (w.spent_usd ≡ old.spent_usd)
              × (w.window_start ≡ old.window_start)))

  carry_over-IsCarried :
      (old : BudgetWindow Usd) (b : Budget Usd) (now : ℕ)
      → money.close b.max_usd b.max_usd ≡ true
      → IsCarried old b now (carry_over money (some old) b now)
  unfolding carry_over new_window maybe_reset
  carry_over-IsCarried old b now same = elim (Option-cases old.window_start) [
    | inl e ↦ rw same (rw e (refl, refl, inr ((λ s f. absurd (cc f)), refl, refl)))
    | inr (start, e) ↦ elim (Bool-cases (leb (b.per_seconds * nanos) (now - start))) [
      | inl d ↦ rw same (rw e (rw d (refl, refl, inl (start, refl, leb→le _ _ d, refl, refl))))
      | inr d ↦ rw same (rw e (rw d (refl, refl, inr ((λ s f. ground arith), refl, refl))))
    ]
  ]

  -- When the configuration changes, a key with a budget, where the first old key with its secret has a
  -- window, takes over that window under its new limit and its new length, whatever the old ones were: the
  -- spend and the start are kept, unless the window has elapsed by its new length, when it starts again with
  -- no spend. The new limit is supposed to be close to itself, as a number is.
  pub rebuild_from_carries :
      (t : BudgetTracker Usd) (old_config new_config : Config Usd) (now i j : ℕ)
      (vk : VirtualKey Usd) (b : Budget Usd) (old : BudgetWindow Usd)
      → get_elem? new_config.virtual_keys j ≡ some vk
      → vk.budget ≡ some b
      → IsFirst vk.key old_config.virtual_keys i
      → get_elem? t.windows i ≡ some (some old)
      → money.close b.max_usd b.max_usd ≡ true
      → (w : BudgetWindow Usd) × (get_elem?
            (rebuild_from money old_config new_config now t).windows
            j
          ≡ some (some w))
        × IsCarried old b now w
  unfolding rebuild_from
  rebuild_from_carries t old_config new_config now i j vk b old at budget first found same = (
    carry_over money (some old) b now,
    get_elem?-rebuild_windows t old_config.virtual_keys now new_config.virtual_keys j vk b at budget
        ∙ rw (old_window-first vk.key old_config.virtual_keys t.windows i (some old) first found)
            refl,
    carry_over-IsCarried old b now same,
  )
