-- ===== src/Pii/Ner/Tests.antt =====
-- Concrete runs of the cache of verdicts, and instances of its theorems.
use drgtw.Base.{
  codes, ap, sym, ◌∙◌, inl, inr, ℕ, ◌≡◌, ◌≢◌, ◌≤◌, ◌⊎◌, refl, Bytes, none, some, List, [], ◌∷◌,
  arith, length,
}
use drgtw.Base.Assoc.{lookup, insert, remove, nat_eq}
use drgtw.Base.Results.{Result, ok, err}
use drgtw.Pii.Ner.{
  NerSpan, person, org, closed_mode, new, put, get, evict, touch, oldest, older, without_oldest,
  with_cache,
}
use drgtw.Pii.Ner.Uses.{Call, reads, writes, run, IsForgotten, put-IsLru}
use drgtw.Pii.Ner.Verdicts.{IsInjective, AreVerdicts, detect_all, detect_all-AreVerdicts}

abbrev name : List (NerSpan ℕ)
name = record { start = 0; stop = 3; kind = person; score = 9 } ∷ []

abbrev firm : List (NerSpan ℕ)
firm = record { start = 4; stop = 8; kind = org; score = 7 } ∷ []

-- Room for two entries, both taken; the first was read again, so the second is the oldest.
abbrev calls_so_far : List (Call ℕ)
calls_so_far = reads 1 ∷ writes 2 firm ∷ writes 1 name ∷ []

put-IsLru_example :
    ((stamp : ℕ) × (lookup 3 (put 3 name (run 2 calls_so_far)).entries ≡ some (name, stamp)))
    × (length (put 3 name (run 2 calls_so_far)).entries ≤ 2)
    × ((j : ℕ)
        → j ≢ 3
        → (lookup j (put 3 name (run 2 calls_so_far)).entries
            ≡ lookup j (run 2 calls_so_far).entries)
          ⊎ ((lookup j (put 3 name (run 2 calls_so_far)).entries ≡ none)
              × IsForgotten j 3 2 calls_so_far))
put-IsLru_example = put-IsLru 2 3 name calls_so_far (omega arith)

second_evicted :
    (lookup 2 (put 3 name (run 2 calls_so_far)).entries ≡ none)
    × (lookup 1 (put 3 name (run 2 calls_so_far)).entries ≡ some (name, 3))
unfolding put get new evict touch lookup insert oldest older without_oldest remove
second_evicted = (refl, refl)

-- Two texts that the length tells apart. The pool fails at first, and is not asked the third time.
abbrev calls : List (Bytes × Result ℕ (List (NerSpan ℕ)))
calls =
    (codes "bob", err 1)
    ∷ (codes "bob", ok name)
    ∷ (codes "bob", err 2)
    ∷ (codes "anna", ok name)
    ∷ []

abbrev Known : Bytes → Type 0
Known text = (text ≡ codes "bob") ⊎ (text ≡ codes "anna")

Known-IsInjective : IsInjective Known length
Known-IsInjective a b (inl p) (inl q) e = p ∙ sym q
Known-IsInjective a b (inl p) (inr q) e = absurd (omega (arith, ap length p, ap length q))
Known-IsInjective a b (inr p) (inl q) e = absurd (omega (arith, ap length p, ap length q))
Known-IsInjective a b (inr p) (inr q) e = p ∙ sym q

detect_all-AreVerdicts_example :
    AreVerdicts (λ text. name) calls (detect_all length calls (with_cache 5 closed_mode 2))
detect_all-AreVerdicts_example =
    detect_all-AreVerdicts Known length (λ text. name) Known-IsInjective 5 closed_mode 2 calls
      ((inl refl, tt), ((inl refl, refl), ((inl refl, tt), ((inr refl, refl), tt))))
