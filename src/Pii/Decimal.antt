-- ===== src/Pii/Decimal.antt =====
-- `format!("{n}")` of an unsigned number, and what tells two placeholders apart.
use drgtw.Base.{
  ℕ, zero, suc, ◌+◌, ◌-◌, ◌*◌, ◌/◌, ◌%◌, ◌<◌, ◌≡◌, ◌≢◌, refl, ◌∙◌, sym, ap, Bytes, true, [], ◌∷◌,
  ◌++◌, arith, ltb, All, is_ascii_digit, if◌then◌else◌, Bool-cases, inl, inr,
}

-- The digits of `n` in front of `acc`. The fuel is never used up from `n + 1`.
decimal_onto : ℕ → ℕ → Bytes → Bytes
decimal_onto zero n acc = acc
decimal_onto (suc f) n acc =
    let rest = decimal_onto f (n / 10) ((48 + n % 10) ∷ acc) in
    if ltb n 10 then (48 + n) ∷ acc else rest

unfoldable pub decimal : ℕ → Bytes
unfolding decimal_onto
decimal n = decimal_onto (suc n) n []

-- The number that a text of digits stands for, after the digits of `acc`.
unfoldable pub value : ℕ → Bytes → ℕ
value acc [] = acc
value acc (d ∷ ds) = value (acc * 10 + (d - 48)) ds

value-decimal_onto : (f n : ℕ) (acc : Bytes) → n < f → value 0 (decimal_onto f n acc) ≡ value n acc
unfolding decimal_onto value
value-decimal_onto zero n acc h = absurd (omega arith)
value-decimal_onto (suc f) n acc h = elim (Bool-cases (ltb n 10)) [
  | inl small ↦ rw small (ap (λ x. value x acc) (omega arith))
  | inr large ↦ rw large (
      value-decimal_onto f (n / 10) ((48 + n % 10) ∷ acc) (ground arith)
      ∙ ap (λ x. value x acc) (omega arith))
]

pub value-decimal : (n : ℕ) → value 0 (decimal n) ≡ n
unfolding decimal value
value-decimal n = value-decimal_onto (suc n) n [] (omega arith)

abbrev pub IsDigit : ℕ → Type 0
IsDigit c = is_ascii_digit c ≡ true

decimal_onto-IsDigit :
    (f n : ℕ) (acc : Bytes) → All IsDigit acc → All IsDigit (decimal_onto f n acc)
unfolding decimal_onto
decimal_onto-IsDigit zero n acc h = h
decimal_onto-IsDigit (suc f) n acc h = elim (Bool-cases (ltb n 10)) [
  | inl small ↦ rw small (ground arith, h)
  | inr large ↦ rw large (decimal_onto-IsDigit f (n / 10) ((48 + n % 10) ∷ acc) (ground arith, h))
]

pub decimal-IsDigit : (n : ℕ) → All IsDigit (decimal n)
unfolding decimal
decimal-IsDigit n = decimal_onto-IsDigit (suc n) n [] tt

decimal_onto_nonempty : (f n : ℕ) (c : ℕ) (acc : Bytes) → decimal_onto f n (c ∷ acc) ≢ []
unfolding decimal_onto
decimal_onto_nonempty zero n c acc h = cc h
decimal_onto_nonempty (suc f) n c acc h = elim (Bool-cases (ltb n 10)) [
  | inl small ↦ cc (let h' : (48 + n) ∷ c ∷ acc ≡ [] = rw small at h in h')
  | inr large ↦ decimal_onto_nonempty f (n / 10) (48 + n % 10) (c ∷ acc) (rw large at h)
]

pub decimal_nonempty : (n : ℕ) → decimal n ≢ []
unfolding decimal decimal_onto
decimal_nonempty n h = elim (Bool-cases (ltb n 10)) [
  | inl small ↦ cc (let h' : (48 + n) ∷ [] ≡ [] = rw small at h in h')
  | inr large ↦ decimal_onto_nonempty n (n / 10) (48 + n % 10) [] (rw large at h)
]

-- `{prefix}_{n}`.
unfoldable pub placeholder : Bytes → ℕ → Bytes
unfolding decimal
placeholder prefix n = prefix ++ (b'_' ∷ decimal n)

not_in_digits : (p d e : Bytes) → All IsDigit d → d ≡ p ++ (b'_' ∷ e) → ⊥
not_in_digits [] [] e h eq = cc
not_in_digits [] (x ∷ d) e h eq = ground arith
not_in_digits (c ∷ p) [] e h eq = cc
not_in_digits (c ∷ p) (x ∷ d) e h eq = not_in_digits p d e h.1 (cc)

-- The last underscore splits the text, since digits hold none.
split_unique :
    (p q d e : Bytes)
    → All IsDigit d
    → All IsDigit e
    → p ++ (b'_' ∷ d) ≡ q ++ (b'_' ∷ e)
    → (p ≡ q) × (d ≡ e)
split_unique [] [] d e hd he h = (refl, cc)
split_unique [] (c ∷ q) d e hd he h = absurd (not_in_digits q d e hd (cc))
split_unique (c ∷ p) [] d e hd he h = absurd (not_in_digits p e d he (cc))
split_unique (c ∷ p) (x ∷ q) d e hd he h =
    let rest = split_unique p q d e hd he (cc) in let head : c ≡ x = cc in (cc (rest.0), rest.1)

-- Two placeholders are the same text only if prefix and number are the same.
pub placeholder-injective :
    (p q : Bytes) (n m : ℕ) → placeholder p n ≡ placeholder q m → (p ≡ q) × (n ≡ m)
unfolding placeholder
placeholder-injective p q n m h =
    let parts =
      split_unique p q (decimal n) (decimal m) (decimal-IsDigit n) (decimal-IsDigit m) h in
    (parts.0, sym (value-decimal n) ∙ ap (value 0) parts.1 ∙ value-decimal m)
