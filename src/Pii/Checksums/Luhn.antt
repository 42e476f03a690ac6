-- ===== src/Pii/Checksums/Luhn.antt =====
-- The Luhn check notices a wrong digit.
use drgtw.Base.{
  ℕ, suc, ◌+◌, ◌-◌, ◌%◌, ◌<◌, ◌≡◌, ◌≢◌, refl, sym, ap, ◌∙◌, inl, inr, Bytes, true, false, List, [],
  ◌∷◌, ◌++◌, append_assoc, arith, length, length-append, is_ascii_digit, Bool-cases,
}
use drgtw.Pii.Checksums.{rev_onto, digits, weigh, sum_from, luhn_valid}

weigh_injective : (i d e : ℕ) → d < 10 → e < 10 → weigh i d % 10 ≡ weigh i e % 10 → d ≡ e
unfolding weigh
weigh_injective i d e h k same = ground arith

-- Exchanging one digit changes the sum by the two shares.
sum_from-exchange :
    (i : ℕ) (xs ys : List ℕ) (d e : ℕ)
    → sum_from i (xs ++ d ∷ ys) + weigh (i + length xs) e
      ≡ sum_from i (xs ++ e ∷ ys) + weigh (i + length xs) d
unfolding sum_from
sum_from-exchange i [] ys d e = let same : i + 0 ≡ i = omega arith in rw same (omega arith)
sum_from-exchange i (x ∷ xs) ys d e =
    let rest = sum_from-exchange (i + 1) xs ys d e in
    let same : i + suc (length xs) ≡ i + 1 + length xs = omega arith in
    rw same (omega (arith, rest))

rev_onto-append : (xs ys acc : List ℕ) → rev_onto (xs ++ ys) acc ≡ rev_onto ys (rev_onto xs acc)
unfolding rev_onto
rev_onto-append [] ys acc = refl
rev_onto-append (x ∷ xs) ys acc = rev_onto-append xs ys (x ∷ acc)

rev_onto_acc : (xs acc : List ℕ) → rev_onto xs acc ≡ rev_onto xs [] ++ acc
unfolding rev_onto
rev_onto_acc [] acc = refl
rev_onto_acc (x ∷ xs) acc =
    rev_onto_acc xs (x ∷ acc)
    ∙ sym (append_assoc (rev_onto xs []) (x ∷ []) acc)
    ∙ ap (λ l. l ++ acc) (sym (rev_onto_acc xs (x ∷ [])))

digits-at :
    (a b : Bytes) (c : ℕ)
    → is_ascii_digit c ≡ true
    → digits (a ++ c ∷ b) ≡ digits a ++ (c - 48) ∷ digits b
unfolding digits
digits-at [] b c h = rw h refl
digits-at (x ∷ a) b c h = elim (Bool-cases (is_ascii_digit x)) [
  | inl digit ↦ rw digit (ap (λ l. (x - 48) ∷ l) (digits-at a b c h))
  | inr other ↦ rw other (digits-at a b c h)
]

reversed-at :
    (xs ys : List ℕ) (d : ℕ) → rev_onto (xs ++ d ∷ ys) [] ≡ rev_onto ys [] ++ d ∷ rev_onto xs []
unfolding rev_onto
reversed-at xs ys d = rev_onto-append xs (d ∷ ys) [] ∙ rev_onto_acc ys (d ∷ rev_onto xs [])

-- What the check computes of a text with a digit in it.
luhn_sum-at :
    (a b : Bytes) (c : ℕ)
    → is_ascii_digit c ≡ true
    → sum_from 0 (rev_onto (digits (a ++ c ∷ b)) [])
      ≡ sum_from 0 (rev_onto (digits b) [] ++ (c - 48) ∷ rev_onto (digits a) [])
luhn_sum-at a b c h =
    ap (λ l. sum_from 0 (rev_onto l [])) (digits-at a b c h)
    ∙ ap (sum_from 0) (reversed-at (digits a) (digits b) (c - 48))

length-digits-at :
    (a b : Bytes) (c : ℕ)
    → is_ascii_digit c ≡ true
    → length (digits (a ++ c ∷ b)) ≡ length (digits a) + suc (length (digits b))
length-digits-at a b c h =
    ap length (digits-at a b c h) ∙ length-append (digits a) ((c - 48) ∷ digits b)

-- A card number that passes the check does not pass it when one of its digits is replaced by another.
pub luhn_valid-detects :
    (a b : Bytes) (c e : ℕ)
    → is_ascii_digit c ≡ true
    → is_ascii_digit e ≡ true
    → c ≢ e
    → luhn_valid (a ++ c ∷ b) ≡ true
    → luhn_valid (a ++ e ∷ b) ≡ false
unfolding luhn_valid
luhn_valid-detects a b c e hc he differ ok =
    let xs = rev_onto (digits b) [] in
    let ys = rev_onto (digits a) [] in
    let exchange = sum_from-exchange 0 xs ys (c - 48) (e - 48) in
    let same = weigh_injective (0 + length xs) (c - 48) (e - 48) (ground arith) (ground arith) in
    ground (
      arith,
      luhn_sum-at a b c hc,
      luhn_sum-at a b e he,
      length-digits-at a b c hc,
      length-digits-at a b e he,
    )
