-- ===== src/Pii/Checksums.antt =====
-- The checksums of the card and IBAN recognisers (crates/drgtw-pii/src/recognizers.rs).
pub mod Luhn
pub mod Mod97
mod Tests
use drgtw.Base.{
  ℕ, zero, suc, ◌+◌, ◌-◌, ◌*◌, ◌%◌, Bytes, Bool, true, false, not, ◌||◌, Option, none, some, List,
  [], ◌∷◌, ◌++◌, map, keep, length, is_ascii_digit, ◌==◌, ltb, leb, if◌then◌else◌,
}
use drgtw.Pii.Decimal.{decimal}
use drgtw.Pii.Slice.{slice}

-- Luhn

-- `.rev()`, in front of what was read before.
unfoldable pub rev_onto : List ℕ → List ℕ → List ℕ
rev_onto [] acc = acc
rev_onto (d ∷ ds) acc = rev_onto ds (d ∷ acc)

unfoldable pub digits : Bytes → List ℕ
digits s = map (λ c. c - 48) (keep is_ascii_digit s)

-- The share of the digit at a position from the end.
unfoldable pub weigh : ℕ → ℕ → ℕ
weigh i d = if i % 2 == 1 then (if ltb 9 (d * 2) then d * 2 - 9 else d * 2) else d

unfoldable pub sum_from : ℕ → List ℕ → ℕ
unfolding weigh
sum_from i [] = 0
sum_from i (d ∷ ds) = weigh i d + sum_from (i + 1) ds

unfoldable pub luhn_valid : Bytes → Bool
unfolding digits rev_onto sum_from
luhn_valid s =
    let n = length (digits s) in
    if ltb n 13 || ltb 19 n then false else sum_from 0 (rev_onto (digits s) []) % 10 == 0

-- IBAN

-- Letters become numbers; any other character is refused. The letters are upper case here.
unfoldable pub numeric : Bytes → Option Bytes
unfolding decimal
numeric [] = some []
numeric (c ∷ s) =
    let rest = numeric s in
    if is_ascii_digit c
    then elim rest [ none ↦ none | some t ↦ some (c ∷ t) ]
    else if (if leb b'A' c then leb c b'Z' else false)
    then elim rest [ none ↦ none | some t ↦ some (decimal (c - b'A' + 10) ++ t) ]
    else none

-- The fold over the digits.
unfoldable pub remainder : ℕ → Bytes → ℕ
remainder r [] = r
remainder r (c ∷ s) = remainder ((r * 10 + (c - b'0')) % 97) s

module _ (to_uppercase : Bytes → Bytes) where
  -- `none` is the panic of a slice inside a character, which no match of the pattern has.
  unfoldable pub validate_iban : Bytes → Option Bool
  unfolding numeric remainder slice
  validate_iban raw =
      let s = to_uppercase (keep (λ c. not (c == b' ')) raw) in
      if ltb (length s) 15 || ltb 34 (length s) then some false else elim (slice s 4 (length s)) [
        | none ↦ none
        | some tail ↦ elim (slice s 0 4) [
          | none ↦ none
          | some head ↦ elim (numeric (tail ++ head)) [
            | none ↦ some false
            | some n ↦ some (remainder 0 n == 1)
          ]
        ]
      ]
