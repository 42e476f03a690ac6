-- ===== src/Pii/Checksums/Mod97.antt =====
-- The fold over the digits of an IBAN is the remainder of the number that they spell.
use drgtw.Base.{ℕ, ◌+◌, ◌-◌, ◌*◌, ◌%◌, ◌≡◌, refl, Bytes, [], ◌∷◌, arith}
use drgtw.Pii.Decimal.{value}
use drgtw.Pii.Checksums.{remainder}

remainder-value_from : (s : Bytes) (r v : ℕ) → r ≡ v % 97 → remainder r s ≡ value v s % 97
unfolding remainder value
remainder-value_from [] r v h = h
remainder-value_from (c ∷ s) r v h = remainder-value_from s _ (v * 10 + (c - 48)) (omega (arith, h))

-- The fold is the remainder modulo 97 of the number that the text of digits spells, however long it is.
pub remainder-value : (s : Bytes) → remainder 0 s ≡ value 0 s % 97
remainder-value s = remainder-value_from s 0 0 refl
