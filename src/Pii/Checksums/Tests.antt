-- ===== src/Pii/Checksums/Tests.antt =====
-- The checksums on a test card number and a test IBAN.
use drgtw.Base.{◌≡◌, refl, codes, true, false, some, ◌∷◌, ◌++◌, arith}
use drgtw.Pii.Decimal.{decimal}
use drgtw.Pii.Slice.{is_char_boundary, slice}
use drgtw.Pii.Checksums.{
  rev_onto, digits, weigh, sum_from, luhn_valid, numeric, remainder, validate_iban,
}
use drgtw.Pii.Checksums.Luhn.{luhn_valid-detects}

validate_iban-run : validate_iban (λ s. s) (codes "DE89 3704 0044 0532 0130 00") ≡ some true
unfolding validate_iban slice is_char_boundary numeric decimal remainder
validate_iban-run = refl

luhn_valid-detects_example : luhn_valid (codes "4111 1111 " ++ b'7' ∷ codes "111 1111") ≡ false
unfolding luhn_valid digits rev_onto sum_from weigh
luhn_valid-detects_example =
    luhn_valid-detects (codes "4111 1111 ") (codes "111 1111") b'1' b'7' refl refl
      (λ h. absurd (omega (arith, h))) refl
