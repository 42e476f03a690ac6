-- ===== src/Base/Bits.antt =====
-- Bitwise operations on native numbers as arithmetic: one law for the lowest digit of any of them.
use Prim.Native.Nat.{
  ℕ, zero, suc, ◌+◌, ◌-◌, ◌*◌, ◌/◌, ◌%◌, ◌^◌, ◌≤◌, ◌<◌, min, max, bit_and, bit_or, digits, bitwise,
  bit_and-bitwise, bit_or-bitwise,
}
use mathlib.Core.Path.{◌≡◌, refl, sym, ap, ◌∙◌}
use native.Mathlib.Nat.{pow-suc, one-le-pow}
use native.Mathlib.Omega.{arith}

module _ (z : ℕ → ℕ) (f : ℕ → ℕ → ℕ) where
  -- The count of digits to go does not matter from the first number on.
  enough_digits : (n m a b : ℕ) → a ≤ n → a ≤ m → digits z f n a b ≡ digits z f m a b
  enough_digits zero zero a b p q = refl
  enough_digits zero (suc m) zero b p q = refl
  enough_digits (suc n) zero zero b p q = refl
  enough_digits (suc n) (suc m) zero b p q = refl
  enough_digits zero m (suc a) b p q = absurd (omega arith)
  enough_digits (suc n) zero (suc a) b p q = absurd (omega arith)
  enough_digits (suc n) (suc m) (suc a) b p q =
      ap (λ r. r * 2 + f (suc a % 2) (b % 2))
        (enough_digits n m (suc a / 2) (b / 2) (omega arith) (omega arith))

  lowest_digit :
      ((b : ℕ) → z b ≡ z (b / 2) * 2 + f 0 (b % 2))
      → (a b : ℕ) → bitwise z f a b ≡ bitwise z f (a / 2) (b / 2) * 2 + f (a % 2) (b % 2)
  lowest_digit out zero b = out b
  lowest_digit out (suc a) b =
      ap (λ r. r * 2 + f (suc a % 2) (b % 2))
        (enough_digits a (suc a / 2) (suc a / 2) (b / 2) (omega arith) (omega arith))

and_lowest : (a b : ℕ) → bit_and a b ≡ bit_and (a / 2) (b / 2) * 2 + min (a % 2) (b % 2)
and_lowest a b =
    bit_and-bitwise a b
    ∙ lowest_digit (λ b. zero) min (λ b. omega arith) a b
    ∙ ap (λ r. r * 2 + min (a % 2) (b % 2)) (sym (bit_and-bitwise (a / 2) (b / 2)))

or_lowest : (a b : ℕ) → bit_or a b ≡ bit_or (a / 2) (b / 2) * 2 + max (a % 2) (b % 2)
or_lowest a b =
    bit_or-bitwise a b
    ∙ lowest_digit (λ b. b) max (λ b. omega arith) a b
    ∙ ap (λ r. r * 2 + max (a % 2) (b % 2)) (sym (bit_or-bitwise (a / 2) (b / 2)))

pub zero-or : (b : ℕ) → bit_or 0 b ≡ b
zero-or b = bit_or-bitwise 0 b

zero-and : (b : ℕ) → bit_and 0 b ≡ 0
zero-and b = bit_and-bitwise 0 b

-- `a & 0`, by the size of `a`.
and-zero_below : (n a : ℕ) → a ≤ n → bit_and a 0 ≡ 0
and-zero_below n zero h = zero-and 0
and-zero_below zero (suc a) h = absurd (omega arith)
and-zero_below (suc n) (suc a) h =
    omega (arith, and_lowest (suc a) 0, and-zero_below n (suc a / 2) (omega arith))

pub and-zero : (a : ℕ) → bit_and a 0 ≡ 0
and-zero a = and-zero_below a a (omega arith)

-- A mask with its lowest bit clear, and one of ones.
pub and_double : (a h : ℕ) → bit_and a (2 * h) ≡ 2 * bit_and (a / 2) h
and_double a h =
    let half : 2 * h / 2 ≡ h = omega arith in
    omega (arith, and_lowest a (2 * h), ap (bit_and (a / 2)) half)

pub and_odd : (a h : ℕ) → bit_and a (2 * h + 1) ≡ 2 * bit_and (a / 2) h + a % 2
and_odd a h =
    let half : (2 * h + 1) / 2 ≡ h = omega arith in
    omega (arith, and_lowest a (2 * h + 1), ap (bit_and (a / 2)) half)

-- A number that fits the width is kept by a mask of ones.
pub and_ones : (k a : ℕ) → a < 2 ^ k → bit_and a (2 ^ k - 1) ≡ a
and_ones zero a h = omega (arith, and-zero a)
and_ones (suc k) a h =
    let odd : 2 ^ suc k - 1 ≡ 2 * (2 ^ k - 1) + 1 = omega (arith, pow-suc 2 k, one-le-pow k 2) in
    omega (
      arith,
      ap (bit_and a) odd,
      and_odd a (2 ^ k - 1),
      and_ones k (a / 2) (omega (arith, pow-suc 2 k)),
    )

pub or_double : (r q : ℕ) → bit_or r (2 * q) ≡ 2 * bit_or (r / 2) q + r % 2
or_double r q =
    let half : 2 * q / 2 ≡ q = omega arith in
    omega (arith, or_lowest r (2 * q), ap (bit_or (r / 2)) half)

-- `i & 0xff` is the lowest byte,
pub and_byte : (i : ℕ) → bit_and i 255 ≡ i % 256
and_byte i = omega (
  arith,
  and_odd i 127,
  and_odd (i / 2) 63,
  and_odd (i / 2 / 2) 31,
  and_odd (i / 2 / 2 / 2) 15,
  and_odd (i / 2 / 2 / 2 / 2) 7,
  and_odd (i / 2 / 2 / 2 / 2 / 2) 3,
  and_odd (i / 2 / 2 / 2 / 2 / 2 / 2) 1,
  and_odd (i / 2 / 2 / 2 / 2 / 2 / 2 / 2) 0,
  and-zero (i / 2 / 2 / 2 / 2 / 2 / 2 / 2 / 2),
)

-- `m & !0xff` clears it in a 64-bit word,
pub and_high : (m : ℕ) → m < 2 ^ 64 → bit_and m (2 ^ 64 - 1 - 255) ≡ 256 * (m / 256)
and_high m h = omega (
  arith,
  and_double m (2 ^ 63 - 128),
  and_double (m / 2) (2 ^ 62 - 64),
  and_double (m / 2 / 2) (2 ^ 61 - 32),
  and_double (m / 2 / 2 / 2) (2 ^ 60 - 16),
  and_double (m / 2 / 2 / 2 / 2) (2 ^ 59 - 8),
  and_double (m / 2 / 2 / 2 / 2 / 2) (2 ^ 58 - 4),
  and_double (m / 2 / 2 / 2 / 2 / 2 / 2) (2 ^ 57 - 2),
  and_double (m / 2 / 2 / 2 / 2 / 2 / 2 / 2) (2 ^ 56 - 1),
  and_ones 56 (m / 2 / 2 / 2 / 2 / 2 / 2 / 2 / 2) (omega arith),
)

-- and `|` puts a byte under a number that has none.
pub or_byte : (r q : ℕ) → r < 256 → bit_or r (256 * q) ≡ 256 * q + r
or_byte r q h =
    let eight : 256 * q ≡ 2 * (128 * q) = omega arith in
    let last : r / 2 / 2 / 2 / 2 / 2 / 2 / 2 / 2 ≡ 0 = omega arith in
    omega (
      arith,
      ap (bit_or r) eight,
      or_double r (128 * q),
      ap (bit_or (r / 2)) (let e : 128 * q ≡ 2 * (64 * q) = omega arith in e),
      or_double (r / 2) (64 * q),
      ap (bit_or (r / 2 / 2)) (let e : 64 * q ≡ 2 * (32 * q) = omega arith in e),
      or_double (r / 2 / 2) (32 * q),
      ap (bit_or (r / 2 / 2 / 2)) (let e : 32 * q ≡ 2 * (16 * q) = omega arith in e),
      or_double (r / 2 / 2 / 2) (16 * q),
      ap (bit_or (r / 2 / 2 / 2 / 2)) (let e : 16 * q ≡ 2 * (8 * q) = omega arith in e),
      or_double (r / 2 / 2 / 2 / 2) (8 * q),
      ap (bit_or (r / 2 / 2 / 2 / 2 / 2)) (let e : 8 * q ≡ 2 * (4 * q) = omega arith in e),
      or_double (r / 2 / 2 / 2 / 2 / 2) (4 * q),
      ap (bit_or (r / 2 / 2 / 2 / 2 / 2 / 2)) (let e : 4 * q ≡ 2 * (2 * q) = omega arith in e),
      or_double (r / 2 / 2 / 2 / 2 / 2 / 2) (2 * q),
      or_double (r / 2 / 2 / 2 / 2 / 2 / 2 / 2) q,
      ap (λ x. bit_or x q) last,
      zero-or q,
    )
