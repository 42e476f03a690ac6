-- ===== src/Keys/KeyIndex.antt =====
-- The index in a key id (crates/drgtw-keys/src/lib.rs, `parse_key_index`), with `str::parse` at a
-- `usize` of 64 bits.
use drgtw.Base.{
  ℕ, ◌^◌, ◌<◌, ◌≡◌, ◌≢◌, refl, ap, ◌∙◌, Bytes, codes, true, false, Option, none, some, [], ◌∷◌,
  ◌++◌, arith, all, All, strip_prefix, is_ascii_digit, ◌==◌, ltb, if◌then◌else◌,
}
use drgtw.Pii.Decimal.{decimal, value, value-decimal, decimal-IsDigit, IsDigit, decimal_nonempty}

-- Digits, at least one, of a number that fits.
unfoldable pub parse_digits : Bytes → Option ℕ
unfolding value
parse_digits [] = none
parse_digits (c ∷ s) =
    if all is_ascii_digit (c ∷ s)
    then (if ltb (value 0 (c ∷ s)) (2 ^ 64) then some (value 0 (c ∷ s)) else none)
    else none

-- A leading plus is accepted.
unfoldable pub parse_usize : Bytes → Option ℕ
unfolding parse_digits
parse_usize [] = none
parse_usize (c ∷ s) = if c == b'+' then parse_digits s else parse_digits (c ∷ s)

unfoldable pub parse_key_index : Bytes → Option ℕ
unfolding parse_usize strip_prefix
parse_key_index key_id = elim (strip_prefix (codes "vk-") key_id) [
  | none ↦ none
  | some s ↦ parse_usize s
]

all-digits : (s : Bytes) → All IsDigit s → all is_ascii_digit s ≡ true
all-digits [] h = refl
all-digits (c ∷ s) (h, hs) = ground (arith, all-digits s hs)

value_no_digits : (c : ℕ) (s : Bytes) → IsDigit c → (c == b'+') ≡ false
value_no_digits c s h = ground arith

parse_usize-digits :
    (s : Bytes) → s ≢ [] → All IsDigit s → value 0 s < 2 ^ 64 → parse_usize s ≡ some (value 0 s)
unfolding parse_usize parse_digits
parse_usize-digits [] h d v = absurd (h refl)
parse_usize-digits (c ∷ s) h (d, ds) v =
    ground (arith, value_no_digits c s d, all-digits (c ∷ s) (d, ds))

-- A number below 2^64 is parsed back.
pub parse_usize-decimal : (i : ℕ) → i < 2 ^ 64 → parse_usize (decimal i) ≡ some i
parse_usize-decimal i h =
    parse_usize-digits (decimal i) (decimal_nonempty i) (decimal-IsDigit i)
      (omega (arith, value-decimal i))
    ∙ ap some (value-decimal i)

-- The id that the key store gives to the key at an index names that index.
pub parse_key_index-decimal :
    (i : ℕ) → i < 2 ^ 64 → parse_key_index (codes "vk-" ++ decimal i) ≡ some i
unfolding parse_key_index strip_prefix
parse_key_index-decimal i h = parse_usize-decimal i h
