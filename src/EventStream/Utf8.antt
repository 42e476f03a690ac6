-- ===== src/EventStream/Utf8.antt =====
-- `core::str::from_utf8` as a test: the well-formed byte sequences of the Unicode standard.
use drgtw.Base.{
  All, arith, refl, ◌≡◌, ◌<◌, ℕ, Bytes, Bool, true, false, ◌&&◌, Option, none, some, List, [], ◌∷◌,
  leb, ltb, if◌then◌else◌,
}

abbrev tail_byte : ℕ × ℕ
tail_byte = (128, 191)

-- The ranges of the bytes that follow a first byte.
following : ℕ → Option (List (ℕ × ℕ))
following c =
    if ltb c 128
    then some []
    else if ltb c 194
    then none
    else if ltb c 224
    then some (tail_byte ∷ [])
    else if leb c 224
    then some ((160, 191) ∷ tail_byte ∷ [])
    else if ltb c 237
    then some (tail_byte ∷ tail_byte ∷ [])
    else if leb c 237
    then some ((128, 159) ∷ tail_byte ∷ [])
    else if ltb c 240
    then some (tail_byte ∷ tail_byte ∷ [])
    else if leb c 240
    then some ((144, 191) ∷ tail_byte ∷ tail_byte ∷ [])
    else if ltb c 244
    then some (tail_byte ∷ tail_byte ∷ tail_byte ∷ [])
    else if leb c 244
    then some ((128, 143) ∷ tail_byte ∷ tail_byte ∷ [])
    else none

well_formed : List (ℕ × ℕ) → Bytes → Bool
unfolding following
well_formed [] [] = true
well_formed (p ∷ ps) [] = false
well_formed [] (c ∷ s) = elim (following c) [ none ↦ false | some ps ↦ well_formed ps s ]
well_formed ((low, high) ∷ ps) (c ∷ s) = if leb low c && leb c high then well_formed ps s else false

unfoldable pub from_utf8 : Bytes → Bool
unfolding well_formed
from_utf8 s = well_formed [] s

ascii_follows : (c : ℕ) → c < 128 → following c ≡ some []
unfolding following
ascii_follows c h = ground arith

-- ASCII text is valid.
pub from_utf8-ascii : (s : Bytes) → All (λ c. c < 128) s → from_utf8 s ≡ true
unfolding from_utf8 well_formed
from_utf8-ascii [] h = refl
from_utf8-ascii (c ∷ s) (h, hs) = rw (ascii_follows c h, well_formed) (from_utf8-ascii s hs)
