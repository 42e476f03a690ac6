-- ===== src/Pii/Slice.antt =====
-- String slices by byte offsets. `none` is the panic of `&text[a..b]` when the range is out of order,
-- out of bounds or cuts a character.
use drgtw.Base.{
  ℕ, ◌-◌, Bytes, Bool, true, not, Option, none, some, ◌&&◌, ltb, leb, ◌==◌, length, take, drop,
  get_elem?, if◌then◌else◌,
}

-- `str::is_char_boundary`: the ends, and any byte that is no continuation byte.
unfoldable pub is_char_boundary : Bytes → ℕ → Bool
is_char_boundary text i =
    if i == 0
    then true
    else elim (get_elem? text i) [ none ↦ i == length text | some b ↦ not (leb 128 b && ltb b 192) ]

unfoldable pub slice : Bytes → ℕ → ℕ → Option Bytes
unfolding is_char_boundary
slice text a b =
    if leb a b && leb b (length text) && is_char_boundary text a && is_char_boundary text b
    then some (take (b - a) (drop a text))
    else none
