-- ===== src/Base/Strings.antt =====
-- More of Rust's `str`, on the bytes of the text: `strip_suffix`, `split_inclusive`, `lines`, `trim`.
use Prim.Native.Nat.{ℕ, zero, suc, ◌-◌}
use mathlib.Core.Path.{◌≡◌, refl, ap, ◌∙◌, sym}
use mathlib.Core.Logic.{◌≢◌, inl, inr}
use mathlib.Core.Bool.{true, false, ◌&&◌}
use mathlib.Core.List.{List, [], ◌∷◌, ◌++◌, map, append_assoc, append-nil}
use mathlib.Core.Option.{Option, none, some}
use native.Mathlib.Omega.{arith}
use drgtw.Base.Tests.{if◌then◌else◌, ◌==◌, leb, Bool-cases, Option-cases}
use drgtw.Base.Lists.{All, length, take, drop, take-append-drop, length-append}
use drgtw.Base.Text.{Bytes, strip_prefix, equal, equal_iff}

-- `str::strip_suffix`.
unfoldable pub strip_suffix : Bytes → Bytes → Option Bytes
strip_suffix p s =
    let front = length s - length p in
    if leb (length p) (length s) && equal (drop front s) p then some (take front s) else none

pub strip_suffix-eq_some : (p s : Bytes) {r : Bytes} → strip_suffix p s ≡ some r → s ≡ r ++ p
unfolding strip_suffix
strip_suffix-eq_some p s {r} h =
    let whole = take-append-drop (length s - length p) s in
    ground (arith, equal_iff (drop (length s - length p) s) p, whole)

front_length : (a b : Bytes) → length (a ++ b) - length b ≡ length a
front_length a b = omega (arith, length-append a b)

take-front : (a b : Bytes) → take (length a) (a ++ b) ≡ a
take-front [] b = refl
take-front (c ∷ a) b = ap (λ t. c ∷ t) (take-front a b)

drop-front : (a b : Bytes) → drop (length a) (a ++ b) ≡ b
drop-front [] b = refl
drop-front (c ∷ a) b = drop-front a b

drop-length_append : (a b : Bytes) → drop (length (a ++ b) - length b) (a ++ b) ≡ b
drop-length_append a b = rw (front_length a b) (drop-front a b)

take-length_append : (a b : Bytes) → take (length (a ++ b) - length b) (a ++ b) ≡ a
take-length_append a b = rw (front_length a b) (take-front a b)

pub strip_suffix-append : (p s : Bytes) → strip_suffix p (s ++ p) ≡ some s
unfolding strip_suffix
strip_suffix-append p s =
    ground (arith, length-append s p, drop-length_append s p, take-length_append s p, equal_iff p p)

abbrev pub concat : List Bytes → Bytes
concat [] = []
concat (s ∷ ss) = s ++ concat ss

pub concat-append : (a b : List Bytes) → concat (a ++ b) ≡ concat a ++ concat b
concat-append [] b = refl
concat-append (s ∷ a) b =
    ap (λ t. s ++ t) (concat-append a b) ∙ sym (append_assoc s (concat a) (concat b))

-- A last line without a line feed, if there is one.
last_line : Bytes → List Bytes
last_line [] = []
last_line (c ∷ line) = (c ∷ line) ∷ []

concat-last_line : (line : Bytes) → concat (last_line line) ≡ line
unfolding last_line
concat-last_line [] = refl
concat-last_line (c ∷ line) = append-nil (c ∷ line)

-- The lines of a text, each with its line feed; `line` is the part of the first one already read.
unfoldable pub split_from : Bytes → Bytes → List Bytes
unfolding last_line
split_from line [] = last_line line
split_from line (c ∷ s) = elim (c == 10) [
  | true ↦ (line ++ c ∷ []) ∷ split_from [] s
  | false ↦ split_from (line ++ c ∷ []) s
]

-- No byte is lost.
pub concat-split_from : (line s : Bytes) → concat (split_from line s) ≡ line ++ s
unfolding split_from
concat-split_from line [] = concat-last_line line ∙ sym (append-nil line)
concat-split_from line (c ∷ s) = ground (
  arith,
  concat-split_from [] s,
  concat-split_from (line ++ c ∷ []) s,
  append_assoc line (c ∷ []) s,
)

-- `str::split_once` at a character of one byte: what stands before its first occurrence, and behind it.
unfoldable pub put_before : ℕ → Option (Bytes × Bytes) → Option (Bytes × Bytes)
put_before c none = none
put_before c (some (a, b)) = some (c ∷ a, b)

unfoldable pub split_once : ℕ → Bytes → Option (Bytes × Bytes)
unfolding put_before
split_once d [] = none
split_once d (c ∷ s) =
    let rest = put_before c (split_once d s) in if c == d then some ([], s) else rest

pub split_once-append :
    (d : ℕ) (a b : Bytes) → All (λ c. c ≢ d) a → split_once d (a ++ d ∷ b) ≡ some (a, b)
unfolding split_once put_before
split_once-append d [] b h = ground arith
split_once-append d (c ∷ a) b (h, hs) = ground (arith, split_once-append d a b hs)

pub split_once-eq_some :
    (d : ℕ) (s : Bytes) {a b : Bytes} → split_once d s ≡ some (a, b) → s ≡ a ++ d ∷ b
unfolding split_once put_before
split_once-eq_some d [] h = absurd (cc h)
split_once-eq_some d (c ∷ s) {a} {b} h = elim (Bool-cases (c == d)) [
  | inl e ↦ ground arith
  | inr e ↦ elim (Option-cases (split_once d s)) [
    | inl n ↦ absurd (ground arith)
    | inr ((x, y), f) ↦ ground (arith, split_once-eq_some d s {a = x} {b = y})
  ]
]

-- `str::split_inclusive('\n')`.
unfoldable pub split_inclusive : Bytes → List Bytes
unfolding split_from
split_inclusive s = split_from [] s

-- A line without its line feed and one carriage return before that.
unfoldable pub chomp : Bytes → Bytes
unfolding strip_suffix
chomp l = elim (strip_suffix (10 ∷ []) l) [
  | none ↦ l
  | some m ↦ elim (strip_suffix (13 ∷ []) m) [ none ↦ m | some k ↦ k ]
]

-- `str::lines`.
unfoldable pub lines : Bytes → List Bytes
unfolding chomp split_inclusive
lines s = map chomp (split_inclusive s)

-- The white space of Unicode.
abbrev pub spaces : List Bytes
spaces =
    (9 ∷ [])
    ∷ (10 ∷ [])
    ∷ (11 ∷ [])
    ∷ (12 ∷ [])
    ∷ (13 ∷ [])
    ∷ (32 ∷ [])
    ∷ (194 ∷ 133 ∷ [])
    ∷ (194 ∷ 160 ∷ [])
    ∷ (225 ∷ 154 ∷ 128 ∷ [])
    ∷ (226 ∷ 128 ∷ 128 ∷ [])
    ∷ (226 ∷ 128 ∷ 129 ∷ [])
    ∷ (226 ∷ 128 ∷ 130 ∷ [])
    ∷ (226 ∷ 128 ∷ 131 ∷ [])
    ∷ (226 ∷ 128 ∷ 132 ∷ [])
    ∷ (226 ∷ 128 ∷ 133 ∷ [])
    ∷ (226 ∷ 128 ∷ 134 ∷ [])
    ∷ (226 ∷ 128 ∷ 135 ∷ [])
    ∷ (226 ∷ 128 ∷ 136 ∷ [])
    ∷ (226 ∷ 128 ∷ 137 ∷ [])
    ∷ (226 ∷ 128 ∷ 138 ∷ [])
    ∷ (226 ∷ 128 ∷ 168 ∷ [])
    ∷ (226 ∷ 128 ∷ 169 ∷ [])
    ∷ (226 ∷ 128 ∷ 175 ∷ [])
    ∷ (226 ∷ 129 ∷ 159 ∷ [])
    ∷ (227 ∷ 128 ∷ 128 ∷ [])
    ∷ []

-- What follows the first of the texts that stands at the front.
unfoldable pub strip_any : List Bytes → Bytes → Option Bytes
unfolding strip_prefix
strip_any [] s = none
strip_any (p ∷ ps) s =
    let later = strip_any ps s in elim (strip_prefix p s) [ none ↦ later | some r ↦ some r ]

-- Every round takes a byte off, so that the length is enough fuel.
unfoldable pub trim_front : List Bytes → ℕ → Bytes → Bytes
unfolding strip_any
trim_front ps zero s = s
trim_front ps (suc fuel) s = elim (strip_any ps s) [ none ↦ s | some r ↦ trim_front ps fuel r ]

unfoldable pub reversed_onto : Bytes → Bytes → Bytes
reversed_onto [] acc = acc
reversed_onto (c ∷ s) acc = reversed_onto s (c ∷ acc)

abbrev pub reversed : Bytes → Bytes
reversed s = reversed_onto s []

unfoldable pub trim_start : Bytes → Bytes
unfolding trim_front
trim_start s = trim_front spaces (length s) s

unfoldable pub trim_end : Bytes → Bytes
unfolding trim_front reversed_onto
trim_end s = reversed (trim_front (map reversed spaces) (length s) (reversed s))

-- `str::trim`.
unfoldable pub trim : Bytes → Bytes
unfolding trim_start trim_end
trim s = trim_end (trim_start s)
