-- ===== src/EventStream/Reads.antt =====
-- Reads within the buffer succeed.
use drgtw.Base.{
  ℕ, zero, suc, ◌+◌, ◌-◌, ◌*◌, ◌≤◌, ◌<◌, ◌≡◌, refl, Bytes, some, [], ◌∷◌, ◌++◌, arith, length, take,
  drop, get_elem?,
}
use drgtw.EventStream.{sub, read_u16, read_u32}

pub get_elem?_in : (s : Bytes) (i : ℕ) → i < length s → (c : ℕ) × (get_elem? s i ≡ some c)
get_elem?_in [] i h = absurd (omega arith)
get_elem?_in (c ∷ s) zero h = (c, refl)
get_elem?_in (c ∷ s) (suc i) h = get_elem?_in s i (omega arith)

pub sub_in :
    (s : Bytes) (a b : ℕ) → a ≤ b → b ≤ length s → sub s a b ≡ some (take (b - a) (drop a s))
unfolding sub
sub_in s a b h k = ground arith

pub read_u16_in : (s : Bytes) (i : ℕ) → i + 1 < length s → (n : ℕ) × (read_u16 s i ≡ some n)
unfolding read_u16
read_u16_in s i h =
    let (a, ea) = get_elem?_in s i (omega arith) in
    let (b, eb) = get_elem?_in s (i + 1) h in (a * 256 + b, ground arith)

pub read_u32_in : (s : Bytes) (i : ℕ) → i + 3 < length s → (n : ℕ) × (read_u32 s i ≡ some n)
unfolding read_u32
read_u32_in s i h =
    let (a, ea) = read_u16_in s i (omega arith) in
    let (b, eb) = read_u16_in s (i + 2) (omega arith) in (a * 65536 + b, ground arith)

-- More bytes behind do not change a read.
get_elem?-append : (s t : Bytes) (i : ℕ) → i < length s → get_elem? (s ++ t) i ≡ get_elem? s i
get_elem?-append [] t i h = absurd (omega arith)
get_elem?-append (c ∷ s) t zero h = refl
get_elem?-append (c ∷ s) t (suc i) h = get_elem?-append s t i (omega arith)
