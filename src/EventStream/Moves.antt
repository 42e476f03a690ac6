-- ===== src/EventStream/Moves.antt =====
-- The parse of a block of headers answers, within its fuel, and its position moves on.
use drgtw.Base.{
  ℕ, zero, suc, ◌+◌, ◌-◌, ◌^◌, ◌≤◌, ◌<◌, ◌≡◌, refl, inl, inr, Bytes, Bool, true, false, ◌&&◌,
  ltb→lt, leb→le, Option, none, some, arith, length, take, drop, get_elem?, ltb, leb, if◌then◌else◌,
  Bool-cases,
}
use drgtw.Base.Results.{Result, ok, err}
use drgtw.EventStream.{
  Headers, DecodeError, bad_header, checked_add, advance, skip_value, long_value, prefixed_value,
  parse_value, parse_header, parse_headers,
}
use drgtw.EventStream.Utf8.{from_utf8}
use drgtw.EventStream.Reads.{get_elem?_in, sub_in, read_u16_in}

-- A parse that has an answer, and whose position has moved on.
unfoldable pub moves : ℕ → Option (Result DecodeError (ℕ × Headers)) → Bool
moves pos none = false
moves pos (some (err e)) = true
moves pos (some (ok (next, h))) = leb pos next

skip_value-moves : (pos n limit : ℕ) (h : Headers) → moves pos (skip_value pos n limit h) ≡ true
unfolding skip_value advance checked_add moves
skip_value-moves pos n limit h = ground arith

checked_string :
    (valid : Bool) (pos next : ℕ) (h : Headers)
    → pos ≤ next
    → moves pos (if valid then some (ok (next, h)) else some (err bad_header)) ≡ true
unfolding moves
checked_string true pos next h p = ground arith
checked_string false pos next h p = refl

long_value-moves :
    (buf : Bytes) (pos a b : ℕ) (s : Bool) (name : Bytes) (h : Headers)
    → pos ≤ a
    → a ≤ b
    → b ≤ length buf
    → moves pos (long_value buf a b s name h) ≡ true
unfolding long_value moves
long_value-moves buf pos a b true name h p q r =
    rw (sub_in buf a b q r, moves)
      (checked_string (from_utf8 (take (b - a) (drop a buf))) pos b _ (omega arith))
long_value-moves buf pos a b false name h p q r = ground arith

-- An end that is computed with a check, and must not pass the limit.
bounded :
    (pos a n limit : ℕ) (k : ℕ → Option (Result DecodeError (ℕ × Headers)))
    → (leb (a + n) limit ≡ true → moves pos (k (a + n)) ≡ true)
    → moves pos (elim (checked_add a n) [
      | none ↦ some (err bad_header)
      | some next ↦ if ltb limit next then some (err bad_header) else k next
    ])
      ≡ true
unfolding moves checked_add
bounded pos a n limit k h = elim (Bool-cases (ltb (a + n) (2 ^ 64))) [
  | inr large ↦ rw (large, moves) refl
  | inl small ↦ elim (Bool-cases (ltb limit (a + n))) [
    | inl over ↦ rw (small, moves) (rw (over, moves) refl)
    | inr within ↦ rw (small, moves) (rw (within, moves) (h (ground arith)))
  ]
]

-- A parse that goes on where another one has ended.
after :
    (pos q : ℕ) (o : Option (Result DecodeError (ℕ × Headers)))
    (k : ℕ → Headers → Option (Result DecodeError (ℕ × Headers)))
    → moves q o ≡ true
    → ((next : ℕ) (h : Headers) → q ≤ next → moves pos (k next h) ≡ true)
    → moves pos
        (elim o [ none ↦ none | some (err e) ↦ some (err e) | some (ok (next, h)) ↦ k next h ])
      ≡ true
unfolding moves
after pos q none k m h = absurd (cc m)
after pos q (some (err e)) k m h = refl
after pos q (some (ok (next, g))) k m h = h next g (leb→le q next m)

prefixed_value-moves :
    (buf : Bytes) (pos limit : ℕ) (s : Bool) (name : Bytes) (h : Headers)
    → limit ≤ length buf
    → moves pos (prefixed_value buf pos limit s name h) ≡ true
unfolding prefixed_value moves
prefixed_value-moves buf pos limit s name h l =
    elim (Bool-cases (ltb (pos + 2) (2 ^ 64) && leb (pos + 2) limit)) [
      | inl fits ↦
          let (n, found) = read_u16_in buf pos (ground arith) in
          let next : advance pos 2 limit ≡ ok (pos + 2) =
            unfold advance checked_add in ground arith in
          let rest : leb (pos + 2 + n) limit ≡ true
              → moves pos (long_value buf (pos + 2) (pos + 2 + n) s name h) ≡ true =
            λ within.
              long_value-moves buf pos (pos + 2) (pos + 2 + n) s name h (omega arith) (omega arith)
                (omega (arith, leb→le (pos + 2 + n) limit within)) in
          rw (next, moves) (rw (found, moves) (bounded pos (pos + 2) n limit _ rest))
      | inr out ↦
          let next : advance pos 2 limit ≡ err bad_header =
            unfold advance checked_add in ground arith in
          rw (next, moves) refl
    ]

parse_value-moves :
    (buf : Bytes) (t pos limit : ℕ) (name : Bytes) (h : Headers)
    → limit ≤ length buf
    → moves pos (parse_value buf t pos limit name h) ≡ true
unfolding parse_value moves
parse_value-moves buf t pos limit name h l = ground (
  arith,
  skip_value-moves pos 1 limit h,
  skip_value-moves pos 2 limit h,
  skip_value-moves pos 4 limit h,
  skip_value-moves pos 8 limit h,
  skip_value-moves pos 16 limit h,
  prefixed_value-moves buf pos limit true name h l,
  prefixed_value-moves buf pos limit false name h l,
)

moves_later :
    (p q : ℕ) (o : Option (Result DecodeError (ℕ × Headers)))
    → p ≤ q
    → moves q o ≡ true
    → moves p o ≡ true
unfolding moves
moves_later p q none h m = m
moves_later p q (some (err e)) h m = refl
moves_later p q (some (ok (next, k))) h m = ground arith

typed_value :
    (buf : Bytes) (pos n limit : ℕ) (name : Bytes) (h : Headers) (t : Option ℕ)
    → limit ≤ length buf
    → moves (pos + 1) (elim t [
      | none ↦ some (err bad_header)
      | some value_type ↦ parse_value buf value_type (pos + 1 + n + 1) limit name h
    ])
      ≡ true
unfolding moves
typed_value buf pos n limit name h none l = refl
typed_value buf pos n limit name h (some t) l =
    moves_later (pos + 1) (pos + 1 + n + 1) _ (omega arith)
      (parse_value-moves buf t (pos + 1 + n + 1) limit name h l)

parse_header-moves :
    (buf : Bytes) (pos limit : ℕ) (h : Headers)
    → pos < limit
    → limit ≤ length buf
    → moves (pos + 1) (parse_header buf pos limit h) ≡ true
unfolding parse_header moves
parse_header-moves buf pos limit h p l =
    let (n, found) = get_elem?_in buf pos (omega arith) in
    rw (found, moves)
      (bounded (pos + 1) (pos + 1) n limit _ (λ within.
        let inside : pos + 1 + n ≤ length buf = omega (arith, leb→le (pos + 1 + n) limit within) in
        rw (sub_in buf (pos + 1) (pos + 1 + n) (omega arith) inside, moves)
          (typed_value buf pos n limit (take (pos + 1 + n - (pos + 1)) (drop (pos + 1) buf)) h
            (get_elem? buf (pos + 1 + n)) l)))

-- The loop ends within its fuel.
pub parse_headers-answers :
    (buf : Bytes) (limit fuel pos : ℕ) (h : Headers)
    → limit ≤ length buf
    → limit ≤ pos + fuel
    → moves pos (parse_headers buf limit fuel pos h) ≡ true
unfolding parse_headers moves
parse_headers-answers buf limit zero pos h l f = ground arith
parse_headers-answers buf limit (suc fuel) pos h l f = elim (Bool-cases (ltb pos limit)) [
  | inr done ↦ rw done (ground arith)
  | inl more ↦
      rw (more, moves)
        (after pos (pos + 1) _ _ (parse_header-moves buf pos limit h (ltb→lt pos limit more) l)
          (λ next k on.
            moves_later pos next _ (omega arith)
              (parse_headers-answers buf limit fuel next k l (omega arith))))
]
