-- ===== src/Sse/Framing/Grows.antt =====
-- More bytes behind the end of an event do not move it (`find_event_boundary` in
-- crates/drgtw-proxy/src/sse_restore.rs).
use drgtw.Base.{
  ℕ, ◌≤◌, ◌<◌, ◌≡◌, refl, inl, inr, Bytes, Option, none, some, ◌++◌, arith, length, Option-cases,
}
use drgtw.Sse.Framing.{end_of, earlier, find_event_boundary, lf_lf, crlf_crlf}
use drgtw.Sse.Framing.Boundary.{end_of-bounds, end_of-append, end_of-beyond}

-- How the answer of a search in `l` bytes may change when bytes are added: an index found stays, and one
-- that is new lies behind the old bytes.
abbrev pub Grows : ℕ → Option ℕ → Option ℕ → Type 0
Grows l none none = Unit
Grows l none (some y) = l < y
Grows l (some x) none = ⊥
Grows l (some x) (some y) = (x ≡ y) × (x ≤ l)

earlier-Grows :
    (l : ℕ) (a a' b b' : Option ℕ)
    → Grows l a a'
    → Grows l b b'
    → Grows l (earlier a b) (earlier a' b')
unfolding earlier
earlier-Grows l none none none none h g = tt
earlier-Grows l none none none (some y) h g = g
earlier-Grows l none none (some x) none h g = absurd g
earlier-Grows l none none (some x) (some y) h g = g
earlier-Grows l none (some v) none none h g = h
earlier-Grows l none (some v) none (some y) h g = omega arith
earlier-Grows l none (some v) (some x) none h g = absurd g
earlier-Grows l none (some v) (some x) (some y) (h) (e, g) = (omega arith, g)
earlier-Grows l (some u) none b b' h g = absurd h
earlier-Grows l (some u) (some v) none none h g = h
earlier-Grows l (some u) (some v) none (some y) (e, h) g = (omega arith, h)
earlier-Grows l (some u) (some v) (some x) none h g = absurd g
earlier-Grows l (some u) (some v) (some x) (some y) (e, h) (d, g) = (omega arith, omega arith)

end_of-Grows : (p s t : Bytes) → 0 < length p → Grows (length s) (end_of p s) (end_of p (s ++ t))
end_of-Grows p s t l = elim (Option-cases (end_of p s)) [
  | inl e ↦ elim (Option-cases (end_of p (s ++ t))) [
    | inl d ↦ rw e (rw d tt)
    | inr (m, d) ↦ rw e (rw d (end_of-beyond p s t m l e d))
  ]
  | inr (n, e) ↦ rw e (rw (end_of-append p s t n e) (refl, (end_of-bounds p s n e).1))
]

boundary-Grows :
    (s t : Bytes) → Grows (length s) (find_event_boundary s) (find_event_boundary (s ++ t))
unfolding find_event_boundary
boundary-Grows s t =
    earlier-Grows (length s) (end_of lf_lf s) (end_of lf_lf (s ++ t)) (end_of crlf_crlf s)
      (end_of crlf_crlf (s ++ t)) (end_of-Grows lf_lf s t (omega arith))
      (end_of-Grows crlf_crlf s t (omega arith))

Grows-some : (l : ℕ) (a a' : Option ℕ) (n : ℕ) → a ≡ some n → Grows l a a' → a' ≡ some n
Grows-some l none a' n h g = absurd (cc h)
Grows-some l (some x) none n h g = absurd g
Grows-some l (some x) (some y) n h (e, g) = ground arith

-- An event that is complete stays the first one when more bytes arrive.
pub boundary-append :
    (s t : Bytes) (n : ℕ) → find_event_boundary s ≡ some n → find_event_boundary (s ++ t) ≡ some n
boundary-append s t n h =
    Grows-some (length s) (find_event_boundary s) (find_event_boundary (s ++ t)) n h
      (boundary-Grows s t)
