-- ===== src/Pii/EntityMap/Scan.antt =====
-- The restoring scan on words: where placeholders consist of letters, digits and underscores, and
-- stand between other bytes, the scan finds each of them and nothing else.
use drgtw.Base.{
  ℕ, zero, suc, ◌+◌, ◌≤◌, ◌≡◌, ◌≢◌, refl, sym, ap, ◌⊎◌, inl, inr, Bytes, Bool, true, false, ◌||◌,
  ◌&&◌, none, some, List, [], ◌∷◌, ◌++◌, arith, leb, ◌==◌, length, All, In, In-All, Option-cases,
  strip_prefix, strip_prefix-append,
}
use drgtw.Base.Assoc.{bytes_eq}
use drgtw.Base.Sort.{IsSorted}
use drgtw.Pii.EntityMap.{at_boundary, find_match, restore_from, longest_first}

abbrev pub is_word : ℕ → Bool
is_word c =
    leb b'a' c && leb c b'z' || leb b'A' c && leb c b'Z' || leb b'0' c && leb c b'9' || c == b'_'

abbrev pub IsWord : Bytes → Type 0
IsWord = All (λ c. is_word c ≡ true)

-- The text ends in a byte that is no part of a word.
abbrev pub EndsPlain : Bytes → Type 0
EndsPlain [] = ⊥
EndsPlain (c ∷ []) = is_word c ≡ false
EndsPlain (c ∷ d ∷ s) = EndsPlain (d ∷ s)

-- The text is empty or begins with a byte that is no part of a word.
abbrev pub StartsPlain : Bytes → Type 0
StartsPlain [] = Unit
StartsPlain (c ∷ s) = is_word c ≡ false

abbrev pub Entry : Type 0
Entry = Bytes × Bytes

abbrev pub HasWords : List Entry → Type 0
HasWords = All (λ (e : Entry). IsWord e.0)

-- No placeholder begins anywhere in the text.
abbrev pub IsFree : List Entry → Bytes → Type 0
IsFree es [] = Unit
IsFree es (c ∷ s) = All (λ (e : Entry). strip_prefix e.0 (c ∷ s) ≡ none) es × IsFree es s

-- A word that begins in a text which ends plainly ends in it too.
strip_prefix-EndsPlain :
    (ph g rest r : Bytes)
    → IsWord ph
    → EndsPlain g
    → strip_prefix ph (g ++ rest) ≡ some r
    → (r' : Bytes) × (strip_prefix ph g ≡ some r')
unfolding strip_prefix
strip_prefix-EndsPlain [] g rest r w e h = (g, refl)
strip_prefix-EndsPlain (c ∷ p) [] rest r w e h = absurd e
strip_prefix-EndsPlain (c ∷ p) (d ∷ []) rest r w e h = absurd (ground (arith, w.0))
strip_prefix-EndsPlain (c ∷ p) (d ∷ d' ∷ s) rest r w e h =
    let (r', found) = strip_prefix-EndsPlain p (d' ∷ s) rest r w.1 e (ground arith) in
    (r', ground (arith, found))

-- At least as long as `ph`, a word in front of a plain start is `ph` itself.
strip_prefix-word :
    (q ph rest r : Bytes)
    → IsWord q
    → StartsPlain rest
    → length ph ≤ length q
    → strip_prefix q (ph ++ rest) ≡ some r
    → (q ≡ ph) × (r ≡ rest)
unfolding strip_prefix
strip_prefix-word [] [] rest r w s l h = (refl, ground arith)
strip_prefix-word [] (d ∷ p) rest r w s l h = absurd (omega arith)
strip_prefix-word (c ∷ q) [] [] r w s l h = absurd (ground arith)
strip_prefix-word (c ∷ q) [] (d ∷ rest) r w s l h = absurd (ground (arith, w.0))
strip_prefix-word (c ∷ q) (d ∷ p) rest r w s l h =
    let same = strip_prefix-word q p rest r w.1 s (omega arith) (ground arith) in
    (ground (arith, same.0), same.1)

find_match-none :
    (es : List Entry) (s : Bytes)
    → All (λ (e : Entry). strip_prefix e.0 s ≡ none) es
    → find_match es s ≡ none
unfolding find_match
find_match-none [] s h = refl
find_match-none ((ph, orig) ∷ es) s (h, hs) = ground (arith, find_match-none es s hs)

no_crossing :
    (es : List Entry) (g rest : Bytes)
    → HasWords es
    → EndsPlain g
    → All (λ (e : Entry). strip_prefix e.0 g ≡ none) es
    → All (λ (e : Entry). strip_prefix e.0 (g ++ rest) ≡ none) es
no_crossing [] g rest w e h = tt
no_crossing ((ph, orig) ∷ es) g rest (w, ws) e (h, hs) = (
  elim (Option-cases (strip_prefix ph (g ++ rest))) [
    | inl none_here ↦ none_here
    | inr (r, found) ↦
        let (r', inside) = strip_prefix-EndsPlain ph g rest r w e found in absurd (cc (h, inside))
  ],
  no_crossing es g rest ws e hs,
)

at_boundary_of_plain : (rest : Bytes) → StartsPlain rest → at_boundary rest ≡ true
unfolding at_boundary
at_boundary_of_plain [] h = refl
at_boundary_of_plain (c ∷ s) h = ground arith

-- In a list that is ordered by length, the entry of `ph` is the one found at `ph`.
pub find_match_at :
    (es : List Entry) (ph orig rest : Bytes)
    → HasWords es
    → IsSorted longest_first es
    → ((v : Bytes) → In (ph, v) es → v ≡ orig)
    → In (ph, orig) es
    → StartsPlain rest
    → find_match es (ph ++ rest) ≡ some (orig, rest)
unfolding find_match
find_match_at [] ph orig rest w s u i p = absurd i
find_match_at ((q, v) ∷ es) ph orig rest (w, ws) (le, s) u (inl e) p =
    let same : q ≡ ph = cc (ap (λ (x : Entry). x.0) e) in
    let bound : v ≡ orig = cc (ap (λ (x : Entry). x.1) e) in
    ground (arith, same, bound, strip_prefix-append ph rest, at_boundary_of_plain rest p)
find_match_at ((q, v) ∷ es) ph orig rest (w, ws) (le, s) u (inr i) p =
    let later = find_match_at es ph orig rest ws s (λ x j. u x (inr j)) i p in
    let long = In-All (λ (e : Entry). longest_first (q, v) e ≡ true) es le (ph, orig) i in
    elim (Option-cases (strip_prefix q (ph ++ rest))) [
      | inl none_here ↦ ground (arith, later, none_here)
      | inr (r, found) ↦
          let same = strip_prefix-word q ph rest r w p (ground (arith, long)) found in
          let bound : v ≡ orig = u v (inl (ap (λ x. (x, v)) (sym same.0))) in
          ground (arith, found, same.0, same.1, bound, at_boundary_of_plain rest p)
    ]

-- One round of the scan, at a placeholder and at any other byte.
restore_from_found :
    (es : List Entry) (f c : ℕ) (s orig behind t : Bytes)
    → find_match es (c ∷ s) ≡ some (orig, behind)
    → restore_from es f behind ≡ some t
    → restore_from es (suc f) (c ∷ s) ≡ some (orig ++ t)
unfolding restore_from
restore_from_found es f c s orig behind t h k = ground arith

-- More fuel gives the same text.
pub restore_from_more :
    (es : List Entry) (f f' : ℕ) (s t : Bytes)
    → f ≤ f'
    → restore_from es f s ≡ some t
    → restore_from es f' s ≡ some t
unfolding restore_from
restore_from_more es f f' [] t l h = ground arith
restore_from_more es zero f' (c ∷ s) t l h = absurd (cc h)
restore_from_more es (suc f) zero (c ∷ s) t l h = absurd (omega arith)
restore_from_more es (suc f) (suc f') (c ∷ s) t l h = elim (Option-cases (find_match es (c ∷ s))) [
  | inl plain ↦ elim (Option-cases (restore_from es f s)) [
    | inl stuck ↦ absurd (ground arith)
    | inr (u, more) ↦ let later = restore_from_more es f f' s u (omega arith) more in ground arith
  ]
  | inr ((orig, behind), found) ↦ elim (Option-cases (restore_from es f behind)) [
    | inl stuck ↦ absurd (ground arith)
    | inr (u, more) ↦
        let later = restore_from_more es f f' behind u (omega arith) more in ground arith
  ]
]

restore_from_plain :
    (es : List Entry) (f c : ℕ) (s t : Bytes)
    → find_match es (c ∷ s) ≡ none
    → restore_from es f s ≡ some t
    → restore_from es (suc f) (c ∷ s) ≡ some (c ∷ t)
unfolding restore_from
restore_from_plain es f c s t h k = ground arith

-- Text that holds no placeholder is copied: in front of other text, if it ends plainly,
pub restore_from_gap :
    (es : List Entry) (g rest t : Bytes) (f : ℕ)
    → HasWords es
    → IsFree es g
    → (g ≡ []) ⊎ EndsPlain g
    → restore_from es f rest ≡ some t
    → restore_from es (length g + f) (g ++ rest) ≡ some (g ++ t)
restore_from_gap es [] rest t f w free e h = restore_from_more es f (0 + f) rest t (omega arith) h
restore_from_gap es (c ∷ g) rest t f w free (inl e) h = absurd (cc e)
restore_from_gap es (c ∷ []) rest t f w (free, _) (inr e) h =
    restore_from_more es (suc f) (1 + f) (c ∷ rest) (c ∷ t) (omega arith) (
      restore_from_plain es f c rest t
        (find_match-none es (c ∷ rest) (no_crossing es (c ∷ []) rest w e free)) h)
restore_from_gap es (c ∷ d ∷ g) rest t f w (free, frees) (inr e) h =
    restore_from_more es (suc (length (d ∷ g) + f)) (length (c ∷ d ∷ g) + f) (c ∷ d ∷ (g ++ rest))
      (c ∷ d ∷ (g ++ t)) (omega arith)
      (restore_from_plain es (length (d ∷ g) + f) c (d ∷ (g ++ rest)) (d ∷ (g ++ t))
        (find_match-none es (c ∷ d ∷ (g ++ rest)) (no_crossing es (c ∷ d ∷ g) rest w e free))
        (restore_from_gap es (d ∷ g) rest t f w frees (inr e) h))

-- and at the end of the text in any case.
pub restore_from_free :
    (es : List Entry) (g : Bytes) → IsFree es g → restore_from es (length g) g ≡ some g
restore_from_free es [] free = unfold restore_from in refl
restore_from_free es (c ∷ g) (free, frees) =
    restore_from_plain es (length g) c g g (find_match-none es (c ∷ g) free)
      (restore_from_free es g frees)

-- A known placeholder in front of a plain start is replaced.
pub restore_from_at :
    (es : List Entry) (ph orig rest t : Bytes) (f : ℕ)
    → HasWords es
    → IsSorted longest_first es
    → ((v : Bytes) → In (ph, v) es → v ≡ orig)
    → In (ph, orig) es
    → StartsPlain rest
    → ph ≢ []
    → restore_from es f rest ≡ some t
    → restore_from es (length ph + f) (ph ++ rest) ≡ some (orig ++ t)
restore_from_at es [] orig rest t f w s u i p ne h = absurd (ne refl)
restore_from_at es (c ∷ ph) orig rest t f w s u i p ne h =
    restore_from_more es (suc f) (length (c ∷ ph) + f) (c ∷ (ph ++ rest)) (orig ++ t) (omega arith)
      (restore_from_found es f c (ph ++ rest) orig rest t
        (find_match_at es (c ∷ ph) orig rest w s u i p) h)
