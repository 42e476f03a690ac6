-- ===== src/Keys/Auth/Compare.antt =====
-- The comparison loop of `authenticate`: padding loses nothing on text, and the loop selects an entry
-- by the lowest byte of its index.
use Prim.Native.Nat.{bit_or}
use drgtw.Base.{
  ℕ, zero, suc, ◌+◌, ◌-◌, ◌*◌, ◌/◌, ◌%◌, ◌^◌, ◌≤◌, ◌<◌, min, ◌≡◌, ◌≢◌, refl, sym, ap, ◌∙◌, ◌⊎◌, inl,
  inr, Bytes, Bool, true, false, Option, none, some, List, [], ◌∷◌, ◌++◌, arith, length, take,
  get_elem?, All, equal, equal_iff, if◌then◌else◌, Bool-cases,
}
use drgtw.Base.Bits.{and-zero, and_ones, and_byte, and_high, or_byte, zero-or}
use drgtw.Keys.Auth.{KeyEntry, filled, padded, select, compare_all}

-- No byte 0xff, which occurs in no UTF-8 text.
abbrev pub IsText : Bytes → Type 0
IsText = All (λ c. c < 255)

filled_split : (s t : Bytes) (j k : ℕ) → IsText s → IsText t → s ++ filled j ≡ t ++ filled k → s ≡ t
unfolding filled
filled_split [] [] j k hs ht h = refl
filled_split [] (d ∷ t) zero k hs ht h = absurd (cc h)
filled_split [] (d ∷ t) (suc j) k hs (lt, ht) h = absurd (ground arith)
filled_split (c ∷ s) [] j zero hs ht h = absurd (cc h)
filled_split (c ∷ s) [] j (suc k) (lt, hs) ht h = absurd (ground arith)
filled_split (c ∷ s) (d ∷ t) j k (_, hs) (_, ht) h =
    let rest = filled_split s t j k hs ht (cc h) in let head : c ≡ d = cc h in cc (rest, head)

take_all : (s : Bytes) → take (length s) s ≡ s
take_all [] = refl
take_all (c ∷ s) = ap (◌∷◌ c) (take_all s)

padded-eq : (n : ℕ) (s : Bytes) → length s ≤ n → padded n s ≡ s ++ filled (n - length s)
unfolding padded
padded-eq n s h =
    let whole : min (length s) n ≡ length s = omega arith in rw whole (rw (take_all s) refl)

-- Padded to one length, two texts are equal only if they were.
padded-injective :
    (n : ℕ) (s t : Bytes)
    → length s ≤ n
    → length t ≤ n
    → IsText s
    → IsText t
    → padded n s ≡ padded n t
    → s ≡ t
padded-injective n s t p q hs ht h =
    filled_split s t (n - length s) (n - length t) hs ht
      (sym (padded-eq n s p) ∙ h ∙ padded-eq n t q)

select_miss : (i m : ℕ) → m < 2 ^ 64 → select 0 i m ≡ m
unfolding select
select_miss i m h = rw and-zero (rw zero-or (and_ones 64 m h))

-- A match keeps the upper bytes of the old index and takes the lowest byte of the new one.
select_hit : (i m : ℕ) → m < 2 ^ 64 → select 1 i m ≡ 256 * (m / 256) + i % 256
unfolding select
select_hit i m h = rw (and_byte i) (rw (and_high m h) (or_byte (i % 256) (m / 256) (omega arith)))

-- The last entry with that secret.
unfoldable pub find_last : Bytes → List KeyEntry → Option KeyEntry
find_last cand [] = none
find_last cand (e ∷ es) = elim (find_last cand es) [
  | some f ↦ some f
  | none ↦ if equal e.secret cand then some e else none
]

-- Secrets of at most `n` bytes that are texts.
abbrev pub AreSecrets : ℕ → List KeyEntry → Type 0
AreSecrets n = All (λ e. (length e.secret ≤ n) × IsText e.secret)

abbrev pub flag : Bool → ℕ
flag b = if b then 1 else 0

flag-or : (b : Bool) → bit_or (flag b) 1 ≡ 1
flag-or true = refl
flag-or false = refl

flag-or_zero : (b : Bool) → bit_or (flag b) 0 ≡ flag b
flag-or_zero true = refl
flag-or_zero false = refl

module _ (ct_eq : Bytes → Bytes → ℕ) (ct_eq_same : (a : Bytes) → ct_eq a a ≡ 1)
    (ct_eq_differ : (a b : Bytes) → a ≢ b → ct_eq a b ≡ 0) (n : ℕ) (cand : Bytes)
    (fits : length cand ≤ n) (text : IsText cand) where
  ct_eq-padded :
      (s : Bytes)
      → length s ≤ n
      → IsText s
      → ct_eq (padded n cand) (padded n s) ≡ flag (equal s cand)
  ct_eq-padded s h t = elim (Bool-cases (equal s cand)) [
    | inl e ↦ rw e (
        ap (λ x. ct_eq (padded n cand) (padded n x)) ((equal_iff s cand).0 e)
        ∙ ct_eq_same (padded n cand))
    | inr ne ↦ rw ne (
        ct_eq_differ (padded n cand) (padded n s) (λ p.
          let q = (equal_iff s cand).1 (sym (padded-injective n cand s fits h text t p)) in
          cc (ne, q)))
  ]

  -- One round, at a match and at a miss.
  pub compare_all_hit_step :
      (e : KeyEntry) (es : List KeyEntry) (i m : ℕ) (b : Bool)
      → (length e.secret ≤ n) × IsText e.secret
      → m < 2 ^ 64
      → equal e.secret cand ≡ true
      → compare_all ct_eq n cand (e ∷ es) i (flag b) m
        ≡ compare_all ct_eq n cand es (i + 1) 1 (256 * (m / 256) + i % 256)
  unfolding compare_all
  compare_all_hit_step e es i m b (p, t) l hit =
      ap (λ q. compare_all ct_eq n cand es (i + 1) (bit_or (flag b) q) (select q i m))
        (ct_eq-padded e.secret p t ∙ ap flag hit)
      ∙ ap (λ q. compare_all ct_eq n cand es (i + 1) q (select 1 i m)) (flag-or b)
      ∙ ap (compare_all ct_eq n cand es (i + 1) 1) (select_hit i m l)

  pub compare_all_miss_step :
      (e : KeyEntry) (es : List KeyEntry) (i m : ℕ) (b : Bool)
      → (length e.secret ≤ n) × IsText e.secret
      → m < 2 ^ 64
      → equal e.secret cand ≡ false
      → compare_all ct_eq n cand (e ∷ es) i (flag b) m
        ≡ compare_all ct_eq n cand es (i + 1) (flag b) m
  unfolding compare_all
  compare_all_miss_step e es i m b (p, t) l miss =
      ap (λ q. compare_all ct_eq n cand es (i + 1) (bit_or (flag b) q) (select q i m))
        (ct_eq-padded e.secret p t ∙ ap flag miss)
      ∙ ap (λ q. compare_all ct_eq n cand es (i + 1) q (select 0 i m)) (flag-or_zero b)
      ∙ ap (compare_all ct_eq n cand es (i + 1) (flag b)) (select_miss i m l)

  -- With no match the loop ends as it began.
  pub compare_all_miss :
      (es : List KeyEntry) (i m : ℕ) (b : Bool)
      → AreSecrets n es
      → find_last cand es ≡ none
      → m < 2 ^ 64
      → compare_all ct_eq n cand es i (flag b) m ≡ (flag b, m)
  unfolding find_last
  compare_all_miss [] i m b a h l = unfold compare_all in refl
  compare_all_miss (e ∷ es) i m b (p, a) h l =
      let none_later : find_last cand es ≡ none = ground arith in
      let none_here : equal e.secret cand ≡ false = ground arith in
      compare_all_miss_step e es i m b p l none_here
      ∙ compare_all_miss es (i + 1) m b a none_later l

  -- Among the first 256 entries the loop ends at the last match.
  pub compare_all_small :
      (es : List KeyEntry) (i m : ℕ) (b : Bool)
      → AreSecrets n es
      → i + length es ≤ 256
      → m < 256
      → ((find_last cand es ≡ none) × (compare_all ct_eq n cand es i (flag b) m ≡ (flag b, m)))
        ⊎ ((e : KeyEntry) × (k : ℕ) × (find_last cand es ≡ some e)
            × (get_elem? es k ≡ some e)
            × (compare_all ct_eq n cand es i (flag b) m ≡ (1, i + k)))
  unfolding find_last
  compare_all_small [] i m b a h l = inl (refl, unfold compare_all in refl)
  compare_all_small (e ∷ es) i m b (p, a) h l = elim (Bool-cases (equal e.secret cand)) [
    | inl hit ↦
        let here : compare_all ct_eq n cand (e ∷ es) i (flag b) m
            ≡ compare_all ct_eq n cand es (i + 1) (flag true) i =
          compare_all_hit_step e es i m b p (omega arith) hit
          ∙ ap (compare_all ct_eq n cand es (i + 1) 1) (omega arith) in
        elim (compare_all_small es (i + 1) i true a (omega arith) (omega arith)) [
          | inl (miss, same) ↦
              inr (e, 0, ground arith, refl, here ∙ same ∙ ap (λ x. (1, x)) (omega arith))
          | inr (f, k, found, at, same) ↦
              inr (f, suc k, ground arith, at, here ∙ same ∙ ap (λ x. (1, x)) (omega arith))
        ]
    | inr miss ↦
        let here = compare_all_miss_step e es i m b p (omega arith) miss in
        elim (compare_all_small es (i + 1) m b a (omega arith) l) [
          | inl (none_later, same) ↦ inl (ground arith, here ∙ same)
          | inr (f, k, found, at, same) ↦
              inr (f, suc k, ground arith, at, here ∙ same ∙ ap (λ x. (1, x)) (omega arith))
        ]
  ]

  -- A single match is selected by the lowest byte of its index.
  pub compare_all_single :
      (pre : List KeyEntry) (e : KeyEntry) (post : List KeyEntry) (i : ℕ)
      → AreSecrets n (pre ++ e ∷ post)
      → find_last cand pre ≡ none
      → equal e.secret cand ≡ true
      → find_last cand post ≡ none
      → compare_all ct_eq n cand (pre ++ e ∷ post) i 0 0 ≡ (1, (i + length pre) % 256)
  unfolding find_last
  compare_all_single [] e post i (p, a) h hit later =
      compare_all_hit_step e post i 0 false p (omega arith) hit
      ∙ ap (compare_all ct_eq n cand post (i + 1) 1) (omega arith)
      ∙ compare_all_miss post (i + 1) ((i + 0) % 256) true a later (omega arith)
  compare_all_single (d ∷ pre) e post i (p, a) h hit later =
      let none_later : find_last cand pre ≡ none = ground arith in
      let none_here : equal d.secret cand ≡ false = ground arith in
      compare_all_miss_step d (pre ++ e ∷ post) i 0 false p (omega arith) none_here
      ∙ compare_all_single pre e post (i + 1) a none_later hit later
      ∙ ap (λ x. (1, x)) (ap (λ x. x % 256) (omega arith))
