-- ===== src/Pii/Stream/Holdback.antt =====
-- What the streaming restorer keeps back, and that no text is lost.
use drgtw.Base.{
  ℕ, zero, suc, ◌-◌, ◌≤◌, min, ◌≡◌, refl, sym, ap, ◌∙◌, ◌⊎◌, inl, inr, Bytes, true, false, List, [],
  ◌∷◌, ◌++◌, arith, length, take, drop, equal, equal_iff, In, ltb, if◌then◌else◌, Bool-cases,
  take-append-drop, length-drop,
}
use drgtw.Pii.Stream.{
  PlaceholderEntry, StreamRestorer, suffix_for, longest_from, longest_prefix_suffix, passes_through,
  holdback_len, apply_replacements, process, feed, finish,
}

-- The last `n` bytes of the text are the first `n` of the placeholder.
abbrev pub Begins : Bytes → Bytes → ℕ → Type 0
Begins s ph n = (n ≤ length s) × (n ≤ length ph) × (drop (length s - n) s ≡ take n ph)

suffix_for-Begins :
    (s ph : Bytes) (k : ℕ)
    → k ≤ length s
    → k ≤ length ph
    → (suffix_for s ph k ≡ 0) ⊎ Begins s ph (suffix_for s ph k)
unfolding suffix_for
suffix_for-Begins s ph zero hs hp = inl refl
suffix_for-Begins s ph (suc k) hs hp =
    elim (Bool-cases (equal (drop (length s - suc k) s) (take (suc k) ph))) [
      | inl e ↦ rw e (inr (hs, hp, (equal_iff _ _).0 e))
      | inr e ↦ rw e (suffix_for-Begins s ph k (omega arith) (omega arith))
    ]

suffix_for-longest : (s ph : Bytes) (k n : ℕ) → n ≤ k → Begins s ph n → n ≤ suffix_for s ph k
unfolding suffix_for
suffix_for-longest s ph zero n h b = omega arith
suffix_for-longest s ph (suc k) n h b =
    elim (Bool-cases (equal (drop (length s - suc k) s) (take (suc k) ph))) [
      | inl e ↦ rw e h
      | inr e ↦ rw e (
          suffix_for-longest s ph k n
            (ground (arith, equal_iff (drop (length s - suc k) s) (take (suc k) ph))) b)
    ]

longest_from-grows :
    (s : Bytes) (es : List PlaceholderEntry) (best : ℕ) → best ≤ longest_from s es best
unfolding longest_from
longest_from-grows s [] best = omega arith
longest_from-grows s (e ∷ es) best =
    let n = suffix_for s e.placeholder (min (length s) (length e.placeholder)) in
    let step = longest_from-grows s es (if ltb best n then n else best) in ground arith

longest_from-Begins :
    (s : Bytes) (es : List PlaceholderEntry) (best : ℕ)
    → (longest_from s es best ≡ best)
      ⊎ ((e : PlaceholderEntry) × In e es × Begins s e.placeholder (longest_from s es best))
unfolding longest_from
longest_from-Begins s [] best = inl refl
longest_from-Begins s (e ∷ es) best =
    let n = suffix_for s e.placeholder (min (length s) (length e.placeholder)) in
    elim (Bool-cases (ltb best n)) [
      | inl more ↦ rw more (elim (longest_from-Begins s es n) [
        | inl same ↦
            rw same
              (elim (suffix_for-Begins s e.placeholder (min (length s) (length e.placeholder))
                (omega arith) (omega arith)) [
                  | inl z ↦ absurd (let h : n ≡ 0 = z in ground arith)
                  | inr b ↦ inr (e, inl refl, b)
                ])
        | inr (f, i, b) ↦ inr (f, inr i, b)
      ])
      | inr less ↦ rw less (elim (longest_from-Begins s es best) [
        | inl same ↦ inl same
        | inr (f, i, b) ↦ inr (f, inr i, b)
      ])
    ]

longest_from-longest :
    (s : Bytes) (es : List PlaceholderEntry) (best : ℕ) (e : PlaceholderEntry) (n : ℕ)
    → In e es
    → Begins s e.placeholder n
    → n ≤ longest_from s es best
unfolding longest_from
longest_from-longest s [] best e n i b = absurd i
longest_from-longest s (f ∷ es) best e n (inl same) b =
    let k = suffix_for s f.placeholder (min (length s) (length f.placeholder)) in
    let here : Begins s f.placeholder n = rw (sym same) b in
    let least : n ≤ k =
      suffix_for-longest s f.placeholder _ n (omega (arith, here.0, here.1)) here in
    let step = longest_from-grows s es (if ltb best k then k else best) in ground arith
longest_from-longest s (f ∷ es) best e n (inr i) b = longest_from-longest s es _ e n i b

-- What the restorer keeps back is the longest end of the text that begins a placeholder: it is empty or
-- begins a placeholder, and no longer end does.
pub longest_prefix_suffix-IsLongest :
    (s : Bytes) (es : List PlaceholderEntry)
    → ((longest_prefix_suffix s es ≡ 0)
        ⊎ ((e : PlaceholderEntry) × In e es × Begins s e.placeholder (longest_prefix_suffix s es)))
      × ((e : PlaceholderEntry) (n : ℕ)
          → In e es
          → Begins s e.placeholder n
          → n ≤ longest_prefix_suffix s es)
unfolding longest_prefix_suffix
longest_prefix_suffix-IsLongest [] es = (inl refl, λ e n i (h, _, _). h)
longest_prefix_suffix-IsLongest (c ∷ s) [] = (inl refl, λ e n i b. absurd i)
longest_prefix_suffix-IsLongest (c ∷ s) (e ∷ es) = (
  longest_from-Begins (c ∷ s) (e ∷ es) 0,
  λ f n i b. longest_from-longest (c ∷ s) (e ∷ es) 0 f n i b,
)

-- Nothing is lost: what a chunk releases, followed by what stays in the buffer, is the buffer and the
-- chunk with the complete placeholders replaced.
pub feed_keeps_text :
    (chunk : Bytes) (r : StreamRestorer)
    → passes_through r ≡ false
    → (feed chunk r).1 ++ (feed chunk r).0.buf ≡ apply_replacements r.entries false (r.buf ++ chunk)
unfolding feed process passes_through
feed_keeps_text chunk r h = rw h (take-append-drop _ _)

-- A text that is empty, or the beginning of a placeholder, at most the whole of it.
abbrev pub IsHeld : List PlaceholderEntry → Bytes → Type 0
IsHeld es buf =
    (buf ≡ [])
    ⊎ ((e : PlaceholderEntry) × In e es
        × (length buf ≤ length e.placeholder)
        × (buf ≡ take (length buf) e.placeholder))

drop_all : {A : Type 0} (n : ℕ) (xs : List A) → length xs ≤ n → drop n xs ≡ []
drop_all zero [] h = refl
drop_all zero (x ∷ xs) h = absurd (omega (arith, h))
drop_all (suc n) [] h = refl
drop_all (suc n) (x ∷ xs) h = drop_all n xs (omega (arith, h))

take_all : {A : Type 0} (n : ℕ) (xs : List A) → length xs ≤ n → take n xs ≡ xs
take_all zero [] h = refl
take_all zero (x ∷ xs) h = absurd (omega (arith, h))
take_all (suc n) [] h = refl
take_all (suc n) (x ∷ xs) h = ap (λ t. x ∷ t) (take_all n xs (omega (arith, h)))

suffix-IsHeld :
    (es : List PlaceholderEntry) (t : Bytes)
    → IsHeld es (drop (length t - longest_prefix_suffix t es) t)
suffix-IsHeld es t = elim (longest_prefix_suffix-IsLongest t es).0 [
  | inl z ↦ inl (drop_all _ t (omega (arith, z)))
  | inr (e, i, (hs, hp, same)) ↦
      let size : length (drop (length t - longest_prefix_suffix t es) t)
          ≡ longest_prefix_suffix t es =
        omega (arith, length-drop (length t - longest_prefix_suffix t es) t) in
      inr (e, i, omega arith, same ∙ ap (λ n. take n e.placeholder) (sym size))
]

-- After each chunk the buffer is empty, or it is the beginning of a placeholder, at most the whole of
-- it. So never more than the longest placeholder is kept back.
pub feed-IsHeld : (chunk : Bytes) (r : StreamRestorer) → IsHeld r.entries (feed chunk r).0.buf
unfolding feed process holdback_len
feed-IsHeld chunk r = elim (Bool-cases (passes_through (record r { buf = r.buf ++ chunk }))) [
  | inl h ↦ rw h (inl refl)
  | inr h ↦ rw h (suffix-IsHeld r.entries (apply_replacements r.entries false (r.buf ++ chunk)))
]

-- The end of the stream releases everything: the whole buffer with the placeholders replaced, also one
-- at its very end, and nothing stays.
pub finish_releases :
    (r : StreamRestorer)
    → ((finish r).0.buf ≡ [])
      × ((finish r).1
          ≡ (if passes_through r then r.buf else apply_replacements r.entries true r.buf))
unfolding finish process holdback_len
finish_releases r =
    let t = apply_replacements r.entries true r.buf in
    elim (Bool-cases (passes_through r)) [
      | inl h ↦ rw h (refl, refl)
      | inr h ↦
          rw h (drop_all (length t - 0) t (omega arith), take_all (length t - 0) t (omega arith))
    ]
