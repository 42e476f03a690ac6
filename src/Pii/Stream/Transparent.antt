-- ===== src/Pii/Stream/Transparent.antt =====
-- A response without placeholders passes through unchanged, however it is cut into chunks.
use drgtw.Base.{
  ℕ, zero, suc, ◌≡◌, refl, sym, ap, ◌∙◌, inl, inr, Bytes, Bool, true, false, none, List, [], ◌∷◌,
  ◌++◌, subst, arith, length, append_assoc, append-nil, strip_prefix, Bool-cases, take-append-drop,
}
use drgtw.Pii.Stream.Holdback.{finish_releases}
use drgtw.Pii.Stream.{
  PlaceholderEntry, StreamRestorer, find_entry, replace_from, passes_through, apply_replacements,
  process, feed, finish, run,
}

-- No placeholder stands anywhere in the text.
abbrev pub HasNone : List PlaceholderEntry → Bytes → Type 0
HasNone es [] = Unit
HasNone es (c ∷ s) = (find_entry es (c ∷ s) ≡ none) × HasNone es s

module _ (es : List PlaceholderEntry) where
  replace_from_none :
      (b : Bool) (fuel : ℕ) (s : Bytes) → HasNone es s → replace_from es b fuel s ≡ s
  unfolding replace_from
  replace_from_none b fuel [] h = refl
  replace_from_none b zero (c ∷ s) h = refl
  replace_from_none b (suc fuel) (c ∷ s) (h, hs) =
      rw (h, replace_from) (ap (λ t. c ∷ t) (replace_from_none b fuel s hs))

  strip_prefix_shorter : (p s t : Bytes) → strip_prefix p (s ++ t) ≡ none → strip_prefix p s ≡ none
  unfolding strip_prefix
  strip_prefix_shorter [] s t h = absurd (cc h)
  strip_prefix_shorter (c ∷ p) [] t h = refl
  strip_prefix_shorter (c ∷ p) (d ∷ s) t h = ground (arith, strip_prefix_shorter p s t)

find_entry_shorter :
    (es : List PlaceholderEntry) (s t : Bytes)
    → find_entry es (s ++ t) ≡ none
    → find_entry es s ≡ none
unfolding find_entry
find_entry_shorter [] s t h = refl
find_entry_shorter (e ∷ es) s t h =
    ground (arith, strip_prefix_shorter es e.placeholder s t, find_entry_shorter es s t)

module _ (es : List PlaceholderEntry) where
  HasNone-front : (s t : Bytes) → HasNone es (s ++ t) → HasNone es s
  HasNone-front [] t h = tt
  HasNone-front (c ∷ s) t (h, hs) = (find_entry_shorter es (c ∷ s) t h, HasNone-front s t hs)

  HasNone-back : (s t : Bytes) → HasNone es (s ++ t) → HasNone es t
  HasNone-back [] t h = h
  HasNone-back (c ∷ s) t (h, hs) = HasNone-back s t hs

abbrev pub joined : List Bytes → Bytes
joined [] = []
joined (chunk ∷ chunks) = chunk ++ joined chunks

-- One step on a buffer without placeholders: it is split, the entries stay.
process_none :
    (b : Bool) (r : StreamRestorer)
    → HasNone r.entries r.buf
    → ((process b r).1 ++ (process b r).0.buf ≡ r.buf) × ((process b r).0.entries ≡ r.entries)
unfolding process apply_replacements
process_none b r h = elim (Bool-cases (passes_through r)) [
  | inl p ↦ rw p (append-nil r.buf, refl)
  | inr p ↦ rw p (take-append-drop _ _ ∙ replace_from_none r.entries b (length r.buf) r.buf h, refl)
]

finish_empty : (r : StreamRestorer) → (process true r).0.buf ≡ []
finish_empty r = unfold finish in (finish_releases r).0

finish_none : (r : StreamRestorer) → HasNone r.entries r.buf → (finish r).1 ≡ r.buf
unfolding finish
finish_none r h =
    let (same, _) = process_none true r h in
    let empty : (process true r).0.buf ≡ [] = finish_empty r in
    sym (append-nil (process true r).1) ∙ ap (λ x. (process true r).1 ++ x) (sym empty) ∙ same

-- A response in which no placeholder stands, neither in what is still held back nor across the ends of
-- its chunks, comes out as it went in, however it is cut into chunks.
pub run_unchanged :
    (chunks : List Bytes) (r : StreamRestorer)
    → HasNone r.entries (r.buf ++ joined chunks)
    → (run chunks r).1 ≡ r.buf ++ joined chunks
unfolding run feed
run_unchanged [] r h =
    let e : r.buf ++ [] ≡ r.buf = append-nil r.buf in
    finish_none r (subst (HasNone r.entries) e h) ∙ sym e
run_unchanged (chunk ∷ chunks) r h =
    let r1 : StreamRestorer = record r { buf = r.buf ++ chunk } in
    let whole : HasNone r.entries ((r.buf ++ chunk) ++ joined chunks) =
      subst (HasNone r.entries) (sym (append_assoc r.buf chunk (joined chunks))) h in
    let (same, kept) =
      process_none false r1 (HasNone-front r.entries (r.buf ++ chunk) (joined chunks) whole) in
    let r' = (process false r1).0 in
    let out = (process false r1).1 in
    let parts : out ++ (r'.buf ++ joined chunks) ≡ r.buf ++ (chunk ++ joined chunks) =
      sym (append_assoc out r'.buf (joined chunks))
      ∙ ap (λ x. x ++ joined chunks) same
      ∙ append_assoc r.buf chunk (joined chunks) in
    let left : HasNone r'.entries (r'.buf ++ joined chunks) =
      subst (λ es. HasNone es (r'.buf ++ joined chunks)) (sym kept)
        (HasNone-back r.entries out (r'.buf ++ joined chunks)
          (subst (HasNone r.entries) (sym parts) h)) in
    ap (λ x. out ++ x) (run_unchanged chunks r' left) ∙ parts
