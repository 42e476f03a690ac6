-- ===== src/Pii/EntityMap/Pseudonymize.antt =====
-- `pseudonymize` on the spans that the engine returns: it does not panic, and `restore` undoes it.
use Prim.Native.Nat.{◌^◌}
use drgtw.Base.{
  ℕ, zero, suc, ◌+◌, ◌-◌, ◌≤◌, ◌<◌, ◌≡◌, refl, sym, ap, ◌∙◌, Bytes, true, none, some, List, [], ◌∷◌,
  ◌++◌, append_assoc, arith, le→leb, length, get_elem?, take, drop, length-drop, take-append-drop,
  In, All-In, In-All, false,
}
use drgtw.Base.Assoc.{bytes_eq, lookup_of_In, In-lookup}
use drgtw.Base.Sort.{sort_by, sort_by-IsSorted, sort_by-In, In-sort_by}
use drgtw.Pii.Kind.{Detection, placeholder_prefix}
use drgtw.Pii.Slice.{is_char_boundary, slice}
use drgtw.Pii.EntityMap.{
  EntityMap, get_or_insert, pseudonymize_from, pseudonymize, longest_first, restore_from,
  restore_pairs, restore,
}
use drgtw.Pii.EntityMap.Scan.{Entry, IsWord, HasWords, IsFree, restore_from_free}
use drgtw.Pii.EntityMap.RoundTrip.{
  Segment, source, written, IsReady, HasWordPrefixes, IsDelimited, written-IsReady,
  restore_from-written,
}

get_elem?_end : (s : Bytes) → get_elem? s (length s) ≡ none
get_elem?_end [] = refl
get_elem?_end (c ∷ s) = get_elem?_end s

pub is_char_boundary_end : (text : Bytes) → is_char_boundary text (length text) ≡ true
unfolding is_char_boundary
is_char_boundary_end text = ground (arith, get_elem?_end text)

-- Sorted, disjoint, in range, and at character boundaries.
abbrev pub AreSpans : Bytes → ℕ → List Detection → Type 0
AreSpans text cursor [] = cursor ≤ length text
AreSpans text cursor (d ∷ ds) =
    (cursor ≤ d.start)
    × (d.start ≤ d.stop)
    × (d.stop ≤ length text)
    × (is_char_boundary text d.start ≡ true)
    × (is_char_boundary text d.stop ≡ true)
    × AreSpans text d.stop ds

module _ (to_uppercase : Bytes → Bytes) (text : Bytes) where
  -- The text from the cursor on, cut at the detections.
  unfoldable pub segments : ℕ → List Detection → List Segment
  segments cursor [] = []
  segments cursor (d ∷ ds) =
      record {
        gap = take (d.start - cursor) (drop cursor text);
        prefix = placeholder_prefix to_uppercase d.kind;
        original = take (d.stop - d.start) (drop d.start text);
      }
      ∷ segments d.stop ds

unfoldable pub tail_of : Bytes → ℕ → List Detection → Bytes
tail_of text cursor [] = take (length text - cursor) (drop cursor text)
tail_of text cursor (d ∷ ds) = tail_of text d.stop ds

drop_nil : (n : ℕ) → drop {A = ℕ} n [] ≡ []
drop_nil zero = refl
drop_nil (suc n) = refl

drop-drop_suc : (a n : ℕ) (s : Bytes) → drop n (drop a s) ≡ drop (a + n) s
drop-drop_suc zero n s = ap (λ k. drop k s) (omega arith)
drop-drop_suc (suc a) n [] = drop_nil n ∙ sym (drop_nil (suc a + n))
drop-drop_suc (suc a) n (c ∷ s) =
    drop-drop_suc a n s
    ∙ ap (λ k. drop k (c ∷ s)) (let e : suc (a + n) ≡ suc a + n = omega arith in e)

drop-drop : (a b : ℕ) (s : Bytes) → a ≤ b → drop (b - a) (drop a s) ≡ drop b s
drop-drop a b s h = drop-drop_suc a (b - a) s ∙ ap (λ k. drop k s) (omega arith)

-- A range of the text and what follows it.
take-drop : (a b : ℕ) (s : Bytes) → a ≤ b → take (b - a) (drop a s) ++ drop b s ≡ drop a s
take-drop a b s h =
    ap (λ r. take (b - a) (drop a s) ++ r) (sym (drop-drop a b s h))
    ∙ take-append-drop (b - a) (drop a s)

take_all : (n : ℕ) (s : Bytes) → length s ≤ n → take n s ≡ s
take_all n [] h = go n
  where
    go : (n : ℕ) → take {A = ℕ} n [] ≡ []
    go zero = refl
    go (suc n) = refl
take_all zero (c ∷ s) h = absurd (omega arith)
take_all (suc n) (c ∷ s) h = ap (◌∷◌ c) (take_all n s (omega arith))

slice_of :
    (text : Bytes) (a b : ℕ)
    → a ≤ b
    → b ≤ length text
    → is_char_boundary text a ≡ true
    → is_char_boundary text b ≡ true
    → slice text a b ≡ some (take (b - a) (drop a text))
unfolding slice
slice_of text a b h k p q = rw (le→leb a b h) (rw (le→leb b (length text) k) (rw (p, q)))

-- The segments and the tail put together are the text.
source-segments :
    (up : Bytes → Bytes) (text : Bytes) (cursor : ℕ) (dets : List Detection)
    → AreSpans text cursor dets
    → source (segments up text cursor dets) (tail_of text cursor dets) ≡ drop cursor text
unfolding source segments tail_of
source-segments up text cursor [] h =
    take_all (length text - cursor) (drop cursor text) (omega (arith, length-drop {0} cursor text))
source-segments up text cursor (d ∷ ds) (p, q, r, u, v, rest) =
    ap
      (λ x.
        take (d.start - cursor) (drop cursor text)
        ++ (take (d.stop - d.start) (drop d.start text) ++ x))
      (source-segments up text d.stop ds rest)
    ∙ ap (λ x. take (d.start - cursor) (drop cursor text) ++ x) (take-drop d.start d.stop text q)
    ∙ take-drop cursor d.start text p

module _ {S : Type 0} (up : Bytes → Bytes) (text : Bytes) where
  -- The loop writes the segments.
  pseudonymize_from-written :
      (cursor : ℕ) (dets : List Detection) (out : Bytes) (m : EntityMap S)
      → is_char_boundary text cursor ≡ true
      → is_char_boundary text (length text) ≡ true
      → AreSpans text cursor dets
      → pseudonymize_from up text cursor dets out m
        ≡ some (
          (written (segments up text cursor dets) (tail_of text cursor dets) m).0,
          out ++ (written (segments up text cursor dets) (tail_of text cursor dets) m).1,
        )
  unfolding pseudonymize_from segments tail_of written
  pseudonymize_from-written cursor [] out m b e h =
      rw (slice_of text cursor (length text) h (omega arith) b e, pseudonymize_from) refl
  pseudonymize_from-written cursor (d ∷ ds) out m b e (p, q, r, u, v, rest) =
      let prefix = placeholder_prefix up d.kind in
      let gap = take (d.start - cursor) (drop cursor text) in
      let original = take (d.stop - d.start) (drop d.start text) in
      let m' = (get_or_insert prefix original m).0 in
      let ph = (get_or_insert prefix original m).1 in
      let later = pseudonymize_from-written d.stop ds (out ++ (gap ++ ph)) m' v e rest in
      rw (slice_of text cursor d.start p (omega arith) b u, pseudonymize_from)
        (rw (slice_of text d.start d.stop q r u v) (later ∙ simp append_assoc))

restore_pairs_lem :
    (es : List Entry) (text : Bytes)
    → restore_pairs es text ≡ restore_from (sort_by longest_first es) (length text) text
unfolding restore_pairs
restore_pairs_lem [] text = sym (restore_from_free [] text (free text))
  where
    free : (s : Bytes) → IsFree [] s
    free [] = tt
    free (c ∷ s) = (tt, free s)
restore_pairs_lem (e ∷ es) text = refl

longest_first_trans :
    (x y z : Entry) → longest_first x y ≡ true → longest_first y z ≡ true → longest_first x z ≡ true
longest_first_trans (p, _) (q, _) (r, _) h k = ground arith

longest_first_total : (x y : Entry) → longest_first x y ≡ false → longest_first y x ≡ true
longest_first_total (p, _) (q, _) h = ground arith

HasWords-sort_by : (es : List Entry) → HasWords es → HasWords (sort_by longest_first es)
HasWords-sort_by es w =
    All-In (λ (e : Entry). IsWord e.0) (sort_by longest_first es)
      λ a i. In-All (λ (e : Entry). IsWord e.0) es w a (sort_by-In longest_first a es i)

module _ {S : Type 0} where
  -- Pseudonymizing a text on sorted, disjoint spans at character boundaries succeeds, and restoring the
  -- result with the map that it leaves gives the text back, under these conditions: the map is ready and
  -- stays below 2^32 entries with one for each span; prefixes are words; between two spans there is some
  -- text; no word character touches a span; and no placeholder that the map then knows stands in the text
  -- around the spans.
  pub restore-pseudonymize :
      (up : Bytes → Bytes) (text : Bytes) (dets : List Detection) (m : EntityMap S)
      → IsReady m
      → AreSpans text 0 dets
      → HasWordPrefixes (segments up text 0 dets)
      → length m.forward + length (segments up text 0 dets) + 1 < 2 ^ 32
      → IsDelimited
          (sort_by longest_first
            (written (segments up text 0 dets) (tail_of text 0 dets) m).0.backward)
          (segments up text 0 dets)
          (tail_of text 0 dets)
      → (m' : EntityMap S) × (out : Bytes) × (pseudonymize up text dets m ≡ some (m', out))
        × (restore m' out ≡ some text)
        × IsReady m'
  unfolding pseudonymize restore
  restore-pseudonymize up text dets m r spans w room d =
      let e = is_char_boundary_end text in
      let segs = segments up text 0 dets in
      let tail = tail_of text 0 dets in
      let m' = (written segs tail m).0 in
      let out = (written segs tail m).1 in
      let r' = written-IsReady segs tail m w r room in
      let es = sort_by longest_first m'.backward in
      let in_map = λ (ph v : Bytes) (i : In (ph, v) es).
        lookup_of_In ph v m'.backward r'.unique (sort_by-In longest_first (ph, v) m'.backward i) in
      (
        m',
        out,
        pseudonymize_from-written up text 0 dets [] m refl e spans,
        restore_pairs_lem m'.backward out
            ∙ restore_from-written es segs tail m (HasWords-sort_by m'.backward r'.words)
                (sort_by-IsSorted longest_first longest_first_trans longest_first_total m'.backward)
                (λ ph v x i j. let h = in_map ph v i in let k = in_map ph x j in cc (h, k))
                r.consistent room d
                (λ ph v h.
                  In-sort_by longest_first (ph, v) m'.backward (In-lookup ph v m'.backward h))
            ∙ ap some (source-segments up text 0 dets spans),
        r',
      )
