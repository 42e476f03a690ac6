-- ===== src/Pii/EntityMap/RoundTrip.antt =====
-- Restoring what was pseudonymised. A text with its detections is a list of segments, each a gap and
-- an entity behind it, and a tail.
use Prim.Native.Nat.{◌^◌}
use drgtw.Base.{
  ℕ, ◌+◌, ◌<◌, ◌≡◌, ◌≢◌, refl, sym, ◌∙◌, subst, ◌⊎◌, inl, inr, Bytes, true, some, List, [], ◌∷◌,
  ◌++◌, arith, length, length-append, All, In, In-All, All-In, All-append,
}
use drgtw.Base.Assoc.{lookup, insert, bytes_eq, HasUniqueKeys, insert-HasUniqueKeys, insert-In}
use drgtw.Base.Sort.{IsSorted}
use drgtw.Pii.Decimal.{placeholder, decimal, decimal-IsDigit, IsDigit}
use drgtw.Pii.EntityMap.{EntityMap, count, get_or_insert, longest_first, restore_from}
use drgtw.Pii.EntityMap.Assign.{IsConsistent, grow}
use drgtw.Pii.EntityMap.Issue.{
  get_or_insert-cases, get_or_insert-IsConsistent, get_or_insert_keeps, get_or_insert_binds,
  length-get_or_insert,
}
use drgtw.Pii.EntityMap.Scan.{
  is_word, IsWord, EndsPlain, StartsPlain, Entry, HasWords, IsFree, restore_from_gap,
  restore_from_free, restore_from_at, restore_from_more,
}

pub record Segment : Type 0 where
  pub gap : Bytes
  pub prefix : Bytes
  pub original : Bytes

-- The text that the segments were cut from.
unfoldable pub source : List Segment → Bytes → Bytes
source [] tail = tail
source (s ∷ segs) tail = s.gap ++ (s.original ++ source segs tail)

module _ {S : Type 0} where
  -- The text with each entity under its placeholder, and the map that results.
  unfoldable pub written : List Segment → Bytes → EntityMap S → EntityMap S × Bytes
  written [] tail m = (m, tail)
  written (s ∷ segs) tail m =
      let (m', ph) = get_or_insert s.prefix s.original m in
      let (m'', rest) = written segs tail m' in (m'', s.gap ++ (ph ++ rest))

digits-IsWord : (d : Bytes) → All IsDigit d → IsWord d
digits-IsWord [] h = tt
digits-IsWord (c ∷ d) (h, hs) = (ground arith, digits-IsWord d hs)

placeholder-IsWord : (prefix : Bytes) (n : ℕ) → IsWord prefix → IsWord (placeholder prefix n)
unfolding placeholder
placeholder-IsWord prefix n w =
    All-append (λ c. is_word c ≡ true) prefix (b'_' ∷ decimal n) w
      (refl, digits-IsWord (decimal n) (decimal-IsDigit n))

placeholder-ne-nil : (prefix : Bytes) (n : ℕ) → placeholder prefix n ≢ []
unfolding placeholder
placeholder-ne-nil [] n h = cc
placeholder-ne-nil (c ∷ prefix) n h = cc

insert-HasWords :
    (ph v : Bytes) (m : List Entry) → IsWord ph → HasWords m → HasWords (insert ph v m)
insert-HasWords ph v m w h =
    All-In (λ (e : Entry). IsWord e.0) (insert ph v m)
      λ a i. elim (insert-In a ph v m i) [
        | inl e ↦ subst (λ (x : Entry). IsWord x.0) (sym e) w
        | inr j ↦ In-All (λ (e : Entry). IsWord e.0) m h a j
      ]

module _ {S : Type 0} where
  -- What every map has that was built from `new` by words: consistent, one entry for a placeholder,
  -- and each placeholder a word.
  pub record IsReady (m : EntityMap S) : Type 0 where
    pub consistent : IsConsistent m
    pub unique : HasUniqueKeys m.backward
    pub words : HasWords m.backward

  get_or_insert_spelled :
      (prefix original : Bytes) (m : EntityMap S)
      → IsConsistent m
      → length m.forward + 1 < 2 ^ 32
      → (n : ℕ) × ((get_or_insert prefix original m).1 ≡ placeholder prefix n)
  get_or_insert_spelled prefix original m c room =
      elim (get_or_insert-cases prefix original m c room) [
        | inl (ph, e, same) ↦
            let given = c.numbered (prefix, original) ph e in (given.number, rw same given.spelled)
        | inr (e, new) ↦ (count prefix m.counters + 1, rw new refl)
      ]

  get_or_insert-IsReady :
      (prefix original : Bytes) (m : EntityMap S)
      → IsWord prefix
      → IsReady m
      → length m.forward + 1 < 2 ^ 32
      → IsReady (get_or_insert prefix original m).0
  get_or_insert-IsReady prefix original m w r room = record {
    consistent = get_or_insert-IsConsistent prefix original m r.consistent room;
    unique = elim (get_or_insert-cases prefix original m r.consistent room) [
      | inl (ph, e, same) ↦ rw same r.unique
      | inr (e, new) ↦ rw new (unfold grow in insert-HasUniqueKeys _ original m.backward r.unique)
    ];
    words = elim (get_or_insert-cases prefix original m r.consistent room) [
      | inl (ph, e, same) ↦ rw same r.words
      | inr (e, new) ↦ rw new (
          unfold grow in
          insert-HasWords _ original m.backward (placeholder-IsWord prefix _ w) r.words)
    ];
  }

-- Every prefix is a word.
abbrev pub HasWordPrefixes : List Segment → Type 0
HasWordPrefixes = All (λ s. IsWord s.prefix)

-- Behind an entity the text goes on, if at all, with a byte that is no part of a word.
abbrev pub GoesOnPlain : List Segment → Bytes → Type 0
GoesOnPlain [] tail = StartsPlain tail
GoesOnPlain (s ∷ segs) tail = (s.gap ≢ []) × StartsPlain s.gap

-- The text between the entities holds no placeholder of the map, and meets them at other bytes than
-- letters, digits and underscores.
abbrev pub IsDelimited : List Entry → List Segment → Bytes → Type 0
IsDelimited es [] tail = IsFree es tail
IsDelimited es (s ∷ segs) tail =
    IsFree es s.gap
    × ((s.gap ≡ []) ⊎ EndsPlain s.gap)
    × GoesOnPlain segs tail
    × IsDelimited es segs tail

module _ {S : Type 0} where
  written-StartsPlain :
      (segs : List Segment) (tail : Bytes) (m : EntityMap S)
      → GoesOnPlain segs tail
      → StartsPlain (written segs tail m).1
  unfolding written
  written-StartsPlain [] tail m h = h
  written-StartsPlain (s ∷ segs) tail m (ne, p) = go s.gap _ ne p
    where
      go : (g rest : Bytes) → g ≢ [] → StartsPlain g → StartsPlain (g ++ rest)
      go [] rest ne p = absurd (ne refl)
      go (c ∷ g) rest ne p = p

  -- What is bound stays bound through the whole text.
  written_keeps :
      (segs : List Segment) (tail : Bytes) (m : EntityMap S) (ph v : Bytes)
      → IsConsistent m
      → length m.forward + length segs + 1 < 2 ^ 32
      → lookup ph m.backward ≡ some v
      → lookup ph (written segs tail m).0.backward ≡ some v
  unfolding written
  written_keeps [] tail m ph v c room h = h
  written_keeps (s ∷ segs) tail m ph v c room h =
      written_keeps segs tail (get_or_insert s.prefix s.original m).0 ph v
        (get_or_insert-IsConsistent s.prefix s.original m c (omega arith))
        (omega (arith, length-get_or_insert s.prefix s.original m))
        (get_or_insert_keeps s.prefix s.original m ph v c (omega arith) h)

  pub written-IsReady :
      (segs : List Segment) (tail : Bytes) (m : EntityMap S)
      → HasWordPrefixes segs
      → IsReady m
      → length m.forward + length segs + 1 < 2 ^ 32
      → IsReady (written segs tail m).0
  unfolding written
  written-IsReady [] tail m w r room = r
  written-IsReady (s ∷ segs) tail m (w, ws) r room =
      written-IsReady segs tail (get_or_insert s.prefix s.original m).0 ws
        (get_or_insert-IsReady s.prefix s.original m w r (omega arith))
        (omega (arith, length-get_or_insert s.prefix s.original m))

  -- The scan undoes the rewriting, for entries that are sorted, functional, made of words, and hold
  -- every pair of the final map.
  pub restore_from-written :
      (es : List Entry) (segs : List Segment) (tail : Bytes) (m : EntityMap S)
      → HasWords es
      → IsSorted longest_first es
      → ((ph v w : Bytes) → In (ph, v) es → In (ph, w) es → v ≡ w)
      → IsConsistent m
      → length m.forward + length segs + 1 < 2 ^ 32
      → IsDelimited es segs tail
      → ((ph v : Bytes) → lookup ph (written segs tail m).0.backward ≡ some v → In (ph, v) es)
      → restore_from es (length (written segs tail m).1) (written segs tail m).1
        ≡ some (source segs tail)
  unfolding written source
  restore_from-written es [] tail m w s u c room d all = restore_from_free es tail d
  restore_from-written es (seg ∷ segs) tail m w s u c room (free, sealed, plain, d) all =
      let m' = (get_or_insert seg.prefix seg.original m).0 in
      let ph = (get_or_insert seg.prefix seg.original m).1 in
      let rest = (written segs tail m').1 in
      let c' = get_or_insert-IsConsistent seg.prefix seg.original m c (omega arith) in
      let room' : length m'.forward + length segs + 1 < 2 ^ 32 =
        omega (arith, length-get_or_insert seg.prefix seg.original m) in
      let bound =
        written_keeps segs tail m' ph seg.original c' room'
          (get_or_insert_binds seg.prefix seg.original m c (omega arith)) in
      let here = all ph seg.original bound in
      let (n, spelled) = get_or_insert_spelled seg.prefix seg.original m c (omega arith) in
      let entity =
        restore_from_at es ph seg.original rest (source segs tail) (length rest) w s
          (λ v i. u ph v seg.original i here) here (written-StartsPlain segs tail m' plain)
          (λ e. placeholder-ne-nil seg.prefix n (sym spelled ∙ e))
          (restore_from-written es segs tail m' w s u c' room' d all) in
      restore_from_more es (length seg.gap + (length ph + length rest))
        (length (seg.gap ++ (ph ++ rest))) (seg.gap ++ (ph ++ rest))
        (seg.gap ++ (seg.original ++ source segs tail))
        (omega (arith, length-append {0} seg.gap (ph ++ rest), length-append {0} ph rest))
        (restore_from_gap es seg.gap (ph ++ rest) (seg.original ++ source segs tail)
          (length ph + length rest) w free sealed entity)
