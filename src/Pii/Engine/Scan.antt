-- ===== src/Pii/Engine/Scan.antt =====
-- A whole scan: what it returns, its fallible form, and that it is fit for `pseudonymize`.
use drgtw.Base.{
  ℕ, ◌+◌, ◌≤◌, ◌≡◌, refl, ap, ◌∙◌, inl, inr, Bytes, codes, Bool, true, false, Option, some, List,
  [], ◌∷◌, ◌++◌, any, keep, length, arith, In, All, All-In, In-All, Bool-cases, In-append,
  Option-cases, ◌≢◌, equal_iff,
}
use drgtw.Base.Results.{ok, err}
use drgtw.Pii.Kind.{Detection}
use drgtw.Pii.Slice.{is_char_boundary}
use drgtw.Pii.Engine.{
  Recognizer, PiiEngine, same_kind, merge_tagged, participates, candidates, tag, filter_allowed,
  scan_impl, try_candidates, try_scan_impl, ner_enabled_for_role, scan_for_role, try_scan_for_role,
}
use drgtw.Pii.Engine.Merge.{AreDisjoint, merge_tagged-greedy, keep-AreDisjoint}
use drgtw.Pii.EntityMap.Pseudonymize.{AreSpans}

-- What a recogniser owes: spans in range, at character boundaries.
abbrev pub IsSpan : Bytes → Detection → Type 0
IsSpan text d =
    (d.start ≤ d.stop)
    × (d.stop ≤ length text)
    × (is_char_boundary text d.start ≡ true)
    × (is_char_boundary text d.stop ≡ true)

In-tag : (idx i : ℕ) (d : Detection) (ds : List Detection) → In (i, d) (tag idx ds) → In d ds
In-tag idx i d [] h = absurd h
In-tag idx i d (e ∷ ds) (inl same) = inl (ap (λ x. x.1) same)
In-tag idx i d (e ∷ ds) (inr k) = inr (In-tag idx i d ds k)

In-keep :
    (p : Detection → Bool) (d : Detection) (ds : List Detection)
    → In d (keep p ds)
    → In d ds × (p d ≡ true)
In-keep p d [] h = absurd h
In-keep p d (e ∷ ds) h = elim (Bool-cases (p e)) [
  | inl hit ↦ elim (let h' : In d (e ∷ keep p ds) = rw hit at h in h') [
    | inl same ↦ (inl same, ap p same ∙ hit)
    | inr k ↦ let (i, y) = In-keep p d ds k in (inr i, y)
  ]
  | inr miss ↦ let (i, y) = In-keep p d ds (rw miss at h) in (inr i, y)
]

AreSpans-disjoint :
    (text : Bytes) (from : ℕ) (ds : List Detection)
    → from ≤ length text
    → All (IsSpan text) ds
    → AreDisjoint from ds
    → AreSpans text from ds
AreSpans-disjoint text from [] h s d = h
AreSpans-disjoint text from (d ∷ ds) h ((w, r, b, e), s) (k, ks) =
    (k, w, r, b, e, AreSpans-disjoint text d.stop ds r s ks)

module _ {E : Type 0} where
  In-candidates :
      (text : Bytes) (ner : Bool) (idx : ℕ) (rs : List (Recognizer E)) (i : ℕ) (d : Detection)
      → In (i, d) (candidates text ner idx rs)
      → (r : Recognizer E) × In r rs × (participates ner r ≡ true) × In d (r.detect text)
  unfolding candidates
  In-candidates text ner idx [] i d h = absurd h
  In-candidates text ner idx (r ∷ rs) i d h = elim (Bool-cases (participates ner r)) [
    | inl hit ↦ elim (In-append (i, d) (tag idx (r.detect text)) _ (rw hit at h)) [
      | inl k ↦ (r, inl refl, hit, In-tag idx i d (r.detect text) k)
      | inr k ↦ let (q, m, p, j) = In-candidates text ner (idx + 1) rs i d k in (q, inr m, p, j)
    ]
    | inr miss ↦
        let (q, m, p, j) = In-candidates text ner (idx + 1) rs i d (rw miss at h) in
        (q, inr m, p, j)
  ]

  -- What a scan reports was detected by a registered recogniser that takes part.
  abbrev pub IsDetected : PiiEngine E → Bytes → Bool → Detection → Type 0
  IsDetected engine text ner d =
      (r : Recognizer E) × In r engine.recognizers
      × (participates ner r ≡ true)
      × In d (r.detect text)

  merge_tagged-IsDetected :
      (engine : PiiEngine E) (text : Bytes) (ner : Bool) (d : Detection)
      → In d (merge_tagged (candidates text ner 0 engine.recognizers))
      → IsDetected engine text ner d
  merge_tagged-IsDetected engine text ner d h =
      let (i, k) = (merge_tagged-greedy (candidates text ner 0 engine.recognizers)).1 d h in
      In-candidates text ner 0 engine.recognizers i d k

  filter_allowed-In :
      (engine : PiiEngine E) (d : Detection) (ds : List Detection)
      → In d (filter_allowed engine ds)
      → In d ds
  unfolding filter_allowed
  filter_allowed-In engine d ds h = elim (Option-cases engine.allowed_kinds) [
    | inl all ↦ rw all at h
    | inr (allowed, only) ↦
        (In-keep (λ x. any (λ k. same_kind k x.kind) allowed) d ds (rw only at h)).0
  ]

  filter_allowed-All :
      (P : Detection → Type 0) (engine : PiiEngine E) (ds : List Detection)
      → All P ds
      → All P (filter_allowed engine ds)
  filter_allowed-All P engine ds h =
      All-In P (filter_allowed engine ds) (λ d i. In-All P ds h d (filter_allowed-In engine d ds i))

  filter_allowed-AreDisjoint :
      (engine : PiiEngine E) (ds : List Detection)
      → All (λ d. d.start ≤ d.stop) ds
      → AreDisjoint 0 ds
      → AreDisjoint 0 (filter_allowed engine ds)
  unfolding filter_allowed
  filter_allowed-AreDisjoint engine ds w h = elim (Option-cases engine.allowed_kinds) [
    | inl all ↦ rw all h
    | inr (allowed, only) ↦ rw only (keep-AreDisjoint _ 0 ds w h)
  ]

  -- If the spans of every recogniser are in range and at character boundaries, the spans that a scan of
  -- the text returns, whatever the role, are in order, disjoint, in range and at character boundaries,
  -- which is what `pseudonymize` needs.
  pub scan_for_role-AreSpans :
      (engine : PiiEngine E) (text : Bytes) (role : Option Bytes)
      → ((r : Recognizer E) → In r engine.recognizers → All (IsSpan text) (r.detect text))
      → AreSpans text 0 (scan_for_role engine text role)
  unfolding scan_for_role scan_impl filter_allowed
  scan_for_role-AreSpans engine text role h =
      let ner = ner_enabled_for_role engine role in
      let merged = merge_tagged (candidates text ner 0 engine.recognizers) in
      let spans : All (IsSpan text) merged = All-In (IsSpan text) merged (λ d i.
        let (r, m, _, k) = merge_tagged-IsDetected engine text ner d i in
        In-All (IsSpan text) (r.detect text) (h r m) d k) in
      let disjoint = (merge_tagged-greedy (candidates text ner 0 engine.recognizers)).0 in
      AreSpans-disjoint text 0 _ (omega arith)
        (filter_allowed-All (IsSpan text) engine merged spans)
        (filter_allowed-AreDisjoint engine merged
          (All-In _ merged (λ d i. (In-All (IsSpan text) merged spans d i).0)) disjoint)

  try_candidates-ok :
      (text : Bytes) (ner : Bool) (idx : ℕ) (rs : List (Recognizer E))
      → All (λ r. participates ner r ≡ true → r.try_detect text ≡ ok (r.detect text)) rs
      → try_candidates text ner idx rs ≡ ok (candidates text ner idx rs)
  unfolding try_candidates candidates
  try_candidates-ok text ner idx [] h = refl
  try_candidates-ok text ner idx (r ∷ rs) (h, hs) = elim (Bool-cases (participates ner r)) [
    | inl hit ↦ rw hit (rw (h hit) (rw (try_candidates-ok text ner (idx + 1) rs hs) refl))
    | inr miss ↦ rw miss (try_candidates-ok text ner (idx + 1) rs hs)
  ]

  try_candidates-err :
      (text : Bytes) (ner : Bool) (idx : ℕ) (pre : List (Recognizer E)) (r : Recognizer E)
      (post : List (Recognizer E)) (e : E)
      → All (λ q. participates ner q ≡ true → q.try_detect text ≡ ok (q.detect text)) pre
      → participates ner r ≡ true
      → r.try_detect text ≡ err e
      → try_candidates text ner idx (pre ++ r ∷ post) ≡ err e
  unfolding try_candidates
  try_candidates-err text ner idx [] r post e h takes fails = rw takes (rw fails refl)
  try_candidates-err text ner idx (q ∷ pre) r post e (h, hs) takes fails =
      let rest = try_candidates-err text ner (idx + 1) pre r post e hs takes fails in
      elim (Bool-cases (participates ner q)) [
        | inl hit ↦ rw hit (rw (h hit) (rw rest refl))
        | inr miss ↦ rw miss rest
      ]

  -- The fallible scan agrees with the plain one if no recogniser that takes part fails.
  pub try_scan_for_role-ok :
      (engine : PiiEngine E) (text : Bytes) (role : Option Bytes)
      → All
          (λ r.
            participates (ner_enabled_for_role engine role) r ≡ true
            → r.try_detect text ≡ ok (r.detect text))
          engine.recognizers
      → try_scan_for_role engine text role ≡ ok (scan_for_role engine text role)
  unfolding try_scan_for_role try_scan_impl scan_for_role scan_impl
  try_scan_for_role-ok engine text role h =
      rw
        (
          try_candidates-ok text (ner_enabled_for_role engine role) 0 engine.recognizers h,
          try_scan_impl,
        )
        refl

  -- If a recogniser that takes part fails and none that takes part before it does, the fallible scan
  -- fails with its error, whatever the later ones would answer.
  pub try_scan_for_role-err :
      (engine : PiiEngine E) (text : Bytes) (role : Option Bytes) (pre : List (Recognizer E))
      (r : Recognizer E) (post : List (Recognizer E)) (e : E)
      → engine.recognizers ≡ pre ++ r ∷ post
      → All
          (λ q.
            participates (ner_enabled_for_role engine role) q ≡ true
            → q.try_detect text ≡ ok (q.detect text))
          pre
      → participates (ner_enabled_for_role engine role) r ≡ true
      → r.try_detect text ≡ err e
      → try_scan_for_role engine text role ≡ err e
  unfolding try_scan_for_role try_scan_impl
  try_scan_for_role-err engine text role pre r post e split h takes fails =
      let first : try_candidates text (ner_enabled_for_role engine role) 0 engine.recognizers
          ≡ err e =
        ap (try_candidates text (ner_enabled_for_role engine role) 0) split
        ∙ try_candidates-err text (ner_enabled_for_role engine role) 0 pre r post e h takes fails in
      rw (first, try_scan_impl) refl

  -- With a list of scan roles, the `ner` recogniser takes no part for a role outside it, so that no
  -- detection of a role outside the list comes from it.
  pub scan_for_role-scoped :
      (engine : PiiEngine E) (text role : Bytes) (d : Detection)
      → ner_enabled_for_role engine (some role) ≡ false
      → In d (scan_for_role engine text (some role))
      → (r : Recognizer E) × In r engine.recognizers × (r.name ≢ codes "ner") × In d (r.detect text)
  unfolding scan_for_role scan_impl participates
  scan_for_role-scoped engine text role d outside h =
      let k = filter_allowed-In engine d _ h in
      let (r, m, p, j) =
        merge_tagged-IsDetected engine text (ner_enabled_for_role engine (some role)) d k in
      (r, m, ground (arith, equal_iff r.name (codes "ner")), j)
