-- ===== src/Pii/Ner/Verdicts.antt =====
-- The cache does not change verdicts: an answer from it is what the model answers, and an error of the pool
-- never enters it (`detect_spans` in crates/drgtw-pii/src/ner_bridge.rs).
use drgtw.Base.{
  ℕ, suc, ◌≡◌, ◌⊎◌, refl, sym, ap, ◌∙◌, inl, inr, Bytes, Bool, true, false, Option, none, some,
  List, [], ◌∷◌, arith, length, leb, ltb, ◌==◌, ==_iff, Bool-cases, Option-cases, if◌then◌else◌,
}
use drgtw.Base.Assoc.{lookup, insert, remove, lookup-insert, lookup-remove, nat_eq}
use drgtw.Base.Results.{Result, ok, err}
use drgtw.Pii.Ner.{
  NerSpan, NerCache, NerRecognizer, Entries, touch, without_oldest, oldest, evict, put, remember,
  answer_from, detect_with, detect_spans, get, new, with_cache, FailMode,
}

-- Different texts of a set have different hashes.
abbrev pub IsInjective : (Bytes → Type 0) → (Bytes → ℕ) → Type 0
IsInjective Known hash_text = (a b : Bytes) → Known a → Known b → hash_text a ≡ hash_text b → a ≡ b

some_spans :
    {F : Type 0} (a : List (NerSpan F)) (s : ℕ) (v : List (NerSpan F) × ℕ)
    → some (a, s) ≡ some v
    → v.0 ≡ a
some_spans a s v e =
    sym (ap (λ (o : Option (List (NerSpan _) × ℕ)). elim o [ none ↦ a | some x ↦ x.0 ]) e)

module _ {F : Type 0} (Known : Bytes → Type 0) (hash_text : Bytes → ℕ)
    (model : Bytes → List (NerSpan F)) where
  -- What is stored for a text is what the model finds in it.
  abbrev pub IsTrue : Entries F → Type 0
  IsTrue m =
      (text : Bytes) (v : List (NerSpan F) × ℕ)
      → Known text
      → lookup (hash_text text) m ≡ some v
      → v.0 ≡ model text

  abbrev pub Cached : NerRecognizer F → Type 0
  Cached r = (c : NerCache F) → r.cache ≡ some c → IsTrue c.entries

  remove-IsTrue : (k : ℕ) (m : Entries F) → IsTrue m → IsTrue (remove k m)
  remove-IsTrue k m h text v known e =
      h text v known (ground (arith, lookup-remove k (hash_text text) m))

  evict-IsTrue : (k : ℕ) (c : NerCache F) → IsTrue c.entries → IsTrue (evict k c)
  unfolding evict without_oldest
  evict-IsTrue k c h = elim (Option-cases (lookup k c.entries)) [
    | inr (v, e) ↦ rw (e, evict) h
    | inl e ↦ elim (Bool-cases (leb c.capacity (length c.entries))) [
      | inr d ↦ rw (e, evict) (rw d h)
      | inl d ↦ elim (Option-cases (oldest c.entries)) [
        | inl o ↦ rw (e, evict) (rw d (rw (o, without_oldest) h))
        | inr ((j, s), o) ↦
            rw (e, evict) (rw d (rw (o, without_oldest) (remove-IsTrue j c.entries h)))
      ]
    ]
  ]

  insert-IsTrue :
      (text : Bytes) (s : ℕ) (m : Entries F)
      → IsInjective Known hash_text
      → Known text
      → IsTrue m
      → IsTrue (insert (hash_text text) (model text, s) m)
  insert-IsTrue text s m inj here h other v known e =
      elim (Bool-cases (hash_text text == hash_text other)) [
        | inl same ↦
            (let texts : text ≡ other =
                inj text other here known ((==_iff (hash_text text) (hash_text other)).0 same) in
              let found : some (model text, s) ≡ some v =
                ground
                  (arith, lookup-insert (hash_text text) (hash_text other) (model text, s) m) in
              some_spans (model text) s v found ∙ ap model texts)
        | inr differ ↦
            h other v known
              (ground (arith, lookup-insert (hash_text text) (hash_text other) (model text, s) m))
      ]

  -- What was asked of the pool: its answer is an error or what the model finds.
  abbrev pub Answers : {NerError : Type 0} → Bytes → Result NerError (List (NerSpan F)) → Type 0
  Answers text (ok spans) = spans ≡ model text
  Answers text (err e) = Unit

  abbrev pub IsCacheTrue : Option (NerCache F) → Type 0
  IsCacheTrue none = Unit
  IsCacheTrue (some c) = IsTrue c.entries

  fresh_cache :
      (capacity : ℕ) (b : Bool) → IsCacheTrue (if b then some (new {F = F} capacity) else none)
  unfolding new lookup
  fresh_cache capacity true = λ text v known e. absurd (cc e)
  fresh_cache capacity false = tt

module _ {F NerError : Type 0} (hash_text : Bytes → ℕ) where
  -- The calls in order, each with what the pool answers if it is asked.
  abbrev pub detect_all :
      List (Bytes × Result NerError (List (NerSpan F)))
      → NerRecognizer F
      → List (Result NerError (List (NerSpan F)))
  detect_all [] r = []
  detect_all ((text, pool) ∷ calls) r =
      let (r', answer) = detect_spans hash_text text pool r in answer ∷ detect_all calls r'

module _ {F NerError : Type 0} (model : Bytes → List (NerSpan F)) where
  -- The verdict, an error only if the pool has one.
  abbrev pub IsVerdict :
      Bytes → Result NerError (List (NerSpan F)) → Result NerError (List (NerSpan F)) → Type 0
  IsVerdict text pool answer =
      (answer ≡ ok (model text)) ⊎ ((e : NerError) × (pool ≡ err e) × (answer ≡ err e))

  abbrev pub AreVerdicts :
      List (Bytes × Result NerError (List (NerSpan F)))
      → List (Result NerError (List (NerSpan F)))
      → Type 0
  AreVerdicts [] answers = Unit
  AreVerdicts (call ∷ calls) [] = ⊥
  AreVerdicts ((text, pool) ∷ calls) (answer ∷ answers) =
      IsVerdict text pool answer × AreVerdicts calls answers

module _ {F NerError : Type 0} (Known : Bytes → Type 0) (hash_text : Bytes → ℕ)
    (model : Bytes → List (NerSpan F)) (inj : IsInjective Known hash_text) where
  remember-IsVerdict :
      (text : Bytes) (r : NerRecognizer F) (c : NerCache F)
      (pool : Result NerError (List (NerSpan F)))
      → Known text
      → IsTrue Known hash_text model c.entries
      → Answers Known hash_text model text pool
      → IsCacheTrue Known hash_text model (remember (hash_text text) r c pool).0.cache
        × IsVerdict model text pool (remember (hash_text text) r c pool).1
  unfolding remember put
  remember-IsVerdict text r c (err e) known h a = (h, inr (e, refl, refl))
  remember-IsVerdict text r c (ok spans) known h a = (
    rw a (
        insert-IsTrue Known hash_text model text (suc c.seq) (evict (hash_text text) c) inj known
          (evict-IsTrue Known hash_text model (hash_text text) c h)),
    inl (ap (λ s. ok s) a),
  )

  touch-IsVerdict :
      (text : Bytes) (r : NerRecognizer F) (c : NerCache F)
      (pool : Result NerError (List (NerSpan F))) (found : Option (List (NerSpan F) × ℕ))
      → lookup (hash_text text) c.entries ≡ found
      → Known text
      → IsTrue Known hash_text model c.entries
      → Answers Known hash_text model text pool
      → IsCacheTrue Known hash_text model
          (answer_from (hash_text text) r pool (touch (hash_text text) c found)).0.cache
        × IsVerdict model text pool
            (answer_from (hash_text text) r pool (touch (hash_text text) c found)).1
  unfolding answer_from touch
  touch-IsVerdict text r c pool none e known h a =
      remember-IsVerdict text r (record c { seq = suc c.seq }) pool known h a
  touch-IsVerdict text r c pool (some (spans, s)) e known h a =
      let same = h text (spans, s) known e in
      (
        rw same (insert-IsTrue Known hash_text model text (suc c.seq) c.entries inj known h),
        inl (ap (λ x. ok x) same),
      )

  detect_with-IsVerdict :
      (cache : Option (NerCache F)) (text : Bytes) (r : NerRecognizer F)
      (pool : Result NerError (List (NerSpan F)))
      → r.cache ≡ cache
      → Known text
      → IsCacheTrue Known hash_text model cache
      → Answers Known hash_text model text pool
      → IsCacheTrue Known hash_text model (detect_with hash_text cache text pool r).0.cache
        × IsVerdict model text pool (detect_with hash_text cache text pool r).1
  unfolding detect_with get
  detect_with-IsVerdict none text r (ok spans) e known h a = (rw e tt, inl (ap (λ s. ok s) a))
  detect_with-IsVerdict none text r (err x) e known h a = (rw e tt, inr (x, refl, refl))
  detect_with-IsVerdict (some c) text r pool e known h a =
      touch-IsVerdict text r c pool (lookup (hash_text text) c.entries) refl known h a

  abbrev pub AreAnswers : List (Bytes × Result NerError (List (NerSpan F))) → Type 0
  AreAnswers [] = Unit
  AreAnswers ((text, pool) ∷ calls) =
      (Known text × Answers Known hash_text model text pool) × AreAnswers calls

  detect_all_from :
      (calls : List (Bytes × Result NerError (List (NerSpan F)))) (r : NerRecognizer F)
      → IsCacheTrue Known hash_text model r.cache
      → AreAnswers calls
      → AreVerdicts model calls (detect_all hash_text calls r)
  unfolding detect_spans
  detect_all_from [] r h a = tt
  detect_all_from ((text, pool) ∷ calls) r h ((known, a), later) =
      let (h', verdict) = detect_with-IsVerdict r.cache text r pool refl known h a in
      (verdict, detect_all_from calls (detect_spans hash_text text pool r).0 h' later)

  -- If no two of the texts share a hash, a new recogniser answers each call with what the model finds
  -- in the text, or with the error of the pool; a cached answer and a past error make no difference.
  pub detect_all-AreVerdicts :
      (threshold : F) (mode : FailMode) (capacity : ℕ)
      (calls : List (Bytes × Result NerError (List (NerSpan F))))
      → AreAnswers calls
      → AreVerdicts model calls (detect_all hash_text calls (with_cache threshold mode capacity))
  unfolding with_cache
  detect_all-AreVerdicts threshold mode capacity calls a =
      detect_all_from calls (with_cache threshold mode capacity)
        (fresh_cache Known hash_text model capacity (ltb 0 capacity)) a
