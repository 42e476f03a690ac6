-- ===== src/Pii/Ner.antt =====
-- The bridge from the NER model to the recognisers, with its cache of verdicts
-- (crates/drgtw-pii/src/ner_bridge.rs). The pool that runs the model (crates/drgtw-ner) and the hash of a text
-- are parameters: an answer of the pool is an argument of the call that asks for it. `f32` is an abstract
-- type with its comparison. Logging is left out.
pub mod Lru
pub mod Uses
pub mod Verdicts
mod Tests
use drgtw.Base.{
  ℕ, suc, Bytes, Bool, true, false, Option, none, some, List, [], ◌∷◌, map, length, leb, ltb, keep,
  if◌then◌else◌,
}
use drgtw.Base.Assoc.{lookup, insert, remove, nat_eq}
use drgtw.Base.Results.{Result, ok, err}
use drgtw.Pii.Kind.{Detection, EntityKind}

pub data NerKind : Type 0 where
  person org location : NerKind

pub data FailMode : Type 0 where
  open_mode closed_mode : FailMode

pub record NerSpan (F : Type 0) : Type 0 where
  pub start : ℕ
  pub stop : ℕ
  pub kind : NerKind
  pub score : F

-- The cache: the spans of a text by its hash, with the stamp of the last access.

abbrev pub Entries : Type 0 → Type 0
Entries F = List (ℕ × (List (NerSpan F) × ℕ))

pub record NerCache (F : Type 0) : Type 0 where
  pub capacity : ℕ
  pub seq : ℕ
  pub entries : Entries F

-- `seq` counts accesses in 64 bits, which no process exhausts; it is a plain number here.
unfoldable pub new : {F : Type 0} → ℕ → NerCache F
new capacity = record { capacity = capacity; seq = 0; entries = [] }

-- `min_by_key`: the first entry of the least stamp.
unfoldable pub older : ℕ × ℕ → Option (ℕ × ℕ) → Option (ℕ × ℕ)
older (k, s) none = some (k, s)
older (k, s) (some (k', s')) = if leb s s' then some (k, s) else some (k', s')

module _ {F : Type 0} where
  -- The entry found, with its new stamp.
  unfoldable pub touch :
      ℕ → NerCache F → Option (List (NerSpan F) × ℕ) → NerCache F × Option (List (NerSpan F))
  unfolding insert
  touch k c none = (record c { seq = suc c.seq }, none)
  touch k c (some (spans, stamp)) =
      (record c { seq = suc c.seq; entries = insert k (spans, suc c.seq) c.entries }, some spans)

  unfoldable pub get : ℕ → NerCache F → NerCache F × Option (List (NerSpan F))
  unfolding touch lookup
  get k c = touch k c (lookup k c.entries)

  unfoldable pub oldest : Entries F → Option (ℕ × ℕ)
  unfolding older
  oldest [] = none
  oldest ((k, (spans, s)) ∷ m) = older (k, s) (oldest m)

  -- The entries once one of the least stamp is gone.
  unfoldable pub without_oldest : Entries F → Entries F
  unfolding oldest remove
  without_oldest m = elim (oldest m) [ none ↦ m | some (k, s) ↦ remove k m ]

  -- Makes room for a key that is not there.
  unfoldable pub evict : ℕ → NerCache F → Entries F
  unfolding lookup without_oldest
  evict k c = elim (lookup k c.entries) [
    | some e ↦ c.entries
    | none ↦ if leb c.capacity (length c.entries) then without_oldest c.entries else c.entries
  ]

  unfoldable pub put : ℕ → List (NerSpan F) → NerCache F → NerCache F
  unfolding evict insert
  put k spans c = record c { seq = suc c.seq; entries = insert k (spans, suc c.seq) (evict k c) }

-- The recogniser

pub record NerRecognizer (F : Type 0) : Type 0 where
  pub threshold : F
  pub fail_mode : FailMode
  pub cache : Option (NerCache F)

unfoldable pub with_cache : {F : Type 0} → F → FailMode → ℕ → NerRecognizer F
unfolding new
with_cache threshold fail_mode cache_capacity = record {
  threshold = threshold;
  fail_mode = fail_mode;
  cache = if ltb 0 cache_capacity then some (new cache_capacity) else none;
}

unfoldable pub entity_kind : NerKind → EntityKind
entity_kind person = EntityKind.person
entity_kind org = EntityKind.org
entity_kind location = EntityKind.location

module _ {F : Type 0} (ge : F → F → Bool) where
  unfoldable pub to_detection : NerSpan F → Detection
  unfolding entity_kind
  to_detection s = record { start = s.start; stop = s.stop; kind = entity_kind s.kind }

  unfoldable pub map_spans : List (NerSpan F) → F → List Detection
  unfolding to_detection
  map_spans spans threshold =
      map to_detection (keep (λ (s : NerSpan F). ge s.score threshold) spans)

module _ {F NerError : Type 0} where
  -- What the pool answers goes into the cache if it is no error.
  unfoldable pub remember :
      ℕ
      → NerRecognizer F
      → NerCache F
      → Result NerError (List (NerSpan F))
      → NerRecognizer F × Result NerError (List (NerSpan F))
  unfolding put
  remember k r c (err e) = (record r { cache = some c }, err e)
  remember k r c (ok spans) = (record r { cache = some (put k spans c) }, ok spans)

  -- A hit answers without the pool, whose answer is then not asked for.
  unfoldable pub answer_from :
      ℕ
      → NerRecognizer F
      → Result NerError (List (NerSpan F))
      → NerCache F × Option (List (NerSpan F))
      → NerRecognizer F × Result NerError (List (NerSpan F))
  unfolding remember
  answer_from k r pool (c, some spans) = (record r { cache = some c }, ok spans)
  answer_from k r pool (c, none) = remember k r c pool

module _ {F NerError : Type 0} (hash_text : Bytes → ℕ) where
  unfoldable pub detect_with :
      Option (NerCache F)
      → Bytes
      → Result NerError (List (NerSpan F))
      → NerRecognizer F
      → NerRecognizer F × Result NerError (List (NerSpan F))
  unfolding answer_from get
  detect_with none text pool r = (r, pool)
  detect_with (some c) text pool r = answer_from (hash_text text) r pool (get (hash_text text) c)

  -- `pool` is what `NerPool::detect` answers for this text, if it is asked.
  unfoldable pub detect_spans :
      Bytes
      → Result NerError (List (NerSpan F))
      → NerRecognizer F
      → NerRecognizer F × Result NerError (List (NerSpan F))
  unfolding detect_with
  detect_spans text pool r = detect_with r.cache text pool r

module _ {NerError DetectError : Type 0} (closed_error : NerError → DetectError) where
  unfoldable pub by_mode :
      FailMode → Result NerError (List Detection) → Result DetectError (List Detection)
  by_mode mode (ok found) = ok found
  by_mode open_mode (err e) = ok []
  by_mode closed_mode (err e) = err (closed_error e)

module _ {F NerError : Type 0} (ge : F → F → Bool) where
  unfoldable pub spans_to_detections :
      F → Result NerError (List (NerSpan F)) → Result NerError (List Detection)
  unfolding map_spans
  spans_to_detections threshold (ok spans) = ok (map_spans ge spans threshold)
  spans_to_detections threshold (err e) = err e

unfoldable pub or_nothing :
    {DetectError : Type 0} → Result DetectError (List Detection) → List Detection
or_nothing (ok found) = found
or_nothing (err e) = []

module _ {F NerError DetectError : Type 0} (hash_text : Bytes → ℕ) (ge : F → F → Bool)
    (closed_error : NerError → DetectError) where
  unfoldable pub try_detect :
      Bytes
      → Result NerError (List (NerSpan F))
      → NerRecognizer F
      → NerRecognizer F × Result DetectError (List Detection)
  unfolding detect_spans by_mode spans_to_detections
  try_detect text pool r =
      let (r', spans) = detect_spans hash_text text pool r in
      (r', by_mode closed_error r.fail_mode (spans_to_detections ge r.threshold spans))

  unfoldable pub detect :
      Bytes
      → Result NerError (List (NerSpan F))
      → NerRecognizer F
      → NerRecognizer F × List Detection
  unfolding try_detect or_nothing
  detect text pool r = let (r', found) = try_detect text pool r in (r', or_nothing found)
