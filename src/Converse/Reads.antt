-- ===== src/Converse/Reads.antt =====
-- What the translated responses and chunks say to the readers of the OpenAI format: the extraction of usage
-- (crates/drgtw-events/src/extract.rs) and the restorer of texts (crates/drgtw-proxy/src/sse_restore.rs).
use drgtw.Base.{
  ℕ, ◌≡◌, refl, ap, ◌∙◌, Bytes, codes, Bool, true, false, Option, none, some, [], ◌∷◌, ◌++◌, equal,
  if◌then◌else◌,
}
use drgtw.Base.Json.{
  Value, Fields, string, object, object_of, get_value, key, get, get_field, get_path, str_at,
  u64_at, as_str, as_u64, insert_field, fields_of, precedes,
}
use drgtw.Converse.{then_get, unwrap_or, insert_some}
use drgtw.Converse.Response.{rename_usage, usage_of, converse_to_openai}
use drgtw.Converse.Stream.{
  StreamXlateState, chunk, done_block, sse_block, live_event, converse_event_to_sse,
}
use drgtw.Events.Extract.{both_counts, extract_usage_openai}
use drgtw.Sse.Transform.{openai_delta, content_path}

abbrev count_at : Bytes → Fields → Option ℕ
count_at k fs = then_get as_u64 (get (key k) (object fs))

module _ (body : Value) (fs : Fields) (i o : ℕ)
    (u : get (key (codes "usage")) body ≡ some (object fs))
    (input : count_at (codes "inputTokens") fs ≡ some i)
    (output : count_at (codes "outputTokens") fs ≡ some o) where
  usage_of-reads : usage_of body ≡ some (rename_usage (object fs))
  unfolding usage_of
  usage_of-reads = rw (u, usage_of) refl

  rename_usage-reads :
      (u64_at (key (codes "prompt_tokens") ∷ []) (rename_usage (object fs)) ≡ some i)
      × (u64_at (key (codes "completion_tokens") ∷ []) (rename_usage (object fs)) ≡ some o)
  unfolding rename_usage u64_at get_path get get_field as_u64 fields_of insert_field precedes equal
  rename_usage-reads = (ap (λ x. some (unwrap_or 0 x)) input, ap (λ x. some (unwrap_or 0 x)) output)

  both :
      ◌≡◌ {A = Option (ℕ × ℕ)}
        (both_counts
          (u64_at (key (codes "prompt_tokens") ∷ []) (rename_usage (object fs)))
          (u64_at (key (codes "completion_tokens") ∷ []) (rename_usage (object fs))))
        (some (i, o))
  unfolding both_counts
  both = rw rename_usage-reads.0 (rw rename_usage-reads.1 refl)

  converse_to_openai-reads :
      (id : Bytes) (created : ℕ) (model : Bytes)
      → extract_usage_openai (converse_to_openai id created body model) ≡ some (i, o)
  unfolding converse_to_openai extract_usage_openai u64_at get_path get get_field fields_of
      insert_some insert_field precedes equal
  converse_to_openai-reads id created model = rw (usage_of-reads, converse_to_openai) both

  chunk-reads :
      (st : StreamXlateState) (model : Bytes) (delta : Value) (finish : Option Bytes)
      → extract_usage_openai (chunk st model delta finish (usage_of body)) ≡ some (i, o)
  unfolding chunk extract_usage_openai u64_at get_path get get_field fields_of insert_some
      insert_field precedes equal
  chunk-reads st model delta finish = rw (usage_of-reads, chunk) both

chunk-delta :
    (st : StreamXlateState) (model text : Bytes) (finish : Option Bytes) (usage : Option Value)
    → str_at
        (openai_delta ++ content_path)
        (chunk st model (object_of ((codes "content", string text) ∷ [])) finish usage)
      ≡ some text
unfolding chunk str_at get_path get get_field get_value as_str fields_of insert_some insert_field
    precedes equal
chunk-delta st model text finish none = refl
chunk-delta st model text finish (some u) = refl

module _ (to_string : Value → Bytes) where
  if_false : {A : Type 0} (b : Bool) (x y : A) → b ≡ false → (if b then x else y) ≡ y
  if_false true x y h = absurd (cc h)
  if_false false x y h = refl

  live_lem :
      (t : Bytes) (payload : Value) (model : Bytes) (st : StreamXlateState)
      → st.is_done ≡ false
      → converse_event_to_sse to_string t payload model st ≡ live_event to_string t payload model st
  unfolding converse_event_to_sse
  live_lem t payload model st live = if_false st.is_done _ _ live

  live_delta :
      (payload : Value) (model text : Bytes) (st : StreamXlateState)
      → str_at (key (codes "delta") ∷ key (codes "text") ∷ []) payload ≡ some text
      → live_event to_string (codes "contentBlockDelta") payload model st ≡ (
        st,
        sse_block to_string
            (chunk st model (object_of ((codes "content", string text) ∷ [])) none none),
      )
  unfolding live_event equal
  live_delta payload model text st e = rw (e, live_event) refl

  live_metadata :
      (payload : Value) (model : Bytes) (st : StreamXlateState)
      → live_event to_string (codes "metadata") payload model st ≡ (
        record st { is_done = true },
        sse_block to_string (
              chunk st model
                (object_of [])
                (some (unwrap_or (codes "stop") st.finish_reason))
                (usage_of payload))
            ++ done_block,
      )
  unfolding live_event equal
  live_metadata payload model st = refl

  -- An event with a text is relayed as a chunk with that text where the restorer of the OpenAI format
  -- reads it.
  delta-reads :
      (payload : Value) (model text : Bytes) (st : StreamXlateState)
      → st.is_done ≡ false
      → str_at (key (codes "delta") ∷ key (codes "text") ∷ []) payload ≡ some text
      → (v : Value) × (converse_event_to_sse to_string (codes "contentBlockDelta") payload model st
          ≡ (st, sse_block to_string v))
        × (str_at (openai_delta ++ content_path) v ≡ some text)
  delta-reads payload model text st live e = (
    chunk st model (object_of ((codes "content", string text) ∷ [])) none none,
    live_lem _ payload model st live ∙ live_delta payload model text st e,
    chunk-delta st model text none none,
  )

  -- The counts of a response that has both reach the extraction of usage, in a whole body and in the last
  -- chunk of a stream.
  pub usage-reads :
      (body : Value) (fs : Fields) (i o created : ℕ) (id model : Bytes) (st : StreamXlateState)
      → get (key (codes "usage")) body ≡ some (object fs)
      → count_at (codes "inputTokens") fs ≡ some i
      → count_at (codes "outputTokens") fs ≡ some o
      → st.is_done ≡ false
      → (extract_usage_openai (converse_to_openai id created body model) ≡ some (i, o))
        × ((v : Value) × (converse_event_to_sse to_string (codes "metadata") body model st
              ≡ (record st { is_done = true }, sse_block to_string v ++ done_block))
            × (extract_usage_openai v ≡ some (i, o)))
  usage-reads body fs i o created id model st u input output live = (
    converse_to_openai-reads body fs i o u input output id created model,
    (
      chunk st model (object_of []) (some (unwrap_or (codes "stop") st.finish_reason))
          (usage_of body),
      live_lem _ body model st live ∙ live_metadata body model st,
      chunk-reads body fs i o u input output st model (object_of []) _,
    ),
  )
