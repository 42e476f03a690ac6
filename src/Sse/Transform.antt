-- ===== src/Sse/Transform.antt =====
-- What the restorer does to the JSON payload of one event (`transform_openai` and `transform_anthropic` in
-- crates/drgtw-proxy/src/sse_restore.rs).
pub mod Content
pub mod Openai
pub mod Anthropic
use drgtw.Base.{
  ℕ, Bytes, codes, Bool, true, false, Option, none, some, List, [], ◌∷◌, equal, if◌then◌else◌,
}
use drgtw.Base.Json.{
  Value, Values, string, object, nil, cons, array, Step, key, index, get, set, get_path, set_path,
  str_at, u64_at, as_str,
}
use drgtw.Base.NatMap.{find, put}
use drgtw.Pii.Stream.{StreamRestorer, feed, fork}
pub use drgtw.Pii.Body.{BodyFormat, openai_chat, anthropic_messages}

-- The fields of `SseRestorer` but for the buffer, which only `push` and `finish` touch.
pub record Restoring : Type 0 where
  pub restorer : StreamRestorer
  pub arg_restorers : List (ℕ × StreamRestorer)
  pub format : BodyFormat
  pub flushed : Bool
  pub last_id : Option Bytes
  pub last_model : Option Bytes
  pub last_index : ℕ

unfoldable pub or_zero : Option ℕ → ℕ
or_zero none = 0
or_zero (some n) = n

-- The restorer of an argument stream; a new one shares the entries and holds nothing.
unfoldable pub arg_restorer : ℕ → Restoring → StreamRestorer
unfolding find fork
arg_restorer i r = elim (find i r.arg_restorers) [ none ↦ fork r.restorer | some s ↦ s ]

unfoldable pub feed_arg_stream : ℕ → Bytes → Restoring → Restoring × Bytes
unfolding arg_restorer feed put
feed_arg_stream i fragment r =
    let (s, released) = feed fragment (arg_restorer i r) in
    (record r { arg_restorers = put i s r.arg_restorers }, released)

unfoldable pub feed_content : Bytes → Restoring → Restoring × Bytes
unfolding feed
feed_content text r =
    let (s, released) = feed text r.restorer in (record r { restorer = s }, released)

-- The text at a path is fed, and what is released is written in its place. Any other value stays.
unfoldable pub feed_at :
    (Bytes → Restoring → Restoring × Bytes) → List Step → Restoring → Value → Restoring × Value
unfolding str_at set_path
feed_at feeding path r v = elim (str_at path v) [
  | none ↦ (r, v)
  | some text ↦ let (r', released) = feeding text r in (r', set_path path (string released) v)
]

-- OpenAI

abbrev pub openai_delta : List Step
openai_delta = key (codes "choices") ∷ index 0 ∷ key (codes "delta") ∷ []

abbrev pub content_path : List Step
content_path = key (codes "content") ∷ []

abbrev pub arguments_path : List Step
arguments_path = key (codes "function") ∷ key (codes "arguments") ∷ []

-- One tool call, keyed by its own index.
unfoldable pub feed_call : Restoring → Value → Restoring × Value
unfolding feed_at feed_arg_stream u64_at or_zero
feed_call r call =
    feed_at (feed_arg_stream (or_zero (u64_at (key (codes "index") ∷ []) call))) arguments_path r
      call

unfoldable pub feed_calls : Restoring → Values → Restoring × Values
unfolding feed_call
feed_calls r nil = (r, nil)
feed_calls r (cons call calls) =
    let (r', call') = feed_call r call in
    let (r'', calls') = feed_calls r' calls in (r'', cons call' calls')

-- The `tool_calls` of the delta, if they are an array.
unfoldable pub feed_array : Restoring → Value → Option Value → Restoring × Value
unfolding feed_calls set
feed_array r delta (some (array calls)) =
    let (r', calls') = feed_calls r calls in
    (r', set (key (codes "tool_calls")) (array calls') delta)
feed_array r delta _ = (r, delta)

unfoldable pub feed_tool_calls : Restoring → Value → Restoring × Value
unfolding feed_array get
feed_tool_calls r delta = feed_array r delta (get (key (codes "tool_calls")) delta)

unfoldable pub feed_delta : Restoring → Value → Restoring × Value
unfolding feed_at feed_content feed_tool_calls
feed_delta r delta =
    let (r', delta') = feed_at feed_content content_path r delta in feed_tool_calls r' delta'

unfoldable pub or_else : Option Bytes → Option Bytes → Option Bytes
or_else (some s) later = some s
or_else none later = later

-- The id and the model of the chunk, for a synthetic event.
unfoldable pub remember_ids : Value → Restoring → Restoring
unfolding str_at or_else
remember_ids v r = record r {
  last_id = or_else (str_at (key (codes "id") ∷ []) v) r.last_id;
  last_model = or_else (str_at (key (codes "model") ∷ []) v) r.last_model;
}

unfoldable pub transform_openai : Restoring → Value → Restoring × Value
unfolding remember_ids feed_delta get_path set_path
transform_openai r v =
    let r0 = remember_ids v r in
    elim (get_path openai_delta v) [
      | none ↦ (r0, v)
      | some delta ↦ let (r', delta') = feed_delta r0 delta in (r', set_path openai_delta delta' v)
    ]

-- Anthropic

abbrev pub text_path : List Step
text_path = key (codes "delta") ∷ key (codes "text") ∷ []

abbrev pub partial_json_path : List Step
partial_json_path = key (codes "delta") ∷ key (codes "partial_json") ∷ []

unfoldable pub is_str : Bytes → Option Bytes → Bool
unfolding equal
is_str word none = false
is_str word (some s) = equal s word

unfoldable pub remember_index : Option ℕ → Restoring → Restoring
remember_index block r = record r { last_index = elim block [ none ↦ r.last_index | some i ↦ i ] }

unfoldable pub transform_anthropic : Restoring → Value → Restoring × Value
unfolding is_str str_at u64_at remember_index feed_at feed_content feed_arg_stream or_zero
transform_anthropic r v =
    let delta_type = str_at (key (codes "delta") ∷ key (codes "type") ∷ []) v in
    let block = u64_at (key (codes "index") ∷ []) v in
    let r0 = remember_index block r in
    if is_str (codes "content_block_delta") (str_at (key (codes "type") ∷ []) v)
    then (if is_str (codes "text_delta") delta_type
        then feed_at feed_content text_path r0 v
        else if is_str (codes "input_json_delta") delta_type
        then feed_at (feed_arg_stream (or_zero block)) partial_json_path r0 v
        else (r0, v))
    else (r, v)

unfoldable pub transform_as : BodyFormat → Restoring → Value → Restoring × Value
unfolding transform_openai transform_anthropic
transform_as openai_chat r v = transform_openai r v
transform_as anthropic_messages r v = transform_anthropic r v

unfoldable pub transform : Restoring → Value → Restoring × Value
unfolding transform_as
transform r v = transform_as r.format r v
