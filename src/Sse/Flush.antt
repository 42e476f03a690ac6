-- ===== src/Sse/Flush.antt =====
-- The synthetic events that carry what the restorers still hold back (`synthetic_event`,
-- `synthetic_tool_args_event` and `flush_holdbacks` in crates/drgtw-proxy/src/sse_restore.rs). The printer
-- `serde_json::to_string` is a parameter; on a `Value` it does not fail.
use drgtw.Base.{ℕ, Bytes, codes, Option, none, some, List, [], ◌∷◌, ◌++◌}
use drgtw.Base.Json.{Value, null, number, pos_int, string, object_of, array_of}
use drgtw.Pii.Stream.{StreamRestorer, finish}
use drgtw.Sse.Transform.{Restoring, BodyFormat, openai_chat, anthropic_messages}

unfoldable pub or_drgtw : Option Bytes → Bytes
or_drgtw none = codes "drgtw"
or_drgtw (some id) = id

-- The `model` entry, once a model was seen.
unfoldable pub model_entry : Option Bytes → List (Bytes × Value)
model_entry none = []
model_entry (some m) = (codes "model", string m) ∷ []

-- An OpenAI chunk with one choice that has the given delta.
unfoldable pub openai_chunk : Restoring → Value → Value
unfolding or_drgtw model_entry
openai_chunk r delta = object_of (
    (codes "id", string (or_drgtw r.last_id))
    ∷ (codes "object", string (codes "chat.completion.chunk"))
    ∷ (
      codes "choices",
      array_of (
          object_of (
            (codes "index", number (pos_int 0))
            ∷ (codes "delta", delta)
            ∷ (codes "finish_reason", null)
            ∷ [])
          ∷ []),
    )
    ∷ model_entry r.last_model)

unfoldable pub anthropic_block_delta : ℕ → Value → Value
anthropic_block_delta i delta = object_of (
    (codes "type", string (codes "content_block_delta"))
    ∷ (codes "index", number (pos_int i))
    ∷ (codes "delta", delta)
    ∷ [])

unfoldable pub synthetic_value_as : BodyFormat → Restoring → Bytes → Value
unfolding openai_chunk anthropic_block_delta
synthetic_value_as openai_chat r rest =
    openai_chunk r (object_of ((codes "content", string rest) ∷ []))
synthetic_value_as anthropic_messages r rest =
    anthropic_block_delta r.last_index
      (object_of ((codes "type", string (codes "text_delta")) ∷ (codes "text", string rest) ∷ []))

unfoldable pub synthetic_value : Restoring → Bytes → Value
unfolding synthetic_value_as
synthetic_value r rest = synthetic_value_as r.format r rest

unfoldable pub synthetic_args_value_as : BodyFormat → ℕ → Restoring → Bytes → Value
unfolding openai_chunk anthropic_block_delta
synthetic_args_value_as openai_chat i r rest = openai_chunk r (
    object_of (
      (
        codes "tool_calls",
        array_of (
            object_of (
              (codes "index", number (pos_int i))
              ∷ (codes "function", object_of ((codes "arguments", string rest) ∷ []))
              ∷ [])
            ∷ []),
      )
      ∷ []))
synthetic_args_value_as anthropic_messages i r rest = anthropic_block_delta i (
    object_of (
      (codes "type", string (codes "input_json_delta")) ∷ (codes "partial_json", string rest) ∷ []))

unfoldable pub synthetic_args_value : ℕ → Restoring → Bytes → Value
unfolding synthetic_args_value_as
synthetic_args_value i r rest = synthetic_args_value_as r.format i r rest

-- No event for a stream that holds nothing.
unfoldable pub unless_empty : Bytes → Bytes → Bytes
unless_empty [] event = []
unless_empty (c ∷ rest) event = event

module _ (to_string : Value → Bytes) where
  -- The event that carries a value, closed by a blank line.
  unfoldable pub print_event : BodyFormat → Value → Bytes
  print_event openai_chat v = codes "data: " ++ (to_string v ++ 10 ∷ 10 ∷ [])
  print_event anthropic_messages v =
      codes "event: content_block_delta" ++ (10 ∷ codes "data: " ++ (to_string v ++ 10 ∷ 10 ∷ []))

  unfoldable pub synthetic_event : Restoring → Bytes → Bytes
  unfolding print_event synthetic_value
  synthetic_event r rest = print_event r.format (synthetic_value r rest)

  unfoldable pub synthetic_tool_args_event : ℕ → Restoring → Bytes → Bytes
  unfolding print_event synthetic_args_value
  synthetic_tool_args_event i r rest = print_event r.format (synthetic_args_value i r rest)

  -- The argument streams, in the order of their indices.
  unfoldable pub flush_args :
      Restoring → List (ℕ × StreamRestorer) → List (ℕ × StreamRestorer) × Bytes
  unfolding finish unless_empty synthetic_tool_args_event
  flush_args r [] = ([], [])
  flush_args r ((i, s) ∷ m) =
      let (s', rest) = finish s in
      let (m', later) = flush_args r m in
      ((i, s') ∷ m', unless_empty rest (synthetic_tool_args_event i r rest) ++ later)

  unfoldable pub flush_holdbacks : Restoring → Restoring × Bytes
  unfolding finish unless_empty synthetic_event flush_args
  flush_holdbacks r =
      let (s, rest) = finish r.restorer in
      let (args, later) = flush_args r r.arg_restorers in
      (
        record r { restorer = s; arg_restorers = args },
        unless_empty rest (synthetic_event r rest) ++ later,
      )
