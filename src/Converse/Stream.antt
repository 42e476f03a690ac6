-- ===== src/Converse/Stream.antt =====
-- The events of a Converse stream as OpenAI chunks (`converse_event_to_sse` and `StreamXlateState` in
-- crates/drgtw-proxy/src/converse.rs).
use drgtw.Base.{
  ℕ, Bytes, codes, Bool, true, false, Option, none, some, [], ◌∷◌, ◌++◌, equal, if◌then◌else◌,
}
use drgtw.Base.Json.{Value, null, string, object, key, str_at, fields_of, object_of, array_of, end}
use drgtw.Base.Strings.{strip_suffix}
use drgtw.Converse.{unwrap_or, natural, insert_some}
use drgtw.Converse.Response.{usage_of, map_finish_reason}

pub record StreamXlateState : Type 0 where
  pub id : Bytes
  pub created : ℕ
  pub finish_reason : Option Bytes
  pub is_done : Bool

unfoldable pub new : Bytes → ℕ → StreamXlateState
new id created = record { id = id; created = created; finish_reason = none; is_done = false }

abbrev string_or_null : Option Bytes → Value
string_or_null none = null
string_or_null (some s) = string s

unfoldable pub chunk : StreamXlateState → Bytes → Value → Option Bytes → Option Value → Value
unfolding insert_some
chunk state model delta finish_reason usage = object (
    insert_some (codes "usage") usage (
      fields_of
        ((codes "id", string state.id)
          ∷ (codes "object", string (codes "chat.completion.chunk"))
          ∷ (codes "created", natural state.created)
          ∷ (codes "model", string model)
          ∷ (
            codes "choices",
            array_of (
                object_of (
                  (codes "index", natural 0)
                  ∷ (codes "delta", delta)
                  ∷ (codes "finish_reason", string_or_null finish_reason)
                  ∷ [])
                ∷ []),
          )
          ∷ [])
        end))

abbrev pub done_block : Bytes
done_block = codes "data: [DONE]\n\n"

unfoldable pub finalize : StreamXlateState → StreamXlateState × Bytes
finalize state =
    if state.is_done then (state, []) else (record state { is_done = true }, done_block)

unfoldable pub ends_with : Bytes → Bytes → Bool
unfolding strip_suffix
ends_with p s = elim (strip_suffix p s) [ none ↦ false | some r ↦ true ]

module _ (to_string : Value → Bytes) where
  unfoldable pub sse_block : Value → Bytes
  sse_block v = codes "data: " ++ (to_string v ++ codes "\n\n")

  -- A terminal chunk, the marker of the end, and the guard.
  abbrev terminal : StreamXlateState → Value → StreamXlateState × Bytes
  terminal state v = (record state { is_done = true }, sse_block v ++ done_block)

  abbrev error_chunk : Bytes → Value → Value
  error_chunk event_type payload = object_of (
      (
        codes "error",
        object_of (
            (
              codes "message",
              string (
                  unwrap_or (codes "upstream stream error")
                    (str_at (key (codes "message") ∷ []) payload)),
            )
            ∷ (codes "type", string event_type)
            ∷ []),
      )
      ∷ [])

  unfoldable pub live_event : Bytes → Value → Bytes → StreamXlateState → StreamXlateState × Bytes
  unfolding chunk sse_block str_at map_finish_reason usage_of ends_with equal
  live_event event_type payload model state =
      if equal event_type (codes "messageStart")
      then (
        state,
        sse_block (
            chunk state model
              (object_of (
                (
                  codes "role",
                  string (unwrap_or (codes "assistant") (str_at (key (codes "role") ∷ []) payload)),
                )
                ∷ []))
              none none),
      )
      else if equal event_type (codes "contentBlockDelta")
      then elim (str_at (key (codes "delta") ∷ key (codes "text") ∷ []) payload) [
        | none ↦ (state, [])
        | some text ↦ (
          state,
          sse_block (chunk state model (object_of ((codes "content", string text) ∷ [])) none none),
        )
      ]
      else if equal event_type (codes "contentBlockStart")
      then (state, [])
      else if equal event_type (codes "contentBlockStop")
      then (state, [])
      else if equal event_type (codes "messageStop")
      then (
        record state {
          finish_reason = some (map_finish_reason (str_at (key (codes "stopReason") ∷ []) payload));
        },
        [],
      )
      else if equal event_type (codes "metadata")
      then terminal state (
          chunk state model (object_of []) (some (unwrap_or (codes "stop") state.finish_reason))
            (usage_of payload))
      else if ends_with (codes "Exception") event_type
      then terminal state (error_chunk event_type payload)
      else (state, [])

  unfoldable pub converse_event_to_sse :
      Bytes → Value → Bytes → StreamXlateState → StreamXlateState × Bytes
  unfolding live_event
  converse_event_to_sse event_type payload model state =
      if state.is_done then (state, []) else live_event event_type payload model state
