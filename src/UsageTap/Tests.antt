-- ===== src/UsageTap/Tests.antt =====
-- Concrete runs of the usage tap, and instances of its theorems.
use drgtw.Base.{
  suc, ◌≡◌, Bytes, codes, Option, none, some, List, [], ◌∷◌, ◌++◌, length, strip_prefix,
}
use drgtw.Base.Json.{Value, number, pos_int, object_of}
use drgtw.Base.Strings.{concat}
use drgtw.Sse.Transform.{openai_chat}
use drgtw.UsageTap.Chunks.{push-append}
use drgtw.UsageTap.Ends.{collect_ends, forwarded, counted}
use drgtw.UsageTap.{StreamUsage, UpstreamItem, chunk, failed, init, new, push, collect}

-- A final chunk of OpenAI, printed as `u`.
abbrev usage_chunk : Value
usage_chunk = object_of (
    (
      codes "usage",
      object_of (
          (codes "prompt_tokens", number (pos_int 7))
          ∷ (codes "completion_tokens", number (pos_int 3))
          ∷ []),
    )
    ∷ [])

abbrev parse : Bytes → Option Value
parse s = elim (strip_prefix (codes "u") s) [ none ↦ none | some t ↦ some usage_chunk ]

abbrev print : Value → Bytes
print v = codes "u"

abbrev upstream : List UpstreamItem
upstream =
    chunk (codes "data: {" ++ 10 ∷ 10 ∷ codes "data:") 100
    ∷ chunk (codes " u" ++ 10 ∷ 10 ∷ []) 110
    ∷ failed
    ∷ []

-- What this stream emits and reports.
taken : Option (List Bytes × List StreamUsage)
taken = collect parse print (suc (suc (length upstream))) (init none openai_chat) upstream

collect_ends_example :
    (outs : List Bytes) × (collect parse print
        (suc (suc (length upstream)))
        (init none openai_chat)
        upstream
      ≡ some (outs, counted parse print (new openai_chat) upstream ∷ []))
    × (concat outs ≡ forwarded parse print none upstream)
collect_ends_example = collect_ends parse print none openai_chat upstream

push-append_example :
    push parse (codes " u" ++ 10 ∷ 10 ∷ []) 110 (push parse (codes "data:") 100 (new openai_chat))
    ≡ push parse (codes "data:" ++ (codes " u" ++ 10 ∷ 10 ∷ [])) 100 (new openai_chat)
push-append_example =
    push-append parse (codes "data:") (codes " u" ++ 10 ∷ 10 ∷ []) 100 110 (new openai_chat)
