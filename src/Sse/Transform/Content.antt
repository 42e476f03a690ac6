-- ===== src/Sse/Transform/Content.antt =====
-- The assistant's text of an event goes through the one restorer of the text stream, and nothing else does
-- (`transform_openai` and `transform_anthropic` in crates/drgtw-proxy/src/sse_restore.rs).
use drgtw.Base.{
  ℕ, ◌≡◌, refl, ◌∙◌, inl, inr, Bytes, codes, Option, none, some, List, [], ◌∷◌, equal, Option-cases,
  if◌then◌else◌,
}
use drgtw.Base.Json.{
  Value, null, bool, number, string, array, object, Values, nil, cons, Step, key, set, get_path,
  set_path, str_at, u64_at, as_str, get_path-set_path, get-set_other,
}
use drgtw.Pii.Stream.{StreamRestorer, feed}
use drgtw.Sse.Transform.{
  Restoring, BodyFormat, openai_chat, anthropic_messages, feed_arg_stream, feed_content, feed_at,
  openai_delta, content_path, feed_call, feed_calls, feed_array, arguments_path, text_path, is_str,
  or_zero,
}

-- The assistant's text in a payload.

unfoldable pub openai_content : Value → Option Bytes
openai_content v = elim (get_path openai_delta v) [ none ↦ none | some d ↦ str_at content_path d ]

unfoldable pub anthropic_content : Value → Option Bytes
anthropic_content v =
    if is_str (codes "content_block_delta") (str_at (key (codes "type") ∷ []) v)
    then (if is_str (codes "text_delta") (str_at (key (codes "delta") ∷ key (codes "type") ∷ []) v)
        then str_at text_path v
        else none)
    else none

abbrev pub content_of : BodyFormat → Value → Option Bytes
content_of openai_chat v = openai_content v
content_of anthropic_messages v = anthropic_content v

-- What should come of a payload with the given text: the same payload with the text that the restorer
-- releases, and the restorer that has been fed. With no text, the restorer stays.
abbrev pub IsFed :
    (Value → Option Bytes) → StreamRestorer → Option Bytes → StreamRestorer → Value → Type 0
IsFed content s none s' v = (content v ≡ none) × (s' ≡ s)
IsFed content s (some text) s' v = (content v ≡ some ((feed text s).1)) × (s' ≡ (feed text s).0)

-- What stays whatever is fed.
abbrev pub Keeps : Restoring → Restoring → Type 0
Keeps r r' = (r'.format ≡ r.format) × (r'.flushed ≡ r.flushed)

-- One field

str_at-set_path :
    (p : List Step) (s t : Bytes) (v : Value)
    → str_at p v ≡ some t
    → str_at p (set_path p (string s) v) ≡ some s
unfolding str_at as_str
str_at-set_path p s t v h = elim (Option-cases (get_path p v)) [
  | inl e ↦ absurd (let h' : none ≡ some t = rw (e, str_at) at h in cc h')
  | inr (w, e) ↦ rw (get_path-set_path p (string s) v w e, str_at) refl
]

pub feed_at-IsFed :
    (p : List Step) (r : Restoring) (v : Value)
    → IsFed
        (str_at p)
        r.restorer
        (str_at p v)
        (feed_at feed_content p r v).0.restorer
        (feed_at feed_content p r v).1
unfolding feed_at feed_content
feed_at-IsFed p r v = elim (Option-cases (str_at p v)) [
  | inl e ↦ rw (e, feed_at) (e, refl)
  | inr (t, e) ↦ rw (e, feed_at) (str_at-set_path p ((feed t r.restorer).1) t v e, refl)
]

pub feed_at-Keeps :
    (p : List Step) (r : Restoring) (v : Value) → Keeps r (feed_at feed_content p r v).0
unfolding feed_at feed_content
feed_at-Keeps p r v = elim (Option-cases (str_at p v)) [
  | inl e ↦ rw (e, feed_at) (refl, refl)
  | inr (t, e) ↦ rw (e, feed_at) (refl, refl)
]

-- Argument streams

-- Nothing but an argument stream is fed.
abbrev pub Leaves : Restoring → Restoring → Type 0
Leaves r r' = (r'.restorer ≡ r.restorer) × Keeps r r'

Leaves-trans : (a b c : Restoring) → Leaves a b → Leaves b c → Leaves a c
Leaves-trans a b c (h, (i, j)) (h', (i', j')) = (h' ∙ h, (i' ∙ i, j' ∙ j))

pub feed_args-Leaves :
    (n : ℕ) (p : List Step) (r : Restoring) (v : Value)
    → Leaves r (feed_at (feed_arg_stream n) p r v).0
unfolding feed_at feed_arg_stream
feed_args-Leaves n p r v = elim (Option-cases (str_at p v)) [
  | inl e ↦ rw (e, feed_at) (refl, (refl, refl))
  | inr (t, e) ↦ rw (e, feed_at) (refl, (refl, refl))
]

feed_call-Leaves : (r : Restoring) (call : Value) → Leaves r (feed_call r call).0
unfolding feed_call
feed_call-Leaves r call =
    feed_args-Leaves (or_zero (u64_at (key (codes "index") ∷ []) call)) arguments_path r call

feed_calls-Leaves : (r : Restoring) (calls : Values) → Leaves r (feed_calls r calls).0
unfolding feed_calls
feed_calls-Leaves r nil = (refl, (refl, refl))
feed_calls-Leaves r (cons call calls) =
    let r' = (feed_call r call).0 in
    Leaves-trans r r' (feed_calls r' calls).0 (feed_call-Leaves r call) (feed_calls-Leaves r' calls)

-- The tool calls of a delta leave its text.
unfoldable pub KeepsText : Restoring → Value → Restoring × Value → Type 0
KeepsText r d (r', d') = (str_at content_path d' ≡ str_at content_path d) × Leaves r r'

str_at-set_other :
    (w d : Value) → str_at content_path (set (key (codes "tool_calls")) w d) ≡ str_at content_path d
unfolding str_at get_path
str_at-set_other w d =
    rw (get-set_other (codes "tool_calls") (codes "content") w d (unfold equal in refl), str_at)
      refl

pub feed_array-KeepsText :
    (r : Restoring) (d : Value) (o : Option Value) → KeepsText r d (feed_array r d o)
unfolding feed_array KeepsText
feed_array-KeepsText r d (some (array calls)) =
    (str_at-set_other (array (feed_calls r calls).1) d, feed_calls-Leaves r calls)
feed_array-KeepsText r d none = (refl, (refl, (refl, refl)))
feed_array-KeepsText r d (some null) = (refl, (refl, (refl, refl)))
feed_array-KeepsText r d (some (bool b)) = (refl, (refl, (refl, refl)))
feed_array-KeepsText r d (some (number n)) = (refl, (refl, (refl, refl)))
feed_array-KeepsText r d (some (string s)) = (refl, (refl, (refl, refl)))
feed_array-KeepsText r d (some (object fs)) = (refl, (refl, (refl, refl)))

pub IsFed-moved :
    (f g : Value → Option Bytes) (s s' s'' : StreamRestorer) (o : Option Bytes) (v w : Value)
    → g w ≡ f v
    → s'' ≡ s'
    → IsFed f s o s' v
    → IsFed g s o s'' w
IsFed-moved f g s s' s'' none v w e d (h, k) = (e ∙ h, d ∙ k)
IsFed-moved f g s s' s'' (some t) v w e d (h, k) = (e ∙ h, d ∙ k)

abbrev pub FedBy : (Value → Option Bytes) → Restoring → Option Bytes → Restoring × Value → Type 0
FedBy content r text (r', v') = IsFed content r.restorer text r'.restorer v' × Keeps r r'
