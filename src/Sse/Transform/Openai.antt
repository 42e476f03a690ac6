-- ===== src/Sse/Transform/Openai.antt =====
-- An OpenAI chunk: its text is fed to the restorer of the text stream (`transform_openai` in
-- crates/drgtw-proxy/src/sse_restore.rs).
use drgtw.Base.{◌≡◌, refl, ◌∙◌, inl, inr, codes, none, some, Option-cases}
use drgtw.Base.Json.{Value, key, get, get_path, set_path, str_at, get_path-set_path}
use drgtw.Sse.Transform.{
  Restoring, feed_content, feed_at, openai_delta, content_path, feed_tool_calls, feed_array,
  feed_delta, remember_ids, transform_openai,
}
use drgtw.Sse.Transform.Content.{
  openai_content, FedBy, IsFed-moved, feed_at-IsFed, feed_at-Keeps, feed_array-KeepsText, KeepsText,
}

feed_delta-FedBy :
    (r : Restoring) (d : Value)
    → FedBy (str_at content_path) r (str_at content_path d) (feed_delta r d)
unfolding feed_delta feed_tool_calls KeepsText
feed_delta-FedBy r d =
    let (r', d') = feed_at feed_content content_path r d in
    let tools = get (key (codes "tool_calls")) d' in
    let (text, (stays, (format, flushed))) = feed_array-KeepsText r' d' tools in
    let (format', flushed') = feed_at-Keeps content_path r d in
    (
      IsFed-moved (str_at content_path) (str_at content_path) r.restorer r'.restorer
          (feed_array r' d' tools).0.restorer (str_at content_path d) d' (feed_array r' d' tools).1
          text stays (feed_at-IsFed content_path r d),
      (format ∙ format', flushed ∙ flushed'),
    )

openai_content-none : (v : Value) → get_path openai_delta v ≡ none → openai_content v ≡ none
unfolding openai_content
openai_content-none v e = rw (e, openai_content) refl

openai_content-some :
    (v d : Value) → get_path openai_delta v ≡ some d → openai_content v ≡ str_at content_path d
unfolding openai_content
openai_content-some v d e = rw (e, openai_content) refl

pub transform_openai-FedBy :
    (r : Restoring) (v : Value) → FedBy openai_content r (openai_content v) (transform_openai r v)
unfolding transform_openai remember_ids
transform_openai-FedBy r v = elim (Option-cases (get_path openai_delta v)) [
  | inl e ↦
      rw (openai_content-none v e)
        (rw (e, transform_openai) ((openai_content-none v e, refl), (refl, refl)))
  | inr (d, e) ↦
      (let (r', d') = feed_delta (remember_ids v r) d in
        let (fed, keeps) = feed_delta-FedBy (remember_ids v r) d in
        let there =
          openai_content-some (set_path openai_delta d' v) d'
            (get_path-set_path openai_delta d' v d e) in
        rw (openai_content-some v d e) (
          rw (e, transform_openai)
            (
              IsFed-moved (str_at content_path) openai_content r.restorer r'.restorer r'.restorer
                  (str_at content_path d) d' (set_path openai_delta d' v) there refl fed,
              keeps,
            )))
]
