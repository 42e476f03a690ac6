-- ===== src/Sse/Transform/Anthropic.antt =====
-- An Anthropic event: its text is fed to the restorer of the text stream (`transform_anthropic` in
-- crates/drgtw-proxy/src/sse_restore.rs).
use drgtw.Base.{
  ℕ, ◌≡◌, refl, sym, ap, ◌∙◌, inl, inr, Bytes, codes, true, false, none, some, List, [], ◌∷◌, arith,
  equal, Option-cases, Bool-cases,
}
use drgtw.Base.Json.{
  Value, string, Step, key, get, set, get_path, set_path, str_at, u64_at, get-set_other, get-set,
}
use drgtw.Sse.Transform.{
  Restoring, feed_arg_stream, feed_content, feed_at, text_path, is_str, remember_index,
  transform_anthropic, or_zero, partial_json_path,
}
use drgtw.Sse.Transform.Content.{
  anthropic_content, FedBy, IsFed-moved, feed_at-IsFed, feed_at-Keeps, feed_args-Leaves,
}

abbrev type_path : List Step
type_path = key (codes "type") ∷ []

abbrev delta_type_path : List Step
delta_type_path = key (codes "delta") ∷ key (codes "type") ∷ []

str_at-step :
    (s : Step) (p : List Step) (v u : Value) → get s v ≡ some u → str_at (s ∷ p) v ≡ str_at p u
unfolding str_at get_path
str_at-step s p v u e = rw (e, str_at, get_path) refl

str_at-absent : (s : Step) (p : List Step) (v : Value) → get s v ≡ none → str_at (s ∷ p) v ≡ none
unfolding str_at get_path
str_at-absent s p v e = rw (e, str_at, get_path) refl

str_at-get :
    (k : Bytes) (v u : Value)
    → get (key k) v ≡ get (key k) u
    → str_at (key k ∷ []) v ≡ str_at (key k ∷ []) u
unfolding str_at get_path
str_at-get k v u e = rw (e, str_at, get_path) refl

-- A write to a field of the delta leaves the type of the event, and that of the delta if it is no write
-- to that.
module _ (x : Bytes) (w v : Value) where
  written : Value → Value
  written u = set_path (key x ∷ []) w u

  get-written :
      (u : Value)
      → equal x (codes "type") ≡ false
      → get (key (codes "type")) (written u) ≡ get (key (codes "type")) u
  unfolding written set_path
  get-written u h = elim (Option-cases (get (key x) u)) [
    | inl e ↦ rw (e, written, set_path) refl
    | inr (t, e) ↦ rw (e, written, set_path) (get-set_other x (codes "type") w u h)
  ]

  abbrev changed : Value
  changed = set_path (key (codes "delta") ∷ key x ∷ []) w v

  changed-absent : get (key (codes "delta")) v ≡ none → changed ≡ v
  unfolding set_path
  changed-absent e = rw (e, set_path) refl

  changed-present :
      (u : Value)
      → get (key (codes "delta")) v ≡ some u
      → changed ≡ set (key (codes "delta")) (written u) v
  unfolding set_path written
  changed-present u e = rw (e, set_path) refl

  type_stays : str_at type_path changed ≡ str_at type_path v
  type_stays = elim (Option-cases (get (key (codes "delta")) v)) [
    | inl e ↦ ap (str_at type_path) (changed-absent e)
    | inr (u, e) ↦
        ap (str_at type_path) (changed-present u e)
        ∙ str_at-get (codes "type") (set (key (codes "delta")) (written u) v) v
            (get-set_other (codes "delta") (codes "type") (written u) v (unfold equal in refl))
  ]

  delta_type_stays :
      equal x (codes "type") ≡ false → str_at delta_type_path changed ≡ str_at delta_type_path v
  delta_type_stays h = elim (Option-cases (get (key (codes "delta")) v)) [
    | inl e ↦ ap (str_at delta_type_path) (changed-absent e)
    | inr (u, e) ↦
        ap (str_at delta_type_path) (changed-present u e)
        ∙ str_at-step (key (codes "delta")) type_path (set (key (codes "delta")) (written u) v)
            (written u) (get-set (key (codes "delta")) (written u) v u e)
        ∙ str_at-get (codes "type") (written u) u (get-written u h)
        ∙ sym (str_at-step (key (codes "delta")) type_path v u e)
  ]

-- A feed at a field of the delta does not change the types.
module _ (feeding : Bytes → Restoring → Restoring × Bytes) (x : Bytes) (r : Restoring)
    (v : Value) where
  feed_at-none : (p : List Step) → str_at p v ≡ none → feed_at feeding p r v ≡ (r, v)
  unfolding feed_at
  feed_at-none p e = rw (e, feed_at) refl

  feed_at-some :
      (p : List Step) (t : Bytes)
      → str_at p v ≡ some t
      → feed_at feeding p r v ≡ ((feeding t r).0, set_path p (string (feeding t r).1) v)
  unfolding feed_at
  feed_at-some p t e = rw (e, feed_at) refl

  abbrev field_path : List Step
  field_path = key (codes "delta") ∷ key x ∷ []

  abbrev fed_value : Value
  fed_value = (feed_at feeding field_path r v).1

  fed-type : str_at type_path fed_value ≡ str_at type_path v
  fed-type = elim (Option-cases (str_at field_path v)) [
    | inl e ↦ ap (λ (q : Restoring × Value). str_at type_path q.1) (feed_at-none field_path e)
    | inr (t, e) ↦
        ap (λ (q : Restoring × Value). str_at type_path q.1) (feed_at-some field_path t e)
        ∙ type_stays x (string (feeding t r).1) v
  ]

  fed-delta_type :
      equal x (codes "type") ≡ false → str_at delta_type_path fed_value ≡ str_at delta_type_path v
  fed-delta_type h = elim (Option-cases (str_at field_path v)) [
    | inl e ↦ ap (λ (q : Restoring × Value). str_at delta_type_path q.1) (feed_at-none field_path e)
    | inr (t, e) ↦
        ap (λ (q : Restoring × Value). str_at delta_type_path q.1) (feed_at-some field_path t e)
        ∙ delta_type_stays x (string (feeding t r).1) v h
  ]

module _ (v : Value) where
  content-other :
      is_str (codes "content_block_delta") (str_at type_path v) ≡ false → anthropic_content v ≡ none
  unfolding anthropic_content
  content-other h = rw (h, anthropic_content) refl

  content-no_text :
      is_str (codes "text_delta") (str_at delta_type_path v) ≡ false → anthropic_content v ≡ none
  unfolding anthropic_content
  content-no_text h = ground arith

  content-text :
      is_str (codes "content_block_delta") (str_at type_path v) ≡ true
      → is_str (codes "text_delta") (str_at delta_type_path v) ≡ true
      → anthropic_content v ≡ str_at text_path v
  unfolding anthropic_content
  content-text h g = rw (h, anthropic_content) (rw g refl)

-- The two kinds of event that are fed.
module _ (r : Restoring) (v : Value) where
  text-FedBy :
      is_str (codes "content_block_delta") (str_at type_path v) ≡ true
      → is_str (codes "text_delta") (str_at delta_type_path v) ≡ true
      → FedBy anthropic_content r (str_at text_path v) (feed_at feed_content text_path r v)
  text-FedBy e t =
      let (r', v') = feed_at feed_content text_path r v in
      let same = fed-type feed_content (codes "text") r v in
      let same' = fed-delta_type feed_content (codes "text") r v (unfold equal in refl) in
      let there =
        content-text v' (ap (is_str (codes "content_block_delta")) same ∙ e)
          (ap (is_str (codes "text_delta")) same' ∙ t) in
      (
        IsFed-moved (str_at text_path) anthropic_content r.restorer r'.restorer r'.restorer
            (str_at text_path v) v' v' there refl (feed_at-IsFed text_path r v),
        feed_at-Keeps text_path r v,
      )

  input-FedBy :
      (n : ℕ)
      → is_str (codes "text_delta") (str_at delta_type_path v) ≡ false
      → FedBy anthropic_content r none (feed_at (feed_arg_stream n) partial_json_path r v)
  input-FedBy n t =
      let v' = (feed_at (feed_arg_stream n) partial_json_path r v).1 in
      let same =
        fed-delta_type (feed_arg_stream n) (codes "partial_json") r v (unfold equal in refl) in
      let (stays, keeps) = feed_args-Leaves n partial_json_path r v in
      ((content-no_text v' (ap (is_str (codes "text_delta")) same ∙ t), stays), keeps)

pub transform_anthropic-FedBy :
    (r : Restoring) (v : Value)
    → FedBy anthropic_content r (anthropic_content v) (transform_anthropic r v)
unfolding transform_anthropic remember_index
transform_anthropic-FedBy r v =
    let block = u64_at (key (codes "index") ∷ []) v in
    let r0 = remember_index block r in
    let is_delta = is_str (codes "content_block_delta") (str_at type_path v) in
    let is_text = is_str (codes "text_delta") (str_at delta_type_path v) in
    let is_input = is_str (codes "input_json_delta") (str_at delta_type_path v) in
    elim (Bool-cases is_delta) [
      | inr e ↦
          rw (content-other v e)
            (rw (e, transform_anthropic) ((content-other v e, refl), (refl, refl)))
      | inl e ↦ elim (Bool-cases is_text) [
        | inl t ↦ rw (content-text v e t) (rw (e, transform_anthropic) (rw t (text-FedBy r0 v e t)))
        | inr t ↦ rw (content-no_text v t) (elim (Bool-cases is_input) [
          | inl i ↦ rw (e, transform_anthropic) (rw t (rw i (input-FedBy r0 v (or_zero block) t)))
          | inr i ↦
              rw (e, transform_anthropic) (rw t (rw i ((content-no_text v t, refl), (refl, refl))))
        ])
      ]
    ]
