-- ===== src/Pii/Body/Walks.antt =====
-- Walks over values that rewrite exactly the texts that they are said to, for the parts that all walks of
-- crates/drgtw-pii/src/body.rs are made of.
use drgtw.Base.{
  ◌≡◌, refl, sym, ap, ◌∙◌, inl, inr, Bytes, false, Option, none, some, List, [], ◌++◌, equal,
  Option-cases,
}
use drgtw.Base.Json.{
  Value, Values, string, array, object, null, bool, number, nil, cons, key, get, set, get-set_other,
}
use drgtw.Pii.Body.{each, on_array, on_field, rewrite_string_value}
use drgtw.Pii.Body.Texts.{
  Text, string_texts, all_texts, array_texts, in_option, field_texts, Follows, cons_to, extend,
  rewrite_all, rewrite_all-append,
}

abbrev pub value_of : {M : Type 0} → Value → Option (M × Value) → Value
value_of v none = v
value_of v (some (_, w)) = w

pub other_field :
    {M : Type 0}
    → (k j : Bytes) (f : M → Value → Option (M × Value)) (m : M) (v : Value) → equal k j ≡ false
    → get (key j) (value_of v (on_field k f m v)) ≡ get (key j) v
unfolding on_field
other_field k j f m v ne = elim (Option-cases (get (key k) v)) [
  | inl e ↦ rw (e, on_field) refl
  | inr (w, e) ↦ elim (Option-cases (f m w)) [
    | inl e' ↦ rw (e, on_field) (rw (e', on_field) refl)
    | inr ((m', w'), e') ↦ rw (e, on_field) (rw (e', on_field) (get-set_other k j w' v ne))
  ]
]

module _ {M : Type 0} (rewrite : Bytes → Option Bytes → M → Option (M × Bytes)) where
  -- A walk over values that rewrites the texts `t`.
  abbrev pub Walks : (Value → List Text) → (M → Value → Option (M × Value)) → Type 0
  Walks t f = (m : M) (v : Value) → Follows t (f m v) (rewrite_all rewrite m (t v))

  pub rewrite_string_value-Walks :
      (role : Option Bytes) → Walks (string_texts role) (rewrite_string_value rewrite role)
  unfolding rewrite_string_value rewrite_all cons_to
  rewrite_string_value-Walks role m (string s) = elim (Option-cases (rewrite s role m)) [
    | inl e ↦ rw (e, rewrite_string_value) refl
    | inr ((m', t), e) ↦ rw (e, rewrite_string_value) refl
  ]
  rewrite_string_value-Walks role m null = refl
  rewrite_string_value-Walks role m (bool b) = refl
  rewrite_string_value-Walks role m (number b) = refl
  rewrite_string_value-Walks role m (array b) = refl
  rewrite_string_value-Walks role m (object b) = refl

  abbrev pub pair_of : M → List Text → Option (M × List Text)
  pair_of m x = some (m, x)

  -- Two walks, one after the other.
  module _ {A B C : Type 0} (t : A → List Text) (u : B → List Text) (j : A → B → C)
      (w : C → List Text) (joined : (a : A) (b : B) → w (j a b) ≡ t a ++ u b) where
    joins :
        (a : A) (o : Option (M × B)) (out : Option (M × List Text))
        → Follows u o out
        → Follows w (elim o [ none ↦ none | some (m, b) ↦ some (m, j a b) ]) (extend (t a) out)
    joins a none out h = rw h refl
    joins a (some (m, b)) out h = rw h (ap (pair_of m) (sym (joined a b)))

    pub both :
        (m : M) (o : Option (M × A)) (b : B) (xs : List Text) (g : M → B → Option (M × B))
        → Follows t o (rewrite_all rewrite m xs)
        → ((m' : M) → Follows u (g m' b) (rewrite_all rewrite m' (u b)))
        → Follows w
            (elim o [
              | none ↦ none
              | some (m', a) ↦ elim (g m' b) [ none ↦ none | some (m'', b') ↦ some (m'', j a b') ]
            ])
            (rewrite_all rewrite m (xs ++ u b))
    both m none b xs g h hs = rw (rewrite_all-append rewrite m xs (u b)) (rw h refl)
    both m (some (m', a)) b xs g h hs =
        rw (rewrite_all-append rewrite m xs (u b))
          (rw h (joins a (g m' b) (rewrite_all rewrite m' (u b)) (hs m')))

  pub each-Walks :
      (t : Value → List Text) (f : M → Value → Option (M × Value)) (m : M) (vs : Values)
      → Walks t f
      → Follows (all_texts t) (each f m vs) (rewrite_all rewrite m (all_texts t vs))
  unfolding each rewrite_all
  each-Walks t f m nil h = refl
  each-Walks t f m (cons v vs) h =
      both t (all_texts t) cons (all_texts t) (λ a b. refl) m (f m v) vs (t v) (each f) (h m v)
        (λ m'. each-Walks t f m' vs h)

  array_lem :
      (t : Value → List Text) (o : Option (M × Values)) (out : Option (M × List Text))
      → Follows (all_texts t) o out
      → Follows (array_texts t) (elim o [ none ↦ none | some (m, vs) ↦ some (m, array vs) ]) out
  array_lem t none out h = h
  array_lem t (some (m, vs)) out h = h

  pub on_array-Walks :
      (t : Value → List Text) (f : M → Value → Option (M × Value))
      → Walks t f
      → Walks (array_texts t) (on_array f)
  unfolding on_array rewrite_all
  on_array-Walks t f h m (array vs) =
      array_lem t (each f m vs) (rewrite_all rewrite m (all_texts t vs)) (each-Walks t f m vs h)
  on_array-Walks t f h m null = refl
  on_array-Walks t f h m (bool b) = refl
  on_array-Walks t f h m (number b) = refl
  on_array-Walks t f h m (string b) = refl
  on_array-Walks t f h m (object b) = refl

  -- The value of a key; `out` are the texts of the whole, before and after.
  module _ (k : Bytes) (t out : Value → List Text) (f : M → Value → Option (M × Value)) (v : Value)
      (same : out v ≡ field_texts k t v)
      (changed : (w u : Value) → get (key k) v ≡ some u → out (set (key k) w v) ≡ t w) where
    set_lem :
        (w : Value) (o : Option (M × Value)) (xs : Option (M × List Text))
        → get (key k) v ≡ some w
        → Follows t o xs
        → Follows out (elim o [ none ↦ none | some (m, w') ↦ some (m, set (key k) w' v) ]) xs
    set_lem w none xs e h = h
    set_lem w (some (m, w')) xs e h = h ∙ ap (pair_of m) (sym (changed w' w e))

    pub on_field-Walks :
        (m : M)
        → Walks t f
        → Follows out (on_field k f m v) (rewrite_all rewrite m (field_texts k t v))
    unfolding on_field rewrite_all
    on_field-Walks m h = elim (Option-cases (get (key k) v)) [
      | inl e ↦
          let empty : out v ≡ [] = same ∙ ap (in_option t) e in
          rw (e, on_field) (ap (pair_of m) (sym empty))
      | inr (w, e) ↦ rw (e, on_field) (set_lem w (f m w) (rewrite_all rewrite m (t w)) e (h m w))
    ]
