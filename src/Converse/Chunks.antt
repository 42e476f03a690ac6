-- ===== src/Converse/Chunks.antt =====
-- What the translation of stream events emits: framed values, and the marker of the end once, behind them.
use drgtw.Base.{
  ◌≡◌, refl, sym, ap, ◌∙◌, subst, inl, inr, Bytes, codes, Bool, true, false, Option, none, some,
  List, [], ◌∷◌, ◌++◌, map, equal, append_assoc, append-nil, if◌then◌else◌, Bool-cases,
}
use drgtw.Base.Json.{Value, key, str_at}
use drgtw.Base.Strings.{concat}
use drgtw.Converse.Stream.{
  StreamXlateState, ends_with, done_block, finalize, sse_block, live_event, converse_event_to_sse,
}

module _ (to_string : Value → Bytes) where
  -- Values, each in a frame.
  abbrev pub blocks : List Value → Bytes
  blocks vs = concat (map (sse_block to_string) vs)

  blocks-append : (vs ws : List Value) → blocks (vs ++ ws) ≡ blocks vs ++ blocks ws
  blocks-append [] ws = refl
  blocks-append (v ∷ vs) ws =
      ap (λ s. sse_block to_string v ++ s) (blocks-append vs ws)
      ∙ sym (append_assoc (sse_block to_string v) (blocks vs) (blocks ws))

  -- What may come out between two states, by whether they are done.
  abbrev pub Emits : Bool → Bool → Bytes → Type 0
  Emits true true out = out ≡ []
  Emits true false out = ⊥
  Emits false false out = (vs : List Value) × (out ≡ blocks vs)
  Emits false true out = (vs : List Value) × (out ≡ blocks vs ++ done_block)

  pub Emits-nil : (b : Bool) → Emits b b []
  Emits-nil true = refl
  Emits-nil false = ([], refl)

  pub Emits-append :
      (a b c : Bool) (out more : Bytes) → Emits a b out → Emits b c more → Emits a c (out ++ more)
  Emits-append true true true out more h k = rw h k
  Emits-append true true false out more h k = absurd k
  Emits-append true false c out more h k = absurd h
  Emits-append false true true out more (vs, e) k = (vs, rw k (append-nil out ∙ e))
  Emits-append false true false out more h k = absurd k
  Emits-append false false false out more (vs, e) (ws, k) =
      (vs ++ ws, rw e (rw k (sym (blocks-append vs ws))))
  Emits-append false false true out more (vs, e) (ws, k) = (
    vs ++ ws,
    rw e (
        rw k (
          sym (append_assoc (blocks vs) (blocks ws) done_block)
          ∙ ap (λ s. s ++ done_block) (sym (blocks-append vs ws)))),
  )

  pub finalize-Emits : (st : StreamXlateState) → Emits st.is_done true (finalize st).1
  unfolding finalize
  finalize-Emits st = elim (Bool-cases st.is_done) [
    | inl over ↦ rw over refl
    | inr live ↦ rw live ([], refl)
  ]

  -- Emitted from a state that is not done.
  record Emitted (r : StreamXlateState × Bytes) : Type 0 where
    emission : Emits false r.0.is_done r.1

  if_Emitted :
      (b : Bool) (x y : StreamXlateState × Bytes)
      → Emitted x
      → Emitted y
      → Emitted (if b then x else y)
  if_Emitted true x y h k = h
  if_Emitted false x y h k = k

  nothing : (st : StreamXlateState) → st.is_done ≡ false → Emitted (st, [])
  nothing st h = record { emission = subst (λ b. Emits false b []) (sym h) ([], refl) }

  one :
      (st : StreamXlateState) (v : Value) → st.is_done ≡ false → Emitted (st, sse_block to_string v)
  one st v h = record {
    emission =
        subst (λ b. Emits false b (sse_block to_string v)) (sym h)
          (v ∷ [], sym (append-nil (sse_block to_string v)));
  }

  delta :
      (st : StreamXlateState) (v : Bytes → Value) (o : Option Bytes)
      → st.is_done ≡ false
      → Emitted (elim o [ none ↦ (st, []) | some t ↦ (st, sse_block to_string (v t)) ])
  delta st v none h = nothing st h
  delta st v (some t) h = one st (v t) h

  last :
      (st : StreamXlateState) (v : Value)
      → Emitted (record st { is_done = true }, sse_block to_string v ++ done_block)
  last st v = record {
    emission = (v ∷ [], ap (λ s. s ++ done_block) (sym (append-nil (sse_block to_string v))));
  }

  live_event-Emits :
      (t : Bytes) (payload : Value) (model : Bytes) (st : StreamXlateState)
      → st.is_done ≡ false
      → Emitted (live_event to_string t payload model st)
  unfolding live_event
  live_event-Emits t payload model st h =
      if_Emitted (equal t (codes "messageStart")) _ _ (one st _ h) (
        if_Emitted (equal t (codes "contentBlockDelta")) _ _
          (delta st _ (str_at (key (codes "delta") ∷ key (codes "text") ∷ []) payload) h)
          (if_Emitted (equal t (codes "contentBlockStart")) _ _ (nothing st h) (
            if_Emitted (equal t (codes "contentBlockStop")) _ _ (nothing st h) (
              if_Emitted (equal t (codes "messageStop")) _ _ (nothing _ h) (
                if_Emitted (equal t (codes "metadata")) _ _ (last st _)
                  (if_Emitted (ends_with (codes "Exception") t) _ _ (last st _) (nothing st h)))))))

  guarded :
      (b : Bool) (st : StreamXlateState) (r : StreamXlateState × Bytes)
      → st.is_done ≡ b
      → (st.is_done ≡ false → Emitted r)
      → Emits b (if b then (st, []) else r).0.is_done (if b then (st, []) else r).1
  guarded true st r h k = subst (λ b. Emits true b []) (sym h) refl
  guarded false st r h k = (k h).emission

  pub converse_event_to_sse-Emits :
      (t : Bytes) (payload : Value) (model : Bytes) (st : StreamXlateState)
      → Emits st.is_done
          (converse_event_to_sse to_string t payload model st).0.is_done
          (converse_event_to_sse to_string t payload model st).1
  unfolding converse_event_to_sse
  converse_event_to_sse-Emits t payload model st =
      guarded st.is_done st (live_event to_string t payload model st) refl
        (live_event-Emits t payload model st)
