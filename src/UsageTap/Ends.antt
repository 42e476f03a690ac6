-- ===== src/UsageTap/Ends.antt =====
-- Every stream ends, its callback is called once, and the bytes are those of the upstream
-- (`usage_tap_stream` in crates/drgtw-proxy/src/usage_tap.rs).
use drgtw.Base.{
  ◌⊎◌, ℕ, zero, suc, ◌≤◌, ◌≡◌, refl, sym, ap, ◌∙◌, inl, inr, Bytes, Bool, true, false, Option, none,
  some, List, [], ◌∷◌, ◌++◌, arith, append-nil, length, if◌then◌else◌,
}
use drgtw.Base.Json.{Value}
use drgtw.Base.Strings.{concat}
use drgtw.Sse.{SseRestorer}
use drgtw.Sse.Transform.{BodyFormat}
use drgtw.UsageTap.{
  StreamUsage, UsageAccumulator, UpstreamItem, chunk, failed, State, Poll, init, new, push, finish,
  restore_chunk, restore_end, closed, complete, unless_empty, poll_open, poll, collect, after_poll,
}

Bytes-cases : (s : Bytes) → (s ≡ []) ⊎ ((c : ℕ) × (t : Bytes) × (s ≡ c ∷ t))
Bytes-cases [] = inl refl
Bytes-cases (c ∷ t) = inr (c, t, refl)

if_false : {A : Type 0} (x y : A) (b : Bool) → b ≡ false → (if b then x else y) ≡ y
if_false x y true h = absurd (cc h)
if_false x y false h = refl

if_true : {A : Type 0} (x y : A) (b : Bool) → b ≡ true → (if b then x else y) ≡ x
if_true x y true h = refl
if_true x y false h = absurd (cc h)

module _ (from_str : Bytes → Option Value) (to_string : Value → Bytes) where
  -- The bytes that a client gets: each chunk, restored if there is a restorer; at the end of the upstream,
  -- but not at its failure, also what the restorer still holds.
  abbrev pub forwarded : Option SseRestorer → List UpstreamItem → Bytes
  forwarded r [] = (restore_end from_str to_string r).1
  forwarded r (failed ∷ items) = []
  forwarded r (chunk bytes now ∷ items) =
      let (r', out) = restore_chunk from_str to_string bytes r in out ++ forwarded r' items

  -- The usage of all chunks up to the end of the upstream or its failure.
  abbrev pub counted : UsageAccumulator → List UpstreamItem → StreamUsage
  counted acc [] = (finish from_str acc).usage
  counted acc (failed ∷ items) = (finish from_str acc).usage
  counted acc (chunk bytes now ∷ items) = counted (push from_str bytes now acc) items

  abbrev Ends : Bytes → StreamUsage → Option (List Bytes × List StreamUsage) → Type 0
  Ends bytes usage answer =
      (outs : List Bytes) × (answer ≡ some (outs, usage ∷ [])) × (concat outs ≡ bytes)

  abbrev IsOpen : State → Type 0
  IsOpen st = (st.on_complete ≡ true) × (st.finished ≡ false)

  abbrev polled : ℕ → Poll → Option (List Bytes × List StreamUsage)
  polled n (emitted, st, rest, calls) =
      after_poll emitted calls (collect from_str to_string n st rest)

  collect-poll :
      (n : ℕ) (st : State) (items : List UpstreamItem)
      → st.finished ≡ false
      → collect from_str to_string (suc n) st items
        ≡ polled n (poll_open from_str to_string st items)
  unfolding collect poll
  collect-poll n st items e = ap (polled n) (if_false _ _ st.finished e)

  collect_finished :
      (n : ℕ) (st : State) (items : List UpstreamItem)
      → st.finished ≡ true
      → collect from_str to_string (suc n) st items ≡ some ([], [])
  unfolding collect poll after_poll
  collect_finished n st items e = ap (polled n) (if_true _ _ st.finished e)

  -- What the end emits, and one call of the callback.
  end_Ends :
      (tail : Bytes) (usage : StreamUsage) (st : State) (n : ℕ)
      → st.finished ≡ true
      → Ends tail usage (polled (suc n) (unless_empty tail, st, [], usage ∷ []))
  unfolding after_poll unless_empty
  end_Ends [] usage st n e = ([], refl, refl)
  end_Ends (c ∷ tail) usage st n e = (
    (c ∷ tail) ∷ [],
    ap (after_poll (some (c ∷ tail)) (usage ∷ [])) (collect_finished n st [] e),
    append-nil (c ∷ tail),
  )

  -- A chunk of which nothing is emitted is followed by the next in the same poll.
  module _ (st : State) (bytes : Bytes) (now : ℕ) (items : List UpstreamItem) where
    abbrev restored : Option SseRestorer × Bytes
    restored = restore_chunk from_str to_string bytes st.restorer

    abbrev stepped : State
    stepped = record st { restorer = restored.0; acc = push from_str bytes now st.acc }

    silent :
        restored.1 ≡ []
        → poll_open from_str to_string st (chunk bytes now ∷ items)
          ≡ poll_open from_str to_string stepped items
    unfolding poll_open unless_empty
    silent e =
        let e' : unless_empty restored.1 ≡ none = ap unless_empty e in rw (e', poll_open) refl

    emits :
        (c : ℕ) (out : Bytes)
        → restored.1 ≡ c ∷ out
        → poll_open from_str to_string st (chunk bytes now ∷ items)
          ≡ (some (c ∷ out), stepped, items, [])
    unfolding poll_open unless_empty
    emits c out e =
        let e' : unless_empty restored.1 ≡ some (c ∷ out) = ap unless_empty e in
        rw (e', poll_open) refl

  once : (b : Bool) (u : StreamUsage) → b ≡ true → complete b u ≡ u ∷ []
  unfolding complete
  once true u e = refl
  once false u e = absurd (cc e)

  end_poll :
      (st : State)
      → poll_open from_str to_string st [] ≡ (
        unless_empty (restore_end from_str to_string st.restorer).1,
        closed from_str to_string (restore_end from_str to_string st.restorer).0 st,
        [],
        complete st.on_complete (finish from_str st.acc).usage,
      )
  unfolding poll_open closed
  end_poll st = refl

  failed_poll :
      (st : State) (items : List UpstreamItem)
      → poll_open from_str to_string st (failed ∷ items) ≡ (
        none,
        closed from_str to_string st.restorer st,
        items,
        complete st.on_complete (finish from_str st.acc).usage,
      )
  unfolding poll_open closed
  failed_poll st items = refl

  Ends-moved :
      (bytes : Bytes) (usage : StreamUsage) (a b : Option (List Bytes × List StreamUsage))
      → a ≡ b
      → Ends bytes usage b
      → Ends bytes usage a
  Ends-moved bytes usage a b e (outs, done, same) = (outs, e ∙ done, same)

  collect_open :
      (n : ℕ) (st : State) (items : List UpstreamItem)
      → IsOpen st
      → length items ≤ n
      → Ends
          (forwarded st.restorer items)
          (counted st.acc items)
          (collect from_str to_string (suc (suc n)) st items)
  unfolding closed after_poll
  collect_open n st [] (o, e) l =
      let (r, tail) = restore_end from_str to_string st.restorer in
      let usage = (finish from_str st.acc).usage in
      let st' = closed from_str to_string r st in
      Ends-moved tail usage (collect from_str to_string (suc (suc n)) st [])
        (polled (suc n) (unless_empty tail, st', [], usage ∷ []))
        (collect-poll (suc n) st [] e
          ∙ ap (polled (suc n)) (end_poll st)
          ∙ ap (λ calls. polled (suc n) (unless_empty tail, st', [], calls))
              (once st.on_complete usage o))
        (end_Ends tail usage st' n refl)
  collect_open n st (failed ∷ items) (o, e) l =
      let usage = (finish from_str st.acc).usage in
      (
        [],
        collect-poll (suc n) st (failed ∷ items) e
            ∙ ap (polled (suc n)) (failed_poll st items)
            ∙ ap (λ calls. some ([], calls)) (once st.on_complete usage o),
        refl,
      )
  collect_open zero st (chunk bytes now ∷ items) (o, e) l = absurd (omega arith)
  collect_open (suc n) st (chunk bytes now ∷ items) (o, e) l =
      let (r, out) = restore_chunk from_str to_string bytes st.restorer in
      let st' = stepped st bytes now items in
      let rest = forwarded r items in
      elim (Bytes-cases out) [
        | inl none_out ↦
            (let (outs, done, same) = collect_open (suc n) st' items (o, e) (omega arith) in
              (
                outs,
                collect-poll (suc (suc n)) st (chunk bytes now ∷ items) e
                    ∙ ap (polled (suc (suc n))) (silent st bytes now items none_out)
                    ∙ sym (collect-poll (suc (suc n)) st' items e)
                    ∙ done,
                same ∙ ap (λ o'. o' ++ rest) (sym none_out),
              ))
        | inr (c, more, some_out) ↦
            (let (outs, done, same) = collect_open n st' items (o, e) (omega arith) in
              (
                (c ∷ more) ∷ outs,
                collect-poll (suc (suc n)) st (chunk bytes now ∷ items) e
                    ∙ ap (polled (suc (suc n))) (emits st bytes now items c more some_out)
                    ∙ ap (after_poll (some (c ∷ more)) []) done,
                ap (λ t. (c ∷ more) ++ t) same ∙ ap (λ o'. o' ++ rest) (sym some_out),
              ))
      ]

  -- Polled often enough, the stream ends. It has emitted the forwarded bytes and called its callback once,
  -- with the usage of everything before the end.
  pub collect_ends :
      (r : Option SseRestorer) (f : BodyFormat) (items : List UpstreamItem)
      → (outs : List Bytes) × (collect from_str to_string
            (suc (suc (length items)))
            (init r f)
            items
          ≡ some (outs, counted (new f) items ∷ []))
        × (concat outs ≡ forwarded r items)
  unfolding init
  collect_ends r f items = collect_open (length items) (init r f) items (refl, refl) (omega arith)
