-- ===== src/Converse/Completes.antt =====
-- A relayed event stream ends, with the marker of the end once and last (`reframe_converse_stream` in
-- crates/drgtw-proxy/src/handlers.rs).
use drgtw.Base.{
  ℕ, zero, suc, ◌+◌, ◌≤◌, ◌≡◌, refl, sym, ap, ◌∙◌, subst, Bytes, Bool, true, false, Option, none,
  some, List, [], ◌∷◌, ◌++◌, map, length, arith, append-nil, if◌then◌else◌,
}
use drgtw.Base.Json.{Value, null}
use drgtw.Base.Results.{Result, ok, err}
use drgtw.Base.Strings.{concat}
use drgtw.EventStream.{EventFrame, DecodeError, EventStreamDecoder, feed}
use drgtw.EventStream.Drain.{drain-Answers}
use drgtw.Converse.{unwrap_or}
use drgtw.Converse.Stream.{StreamXlateState, done_block, converse_event_to_sse, finalize}
use drgtw.Converse.Chunks.{
  blocks, Emits, Emits-nil, Emits-append, finalize-Emits, converse_event_to_sse-Emits,
}
use drgtw.Converse.Reframe.{
  StreamItem, received, Reframing, yields, init, yield_of, event_name, Polled, give_up,
  translate_frames, poll_end, poll_open, poll, after_poll, collect,
}

module _ (from_slice : Bytes → Option Value) (to_string : Value → Bytes) (crc : Bytes → ℕ)
    (model : Bytes) where
  frame-Emits :
      (name : Option Bytes) (payload : Value) (x : StreamXlateState)
      (k : StreamXlateState → StreamXlateState × Bytes)
      → ((x' : StreamXlateState) → Emits to_string x'.is_done (k x').0.is_done (k x').1)
      → let r : StreamXlateState × Bytes = elim name [
        | none ↦ k x
        | some t ↦
            let (x', out) = converse_event_to_sse to_string t payload model x in
            let (x'', more) = k x' in (x'', out ++ more)
      ] in
        Emits to_string x.is_done r.0.is_done r.1
  frame-Emits none payload x k h = h x
  frame-Emits (some t) payload x k h =
      Emits-append to_string x.is_done _ _ _ _
        (converse_event_to_sse-Emits to_string t payload model x)
        (h (converse_event_to_sse to_string t payload model x).0)

  translate_frames-Emits :
      (frames : List EventFrame) (x : StreamXlateState)
      → let r = translate_frames from_slice to_string crc model frames x in
        Emits to_string x.is_done r.0.is_done r.1
  unfolding translate_frames
  translate_frames-Emits [] x = Emits-nil to_string x.is_done
  translate_frames-Emits (frame ∷ frames) x =
      frame-Emits (event_name frame) (unwrap_or null (from_slice frame.payload)) x
        (translate_frames from_slice to_string crc model frames) (translate_frames-Emits frames)

  if_false : {A : Type 0} (b : Bool) (x y : A) → b ≡ false → (if b then x else y) ≡ y
  if_false true x y h = absurd (cc h)
  if_false false x y h = refl

  -- The outputs of a client that pulls to the end, from a state by whether it is done.
  abbrev Completes : Bool → Option (List (Option Bytes)) → Type 0
  Completes b answer =
      (outs : List Bytes) × (answer ≡ some (map some outs)) × Emits to_string b true (concat outs)

  abbrev then_collect : ℕ → Polled → Option (List (Option Bytes))
  then_collect n none = none
  then_collect n (some (y, st, rest)) =
      after_poll y (collect from_slice to_string crc model n st rest)

  collect_finished :
      (n : ℕ) (st : Reframing) (items : List StreamItem)
      → st.finished ≡ true
      → collect from_slice to_string crc model (suc n) st items ≡ some []
  unfolding collect poll after_poll
  collect_finished n st items h = rw h refl

  collect_open :
      (n : ℕ) (st : Reframing) (items : List StreamItem)
      → st.finished ≡ false
      → collect from_slice to_string crc model (suc n) st items
        ≡ then_collect n (poll_open from_slice to_string crc model st items)
  unfolding collect poll
  collect_open n st items h = ap (then_collect n) (if_false st.finished _ _ h)

  -- The last output, and the end behind it.
  last_Completes :
      (b : Bool) (out : Bytes) (n : ℕ) (st : Reframing) (rest : List StreamItem)
      → st.finished ≡ true
      → Emits to_string b true out
      → Completes b (then_collect (suc n) (some (yield_of out, st, rest)))
  unfolding yield_of after_poll
  last_Completes b [] n st rest h e = ([], refl, e)
  last_Completes b (c ∷ s) n st rest h e = (
    (c ∷ s) ∷ [],
    rw (collect_finished n st rest h) refl,
    subst (Emits to_string b true) (sym (append-nil (c ∷ s))) e,
  )

  abbrev Drained : Type 0
  Drained = EventStreamDecoder × Result DecodeError (List EventFrame)

  abbrev translated : List EventFrame → StreamXlateState → StreamXlateState × Bytes
  translated = translate_frames from_slice to_string crc model

  give_up-Completes :
      (d : EventStreamDecoder) (n : ℕ) (st : Reframing) (rest : List StreamItem)
      → Completes st.xlate.is_done (then_collect (suc n) (give_up d st rest))
  unfolding give_up
  give_up-Completes d n st rest =
      last_Completes st.xlate.is_done (finalize st.xlate).1 n _ rest refl
        (finalize-Emits to_string st.xlate)

  -- The end of the upstream, with what the decoder gives.
  at_end : Reframing → Drained → Polled
  at_end st (d, err e) = give_up d st []
  at_end st (d, ok frames) =
      let (x, out) = translated frames st.xlate in
      let (x', tail) = finalize x in
      some (yield_of (out ++ tail), record { decoder = d; xlate = x'; finished = true }, [])

  at_end-Completes :
      (n : ℕ) (st : Reframing) (r : Drained)
      → Completes st.xlate.is_done (then_collect (suc n) (at_end st r))
  unfolding at_end
  at_end-Completes n st (d, err e) = give_up-Completes d n st []
  at_end-Completes n st (d, ok frames) = last_Completes st.xlate.is_done _ n _ [] refl (
      Emits-append to_string st.xlate.is_done _ true _ _ (translate_frames-Emits frames st.xlate)
        (finalize-Emits to_string (translated frames st.xlate).0))

  poll_end-Completes :
      (n : ℕ) (st : Reframing)
      → Completes st.xlate.is_done
          (then_collect (suc n) (poll_end from_slice to_string crc model st))
  unfolding poll_end at_end
  poll_end-Completes n st =
      let (r, e) = drain-Answers crc st.decoder in rw (e, poll_end) (at_end-Completes n st r)

  -- What a poll goes on with after a chunk.
  goes_on : Bytes → Reframing → List StreamItem → Polled → Polled
  goes_on out st rest later = elim out [ [] ↦ later | c ∷ s ↦ some (yields (c ∷ s), st, rest) ]

  after_chunk : Reframing → Drained → List StreamItem → (Reframing → Polled) → Polled
  unfolding goes_on
  after_chunk st (d, r) rest k = elim r [
    | err e ↦ give_up d st rest
    | ok frames ↦
        let (x, out) = translated frames st.xlate in
        let st' = record st { decoder = d; xlate = x } in goes_on out st' rest (k st')
  ]

  goes_on-Completes :
      (b : Bool) (out : Bytes) (st : Reframing) (rest : List StreamItem) (later : Polled) (n : ℕ)
      → Emits to_string b st.xlate.is_done out
      → Completes st.xlate.is_done (then_collect n later)
      → Completes st.xlate.is_done (collect from_slice to_string crc model n st rest)
      → Completes b (then_collect n (goes_on out st rest later))
  unfolding goes_on after_poll
  goes_on-Completes b [] st rest later n e (outs, k, h) l =
      (outs, k, Emits-append to_string b st.xlate.is_done true [] (concat outs) e h)
  goes_on-Completes b (c ∷ s) st rest later n e k (outs, l, h) = (
    (c ∷ s) ∷ outs,
    rw l refl,
    Emits-append to_string b st.xlate.is_done true (c ∷ s) (concat outs) e h,
  )

  after_chunk-Completes :
      (n : ℕ) (st : Reframing) (r : Drained) (rest : List StreamItem) (k : Reframing → Polled)
      → ((st' : Reframing)
          → st'.finished ≡ st.finished
          → Completes st'.xlate.is_done (then_collect (suc n) (k st'))
            × Completes st'.xlate.is_done (collect from_slice to_string crc model (suc n) st' rest))
      → Completes st.xlate.is_done (then_collect (suc n) (after_chunk st r rest k))
  unfolding after_chunk
  after_chunk-Completes n st (d, err e) rest k h = give_up-Completes d n st rest
  after_chunk-Completes n st (d, ok frames) rest k h =
      let st' = record st { decoder = d; xlate = (translated frames st.xlate).0 } in
      goes_on-Completes st.xlate.is_done (translated frames st.xlate).1 st' rest (k st') (suc n)
        (translate_frames-Emits frames st.xlate) (h st' refl).0 (h st' refl).1

  poll_open-Completes :
      (chunks : List Bytes) (n : ℕ) (st : Reframing)
      → st.finished ≡ false
      → length chunks + 1 ≤ n
      → Completes st.xlate.is_done
          (then_collect n (poll_open from_slice to_string crc model st (map received chunks)))
  unfolding poll_open after_chunk goes_on
  poll_open-Completes [] zero st h l = absurd (omega (arith, l))
  poll_open-Completes [] (suc n) st h l = poll_end-Completes n st
  poll_open-Completes (bytes ∷ chunks) zero st h l = absurd (omega (arith, l))
  poll_open-Completes (bytes ∷ chunks) (suc n) st h l =
      let (r, e) = drain-Answers crc (feed bytes st.decoder) in
      let k : Reframing → Polled =
        λ st'. poll_open from_slice to_string crc model st' (map received chunks) in
      let goal = after_chunk-Completes n st r (map received chunks) k (λ st' same. (
        poll_open-Completes chunks (suc n) st' (same ∙ h) (omega (arith, l)),
        subst (Completes st'.xlate.is_done)
            (sym (collect_open n st' (map received chunks) (same ∙ h)))
            (poll_open-Completes chunks n st' (same ∙ h) (omega (arith, l))),
      )) in
      rw (e, poll_open) goal

  -- A stream whose upstream does not fail ends within two polls more than the upstream has items, and
  -- its bytes are values, each in a frame, and the marker of the end behind them, once.
  pub reframe-Completes :
      (id : Bytes) (created : ℕ) (chunks : List Bytes)
      → (outs : List Bytes) × (vs : List Value) × (collect from_slice to_string crc model
            (length chunks + 2)
            (init id created)
            (map received chunks)
          ≡ some (map some outs))
        × (concat outs ≡ blocks to_string vs ++ done_block)
  unfolding init
  reframe-Completes id created chunks =
      let (outs, e, emitted) =
        poll_open-Completes chunks (length chunks + 1) (init id created) refl (omega arith) in
      (
        outs,
        emitted.0,
        subst
            (λ n.
              collect from_slice to_string crc model n (init id created) (map received chunks)
              ≡ some (map some outs))
            (omega arith)
            (collect_open (length chunks + 1) (init id created) (map received chunks) refl ∙ e),
        emitted.1,
      )
