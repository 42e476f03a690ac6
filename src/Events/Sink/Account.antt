-- ===== src/Events/Sink/Account.antt =====
-- Every event that was submitted is queued, in flight, delivered or counted as dropped, and deliveries keep
-- the order of submission (`EventSink` in crates/drgtw-events/src/sink.rs).
use drgtw.Base.{
  ℕ, ◌+◌, ◌^◌, ◌≤◌, ◌<◌, ◌≡◌, refl, sym, ap, ◌∙◌, inl, inr, subst, Option, none, some, List, [],
  ◌∷◌, ◌++◌, arith, length, length-append, append_assoc, ltb, ltb→lt, Bool-cases,
}
use drgtw.Base.Sublist.{Within, done, sublist_trans, sublist_snoc, sublist_behind, sublist_without}
use drgtw.Events.Sink.{
  EventSink, Attempt, not_serialized, answered, request_failed, new, count_drop, emit, take_next,
  recv, is_success, post, post_taken, attempt,
}

-- The steps of the callers and of the worker, in any order, from a new sink. The index is what was
-- submitted so far.
pub data Reaches {Event : Type 0} (buffer_size : ℕ) : List Event → EventSink Event → Type 0 where
  start : Reaches buffer_size [] (new buffer_size)
  submits :
      {evs : List Event} {s : EventSink Event} (ev : Event) (evs' : List Event)
      (s' : EventSink Event)
      → Reaches buffer_size evs s
      → evs' ≡ evs ++ ev ∷ []
      → s' ≡ emit ev s
      → Reaches buffer_size evs' s'
  receives :
      {evs : List Event} {s : EventSink Event} (s' : EventSink Event)
      → Reaches buffer_size evs s
      → s' ≡ recv s
      → Reaches buffer_size evs s'
  attempts :
      {evs : List Event} {s : EventSink Event} (a : Attempt) (s' : EventSink Event)
      → Reaches buffer_size evs s
      → s' ≡ attempt a s
      → Reaches buffer_size evs s'

module _ {Event : Type 0} where
  abbrev pub taken : Option Event → List Event
  taken none = []
  taken (some ev) = ev ∷ []

  -- What was not dropped, in the order of submission.
  abbrev pub alive : EventSink Event → List Event
  alive s = s.delivered ++ (taken s.in_flight ++ s.queue)

  -- The account of `n` submitted events.
  pub record IsBalanced (buffer_size n : ℕ) (s : EventSink Event) : Type 0 where
    pub size : s.buffer_size ≡ buffer_size
    pub room : length s.queue ≤ buffer_size
    pub sum : length s.delivered + length (taken s.in_flight) + length s.queue + s.dropped ≡ n

  module _ (buffer_size : ℕ) where
    emit-IsBalanced :
        (n : ℕ) (ev : Event) (s : EventSink Event)
        → n + 1 < 2 ^ 64
        → IsBalanced buffer_size n s
        → IsBalanced buffer_size (n + 1) (emit ev s)
    unfolding emit count_drop
    emit-IsBalanced n ev s small b = elim (Bool-cases (ltb (length s.queue) s.buffer_size)) [
      | inl e ↦ rw e (record {
        size = b.size;
        room = omega (
          arith,
          length-append s.queue (ev ∷ []),
          ltb→lt (length s.queue) s.buffer_size e,
          b.size,
        );
        sum = omega (arith, length-append s.queue (ev ∷ []), b.sum);
      })
      | inr e ↦ rw e (record { size = b.size; room = b.room; sum = omega (arith, b.sum) })
    ]

    take_next-IsBalanced :
        (n : ℕ) (s : EventSink Event) (o : Option Event) (q : List Event)
        → s.in_flight ≡ o
        → s.queue ≡ q
        → IsBalanced buffer_size n s
        → IsBalanced buffer_size n (take_next o q s)
    unfolding take_next
    take_next-IsBalanced n s (some ev) q e d b = b
    take_next-IsBalanced n s none [] e d b = b
    take_next-IsBalanced n s none (ev ∷ q) e d b = record {
      size = b.size;
      room = omega (arith, b.room, ap length d);
      sum = omega (arith, b.sum, ap length d, ap (λ (x : Option Event). length (taken x)) e);
    }

    post-IsBalanced :
        (n : ℕ) (ev : Event) (a : Attempt) (s : EventSink Event)
        → n < 2 ^ 64
        → s.in_flight ≡ some ev
        → IsBalanced buffer_size n s
        → IsBalanced buffer_size n (post ev a s)
    unfolding post count_drop
    post-IsBalanced n ev not_serialized s small e b = record {
      size = b.size;
      room = b.room;
      sum = omega (arith, b.sum, ap (λ (x : Option Event). length (taken x)) e);
    }
    post-IsBalanced n ev (request_failed message) s small e b = record {
      size = b.size;
      room = b.room;
      sum = omega (arith, b.sum, ap (λ (x : Option Event). length (taken x)) e);
    }
    post-IsBalanced n ev (answered code) s small e b = elim (Bool-cases (is_success code)) [
      | inl c ↦
          rw (c, post)
            (record {
              size = b.size;
              room = b.room;
              sum = omega (
                arith,
                b.sum,
                ap (λ (x : Option Event). length (taken x)) e,
                length-append s.delivered (ev ∷ []),
              );
            })
      | inr c ↦
          rw (c, post)
            (record {
              size = b.size;
              room = b.room;
              sum = omega (arith, b.sum, ap (λ (x : Option Event). length (taken x)) e);
            })
    ]

    post_taken-IsBalanced :
        (n : ℕ) (o : Option Event) (a : Attempt) (s : EventSink Event)
        → n < 2 ^ 64
        → s.in_flight ≡ o
        → IsBalanced buffer_size n s
        → IsBalanced buffer_size n (post_taken o a s)
    unfolding post_taken
    post_taken-IsBalanced n none a s small e b = b
    post_taken-IsBalanced n (some ev) a s small e b = post-IsBalanced n ev a s small e b

    Reaches-IsBalanced :
        {evs : List Event} {s : EventSink Event}
        → Reaches buffer_size evs s
        → length evs < 2 ^ 64
        → IsBalanced buffer_size (length evs) s
    unfolding new recv attempt
    Reaches-IsBalanced start small = record { size = refl; room = omega arith; sum = refl }
    Reaches-IsBalanced (submits {evs = evs} {s = s} ev evs' s' r e d) small =
        let longer = ap length e ∙ length-append evs (ev ∷ []) in
        let b = Reaches-IsBalanced r (omega arith) in
        rw longer (rw d (emit-IsBalanced (length evs) ev s (omega arith) b))
    Reaches-IsBalanced (receives {evs = evs} {s = s} s' r d) small = rw d (
        take_next-IsBalanced (length evs) s s.in_flight s.queue refl refl
          (Reaches-IsBalanced r small))
    Reaches-IsBalanced (attempts {evs = evs} {s = s} a s' r d) small =
        rw d (
          post_taken-IsBalanced (length evs) s.in_flight a s small refl
            (Reaches-IsBalanced r small))

-- Order

module _ {Event : Type 0} where
  IsInOrder : List Event → EventSink Event → Type 0
  IsInOrder evs s = Within (alive s) evs

  emit-IsInOrder :
      (evs : List Event) (ev : Event) (s : EventSink Event)
      → IsInOrder evs s
      → IsInOrder (evs ++ ev ∷ []) (emit ev s)
  unfolding emit count_drop IsInOrder
  emit-IsInOrder evs ev s w = elim (Bool-cases (ltb (length s.queue) s.buffer_size)) [
    | inl e ↦
        let front = s.delivered in
        let flying = taken s.in_flight in
        let same : front ++ (flying ++ (s.queue ++ ev ∷ [])) ≡ alive s ++ ev ∷ [] =
          ap (λ t. front ++ t) (sym (append_assoc flying s.queue (ev ∷ [])))
          ∙ sym (append_assoc front (flying ++ s.queue) (ev ∷ [])) in
        rw (e, emit) (subst (λ t. Within t (evs ++ ev ∷ [])) (sym same) (sublist_snoc ev w))
    | inr e ↦ rw (e, emit) (sublist_behind ev w)
  ]

  take_next-IsInOrder :
      (evs : List Event) (s : EventSink Event) (o : Option Event) (q : List Event)
      → s.in_flight ≡ o
      → s.queue ≡ q
      → IsInOrder evs s
      → IsInOrder evs (take_next o q s)
  unfolding take_next IsInOrder
  take_next-IsInOrder evs s (some ev) q e d w = w
  take_next-IsInOrder evs s none [] e d w = w
  take_next-IsInOrder evs s none (ev ∷ q) e d w =
      let same : alive s ≡ s.delivered ++ (ev ∷ q) =
        ap (λ (o : Option Event). s.delivered ++ (taken o ++ s.queue)) e
        ∙ ap (λ t. s.delivered ++ t) d in
      subst (λ t. Within t evs) same w

  -- The event that was in flight is delivered, or is gone.
  flying :
      (ev : Event) (s : EventSink Event)
      → s.in_flight ≡ some ev
      → alive s ≡ s.delivered ++ (ev ∷ s.queue)
  flying ev s e = ap (λ (o : Option Event). s.delivered ++ (taken o ++ s.queue)) e

  post-IsInOrder :
      (evs : List Event) (ev : Event) (a : Attempt) (s : EventSink Event)
      → s.in_flight ≡ some ev
      → IsInOrder evs s
      → IsInOrder evs (post ev a s)
  unfolding post count_drop IsInOrder
  post-IsInOrder evs ev a s e w =
      let w' = subst (λ t. Within t evs) (flying ev s e) w in
      go a (sublist_trans w' (sublist_without ev s.delivered s.queue)) w'
    where
      go :
          (a : Attempt)
          → Within (s.delivered ++ s.queue) evs
          → Within (s.delivered ++ (ev ∷ s.queue)) evs
          → Within (alive (post ev a s)) evs
      go not_serialized lost there = lost
      go (request_failed message) lost there = lost
      go (answered code) lost there = elim (Bool-cases (is_success code)) [
        | inl c ↦
            rw (c, post)
              (subst (λ t. Within t evs) (sym (append_assoc s.delivered (ev ∷ []) s.queue)) there)
        | inr c ↦ rw (c, post) lost
      ]

  post_taken-IsInOrder :
      (evs : List Event) (o : Option Event) (a : Attempt) (s : EventSink Event)
      → s.in_flight ≡ o
      → IsInOrder evs s
      → IsInOrder evs (post_taken o a s)
  unfolding post_taken
  post_taken-IsInOrder evs none a s e w = w
  post_taken-IsInOrder evs (some ev) a s e w = post-IsInOrder evs ev a s e w

  module _ (buffer_size : ℕ) where
    Reaches-IsInOrder :
        {evs : List Event} {s : EventSink Event} → Reaches buffer_size evs s → IsInOrder evs s
    unfolding new recv attempt IsInOrder
    Reaches-IsInOrder start = done
    Reaches-IsInOrder (submits {evs = evs} {s = s} ev evs' s' r e d) =
        rw e (rw d (emit-IsInOrder evs ev s (Reaches-IsInOrder r)))
    Reaches-IsInOrder (receives {evs = evs} {s = s} s' r d) =
        rw d (take_next-IsInOrder evs s s.in_flight s.queue refl refl (Reaches-IsInOrder r))
    Reaches-IsInOrder (attempts {evs = evs} {s = s} a s' r d) =
        rw d (post_taken-IsInOrder evs s.in_flight a s refl (Reaches-IsInOrder r))

    -- After any steps of callers and worker with fewer than 2^64 events, the channel is within its bound,
    -- each event submitted is delivered, in flight, queued or counted as dropped, and those that are not
    -- dropped are in the order of submission, the delivered ones first.
    pub Reaches-account :
        {evs : List Event} {s : EventSink Event}
        → Reaches buffer_size evs s
        → length evs < 2 ^ 64
        → IsBalanced buffer_size (length evs) s
          × Within (s.delivered ++ (taken s.in_flight ++ s.queue)) evs
    unfolding IsInOrder
    Reaches-account r small = (Reaches-IsBalanced buffer_size r small, Reaches-IsInOrder r)
