-- ===== src/Events/Sink/Tests.antt =====
-- A run of the sink, and an instance of its theorem.
use drgtw.Base.{ℕ, ◌≡◌, refl, List, [], ◌∷◌, ◌++◌, arith, length}
use drgtw.Events.Sink.{
  EventSink, answered, new, emit, recv, take_next, attempt, post, post_taken, count_drop,
  is_success,
}
use drgtw.Base.Sublist.{Within}
use drgtw.Events.Sink.Account.{
  Reaches, start, submits, receives, attempts, Reaches-account, IsBalanced, taken,
}

-- Room for one event: the second is dropped, the first is delivered.
run_sink : EventSink ℕ
unfolding attempt recv emit new
run_sink = attempt (answered 204) (recv (emit 8 (emit 7 (new 1))))

abbrev submitted : List ℕ
submitted = 7 ∷ 8 ∷ []

run_steps : Reaches 1 submitted run_sink
unfolding run_sink attempt
run_steps =
    attempts (answered 204) run_sink
      (receives (recv (emit 8 (emit 7 (new 1))))
        (submits 8 (7 ∷ 8 ∷ []) (emit 8 (emit 7 (new 1)))
          (submits 7 (7 ∷ []) (emit 7 (new 1)) start refl refl) refl refl)
        refl)
      refl

Reaches-account_example :
    IsBalanced 1 (length submitted) run_sink
    × Within (run_sink.delivered ++ (taken run_sink.in_flight ++ run_sink.queue)) submitted
Reaches-account_example = Reaches-account 1 run_steps (omega arith)

one_delivered : (run_sink.delivered ≡ 7 ∷ []) × (run_sink.dropped ≡ 1)
unfolding run_sink attempt recv emit new take_next post post_taken count_drop is_success
one_delivered = (refl, refl)
