-- ===== src/ConsumerLoop/Answers.antt =====
-- Every job that the consumer loop takes from the queue is answered for.
use site_parser_for_freelans.Common.{
  ℕ, ◌≡◌, refl, sym, ◌∙◌, inl, inr, Bool, true, false, List, [], ◌∷◌, ◌++◌, Bool-cases,
  if◌then◌else◌,
}
use site_parser_for_freelans.ConsumerLoop.{
  Call, execute, ack, nack, Methods, Popped, pop_raises, nothing, job, Turn, handle, consume,
  Attempt, Retried, reclaimed, stopped, waiting, reclaim_loop, reclaim_with_retry, after_reclaim,
  run_consumer, execute_job, maybe_ack, maybe_nack, maybe_shutdown_requeue,
}

-- The jobs that a pop and what follows it give; `rest` are those of the later turns.
abbrev pub taken_after : Popped → Bool → List ℕ → List ℕ
taken_after (pop_raises stop_set) stop_after rest = if stop_set then [] else rest
taken_after nothing stop_after rest = rest
taken_after (job id) stop_after rest = id ∷ (if stop_after then [] else rest)

-- The jobs that `pop_blocking` returned before the loop ended.
abbrev pub taken : List Turn → List ℕ
taken [] = []
taken (t ∷ ts) =
    let rest = taken ts in if t.stop_before then [] else taken_after t.popped t.stop_after rest

-- The jobs that are acked or nacked.
abbrev pub answered : List Call → List ℕ
answered [] = []
answered (ack id ∷ cs) = id ∷ answered cs
answered (nack id ∷ cs) = id ∷ answered cs
answered (_ ∷ cs) = answered cs

abbrev pub acked : List Call → List ℕ
acked [] = []
acked (ack id ∷ cs) = id ∷ acked cs
acked (_ ∷ cs) = acked cs

-- The jobs on which the use case returned.
abbrev pub done : List Call → List ℕ
done [] = []
done (execute id true ∷ cs) = id ∷ done cs
done (_ ∷ cs) = done cs

module _ (q : Methods) (a : q.has_ack ≡ true) (n : q.has_nack ≡ true) where
  handle_answers :
      (p : Popped) (stop_after succeeds : Bool) (next : List Call) (rest : List ℕ)
      → answered next ≡ rest
      → answered (handle q p stop_after succeeds next) ≡ taken_after p stop_after rest
  unfolding handle execute_job maybe_ack maybe_nack maybe_shutdown_requeue
  handle_answers (pop_raises true) stop_after succeeds next rest h = refl
  handle_answers (pop_raises false) stop_after succeeds next rest h = h
  handle_answers nothing stop_after succeeds next rest h = h
  handle_answers (job id) true succeeds next rest h = rw n refl
  handle_answers (job id) false true next rest h = rw (a, h) refl
  handle_answers (job id) false false next rest h = rw (n, h) refl

  handle_acks :
      (p : Popped) (stop_after succeeds : Bool) (next : List Call)
      → acked next ≡ done next
      → acked (handle q p stop_after succeeds next) ≡ done (handle q p stop_after succeeds next)
  unfolding handle execute_job maybe_ack maybe_nack maybe_shutdown_requeue
  handle_acks (pop_raises true) stop_after succeeds next h = refl
  handle_acks (pop_raises false) stop_after succeeds next h = h
  handle_acks nothing stop_after succeeds next h = h
  handle_acks (job id) true succeeds next h = rw n refl
  handle_acks (job id) false true next h = rw (a, h) refl
  handle_acks (job id) false false next h = rw (n, h) refl

  consume_answers : (ts : List Turn) → answered (consume q ts) ≡ taken ts
  unfolding consume
  consume_answers [] = refl
  consume_answers (t ∷ ts) = elim (Bool-cases t.stop_before) [
    | inl e ↦ rw e refl
    | inr e ↦ rw e (
        handle_answers t.popped t.stop_after t.succeeds (consume q ts) (taken ts)
          (consume_answers ts))
  ]

  consume_acks : (ts : List Turn) → acked (consume q ts) ≡ done (consume q ts)
  unfolding consume
  consume_acks [] = refl
  consume_acks (t ∷ ts) = elim (Bool-cases t.stop_before) [
    | inl e ↦ rw e refl
    | inr e ↦ rw e (handle_acks t.popped t.stop_after t.succeeds (consume q ts) (consume_acks ts))
  ]

-- The calls of `reclaim_with_retry` are calls of `reclaim`, whatever comes after them.
reclaim_loop_only :
    (attempts : List Attempt) (next : List Call)
    → let calls = (reclaim_loop attempts).0 ++ next in
      (answered calls ≡ answered next) × (acked calls ≡ acked next) × (done calls ≡ done next)
unfolding reclaim_loop
reclaim_loop_only [] next = (refl, refl, refl)
reclaim_loop_only (a ∷ as') next = elim (Bool-cases a.stop_before) [
  | inl e ↦ rw e (refl, refl, refl)
  | inr e ↦ elim (Bool-cases a.succeeds) [
    | inl s ↦ rw (e, s) (refl, refl, refl)
    | inr s ↦ elim (Bool-cases a.stop_in_wait) [
      | inl w ↦ rw (e, s, w) (refl, refl, refl)
      | inr w ↦ rw (e, s, w) (reclaim_loop_only as' next)
    ]
  ]
]

reclaim_only :
    (q : Methods) (attempts : List Attempt) (next : List Call)
    → let calls = (reclaim_with_retry q attempts).0 ++ next in
      (answered calls ≡ answered next) × (acked calls ≡ acked next) × (done calls ≡ done next)
unfolding reclaim_with_retry
reclaim_only q attempts next = elim (Bool-cases q.has_reclaim) [
  | inl e ↦ rw e (reclaim_loop_only attempts next)
  | inr e ↦ rw e (refl, refl, refl)
]

-- If the queue has both methods and `reclaim_with_retry` returns True, every job that the consumer
-- takes from the queue is acked or nacked once, in the order in which the jobs were taken: the
-- consumer drops none, whether the use case fails or the stop event is set.
pub run_consumer_answers :
    (q : Methods) (attempts : List Attempt) (turns : List Turn)
    → q.has_ack ≡ true
    → q.has_nack ≡ true
    → (reclaim_with_retry q attempts).1 ≡ reclaimed
    → answered (run_consumer q attempts turns) ≡ taken turns
unfolding run_consumer
run_consumer_answers q attempts turns a n r =
    rw r ((reclaim_only q attempts (consume q turns)).0 ∙ consume_answers q a n turns)

after_reclaim_acks :
    (q : Methods) (turns : List Turn) (r : Retried)
    → q.has_ack ≡ true
    → q.has_nack ≡ true
    → acked (after_reclaim r (consume q turns)) ≡ done (after_reclaim r (consume q turns))
after_reclaim_acks q turns reclaimed a n = consume_acks q a n turns
after_reclaim_acks q turns stopped a n = refl
after_reclaim_acks q turns waiting a n = refl

-- If the queue has both methods, the jobs that the consumer acks are those on which the use case
-- returned, in the same order: no failed job and no job given back at the shutdown is acked.
pub run_consumer_acks :
    (q : Methods) (attempts : List Attempt) (turns : List Turn)
    → q.has_ack ≡ true
    → q.has_nack ≡ true
    → acked (run_consumer q attempts turns) ≡ done (run_consumer q attempts turns)
unfolding run_consumer
run_consumer_acks q attempts turns a n =
    let r = (reclaim_with_retry q attempts).1 in
    let (_, acks, dones) = reclaim_only q attempts (after_reclaim r (consume q turns)) in
    acks ∙ after_reclaim_acks q turns r a n ∙ sym dones
