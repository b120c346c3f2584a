-- ===== src/ConsumerLoop.antt =====
-- ai-service/src/ai_service/usecase/consumer_loop.py (run_consumer and its helpers) and
-- ai-service/src/ai_service/util/queue_retry.py (reclaim_with_retry, wait_before_retry). The queue,
-- the use case and the stop event are the environment: each turn of a loop says what they answer.
-- The result is the calls that are made, in their order. Logging and tracing are left out.
pub mod Answers
use site_parser_for_freelans.Common.{ℕ, Bool, true, false, List, [], ◌∷◌, ◌++◌, if◌then◌else◌}

pub data Call : Type 0 where
  reclaim pop : Call
  -- `process_job.execute(job_id)`, and whether it returned.
  execute : ℕ → Bool → Call
  ack nack : ℕ → Call

-- The optional methods that the queue has.
pub record Methods : Type 0 where
  pub has_reclaim : Bool
  pub has_ack : Bool
  pub has_nack : Bool

-- What `pop_blocking` does; after an exception, whether the stop event is set during the wait.
pub data Popped : Type 0 where
  pop_raises : Bool → Popped
  nothing : Popped
  job : ℕ → Popped

-- A turn of the loop of `run_consumer`: the stop event before the pop, the pop, the stop event after
-- it, and whether the use case returns. Exceptions of ack and nack are logged and change nothing.
pub record Turn : Type 0 where
  pub stop_before : Bool
  pub popped : Popped
  pub stop_after : Bool
  pub succeeds : Bool

unfoldable pub maybe_ack : Methods → ℕ → List Call
maybe_ack q id = if q.has_ack then ack id ∷ [] else []

unfoldable pub maybe_nack : Methods → ℕ → List Call
maybe_nack q id = if q.has_nack then nack id ∷ [] else []

-- `_maybe_shutdown_requeue`: the calls, and whether it returns True.
unfoldable pub maybe_shutdown_requeue : Methods → ℕ → Bool → List Call × Bool
unfolding maybe_nack
maybe_shutdown_requeue q id stop_set = if stop_set then (maybe_nack q id, true) else ([], false)

-- `_execute_job`.
unfoldable pub execute_job : Methods → ℕ → Bool → List Call
unfolding maybe_ack maybe_nack
execute_job q id returns =
    execute id returns ∷ (if returns then maybe_ack q id else maybe_nack q id)

-- The body of the loop after the pop; `next` is the rest of the loop.
unfoldable pub handle : Methods → Popped → Bool → Bool → List Call → List Call
unfolding maybe_shutdown_requeue execute_job
handle q (pop_raises stop_set) stop_after succeeds next = if stop_set then [] else next
handle q nothing stop_after succeeds next = next
handle q (job id) stop_after succeeds next =
    let (calls, stopped) = maybe_shutdown_requeue q id stop_after in
    if stopped then calls else execute_job q id succeeds ++ next

-- The loop, as far as the turns go.
unfoldable pub consume : Methods → List Turn → List Call
unfolding handle
consume q [] = []
consume q (t ∷ ts) =
    let next = consume q ts in
    if t.stop_before then [] else pop ∷ handle q t.popped t.stop_after t.succeeds next

-- An attempt of `reclaim_with_retry`: the stop event before it, whether `reclaim` returns, and
-- whether the stop event is set during the wait.
pub record Attempt : Type 0 where
  pub stop_before : Bool
  pub succeeds : Bool
  pub stop_in_wait : Bool

pub data Retried : Type 0 where
  reclaimed stopped waiting : Retried

-- The loop of `reclaim_with_retry`: the calls, and whether it returns True (`reclaimed`) or False
-- (`stopped`), or still goes on.
unfoldable pub reclaim_loop : List Attempt → List Call × Retried
reclaim_loop [] = ([], waiting)
reclaim_loop (a ∷ as') =
    let (calls, r) = reclaim_loop as' in
    if a.stop_before
    then ([], stopped)
    else if a.succeeds
    then (reclaim ∷ [], reclaimed)
    else if a.stop_in_wait
    then (reclaim ∷ [], stopped)
    else (reclaim ∷ calls, r)

unfoldable pub reclaim_with_retry : Methods → List Attempt → List Call × Retried
unfolding reclaim_loop
reclaim_with_retry q attempts = if q.has_reclaim then reclaim_loop attempts else ([], reclaimed)

abbrev pub after_reclaim : Retried → List Call → List Call
after_reclaim reclaimed calls = calls
after_reclaim stopped calls = []
after_reclaim waiting calls = []

unfoldable pub run_consumer : Methods → List Attempt → List Turn → List Call
unfolding reclaim_with_retry consume
run_consumer q attempts turns =
    let (calls, r) = reclaim_with_retry q attempts in calls ++ after_reclaim r (consume q turns)

-- usecase/user_embed_consumer_loop.py: the same loop around `process_user_embed.execute(user_id)`.
unfoldable pub run_user_embed_consumer : Methods → List Attempt → List Turn → List Call
unfolding run_consumer
run_user_embed_consumer q attempts turns = run_consumer q attempts turns
