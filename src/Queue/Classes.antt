-- ===== src/Queue/Classes.antt =====
-- The three classes of ai-service/src/ai_service/adapter/redis: RedisQueueConsumer of queue.py,
-- RedisUserEmbedQueueConsumer of user_embed_queue.py and RedisACBatchQueueConsumer of
-- ac_batch_queue.py. They differ in the payload; the keys of Redis are those of the class at hand.
use site_parser_for_freelans.Common.{ℕ, Option, none, some, List}
use site_parser_for_freelans.Json.{Outcome}
use site_parser_for_freelans.Redis.{Codec, Redis}
use site_parser_for_freelans.Queue.{
  Consumer, ack, nack, trace_id, traceparent, reclaim_stuck, nack_all_inflight,
}
use site_parser_for_freelans.Queue.Payload.{AcBatchMessage, pop_job, pop_user_embed, pop_ac_batch}

-- The methods, with the time of the call for `pop_blocking`, and the lease threshold and the time
-- for `reclaim_stuck`.
pub record QueueClass {Raw : Type 0} {codec : Codec Raw} (server : Redis codec) (A : Type 0)
    : Type 0 where
  pub pop_blocking : ℕ → Consumer server → Consumer server × Outcome (Option A)
  pub ack : ℕ → Consumer server → Consumer server × Outcome (Unit {0})
  pub nack : ℕ → Consumer server → Consumer server × Outcome (Unit {0})
  pub trace_id : ℕ → Consumer server → List ℕ
  pub traceparent : Option (ℕ → Consumer server → List ℕ)
  pub reclaim_stuck : ℕ → ℕ → Consumer server → Consumer server × Outcome (Unit {0})
  pub nack_all_inflight : Consumer server → Consumer server × Outcome ℕ

module _ {Raw : Type 0} {codec : Codec Raw} (server : Redis codec) where
  unfoldable pub job_queue : QueueClass server ℕ
  job_queue = record {
    pop_blocking = pop_job;
    ack = ack;
    nack = nack;
    trace_id = trace_id;
    traceparent = some traceparent;
    reclaim_stuck = reclaim_stuck;
    nack_all_inflight = nack_all_inflight;
  }

  -- This class keeps no traceparent.
  unfoldable pub user_embed_queue : QueueClass server ℕ
  user_embed_queue = record {
    pop_blocking = pop_user_embed;
    ack = ack;
    nack = nack;
    trace_id = trace_id;
    traceparent = none;
    reclaim_stuck = reclaim_stuck;
    nack_all_inflight = nack_all_inflight;
  }

  unfoldable pub ac_batch_queue : QueueClass server AcBatchMessage
  ac_batch_queue = record {
    pop_blocking = pop_ac_batch;
    ack = ack;
    nack = nack;
    trace_id = trace_id;
    traceparent = some traceparent;
    reclaim_stuck = reclaim_stuck;
    nack_all_inflight = nack_all_inflight;
  }
