-- ===== src/Queue/Payload.antt =====
-- The payloads of the three queues, and the consumer classes that the queues have:
-- ai-service/src/ai_service/adapter/redis/queue.py (RedisQueueConsumer), user_embed_queue.py
-- (RedisUserEmbedQueueConsumer) and ac_batch_queue.py (RedisACBatchQueueConsumer).
use Prim.Native.String.{String}
use site_parser_for_freelans.Common.{ℕ, suc, Option, none, some, List, [], ◌∷◌}
use site_parser_for_freelans.Common.Int.{pos}
use site_parser_for_freelans.Json.{
  Value, Items, Fields, null, arr, obj, no_items, item, int, str, no_fields, field, type_error,
  value_error, attribute_error, Outcome, ok, raises, get, get_default, to_int,
}
use site_parser_for_freelans.Redis.{Codec, Redis, pending, lpush}
use site_parser_for_freelans.Queue.{Consumer, pop_blocking, send}
use site_parser_for_freelans.Queue.Lease.{Parsed, discard, message, fails, normalize_trace_id}

-- `int(value)` of an id: a TypeError, a ValueError or a number that is not positive discards the
-- payload; nothing else is caught.
unfoldable pub positive_id : Value → Parsed ℕ
unfolding to_int
positive_id v = elim (to_int v) [
  | ok (pos (suc n)) ↦ message (suc n) [] []
  | ok other ↦ discard
  | raises type_error ↦ discard
  | raises value_error ↦ discard
  | raises e ↦ fails e
]

abbrev pub with_traces : {A : Type 0} → Parsed A → List ℕ → List ℕ → Parsed A
with_traces discard trace_id traceparent = discard
with_traces (message a _ _) trace_id traceparent = message a trace_id traceparent
with_traces (fails e) trace_id traceparent = fails e

-- The values of `job_id`, `trace_id` and `traceparent`.
unfoldable pub job_message : Option Value → Option Value → Option Value → Parsed ℕ
unfolding positive_id normalize_trace_id
job_message none trace traceparent = discard
job_message (some null) trace traceparent = discard
job_message (some job_id) trace traceparent =
    with_traces (positive_id job_id) (normalize_trace_id trace) (normalize_trace_id traceparent)

-- `{"job_id": N}`.
unfoldable pub parse_job : Value → Parsed ℕ
unfolding get
parse_job (obj fs) = job_message (get "job_id" fs) (get "trace_id" fs) (get "traceparent" fs)
parse_job other = fails attribute_error

-- `{"user_id": N}`, with no traceparent.
unfoldable pub parse_user_embed : Value → Parsed ℕ
unfolding positive_id get normalize_trace_id
parse_user_embed (obj fs) = elim (get "user_id" fs) [
  | none ↦ discard
  | some null ↦ discard
  | some user_id ↦ with_traces (positive_id user_id) (normalize_trace_id (get "trace_id" fs)) []
]
parse_user_embed other = fails attribute_error

pub record AcBatchMessage : Type 0 where
  pub user_id : ℕ
  pub job_ids : List ℕ
  pub trace_id : List ℕ
  pub traceparent : List ℕ

-- The loop over `job_ids`.
unfoldable pub parse_job_ids : Items → Parsed (List ℕ)
unfolding positive_id
parse_job_ids no_items = message [] [] []
parse_job_ids (item x xs) =
    let rest = parse_job_ids xs in
    elim (positive_id x) [
      | discard ↦ discard
      | fails e ↦ fails e
      | message id _ _ ↦ elim rest [
        | discard ↦ discard
        | fails e ↦ fails e
        | message ids _ _ ↦ message (id ∷ ids) [] []
      ]
    ]

-- `_parse_payload`.
unfoldable pub parse_ac_batch : Value → Parsed AcBatchMessage
unfolding positive_id parse_job_ids get get_default normalize_trace_id
parse_ac_batch (obj fs) =
    let trace_id = normalize_trace_id (get "trace_id" fs) in
    let traceparent = normalize_trace_id (get "traceparent" fs) in
    elim (positive_id (get_default "user_id" null fs)) [
      | discard ↦ discard
      | fails e ↦ fails e
      | message uid _ _ ↦ elim (get_default "job_ids" null fs) [
        | arr no_items ↦ discard
        | arr (item x xs) ↦ elim (parse_job_ids (item x xs)) [
          | discard ↦ discard
          | fails e ↦ fails e
          | message ids _ _ ↦
              message
                (record {
                  user_id = uid;
                  job_ids = ids;
                  trace_id = trace_id;
                  traceparent = traceparent;
                })
                trace_id traceparent
        ]
        | other ↦ discard
      ]
    ]
parse_ac_batch other = fails attribute_error

-- `_serialize` up to `json.dumps`, whose spaces after separators the model does not show.
unfoldable pub job_id_items : List ℕ → Items
job_id_items [] = no_items
job_id_items (n ∷ ns) = item (int (pos n)) (job_id_items ns)

abbrev pub optional_text : String → List ℕ → Fields → Fields
optional_text k [] fs = fs
optional_text k (c ∷ cs) fs = field k (str (c ∷ cs)) fs

unfoldable pub serialize_ac_batch : AcBatchMessage → Value
unfolding job_id_items normalize_trace_id
serialize_ac_batch m =
    let traceparent =
      optional_text "traceparent" (normalize_trace_id (some (str m.traceparent))) no_fields in
    let traces =
      optional_text "trace_id" (normalize_trace_id (some (str m.trace_id))) traceparent in
    obj (
      field "user_id" (int (pos m.user_id)) (field "job_ids" (arr (job_id_items m.job_ids)) traces))

module _ {Raw : Type 0} {codec : Codec Raw} {server : Redis codec} where
  -- RedisQueueConsumer.
  unfoldable pub pop_job : ℕ → Consumer server → Consumer server × Outcome (Option ℕ)
  unfolding pop_blocking parse_job
  pop_job = pop_blocking parse_job (λ job_id. job_id)

  -- RedisUserEmbedQueueConsumer.
  unfoldable pub pop_user_embed : ℕ → Consumer server → Consumer server × Outcome (Option ℕ)
  unfolding pop_blocking parse_user_embed
  pop_user_embed = pop_blocking parse_user_embed (λ user_id. user_id)

  -- RedisACBatchQueueConsumer.
  unfoldable pub pop_ac_batch :
      ℕ → Consumer server → Consumer server × Outcome (Option AcBatchMessage)
  unfolding pop_blocking parse_ac_batch
  pop_ac_batch = pop_blocking parse_ac_batch (λ m. m.user_id)

  unfoldable pub enqueue_ac_batch :
      AcBatchMessage → Consumer server → Consumer server × Outcome (Unit {0})
  unfolding serialize_ac_batch
  enqueue_ac_batch m c =
      send (lpush pending (codec.dumps (serialize_ac_batch m)) ∷ []) c λ c'. (c', ok tt)
