-- ===== src/Tests/Queueing.antt =====
-- The queue consumer on a server in memory, and the consumer loop.
use site_parser_for_freelans.Common.{ℕ, ◌≡◌, ◌≢◌, ◌⊎◌, refl, Bool, true, false, some, List, [], ◌∷◌}
use site_parser_for_freelans.Common.Int.{pos}
use site_parser_for_freelans.Json.{
  Exc, type_error, value_error, raises, Fields, obj, no_fields, field, int, real, finite, arr,
  no_items, ok, get_default, to_int,
}
use site_parser_for_freelans.Redis.{pending, processing, dlq, write}
use site_parser_for_freelans.Queue.{Consumer, reclaim_stuck}
use site_parser_for_freelans.Queue.Lease.{keeps_lease}
use site_parser_for_freelans.Queue.Memory.{Text, json, Lists, codec, server}
use site_parser_for_freelans.Queue.Reclaim.{
  held, occurs, reclaim_stuck_conserves, reclaim_stuck_frees,
}
use site_parser_for_freelans.Queue.Retry.{
  fail_each, fail_once, policy, fail_each-policy, SameMessage, fail_once-SameMessage,
}
use site_parser_for_freelans.ConsumerLoop.{
  Methods, Turn, Attempt, job, pop_raises, run_consumer, reclaim_with_retry,
}
use site_parser_for_freelans.ConsumerLoop.Answers.{answered, run_consumer_answers}

-- `{"job_id": 7}`.
abbrev seven : Fields
seven = field "job_id" (int (pos 7)) no_fields

abbrev message : Text
message = json (obj seven)

-- A message that was claimed long ago, and its entry in the deque of job 7.
abbrev stale : Text
stale = json (
    obj
      (field "job_id" (int (pos 7)) (field "_claimed_at" (real (finite (pos 1000000))) no_fields)))

abbrev lists : Lists
lists pending = message ∷ []
lists processing = stale ∷ []
lists dlq = []

abbrev consumer : Consumer server
consumer = record {
  store = lists;
  inflight = (7, record { raw = stale; trace_id = []; traceparent = [] } ∷ []) ∷ [];
}

reclaim_stuck_conserves_example :
    let after = (reclaim_stuck {server = server} 60000000 70000000 consumer).0.store in
    (held codec stale after ≡ held codec stale lists)
    × (keeps_lease codec 60000000 70000000 stale ≡ ok true
        → occurs codec stale (after processing) ≡ occurs codec stale (lists processing))
reclaim_stuck_conserves_example =
    reclaim_stuck_conserves {server = server} 60000000 70000000 consumer stale

reclaim_stuck_frees_example :
    occurs codec stale
      ((reclaim_stuck {server = server} 60000000 70000000 consumer).0.store processing)
    ≡ 0
unfolding keeps_lease reclaim_stuck
reclaim_stuck_frees_example =
    reclaim_stuck_frees {server = server} 60000000 70000000 consumer stale refl refl

abbrev six_times : List ℕ
six_times = 10 ∷ 20 ∷ 30 ∷ 40 ∷ 50 ∷ 60 ∷ []

fail_each-policy_example : fail_each codec six_times message ≡ ok (policy 0 six_times)
unfolding get_default to_int
fail_each-policy_example = fail_each-policy codec 0 six_times message seven refl refl

fail_once-SameMessage_example :
    ((e : Exc) × (fail_once codec 10 message ≡ raises e)
      × (to_int (get_default "_retry_count" (int (pos 0)) seven) ≡ raises e)
      × (e ≢ type_error)
      × (e ≢ value_error))
    ⊎ ((out : Text) × (to_dlq : Bool) × (fs : Fields) × (fail_once codec 10 message
          ≡ ok (out, to_dlq))
        × (codec.loads out ≡ some (obj fs))
        × SameMessage codec seven fs)
fail_once-SameMessage_example = fail_once-SameMessage codec 10 message seven refl

-- The pending message is `[]`.
abbrev no_object : Text
no_object = json (arr no_items)

abbrev poisoned : Lists
poisoned pending = no_object ∷ []
poisoned processing = []
poisoned dlq = []

-- It is claimed, and stays in the processing list.
abbrev after_claim : Lists
after_claim = write codec processing (no_object ∷ []) (write codec pending [] poisoned)

abbrev starting : Lists → Consumer server
starting lists' = record { store = lists'; inflight = [] }

abbrev methods : Methods
methods = record { has_reclaim = true; has_ack = true; has_nack = true }

-- The first reclaim fails, the second does not.
abbrev attempts : List Attempt
attempts =
    record { stop_before = false; succeeds = false; stop_in_wait = false }
    ∷ record { stop_before = false; succeeds = true; stop_in_wait = false }
    ∷ []

-- Job 7 succeeds, job 8 fails, a pop raises, and the stop event is set when job 9 is popped.
abbrev turns : List Turn
turns =
    record { stop_before = false; popped = job 7; stop_after = false; succeeds = true }
    ∷ record { stop_before = false; popped = job 8; stop_after = false; succeeds = false }
    ∷ record { stop_before = false; popped = pop_raises false; stop_after = false; succeeds = true }
    ∷ record { stop_before = false; popped = job 9; stop_after = true; succeeds = true }
    ∷ []

run_consumer_answers_example : answered (run_consumer methods attempts turns) ≡ 7 ∷ 8 ∷ 9 ∷ []
unfolding reclaim_with_retry
run_consumer_answers_example = run_consumer_answers methods attempts turns refl refl refl
