-- ===== src/Queue.antt =====
-- The reliable queue consumer of ai-service/src/ai_service/adapter/redis/queue.py. The classes in
-- user_embed_queue.py and ac_batch_queue.py are the same code around another payload, so the payload
-- parser is an argument here, and the module Payload gives the three parsers and classes.
-- Each method takes the consumer, and returns the consumer with a result or an exception.
pub mod Lease
pub mod Payload
pub mod Poison
pub mod Retry
pub mod Conserve
pub mod Reclaim
pub mod Classes
pub mod Memory
use site_parser_for_freelans.Common.{
  ℕ, suc, Bool, Option, none, some, List, [], ◌∷◌, true, false, if◌then◌else◌,
}
use site_parser_for_freelans.Common.Int.{pos}
use site_parser_for_freelans.Json.{
  Value, real, obj, finite, type_error, connection_error, Outcome, ok, raises, set,
}
use site_parser_for_freelans.Redis.{
  Codec, Redis, Command, pending, processing, dlq, lrem, lpush, rpush,
}
use Lease.{
  Entry, Parsed, discard, message, fails, append_inflight, peek_inflight, drop_inflight,
  all_inflight, prepare_nack_payload, keeps_lease,
}

-- A consumer, as the process that runs it sees it: the server and the deques.
pub record Consumer {Raw : Type 0} {codec : Codec Raw} (server : Redis codec) : Type 0 where
  pub store : server.Store
  pub inflight : List (ℕ × List (Entry Raw))

module _ {Raw : Type 0} {codec : Codec Raw} {server : Redis codec} {A : Type 0} where
  abbrev pub go_on :
      Option server.Store
      → Consumer server
      → (Consumer server → Consumer server × Outcome A)
      → Consumer server × Outcome A
  go_on none c next = (c, raises connection_error)
  go_on (some store) c next = next (record c { store = store })

  -- Sends a transaction, and goes on with the new store.
  abbrev pub send :
      List (Command Raw)
      → Consumer server
      → (Consumer server → Consumer server × Outcome A)
      → Consumer server × Outcome A
  send cs c next = go_on (server.execute cs c.store) c next

  -- `_ack_raw`, and then the rest of the method.
  abbrev pub ack_raw :
      Raw
      → Consumer server
      → (Consumer server → Consumer server × Outcome A)
      → Consumer server × Outcome A
  ack_raw raw = send (lrem processing raw ∷ [])

-- `pop_blocking`, of a class with this payload parser and this key of a message.
module _ {Raw : Type 0} {codec : Codec Raw} {server : Redis codec} {A : Type 0}
    (parse : Value → Parsed A) (key : A → ℕ) where
  -- Puts the time of the claim into the payload, in Redis and in the deque.
  unfoldable pub claim :
      ℕ → Raw → Value → A → List ℕ → List ℕ → Consumer server → Consumer server × Outcome (Option A)
  claim now payload (obj fs) a trace_id traceparent c =
      let stamped = codec.dumps (obj (set "_claimed_at" (real (finite (pos now))) fs)) in
      send (lrem processing payload ∷ lpush processing stamped ∷ []) c λ c'.
        let entry : Entry Raw = record {
          raw = stamped;
          trace_id = trace_id;
          traceparent = traceparent;
        } in
        (record c' { inflight = append_inflight (key a) entry c'.inflight }, ok (some a))
  claim now payload other a trace_id traceparent c = (c, raises type_error)

  unfoldable pub take_payload : ℕ → Raw → Consumer server → Consumer server × Outcome (Option A)
  unfolding claim
  take_payload now payload c = elim (codec.loads payload) [
    | none ↦ ack_raw payload c λ c'. (c', ok none)
    | some v ↦ elim (parse v) [
      | discard ↦ ack_raw payload c λ c'. (c', ok none)
      | fails e ↦ (c, raises e)
      | message a trace_id traceparent ↦ claim now payload v a trace_id traceparent c
    ]
  ]

  unfoldable pub pop_blocking : ℕ → Consumer server → Consumer server × Outcome (Option A)
  unfolding take_payload
  pop_blocking now c = elim (server.brpoplpush c.store) [
    | none ↦ (c, raises connection_error)
    | some (none, store) ↦ (record c { store = store }, ok none)
    | some (some payload, store) ↦ take_payload now payload (record c { store = store })
  ]

module _ {Raw : Type 0} {codec : Codec Raw} {server : Redis codec} where
  unfoldable pub ack : ℕ → Consumer server → Consumer server × Outcome (Unit {0})
  unfolding peek_inflight drop_inflight
  ack id c = elim (peek_inflight id c.inflight) [
    | none ↦ (c, ok tt)
    | some e ↦
        ack_raw e.raw c
          λ c'. (record c' { inflight = drop_inflight codec id e.raw c'.inflight }, ok tt)
  ]

  unfoldable pub trace_id : ℕ → Consumer server → List ℕ
  unfolding peek_inflight
  trace_id id c = elim (peek_inflight id c.inflight) [ none ↦ [] | some e ↦ e.trace_id ]

  unfoldable pub traceparent : ℕ → Consumer server → List ℕ
  unfolding peek_inflight
  traceparent id c = elim (peek_inflight id c.inflight) [ none ↦ [] | some e ↦ e.traceparent ]

  -- The part of `nack` after the entry is found, which `nack_all_inflight` repeats.
  unfoldable pub push_back : ℕ → Raw → Consumer server → Consumer server × Outcome (Unit {0})
  unfolding prepare_nack_payload drop_inflight
  push_back id raw c = elim (prepare_nack_payload codec raw) [
    | raises e ↦ (c, raises e)
    | ok (out_raw, to_dlq) ↦
        let target_queue = if to_dlq then dlq else pending in
        send (lrem processing raw ∷ rpush target_queue out_raw ∷ []) c
          λ c'. (record c' { inflight = drop_inflight codec id raw c'.inflight }, ok tt)
  ]

  unfoldable pub nack : ℕ → Consumer server → Consumer server × Outcome (Unit {0})
  unfolding peek_inflight push_back
  nack id c = elim (peek_inflight id c.inflight) [
    | none ↦ (c, ok tt)
    | some e ↦ push_back id e.raw c
  ]

  -- The body of the loop of `reclaim_stuck`, by the outcome of its `try` block; `next` is the rest
  -- of the loop.
  unfoldable pub reclaim_one :
      Outcome Bool
      → Raw
      → Consumer server
      → (Consumer server → Consumer server × Outcome (Unit {0}))
      → Consumer server × Outcome (Unit {0})
  reclaim_one (raises e) raw c next = (c, raises e)
  reclaim_one (ok true) raw c next = next c
  reclaim_one (ok false) raw c next = send (lrem processing raw ∷ rpush pending raw ∷ []) c next

  unfoldable pub reclaim_each :
      ℕ → ℕ → List Raw → Consumer server → Consumer server × Outcome (Unit {0})
  unfolding reclaim_one
  reclaim_each threshold now [] c = (c, ok tt)
  reclaim_each threshold now (raw ∷ items) c =
      reclaim_one (keeps_lease codec threshold now raw) raw c (reclaim_each threshold now items)

  unfoldable pub reclaim_stuck : ℕ → ℕ → Consumer server → Consumer server × Outcome (Unit {0})
  unfolding reclaim_each
  reclaim_stuck threshold now c =
      if server.reachable c.store
      then reclaim_each threshold now (server.lists c.store processing) c
      else (c, raises connection_error)

  unfoldable pub push_back_all : ℕ → List (ℕ × Raw) → Consumer server → Consumer server × Outcome ℕ
  unfolding push_back
  push_back_all requeued [] c = (c, ok requeued)
  push_back_all requeued ((id, raw) ∷ rest) c =
      let (c', r) = push_back id raw c in
      elim r [ raises e ↦ (c', raises e) | ok _ ↦ push_back_all (suc requeued) rest c' ]

  unfoldable pub nack_all_inflight : Consumer server → Consumer server × Outcome ℕ
  unfolding push_back_all all_inflight
  nack_all_inflight c = push_back_all 0 (all_inflight c.inflight) c
