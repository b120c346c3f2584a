-- ===== src/Bot/Inbox.antt =====
-- The webhook inbox of telegram-bot/main.py: _enqueue_webhook_update,
-- _process_one_webhook_inbox_update and _run_webhook_inbox_worker around the methods of the store.
pub mod Commands
pub mod Tracking
pub mod History
pub mod Order
pub mod Interrupted
pub mod Memory
use site_parser_for_freelans.Common.{
  ℕ, ◌+◌, ◌≡◌, Bool, true, false, ◌==◌, Option, none, some, List, [], ◌∷◌, ◌++◌, if◌then◌else◌,
}
use site_parser_for_freelans.Bot.TtlCache.{TtlCache, set, pop}
use site_parser_for_freelans.Bot.Store.{
  UpdateState, claimed, inflight, done, queued, processing, foreign, View, Command, set_state,
  set_payload, delete_state, delete_payload, lpush_inbox, rpush_inbox, lrem_handling, without,
  apply, Server, is_known, Reply, enqueued, duplicate, raised, perform, reply_with,
  enqueue_webhook_update, ack_webhook_update, requeue_webhook_update, recover_one, counts, and_then,
  recover_each, recover_webhook_processing,
}

-- What a call of _process_one_webhook_inbox_update did: it found nothing, dropped an id without a
-- payload or with a payload that is no JSON, handled the update, gave it back, was stopped in the
-- middle of the handler, or ended with an exception of Redis.
pub data Event (U : Type 0) : Type 0 where
  empty broken : Event U
  missing invalid : ℕ → Event U
  handled given_back cut_off : ℕ → U → Event U

-- How the handler of an update ends: _process_update returns True or False, or the process dies.
pub data Answer : Type 0 where
  succeeds fails dies : Answer

-- The process: the server and the local cache of the states of updates.
pub record Bot {P : Type 0} (server : Server P) : Type 0 where
  pub store : server.Store
  pub processed : TtlCache UpdateState

module _ {P U : Type 0} (server : Server P) (loads : P → Option U) where
  -- `_set_processed_update_state`.
  unfoldable pub mark : ℕ → ℕ → UpdateState → Bot server → Bot server
  unfolding set
  mark now i x b = record b { processed = set now i x b.processed }

  -- `_complete_update_id` and `_forget_update_id`, which ignore a failure of Redis.
  unfoldable pub complete : ℕ → ℕ → Bot server → Bot server
  unfolding mark perform
  complete now i b =
      let marked = mark now i done b in
      record marked { store = (perform server (set_state i done ∷ []) b.store).0 }

  unfoldable pub forget : ℕ → Bot server → Bot server
  unfolding pop perform
  forget i b = record {
    store = (perform server (delete_state i ∷ []) b.store).0;
    processed = pop i b.processed;
  }

  -- `_enqueue_webhook_update`, of an update with an id and its payload.
  unfoldable pub marks_after :
      ℕ → ℕ → server.Store × Reply → TtlCache UpdateState → Bot server × Bool
  unfolding mark
  marks_after now i (s, enqueued) c =
      (mark now i inflight (record { store = s; processed = c }), true)
  marks_after now i (s, duplicate) c = (mark now i done (record { store = s; processed = c }), true)
  marks_after now i (s, raised) c = (record { store = s; processed = c }, false)

  unfoldable pub enqueue_update : ℕ → ℕ → P → Bot server → Bot server × Bool
  unfolding enqueue_webhook_update marks_after
  enqueue_update now i p b =
      marks_after now i (enqueue_webhook_update server i p b.store) b.processed

  unfoldable pub ends : Event U → server.Store × Bool → TtlCache UpdateState → Bot server × Event U
  ends e (s, true) c = (record { store = s; processed = c }, e)
  ends e (s, false) c = (record { store = s; processed = c }, broken)

  -- What follows the handler.
  unfoldable pub settle : ℕ → ℕ → U → Answer → Bot server → Bot server × Event U
  unfolding complete ack_webhook_update requeue_webhook_update ends mark
  settle now i u dies b = (b, cut_off i u)
  settle now i u succeeds b =
      let c = complete now i b in
      ends (handled i u) (ack_webhook_update server i c.store) c.processed
  settle now i u fails b =
      mark_given_back (ends (given_back i u) (requeue_webhook_update server i b.store) b.processed)
    where
      mark_given_back : Bot server × Event U → Bot server × Event U
      mark_given_back (c, given_back j w) = (mark now i inflight c, given_back j w)
      mark_given_back (c, e) = (c, e)

  -- An update whose payload was read, the rest of `claim_next_webhook_update` first.
  unfoldable pub process_claimed :
      ℕ
      → ℕ
      → (U → Answer)
      → Option U
      → server.Store × Bool
      → TtlCache UpdateState
      → Bot server × Event U
  unfolding settle ends forget ack_webhook_update
  process_claimed now i handler u (s, false) c = (record { store = s; processed = c }, broken)
  process_claimed now i handler (some u) (s, true) c =
      settle now i u (handler u) (record { store = s; processed = c })
  process_claimed now i handler none (s, true) c =
      forget_invalid (ends (invalid i) (ack_webhook_update server i s) c)
    where
      forget_invalid : Bot server × Event U → Bot server × Event U
      forget_invalid (b, invalid j) = (forget j b, invalid j)
      forget_invalid (b, e) = (b, e)

  -- `claim_next_webhook_update` after brpoplpush.
  unfoldable pub process_moved :
      ℕ → (U → Answer) → Option (Option ℕ × server.Store) → Bot server → Bot server × Event U
  unfolding process_claimed perform ends
  process_moved now handler none b = (record b { store = server.after_failed_move b.store }, broken)
  process_moved now handler (some (none, s)) b = (record b { store = s }, empty)
  process_moved now handler (some (some i, s)) b =
      if server.reachable s
      then read ((server.view s).payload i)
      else (record b { store = s }, broken)
    where
      read : Option P → Bot server × Event U
      read none =
          ends (missing i) (perform server (lrem_handling i ∷ delete_state i ∷ []) s) b.processed
      read (some p) =
          process_claimed now i handler (loads p) (perform server (set_state i processing ∷ []) s)
            b.processed

  unfoldable pub process_one_webhook_inbox_update :
      ℕ → (U → Answer) → Bot server → Bot server × Event U
  unfolding process_moved
  process_one_webhook_inbox_update now handler b =
      process_moved now handler (server.brpoplpush b.store) b

  -- The loop of `_run_webhook_inbox_worker` until the stop event, with the time and the handler of
  -- each iteration, and what each iteration did.
  unfoldable pub turns : List (ℕ × (U → Answer)) → Bot server → Bot server × List (Event U)
  unfolding process_one_webhook_inbox_update
  turns [] b = (b, [])
  turns ((now, handler) ∷ hs) b =
      let first = process_one_webhook_inbox_update now handler b in
      let rest = turns hs first.0 in (rest.0, first.1 ∷ rest.1)

  -- The worker; `none` is an exception of the recovery, which ends it.
  unfoldable pub run_webhook_inbox_worker :
      List (ℕ × (U → Answer)) → Bot server → Bot server × Option (List (Event U))
  unfolding recover_webhook_processing turns
  run_webhook_inbox_worker hs b = start (recover_webhook_processing server b.store)
    where
      start : server.Store × Option ℕ → Bot server × Option (List (Event U))
      start (s, none) = (record b { store = s }, none)
      start (s, some n) = let ran = turns hs (record b { store = s }) in (ran.0, some ran.1)
