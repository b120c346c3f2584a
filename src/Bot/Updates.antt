-- ===== src/Bot/Updates.antt =====
-- The deduplication of updates of telegram-bot/main.py: the claims of _RedisStateStore, the functions
-- _claim_update_id, _complete_update_id and _forget_update_id over it and the local cache, and
-- _process_update around the handler of an update, which is a parameter. The keys in Redis do not expire
-- here; the entries of the local cache do.
pub mod Local
pub mod Shared
use site_parser_for_freelans.Common.{
  ℕ, Bool, true, false, ◌&&◌, Option, none, some, List, [], ◌∷◌, ltb, if◌then◌else◌,
}
use site_parser_for_freelans.Bot.TtlCache.{Entry, TtlCache, set, pop, prune, find}
use site_parser_for_freelans.Bot.Store.{
  UpdateState, claimed, inflight, done, queued, processing, foreign,
}
use site_parser_for_freelans.Bot.Texts.{Texts}

-- `_UPDATE_DONE if state == _UPDATE_DONE else _UPDATE_INFLIGHT`.
unfoldable pub known_state : Option UpdateState → UpdateState
known_state (some done) = done
known_state (some _) = inflight
known_state none = inflight

-- `_UPDATE_INFLIGHT if result == _UPDATE_CLAIMED else result`.
unfoldable pub cached_state : UpdateState → UpdateState
cached_state claimed = inflight
cached_state x = x

-- How the handler ends: it returns whether it handled the update, or raises.
pub data Handled : Type 0 where
  returns : Bool → Handled
  keyboard_interrupt exception : Handled

pub data Processed : Type 0 where
  returned : Bool → Processed
  interrupted : Processed

module _ (server : Texts UpdateState) where
  -- `_RedisStateStore.claim_update_id`; `none` is an exception.
  unfoldable pub claim_in_store :
      ℕ → Option (Bool × server.Store) → server.Store → server.Store × Option UpdateState
  unfolding known_state
  claim_in_store i none s = (s, none)
  claim_in_store i (some (true, s')) s = (s', some claimed)
  claim_in_store i (some (false, s')) s =
      if server.reachable s' then (s', some (known_state (server.holds s' i))) else (s', none)

  unfoldable pub claim_update_id : ℕ → server.Store → server.Store × Option UpdateState
  unfolding claim_in_store
  claim_update_id i s = claim_in_store i (server.set_nx i inflight s) s

  -- The rest of a method after its only command, of which a failure is ignored.
  unfoldable pub sent : Option server.Store → server.Store → server.Store
  sent none s = s
  sent (some s') s = s'

  unfoldable pub complete_in_store : ℕ → Option server.Store → Option server.Store
  unfolding sent
  complete_in_store i none = none
  complete_in_store i (some s) = some (sent (server.set i done s) s)

  unfoldable pub forget_in_store : ℕ → Option server.Store → Option server.Store
  unfolding sent
  forget_in_store i none = none
  forget_in_store i (some s) = some (sent (server.delete i s) s)

  -- A process of the bot: `_STATE_STORE`, if there is one, and `_PROCESSED_UPDATE_CACHE`.
  pub record Bot : Type 0 where
    pub state_store : Option server.Store
    pub processed : TtlCache UpdateState

module _ {server : Texts UpdateState} where
  unfoldable pub set_processed_update_state : ℕ → ℕ → UpdateState → Bot server → Bot server
  unfolding set
  set_processed_update_state now i x b = record b { processed = set now i x b.processed }

  -- The claim in the local cache.
  unfoldable pub claim_found :
      ℕ → ℕ → Option (Entry UpdateState) → Bot server → Bot server × UpdateState
  unfolding set_processed_update_state
  claim_found now i none b = (set_processed_update_state now i inflight b, claimed)
  claim_found now i (some e) b =
      if ltb now e.expires_at
      then (b, e.value)
      else (set_processed_update_state now i inflight b, claimed)

  unfoldable pub claim_locally : ℕ → ℕ → Bot server → Bot server × UpdateState
  unfolding prune find claim_found
  claim_locally now i b =
      let pruned = prune now b.processed.items in
      claim_found now i (find i pruned)
        (record b { processed = record b.processed { items = pruned } })

  -- `_claim_update_id` after the claim in the store.
  unfoldable pub claim_after :
      ℕ → ℕ → server.Store × Option UpdateState → Bot server → Bot server × UpdateState
  unfolding set_processed_update_state cached_state claim_locally
  claim_after now i (s, none) b = claim_locally now i (record b { state_store = some s })
  claim_after now i (s, some r) b =
      (set_processed_update_state now i (cached_state r) (record b { state_store = some s }), r)

  unfoldable pub claim_with : ℕ → ℕ → Option server.Store → Bot server → Bot server × UpdateState
  unfolding claim_update_id claim_after claim_locally
  claim_with now i none b = claim_locally now i b
  claim_with now i (some s) b = claim_after now i (claim_update_id server i s) b

  unfoldable pub claim : ℕ → ℕ → Bot server → Bot server × UpdateState
  unfolding claim_with
  claim now i b = claim_with now i b.state_store b

  unfoldable pub complete : ℕ → ℕ → Bot server → Bot server
  unfolding set_processed_update_state complete_in_store
  complete now i b =
      let marked = set_processed_update_state now i done b in
      record marked { state_store = complete_in_store server i marked.state_store }

  unfoldable pub forget : ℕ → Bot server → Bot server
  unfolding pop forget_in_store
  forget i b = record {
    processed = pop i b.processed;
    state_store = forget_in_store server i b.state_store;
  }

  -- The ends of `_process_update`, for the id that was claimed, if one was.
  unfoldable pub finish : ℕ → Option ℕ → Handled → Bot server → Bot server × Processed
  unfolding complete forget
  finish now none (returns x) b = (b, returned true)
  finish now none keyboard_interrupt b = (b, interrupted)
  finish now none exception b = (b, returned false)
  finish now (some i) (returns x) b = (complete now i b, returned true)
  finish now (some i) keyboard_interrupt b = (forget i b, interrupted)
  finish now (some i) exception b = (forget i b, returned false)

  module _ {World : Type 0} (handle_update : World → World × Handled) where
    -- The handler, in a world of everything but the claims, and what follows it.
    unfoldable pub handle : ℕ → Option ℕ → World → Bot server → World × Bot server × Processed
    unfolding finish
    handle later claim_of w b =
        let ran = handle_update w in
        let end = finish later claim_of ran.1 b in (ran.0, end.0, end.1)

    unfoldable pub handle_claimed :
        ℕ → ℕ → World → Bot server × UpdateState → World × Bot server × Processed
    unfolding handle
    handle_claimed later i w (b, done) = (w, b, returned true)
    handle_claimed later i w (b, inflight) = (w, b, returned false)
    handle_claimed later i w (b, x) = handle later (some i) w b

    -- `_process_update` of an update with this id, if it has one, at the times `now` and `later`.
    unfoldable pub process_update :
        Bool → ℕ → ℕ → Option ℕ → World → Bot server → World × Bot server × Processed
    unfolding handle_claimed handle claim
    process_update true now later (some i) w b = handle_claimed later i w (claim now i b)
    process_update true now later none w b = handle later none w b
    process_update false now later i w b = handle later none w b
