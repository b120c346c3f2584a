-- ===== src/Bot/Store.antt =====
-- The methods of _RedisStateStore of telegram-bot/main.py for the webhook inbox of one shard. Redis is
-- a parameter. No key expires during a call: Bot.Inbox.History has the expiry of keys between the calls,
-- as events of its own. The calls of a shard follow each other. Ids are
-- numbers, as only `str(update_id)` is pushed.
use site_parser_for_freelans.Common.{
  ℕ, ◌+◌, ◌≡◌, ◌⊎◌, Bool, true, false, ◌==◌, Option, none, some, List, [], ◌∷◌, ◌++◌, if◌then◌else◌,
}
use site_parser_for_freelans.Bot.Texts.{put}

-- The text at a `processed-update` key; `foreign` is any other text.
pub data UpdateState : Type 0 where
  claimed inflight done queued processing foreign : UpdateState

-- What Redis holds for a shard: the texts at the keys of the updates, and the two lists.
pub record View (P : Type 0) : Type 0 where
  pub state : ℕ → Option UpdateState
  pub payload : ℕ → Option P
  pub inbox : List ℕ
  pub handling : List ℕ

pub data Command (P : Type 0) : Type 0 where
  set_state : ℕ → UpdateState → Command P
  set_payload : ℕ → P → Command P
  delete_state delete_payload : ℕ → Command P
  lpush_inbox rpush_inbox : ℕ → Command P
  lrem_handling : ℕ → Command P

-- `LREM key 0 i` removes every entry that is equal to `i`.
unfoldable pub without : ℕ → List ℕ → List ℕ
without i [] = []
without i (j ∷ js) = let rest = without i js in if j == i then rest else j ∷ rest

module _ {P : Type 0} where
  unfoldable pub apply : Command P → View P → View P
  unfolding without
  apply (set_state i x) v = record v { state = put i (some x) v.state }
  apply (set_payload i p) v = record v { payload = put i (some p) v.payload }
  apply (delete_state i) v = record v { state = put i none v.state }
  apply (delete_payload i) v = record v { payload = put i none v.payload }
  apply (lpush_inbox i) v = record v { inbox = i ∷ v.inbox }
  apply (rpush_inbox i) v = record v { inbox = v.inbox ++ i ∷ [] }
  apply (lrem_handling i) v = record v { handling = without i v.handling }

-- A Redis server. A call that raises is `none`: its connection broke before the command was carried
-- out, or after that, so that only the reply was lost.
pub record Server (P : Type 0) : Type 1 where
  pub Store : Type 0
  pub view : Store → View P
  -- Whether a reading call reaches the server.
  pub reachable : Store → Bool
  pub execute : Command P → Store → Option Store
  pub after_failure : Command P → Store → Store
  pub brpoplpush : Store → Option (Option ℕ × Store)
  pub after_failed_move : Store → Store
  pub execute_view :
      (c : Command P) (s s' : Store) → execute c s ≡ some s' → view s' ≡ apply c (view s)
  pub failure_view :
      (c : Command P) (s : Store)
      → (view (after_failure c s) ≡ view s) ⊎ (view (after_failure c s) ≡ apply c (view s))
  pub brpoplpush_empty :
      (s s' : Store) → brpoplpush s ≡ some (none, s') → (view s).inbox ≡ [] × view s' ≡ view s
  pub brpoplpush_moved :
      (i : ℕ) (s s' : Store)
      → brpoplpush s ≡ some (some i, s')
      → (rest : List ℕ) × ((view s).inbox ≡ rest ++ i ∷ [])
        × (view s' ≡ record (view s) { inbox = rest; handling = i ∷ (view s).handling })

-- `existing in {…}`, of the text at a key, which is empty if there is none.
unfoldable pub is_known : Option UpdateState → Bool
is_known (some done) = true
is_known (some queued) = true
is_known (some processing) = true
is_known (some inflight) = true
is_known (some claimed) = false
is_known (some foreign) = false
is_known none = false

pub data Reply : Type 0 where
  enqueued duplicate raised : Reply

module _ {P : Type 0} (server : Server P) where
  -- The commands one by one, and whether all of them were carried out.
  unfoldable pub perform : List (Command P) → server.Store → server.Store × Bool
  perform [] s = (s, true)
  perform (c ∷ cs) s = elim (server.execute c s) [
    | none ↦ (server.after_failure c s, false)
    | some s' ↦ perform cs s'
  ]

  unfoldable pub reply_with : Reply → server.Store × Bool → server.Store × Reply
  reply_with r (s, true) = (s, r)
  reply_with r (s, false) = (s, raised)

  unfoldable pub enqueue_webhook_update : ℕ → P → server.Store → server.Store × Reply
  unfolding perform reply_with is_known
  enqueue_webhook_update i p s =
      let send = perform (set_payload i p ∷ lpush_inbox i ∷ set_state i queued ∷ []) s in
      if server.reachable s
      then if is_known ((server.view s).state i) then (s, duplicate) else reply_with enqueued send
      else (s, raised)

  unfoldable pub ack_webhook_update : ℕ → server.Store → server.Store × Bool
  unfolding perform
  ack_webhook_update i = perform (lrem_handling i ∷ delete_payload i ∷ set_state i done ∷ [])

  unfoldable pub requeue_webhook_update : ℕ → server.Store → server.Store × Bool
  unfolding perform
  requeue_webhook_update i = perform (lrem_handling i ∷ rpush_inbox i ∷ set_state i queued ∷ [])

  -- An id of the processing list at a restart: with its payload it goes back to the inbox.
  unfoldable pub recover_one : ℕ → Option P → server.Store → server.Store × Bool
  unfolding perform
  recover_one i none = perform (lrem_handling i ∷ delete_state i ∷ [])
  recover_one i (some p) = perform (lrem_handling i ∷ rpush_inbox i ∷ set_state i queued ∷ [])

  unfoldable pub counts : Option P → ℕ
  counts none = 0
  counts (some p) = 1

  -- Goes on when all commands were carried out.
  unfoldable pub and_then :
      {A : Type 0}
      → server.Store × Bool
      → (server.Store → server.Store × Option A)
      → server.Store × Option A
  and_then (s, false) next = (s, none)
  and_then (s, true) next = next s

  -- The loop of `recover_webhook_processing`, with the number of updates given back.
  unfoldable pub recover_each : List ℕ → ℕ → server.Store → server.Store × Option ℕ
  unfolding recover_one counts and_then
  recover_each [] n s = (s, some n)
  recover_each (i ∷ is) n s =
      let payload = (server.view s).payload i in
      let rest = and_then (recover_one i payload s) (λ t. recover_each is (n + counts payload) t) in
      if server.reachable s then rest else (s, none)

  unfoldable pub recover_webhook_processing : server.Store → server.Store × Option ℕ
  unfolding recover_each
  recover_webhook_processing s =
      let recovered = recover_each (server.view s).handling 0 s in
      if server.reachable s then recovered else (s, none)
