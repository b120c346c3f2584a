-- ===== src/Tests/Inboxes.antt =====
-- The webhook inbox on a server in memory.
use site_parser_for_freelans.Common.{
  ℕ, ◌≡◌, ◌==◌, refl, true, false, Option, none, some, List, [], ◌∷◌, if◌then◌else◌, arith,
  Bool-cases, inl, inr,
}
use site_parser_for_freelans.Common.Copies.{copies}
use site_parser_for_freelans.Bot.TtlCache.{TtlCache}
use site_parser_for_freelans.Bot.Inbox.{Bot, Answer, succeeds, fails}
use site_parser_for_freelans.Bot.Store.{
  View, UpdateState, queued, processing, lrem_handling, rpush_inbox, set_state, set_payload,
  delete_state, delete_payload, lpush_inbox, Server, Command, apply,
}
use site_parser_for_freelans.Bot.Inbox.Memory.{server, executed, move, move_empty, move-some}
use site_parser_for_freelans.Bot.Inbox.Tracking.{Tracked, in_inbox, in_handling, held}
use site_parser_for_freelans.Bot.Inbox.History.{Call, deliver, turn, restart, state_expires}
use site_parser_for_freelans.Bot.Webhook.{Request, do_post, Answered, do_post-Promise}

abbrev no_updates : View ℕ
no_updates = record { state = λ i. none; payload = λ i. none; inbox = []; handling = [] }

abbrev cache : TtlCache UpdateState
cache = record { maxsize = 10; ttl = 60; items = [] }

abbrev bot : Bot server
bot = record { store = no_updates; processed = cache }

-- Update 7 with the payload 70 waits.
abbrev seven_queued : View ℕ
seven_queued = record {
  state = λ i. if i == 7 then some queued else none;
  payload = λ i. if i == 7 then some 70 else none;
  inbox = 7 ∷ [];
  handling = [];
}

abbrev waiting_bot : Bot server
waiting_bot = record { store = seven_queued; processed = cache }

abbrev calls : List (Call ℕ ℕ)
calls =
    state_expires 9 ∷ deliver 1 7 70 ∷ turn 2 (λ u. fails) ∷ restart ∷ turn 3 (λ u. succeeds) ∷ []

abbrev one_turn : List (ℕ × (ℕ → Answer))
one_turn = (5, λ u. succeeds) ∷ []

abbrev failing_turns : List (ℕ × (ℕ → Answer))
failing_turns = (5, λ u. fails) ∷ (6, λ u. fails) ∷ []

abbrev request : Request ℕ
request = record {
  is_webhook_path = true;
  has_secret = true;
  content_length = some 3;
  body = some 70;
}

do_post-Promise_example :
    Answered {U = ℕ} server
      (λ p. some p)
      (λ p. some 7)
      request
      no_updates
      (do_post server (λ p. some p) (λ p. some 7) 1000 1 request bot).0.store
      (do_post server (λ p. some p) (λ p. some 7) 1000 1 request bot).1
do_post-Promise_example = do_post-Promise server (λ p. some p) (λ p. some 7) 1000 1 request bot

-- A server whose connection breaks at RPUSH.
abbrev carry : Command ℕ → View ℕ → Option (View ℕ)
carry (rpush_inbox i) v = none
carry c v = some (apply c v)

carried : (c : Command ℕ) (s s' : View ℕ) → carry c s ≡ some s' → s' ≡ apply c s
carried (rpush_inbox i) s s' h = cc
carried (set_state i x) s s' h = executed (set_state i x) s s' h
carried (set_payload i p) s s' h = executed (set_payload i p) s s' h
carried (delete_state i) s s' h = executed (delete_state i) s s' h
carried (delete_payload i) s s' h = executed (delete_payload i) s s' h
carried (lpush_inbox i) s s' h = executed (lpush_inbox i) s s' h
carried (lrem_handling i) s s' h = executed (lrem_handling i) s s' h

abbrev breaking : Server ℕ
breaking = record {
  Store = View ℕ;
  view = λ v. v;
  reachable = λ v. true;
  execute = carry;
  after_failure = λ c v. v;
  brpoplpush = λ v. some (move v);
  after_failed_move = λ v. v;
  failure_view = λ c v. inl refl;
  execute_view = carried;
  brpoplpush_empty = move_empty;
  brpoplpush_moved = move-some;
}

-- Update 7 is being processed.
abbrev seven_taken : View ℕ
seven_taken = record {
  state = λ i. if i == 7 then some processing else none;
  payload = λ i. if i == 7 then some 70 else none;
  inbox = [];
  handling = 7 ∷ [];
}

seven_taken-Tracked : Tracked seven_taken
unfolding in_inbox in_handling held copies
seven_taken-Tracked i = elim (Bool-cases (i == 7)) [
  | inl e ↦
      let flipped : (7 == i) ≡ true = ground (arith, e) in
      record { inboxed = rw e refl; taken = rw (e, flipped) refl; kept = rw e (omega arith) }
  | inr e ↦
      let flipped : (7 == i) ≡ false = ground (arith, e) in
      record { inboxed = rw e refl; taken = rw (e, flipped) refl; kept = rw e (omega arith) }
]

abbrev seven_gone : View ℕ
seven_gone = apply (lrem_handling 7) seven_taken
