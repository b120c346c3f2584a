-- ===== src/Bot/Inbox/History.antt =====
-- Histories of the webhook inbox of a shard.
use site_parser_for_freelans.Common.{
  ℕ, ◌+◌, ◌≤◌, ◌≡◌, refl, sym, ap, subst, ◌∙◌, inl, inr, true, Option, none, some, List, [], ◌∷◌,
  Bool-cases, arith,
}
use site_parser_for_freelans.Bot.TtlCache.{TtlCache}
use site_parser_for_freelans.Bot.Inbox.{
  Answer, succeeds, fails, dies, Bot, mark, complete, forget, marks_after, enqueue_update, ends,
  settle, process_claimed, process_moved, process_one_webhook_inbox_update,
}
use site_parser_for_freelans.Bot.Store.{
  View, Command, UpdateState, done, queued, processing, apply, is_known, set_state, set_payload,
  delete_state, delete_payload, lpush_inbox, rpush_inbox, lrem_handling, Server, Reply, enqueued,
  duplicate, raised, perform, enqueue_webhook_update, ack_webhook_update, requeue_webhook_update,
  recover_one, and_then, recover_each, recover_webhook_processing,
}
use site_parser_for_freelans.Common.Copies.{copies, copies-append}
use site_parser_for_freelans.Bot.Inbox.Commands.{copies-without, apply_all, IsReliable, perform_all}
use site_parser_for_freelans.Bot.Inbox.Tracking.{
  has_payload, Tracked, put_eq, in_handling, enqueue-Tracked, claim-Tracked, finish-Tracked,
  drop-Tracked, give_back-Tracked, state_expires-Tracked, payload_expires-Tracked,
}

-- What happens to a shard: an update is delivered, a worker takes its turn, it starts anew, or the key
-- with the state or with the payload of an update reaches the end of its time to live.
pub data Call (P : Type 0) (U : Type 0) : Type 0 where
  deliver : ℕ → ℕ → P → Call P U
  turn : ℕ → (U → Answer) → Call P U
  restart : Call P U
  state_expires payload_expires : ℕ → Call P U

module _ {P U : Type 0} (server : Server P) (loads : P → Option U) where
  unfoldable pub step : Call P U → Bot server → Bot server
  unfolding enqueue_update process_one_webhook_inbox_update recover_webhook_processing perform
  step (deliver now i p) b = (enqueue_update server loads now i p b).0
  step (turn now handler) b = (process_one_webhook_inbox_update server loads now handler b).0
  step restart b = record b { store = (recover_webhook_processing server b.store).0 }
  step (state_expires i) b = record b { store = (perform server (delete_state i ∷ []) b.store).0 }
  step (payload_expires i) b = record b {
    store = (perform server (delete_payload i ∷ []) b.store).0;
  }

  unfoldable pub run : List (Call P U) → Bot server → Bot server
  unfolding step
  run [] b = b
  run (c ∷ cs) b = run cs (step c b)

  -- Nothing of an update expires while it is in one of the lists.
  abbrev pub Fits : Call P U → View P → Type 0
  Fits (state_expires i) v = copies i v.inbox + copies i v.handling ≡ 0
  Fits (payload_expires i) v = copies i v.inbox + copies i v.handling ≡ 0
  Fits _ v = Unit

  unfoldable pub Timely : List (Call P U) → Bot server → Type 0
  Timely [] b = Unit
  Timely (c ∷ cs) b = Fits c (server.view b.store) × Timely cs (step c b)

module _ {P U : Type 0} {server : Server P} (loads : P → Option U) (up : IsReliable server) where
  deliver-Tracked :
      (now i : ℕ) (p : P) (b : Bot server)
      → Tracked (server.view b.store)
      → Tracked (server.view (enqueue_update server loads now i p b).0.store)
  unfolding enqueue_update enqueue_webhook_update
  deliver-Tracked now i p b t = elim (Bool-cases (is_known ((server.view b.store).state i))) [
    | inl known ↦ rw (up.reads b.store, known) (marked b.store duplicate t)
    | inr new ↦
        let (s, e, shows) =
          perform_all server up (set_payload i p ∷ lpush_inbox i ∷ set_state i queued ∷ [])
            b.store in
        rw (up.reads b.store, new, e)
          (marked s enqueued
            (subst Tracked (sym shows) (enqueue-Tracked i p (server.view b.store) new t)))
  ]
    where
      marked :
          (s : server.Store) (r : Reply)
          → Tracked (server.view s)
          → Tracked (server.view (marks_after server loads now i (s, r) b.processed).0.store)
      marked s enqueued h = h
      marked s duplicate h = h
      marked s raised h = h

  -- The commands are carried out, and what follows from their effect holds of the store.
  performed :
      (cs : List (Command P)) (s : server.Store) (Q : View P → Type 0)
      → Q (apply_all cs (server.view s))
      → (s' : server.Store) × (perform server cs s ≡ (s', true)) × Q (server.view s')
  performed cs s Q q =
      let (s', e, shows) = perform_all server up cs s in (s', e, subst Q (sym shows) q)

  settle-Tracked :
      (now i : ℕ) (u : U) (a : Answer) (b : Bot server)
      → (server.view b.store).state i ≡ some processing
      → Tracked (server.view b.store)
      → Tracked (server.view (settle server loads now i u a b).0.store)
  unfolding settle complete mark ack_webhook_update requeue_webhook_update ends apply_all apply
  settle-Tracked now i u dies b h t = t
  settle-Tracked now i u succeeds b h t =
      let (s, e, shows) = perform_all server up (set_state i done ∷ []) b.store in
      let (s', e', t') =
        performed (lrem_handling i ∷ delete_payload i ∷ set_state i done ∷ []) s Tracked (
          subst
            (λ v.
              Tracked (apply_all (lrem_handling i ∷ delete_payload i ∷ set_state i done ∷ []) v))
            (sym shows) (finish-Tracked i (server.view b.store) h t)) in
      rw (e, e') t'
  settle-Tracked now i u fails b h t =
      let (s, e, t') =
        performed (lrem_handling i ∷ rpush_inbox i ∷ set_state i queued ∷ []) b.store Tracked
          (give_back-Tracked i (server.view b.store) h t) in
      rw e t'

  process_claimed-Tracked :
      (now i : ℕ) (handler : U → Answer) (o : Option U) (s : server.Store)
      (c : TtlCache UpdateState)
      → (server.view s).state i ≡ some processing
      → Tracked (server.view s)
      → Tracked (server.view (process_claimed server loads now i handler o (s, true) c).0.store)
  unfolding process_claimed forget ack_webhook_update ends apply_all apply
  process_claimed-Tracked now i handler (some u) s c h t =
      settle-Tracked now i u (handler u) (record { store = s; processed = c }) h t
  process_claimed-Tracked now i handler none s c h t =
      let (s', e, shows) =
        perform_all server up (lrem_handling i ∷ delete_payload i ∷ set_state i done ∷ []) s in
      let (s'', e', t') = performed (delete_state i ∷ []) s' Tracked (
        subst (λ v. Tracked (apply_all (delete_state i ∷ []) v)) (sym shows)
          (drop-Tracked i (server.view s) h t)) in
      rw (e, e') t'

  process_moved-Tracked :
      (now : ℕ) (handler : U → Answer) (b : Bot server) (o : Option ℕ × server.Store)
      → server.brpoplpush b.store ≡ some o
      → Tracked (server.view b.store)
      → Tracked (server.view (process_moved server loads now handler (some o) b).0.store)
  unfolding process_moved copies apply_all apply
  process_moved-Tracked now handler b (none, s) e t =
      subst Tracked (sym (server.brpoplpush_empty b.store s e).1) t
  process_moved-Tracked now handler b (some i, s) e t =
      let (rest, inb, shows) = server.brpoplpush_moved i b.store s e in
      let in_it : 1 ≤ copies i (server.view b.store).inbox =
        ground (arith, ap (copies i) inb, copies-append i rest (i ∷ [])) in
      let (p, held_p) = has_payload i (server.view b.store) t (omega (arith, in_it)) in
      let found : (server.view s).payload i ≡ some p = ap (λ v. v.payload i) shows ∙ held_p in
      let (s', e', shows') = perform_all server up (set_state i processing ∷ []) s in
      let after = shows' ∙ ap (apply_all (set_state i processing ∷ [])) shows in
      rw (up.reads s, found, e')
        (process_claimed-Tracked now i handler (loads p) s' b.processed
          (ap (λ v. v.state i) after ∙ put_eq i (some processing) (server.view b.store).state)
          (subst Tracked (sym after) (claim-Tracked i rest (server.view b.store) inb t)))

  -- An id of the processing list has the state processing.
  is_processing : (o : Option UpdateState) → 1 ≤ in_handling o → o ≡ some processing
  unfolding in_handling
  is_processing none l = let no : ⊥ = omega (arith, l) in elim no [ ]
  is_processing (some processing) l = refl
  is_processing (some x) l = let no : ⊥ = omega (arith, l) in elim no [ ]

  in_handling_le : (o : Option UpdateState) → in_handling o ≤ 1
  unfolding in_handling
  in_handling_le none = omega arith
  in_handling_le (some processing) = omega arith
  in_handling_le (some x) = omega arith

  recover_each-Tracked :
      (is : List ℕ) (n : ℕ) (s : server.Store)
      → ((j : ℕ) → copies j is ≤ copies j (server.view s).handling)
      → Tracked (server.view s)
      → Tracked (server.view (recover_each server is n s).0)
  unfolding recover_each recover_one and_then copies apply_all apply
  recover_each-Tracked [] n s sub t = t
  recover_each-Tracked (i ∷ is) n s sub t =
      let v = server.view s in
      let in_it : 1 ≤ copies i v.handling = ground (arith, sub i) in
      let h = is_processing (v.state i) (omega (arith, in_it, (t i).taken)) in
      let (p, found) = has_payload i v t (omega (arith, in_it)) in
      let (s', e, shows) =
        perform_all server up (lrem_handling i ∷ rpush_inbox i ∷ set_state i queued ∷ []) s in
      let back = subst Tracked (sym shows) (give_back-Tracked i v h t) in
      let left : (j : ℕ) → copies j is ≤ copies j (server.view s').handling = λ j. ground (
        arith,
        sub j,
        ap (λ w. copies j w.handling) shows,
        copies-without i j v.handling,
        (t j).taken,
        in_handling_le (v.state j),
      ) in
      rw (up.reads s, found, e) (recover_each-Tracked is (n + 1) s' left back)

  pub step-Tracked :
      (c : Call P U) (b : Bot server)
      → Fits server loads c (server.view b.store)
      → Tracked (server.view b.store)
      → Tracked (server.view (step server loads c b).store)
  unfolding step process_one_webhook_inbox_update recover_webhook_processing
  step-Tracked (deliver now i p) b fits t = deliver-Tracked now i p b t
  step-Tracked (turn now handler) b fits t =
      let (o, e) = up.moves b.store in
      rw (step, process_one_webhook_inbox_update, e) (process_moved-Tracked now handler b o e t)
  step-Tracked restart b fits t =
      rw (up.reads b.store)
        (recover_each-Tracked (server.view b.store).handling 0 b.store (λ j. omega arith) t)
  step-Tracked (state_expires i) b fits t =
      let (s, e, shows) = perform_all server up (delete_state i ∷ []) b.store in
      rw e (subst Tracked (sym shows) (state_expires-Tracked i (server.view b.store) fits t))
  step-Tracked (payload_expires i) b fits t =
      let (s, e, shows) = perform_all server up (delete_payload i ∷ []) b.store in
      rw e (subst Tracked (sym shows) (payload_expires-Tracked i (server.view b.store) fits t))
