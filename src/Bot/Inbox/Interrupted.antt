-- ===== src/Bot/Inbox/Interrupted.antt =====
-- A connection that breaks in the middle of a method.
use site_parser_for_freelans.Common.{
  ℕ, ◌≡◌, refl, ap, ◌∙◌, inl, inr, ◌⊎◌, true, false, none, some, List, [], ◌∷◌, Bool-cases, arith,
}
use site_parser_for_freelans.Bot.Store.{
  View, Command, queued, processing, apply, set_state, is_known, set_payload, lpush_inbox,
  rpush_inbox, lrem_handling, Server, Reply, enqueued, duplicate, raised, perform, reply_with,
  enqueue_webhook_update, requeue_webhook_update,
}
use site_parser_for_freelans.Common.Copies.{copies}
use site_parser_for_freelans.Bot.Inbox.Commands.{
  copies-without, apply_all, Prefix, stops, goes, perform_cases,
}
use site_parser_for_freelans.Bot.Inbox.Tracking.{Tracked, put_eq, in_inbox}

module _ {P : Type 0} where
  -- What a reply to the delivery of an update promises of the views before and after it.
  abbrev pub Promise : Reply → ℕ → P → View P → View P → Type 0
  Promise enqueued i p v w =
      (w.state i ≡ some queued)
      × (w.payload i ≡ some p)
      × (w.inbox ≡ i ∷ v.inbox)
      × (w.handling ≡ v.handling)
  Promise duplicate i p v w = (is_known (v.state i) ≡ true) × (w ≡ v)
  Promise raised i p v w =
      (w.state ≡ v.state)
      ⊎ ((w.state i ≡ some queued)
          × (w.payload i ≡ some p)
          × (w.inbox ≡ i ∷ v.inbox)
          × (w.handling ≡ v.handling))

  module _ (server : Server P) where
    -- Whatever the connection does, a delivery that is answered with enqueued is in the inbox, one
    -- that is answered with duplicate was known and changes nothing, and one that raises leaves the
    -- states of all updates as they were, so that it can be delivered again, or is in the inbox all
    -- the same, if only the last reply was lost.
    pub enqueue_webhook_update-Promise :
        (i : ℕ) (p : P) (s : server.Store)
        → Promise
            (enqueue_webhook_update server i p s).1
            i
            p
            (server.view s)
            (server.view (enqueue_webhook_update server i p s).0)
    unfolding enqueue_webhook_update reply_with apply_all apply
    enqueue_webhook_update-Promise i p s = elim (Bool-cases (server.reachable s)) [
      | inr away ↦ rw away (inl refl)
      | inl here ↦ elim (Bool-cases (is_known ((server.view s).state i))) [
        | inl known ↦ rw (here, known) (known, refl)
        | inr new ↦
            elim (perform_cases server (set_payload i p ∷ lpush_inbox i ∷ set_state i queued ∷ [])
              s) [
                | inl (s', e, shows) ↦
                    rw (here, new, e)
                      (
                        ap (λ v. v.state i) shows ∙ put_eq i (some queued) (server.view s).state,
                        ap (λ v. v.payload i) shows ∙ put_eq i (some p) (server.view s).payload,
                        ap (λ v. v.inbox) shows,
                        ap (λ v. v.handling) shows,
                      )
                | inr (s', e, ds, part, shows) ↦ rw (here, new, e) (broken_off _ ds part shows)
              ]
      ]
    ]
      where
        broken_off :
            (w : View P) (ds : List (Command P))
            → Prefix ds (set_payload i p ∷ lpush_inbox i ∷ set_state i queued ∷ [])
            → w ≡ apply_all ds (server.view s)
            → Promise raised i p (server.view s) w
        broken_off w _ stops shows = inl (ap (λ v. v.state) shows)
        broken_off w _ (goes stops) shows = inl (ap (λ v. v.state) shows)
        broken_off w _ (goes (goes stops)) shows = inl (ap (λ v. v.state) shows)
        broken_off w _ (goes (goes (goes stops))) shows = inr (
          ap (λ v. v.state i) shows ∙ put_eq i (some queued) (server.view s).state,
          ap (λ v. v.payload i) shows ∙ put_eq i (some p) (server.view s).payload,
          ap (λ v. v.inbox) shows,
          ap (λ v. v.handling) shows,
        )

    -- When the state of an update says processing and where it is, and the connection breaks between
    -- the two list commands, the second of which is not carried out, with
    -- which the update is given back, the update is in neither list and its
    -- state stays processing, so that a new delivery, once Redis is reached, is answered with duplicate.
    pub requeue_webhook_update_lost :
        (i : ℕ) (p : P) (s t : server.Store)
        → Tracked (server.view s)
        → (server.view s).state i ≡ some processing
        → server.execute (lrem_handling i) s ≡ some t
        → server.execute (rpush_inbox i) t ≡ none
        → server.after_failure (rpush_inbox i) t ≡ t
        → server.reachable t ≡ true
        → (requeue_webhook_update server i s ≡ (t, false))
          × (copies i (server.view t).inbox ≡ 0)
          × (copies i (server.view t).handling ≡ 0)
          × (enqueue_webhook_update server i p t ≡ (t, duplicate))
    unfolding requeue_webhook_update perform enqueue_webhook_update apply is_known in_inbox
    requeue_webhook_update_lost i p s t tracked h removed breaks nothing here =
        let shows = server.execute_view (lrem_handling i) s t removed in
        let state : (server.view t).state i ≡ some processing = ap (λ v. v.state i) shows ∙ h in
        let empty : copies i (server.view s).inbox ≡ 0 = rw h at (tracked i).inboxed in
        (
          rw (perform, removed) (rw (perform, breaks) (ap (λ x. (x, false)) nothing)),
          ap (λ v. copies i v.inbox) shows ∙ empty,
          ap (λ v. copies i v.handling) shows
              ∙ copies-without i i (server.view s).handling
              ∙ ground arith,
          rw (here, state) refl,
        )
