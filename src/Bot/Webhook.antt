-- ===== src/Bot/Webhook.antt =====
-- The entrance of updates in telegram-bot/main.py: do_POST of _WebhookHandler, get_updates, and the
-- shard of an update.
use site_parser_for_freelans.Common.{
  ℕ, ◌+◌, ◌%◌, ◌≡◌, refl, inl, inr, ◌⊎◌, Bool, true, false, not, Option, none, some, List, [], ◌∷◌,
  max, ltb, if_either, ◌≢◌, if◌then◌else◌, arith,
}
use site_parser_for_freelans.Bot.Inbox.{Bot, enqueue_update, marks_after, mark}
use site_parser_for_freelans.Bot.Store.{
  Server, View, Reply, enqueued, duplicate, raised, enqueue_webhook_update,
}
use site_parser_for_freelans.Bot.Inbox.Interrupted.{Promise, enqueue_webhook_update-Promise}

-- What do_POST reads of a request. The length is none if it is no number or negative; the body is what
-- json.loads gives of the body.
pub record Request (P : Type 0) : Type 0 where
  pub is_webhook_path : Bool
  pub has_secret : Bool
  pub content_length : Option ℕ
  pub body : Option P

module _ {P U : Type 0} (server : Server P) (loads : P → Option U) (update_id : P → Option ℕ) where
  -- `_enqueue_webhook_update` with its tests of the store, which is there, and of the id.
  unfoldable pub accept : ℕ → Option ℕ → P → Bot server → Bot server × Bool
  unfolding enqueue_update
  accept now none p b = (b, false)
  accept now (some i) p b = enqueue_update server loads now i p b

  unfoldable pub status : Bot server × Bool → Bot server × ℕ
  status (b, true) = (b, 200)
  status (b, false) = (b, 500)

  unfoldable pub post_body : ℕ → Option P → Bot server → Bot server × ℕ
  unfolding accept status
  post_body now none b = (b, 400)
  post_body now (some p) b = status (accept now (update_id p) p b)

  unfoldable pub post_length : ℕ → ℕ → Option ℕ → Option P → Bot server → Bot server × ℕ
  unfolding post_body
  post_length limit now none body b = (b, 400)
  post_length limit now (some n) body b = if ltb limit n then (b, 413) else post_body now body b

  -- `do_POST`, with the limit of the length.
  unfoldable pub do_post : ℕ → ℕ → Request P → Bot server → Bot server × ℕ
  unfolding post_length
  do_post limit now r b =
      if not r.is_webhook_path
      then (b, 404)
      else if not r.has_secret
      then (b, 403)
      else post_length limit now r.content_length r.body b

  -- A request that is answered with 200; with another status, and nothing queued; or with 500 though
  -- the update is queued.
  abbrev pub Answered : Request P → View P → View P → ℕ → Type 0
  Answered r v w s =
      ((s ≡ 200)
        × (p : P) × (r.body ≡ some p)
        × (i : ℕ) × (update_id p ≡ some i)
        × (Promise enqueued i p v w ⊎ Promise duplicate i p v w))
      ⊎ ((s ≢ 200) × (w.state ≡ v.state))
      ⊎ ((s ≡ 500)
          × (p : P) × (r.body ≡ some p)
          × (i : ℕ) × (update_id p ≡ some i)
          × Promise enqueued i p v w)

  status-Promise :
      (now i : ℕ) (p : P) (r : Request P) (b : Bot server)
      → r.body ≡ some p
      → update_id p ≡ some i
      → (e : server.Store × Reply) → Promise e.1 i p (server.view b.store) (server.view e.0)
      → Answered r
          (server.view b.store)
          (server.view (status (marks_after server loads now i e b.processed)).0.store)
          (status (marks_after server loads now i e b.processed)).1
  unfolding status marks_after mark
  status-Promise now i p r b body id (s, enqueued) h = inl (refl, p, body, i, id, inl h)
  status-Promise now i p r b body id (s, duplicate) h = inl (refl, p, body, i, id, inr h)
  status-Promise now i p r b body id (s, raised) (inl h) = inr (inl (λ e. omega (arith, e), h))
  status-Promise now i p r b body id (s, raised) (inr h) = inr (inr (refl, p, body, i, id, h))

  -- Whichever commands Redis carries out and whichever replies are lost, while no key expires: a
  -- request that is answered with 200 carries an update with an id that is now in the inbox or was
  -- known before; any other answer leaves the states of all updates as they were, so that the update
  -- can be delivered again, or is 500 and the update is in the inbox all the same.
  pub do_post-Promise :
      (limit now : ℕ) (r : Request P) (b : Bot server)
      → Answered r
          (server.view b.store)
          (server.view (do_post limit now r b).0.store)
          (do_post limit now r b).1
  unfolding do_post post_length post_body accept enqueue_update status
  do_post-Promise limit now r b =
      if_either Says (not r.is_webhook_path) _ _ (inr (inl (λ e. omega (arith, e), refl))) (
        if_either Says (not r.has_secret) _ _ (inr (inl (λ e. omega (arith, e), refl)))
          (of_length r.content_length))
    where
      Says : Bot server × ℕ → Type 0
      Says q = Answered r (server.view b.store) (server.view q.0.store) q.1

      of_id :
          (p : P)
          → r.body ≡ some p
          → (o : Option ℕ) → update_id p ≡ o
          → Says (status (accept now o p b))
      of_id p body none id = inr (inl (λ e. omega (arith, e), refl))
      of_id p body (some i) id =
          status-Promise now i p r b body id (enqueue_webhook_update server i p b.store)
            (enqueue_webhook_update-Promise server i p b.store)

      of_body : (o : Option P) → r.body ≡ o → Says (post_body now o b)
      of_body none e = inr (inl (λ q. omega (arith, q), refl))
      of_body (some p) e = of_id p e (update_id p) refl

      of_length : (o : Option ℕ) → Says (post_length limit now o r.body b)
      of_length none = inr (inl (λ e. omega (arith, e), refl))
      of_length (some n) =
          if_either Says (ltb limit n) _ _ (inr (inl (λ e. omega (arith, e), refl)))
            (of_body r.body refl)

-- `_webhook_update_shard`.
unfoldable pub webhook_update_shard : Option ℕ → ℕ → ℕ
webhook_update_shard none worker_count = 0
webhook_update_shard (some telegram_id) worker_count = telegram_id % max 1 worker_count

-- The offset that get_updates returns: one more than the greatest id, or the same without updates.
unfoldable pub greatest_id : ℕ → List ℕ → ℕ
greatest_id i [] = i
greatest_id i (j ∷ js) = greatest_id (max i j) js

unfoldable pub next_offset : Option ℕ → List ℕ → Option ℕ
unfolding greatest_id
next_offset offset [] = offset
next_offset offset (i ∷ is) = some (greatest_id i is + 1)
