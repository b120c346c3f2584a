-- ===== src/Bot/Inbox/Order.antt =====
-- The order in which a worker takes the updates of its shard.
use mathlib.Core.List.{reverse, reverse-append, head-eq_of_cons-eq, tail-eq_of_cons-eq}
use site_parser_for_freelans.Common.{
  ℕ, ◌≡◌, refl, sym, ap, ◌∙◌, Option, none, some, List, [], ◌∷◌, All,
}
use site_parser_for_freelans.Bot.Inbox.{
  Event, handled, given_back, Answer, fails, Bot, mark, ends, settle, process_claimed,
  process_moved, process_one_webhook_inbox_update, turns,
}
use site_parser_for_freelans.Bot.Store.{
  View, queued, processing, apply, set_state, rpush_inbox, lrem_handling, Server,
  requeue_webhook_update,
}
use site_parser_for_freelans.Bot.Inbox.Commands.{apply_all, IsReliable, perform_all}

-- The ids that wait in the inbox, the next one first.
unfoldable pub waiting : {P : Type 0} → View P → List ℕ
waiting v = reverse v.inbox

-- The ids of the updates that were handled.
unfoldable pub handled_ids : {U : Type 0} → List (Event U) → List ℕ
handled_ids [] = []
handled_ids (handled i u ∷ es) = i ∷ handled_ids es
handled_ids (_ ∷ es) = handled_ids es

module _ {P U : Type 0} {server : Server P} (loads : P → Option U) (up : IsReliable server) where
  -- The next id is claimed, and its update is settled by the answer of the handler.
  turn-waiting :
      (now : ℕ) (handler : U → Answer) (b : Bot server) (i : ℕ) (is : List ℕ) (p : P) (u : U)
      → waiting (server.view b.store) ≡ i ∷ is
      → (server.view b.store).payload i ≡ some p
      → loads p ≡ some u
      → (s : server.Store) × (process_one_webhook_inbox_update server loads now handler b
          ≡ settle server loads now i u (handler u) (record { store = s; processed = b.processed }))
        × (reverse (server.view s).inbox ≡ is)
        × ((server.view s).payload ≡ (server.view b.store).payload)
  unfolding process_one_webhook_inbox_update process_moved process_claimed waiting apply_all apply
  turn-waiting now handler b i is p u w held_p read =
      let (o, e) = up.moves b.store in
      let (s, turned, left, same) = moved o e in (s, rw e turned, left, same)
    where
      moved :
          (o : Option ℕ × server.Store)
          → server.brpoplpush b.store ≡ some o
          → (s : server.Store) × (process_moved server loads now handler (some o) b
              ≡ settle server loads now i u
                  (handler u)
                  (record { store = s; processed = b.processed }))
            × (reverse (server.view s).inbox ≡ is)
            × ((server.view s).payload ≡ (server.view b.store).payload)
      moved (none, s) e =
          let nothing : reverse [] ≡ i ∷ is =
            ap reverse (sym (server.brpoplpush_empty b.store s e).0) ∙ w in
          cc
      moved (some j, s) e =
          let (rest, inb, shows) = server.brpoplpush_moved j b.store s e in
          let next : j ∷ reverse rest ≡ i ∷ is =
            sym (reverse-append rest (j ∷ [])) ∙ ap reverse (sym inb) ∙ w in
          let same : j ≡ i = head-eq_of_cons-eq next in
          let found : (server.view s).payload j ≡ some p =
            ap (λ v. v.payload j) shows ∙ ap (server.view b.store).payload same ∙ held_p in
          let (s', e', shows') = perform_all server up (set_state j processing ∷ []) s in
          let after = shows' ∙ ap (apply_all (set_state j processing ∷ [])) shows in
          (
            s',
            rw (up.reads s, found, e', read)
                (ap
                  (λ k.
                    settle server loads now k u (handler u)
                      (record { store = s'; processed = b.processed }))
                  same),
            ap (λ v. reverse v.inbox) after ∙ tail-eq_of_cons-eq next,
            ap (λ v. v.payload) after,
          )

  settle-fails :
      (now i : ℕ) (u : U) (b : Bot server)
      → ((settle server loads now i u fails b).1 ≡ given_back i u)
        × (waiting (server.view (settle server loads now i u fails b).0.store)
            ≡ i ∷ waiting (server.view b.store))
        × ((server.view (settle server loads now i u fails b).0.store).payload
            ≡ (server.view b.store).payload)
  unfolding settle mark requeue_webhook_update ends apply_all apply waiting
  settle-fails now i u b =
      let (s, e, shows) =
        perform_all server up (lrem_handling i ∷ rpush_inbox i ∷ set_state i queued ∷ []) b.store in
      rw e (
        refl,
        ap (λ v. reverse v.inbox) shows ∙ reverse-append (server.view b.store).inbox (i ∷ []),
        ap (λ v. v.payload) shows,
      )

  -- With a Redis that is always reached, while the handler fails on the next update, each iteration gives it back and takes it again: the
  -- updates behind it keep waiting.
  pub turns-given_back :
      (hs : List (ℕ × (U → Answer))) (i : ℕ) (is : List ℕ) (p : P) (u : U) (b : Bot server)
      → loads p ≡ some u
      → All (λ h. h.1 u ≡ fails) hs
      → waiting (server.view b.store) ≡ i ∷ is
      → (server.view b.store).payload i ≡ some p
      → All (λ e. e ≡ given_back i u) (turns server loads hs b).1
        × (waiting (server.view (turns server loads hs b).0.store) ≡ i ∷ is)
  unfolding turns waiting
  turns-given_back [] i is p u b read bad w held_p = (tt, w)
  turns-given_back ((now, handler) ∷ hs) i is p u b read bad w held_p =
      let (s, turned, left, same) = turn-waiting now handler b i is p u w held_p read in
      let (event, back, kept) =
        settle-fails now i u (record { store = s; processed = b.processed }) in
      let settled =
        (settle server loads now i u fails (record { store = s; processed = b.processed })).0 in
      let (events, waits) =
        turns-given_back hs i is p u settled read bad.1 (back ∙ ap (λ js. i ∷ js) left)
          (ap (λ f. f i) kept ∙ ap (λ f. f i) same ∙ held_p) in
      rw (turned, bad.0) ((event, events), waits)
