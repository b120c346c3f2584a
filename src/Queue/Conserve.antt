-- ===== src/Queue/Conserve.antt =====
-- No method of the queue consumer loses a message: the entries of the three lists, counted.
use site_parser_for_freelans.Common.{
  ℕ, ◌+◌, ◌≤◌, ◌≡◌, refl, ◌⊎◌, inl, inr, Bool, true, false, Option, none, some, List, [], ◌∷◌,
  length, length-append, Option-cases, Bool-cases, arith,
}
use site_parser_for_freelans.Json.{Value, connection_error, Outcome, ok, raises}
use site_parser_for_freelans.Redis.{
  Codec, Redis, Command, Key, pending, processing, dlq, remove, apply_all,
}
use site_parser_for_freelans.Queue.{Consumer, send, ack_raw, push_back, ack, nack}
use site_parser_for_freelans.Queue.Lease.{
  Parsed, discard, prepare_nack_payload, peek_inflight, drop_inflight,
}

module _ {Raw : Type 0} (codec : Codec Raw) where
  -- `remove` takes at most one entry, and takes one if there is one to take.
  pub length-remove :
      (raw : Raw) (l : List Raw)
      → (length (remove codec raw l) ≤ length l) × (length l ≤ length (remove codec raw l) + 1)
  length-remove raw [] = omega arith
  length-remove raw (x ∷ xs) = elim (Bool-cases (codec.raw_eq x raw)) [
    | inl e ↦ rw e (omega arith)
    | inr e ↦ rw e (omega (arith, length-remove raw xs))
  ]

  -- The entries of the pending, processing and dead-letter lists.
  abbrev pub total : (Key → List Raw) → ℕ
  total lists = length (lists pending) + length (lists processing) + length (lists dlq)

  -- A payload that `pop_blocking` throws away: no JSON, or discarded by the parser.
  abbrev pub Dropped : {A : Type 0} → (Value → Parsed A) → Raw → Type 0
  Dropped parse raw =
      (codec.loads raw ≡ none) ⊎ ((v : Value) × (codec.loads raw ≡ some v) × (parse v ≡ discard))

module _ {Raw : Type 0} {codec : Codec Raw} {server : Redis codec} {A : Type 0} where
  pub send_cases {ℓ} :
      (P : Consumer server × Outcome A → Type ℓ) (cs : List (Command Raw)) (c : Consumer server)
      (next : Consumer server → Consumer server × Outcome A)
      → P (c, raises connection_error)
      → ((s : server.Store)
          → server.lists s ≡ apply_all codec cs (server.lists c.store)
          → P (next (record c { store = s })))
      → P (send cs c next)
  send_cases P cs c next lost sent = elim (Option-cases (server.execute cs c.store)) [
    | inl e ↦ rw e lost
    | inr (s, e) ↦ rw e (sent s (server.execute_lists cs c.store s e))
  ]

module _ {Raw : Type 0} {codec : Codec Raw} {server : Redis codec} {A : Type 0}
    (parse : Value → Parsed A) (key : A → ℕ) where
  abbrev Conserves : Consumer server → Consumer server × Outcome (Option A) → Type 0
  Conserves c r =
      (total codec (server.lists r.0.store) ≡ total codec (server.lists c.store))
      ⊎ ((raw : Raw) × Dropped codec parse raw
          × (r.1 ≡ ok none)
          × (total codec (server.lists r.0.store) + 1 ≡ total codec (server.lists c.store)))

module _ {Raw : Type 0} {codec : Codec Raw} {server : Redis codec} where
  abbrev Unharmed : Consumer server → Consumer server × Outcome (Unit {0}) → Type 0
  Unharmed c r =
      (total codec (server.lists c.store) ≤ total codec (server.lists r.0.store))
      × (total codec (server.lists r.0.store) ≤ total codec (server.lists c.store) + 1)

  push_back_total : (id : ℕ) (raw : Raw) (c : Consumer server) → Unharmed c (push_back id raw c)
  unfolding push_back
  push_back_total id raw c = by_payload (prepare_nack_payload codec raw) refl
    where
      pushed :
          (out : Raw) (to_dlq : Bool)
          → prepare_nack_payload codec raw ≡ ok (out, to_dlq)
          → Unharmed c (push_back id raw c)
      pushed out true e =
          rw (e, push_back)
            (send_cases (Unharmed c) _ c _ (omega arith) (λ s w. rw w (
              omega (
                arith,
                length-remove codec raw (server.lists c.store processing),
                length-append (server.lists c.store dlq) (out ∷ []),
              ))))
      pushed out false e =
          rw (e, push_back)
            (send_cases (Unharmed c) _ c _ (omega arith) (λ s w. rw w (
              omega (
                arith,
                length-remove codec raw (server.lists c.store processing),
                length-append (server.lists c.store pending) (out ∷ []),
              ))))

      by_payload :
          (o : Outcome (Raw × Bool))
          → prepare_nack_payload codec raw ≡ o
          → Unharmed c (push_back id raw c)
      by_payload (raises x) e = rw (e, push_back) (omega arith)
      by_payload (ok (out, to_dlq)) e = pushed out to_dlq e

  -- Whatever the server answers, `nack` leaves at least as many entries in the three lists as there
  -- were, and at most one more.
  pub nack_total : (id : ℕ) (c : Consumer server) → Unharmed c (nack id c)
  unfolding nack
  nack_total id c = elim (Option-cases (peek_inflight id c.inflight)) [
    | inl e ↦ rw (e, nack) (omega arith)
    | inr (entry, e) ↦ rw (e, nack) (push_back_total id entry.raw c)
  ]

  -- Whatever the server answers, `ack` takes at most one entry off the three lists and adds none.
  pub ack_total :
      (id : ℕ) (c : Consumer server)
      → (total codec (server.lists (ack id c).0.store) ≤ total codec (server.lists c.store))
        × (total codec (server.lists c.store) ≤ total codec (server.lists (ack id c).0.store) + 1)
  unfolding ack
  ack_total id c = elim (Option-cases (peek_inflight id c.inflight)) [
    | inl e ↦ rw (e, ack) (omega arith)
    | inr (entry, e) ↦ rw (e, ack) (acked entry.raw)
  ]
    where
      Fewer : Consumer server × Outcome (Unit {0}) → Type 0
      Fewer r =
          (total codec (server.lists r.0.store) ≤ total codec (server.lists c.store))
          × (total codec (server.lists c.store) ≤ total codec (server.lists r.0.store) + 1)

      acked :
          (raw : Raw)
          → Fewer (
              ack_raw raw c
                λ d. (record d { inflight = drop_inflight codec id raw d.inflight }, ok tt))
      acked raw =
          send_cases Fewer _ c _ (omega arith)
            (λ s w. rw w (omega (arith, length-remove codec raw (server.lists c.store processing))))
