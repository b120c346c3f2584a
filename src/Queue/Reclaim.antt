-- ===== src/Queue/Reclaim.antt =====
-- `reclaim_stuck`: which entries go back to the pending list. The lists are compared by how often
-- each payload occurs in them.
use site_parser_for_freelans.Common.{
  ℕ, ◌+◌, ◌≤◌, ◌≡◌, refl, sym, ap, ◌∙◌, inl, inr, Bool, true, false, List, [], ◌∷◌, ◌++◌,
  Bool-cases, if◌then◌else◌, arith,
}
use site_parser_for_freelans.Json.{Outcome, ok, raises}
use site_parser_for_freelans.Redis.{Codec, Redis, Key, pending, processing, dlq, remove}
use site_parser_for_freelans.Queue.{Consumer, reclaim_one, reclaim_each, reclaim_stuck}
use site_parser_for_freelans.Queue.Lease.{keeps_lease}
use site_parser_for_freelans.Queue.Conserve.{send_cases}

module _ {Raw : Type 0} (codec : Codec Raw) where
  abbrev pub hit : Raw → Raw → ℕ
  hit x y = if codec.raw_eq y x then 1 else 0

  -- How often `x` stands in the list.
  abbrev pub occurs : Raw → List Raw → ℕ
  occurs x [] = 0
  occurs x (y ∷ ys) = hit x y + occurs x ys

  occurs-append : (x : Raw) (xs ys : List Raw) → occurs x (xs ++ ys) ≡ occurs x xs + occurs x ys
  occurs-append x [] ys = omega arith
  occurs-append x (y ∷ xs) ys = omega (arith, occurs-append x xs ys)

  occurs-remove :
      (x raw : Raw) (l : List Raw)
      → 1 ≤ occurs raw l
      → occurs x (remove codec raw l) + hit x raw ≡ occurs x l
  occurs-remove x raw [] h = absurd (omega arith)
  occurs-remove x raw (y ∷ ys) h = elim (Bool-cases (codec.raw_eq y raw)) [
    | inl e ↦ rw e (omega (arith, ap (hit x) ((codec.raw_eq_iff y raw).0 e)))
    | inr e ↦
        let more : 1 ≤ 0 + occurs raw ys = rw e at h in
        rw e (omega (arith, occurs-remove x raw ys (omega arith)))
  ]

  -- How often `x` stands in the three lists.
  abbrev pub held : Raw → (Key → List Raw) → ℕ
  held x lists = occurs x (lists pending) + occurs x (lists processing) + occurs x (lists dlq)

  hit_self : (x : Raw) → hit x x ≡ 1
  hit_self x = rw ((codec.raw_eq_iff x x).1 refl)

  hit_differs : (x raw : Raw) → (raw ≡ x → ⊥) → hit x raw ≡ 0
  hit_differs x raw n = elim (Bool-cases (codec.raw_eq raw x)) [
    | inl e ↦ absurd (n ((codec.raw_eq_iff raw x).0 e))
    | inr e ↦ rw e
  ]

ok_differ : ◌≡◌ {A = Outcome Bool} (ok true) (ok false) → ⊥
ok_differ e = cc

module _ {Raw : Type 0} {codec : Codec Raw} {server : Redis codec} (threshold now : ℕ) where
  -- What the loop keeps to, from the lists `before` to the consumer and outcome after it, with the
  -- entries `items` still to look at.
  record Reclaimed (before : Key → List Raw) (items : List Raw)
      (r : Consumer server × Outcome (Unit {0})) : Type 0 where
    conserved : (x : Raw) → held codec x (server.lists r.0.store) ≡ held codec x before
    leased :
        (x : Raw)
        → keeps_lease codec threshold now x ≡ ok true
        → occurs codec x (server.lists r.0.store processing) ≡ occurs codec x (before processing)
    freed :
        (x : Raw)
        → keeps_lease codec threshold now x ≡ ok false
        → r.1 ≡ ok tt
        → occurs codec x (server.lists r.0.store processing) + occurs codec x items
          ≡ occurs codec x (before processing)

  one-Reclaimed :
      (o : Outcome Bool) (raw : Raw) (items : List Raw) (c : Consumer server)
      (next : Consumer server → Consumer server × Outcome (Unit {0}))
      → keeps_lease codec threshold now raw ≡ o
      → 1 ≤ occurs codec raw (server.lists c.store processing)
      → ((d : Consumer server)
          → ((x : Raw)
              → occurs codec x (server.lists c.store processing)
                ≤ occurs codec x (server.lists d.store processing) + hit codec x raw)
          → Reclaimed (server.lists d.store) items (next d))
      → Reclaimed (server.lists c.store) (raw ∷ items) (reclaim_one o raw c next)
  unfolding reclaim_one
  one-Reclaimed (raises x) raw items c next k h rest = record {
    conserved = λ x. refl;
    leased = λ x e. refl;
    freed = λ x e r. cc;
  }
  one-Reclaimed (ok true) raw items c next k h rest =
      let all = rest c (λ x. omega arith) in
      record {
        conserved = all.conserved;
        leased = all.leased;
        freed = λ x e r. omega (
          arith,
          all.freed x e r,
          hit_differs codec x raw
              (λ q. ok_differ (sym k ∙ ap (keeps_lease codec threshold now) q ∙ e)),
        );
      }
  one-Reclaimed (ok false) raw items c next k h rest =
      send_cases (Reclaimed (server.lists c.store) (raw ∷ items)) _ c next
        (record { conserved = λ x. refl; leased = λ x e. refl; freed = λ x e r. cc })
        (λ s w.
          let taken = λ (x : Raw). occurs-remove codec x raw (server.lists c.store processing) h in
          let at_processing = λ (x : Raw). ap (λ l. occurs codec x (l processing)) w in
          let at_pending = λ (x : Raw).
            ap (λ l. occurs codec x (l pending)) w
            ∙ occurs-append codec x (server.lists c.store pending) (raw ∷ []) in
          let at_dlq = λ (x : Raw). ap (λ l. occurs codec x (l dlq)) w in
          let all = rest (record c { store = s }) (λ x. omega (arith, taken x, at_processing x)) in
          record {
            conserved = λ x.
                omega (arith, all.conserved x, taken x, at_processing x, at_pending x, at_dlq x);
            leased = λ x e. omega (
              arith,
              all.leased x e,
              taken x,
              at_processing x,
              hit_differs codec x raw
                  (λ q. ok_differ (sym e ∙ ap (keeps_lease codec threshold now) (sym q) ∙ k)),
            );
            freed = λ x e r. omega (arith, all.freed x e r, taken x, at_processing x);
          })

  each-Reclaimed :
      (items : List Raw) (c : Consumer server)
      → ((x : Raw) → occurs codec x items ≤ occurs codec x (server.lists c.store processing))
      → Reclaimed (server.lists c.store) items (reclaim_each threshold now items c)
  unfolding reclaim_each
  each-Reclaimed [] c h = record {
    conserved = λ x. refl;
    leased = λ x e. refl;
    freed = λ x e r. omega arith;
  }
  each-Reclaimed (raw ∷ items) c h =
      one-Reclaimed (keeps_lease codec threshold now raw) raw items c
        (reclaim_each threshold now items) refl (omega (arith, h raw, hit_self codec raw))
        (λ d g. each-Reclaimed items d (λ x. omega (arith, h x, g x)))

  -- For every outcome of `reclaim_stuck`, complete or broken off by an exception, and every payload:
  -- it stands in the three lists together as often as before, and if its lease is valid, in the
  -- processing list as often as before.
  pub reclaim_stuck_conserves :
      (c : Consumer server) (x : Raw)
      → let after = server.lists (reclaim_stuck threshold now c).0.store in
        (held codec x after ≡ held codec x (server.lists c.store))
        × (keeps_lease codec threshold now x ≡ ok true
            → occurs codec x (after processing) ≡ occurs codec x (server.lists c.store processing))
  unfolding reclaim_stuck
  reclaim_stuck_conserves c x = elim (Bool-cases (server.reachable c.store)) [
    | inl r ↦
        let all = each-Reclaimed (server.lists c.store processing) c (λ y. omega arith) in
        rw r (all.conserved x, all.leased x)
    | inr r ↦ rw r (refl, λ e. refl)
  ]

  -- When `reclaim_stuck` completes, no payload without a valid lease is left in the processing list.
  pub reclaim_stuck_frees :
      (c : Consumer server) (x : Raw)
      → keeps_lease codec threshold now x ≡ ok false
      → (reclaim_stuck threshold now c).1 ≡ ok tt
      → occurs codec x (server.lists (reclaim_stuck threshold now c).0.store processing) ≡ 0
  unfolding reclaim_stuck
  reclaim_stuck_frees c x e r = elim (Bool-cases (server.reachable c.store)) [
    | inl q ↦
        let all = each-Reclaimed (server.lists c.store processing) c (λ y. omega arith) in
        rw q (omega (arith, all.freed x e (rw q at r)))
    | inr q ↦ cc (rw q at r)
  ]
