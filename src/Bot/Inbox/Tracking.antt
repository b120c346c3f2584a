-- ===== src/Bot/Inbox/Tracking.antt =====
-- The state at the key of an update says where the update is.
use site_parser_for_freelans.Common.{
  ℕ, ◌+◌, ◌≤◌, ◌≡◌, refl, sym, ap, subst, ◌∙◌, inl, inr, false, ◌==◌, ==_iff, Option, none, some,
  List, [], ◌∷◌, ◌++◌, Option-cases, Bool-cases, arith,
}
use site_parser_for_freelans.Bot.Store.{
  View, UpdateState, claimed, inflight, done, queued, processing, foreign, apply, is_known,
  set_state, set_payload, delete_state, delete_payload, lpush_inbox, rpush_inbox, lrem_handling,
}
use site_parser_for_freelans.Bot.Texts.{put}
use site_parser_for_freelans.Common.Copies.{copies, copies-append}
use site_parser_for_freelans.Bot.Inbox.Commands.{copies-without, apply_all}

unfoldable pub in_inbox : Option UpdateState → ℕ
in_inbox (some queued) = 1
in_inbox (some _) = 0
in_inbox none = 0

unfoldable pub in_handling : Option UpdateState → ℕ
in_handling (some processing) = 1
in_handling (some _) = 0
in_handling none = 0

unfoldable pub held : {P : Type 0} → Option P → ℕ
held none = 0
held (some p) = 1

pub unknown_is_nowhere :
    (o : Option UpdateState) → is_known o ≡ false → in_inbox o + in_handling o ≡ 0
unfolding is_known in_inbox in_handling
unknown_is_nowhere none h = omega arith
unknown_is_nowhere (some claimed) h = omega arith
unknown_is_nowhere (some foreign) h = omega arith
unknown_is_nowhere (some inflight) h = cc
unknown_is_nowhere (some done) h = cc
unknown_is_nowhere (some queued) h = cc
unknown_is_nowhere (some processing) h = cc

pub put_eq : {A : Type 0} (i : ℕ) (x : Option A) (f : ℕ → Option A) → put i x f i ≡ x
put_eq i x f = ground arith

module _ {P : Type 0} where
  -- An update is once in the inbox if its state is queued, once in the processing list if its state
  -- is processing, with its payload, and in neither list else.
  pub record Follows (j : ℕ) (v : View P) : Type 0 where
    pub inboxed : copies j v.inbox ≡ in_inbox (v.state j)
    pub taken : copies j v.handling ≡ in_handling (v.state j)
    pub kept : in_inbox (v.state j) + in_handling (v.state j) ≤ held (v.payload j)

  abbrev pub Tracked : View P → Type 0
  Tracked v = (j : ℕ) → Follows j v

  -- A view in which only the update `i` differs from a tracked one is tracked if `i` is.
  pub Tracked-at :
      (i : ℕ) (v w : View P)
      → ((j : ℕ)
          → (j == i) ≡ false
          → (copies j w.inbox ≡ copies j v.inbox)
            × (copies j w.handling ≡ copies j v.handling)
            × (w.state j ≡ v.state j)
            × (w.payload j ≡ v.payload j))
      → Follows i w
      → Tracked v
      → Tracked w
  Tracked-at i v w same here t j = elim (Bool-cases (j == i)) [
    | inl p ↦ subst (λ k. Follows k w) (sym ((==_iff j i).0 p)) here
    | inr p ↦
        let (a, b, c, d) = same j p in
        record {
          inboxed = a ∙ (t j).inboxed ∙ ap in_inbox (sym c);
          taken = b ∙ (t j).taken ∙ ap in_handling (sym c);
          kept = rw (c, d) (t j).kept;
        }
  ]

  pub enqueue-Tracked :
      (i : ℕ) (p : P) (v : View P)
      → is_known (v.state i) ≡ false
      → Tracked v
      → Tracked (apply_all (set_payload i p ∷ lpush_inbox i ∷ set_state i queued ∷ []) v)
  unfolding apply_all apply copies in_inbox in_handling held
  enqueue-Tracked i p v h t =
      let nowhere = unknown_is_nowhere (v.state i) h in
      let before = t i in
      Tracked-at i v _ (λ j q. (ground (arith, q), refl, rw q refl, rw q refl))
        (record {
          inboxed = rw (put_eq i (some queued) v.state) (ground (arith, nowhere, before.inboxed));
          taken = rw (put_eq i (some queued) v.state) (omega (arith, nowhere, before.taken));
          kept = rw (put_eq i (some queued) v.state, put_eq i (some p) v.payload) (omega arith);
        })
        t

  -- The oldest id of the inbox is claimed.
  pub claim-Tracked :
      (i : ℕ) (rest : List ℕ) (v : View P)
      → v.inbox ≡ rest ++ i ∷ []
      → Tracked v
      → Tracked (
          apply_all
            (set_state i processing ∷ [])
            (record v { inbox = rest; handling = i ∷ v.handling }))
  unfolding apply_all apply copies in_inbox in_handling held
  claim-Tracked i rest v e t =
      let before = t i in
      let split : (j : ℕ) → copies j v.inbox ≡ copies j rest + copies j (i ∷ []) =
        λ j. ap (copies j) e ∙ copies-append j rest (i ∷ []) in
      let is_queued = queued_of (v.state i) (ground (arith, before.inboxed, split i)) in
      Tracked-at i v _ (λ j q. (ground (arith, q, split j), ground (arith, q), rw q refl, refl))
        (record {
          inboxed =
              rw (put_eq i (some processing) v.state)
                (ground (arith, split i, before.inboxed, is_queued.0));
          taken =
              rw (put_eq i (some processing) v.state) (ground (arith, before.taken, is_queued.1));
          kept = rw (put_eq i (some processing) v.state) (omega (arith, before.kept, is_queued.0));
        })
        t
    where
      queued_of : (o : Option UpdateState) → 1 ≤ in_inbox o → (in_inbox o ≡ 1) × (in_handling o ≡ 0)
      queued_of none h = omega (arith, h)
      queued_of (some queued) h = (refl, refl)
      queued_of (some claimed) h = omega (arith, h)
      queued_of (some foreign) h = omega (arith, h)
      queued_of (some inflight) h = omega (arith, h)
      queued_of (some done) h = omega (arith, h)
      queued_of (some processing) h = omega (arith, h)

  pub finish-Tracked :
      (i : ℕ) (v : View P)
      → v.state i ≡ some processing
      → Tracked v
      → Tracked (
          apply_all
            (set_state i done ∷ lrem_handling i ∷ delete_payload i ∷ set_state i done ∷ [])
            v)
  unfolding apply_all apply in_inbox in_handling held
  finish-Tracked i v e t =
      let put_done = put_eq i (some done) (put i (some done) v.state) in
      Tracked-at i v _
        (λ j q. (refl, copies-without i j v.handling ∙ ground (arith, q), rw q refl, rw q refl))
        (record {
          inboxed = rw put_done (rw e at (t i).inboxed);
          taken = rw put_done (copies-without i i v.handling ∙ ground arith);
          kept = rw put_done (omega arith);
        })
        t

  pub drop-Tracked :
      (i : ℕ) (v : View P)
      → v.state i ≡ some processing
      → Tracked v
      → Tracked (
          apply_all (lrem_handling i ∷ delete_payload i ∷ set_state i done ∷ delete_state i ∷ []) v)
  unfolding apply_all apply in_inbox in_handling held
  drop-Tracked i v e t =
      let put_none = put_eq i none (put i (some done) v.state) in
      Tracked-at i v _
        (λ j q. (refl, copies-without i j v.handling ∙ ground (arith, q), rw q refl, rw q refl))
        (record {
          inboxed = rw put_none (rw e at (t i).inboxed);
          taken = rw put_none (copies-without i i v.handling ∙ ground arith);
          kept = rw put_none (omega arith);
        })
        t

  pub give_back-Tracked :
      (i : ℕ) (v : View P)
      → v.state i ≡ some processing
      → Tracked v
      → Tracked (apply_all (lrem_handling i ∷ rpush_inbox i ∷ set_state i queued ∷ []) v)
  unfolding apply_all apply copies in_inbox in_handling held
  give_back-Tracked i v e t =
      let put_queued = put_eq i (some queued) v.state in
      let absent : copies i v.inbox ≡ 0 = rw e at (t i).inboxed in
      let held_one : 0 + 1 ≤ held (v.payload i) = rw e at (t i).kept in
      Tracked-at i v _
        (λ j q. (
          copies-append j v.inbox (i ∷ []) ∙ ground (arith, q),
          copies-without i j v.handling ∙ ground (arith, q),
          rw q refl,
          refl,
        ))
        (record {
          inboxed = rw put_queued (copies-append i v.inbox (i ∷ []) ∙ ground (arith, absent));
          taken = rw put_queued (copies-without i i v.handling ∙ ground arith);
          kept = rw put_queued (omega (arith, held_one));
        })
        t

  -- The key of an update that is in neither list goes.
  pub state_expires-Tracked :
      (i : ℕ) (v : View P)
      → copies i v.inbox + copies i v.handling ≡ 0
      → Tracked v
      → Tracked (apply_all (delete_state i ∷ []) v)
  unfolding apply_all apply in_inbox in_handling held
  state_expires-Tracked i v gone t =
      Tracked-at i v _ (λ j q. (refl, refl, rw q refl, refl))
        (record {
          inboxed = rw (put_eq i none v.state) (omega (arith, gone));
          taken = rw (put_eq i none v.state) (omega (arith, gone));
          kept = rw (put_eq i none v.state) (omega arith);
        })
        t

  pub payload_expires-Tracked :
      (i : ℕ) (v : View P)
      → copies i v.inbox + copies i v.handling ≡ 0
      → Tracked v
      → Tracked (apply_all (delete_payload i ∷ []) v)
  unfolding apply_all apply
  payload_expires-Tracked i v gone t =
      Tracked-at i v _ (λ j q. (refl, refl, refl, rw q refl))
        (record {
          inboxed = (t i).inboxed;
          taken = (t i).taken;
          kept = omega (arith, gone, (t i).inboxed, (t i).taken);
        })
        t

  -- An id of a list of a tracked view has its payload.
  pub has_payload :
      (i : ℕ) (v : View P)
      → Tracked v
      → 1 ≤ copies i v.inbox + copies i v.handling
      → (p : P) × (v.payload i ≡ some p)
  unfolding held
  has_payload i v t l = elim (Option-cases (v.payload i)) [
    | inr found ↦ found
    | inl gone ↦
        let none_held : in_inbox (v.state i) + in_handling (v.state i) ≤ 0 =
          rw gone at (t i).kept in
        let no : ⊥ = omega (arith, none_held, l, (t i).inboxed, (t i).taken) in elim no [ ]
  ]
