-- ===== src/Bot/Updates/Shared.antt =====
-- The claims of the processes that share a Redis.
use site_parser_for_freelans.Common.{
  ℕ, ◌≡◌, ◌≢◌, refl, ap, ◌∙◌, inl, inr, Bool, true, false, ◌==◌, Option, none, some, List, [], ◌∷◌,
  Bool-cases, All, eq_of_some, arith,
}
use site_parser_for_freelans.Bot.Store.{UpdateState, claimed, inflight, done}
use site_parser_for_freelans.Bot.Texts.{Texts, put}
use site_parser_for_freelans.Bot.Updates.{known_state, claim_in_store, claim_update_id, sent}

-- A call of a method of the store, by any process.
pub data Use : Type 0 where
  claims completes forgets : ℕ → Use

-- A call that does not forget the id.
abbrev pub Keeps : ℕ → Use → Type 0
Keeps i (claims j) = Unit
Keeps i (completes j) = Unit
Keeps i (forgets j) = j ≢ i

module _ (server : Texts UpdateState) where
  -- The store after a call; a failure of Redis may keep it as it was.
  unfoldable pub step : Use → server.Store → server.Store
  unfolding claim_update_id sent
  step (claims j) s = (claim_update_id server j s).0
  step (completes j) s = sent server (server.set j done s) s
  step (forgets j) s = sent server (server.delete j s) s

  unfoldable pub run : List Use → server.Store → server.Store
  unfolding step
  run [] s = s
  run (u ∷ us) s = run us (step u s)

  abbrev pub Known : ℕ → server.Store → Type 0
  Known i s = (x : UpdateState) × (server.holds s i ≡ some x)

  put_known :
      (i j : ℕ) (v : UpdateState) (f : ℕ → Option UpdateState)
      → ((x : UpdateState) × (f i ≡ some x))
      → (x : UpdateState) × (put j (some v) f i ≡ some x)
  put_known i j v f (x, e) = elim (Bool-cases (i == j)) [
    | inl p ↦ (v, rw p refl)
    | inr p ↦ (x, rw p e)
  ]

  claim-Known : (i j : ℕ) (s : server.Store) → Known i s → Known i (claim_update_id server j s).0
  unfolding claim_update_id claim_in_store
  claim-Known i j s k = after (server.set_nx j inflight s) refl
    where
      after :
          (o : Option (Bool × server.Store))
          → server.set_nx j inflight s ≡ o
          → Known i (claim_in_store server j o s).0
      after none e = k
      after (some (true, s')) e =
          rw (ap (λ f. f i) (server.set_nx_new j inflight s s' e).1)
            (put_known i j inflight (server.holds s) k)
      after (some (false, s')) e =
          let same : Known i s' =
            (k.0, ap (λ f. f i) (server.set_nx_old j inflight s s' e).0 ∙ k.1) in
          elim (Bool-cases (server.reachable s')) [ inl p ↦ rw p same | inr p ↦ rw p same ]

  step-Known : (i : ℕ) (u : Use) (s : server.Store) → Keeps i u → Known i s → Known i (step u s)
  unfolding step sent
  step-Known i (claims j) s h k = claim-Known i j s k
  step-Known i (completes j) s h k = after (server.set j done s) refl
    where
      after : (o : Option server.Store) → server.set j done s ≡ o → Known i (sent server o s)
      after none e = k
      after (some s') e =
          rw (ap (λ f. f i) (server.set_holds j done s s' e))
            (put_known i j done (server.holds s) k)
  step-Known i (forgets j) s h k = after (server.delete j s) refl
    where
      after : (o : Option server.Store) → server.delete j s ≡ o → Known i (sent server o s)
      after none e = k
      after (some s') e =
          let other : put j none (server.holds s) i ≡ server.holds s i = ground (arith, h) in
          (k.0, ap (λ f. f i) (server.delete_holds j s s' e) ∙ other ∙ k.1)

  run-Known :
      (i : ℕ) (us : List Use) (s : server.Store) → All (Keeps i) us → Known i s → Known i (run us s)
  unfolding run
  run-Known i [] s h k = k
  run-Known i (u ∷ us) s h k = run-Known i us (step u s) h.1 (step-Known i u s h.0 k)

  known_is_not_claimed : (o : Option UpdateState) → known_state o ≢ claimed
  unfolding known_state
  known_is_not_claimed none e = cc
  known_is_not_claimed (some done) e = cc
  known_is_not_claimed (some x) e = cc

  claimed-Known :
      (i : ℕ) (s : server.Store)
      → (claim_update_id server i s).1 ≡ some claimed
      → (server.holds s i ≡ none) × Known i (claim_update_id server i s).0
  unfolding claim_update_id claim_in_store
  claimed-Known i s = after (server.set_nx i inflight s) refl
    where
      after :
          (o : Option (Bool × server.Store))
          → server.set_nx i inflight s ≡ o
          → (claim_in_store server i o s).1 ≡ some claimed
          → (server.holds s i ≡ none) × Known i (claim_in_store server i o s).0
      after none e h = cc
      after (some (true, s')) e h =
          let (new, holds) = server.set_nx_new i inflight s s' e in
          (new, (inflight, ap (λ f. f i) holds ∙ ground arith))
      after (some (false, s')) e h = elim (Bool-cases (server.reachable s')) [
        | inl p ↦
            let no : ⊥ = known_is_not_claimed (server.holds s' i) (eq_of_some (rw p at h)) in
            elim no [ ]
        | inr p ↦ cc (rw p at h)
      ]

  -- Of all the claims of an id only one is granted until the id is forgotten, whatever the processes
  -- claim, complete and forget in between and whichever of their calls fail.
  pub claim_update_id_once :
      (i : ℕ) (us : List Use) (s : server.Store)
      → (claim_update_id server i s).1 ≡ some claimed
      → All (Keeps i) us
      → (claim_update_id server i (run us (claim_update_id server i s).0)).1 ≢ some claimed
  claim_update_id_once i us s granted keeps again =
      let (x, e) =
        run-Known i us (claim_update_id server i s).0 keeps (claimed-Known i s granted).1 in
      let new = (claimed-Known i (run us (claim_update_id server i s).0) again).0 in cc
