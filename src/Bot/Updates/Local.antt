-- ===== src/Bot/Updates/Local.antt =====
-- A process of the bot without Redis, whose claims are those of its cache.
use site_parser_for_freelans.Common.{
  ℕ, ◌+◌, ◌≤◌, ◌<◌, ◌≡◌, ◌≢◌, refl, ap, ◌∙◌, inl, inr, ◌⊎◌, Bool, true, false, Option, none, some,
  List, [], ◌∷◌, Bool-cases, All, ltb, leb, arith,
}
use site_parser_for_freelans.Bot.TtlCache.{Entry, TtlCache, find, prune, set, pop}
use site_parser_for_freelans.Bot.TtlCache.Entries.{Absent, find-Absent, remove-Absent}
use site_parser_for_freelans.Bot.TtlCache.History.{Call, run}
use site_parser_for_freelans.Bot.TtlCache.Valid.{IsValid, set-IsValid, prune-IsValid}
use site_parser_for_freelans.Bot.TtlCache.Recent.{
  Recent, Spares, writes, prune-Recent, set-Recent, run-Recent,
}
use site_parser_for_freelans.Bot.Store.{UpdateState, claimed, inflight, done}
use site_parser_for_freelans.Bot.Texts.{Texts}
use site_parser_for_freelans.Bot.Updates.{
  Handled, returns, keyboard_interrupt, exception, Processed, returned, interrupted,
  complete_in_store, forget_in_store, Bot, set_processed_update_state, claim_found, claim_locally,
  claim_with, claim, complete, forget, finish, handle, handle_claimed, process_update,
}

module _ (server : Texts UpdateState) where
  -- A process without Redis, and its cache.
  abbrev pub alone : TtlCache UpdateState → Bot server
  alone c = record { state_store = none; processed = c }

  -- The cache after a claim is valid, and expires and drops its entries as before.
  claim-IsValid :
      (now i : ℕ) (c : TtlCache UpdateState)
      → IsValid now c
      → (d : TtlCache UpdateState) × ((claim now i (alone c)).0 ≡ alone d)
        × IsValid now d
        × (d.ttl ≡ c.ttl)
        × (d.maxsize ≡ c.maxsize)
  unfolding claim claim_with claim_locally claim_found set_processed_update_state set
  claim-IsValid now i c v = found (find i (prune now c.items))
    where
      pruned : TtlCache UpdateState
      pruned = record c { items = prune now c.items }

      valid : IsValid now pruned
      valid = prune-IsValid now now c (omega arith) v

      found :
          (o : Option (Entry UpdateState))
          → (d : TtlCache UpdateState) × ((claim_found now i o (alone pruned)).0 ≡ alone d)
            × IsValid now d
            × (d.ttl ≡ c.ttl)
            × (d.maxsize ≡ c.maxsize)
      found none = (
        set now i inflight pruned,
        refl,
        set-IsValid now now i inflight pruned (omega arith) valid,
        refl,
        refl,
      )
      found (some e) = elim (Bool-cases (ltb now e.expires_at)) [
        | inl p ↦ (pruned, rw p refl, valid, refl, refl)
        | inr p ↦ (
          set now i inflight pruned,
          rw p refl,
          set-IsValid now now i inflight pruned (omega arith) valid,
          refl,
          refl,
        )
      ]

  -- An id whose entry has not expired has the state of the entry.
  claim-Recent :
      (now i n : ℕ) (x : Entry UpdateState) (c : TtlCache UpdateState)
      → now < x.expires_at
      → Recent i x n c.items
      → (claim now i (alone c)).1 ≡ x.value
  unfolding claim claim_with claim_locally claim_found Recent
  claim-Recent now i n x c l r =
      let kept : find i (prune now c.items) ≡ some x = (prune-Recent now i x n c.items l r).0 in
      let early : ltb now x.expires_at ≡ true = ground (arith, l) in rw kept (rw early refl)

  -- An id without an entry is claimed.
  claim-Absent :
      (now i : ℕ) (c : TtlCache UpdateState)
      → Absent i c.items
      → (claim now i (alone c)).1 ≡ claimed
  unfolding claim claim_with claim_locally claim_found prune
  claim-Absent now i c a =
      let gone : find i (prune now c.items) ≡ none =
        find-Absent i (prune now c.items) (prune-Absent c.items a) in
      rw gone refl
    where
      prune-Absent : (es : List (Entry UpdateState)) → Absent i es → Absent i (prune now es)
      prune-Absent [] h = tt
      prune-Absent (e ∷ es) h = elim (Bool-cases (leb e.expires_at now)) [
        | inl p ↦ rw p (prune-Absent es h.1)
        | inr p ↦ rw p h
      ]

  module _ {World : Type 0} (handle_update : World → World × Handled) where
    handle_claimed-done :
        (later i : ℕ) (v : World) (q : Bot server × UpdateState)
        → q.1 ≡ done
        → ((handle_claimed handle_update later i v q).0 ≡ v)
          × ((handle_claimed handle_update later i v q).2 ≡ returned true)
    unfolding handle_claimed
    handle_claimed-done later i v (b, x) e = rw e (refl, refl)

    handle_claimed-claimed :
        (later i : ℕ) (w : World) (b : Bot server) (q : Bot server × UpdateState)
        → q.0 ≡ b
        → q.1 ≡ claimed
        → handle_claimed handle_update later i w q ≡ handle handle_update later (some i) w b
    unfolding handle_claimed
    handle_claimed-claimed later i w b (c, x) e f =
        rw f (ap (λ z. handle handle_update later (some i) w z) e)

    -- Without Redis, an update that was claimed and handled is skipped, with the handler not called
    -- and True returned, when it comes again before its entry expires, if the calls on the valid cache
    -- in between are made before that, neither write nor remove its key, and fewer than `maxsize` of
    -- them write.
    pub process_update_once :
        (t1 t2 now later i : ℕ) (c : TtlCache UpdateState) (calls : List (Call UpdateState))
        → (w v : World) (x : Bool) → t1 ≤ t2
        → IsValid t1 c
        → (claim t1 i (alone c)).1 ≡ claimed
        → (handle_update w).1 ≡ returns x
        → All (Spares i (t2 + c.ttl)) calls
        → writes calls < c.maxsize
        → now < t2 + c.ttl
        → (d : TtlCache UpdateState) × (process_update handle_update true t1 t2 (some i) w (alone c)
            ≡ ((handle_update w).0, alone d, returned true))
          × ((process_update handle_update true now later (some i) v (alone (run calls d))).0 ≡ v)
          × ((process_update handle_update true now later (some i) v (alone (run calls d))).2
              ≡ returned true)
    unfolding process_update handle finish complete set_processed_update_state complete_in_store
        Recent
    process_update_once t1 t2 now later i c calls w v x h valid new good spares few early =
        let (d, is_alone, d_valid, same_ttl, same_size) = claim-IsValid t1 i c valid in
        let put_done = set-Recent t2 i done d d_valid.distinct in
        let on_time = ap (λ m. t2 + m) same_ttl in
        let (n, recent) =
          run-Recent calls (set t2 i done d) i _ 0 (rw on_time spares)
            (size d (omega (arith, few, same_size))) put_done in
        let skips =
          handle_claimed-done later i v (claim now i (alone (run calls (set t2 i done d)))) (
            claim-Recent now i n _ (run calls (set t2 i done d)) (omega (arith, early, on_time))
              recent) in
        (
          set t2 i done d,
          handle_claimed-claimed t2 i w (alone d) (claim t1 i (alone c)) is_alone new
              ∙ rw good refl,
          skips.0,
          skips.1,
        )
      where
        size :
            (d : TtlCache UpdateState)
            → writes calls < d.maxsize
            → 0 + writes calls < (set t2 i done d).maxsize
        size d l = omega (arith, l)

    -- Without Redis, an update that was claimed on a valid cache and whose handler raised or was
    -- interrupted is not reported as done, and is handled when it is delivered again, whenever that is.
    pub process_update_again :
        (t1 t2 now later i : ℕ) (c : TtlCache UpdateState) (w v : World)
        → IsValid t1 c
        → (claim t1 i (alone c)).1 ≡ claimed
        → ((handle_update w).1 ≡ exception) ⊎ ((handle_update w).1 ≡ keyboard_interrupt)
        → (b : Bot server) × (r : Processed) × (r ≢ returned true)
          × (process_update handle_update true t1 t2 (some i) w (alone c)
              ≡ ((handle_update w).0, b, r))
          × ((process_update handle_update true now later (some i) v b).0 ≡ (handle_update v).0)
    unfolding process_update handle finish forget forget_in_store pop
    process_update_again t1 t2 now later i c w v valid new bad =
        let (d, is_alone, d_valid, same_ttl, same_size) = claim-IsValid t1 i c valid in
        let first = handle_claimed-claimed t2 i w (alone d) (claim t1 i (alone c)) is_alone new in
        let second =
          handle_claimed-claimed later i v _ (claim now i (alone (pop i d))) refl
            (claim-Absent now i (pop i d) (remove-Absent i d.items d_valid.distinct)) in
        elim bad [
          | inl e ↦
              (alone (pop i d), returned false, λ no. cc, first ∙ rw e refl, ap (λ q. q.0) second)
          | inr e ↦
              (alone (pop i d), interrupted, λ no. cc, first ∙ rw e refl, ap (λ q. q.0) second)
        ]
