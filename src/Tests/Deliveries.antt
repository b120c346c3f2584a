-- ===== src/Tests/Deliveries.antt =====
-- Updates, cached values and claims, at small inputs.
use site_parser_for_freelans.Common.{
  ◌==◌, ℕ, ◌+◌, ◌≡◌, ◌≢◌, refl, sym, ap, Bool, true, false, Option, none, some, List, [], ◌∷◌,
  arith, eq_of_some,
}
use site_parser_for_freelans.Bot.Polling.{Poll, gives, fails, run_polling}
use site_parser_for_freelans.Bot.Polling.Handled.{stands_in, run_polling-AllHandled}
use site_parser_for_freelans.Bot.TtlCache.{TtlCache, build}
use site_parser_for_freelans.Bot.TtlCache.History.{Call, write, look, drop, run}
use site_parser_for_freelans.Bot.TtlCache.Valid.{build-IsValid}
use site_parser_for_freelans.Bot.TtlCache.Recent.{writes}
use site_parser_for_freelans.Bot.Store.{UpdateState, claimed, done}
use site_parser_for_freelans.Bot.Texts.{Texts, put}
use site_parser_for_freelans.Bot.Updates.{
  Handled, returns, exception, returned, claim, claim_update_id, process_update,
}
use site_parser_for_freelans.Bot.Updates.Local.{alone, process_update_once}
use site_parser_for_freelans.Bot.Updates.Shared.{
  Use, claims, completes, forgets, run as use_all, claim_update_id_once,
}
use site_parser_for_freelans.Bot.Cached.{Cached}

abbrev new_cache : TtlCache UpdateState
new_cache = build 10 60

abbrev cache_calls : List (Call UpdateState)
cache_calls = write 5 8 done ∷ look 6 7 ∷ drop 9 ∷ []

-- Texts in memory: every call succeeds.
abbrev set_new :
    ℕ
    → UpdateState
    → Option UpdateState
    → (ℕ → Option UpdateState)
    → Bool × (ℕ → Option UpdateState)
set_new i v none h = (true, put i (some v) h)
set_new i v (some w) h = (false, h)

set_new-true :
    (i : ℕ) (v : UpdateState) (h h' : ℕ → Option UpdateState) (o : Option UpdateState)
    → h i ≡ o
    → some (set_new i v o h) ≡ some (true, h')
    → (h i ≡ none) × (h' ≡ put i (some v) h)
set_new-true i v h h' none e q = (e, sym (ap (λ r. r.1) (eq_of_some q)))
set_new-true i v h h' (some w) e q = cc

set_new-false :
    (i : ℕ) (v : UpdateState) (h h' : ℕ → Option UpdateState) (o : Option UpdateState)
    → h i ≡ o
    → some (set_new i v o h) ≡ some (false, h')
    → (h' ≡ h) × ((w : UpdateState) × (h i ≡ some w))
set_new-false i v h h' none e q = cc
set_new-false i v h h' (some w) e q = (sym (ap (λ r. r.1) (eq_of_some q)), (w, e))

abbrev texts : Texts UpdateState
texts = record {
  Store = ℕ → Option UpdateState;
  holds = λ h. h;
  reachable = λ h. true;
  set = λ i v h. some (put i (some v) h);
  set_nx = λ i v h. some (set_new i v (h i) h);
  delete = λ i h. some (put i none h);
  set_holds = λ i v s s' e. sym (eq_of_some e);
  set_nx_new = λ i v s s' e. set_new-true i v s s' (s i) refl e;
  set_nx_old = λ i v s s' e. set_new-false i v s s' (s i) refl e;
  delete_holds = λ i s s' e. sym (eq_of_some e);
}

abbrev no_texts : ℕ → Option UpdateState
no_texts i = none

abbrev uses : List Use
uses = claims 7 ∷ completes 7 ∷ forgets 8 ∷ []

claim_update_id_once_example :
    (claim_update_id texts 7 (use_all texts uses (claim_update_id texts 7 no_texts).0)).1
    ≢ some claimed
unfolding claim_update_id
claim_update_id_once_example =
    claim_update_id_once texts 7 uses no_texts refl (tt, (tt, ((λ e. omega (arith, e)), tt)))

abbrev counts_calls : ℕ → ℕ × Handled
counts_calls n = (n + 1, returns true)

abbrev raises_always : ℕ → ℕ × Handled
raises_always n = (n + 1, exception)

process_update_once_example :
    (d : TtlCache UpdateState) × (process_update counts_calls true 1 2
        (some 7)
        0
        (alone texts new_cache)
      ≡ (1, alone texts d, returned true))
    × ((process_update counts_calls true 9 9 (some 7) 1 (alone texts (run cache_calls d))).0 ≡ 1)
    × ((process_update counts_calls true 9 9 (some 7) 1 (alone texts (run cache_calls d))).2
        ≡ returned true)
unfolding build claim writes
process_update_once_example =
    process_update_once texts counts_calls 1 2 9 9 7 new_cache cache_calls 0 1 true (omega arith)
      (build-IsValid 10 60 1) refl refl
      ((omega arith, λ e. omega (arith, e)), (omega arith, ((λ e. omega (arith, e)), tt)))
      (omega arith) (omega arith)

abbrev cached : Cached texts UpdateState
cached = record { state_store = none; cache = new_cache }

abbrev backend : ℕ → ℕ × Option UpdateState
backend n = (n + 1, none)

-- Two updates come, the second fails, and then both are given again.
abbrev polls : List Poll
polls = gives 2 (λ i. true) ∷ fails ∷ gives 2 (λ i. i == 5) ∷ []

polled_twice : (run_polling (5 ∷ 7 ∷ []) polls).handled ≡ 5 ∷ 5 ∷ 7 ∷ []
unfolding run_polling
polled_twice = refl

run_polling-AllHandled_example : stands_in 7 (run_polling (5 ∷ 7 ∷ []) polls).handled ≡ true
unfolding run_polling
run_polling-AllHandled_example =
    run_polling-AllHandled (5 ∷ 7 ∷ []) polls 7 ((omega arith, tt), (tt, tt)) refl refl
