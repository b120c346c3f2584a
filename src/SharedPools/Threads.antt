-- ===== src/SharedPools/Threads.antt =====
-- The steps that threads take on the shared pools: each part of a method that holds the lock is a
-- step, and the steps of different repositories interleave.
use site_parser_for_freelans.Common.{ℕ, ◌≡◌, Bool, true, some, List, [], ◌∷◌, ltb, if◌then◌else◌}
use site_parser_for_freelans.Common.Copies.{copies, drop_one}
use site_parser_for_freelans.SharedPools.{
  SharedPools, no_pools, retain_shared_pool_entry, borrow_pool, release_pool_lease,
  release_shared_pool_ref, clean_up,
}

-- The entries of the repositories that are not closed, of those whose `close` has not yet given up
-- the reference, of the connections in use, and of the clean-ups that are still to be done; and the
-- entries whose pools were closed.
pub record World : Type 0 where
  pub pools : SharedPools
  pub serving : List ℕ
  pub leaving : List ℕ
  pub leases : List ℕ
  pub cleanups : List ℕ
  pub closed : List ℕ

abbrev pub start : World
start = record {
  pools = no_pools;
  serving = [];
  leaving = [];
  leases = [];
  cleanups = [];
  closed = [];
}

abbrev pub todo : Bool → ℕ → List ℕ → List ℕ
todo removed a as_before = if removed then a ∷ as_before else as_before

-- `__init__` of a repository.
unfoldable pub opens : World → World
unfolding retain_shared_pool_entry
opens w =
    let (s, a) = retain_shared_pool_entry w.pools in record w { pools = s; serving = a ∷ w.serving }

-- `close` under the lock of the repository, which then refuses to lend.
unfoldable pub closes : ℕ → World → World
closes a w = record w { serving = drop_one a w.serving; leaving = a ∷ w.leaving }

-- The rest of `close`.
unfoldable pub leaves : ℕ → World → World
unfolding release_shared_pool_ref drop_one
leaves a w =
    let (s, removed) = release_shared_pool_ref a w.pools in
    record w { pools = s; leaving = drop_one a w.leaving; cleanups = todo removed a w.cleanups }

-- The end of `_conn`, or of a `getconn` that raised.
unfoldable pub returns : ℕ → World → World
unfolding release_pool_lease drop_one
returns a w =
    let (s, removed) = release_pool_lease a w.pools in
    record w { pools = s; leases = drop_one a w.leases; cleanups = todo removed a w.cleanups }

unfoldable pub cleans : ℕ → World → World
unfolding clean_up drop_one
cleans a w =
    let (s, has_pool) = clean_up a w.pools in
    record w { pools = s; cleanups = drop_one a w.cleanups; closed = todo has_pool a w.closed }

abbrev pub Holds : ℕ → List ℕ → Type 0
Holds a l = ltb 0 (copies a l) ≡ true

pub data Step : World → World → Type 0 where
  step_opens : (w : World) → Step w (opens w)
  step_closes : (a : ℕ) (w : World) → Holds a w.serving → Step w (closes a w)
  step_leaves : (a : ℕ) (w : World) → Holds a w.leaving → Step w (leaves a w)
  step_borrows :
      (can_open : Bool) (a : ℕ) (w : World) (s : SharedPools)
      → Holds a w.serving
      → borrow_pool can_open a w.pools ≡ some s
      → Step w (record w { pools = s; leases = a ∷ w.leases })
  step_returns : (a : ℕ) (w : World) → Holds a w.leases → Step w (returns a w)
  step_cleans : (a : ℕ) (w : World) → Holds a w.cleanups → Step w (cleans a w)

pub data Reach (v : World) : World → Type 0 where
  here : Reach v v
  next : {w u : World} → Reach v w → Step w u → Reach v u
