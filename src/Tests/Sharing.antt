-- ===== src/Tests/Sharing.antt =====
-- Runs of the shared connection pools of PostgreSQL.
use site_parser_for_freelans.Common.{
  ◌+◌, ◌≡◌, refl, true, false, not, ◌&&◌, ◌||◌, none, some, [], ◌∷◌, ltb, arith,
}
use site_parser_for_freelans.Common.Copies.{copies}
use site_parser_for_freelans.SharedPools.{SharedPools, is_current, borrow_pool}
use site_parser_for_freelans.SharedPools.Threads.{
  World, start, opens, closes, leaves, returns, cleans, Reach, here, next, step_opens, step_closes,
  step_leaves, step_borrows, step_returns, step_cleans,
}
use site_parser_for_freelans.SharedPools.Closed.{closed-Unused, unused-Closed}
use site_parser_for_freelans.SharedPools.Conn.{
  Calls, conn, conn_lem, count, is_release, is_put, is_rollback, one_if,
}

-- A repository opens, lends a connection, is closed while it is in use, and the connection comes back.
abbrev lends : SharedPools → SharedPools
lends s = elim (borrow_pool true 0 s) [ none ↦ s | some t ↦ t ]

abbrev lent : World
lent = record (opens start) { pools = lends (opens start).pools; leases = 0 ∷ [] }

abbrev closed_down : World
closed_down = cleans 0 (returns 0 (leaves 0 (closes 0 lent)))

closed_down-Reach : Reach start closed_down
unfolding opens closes leaves returns cleans copies borrow_pool
closed_down-Reach =
    next
      (next
        (next
          (next
            (next (next here (step_opens start))
              (step_borrows true 0 (opens start) (lends (opens start).pools) refl refl))
            (step_closes 0 lent refl))
          (step_leaves 0 (closes 0 lent) refl))
        (step_returns 0 (leaves 0 (closes 0 lent)) refl))
      (step_cleans 0 (returns 0 (leaves 0 (closes 0 lent))) refl)

closed_once : closed_down.closed ≡ 0 ∷ []
unfolding opens closes leaves returns cleans borrow_pool
closed_once = refl

closed-Unused_example :
    (copies 0 closed_down.serving + copies 0 closed_down.leaving + copies 0 closed_down.leases ≡ 0)
    × (copies 0 closed_down.closed ≡ 1)
    × (is_current 0 closed_down.pools.current ≡ false)
unfolding opens closes leaves returns cleans borrow_pool copies
closed-Unused_example = closed-Unused closed_down 0 closed_down-Reach (omega arith)

unused-Closed_example : copies 0 closed_down.closed ≡ 1
unfolding opens closes leaves returns cleans borrow_pool copies
unused-Closed_example = unused-Closed closed_down 0 closed_down-Reach refl refl

-- A repository that is opened between the removal of an entry and its clean-up loses its provider.
abbrev reopened : World
reopened = cleans 0 (opens (leaves 0 (closes 0 (opens start))))

provider_is_lost : (reopened.pools.current ≡ some 1) × (reopened.pools.provider ≡ false)
unfolding opens closes leaves cleans
provider_is_lost = (refl, refl)

-- A commit that fails.
abbrev failing_commit : Calls
failing_commit = record {
  borrows = true;
  gets = true;
  sets = true;
  body_returns = true;
  commits = false;
  rolls_back = true;
  is_closed = false;
  puts = true;
}

conn_lem_example :
    let (actions, returned) = conn 10000 failing_commit in
    let got = failing_commit.borrows && failing_commit.gets in
    (count is_release actions ≡ one_if failing_commit.borrows)
    × (count is_put actions ≡ one_if got)
    × (count is_rollback actions ≡ one_if (got && not returned))
    × (returned ≡ (
        got
        && (not (ltb 0 10000) || failing_commit.sets)
        && failing_commit.body_returns
        && failing_commit.commits))
conn_lem_example = conn_lem 10000 failing_commit
