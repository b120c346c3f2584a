-- ===== src/SharedPools/Conn.antt =====
-- `_conn` of PooledPostgresRepository: what a connection of the shared pool goes through while a
-- repository uses it. psycopg2 is outside the repository, so what its calls do is an argument.
use site_parser_for_freelans.Common.{
  ℕ, ◌+◌, ◌≡◌, ltb, Bool, true, false, not, ◌&&◌, ◌||◌, List, [], ◌∷◌, ◌++◌, if◌then◌else◌, arith,
}

pub data Action : Type 0 where
  borrow_pool getconn set_timeout body commit rollback putconn close release_lease : Action
  putconn_close : Action

-- Which of the calls return, and whether the connection is closed in the end.
pub record Calls : Type 0 where
  pub borrows : Bool
  pub gets : Bool
  pub sets : Bool
  pub body_returns : Bool
  pub commits : Bool
  pub rolls_back : Bool
  pub is_closed : Bool
  pub puts : Bool

-- The calls in the `try` that return or raise, and whether they raise.
unfoldable pub use_conn : ℕ → Calls → List Action × Bool
use_conn timeout_ms c =
    let tail : List Action × Bool =
      if c.body_returns then (body ∷ commit ∷ [], not c.commits) else (body ∷ [], true) in
    if ltb 0 timeout_ms
    then (if c.sets then (set_timeout ∷ tail.0, tail.1) else (set_timeout ∷ [], true))
    else tail

-- The `finally`.
unfoldable pub give_back : Bool → Calls → List Action
give_back rollback_failed c =
    (if rollback_failed || c.is_closed then putconn_close else putconn)
    ∷ (if c.puts then release_lease ∷ [] else close ∷ release_lease ∷ [])

unfoldable pub end_conn : List Action × Bool → Calls → List Action × Bool
unfolding give_back
end_conn (used, true) c = (used ++ rollback ∷ give_back (not c.rolls_back) c, false)
end_conn (used, false) c = (used ++ give_back false c, true)

-- The calls of `_conn` in their order, and whether it returns.
unfoldable pub conn : ℕ → Calls → List Action × Bool
unfolding use_conn end_conn
conn timeout_ms c =
    if c.borrows
    then (if c.gets
        then (let (actions, returned) = end_conn (use_conn timeout_ms c) c in
            (borrow_pool ∷ getconn ∷ actions, returned))
        else (borrow_pool ∷ getconn ∷ release_lease ∷ [], false))
    else (borrow_pool ∷ [], false)

abbrev pub count : (Action → Bool) → List Action → ℕ
count p [] = 0
count p (x ∷ xs) = let rest = count p xs in if p x then rest + 1 else rest

abbrev pub is_release : Action → Bool
is_release release_lease = true
is_release _ = false

abbrev pub is_put : Action → Bool
is_put putconn = true
is_put putconn_close = true
is_put _ = false

abbrev pub is_rollback : Action → Bool
is_rollback rollback = true
is_rollback _ = false

abbrev pub one_if : Bool → ℕ
one_if b = if b then 1 else 0

-- Whatever psycopg2's calls do: a lease that was borrowed is given up exactly once, a connection that
-- was handed out is given back to the pool exactly once, and is rolled back, once, exactly when `_conn`
-- raises, which it does unless the timeout was set (where there is one), the body returned and the
-- transaction was committed.
pub conn_lem :
    (timeout_ms : ℕ) (c : Calls)
    → let (actions, returned) = conn timeout_ms c in
      let got = c.borrows && c.gets in
      (count is_release actions ≡ one_if c.borrows)
      × (count is_put actions ≡ one_if got)
      × (count is_rollback actions ≡ one_if (got && not returned))
      × (returned ≡ (got && (not (ltb 0 timeout_ms) || c.sets) && c.body_returns && c.commits))
unfolding conn use_conn end_conn give_back
conn_lem timeout_ms c = ground arith
