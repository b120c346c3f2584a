-- ===== src/BrowserPool.antt =====
-- browser-service/browser_pool.py: the pool of browsers. An instance is an object with an address,
-- as callers keep instances that the pool has replaced. The tasks are the ids for which
-- _recreate_browser is scheduled. Each method runs as a whole: what its lock does not cover is
-- launching, of which the outcome is an argument. Playwright is a parameter.
pub mod Counts
pub mod Bounds
pub mod Ids
pub mod Slots
pub mod Choice
pub mod Render
use site_parser_for_freelans.Common.{
  ℕ, zero, suc, ◌+◌, ◌-◌, ◌*◌, Bool, true, false, not, ◌&&◌, ◌==◌, Option, none, some, List, [],
  ◌∷◌, ◌++◌, if◌then◌else◌, ltb, keep_if,
}
use site_parser_for_freelans.Common.Copies.{drop_one}

pub record BrowserInstance : Type 0 where
  pub browser_id : ℕ
  pub active : ℕ
  pub max_concurrent : ℕ
  pub healthy : Bool
  pub created_at : ℕ

unfoldable pub is_expired : ℕ → ℕ → BrowserInstance → Bool
is_expired now ttl_seconds b = ltb ttl_seconds (now - b.created_at)

pub record BrowserPool : Type 0 where
  pub pool_size : ℕ
  pub max_concurrent : ℕ
  pub browser_ttl : ℕ
  -- Is there a `playwright_factory`?
  pub has_factory : Bool
  -- The object at an address; those from `next` on are not used yet.
  pub objects : ℕ → BrowserInstance
  pub next : ℕ
  pub instances : List ℕ
  pub tasks : List ℕ

unfoldable pub update : ℕ → BrowserInstance → (ℕ → BrowserInstance) → ℕ → BrowserInstance
update a b objects x = if x == a then b else objects x

unfoldable pub is_available : BrowserInstance → Bool
is_available b = b.healthy && ltb b.active b.max_concurrent

-- `load_ratio` of `a` is smaller than that of `b`, both having room: the fractions, whose order the
-- floats of such small numbers keep.
unfoldable pub is_lighter : BrowserInstance → BrowserInstance → Bool
is_lighter a b = ltb (a.active * b.max_concurrent) (b.active * a.max_concurrent)

-- `min(healthy, key=lambda b: b.load_ratio)`: of the least, the first one.
unfoldable pub least_loaded : (ℕ → BrowserInstance) → ℕ → List ℕ → ℕ
unfolding is_lighter
least_loaded objects a [] = a
least_loaded objects a (b ∷ bs) =
    let lighter = if is_lighter (objects b) (objects a) then b else a in
    least_loaded objects lighter bs

-- One more page for the chosen browser; `none` is PoolExhausted.
unfoldable pub take_from : List ℕ → BrowserPool → BrowserPool × Option ℕ
unfolding least_loaded update
take_from [] p = (p, none)
take_from (a ∷ others) p =
    let chosen = least_loaded p.objects a others in
    let b = p.objects chosen in
    (
      record p { objects = update chosen (record b { active = b.active + 1 }) p.objects },
      some chosen,
    )

unfoldable pub acquire : BrowserPool → BrowserPool × Option ℕ
unfolding take_from is_available
acquire p = take_from (keep_if (λ a. is_available (p.objects a)) p.instances) p

unfoldable pub release : ℕ → BrowserPool → BrowserPool
unfolding update
release a p =
    let b = p.objects a in
    record p { objects = update a (record b { active = b.active - 1 }) p.objects }

-- With `wait` the task is run at once.
unfoldable pub mark_unhealthy : ℕ → BrowserPool → BrowserPool
unfolding update
mark_unhealthy a p =
    let b = p.objects a in
    record p {
      objects = update a (record b { healthy = false; active = b.active - 1 }) p.objects;
      tasks = p.tasks ++ b.browser_id ∷ [];
    }

-- A pass over the instances that marks those that fail a test and are healthy.
unfoldable pub mark_each : (BrowserInstance → ℕ → Bool) → List ℕ → BrowserPool → BrowserPool
unfolding mark_unhealthy
mark_each fails [] p = p
mark_each fails (a ∷ others) p =
    let b = p.objects a in
    mark_each fails others (if b.healthy && fails b a then mark_unhealthy a p else p)

-- `health_check`, with the browsers that answer.
unfoldable pub health_check : (ℕ → Bool) → BrowserPool → BrowserPool
unfolding mark_each
health_check responds p = mark_each (λ b a. not (responds a)) p.instances p

-- The second half of the loop of `start_health_check_loop`.
unfoldable pub recycle_expired : ℕ → BrowserPool → BrowserPool
unfolding mark_each is_expired
recycle_expired now p = mark_each (λ b a. is_expired now p.browser_ttl b) p.instances p

-- `_launch_browser_instance`: a new object.
unfoldable pub launch_browser_instance : ℕ → ℕ → BrowserPool → BrowserPool
unfolding update
launch_browser_instance now browser_id p =
    let b : BrowserInstance = record {
      browser_id = browser_id;
      active = 0;
      max_concurrent = p.max_concurrent;
      healthy = true;
      created_at = now;
    } in
    record p { objects = update p.next b p.objects; next = p.next + 1 }

-- `self._instances[idx] = instance` of the first with the id, or `append`.
unfoldable pub place : (ℕ → BrowserInstance) → ℕ → ℕ → List ℕ → List ℕ
place objects browser_id new [] = new ∷ []
place objects browser_id new (a ∷ others) =
    let rest = place objects browser_id new others in
    if (objects a).browser_id == browser_id then new ∷ others else a ∷ rest

-- How the rebuilding of the pool ends after the transport was closed: with a new pool, with an
-- exception of the factory or of a launch, or it was done by another task before.
pub data Rebuild : Type 0 where
  rebuilt rebuild_fails rebuilt_before : Rebuild

pub data Launch : Type 0 where
  launched launch_fails : Launch
  transport_closed : Rebuild → Launch

-- `for browser_id in range(…)`: launches the browsers from `browser_id` on, and lists them.
unfoldable pub launch_each : ℕ → ℕ → ℕ → BrowserPool → BrowserPool × List ℕ
unfolding launch_browser_instance
launch_each now browser_id zero p = (p, [])
launch_each now browser_id (suc n) p =
    let rest = launch_each now (browser_id + 1) n (launch_browser_instance now browser_id p) in
    (rest.0, p.next ∷ rest.1)

-- What the rebuilding does first, under the lock: other tasks see an empty pool until it ends.
unfoldable pub empty_instances : BrowserPool → BrowserPool
empty_instances p = record p { instances = [] }

-- `_recover_transport_if_needed` from `empty_instances` on, and whether it returned True; False is an
-- exception here.
unfoldable pub recover_transport : ℕ → Rebuild → BrowserPool → BrowserPool × Bool
unfolding launch_each
recover_transport now rebuilt p =
    let new = launch_each now 0 p.pool_size (record p { instances = [] }) in
    (record new.0 { instances = new.1 }, true)
recover_transport now rebuild_fails p = (record p { instances = [] }, false)
recover_transport now rebuilt_before p = (p, true)

-- `_create_browser`, and whether it returned.
unfoldable pub create_browser : ℕ → ℕ → Launch → BrowserPool → BrowserPool × Bool
unfolding place launch_browser_instance recover_transport
create_browser now browser_id launched p =
    let q = launch_browser_instance now browser_id p in
    (record q { instances = place p.objects browser_id p.next p.instances }, true)
create_browser now browser_id launch_fails p = (p, false)
create_browser now browser_id (transport_closed r) p =
    let recovered = recover_transport now r p in if p.has_factory then recovered else (p, false)

-- `_recreate_browser`, run by a task for the id; after an exception it is scheduled again.
unfoldable pub recreate_browser : ℕ → ℕ → Launch → BrowserPool → BrowserPool
unfolding create_browser
recreate_browser now browser_id launch p =
    let (q, returned) = create_browser now browser_id launch p in
    if returned then record q { tasks = drop_one browser_id q.tasks } else q

-- `initialize`, with the outcome of each launch, until the first that raises.
unfoldable pub initialize_from : ℕ → ℕ → List Launch → BrowserPool → BrowserPool × Bool
unfolding create_browser
initialize_from now browser_id [] p = (p, true)
initialize_from now browser_id (l ∷ ls) p =
    let (q, returned) = create_browser now browser_id l p in
    let rest = initialize_from now (browser_id + 1) ls q in if returned then rest else (q, false)

unfoldable pub shutdown : BrowserPool → BrowserPool
shutdown p = record p { instances = [] }
