-- ===== src/BrowserPool/Bounds.antt =====
-- How many callers hold a browser of the pool.
use site_parser_for_freelans.Common.{
  ℕ, zero, suc, ◌+◌, ◌≤◌, ◌<◌, refl, sym, inl, inr, Bool, true, false, not, ◌==◌, List, [], ◌∷◌,
  if◌then◌else◌, ltb, All, if_either, Bool-cases, arith,
}
use site_parser_for_freelans.Common.Copies.{copies, drop_one}
use site_parser_for_freelans.BrowserPool.{
  BrowserInstance, BrowserPool, acquire, release, mark_unhealthy, health_check, recycle_expired,
  is_expired, launch_browser_instance, place, Launch, launched, launch_fails, transport_closed,
  Rebuild, rebuilt, rebuild_fails, rebuilt_before, launch_each, recover_transport, create_browser,
  recreate_browser, empty_instances,
}
use site_parser_for_freelans.BrowserPool.Counts.{
  hold, Counts, update-Counts, acquire-Counts, release-Counts, mark_unhealthy-Counts,
  mark_each-Counts,
}

-- What happens to the pool. A render releases the browser that it acquired, whatever it did with it;
-- a rebuilding of the pool empties it first, and other tasks run before it ends.
pub data Event : Type 0 where
  acquires empties : Event
  releases marks : ℕ → Event
  checks : (ℕ → Bool) → Event
  recycles : ℕ → Event
  recreates : ℕ → ℕ → Launch → Event

-- The pool, and the instances that are held, once for each holder.
unfoldable pub step : Event → BrowserPool → List ℕ → BrowserPool × List ℕ
unfolding hold acquire release mark_unhealthy health_check recycle_expired empty_instances
    recreate_browser
step acquires p held = hold (acquire p) held
step (releases a) p held =
    if ltb 0 (copies a held) then (release a p, drop_one a held) else (p, held)
step (marks a) p held = (mark_unhealthy a p, held)
step (checks responds) p held = (health_check responds p, held)
step (recycles now) p held = (recycle_expired now p, held)
step empties p held = (empty_instances p, held)
step (recreates now browser_id launch) p held = (recreate_browser now browser_id launch p, held)

unfoldable pub run : List Event → BrowserPool → List ℕ → BrowserPool × List ℕ
unfolding step
run [] p held = (p, held)
run (e ∷ es) p held = let (q, holders) = step e p held in run es q holders

later-All : (n : ℕ) (xs : List ℕ) → All (λ a. a < n) xs → All (λ a. a < n + 1) xs
later-All n [] h = tt
later-All n (x ∷ xs) h = (omega (arith, h.0), later-All n xs h.1)

launch-Counts :
    (now id : ℕ) (p : BrowserPool) (held : List ℕ)
    → Counts p held
    → Counts (launch_browser_instance now id p) held
unfolding launch_browser_instance
launch-Counts now id p held c =
    let none_yet = c.unused p.next (omega arith) in
    let d =
      update-Counts p held held p.tasks p.next
        (record {
          browser_id = id;
          active = 0;
          max_concurrent = p.max_concurrent;
          healthy = true;
          created_at = now;
        })
        c (λ x e. refl) (λ h. sym none_yet) (omega (arith, none_yet)) (λ l. none_yet) in
    record {
      counted = d.counted;
      capped = d.capped;
      unused = λ a l. c.unused a (omega (arith, l));
      listed = later-All p.next p.instances c.listed;
    }

list-Counts :
    (xs : List ℕ) (p : BrowserPool) (held : List ℕ)
    → All (λ a. a < p.next) xs
    → Counts p held
    → Counts (record p { instances = xs }) held
list-Counts xs p held h c = record {
  counted = c.counted;
  capped = c.capped;
  unused = c.unused;
  listed = h;
}

place-All :
    (P : ℕ → Type 0) (objects : ℕ → BrowserInstance) (id new : ℕ) (xs : List ℕ)
    → P new
    → All P xs
    → All P (place objects id new xs)
unfolding place
place-All P objects id new [] h hs = (h, tt)
place-All P objects id new (x ∷ xs) h hs = elim (Bool-cases ((objects x).browser_id == id)) [
  | inl e ↦ rw e (h, hs.1)
  | inr e ↦ rw e (hs.0, place-All P objects id new xs h hs.1)
]

launch_each-Counts :
    (now id n : ℕ) (p : BrowserPool) (held : List ℕ)
    → Counts p held
    → Counts (launch_each now id n p).0 held
      × (p.next ≤ (launch_each now id n p).0.next)
      × All (λ a. a < (launch_each now id n p).0.next) (launch_each now id n p).1
unfolding launch_each launch_browser_instance
launch_each-Counts now id zero p held c = (c, omega arith, tt)
launch_each-Counts now id (suc n) p held c =
    let (d, grows, below) =
      launch_each-Counts now (id + 1) n (launch_browser_instance now id p) held
        (launch-Counts now id p held c) in
    (d, omega (arith, grows), (omega (arith, grows), below))

create_browser-Counts :
    (now id : ℕ) (launch : Launch) (p : BrowserPool) (held : List ℕ)
    → Counts p held
    → Counts (create_browser now id launch p).0 held
unfolding create_browser launch_browser_instance recover_transport
create_browser-Counts now id launched p held c =
    list-Counts (place p.objects id p.next p.instances) (launch_browser_instance now id p) held
      (place-All (λ a. a < p.next + 1) p.objects id p.next p.instances (omega arith)
        (later-All p.next p.instances c.listed))
      (launch-Counts now id p held c)
create_browser-Counts now id launch_fails p held c = c
create_browser-Counts now id (transport_closed r) p held c =
    if_either (λ (q : BrowserPool × Bool). Counts q.0 held) p.has_factory
      (recover_transport now r p) (p, false) (recovered r) c
  where
    empty : Counts (record p { instances = [] }) held
    empty = list-Counts [] p held tt c

    recovered : (r : Rebuild) → Counts (recover_transport now r p).0 held
    recovered rebuilt_before = c
    recovered rebuild_fails = empty
    recovered rebuilt =
        let (d, grows, below) =
          launch_each-Counts now 0 p.pool_size (record p { instances = [] }) held empty in
        list-Counts (launch_each now 0 p.pool_size (record p { instances = [] })).1
          (launch_each now 0 p.pool_size (record p { instances = [] })).0 held below d

pub recreate_browser-Counts :
    (now id : ℕ) (launch : Launch) (p : BrowserPool) (held : List ℕ)
    → Counts p held
    → Counts (recreate_browser now id launch p) held
unfolding recreate_browser
recreate_browser-Counts now id launch p held c =
    let d = create_browser-Counts now id launch p held c in
    elim (Bool-cases (create_browser now id launch p).1) [
      | inr h ↦ rw h d
      | inl h ↦
          rw h (record {
            counted = d.counted;
            capped = d.capped;
            unused = d.unused;
            listed = d.listed;
          })
    ]

empty-Counts : (p : BrowserPool) (held : List ℕ) → Counts p held → Counts (empty_instances p) held
unfolding empty_instances
empty-Counts p held c = list-Counts [] p held tt c

pub step-Counts :
    (e : Event) (p : BrowserPool) (held : List ℕ)
    → Counts p held
    → Counts (step e p held).0 (step e p held).1
unfolding step health_check recycle_expired
step-Counts acquires p held c = acquire-Counts p held c
step-Counts (releases a) p held c = elim (Bool-cases (ltb 0 (copies a held))) [
  | inl h ↦ rw h (release-Counts a p held h c)
  | inr h ↦ rw h c
]
step-Counts (marks a) p held c = mark_unhealthy-Counts a p held c
step-Counts (checks responds) p held c =
    mark_each-Counts (λ b a. not (responds a)) p.instances p held c
step-Counts (recycles now) p held c =
    mark_each-Counts (λ b a. is_expired now p.browser_ttl b) p.instances p held c
step-Counts empties p held c = empty-Counts p held c
step-Counts (recreates now id launch) p held c = recreate_browser-Counts now id launch p held c

-- Every history keeps that a healthy browser counts exactly the callers that hold it, and that no
-- browser, healthy or replaced, is held by more than `max_concurrent` callers at a time.
pub run-Counts :
    (es : List Event) (p : BrowserPool) (held : List ℕ)
    → Counts p held
    → Counts (run es p held).0 (run es p held).1
unfolding run
run-Counts [] p held c = c
run-Counts (e ∷ es) p held c =
    run-Counts es (step e p held).0 (step e p held).1 (step-Counts e p held c)
