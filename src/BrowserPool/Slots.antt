-- ===== src/BrowserPool/Slots.antt =====
-- The pool keeps a browser for each id.
use site_parser_for_freelans.Common.{
  ℕ, ◌<◌, ◌≡◌, refl, sym, ap, ◌∙◌, inl, inr, Bool, true, false, not, List, [], ◌∷◌, ◌++◌, ltb,
  keep_if, All, if◌then◌else◌, if_either, Bool-cases, subst, arith,
}
use site_parser_for_freelans.BrowserPool.{
  BrowserPool, is_available, least_loaded, take_from, acquire, release, mark_unhealthy,
  empty_instances, health_check, recycle_expired, is_expired, launch_browser_instance, Launch,
  launched, launch_fails, transport_closed, Rebuild, rebuilt, rebuild_fails, rebuilt_before,
  recover_transport, create_browser, recreate_browser,
}
use site_parser_for_freelans.Common.Copies.{copies}
use site_parser_for_freelans.BrowserPool.Counts.{Counts, hold}
use site_parser_for_freelans.BrowserPool.Bounds.{
  Event, acquires, empties, releases, marks, checks, recycles, recreates, step, run, step-Counts,
}
use site_parser_for_freelans.BrowserPool.Ids.{
  range_from, Complete, Same, Same-Complete, update-Same, mark_each-Same, Present,
  range_from-Present, place-ids, launch_each-ids, launch_each-factory,
}

-- A task for an id of the pool. Only a pool with a factory is rebuilt.
abbrev pub OfPool : ℕ → Bool → Event → Type 0
OfPool n factory (recreates now i _) = i < n
OfPool n factory empties = factory ≡ true
OfPool n factory _ = Unit

-- Whether a rebuilding of the pool is under way, or was given up, after an event.
abbrev pub rebuilding : Bool → Event → Bool → Bool
rebuilding factory empties busy = true
rebuilding factory (recreates now i (transport_closed rebuilt)) busy =
    if factory then false else busy
rebuilding factory (recreates now i (transport_closed rebuild_fails)) busy =
    if factory then true else busy
rebuilding factory _ busy = busy

unfoldable pub rebuilding_after : Bool → List Event → Bool → Bool
rebuilding_after factory [] busy = busy
rebuilding_after factory (e ∷ es) busy = rebuilding_after factory es (rebuilding factory e busy)

itself : (p : BrowserPool) → Same p p
itself p = record { size = refl; factory = refl; instances = refl; id = λ a. refl }

acquire-Same : (p : BrowserPool) (held : List ℕ) → Same p (hold (acquire p) held).0
unfolding acquire take_from hold
acquire-Same p held = chosen (keep_if (λ a. is_available (p.objects a)) p.instances)
  where
    chosen : (xs : List ℕ) → Same p (hold (take_from xs p) held).0
    chosen [] = record { size = refl; factory = refl; instances = refl; id = λ a. refl }
    chosen (x ∷ xs) = update-Same (least_loaded p.objects x xs) _ p.tasks p refl

create_browser-Complete :
    (now i : ℕ) (launch : Launch) (p : BrowserPool) (held : List ℕ) (busy : Bool)
    → i < p.pool_size
    → Counts p held
    → (busy ≡ false → Complete p)
    → rebuilding p.has_factory (recreates now i launch) busy ≡ false
    → Complete (create_browser now i launch p).0
unfolding create_browser launch_browser_instance recover_transport Complete
create_browser-Complete now i launched p held busy l c whole h =
    place-ids p.objects
      (record {
        browser_id = i;
        active = 0;
        max_concurrent = p.max_concurrent;
        healthy = true;
        created_at = now;
      })
      p.next p.instances
      (subst (Present i) (sym (whole h))
        (range_from-Present 0 p.pool_size i (omega arith) (omega (arith, l))))
      c.listed
    ∙ whole h
create_browser-Complete now i launch_fails p held busy l c whole h = whole h
create_browser-Complete now i (transport_closed rebuild_fails) p held busy l c whole h =
    from p.has_factory h
  where
    from :
        (b : Bool)
        → (if b then true else busy) ≡ false
        → Complete (if b then recover_transport now rebuild_fails p else (p, false)).0
    from true q = absurd (cc q)
    from false q = whole q
create_browser-Complete now i (transport_closed rebuilt_before) p held busy l c whole h =
    if_either (λ (q : BrowserPool × Bool). Complete q.0) p.has_factory (p, true) (p, false)
      (whole h) (whole h)
create_browser-Complete now i (transport_closed rebuilt) p held busy l c whole h =
    from p.has_factory h
  where
    from :
        (b : Bool)
        → (if b then false else busy) ≡ false
        → Complete (if b then recover_transport now rebuilt p else (p, false)).0
    from true q =
        let (named, size, kept) = launch_each-ids now 0 p.pool_size (record p { instances = [] }) in
        named ∙ ap (range_from 0) (sym size)
    from false q = whole q

-- The events that keep the list of the instances with their ids.
step-Complete :
    (e : Event) (p : BrowserPool) (held : List ℕ) (busy : Bool)
    → OfPool p.pool_size p.has_factory e
    → Counts p held
    → (busy ≡ false → Complete p)
    → rebuilding p.has_factory e busy ≡ false
    → Complete (step e p held).0
unfolding step release mark_unhealthy health_check recycle_expired recreate_browser Complete
step-Complete empties p held busy s c whole h = absurd (cc h)
step-Complete acquires p held busy s c whole h = Same-Complete p _ (acquire-Same p held) (whole h)
step-Complete (releases a) p held busy s c whole h = elim (Bool-cases (ltb 0 (copies a held))) [
  | inl e ↦ rw e (Same-Complete p _ (update-Same a _ p.tasks p refl) (whole h))
  | inr e ↦ rw e (whole h)
]
step-Complete (marks a) p held busy s c whole h =
    Same-Complete p _ (update-Same a _ (p.tasks ++ (p.objects a).browser_id ∷ []) p refl) (whole h)
step-Complete (checks responds) p held busy s c whole h =
    Same-Complete p _ (mark_each-Same (λ b a. not (responds a)) p.instances p p (itself p))
      (whole h)
step-Complete (recycles now) p held busy s c whole h =
    Same-Complete p _
      (mark_each-Same (λ b a. is_expired now p.browser_ttl b) p.instances p p (itself p)) (whole h)
step-Complete (recreates now i launch) p held busy s c whole h =
    let q = create_browser-Complete now i launch p held busy s c whole h in
    elim (Bool-cases (create_browser now i launch p).1) [ inl e ↦ rw e q | inr e ↦ rw e q ]

-- The settings of the pool stay.
abbrev Settled : BrowserPool → BrowserPool → Type 0
Settled p q = (q.pool_size ≡ p.pool_size) × (q.has_factory ≡ p.has_factory)

create_browser-Settled :
    (now i : ℕ) (launch : Launch) (p : BrowserPool) → Settled p (create_browser now i launch p).0
unfolding create_browser launch_browser_instance recover_transport
create_browser-Settled now i launched p = (refl, refl)
create_browser-Settled now i launch_fails p = (refl, refl)
create_browser-Settled now i (transport_closed r) p =
    if_either (λ (q : BrowserPool × Bool). Settled p q.0) p.has_factory (recover_transport now r p)
      (p, false) (rebuilding_keeps r) (refl, refl)
  where
    rebuilding_keeps : (r : Rebuild) → Settled p (recover_transport now r p).0
    rebuilding_keeps rebuilt = (
      (launch_each-ids now 0 p.pool_size (record p { instances = [] })).1,
      launch_each-factory now 0 p.pool_size (record p { instances = [] }),
    )
    rebuilding_keeps rebuild_fails = (refl, refl)
    rebuilding_keeps rebuilt_before = (refl, refl)

Same-Settled : (p q : BrowserPool) → Same p q → Settled p q
Same-Settled p q s = (s.size, s.factory)

step-Settled : (e : Event) (p : BrowserPool) (held : List ℕ) → Settled p (step e p held).0
unfolding step release mark_unhealthy health_check recycle_expired recreate_browser empty_instances
step-Settled empties p held = (refl, refl)
step-Settled acquires p held = Same-Settled p _ (acquire-Same p held)
step-Settled (releases a) p held = elim (Bool-cases (ltb 0 (copies a held))) [
  | inl h ↦ rw h (refl, refl)
  | inr h ↦ rw h (refl, refl)
]
step-Settled (marks a) p held = (refl, refl)
step-Settled (checks responds) p held =
    Same-Settled p _ (mark_each-Same (λ b a. not (responds a)) p.instances p p (itself p))
step-Settled (recycles now) p held =
    Same-Settled p _
      (mark_each-Same (λ b a. is_expired now p.browser_ttl b) p.instances p p (itself p))
step-Settled (recreates now i launch) p held =
    let kept = create_browser-Settled now i launch p in
    elim (Bool-cases (create_browser now i launch p).1) [ inl h ↦ rw h kept | inr h ↦ rw h kept ]

-- A pool with right counts and one browser for each id from 0 on, in order, has these browsers again
-- after every history in which only browsers of the pool are recreated and only a pool with a factory
-- is rebuilt, unless a rebuilding of the whole pool is under way or the last one failed. Launches may
-- fail, and while the pool is rebuilt it is empty for the other tasks, which go on.
pub run-Complete :
    (es : List Event) (p : BrowserPool) (held : List ℕ) (busy : Bool)
    → All (OfPool p.pool_size p.has_factory) es
    → Counts p held
    → (busy ≡ false → Complete p)
    → rebuilding_after p.has_factory es busy ≡ false
    → Complete (run es p held).0
unfolding run rebuilding_after
run-Complete [] p held busy s c whole h = whole h
run-Complete (e ∷ es) p held busy s c whole h =
    let (size, factory) = step-Settled e p held in
    run-Complete es (step e p held).0 (step e p held).1 (rebuilding p.has_factory e busy)
      (rw (size, factory) s.1) (step-Counts e p held c) (step-Complete e p held busy s.0 c whole)
      (rw factory h)
