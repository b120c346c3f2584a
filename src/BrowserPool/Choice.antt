-- ===== src/BrowserPool/Choice.antt =====
-- Which browser a caller gets, and what a late report or a failed rebuilding does to the pool.
use native.Mathlib.Nat.{le_of_mul-le-mul_right, lt_of_mul-lt-mul_right}
use site_parser_for_freelans.Common.{
  ℕ, ◌*◌, ◌≤◌, ◌<◌, ◌≡◌, ◌≢◌, refl, sym, ap, ◌∙◌, inl, inr, ◌⊎◌, Bool, true, false, ◌==◌, ==_iff,
  none, some, List, [], ◌∷◌, ◌++◌, if◌then◌else◌, ltb, keep_if, All, All-map_fun, ltb→lt,
  Bool-cases, subst, arith,
}
use site_parser_for_freelans.BrowserPool.{
  BrowserInstance, BrowserPool, update, is_available, is_lighter, least_loaded, take_from, acquire,
  mark_unhealthy, launch_browser_instance, place, launched, transport_closed, rebuild_fails,
  recover_transport, create_browser, recreate_browser,
}
use site_parser_for_freelans.Common.Copies.{drop_one}
use site_parser_for_freelans.BrowserPool.Counts.{keep_if-All, least_loaded-All}
use site_parser_for_freelans.BrowserPool.Ids.{ids}

if_of_true : {A : Type 0} (f : Bool) → f ≡ true → (x y : A) → (if f then x else y) ≡ x
if_of_true true e x y = refl
if_of_true false e x y = cc

-- After a rebuilding that fails the pool is empty, and the task, which is scheduled again, restores
-- the browser of its own id only.
pub recreate_browser_alone :
    (now later i : ℕ) (p : BrowserPool)
    → p.has_factory ≡ true
    → (q : BrowserPool) × (recreate_browser now i (transport_closed rebuild_fails) p ≡ q)
      × (q.instances ≡ [])
      × (q.tasks ≡ p.tasks)
      × (ids
            (recreate_browser later i launched q).objects
            (recreate_browser later i launched q).instances
          ≡ i ∷ [])
unfolding recreate_browser create_browser recover_transport launch_browser_instance place ids update
recreate_browser_alone now later i p h = (
  record p { instances = [] },
  ap
      (λ (r : BrowserPool × Bool).
        if r.1 then record (r.0) { tasks = drop_one i r.0.tasks } else r.0)
      made,
  refl,
  refl,
  ap (λ k. k ∷ []) own,
)
  where
    own :
        (update p.next
          (record {
            browser_id = i;
            active = 0;
            max_concurrent = p.max_concurrent;
            healthy = true;
            created_at = later;
          })
          p.objects
          p.next).browser_id
        ≡ i
    own = ground arith

    made :
        create_browser now i (transport_closed rebuild_fails) p
        ≡ (record p { instances = [] }, false)
    made = if_of_true p.has_factory h _ _

-- Two instances of one id, of which the pool has the second: when a caller reports the first, which
-- was replaced, as unhealthy, the task replaces the second, healthy as it is and with its callers.
pub mark_unhealthy_replaced :
    (now a b : ℕ) (before after : List ℕ) (p : BrowserPool)
    → b ≢ a
    → (p.objects a).browser_id ≡ (p.objects b).browser_id
    → p.instances ≡ before ++ b ∷ after
    → All (λ x. (p.objects x).browser_id ≢ (p.objects b).browser_id) before
    → b < p.next
    → (q : BrowserPool) × (recreate_browser now
          (p.objects a).browser_id
          launched
          (mark_unhealthy a p)
        ≡ q)
      × (q.instances ≡ before ++ p.next ∷ after)
      × (q.objects b ≡ p.objects b)
unfolding recreate_browser create_browser launch_browser_instance mark_unhealthy update
mark_unhealthy_replaced now a b before after p other same listed others old = (
  recreate_browser now (p.objects a).browser_id launched (mark_unhealthy a p),
  refl,
  ap (place (mark_unhealthy a p).objects (p.objects a).browser_id p.next) listed
      ∙ replaces before others,
  let not_new : (b == p.next) ≡ false = ground (arith, old) in
      let not_first : (b == a) ≡ false = ground (arith, other) in rw not_new (rw not_first refl),
)
  where
    id_kept : (x : ℕ) → ((mark_unhealthy a p).objects x).browser_id ≡ (p.objects x).browser_id
    id_kept x = elim (Bool-cases (x == a)) [
      | inl e ↦ rw e (ap (λ y. (p.objects y).browser_id) (sym ((==_iff x a).0 e)))
      | inr e ↦ rw e refl
    ]

    replaces :
        (xs : List ℕ)
        → All (λ x. (p.objects x).browser_id ≢ (p.objects b).browser_id) xs
        → place (mark_unhealthy a p).objects (p.objects a).browser_id p.next (xs ++ b ∷ after)
          ≡ xs ++ p.next ∷ after
    replaces [] h =
        let hit : (((mark_unhealthy a p).objects b).browser_id == (p.objects a).browser_id) ≡ true =
          (==_iff _ _).1 (id_kept b ∙ sym same) in
        rw hit refl
    replaces (x ∷ xs) h =
        let miss : (((mark_unhealthy a p).objects x).browser_id == (p.objects a).browser_id)
            ≡ false =
          ground (arith, id_kept x, same, h.0) in
        rw miss (ap (λ ys. x ∷ ys) (replaces xs h.1))

-- `a` has at most as many pages as `b`, if `b` has room.
abbrev pub NotBusier : (ℕ → BrowserInstance) → ℕ → ℕ → Type 0
NotBusier objects a b = is_available (objects b) ≡ true → (objects a).active ≤ (objects b).active

-- Of instances with the same limit, `min` gives one with the fewest pages.
least_loaded-NotBusier :
    (m : ℕ) (objects : ℕ → BrowserInstance) (a : ℕ) (others : List ℕ) (c : ℕ)
    → 1 ≤ m
    → (objects a).max_concurrent ≡ m
    → All (λ b. (objects b).max_concurrent ≡ m) others
    → least_loaded objects a others ≡ c
    → ((objects c).active ≤ (objects a).active)
      × All (λ b. (objects c).active ≤ (objects b).active) others
unfolding least_loaded is_lighter
least_loaded-NotBusier m objects a [] c pos h hs q = (rw q (omega arith), tt)
least_loaded-NotBusier m objects a (b ∷ bs) c pos h hs q =
    elim (Bool-cases (is_lighter (objects b) (objects a))) [
      | inl e ↦
          let goes : least_loaded objects a (b ∷ bs) ≡ least_loaded objects b bs = rw e refl in
          let (first, rest) =
            least_loaded-NotBusier m objects b bs c pos hs.0 hs.1 (sym goes ∙ q) in
          let light : ltb ((objects b).active * m) ((objects a).active * m) ≡ true =
            rw (h, hs.0) at e in
          let less = lt_of_mul-lt-mul_right m (ltb→lt _ _ light) in
          (omega (arith, first, less), (first, rest))
      | inr e ↦
          let stays : least_loaded objects a (b ∷ bs) ≡ least_loaded objects a bs = rw e refl in
          let (first, rest) = least_loaded-NotBusier m objects a bs c pos h hs.1 (sym stays ∙ q) in
          let heavy : ltb ((objects b).active * m) ((objects a).active * m) ≡ false =
            rw (h, hs.0) at e in
          let more : (objects a).active * m ≤ (objects b).active * m = ground (arith, heavy) in
          let le = le_of_mul-le-mul_right more pos in (first, (omega (arith, first, le), rest))
    ]

-- What a test by `keep_if` says of all elements.
All-keep_if :
    (P : ℕ → Type 0) (f : ℕ → Bool) (xs : List ℕ)
    → All P (keep_if f xs)
    → All (λ x. f x ≡ true → P x) xs
All-keep_if P f [] h = tt
All-keep_if P f (x ∷ xs) h = elim (Bool-cases (f x)) [
  | inl e ↦ (λ t. (rw e at h).0, All-keep_if P f xs (rw e at h).1)
  | inr e ↦ (λ t. cc, All-keep_if P f xs (rw e at h))
]

-- When all browsers of the pool have the same limit, of at least one page, a caller gets an available
-- one that has no more pages than any other that is available, and PoolExhausted is raised when none
-- is available.
pub acquire-NotBusier :
    (m : ℕ) (p : BrowserPool)
    → 1 ≤ m
    → All (λ b. (p.objects b).max_concurrent ≡ m) p.instances
    → ((a : ℕ) × ((acquire p).1 ≡ some a)
        × (is_available (p.objects a) ≡ true)
        × All (NotBusier p.objects a) p.instances)
      ⊎ (((acquire p).1 ≡ none) × All (λ b. is_available (p.objects b) ≡ true → ⊥) p.instances)
unfolding acquire take_from
acquire-NotBusier m p pos same =
    chosen (keep_if (λ a. is_available (p.objects a)) p.instances) refl (
      keep_if-All (λ b. (p.objects b).max_concurrent ≡ m) (λ a. is_available (p.objects a))
        p.instances same)
  where
    chosen :
        (xs : List ℕ)
        → keep_if (λ a. is_available (p.objects a)) p.instances ≡ xs
        → All (λ b. (is_available (p.objects b) ≡ true) × ((p.objects b).max_concurrent ≡ m)) xs
        → ((a : ℕ) × ((take_from xs p).1 ≡ some a)
            × (is_available (p.objects a) ≡ true)
            × All (NotBusier p.objects a) p.instances)
          ⊎ (((take_from xs p).1 ≡ none)
              × All (λ b. is_available (p.objects b) ≡ true → ⊥) p.instances)
    chosen [] e h = inr (
      refl,
      All-keep_if (λ b. ⊥) (λ a. is_available (p.objects a)) p.instances
          (subst (All (λ b. ⊥)) (sym e) tt),
    )
    chosen (x ∷ xs) e h =
        let a = least_loaded p.objects x xs in
        let ok =
          least_loaded-All
            (λ b. (is_available (p.objects b) ≡ true) × ((p.objects b).max_concurrent ≡ m))
            p.objects x xs h.0 h.1 in
        let limits = All-map_fun _ (λ b. (p.objects b).max_concurrent ≡ m) (λ b k. k.1) xs h.1 in
        let fewest = least_loaded-NotBusier m p.objects x xs a pos h.0.1 limits refl in
        inl (
          a,
          refl,
          ok.0,
          All-keep_if (λ b. (p.objects a).active ≤ (p.objects b).active)
              (λ y. is_available (p.objects y)) p.instances
              (subst (All (λ b. (p.objects a).active ≤ (p.objects b).active)) (sym e)
                (fewest.0, fewest.1)),
        )
