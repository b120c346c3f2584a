-- ===== src/BrowserPool/Ids.antt =====
-- The ids of the browsers in the pool.
use site_parser_for_freelans.Common.{
  ℕ, zero, suc, ◌+◌, ◌≤◌, ◌<◌, ◌≡◌, refl, sym, ap, ◌∙◌, inl, inr, ◌⊎◌, Bool, false, ◌&&◌, ◌==◌,
  ==_iff, List, [], ◌∷◌, ◌++◌, map, All, Bool-cases, arith,
}
use site_parser_for_freelans.BrowserPool.{
  BrowserInstance, BrowserPool, update, mark_unhealthy, mark_each, launch_browser_instance, place,
  launch_each,
}

unfoldable pub ids : (ℕ → BrowserInstance) → List ℕ → List ℕ
ids objects xs = map (λ a. (objects a).browser_id) xs

unfoldable pub range_from : ℕ → ℕ → List ℕ
range_from k zero = []
range_from k (suc n) = k ∷ range_from (k + 1) n

-- The pool has the browsers 0, 1, … of its size, in this order.
unfoldable pub Complete : BrowserPool → Type 0
Complete p = ids p.objects p.instances ≡ range_from 0 p.pool_size

-- Objects with the same ids, below an address.
ids_eq :
    (f g : ℕ → BrowserInstance) (n : ℕ) (xs : List ℕ)
    → ((a : ℕ) → a < n → (f a).browser_id ≡ (g a).browser_id)
    → All (λ a. a < n) xs
    → ids f xs ≡ ids g xs
unfolding ids
ids_eq f g n [] h below = refl
ids_eq f g n (x ∷ xs) h below = rw (h x below.0, ids_eq f g n xs h below.1) refl

-- A change of the pool that keeps the list of the instances and their ids.
pub record Same (p q : BrowserPool) : Type 0 where
  pub size : q.pool_size ≡ p.pool_size
  pub factory : q.has_factory ≡ p.has_factory
  pub instances : q.instances ≡ p.instances
  pub id : (a : ℕ) → (q.objects a).browser_id ≡ (p.objects a).browser_id

pub Same-Complete : (p q : BrowserPool) → Same p q → Complete p → Complete q
unfolding Complete ids
Same-Complete p q s c =
    ap (ids q.objects) s.instances ∙ every p.instances ∙ c ∙ ap (range_from 0) (sym s.size)
  where
    every : (xs : List ℕ) → ids q.objects xs ≡ ids p.objects xs
    every [] = refl
    every (x ∷ xs) = rw (s.id x, every xs) refl

-- Replacing an object by one with its id.
pub update-Same :
    (a : ℕ) (b : BrowserInstance) (tasks : List ℕ) (p : BrowserPool)
    → b.browser_id ≡ (p.objects a).browser_id
    → Same p (record p { objects = update a b p.objects; tasks = tasks })
unfolding update
update-Same a b tasks p h = record {
  size = refl;
  factory = refl;
  instances = refl;
  id = λ x. elim (Bool-cases (x == a)) [
    | inl e ↦ rw e (h ∙ ap (λ y. (p.objects y).browser_id) (sym ((==_iff x a).0 e)))
    | inr e ↦ rw e refl
  ];
}

pub mark_each-Same :
    (fails : BrowserInstance → ℕ → Bool) (xs : List ℕ) (p q : BrowserPool)
    → Same p q
    → Same p (mark_each fails xs q)
unfolding mark_each mark_unhealthy
mark_each-Same fails [] p q s = s
mark_each-Same fails (a ∷ xs) p q s =
    elim (Bool-cases ((q.objects a).healthy && fails (q.objects a) a)) [
      | inr h ↦ rw h (mark_each-Same fails xs p q s)
      | inl h ↦
          let t = update-Same a _ (q.tasks ++ (q.objects a).browser_id ∷ []) q refl in
          rw h (
            mark_each-Same fails xs p (mark_unhealthy a q) (record {
              size = t.size ∙ s.size;
              factory = t.factory ∙ s.factory;
              instances = t.instances ∙ s.instances;
              id = λ x. t.id x ∙ s.id x;
            }))
    ]

-- Is there an entry with the id?
abbrev pub Present : ℕ → List ℕ → Type 0
Present k [] = ⊥
Present k (x ∷ xs) = (x ≡ k) ⊎ Present k xs

pub range_from-Present : (k n i : ℕ) → k ≤ i → i < k + n → Present i (range_from k n)
unfolding range_from
range_from-Present k zero i h l = let no : ⊥ = omega (arith, h, l) in elim no [ ]
range_from-Present k (suc n) i h l = elim (Bool-cases (k == i)) [
  | inl e ↦ inl ((==_iff k i).0 e)
  | inr e ↦ inr (range_from-Present (k + 1) n i (ground (arith, h, e)) (omega (arith, l)))
]

-- The new browser takes the place of the one with its id.
pub place-ids :
    (objects : ℕ → BrowserInstance) (b : BrowserInstance) (new : ℕ) (xs : List ℕ)
    → Present b.browser_id (ids objects xs)
    → All (λ a. a < new) xs
    → ids (update new b objects) (place objects b.browser_id new xs) ≡ ids objects xs
unfolding ids place update
place-ids objects b new [] h below = elim h [ ]
place-ids objects b new (x ∷ xs) h below =
    elim (Bool-cases ((objects x).browser_id == b.browser_id)) [
      | inl e ↦
          let rest = ids_eq (update new b objects) objects new xs (λ a l. same a l) below.1 in
          let mine : (update new b objects new).browser_id ≡ b.browser_id = ground arith in
          rw e (rw (mine, rest, (==_iff _ _).0 e) refl)
      | inr e ↦
          let there = later h e in
          let rest = place-ids objects b new xs there below.1 in
          rw e (rw (same x below.0, rest) refl)
    ]
  where
    same : (a : ℕ) → a < new → (update new b objects a).browser_id ≡ (objects a).browser_id
    same a l = let other : (a == new) ≡ false = ground (arith, l) in rw other refl

    later :
        ((objects x).browser_id ≡ b.browser_id) ⊎ Present b.browser_id (ids objects xs)
        → ((objects x).browser_id == b.browser_id) ≡ false
        → Present b.browser_id (ids objects xs)
    later (inl p) e = let no : ⊥ = ground (arith, p, e) in elim no [ ]
    later (inr p) e = p

pub launch_each-factory :
    (now k n : ℕ) (p : BrowserPool) → (launch_each now k n p).0.has_factory ≡ p.has_factory
unfolding launch_each launch_browser_instance
launch_each-factory now k zero p = refl
launch_each-factory now k (suc n) p =
    launch_each-factory now (k + 1) n (launch_browser_instance now k p)

pub launch_each-ids :
    (now k n : ℕ) (p : BrowserPool)
    → (ids (launch_each now k n p).0.objects (launch_each now k n p).1 ≡ range_from k n)
      × ((launch_each now k n p).0.pool_size ≡ p.pool_size)
      × ((a : ℕ) → a < p.next → (launch_each now k n p).0.objects a ≡ p.objects a)
unfolding launch_each launch_browser_instance ids range_from update
launch_each-ids now k zero p = (refl, refl, λ a l. refl)
launch_each-ids now k (suc n) p =
    let (named, size, kept) = launch_each-ids now (k + 1) n (launch_browser_instance now k p) in
    let mine = ap (λ (b : BrowserInstance). b.browser_id) (kept p.next (omega arith)) in
    let its_id : ((launch_browser_instance now k p).objects p.next).browser_id ≡ k = ground arith in
    (
      rw (mine, its_id, named) refl,
      size,
      λ a l.
          kept a (omega (arith, l))
          ∙ (let other : (a == p.next) ≡ false = ground (arith, l) in rw other refl),
    )
