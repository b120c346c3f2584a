-- ===== src/BrowserPool/Counts.antt =====
-- The callers of a browser and the count that it keeps of them.
use site_parser_for_freelans.Common.{
  ℕ, ◌+◌, ◌-◌, ◌≤◌, ◌<◌, ◌≡◌, refl, ◌∙◌, inl, inr, Bool, true, false, ◌&&◌, ◌==◌, ==_iff, Option,
  none, some, List, [], ◌∷◌, ltb, keep_if, All, Bool-cases, arith,
}
use site_parser_for_freelans.Common.Copies.{copies, drop_one, copies-drop_one}
use site_parser_for_freelans.BrowserPool.{
  BrowserInstance, BrowserPool, update, is_available, is_lighter, least_loaded, take_from, acquire,
  release, mark_unhealthy, mark_each,
}

-- The instance that a render got is held by it.
unfoldable pub hold : BrowserPool × Option ℕ → List ℕ → BrowserPool × List ℕ
hold (p, none) held = (p, held)
hold (p, some a) held = (p, a ∷ held)

-- A healthy instance counts its holders, no instance has more than `max_concurrent` of them, one that
-- was not launched yet has none, and the pool lists launched instances only.
pub record Counts (p : BrowserPool) (held : List ℕ) : Type 0 where
  pub counted : (a : ℕ) → (p.objects a).healthy ≡ true → (p.objects a).active ≡ copies a held
  pub capped : (a : ℕ) → copies a held ≤ (p.objects a).max_concurrent
  pub unused : (a : ℕ) → p.next ≤ a → copies a held ≡ 0
  pub listed : All (λ a. a < p.next) p.instances

pub least_loaded-All :
    (P : ℕ → Type 0) (objects : ℕ → BrowserInstance) (a : ℕ) (others : List ℕ)
    → P a
    → All P others
    → P (least_loaded objects a others)
unfolding least_loaded
least_loaded-All P objects a [] h hs = h
least_loaded-All P objects a (b ∷ bs) h hs =
    elim (Bool-cases (is_lighter (objects b) (objects a))) [
      | inl p ↦ rw p (least_loaded-All P objects b bs hs.0 hs.1)
      | inr p ↦ rw p (least_loaded-All P objects a bs h hs.1)
    ]

pub keep_if-All :
    (P : ℕ → Type 0) (f : ℕ → Bool) (xs : List ℕ)
    → All P xs
    → All (λ a. (f a ≡ true) × P a) (keep_if f xs)
keep_if-All P f [] h = tt
keep_if-All P f (x ∷ xs) h = elim (Bool-cases (f x)) [
  | inl p ↦ rw p ((p, h.0), keep_if-All P f xs h.1)
  | inr p ↦ rw p (keep_if-All P f xs h.1)
]

available_has_room :
    (b : BrowserInstance)
    → is_available b ≡ true
    → (b.healthy ≡ true) × (b.active < b.max_concurrent)
unfolding is_available
available_has_room b h = elim (Bool-cases b.healthy) [
  | inl p ↦
      let room : ltb b.active b.max_concurrent ≡ true = and_right b.healthy _ h in
      (p, ground (arith, room))
  | inr p ↦ cc (and_left b.healthy _ h)
]
  where
    and_left : (x y : Bool) → (x && y) ≡ true → x ≡ true
    and_left true y e = refl
    and_left false y e = cc

    and_right : (x y : Bool) → (x && y) ≡ true → y ≡ true
    and_right true y e = e
    and_right false y e = cc

-- A change of one object and its holders.
pub update-Counts :
    (p : BrowserPool) (held holders tasks : List ℕ) (a : ℕ) (b : BrowserInstance)
    → Counts p held
    → ((x : ℕ) → (x == a) ≡ false → copies x holders ≡ copies x held)
    → (b.healthy ≡ true → b.active ≡ copies a holders)
    → copies a holders ≤ b.max_concurrent
    → (p.next ≤ a → copies a holders ≡ 0)
    → Counts (record p { objects = update a b p.objects; tasks = tasks }) holders
unfolding update
update-Counts p held holders tasks a b c same counts cap unused = record {
  counted = λ x. elim (Bool-cases (x == a)) [
    | inl e ↦ rw (e, (==_iff x a).0 e) counts
    | inr e ↦ rw (e, same x e) (c.counted x)
  ];
  capped = λ x. elim (Bool-cases (x == a)) [
    | inl e ↦ rw (e, (==_iff x a).0 e) cap
    | inr e ↦ rw (e, same x e) (c.capped x)
  ];
  unused = λ x. elim (Bool-cases (x == a)) [
    | inl e ↦ rw ((==_iff x a).0 e) unused
    | inr e ↦ rw (same x e) (c.unused x)
  ];
  listed = c.listed;
}

pub acquire-Counts :
    (p : BrowserPool) (held : List ℕ)
    → Counts p held
    → Counts (hold (acquire p) held).0 (hold (acquire p) held).1
unfolding acquire take_from hold copies
acquire-Counts p held c =
    chosen (keep_if (λ a. is_available (p.objects a)) p.instances)
      (keep_if-All (λ a. a < p.next) (λ a. is_available (p.objects a)) p.instances c.listed)
  where
    taken :
        (a : ℕ)
        → is_available (p.objects a) ≡ true
        → a < p.next
        → Counts
            (record p {
              objects =
                  update a (record (p.objects a) { active = (p.objects a).active + 1 }) p.objects;
            })
            (a ∷ held)
    taken a free old =
        let (healthy, room) = available_has_room (p.objects a) free in
        let count = c.counted a healthy in
        update-Counts p held (a ∷ held) p.tasks a _ c (λ x e. ground (arith, e))
          (λ h. ground (arith, count)) (ground (arith, count, room))
          (λ l. let no : ⊥ = omega (arith, l, old) in elim no [ ])

    chosen :
        (xs : List ℕ)
        → All (λ a. (is_available (p.objects a) ≡ true) × (a < p.next)) xs
        → Counts (hold (take_from xs p) held).0 (hold (take_from xs p) held).1
    chosen [] h = c
    chosen (x ∷ xs) h =
        let (free, old) =
          least_loaded-All (λ y. (is_available (p.objects y) ≡ true) × (y < p.next)) p.objects x xs
            h.0 h.1 in
        taken (least_loaded p.objects x xs) free old

pub release-Counts :
    (a : ℕ) (p : BrowserPool) (held : List ℕ)
    → ltb 0 (copies a held) ≡ true
    → Counts p held
    → Counts (release a p) (drop_one a held)
unfolding release
release-Counts a p held h c =
    let fewer : copies a (drop_one a held) ≡ copies a held - 1 =
      copies-drop_one a a held ∙ ground arith in
    update-Counts p held (drop_one a held) p.tasks a _ c
      (λ x e. copies-drop_one a x held ∙ ground (arith, e))
      (λ healthy. omega (arith, c.counted a healthy, fewer)) (omega (arith, fewer, c.capped a))
      (λ l. omega (arith, fewer, c.unused a l))

pub mark_unhealthy-Counts :
    (a : ℕ) (p : BrowserPool) (held : List ℕ) → Counts p held → Counts (mark_unhealthy a p) held
unfolding mark_unhealthy
mark_unhealthy-Counts a p held c =
    update-Counts p held held _ a _ c (λ x e. refl) (λ h. cc) (c.capped a) (c.unused a)

pub mark_each-Counts :
    (fails : BrowserInstance → ℕ → Bool) (xs : List ℕ) (p : BrowserPool) (held : List ℕ)
    → Counts p held
    → Counts (mark_each fails xs p) held
unfolding mark_each
mark_each-Counts fails [] p held c = c
mark_each-Counts fails (a ∷ xs) p held c =
    elim (Bool-cases ((p.objects a).healthy && fails (p.objects a) a)) [
      | inl h ↦
          rw h
            (mark_each-Counts fails xs (mark_unhealthy a p) held (mark_unhealthy-Counts a p held c))
      | inr h ↦ rw h (mark_each-Counts fails xs p held c)
    ]
