-- ===== src/SharedPools/Takes.antt =====
-- Lending a connection and opening a repository preserve the invariant of the shared pools.
use site_parser_for_freelans.Common.{
  ℕ, ◌||◌, ◌+◌, ◌<◌, ◌≡◌, refl, sym, subst, inl, inr, Bool, true, false, Bool-cases, ◌==◌, ==_iff,
  Option, none, some, eq_of_some, le→leb, ◌∷◌, leb, arith,
}
use site_parser_for_freelans.Common.Copies.{copies}
use site_parser_for_freelans.SharedPools.{
  SharedPoolEntry, SharedPools, fresh, is_current, reference, retain_entry,
  retain_shared_pool_entry, ensure_shared_pool, borrow_pool,
}
use site_parser_for_freelans.SharedPools.Threads.{World, opens, Holds}
use site_parser_for_freelans.SharedPools.Valid.{
  Sound, At, IsValid, copies-todo_same, copies-todo_other, put-same, put-other,
}

lent-Sound :
    (e : SharedPoolEntry) (found new : Bool) (refs leases cleanups closed : ℕ)
    → 0 < refs
    → Sound e found new refs leases cleanups closed
    → Sound
        (record e { pool = true; active_leases = e.active_leases + 1 })
        found
        new
        refs
        (leases + 1)
        cleanups
        closed
unfolding Sound
lent-Sound e found new refs leases cleanups closed k h = ground arith

Lent : ℕ → SharedPools → SharedPools → Type 0
Lent a s t =
    ((j : ℕ) → (j == a) ≡ false → t.entries j ≡ s.entries j)
    × (t.entries a
        ≡ record (s.entries a) { pool = true; active_leases = (s.entries a).active_leases + 1 })
    × (t.current ≡ s.current)
    × (t.created ≡ s.created)

borrow_pool-Lent :
    (can_open : Bool) (a : ℕ) (s t : SharedPools) → borrow_pool can_open a s ≡ some t → Lent a s t
unfolding borrow_pool ensure_shared_pool Lent
borrow_pool-Lent can_open a s t e = elim (Bool-cases ((s.entries a).pool || can_open)) [
  | inl p ↦
      subst (Lent a s) (eq_of_some (rw (p, borrow_pool) at e))
        ((λ j n. rw n refl), rw ((==_iff a a).1 refl) refl, refl, refl)
  | inr p ↦ absurd (cc (rw (p, borrow_pool) at e))
]

pub borrows-IsValid :
    (can_open : Bool) (a : ℕ) (w : World) (s : SharedPools)
    → Holds a w.serving
    → borrow_pool can_open a w.pools ≡ some s
    → IsValid w
    → IsValid (record w { pools = s; leases = a ∷ w.leases })
unfolding IsValid Lent
borrows-IsValid can_open a w s h e v j =
    let l = borrow_pool-Lent can_open a w.pools s e in
    elim (Bool-cases (j == a)) [
      | inl p ↦
          subst (λ i. At i (record w { pools = s; leases = a ∷ w.leases })) (sym ((==_iff j a).0 p))
            (rw (l.1, l.2, l.3, copies-todo_same a true w.leases)
              (lent-Sound (w.pools.entries a) (is_current a w.pools.current) (leb w.pools.created a)
                (copies a w.serving + copies a w.leaving) (copies a w.leases) (copies a w.cleanups)
                (copies a w.closed) (ground arith) (v a)))
      | inr p ↦ rw (l.0 j p, l.2, l.3, copies-todo_other a j true w.leases p) (v j)
    ]

found_new-Sound :
    (e : SharedPoolEntry) (r l c d n : ℕ)
    → r + 1 ≡ n
    → Sound e false true r l c d
    → Sound (record fresh { refcount = 1 }) true false n l c d
unfolding Sound
found_new-Sound e r l c d n k h = ground arith

referenced-Sound :
    (e : SharedPoolEntry) (new : Bool) (r l c d n : ℕ)
    → r + 1 ≡ n
    → Sound e true new r l c d
    → Sound (record e { refcount = e.refcount + 1; closing = false }) true new n l c d
unfolding Sound
referenced-Sound e new r l c d n k h = ground arith

older-Sound :
    (e : SharedPoolEntry) (found new later : Bool) (r l c d : ℕ)
    → (later ≡ true → new ≡ true)
    → Sound e found new r l c d
    → Sound e found later r l c d
unfolding Sound
older-Sound e found new later r l c d k h = ground arith

referenced-IsValid :
    (b j : ℕ) (w : World)
    → w.pools.current ≡ some b
    → IsValid w
    → At j (record w { pools = (reference b w.pools).0; serving = b ∷ w.serving })
unfolding IsValid reference
referenced-IsValid b j w e v = elim (Bool-cases (j == b)) [
  | inl p ↦
      subst (λ i. At i (record w { pools = (reference b w.pools).0; serving = b ∷ w.serving }))
        (sym ((==_iff j b).0 p))
        (let k : is_current b w.pools.current ≡ true = rw e ((==_iff b b).1 refl) in
          let old : Sound (w.pools.entries b) true (leb w.pools.created b)
              (copies b w.serving + copies b w.leaving) (copies b w.leases) (copies b w.cleanups)
              (copies b w.closed) =
            rw k at (v b) in
          rw
            (
              k,
              put-same b
                  (record (w.pools.entries b) {
                    refcount = (w.pools.entries b).refcount + 1;
                    closing = false;
                  })
                  w.pools.entries,
            )
            (referenced-Sound (w.pools.entries b) (leb w.pools.created b)
              (copies b w.serving + copies b w.leaving) (copies b w.leases) (copies b w.cleanups)
              (copies b w.closed) (copies b (b ∷ w.serving) + copies b w.leaving)
              (omega (arith, copies-todo_same b true w.serving)) old))
  | inr p ↦
      rw
        (
          put-other b j
              (record (w.pools.entries b) {
                refcount = (w.pools.entries b).refcount + 1;
                closing = false;
              })
              w.pools.entries p,
          copies-todo_other b j true w.serving p,
        )
        (v j)
]

created-IsValid :
    (j : ℕ) (w : World)
    → w.pools.current ≡ none
    → IsValid w
    → At j
        (record w { pools = (retain_entry none w.pools).0; serving = w.pools.created ∷ w.serving })
unfolding IsValid retain_entry reference
created-IsValid j w e v = elim (Bool-cases (j == w.pools.created)) [
  | inl p ↦
      subst
        (λ i. At i (record w {
          pools = (retain_entry none w.pools).0;
          serving = w.pools.created ∷ w.serving;
        }))
        (sym ((==_iff j w.pools.created).0 p))
        (let a = w.pools.created in
          let old : Sound (w.pools.entries a) false true (copies a w.serving + copies a w.leaving)
              (copies a w.leases) (copies a w.cleanups) (copies a w.closed) =
            rw (e, le→leb a a (omega arith)) at (v a) in
          let yes : (a == a) ≡ true = (==_iff a a).1 refl in
          let no : leb (a + 1) a ≡ false = ground arith in
          rw (yes, no)
            (found_new-Sound (w.pools.entries a) (copies a w.serving + copies a w.leaving)
              (copies a w.leases) (copies a w.cleanups) (copies a w.closed)
              (copies a (a ∷ w.serving) + copies a w.leaving)
              (omega (arith, copies-todo_same a true w.serving)) old))
  | inr p ↦
      rw (p, copies-todo_other w.pools.created j true w.serving p)
        (older-Sound (w.pools.entries j) false (leb w.pools.created j) (leb (w.pools.created + 1) j)
          (copies j w.serving + copies j w.leaving) (copies j w.leases) (copies j w.cleanups)
          (copies j w.closed) (λ q. ground arith) (rw e at (v j)))
]

pub opens-IsValid : (w : World) → IsValid w → IsValid (opens w)
unfolding IsValid opens retain_shared_pool_entry
opens-IsValid w v = from w.pools.current refl
  where
    from :
        (c : Option ℕ)
        → w.pools.current ≡ c
        → (j : ℕ)
        → At j (record w {
          pools = (retain_entry c w.pools).0;
          serving = (retain_entry c w.pools).1 ∷ w.serving;
        })
    from none e j = created-IsValid j w e v
    from (some b) e j = referenced-IsValid b j w e v
