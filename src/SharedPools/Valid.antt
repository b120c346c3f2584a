-- ===== src/SharedPools/Valid.antt =====
-- The invariant of the shared pools, which every step of a thread preserves.
use site_parser_for_freelans.Common.{
  ℕ, if◌then◌else◌, ◌&&◌, not, ◌+◌, ◌≤◌, ◌<◌, ◌≡◌, refl, sym, subst, inl, inr, Bool, true, false,
  Bool-cases, ◌==◌, ==_iff, Option, none, some, List, leb, arith,
}
use site_parser_for_freelans.Common.Copies.{copies, drop_one, copies-drop_one}
use site_parser_for_freelans.SharedPools.{
  SharedPoolEntry, put, is_current, drop_ref, drop_lease, store,
}
use site_parser_for_freelans.SharedPools.Threads.{World, start, todo, Holds}

-- What holds of an entry, of which `current` says whether repositories find it, `new` whether it is
-- not created yet, and the numbers who uses it.
unfoldable pub Sound :
    SharedPoolEntry → (current new : Bool) → (references leases cleanups closed : ℕ) → Type 0
Sound e current new references leases cleanups closed =
    (e.refcount ≡ references)
    × (e.active_leases ≡ leases)
    × (current ≡ false → references + leases ≡ 0)
    × (current ≡ true → (0 < references + leases) × (cleanups + closed ≡ 0))
    × (current ≡ true → references ≡ 0 → e.closing ≡ true)
    × (cleanups + closed ≤ 1)
    × (new ≡ true → (current ≡ false) × (cleanups + closed ≡ 0))
    × (new ≡ true → e.pool ≡ false)
    × (current ≡ false → e.pool ≡ true → cleanups + closed ≡ 1)

abbrev pub At : ℕ → World → Type 0
At j w =
    Sound (w.pools.entries j) (is_current j w.pools.current) (leb w.pools.created j)
      (copies j w.serving + copies j w.leaving) (copies j w.leases) (copies j w.cleanups)
      (copies j w.closed)

unfoldable pub IsValid : World → Type 0
IsValid w = (j : ℕ) → At j w

pub start-IsValid : IsValid start
unfolding IsValid Sound copies
start-IsValid j = ground arith

pub drop_ref-Sound :
    (e : SharedPoolEntry) (found new : Bool) (refs leases cleanups closed n : ℕ)
    → refs + 1 ≡ n
    → Sound e found new n leases cleanups closed
    → let r = drop_ref found e in
      Sound r.0 (found && not r.1) new refs leases (if r.1 then cleanups + 1 else cleanups) closed
unfolding Sound drop_ref
drop_ref-Sound e found new refs leases cleanups closed n k h = ground arith

pub drop_lease-Sound :
    (e : SharedPoolEntry) (found new : Bool) (refs leases cleanups closed n : ℕ)
    → leases + 1 ≡ n
    → Sound e found new refs n cleanups closed
    → let r = drop_lease found e in
      Sound r.0 (found && not r.1) new refs leases (if r.1 then cleanups + 1 else cleanups) closed
unfolding Sound drop_lease
drop_lease-Sound e found new refs leases cleanups closed n k h = ground arith

pub drop_ref-found :
    (found : Bool) (e : SharedPoolEntry) → (drop_ref found e).1 ≡ true → found ≡ true
unfolding drop_ref
drop_ref-found found e h = ground arith

pub drop_lease-found :
    (found : Bool) (e : SharedPoolEntry) → (drop_lease found e).1 ≡ true → found ≡ true
unfolding drop_lease
drop_lease-found found e h = ground arith

is_current-same :
    (a : ℕ) (current : Option ℕ) (removed : Bool)
    → is_current a (if removed then none else current) ≡ (is_current a current && not removed)
is_current-same a none removed = ground arith
is_current-same a (some b) removed = ground arith

is_current-other :
    (a j : ℕ) (current : Option ℕ) (removed : Bool)
    → (j == a) ≡ false
    → (removed ≡ true → is_current a current ≡ true)
    → is_current j (if removed then none else current) ≡ is_current j current
is_current-other a j none removed n h = ground arith
is_current-other a j (some b) removed n h = ground arith

pub copies-todo_same :
    (a : ℕ) (removed : Bool) (l : List ℕ)
    → copies a (todo removed a l) ≡ (if removed then copies a l + 1 else copies a l)
unfolding copies
copies-todo_same a true l = ground arith
copies-todo_same a false l = refl

pub copies-todo_other :
    (a j : ℕ) (removed : Bool) (l : List ℕ)
    → (j == a) ≡ false
    → copies j (todo removed a l) ≡ copies j l
unfolding copies
copies-todo_other a j true l n = ground arith
copies-todo_other a j false l n = refl

pub put-same : (a : ℕ) (e : SharedPoolEntry) (f : ℕ → SharedPoolEntry) → put a e f a ≡ e
put-same a e f = rw ((==_iff a a).1 refl) refl

pub put-other :
    (a j : ℕ) (e : SharedPoolEntry) (f : ℕ → SharedPoolEntry) → (j == a) ≡ false → put a e f j ≡ f j
put-other a j e f n = rw n refl

-- The world after a step that changes the entry at `a` and the lists of who uses it.
abbrev pub changed : ℕ → SharedPoolEntry → Bool → World → (leaving leases : List ℕ) → World
changed a e removed w leaving leases = record w {
  pools = store a (e, removed) w.pools;
  leaving = leaving;
  leases = leases;
  cleanups = todo removed a w.cleanups;
}

pub changed-IsValid :
    (a : ℕ) (e : SharedPoolEntry) (removed : Bool) (w : World) (leaving leases : List ℕ)
    → (removed ≡ true → is_current a w.pools.current ≡ true)
    → ((j : ℕ)
        → (j == a) ≡ false
        → (copies j leaving ≡ copies j w.leaving) × (copies j leases ≡ copies j w.leases))
    → Sound e
        (is_current a w.pools.current && not removed)
        (leb w.pools.created a)
        (copies a w.serving + copies a leaving)
        (copies a leases)
        (if removed then copies a w.cleanups + 1 else copies a w.cleanups)
        (copies a w.closed)
    → IsValid w
    → IsValid (changed a e removed w leaving leases)
unfolding IsValid store
changed-IsValid a e removed w leaving leases found others own v j = elim (Bool-cases (j == a)) [
  | inl p ↦
      subst (λ i. At i (changed a e removed w leaving leases)) (sym ((==_iff j a).0 p))
        (rw
          (
            put-same a e w.pools.entries,
            is_current-same a w.pools.current removed,
            copies-todo_same a removed w.cleanups,
          )
          own)
  | inr p ↦
      rw
        (
          put-other a j e w.pools.entries p,
          is_current-other a j w.pools.current removed p found,
          copies-todo_other a j removed w.cleanups p,
          (others j p).0,
          (others j p).1,
        )
        (v j)
]

pub copies-drop_other :
    (a j : ℕ) (l : List ℕ) → (j == a) ≡ false → copies j (drop_one a l) ≡ copies j l
copies-drop_other a j l n = ground (arith, copies-drop_one a j l)

pub copies-drop_same : (a : ℕ) (l : List ℕ) → Holds a l → copies a (drop_one a l) + 1 ≡ copies a l
copies-drop_same a l h = ground (arith, copies-drop_one a a l)
