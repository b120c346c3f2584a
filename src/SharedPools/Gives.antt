-- ===== src/SharedPools/Gives.antt =====
-- Closing a repository, giving up its reference or a lease, and cleaning up preserve the invariant of
-- the shared pools.
use site_parser_for_freelans.Common.{
  ℕ, if◌then◌else◌, ◌+◌, ◌≡◌, refl, sym, subst, inl, inr, Bool, Bool-cases, ◌==◌, ==_iff, List, ◌∷◌,
  leb, arith,
}
use site_parser_for_freelans.Common.Copies.{copies, drop_one, copies-drop_one}
use site_parser_for_freelans.SharedPools.{
  SharedPoolEntry, is_current, release_pool_lease, release_shared_pool_ref, clean_up, drop_ref,
  drop_lease,
}
use site_parser_for_freelans.SharedPools.Threads.{World, closes, leaves, returns, cleans, Holds}
use site_parser_for_freelans.SharedPools.Valid.{
  Sound, At, IsValid, drop_ref-Sound, drop_lease-Sound, drop_ref-found, drop_lease-found,
  changed-IsValid, copies-todo_same, copies-todo_other, copies-drop_other, copies-drop_same,
}

pub leaves-IsValid : (a : ℕ) (w : World) → Holds a w.leaving → IsValid w → IsValid (leaves a w)
unfolding IsValid leaves release_shared_pool_ref
leaves-IsValid a w h v =
    let d = drop_ref (is_current a w.pools.current) (w.pools.entries a) in
    changed-IsValid a d.0 d.1 w (drop_one a w.leaving) w.leases
      (drop_ref-found (is_current a w.pools.current) (w.pools.entries a))
      (λ j n. (copies-drop_other a j w.leaving n, refl))
      (drop_ref-Sound (w.pools.entries a) (is_current a w.pools.current) (leb w.pools.created a)
        (copies a w.serving + copies a (drop_one a w.leaving)) (copies a w.leases)
        (copies a w.cleanups) (copies a w.closed) (copies a w.serving + copies a w.leaving)
        (omega (arith, copies-drop_same a w.leaving h)) (v a))
      v

pub returns-IsValid : (a : ℕ) (w : World) → Holds a w.leases → IsValid w → IsValid (returns a w)
unfolding IsValid returns release_pool_lease
returns-IsValid a w h v =
    let d = drop_lease (is_current a w.pools.current) (w.pools.entries a) in
    changed-IsValid a d.0 d.1 w w.leaving (drop_one a w.leases)
      (drop_lease-found (is_current a w.pools.current) (w.pools.entries a))
      (λ j n. (refl, copies-drop_other a j w.leases n))
      (drop_lease-Sound (w.pools.entries a) (is_current a w.pools.current) (leb w.pools.created a)
        (copies a w.serving + copies a w.leaving) (copies a (drop_one a w.leases))
        (copies a w.cleanups) (copies a w.closed) (copies a w.leases)
        (copies-drop_same a w.leases h) (v a))
      v

moved :
    (a j : ℕ) (serving leaving : List ℕ)
    → Holds a serving
    → copies j serving + copies j leaving ≡ copies j (drop_one a serving) + copies j (a ∷ leaving)
unfolding copies
moved a j serving leaving h = ground (arith, copies-drop_one a j serving)

pub closes-IsValid : (a : ℕ) (w : World) → Holds a w.serving → IsValid w → IsValid (closes a w)
unfolding IsValid closes
closes-IsValid a w h v j =
    subst
      (λ n.
        Sound (w.pools.entries j) (is_current j w.pools.current) (leb w.pools.created j) n
          (copies j w.leases) (copies j w.cleanups) (copies j w.closed))
      (moved a j w.serving w.leaving h) (v j)

cleaned-Sound :
    (e : SharedPoolEntry) (found new : Bool) (refs leases cleanups closed n : ℕ)
    → cleanups + 1 ≡ n
    → Sound e found new refs leases n closed
    → Sound e found new refs leases cleanups (if e.pool then closed + 1 else closed)
unfolding Sound
cleaned-Sound e found new refs leases cleanups closed n k h = ground arith

pub cleans-IsValid : (a : ℕ) (w : World) → Holds a w.cleanups → IsValid w → IsValid (cleans a w)
unfolding IsValid cleans clean_up
cleans-IsValid a w h v j = elim (Bool-cases (j == a)) [
  | inl p ↦
      subst (λ i. At i (cleans a w)) (sym ((==_iff j a).0 p))
        (rw (copies-todo_same a (w.pools.entries a).pool w.closed) (
          cleaned-Sound (w.pools.entries a) (is_current a w.pools.current) (leb w.pools.created a)
            (copies a w.serving + copies a w.leaving) (copies a w.leases)
            (copies a (drop_one a w.cleanups)) (copies a w.closed) (copies a w.cleanups)
            (copies-drop_same a w.cleanups h) (v a)))
  | inr p ↦
      rw
        (
          copies-todo_other a j (w.pools.entries a).pool w.closed p,
          copies-drop_other a j w.cleanups p,
        )
        (v j)
]
