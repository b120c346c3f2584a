-- ===== src/SharedPools/Closed.antt =====
-- What the threads may rely on: when a shared pool is closed, and that it is closed.
use site_parser_for_freelans.Common.{ℕ, ◌+◌, ◌<◌, ◌≡◌, inl, inr, true, false, Bool-cases, arith}
use site_parser_for_freelans.Common.Copies.{copies}
use site_parser_for_freelans.SharedPools.{is_current}
use site_parser_for_freelans.SharedPools.Threads.{World, start, Reach}
use site_parser_for_freelans.SharedPools.Valid.{Sound, IsValid, start-IsValid}
use site_parser_for_freelans.SharedPools.Steps.{Reach-IsValid}

-- However the steps of the threads interleave, a pool whose `closeall` was called is no longer used,
-- and was closed once: no repository that is open or is being closed refers to its entry, no
-- connection of it is in use, and new repositories do not find it.
pub closed-Unused :
    (w : World) (a : ℕ)
    → Reach start w
    → 0 < copies a w.closed
    → (copies a w.serving + copies a w.leaving + copies a w.leases ≡ 0)
      × (copies a w.closed ≡ 1)
      × (is_current a w.pools.current ≡ false)
unfolding IsValid Sound
closed-Unused w a r h =
    let v = Reach-IsValid r start-IsValid a in
    elim (Bool-cases (is_current a w.pools.current)) [
      | inl p ↦ (let no : ⊥ = omega (arith, (v.3 p).1) in elim no [ ])
      | inr p ↦ (v.2 p, omega (arith, v.5), p)
    ]

-- No pool is left open: once no repository that is open or is being closed refers to an entry, no
-- connection of it is in use and no clean-up is outstanding, the pool that the entry has was closed,
-- exactly once.
pub unused-Closed :
    (w : World) (a : ℕ)
    → Reach start w
    → copies a w.serving + copies a w.leaving + copies a w.leases + copies a w.cleanups ≡ 0
    → (w.pools.entries a).pool ≡ true
    → copies a w.closed ≡ 1
unfolding IsValid Sound
unused-Closed w a r h p = let v = Reach-IsValid r start-IsValid a in ground arith
