-- ===== src/SharedPools/Steps.antt =====
-- Every step of a thread preserves the invariant of the shared pools.
use site_parser_for_freelans.SharedPools.Threads.{
  World, Step, step_opens, step_closes, step_leaves, step_borrows, step_returns, step_cleans, Reach,
  here, next,
}
use site_parser_for_freelans.SharedPools.Valid.{IsValid}
use site_parser_for_freelans.SharedPools.Gives.{
  leaves-IsValid, returns-IsValid, closes-IsValid, cleans-IsValid,
}
use site_parser_for_freelans.SharedPools.Takes.{borrows-IsValid, opens-IsValid}

pub Step-IsValid : {v w : World} → Step v w → IsValid v → IsValid w
Step-IsValid (step_opens w) v = opens-IsValid w v
Step-IsValid (step_closes a w h) v = closes-IsValid a w h v
Step-IsValid (step_leaves a w h) v = leaves-IsValid a w h v
Step-IsValid (step_borrows can_open a w s h e) v = borrows-IsValid can_open a w s h e v
Step-IsValid (step_returns a w h) v = returns-IsValid a w h v
Step-IsValid (step_cleans a w h) v = cleans-IsValid a w h v

pub Reach-IsValid : {v w : World} → Reach v w → IsValid v → IsValid w
Reach-IsValid here v = v
Reach-IsValid (next r s) v = Step-IsValid s (Reach-IsValid r v)
