-- ===== src/Bot/TtlCache/History.antt =====
-- Histories of calls on a bounded cache.
use site_parser_for_freelans.Common.{ℕ, ◌≤◌, List, [], ◌∷◌}
use site_parser_for_freelans.Bot.TtlCache.{TtlCache, set, get, pop}
use site_parser_for_freelans.Bot.TtlCache.Valid.{IsValid, set-IsValid, pop-IsValid, get-IsValid}

-- A call, with the time at which it is made.
pub data Call (V : Type 0) : Type 0 where
  write : ℕ → ℕ → V → Call V
  look : ℕ → ℕ → Call V
  drop : ℕ → Call V

module _ {V : Type 0} where
  unfoldable pub step : Call V → TtlCache V → TtlCache V
  unfolding set get pop
  step (write m k v) c = set m k v c
  step (look m k) c = (get m k c).0
  step (drop k) c = pop k c

  unfoldable pub run : List (Call V) → TtlCache V → TtlCache V
  unfolding step
  run [] c = c
  run (x ∷ xs) c = run xs (step x c)

  -- The clock after a call.
  unfoldable pub time : ℕ → Call V → ℕ
  time now (write m k v) = m
  time now (look m k) = m
  time now (drop k) = now

  unfoldable pub last_time : ℕ → List (Call V) → ℕ
  unfolding time
  last_time now [] = now
  last_time now (x ∷ xs) = last_time (time now x) xs

  -- The clock does not run backwards.
  abbrev pub From : ℕ → List (Call V) → Type 0
  From now [] = Unit
  From now (x ∷ xs) = (now ≤ time now x) × From (time now x) xs

  step-IsValid :
      (now : ℕ) (x : Call V) (c : TtlCache V)
      → now ≤ time now x
      → IsValid now c
      → IsValid (time now x) (step x c)
  unfolding step time
  step-IsValid now (write m k v) c h i = set-IsValid now m k v c h i
  step-IsValid now (look m k) c h i = get-IsValid now m k c h i
  step-IsValid now (drop k) c h i = pop-IsValid now k c i

  -- Every history of calls, made in the order of their times, keeps a cache valid.
  pub run-IsValid :
      (now : ℕ) (calls : List (Call V)) (c : TtlCache V)
      → From now calls
      → IsValid now c
      → IsValid (last_time now calls) (run calls c)
  unfolding run last_time
  run-IsValid now [] c h i = i
  run-IsValid now (x ∷ xs) c h i =
      run-IsValid (time now x) xs (step x c) h.1 (step-IsValid now x c h.0 i)
