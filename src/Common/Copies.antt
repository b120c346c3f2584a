-- ===== src/Common/Copies.antt =====
-- How often a number stands in a list of numbers.
use Prim.Native.Nat.{ℕ, ◌+◌, ◌-◌}
use mathlib.Core.Path.{◌≡◌}
use mathlib.Core.List.{List, [], ◌∷◌, ◌++◌}
use native.Mathlib.Omega.{arith}
use site_parser_for_freelans.Common.Tests.{if◌then◌else◌, ◌==◌}

-- How often `j` stands in the list.
unfoldable pub copies : ℕ → List ℕ → ℕ
copies j [] = 0
copies j (i ∷ is) = let rest = copies j is in if i == j then rest + 1 else rest

pub copies-append : (j : ℕ) (is js : List ℕ) → copies j (is ++ js) ≡ copies j is + copies j js
unfolding copies
copies-append j [] js = omega arith
copies-append j (i ∷ is) js = ground (arith, copies-append j is js)

-- The list without the first `i`.
unfoldable pub drop_one : ℕ → List ℕ → List ℕ
drop_one i [] = []
drop_one i (j ∷ js) = let rest = drop_one i js in if j == i then js else j ∷ rest

pub copies-drop_one :
    (i j : ℕ) (is : List ℕ)
    → copies j (drop_one i is) ≡ (if i == j then copies j is - 1 else copies j is)
unfolding copies drop_one
copies-drop_one i j [] = ground arith
copies-drop_one i j (k ∷ is) = ground (arith, copies-drop_one i j is)
