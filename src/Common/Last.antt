-- ===== src/Common/Last.antt =====
-- The last element of a list.
use mathlib.Core.Path.{◌≡◌, refl, ap}
use mathlib.Core.List.{List, [], ◌∷◌, ◌++◌}
use mathlib.Core.Option.{Option, none, some}

module _ {A : Type 0} where
  abbrev attach : A → Option (List A × A) → Option (List A × A)
  attach x none = some ([], x)
  attach x (some (front, last)) = some (x ∷ front, last)

  -- The last element, and what is before it.
  abbrev pub split_last : List A → Option (List A × A)
  split_last [] = none
  split_last (x ∷ xs) = attach x (split_last xs)

  abbrev pub Ends : List A → Option (List A × A) → Type 0
  Ends l none = l ≡ []
  Ends l (some (front, last)) = l ≡ front ++ last ∷ []

  attach-Ends :
      (x : A) (xs : List A) (o : Option (List A × A)) → Ends xs o → Ends (x ∷ xs) (attach x o)
  attach-Ends x xs none e = ap (◌∷◌ x) e
  attach-Ends x xs (some (front, last)) e = ap (◌∷◌ x) e

  pub split_last-Ends : (l : List A) → Ends l (split_last l)
  split_last-Ends [] = refl
  split_last-Ends (x ∷ xs) = attach-Ends x xs (split_last xs) (split_last-Ends xs)
