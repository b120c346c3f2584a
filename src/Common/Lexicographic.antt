-- ===== src/Common/Lexicographic.antt =====
-- Python's comparison of tuples whose first component is a number that is not NaN, from the greatest
-- down: by the first component, and by a given test where it is equal.
use site_parser_for_freelans.Common.Tests.{Bool-cases, if◌then◌else◌}
use site_parser_for_freelans.Common.Float.{Float, ◌≤?◌, ◌<?◌, ≤?_of_not}
use mathlib.Core.Path.{◌≡◌, refl}
use mathlib.Core.Logic.{◌⊎◌, inl, inr}
use mathlib.Core.Bool.{Bool, true, false}

module _ {S : Type 0} ⦃f : Float S⦄ {A : Type 0} (key : A → S) (tie : A → A → Bool) where
  unfoldable pub greater_first : A → A → Bool
  greater_first x y = if key y <? key x then true else if key x <? key y then false else tie x y

  pub greater_first-key : (x y : A) → greater_first x y ≡ true → (key y ≤? key x) ≡ true
  unfolding greater_first
  greater_first-key x y h = elim (Bool-cases (key x ≤? key y)) [
    | inr p ↦ ≤?_of_not (key x) (key y) p
    | inl p ↦ elim (Bool-cases (key y ≤? key x)) [ inl q ↦ q | inr q ↦ cc (rw (p, q) at h) ]
  ]

  greater_first-tie :
      (x y : A) → greater_first x y ≡ true → (key x ≤? key y) ≡ true → tie x y ≡ true
  unfolding greater_first
  greater_first-tie x y h p = let q = greater_first-key x y h in rw (p, q) at h

  pub greater_first_total :
      ((x y : A) → (tie x y ≡ true) ⊎ (tie y x ≡ true))
      → (x y : A) → (greater_first x y ≡ true) ⊎ (greater_first y x ≡ true)
  unfolding greater_first
  greater_first_total total x y = elim (Bool-cases (key x ≤? key y)) [
    | inr p ↦ inl (rw p refl)
    | inl p ↦ elim (Bool-cases (key y ≤? key x)) [
      | inr q ↦ inr (rw q refl)
      | inl q ↦ elim (total x y) [ inl t ↦ inl (rw (p, q) t) | inr t ↦ inr (rw (p, q) t) ]
    ]
  ]

  pub greater_first_trans :
      ((x y z : A) → tie x y ≡ true → tie y z ≡ true → tie x z ≡ true)
      → (x y z : A) → greater_first x y ≡ true
      → greater_first y z ≡ true
      → greater_first x z ≡ true
  unfolding greater_first
  greater_first_trans trans x y z h k =
      let yx = greater_first-key x y h in
      let zy = greater_first-key y z k in
      let zx = f.leb_trans (key z) (key y) (key x) zy yx in
      elim (Bool-cases (key x ≤? key z)) [
        | inr p ↦ rw p refl
        | inl p ↦
            rw (p, zx)
              (trans x y z (greater_first-tie x y h (f.leb_trans (key x) (key z) (key y) p zy))
                (greater_first-tie y z k (f.leb_trans (key y) (key x) (key z) yx p)))
      ]
