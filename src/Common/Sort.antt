-- ===== src/Common/Sort.antt =====
-- Python's `sorted`: a stable insertion sort by a Boolean test. `sorted(…, reverse=True)` is stable
-- too, so both directions are this sort, by their own tests.
use mathlib.Core.Path.{◌≡◌, refl}
use mathlib.Core.Logic.{◌≢◌, ◌⊎◌, inl, inr}
use mathlib.Core.Bool.{Bool, true, false}
use mathlib.Core.List.{List, [], ◌∷◌, Perm}
use mathlib.Core.List.Perm
use Prim.Native.Nat.{ℕ, zero, suc}
use native.Mathlib.Omega.{arith}
use site_parser_for_freelans.Common.Tests.{Bool-cases, if◌then◌else◌}
use site_parser_for_freelans.Common.Lists.{All, All-map_fun, All-take, keep_if, take}

-- `before x y` says that `x` may stand before `y`.
module _ {ℓ} {A : Type ℓ} (before : A → A → Bool) where
  unfoldable pub insert_by : A → List A → List A
  insert_by x [] = x ∷ []
  insert_by x (y ∷ ys) = let rest = insert_by x ys in if before x y then x ∷ y ∷ ys else y ∷ rest

  unfoldable pub sort_by : List A → List A
  unfolding insert_by
  sort_by [] = []
  sort_by (x ∷ xs) = insert_by x (sort_by xs)

  abbrev pub Sorted : List A → Type ℓ
  Sorted [] = Unit
  Sorted (x ∷ xs) = All (λ y. before x y ≡ true) xs × Sorted xs

  insert_by-perm : (x : A) (xs : List A) → Perm (insert_by x xs) (x ∷ xs)
  unfolding insert_by
  insert_by-perm x [] = Perm.refl (x ∷ [])
  insert_by-perm x (y ∷ ys) = elim (Bool-cases (before x y)) [
    | inl h ↦ rw h (Perm.refl (x ∷ y ∷ ys))
    | inr h ↦ rw h (Perm.trans (Perm.cons y (insert_by-perm x ys)) (Perm.swap x y ys))
  ]

  -- Sorting neither loses nor adds an element.
  pub sort_by-perm : (xs : List A) → Perm (sort_by xs) xs
  unfolding sort_by
  sort_by-perm [] = Perm.refl []
  sort_by-perm (x ∷ xs) = Perm.trans (insert_by-perm x (sort_by xs)) (Perm.cons x (sort_by-perm xs))

  module _ {κ} (P : A → Type κ) where
    All-insert_inv : (x : A) (xs : List A) → All P (insert_by x xs) → P x × All P xs
    unfolding insert_by
    All-insert_inv x [] h = h
    All-insert_inv x (y ∷ ys) h = elim (Bool-cases (before x y)) [
      | inl q ↦ rw q at h
      | inr q ↦ moved (rw q at h) (All-insert_inv x ys)
    ]
      where
        moved :
            P y × All P (insert_by x ys)
            → (All P (insert_by x ys) → P x × All P ys)
            → P x × (P y × All P ys)
        moved k rest = ((rest k.1).0, (k.0, (rest k.1).1))

    pub All-sort_inv : (xs : List A) → All P (sort_by xs) → All P xs
    unfolding sort_by
    All-sort_inv [] h = tt
    All-sort_inv (x ∷ xs) h = let r = All-insert_inv x (sort_by xs) h in (r.0, All-sort_inv xs r.1)

    All-insert_by_of : (x : A) (xs : List A) → P x → All P xs → All P (insert_by x xs)
    unfolding insert_by
    All-insert_by_of x [] p h = (p, tt)
    All-insert_by_of x (y ∷ ys) p h = elim (Bool-cases (before x y)) [
      | inl q ↦ rw q (p, h)
      | inr q ↦ rw q (h.0, All-insert_by_of x ys p h.1)
    ]

    pub All-sort_by : (xs : List A) → All P xs → All P (sort_by xs)
    unfolding sort_by
    All-sort_by [] h = tt
    All-sort_by (x ∷ xs) h = All-insert_by_of x (sort_by xs) h.0 (All-sort_by xs h.1)

  insert_by-ne-nil : (x : A) (xs : List A) → insert_by x xs ≢ []
  unfolding insert_by
  insert_by-ne-nil x [] e = cc
  insert_by-ne-nil x (y ∷ ys) e = ground arith

  pub sort_by-eq-nil : (xs : List A) → sort_by xs ≡ [] → xs ≡ []
  unfolding sort_by
  sort_by-eq-nil [] e = refl
  sort_by-eq-nil (x ∷ xs) e = absurd (insert_by-ne-nil x (sort_by xs) e)

  module _ (total : (x y : A) → (before x y ≡ true) ⊎ (before y x ≡ true))
      (trans : (x y z : A) → before x y ≡ true → before y z ≡ true → before x z ≡ true) where
    All-insert_by :
        (z x : A) (xs : List A)
        → before z x ≡ true
        → All (λ y. before z y ≡ true) xs
        → All (λ y. before z y ≡ true) (insert_by x xs)
    unfolding insert_by
    All-insert_by z x [] p h = (p, tt)
    All-insert_by z x (y ∷ ys) p h = elim (Bool-cases (before x y)) [
      | inl q ↦ rw q (p, h)
      | inr q ↦ rw q (h.0, All-insert_by z x ys p h.1)
    ]

    insert_by-Sorted : (x : A) (xs : List A) → Sorted xs → Sorted (insert_by x xs)
    unfolding insert_by
    insert_by-Sorted x [] h = (tt, tt)
    insert_by-Sorted x (y ∷ ys) h = elim (Bool-cases (before x y)) [
      | inl q ↦ rw q ((q, All-map_fun _ _ (λ z p. trans x y z q p) ys h.0), h)
      | inr q ↦ rw q (All-insert_by y x ys (flip q) h.0, insert_by-Sorted x ys h.1)
    ]
      where
        flip : before x y ≡ false → before y x ≡ true
        flip q = elim (total x y) [ inl p ↦ cc | inr p ↦ p ]

    -- The result is in order: each element may stand before all that follow it.
    pub sort_by-Sorted : (xs : List A) → Sorted (sort_by xs)
    unfolding sort_by
    sort_by-Sorted [] = tt
    sort_by-Sorted (x ∷ xs) = insert_by-Sorted x (sort_by xs) (sort_by-Sorted xs)

  -- A class of elements that may all stand before one another keeps its order.
  module _ (same : A → Bool)
      (tied : (x y : A) → same x ≡ true → same y ≡ true → before x y ≡ true) where
    insert_by-stable : (x : A) (xs : List A) → keep_if same (insert_by x xs) ≡ keep_if same (x ∷ xs)
    unfolding insert_by
    insert_by-stable x [] = refl
    insert_by-stable x (y ∷ ys) = ground (arith, insert_by-stable x ys, tied x y)

    pub sort_by-stable : (xs : List A) → keep_if same (sort_by xs) ≡ keep_if same xs
    unfolding sort_by
    sort_by-stable [] = refl
    sort_by-stable (x ∷ xs) = ground (arith, insert_by-stable x (sort_by xs), sort_by-stable xs)

pub Sorted-take {ℓ} :
    {A : Type ℓ} (before : A → A → Bool) (n : ℕ) (xs : List A)
    → Sorted before xs
    → Sorted before (take n xs)
Sorted-take before zero xs h = tt
Sorted-take before (suc n) [] h = tt
Sorted-take before (suc n) (x ∷ xs) h = (All-take _ n xs h.0, Sorted-take before n xs h.1)
