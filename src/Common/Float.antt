-- ===== src/Common/Float.antt =====
-- Floating-point numbers, which the program uses for scores: a type with the operations that the
-- source applies, and the laws of the order that its code relies on. `leb` is `<=` on numbers that
-- are not NaN. Arithmetic rounds, so no equation between results is assumed.
use Prim.Native.Nat.{ℕ}
use mathlib.Core.Path.{◌≡◌, refl}
use mathlib.Core.Logic.{◌⊎◌, inl, inr}
use mathlib.Core.Bool.{Bool, true, false, not}
use site_parser_for_freelans.Common.Tests.{Bool-cases, if◌then◌else◌}

pub record Float (S : Type 0) : Type 0 where
  pub leb : S → S → Bool
  pub leb_total : (a b : S) → (leb a b ≡ true) ⊎ (leb b a ≡ true)
  pub leb_trans : (a b c : S) → leb a b ≡ true → leb b c ≡ true → leb a c ≡ true
  pub lit : ℕ → S
  pub neg : S → S
  pub add : S → S → S
  pub sub : S → S → S
  pub mul : S → S → S
  pub div : S → S → S

module _ {S : Type 0} ⦃f : Float S⦄ where
  infix 50 ◌≤?◌ ◌<?◌
  infixl 65 ◌⊕◌ ◌⊖◌
  infixl 70 ◌⊗◌ ◌⊘◌
  abbrev pub ◌≤?◌ : S → S → Bool
  ◌≤?◌ = f.leb

  abbrev pub ◌<?◌ : S → S → Bool
  a <? b = not (f.leb b a)

  abbrev pub lit : ℕ → S
  lit = f.lit

  abbrev pub neg : S → S
  neg = f.neg

  abbrev pub ◌⊕◌ : S → S → S
  ◌⊕◌ = f.add

  abbrev pub ◌⊖◌ : S → S → S
  ◌⊖◌ = f.sub

  abbrev pub ◌⊗◌ : S → S → S
  ◌⊗◌ = f.mul

  abbrev pub ◌⊘◌ : S → S → S
  ◌⊘◌ = f.div

  -- `max(a, b)` and `min(a, b)`: the first of two equal arguments.
  abbrev pub max_float : S → S → S
  max_float a b = if a <? b then b else a

  abbrev pub min_float : S → S → S
  min_float a b = if b <? a then b else a

  pub ≤?_refl : (a : S) → (a ≤? a) ≡ true
  ≤?_refl a = elim (f.leb_total a a) [ inl h ↦ h | inr h ↦ h ]

  pub ≤?_of_not : (a b : S) → (a ≤? b) ≡ false → (b ≤? a) ≡ true
  ≤?_of_not a b h = elim (f.leb_total a b) [ inl p ↦ cc | inr p ↦ p ]

  -- What is at most something below `c` is below `c`.
  pub not-≤?_mono : (a b c : S) → (a ≤? b) ≡ true → (c ≤? b) ≡ false → (c ≤? a) ≡ false
  not-≤?_mono a b c p q = elim (Bool-cases (c ≤? a)) [
    | inl h ↦ cc (f.leb_trans c a b h p)
    | inr h ↦ h
  ]

  -- `max(lo, min(hi, m))` is between `lo` and `hi`.
  pub clamp_between :
      (lo hi m : S)
      → (lo ≤? hi) ≡ true
      → ((lo ≤? max_float lo (min_float hi m)) ≡ true)
        × ((max_float lo (min_float hi m) ≤? hi) ≡ true)
  clamp_between lo hi m h = elim (Bool-cases (hi ≤? m)) [
    | inl p ↦ at_most hi (rw p refl) (≤?_refl hi)
    | inr p ↦ at_most m (rw p refl) (≤?_of_not hi m p)
  ]
    where
      at_most :
          (x : S)
          → min_float hi m ≡ x
          → (x ≤? hi) ≡ true
          → ((lo ≤? max_float lo (min_float hi m)) ≡ true)
            × ((max_float lo (min_float hi m) ≤? hi) ≡ true)
      at_most x e k = elim (Bool-cases (x ≤? lo)) [
        | inl p ↦ rw (e, p) (≤?_refl lo, h)
        | inr p ↦ rw (e, p) (≤?_of_not x lo p, k)
      ]
