-- ===== src/FeatureFlags/Split.antt =====
-- How the variants of a flag of util/feature_flags.py split the users.
use Prim.Native.String.{String}
use site_parser_for_freelans.Common.{
  ℕ, ◌≡◌, ◌⊎◌, refl, inl, inr, true, false, Bool-cases, some, List, [], ◌∷◌, is_empty,
}
use site_parser_for_freelans.Common.Float.{Float, lit, ◌<?◌, ◌⊕◌}
use site_parser_for_freelans.FeatureFlags.{
  FeatureFlag, pick_variant, variant_of, get_flag, get_variant,
}

module _ {S : Type 0} ⦃f : Float S⦄ where
  -- The variant whose part of the hundred the number falls into: the sum up to it is the first that is
  -- greater than the number, or no sum is and it is the last one.
  abbrev pub Chosen : ℕ → S → List (String × S) → String → Type 0
  Chosen hash_val cumulative [] v = ⊥
  Chosen hash_val cumulative ((variant, percentage) ∷ variants) v =
      (((lit hash_val <? (cumulative ⊕ percentage)) ≡ true) × (v ≡ variant))
      ⊎ (((lit hash_val <? (cumulative ⊕ percentage)) ≡ false)
          × (((variants ≡ []) × (v ≡ variant))
              ⊎ Chosen hash_val (cumulative ⊕ percentage) variants v))

  pick_variant-Chosen :
      (hash_val : ℕ) (cumulative : S) (last : String) (v : String × S) (vs : List (String × S))
      → Chosen hash_val cumulative (v ∷ vs) (pick_variant hash_val cumulative last (v ∷ vs))
  unfolding pick_variant
  pick_variant-Chosen hash_val cumulative last (variant, percentage) [] =
      elim (Bool-cases (lit hash_val <? (cumulative ⊕ percentage))) [
        | inl p ↦ inl (p, rw p refl)
        | inr p ↦ inr (p, inl (refl, rw p refl))
      ]
  pick_variant-Chosen hash_val cumulative last (variant, percentage) (w ∷ ws) =
      elim (Bool-cases (lit hash_val <? (cumulative ⊕ percentage))) [
        | inl p ↦ inl (p, rw p refl)
        | inr p ↦
            inr
              (p, inr (rw p (pick_variant-Chosen hash_val (cumulative ⊕ percentage) variant w ws)))
      ]

  -- A flag that is found, enabled and has variants gives one of them: the one at which the sum of the
  -- percentages first exceeds the number of the user, or the last one if none does.
  pub get_variant-Chosen :
      (hash_val : ℕ) (flag_name : String) (flags : List (FeatureFlag S)) (flag : FeatureFlag S)
      → get_flag flag_name flags ≡ some flag
      → flag.enabled ≡ true
      → is_empty flag.variants ≡ false
      → (v : String) × (get_variant hash_val flag_name flags ≡ some v)
        × Chosen hash_val (lit 0) flag.variants v
  unfolding get_variant variant_of
  get_variant-Chosen hash_val flag_name flags flag found enabled some_variant = (
    pick_variant hash_val (lit 0) "" flag.variants,
    rw (found, enabled, some_variant) refl,
    chosen flag.variants some_variant,
  )
    where
      chosen :
          (vs : List (String × S))
          → is_empty vs ≡ false
          → Chosen hash_val (lit 0) vs (pick_variant hash_val (lit 0) "" vs)
      chosen [] h = absurd (cc h)
      chosen (v ∷ vs) h = pick_variant-Chosen hash_val (lit 0) "" v vs
