-- ===== src/FeatureFlags.antt =====
-- ai-service/src/ai_service/util/feature_flags.py: FeatureFlags with the split of the traffic. The
-- flags are a list by their names, a flag has its variants in the order of its dict, and the number
-- from 0 to 99 that md5 or the random generator gives for a call is an argument.
pub mod Split
use Prim.Native.String.{String}
use text.Mathlib.Text.{◌==◌ as str_eq}
use site_parser_for_freelans.Common.{
  ℕ, Bool, true, false, not, ◌||◌, Option, none, some, List, [], ◌∷◌, is_empty, if◌then◌else◌,
}
use site_parser_for_freelans.Common.Float.{Float, lit, ◌<?◌, ◌⊕◌}

pub record FeatureFlag (S : Type 0) : Type 0 where
  pub name : String
  pub enabled : Bool
  pub rollout_percentage : S
  pub variants : List (String × S)

module _ {S : Type 0} where
  -- `self._flags.get(flag_name)`.
  unfoldable pub get_flag : String → List (FeatureFlag S) → Option (FeatureFlag S)
  get_flag flag_name [] = none
  get_flag flag_name (flag ∷ flags) =
      let rest = get_flag flag_name flags in if str_eq flag.name flag_name then some flag else rest

module _ {S : Type 0} ⦃f : Float S⦄ where
  -- For a number `share` of the hundred parts; without a user it is `random() * 100`, not rounded.
  unfoldable pub is_on : S → Option (FeatureFlag S) → Bool
  is_on share none = false
  is_on share (some flag) =
      if not flag.enabled
      then false
      else if flag.rollout_percentage <? lit 100
      then share <? flag.rollout_percentage
      else true

  unfoldable pub is_enabled : S → String → List (FeatureFlag S) → Bool
  unfolding is_on get_flag
  is_enabled share flag_name flags = is_on share (get_flag flag_name flags)

  -- The loop over the variants, with the last one as what is returned after it.
  unfoldable pub pick_variant : ℕ → S → String → List (String × S) → String
  pick_variant hash_val cumulative last [] = last
  pick_variant hash_val cumulative last ((variant, percentage) ∷ variants) =
      let total = cumulative ⊕ percentage in
      let rest = pick_variant hash_val total variant variants in
      if lit hash_val <? total then variant else rest

  unfoldable pub variant_of : ℕ → Option (FeatureFlag S) → Option String
  unfolding pick_variant
  variant_of hash_val none = none
  variant_of hash_val (some flag) =
      if not flag.enabled || is_empty flag.variants
      then none
      else some (pick_variant hash_val (lit 0) "" flag.variants)

  unfoldable pub get_variant : ℕ → String → List (FeatureFlag S) → Option String
  unfolding variant_of get_flag
  get_variant hash_val flag_name flags = variant_of hash_val (get_flag flag_name flags)
