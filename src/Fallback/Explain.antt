-- ===== src/Fallback/Explain.antt =====
-- The explanations that the actor with the rules as its fallback gives.
use Prim.Native.String.{String}
use text.Mathlib.Text.{◌==◌ as str_eq}
use site_parser_for_freelans.Common.{
  ℕ, ◌≡◌, refl, inl, inr, true, false, Bool-cases, Option, none, some, List, [], ◌∷◌, map, any,
  length, arith,
}
use site_parser_for_freelans.Common.Float.{Float}
use site_parser_for_freelans.Fallback.{empty, fall_back, ActorAgent, explain_batch, explains_all}
use site_parser_for_freelans.Fallback.Rules.{Candidate, rule_based_actor, default_explanation}

module _ {S : Type 0} ⦃f : Float S⦄ (strip : String → String) where
  -- The explanations are as many as the candidates, and none is blank.
  abbrev pub Explains : List (Candidate S) → List String → Type 0
  Explains candidates xs =
      (length xs ≡ length candidates) × (any (λ item. str_eq (strip item) "") xs ≡ false)

  rules-Explains :
      str_eq (strip default_explanation) "" ≡ false
      → (candidates : List (Candidate S))
      → Explains candidates (map (λ job. default_explanation) candidates)
  rules-Explains h [] = (refl, refl)
  rules-Explains h (job ∷ jobs) = let ih = rules-Explains h jobs in (omega (arith, ih.0), rw h ih.1)

  explains_all-Explains :
      (candidates : List (Candidate S)) (xs : List String)
      → explains_all strip candidates xs ≡ true
      → Explains candidates xs
  unfolding explains_all
  explains_all-Explains candidates xs h = ground arith

  -- Where stripping leaves something of the rules' explanation: whatever the language model does, its
  -- candidates get explanations, as many as there are candidates, none of them blank.
  pub explain_batch-Explains :
      str_eq (strip default_explanation) "" ≡ false
      → (actor : ActorAgent (Candidate S) S) (call : ℕ) (candidates : List (Candidate S))
      → (xs : List String) × ((explain_batch strip actor rule_based_actor call candidates).0
          ≡ some xs)
        × Explains candidates xs
  unfolding explain_batch rule_based_actor fall_back
  explain_batch-Explains h actor call candidates = from (actor.explain_batch call candidates)
    where
      from :
          (first : Option (List String))
          → (xs : List String) × ((fall_back
                (explains_all strip candidates)
                empty
                first
                (some (map (λ job. default_explanation) candidates))).0
              ≡ some xs)
            × Explains candidates xs
      from none = (map (λ job. default_explanation) candidates, refl, rules-Explains h candidates)
      from (some xs) = elim (Bool-cases (explains_all strip candidates xs)) [
        | inl p ↦ (xs, rw p refl, explains_all-Explains candidates xs p)
        | inr p ↦
            (map (λ job. default_explanation) candidates, rw p refl, rules-Explains h candidates)
      ]
