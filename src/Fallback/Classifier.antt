-- ===== src/Fallback/Classifier.antt =====
-- ai-service/src/ai_service/adapter/fallback/classifier.py: the classifier that falls back to rules. A
-- result is a dict; its keys are those of ClassificationResult, each present or not.
use Prim.Native.String.{String}
use site_parser_for_freelans.Common.{
  ◌≡◌, inl, inr, refl, subst, eq_of_some, Bool, true, false, not, ◌||◌, Bool-cases, Option, none,
  some, List, [], ◌∷◌, if◌then◌else◌,
}
use site_parser_for_freelans.Fallback.{
  Counted, success, error, empty, primary_outcome, fallback_after,
}

pub record ClassificationResult : Type 0 where
  pub project_type : Option String
  pub seniority : Option String
  pub technologies : Option (List String)
  pub complexity : Option String
  pub budget_level : Option String
  pub is_spam : Option Bool

abbrev pub has : {A : Type 0} → Option A → Bool
has none = false
has (some x) = true

abbrev pub or_else : {A : Type 0} → Option A → Option A → Option A
or_else none y = y
or_else (some x) y = some x

unfoldable pub is_empty_result : ClassificationResult → Bool
is_empty_result r = not (has r.project_type || has r.seniority || has r.complexity)

-- `{**fallback_result, **primary_result}`.
unfoldable pub merge : ClassificationResult → ClassificationResult → ClassificationResult
merge fallback primary = record {
  project_type = or_else primary.project_type fallback.project_type;
  seniority = or_else primary.seniority fallback.seniority;
  technologies = or_else primary.technologies fallback.technologies;
  complexity = or_else primary.complexity fallback.complexity;
  budget_level = or_else primary.budget_level fallback.budget_level;
  is_spam = or_else primary.is_spam fallback.is_spam;
}

-- `classify`, for what the two classifiers give for the text; `none` is an exception.
unfoldable pub classify :
    Option ClassificationResult → Option ClassificationResult → Counted ClassificationResult
unfolding is_empty_result merge
classify none fallback = (fallback, primary_outcome error ∷ fallback_after error ∷ [])
classify (some primary) fallback =
    if is_empty_result primary
    then (fallback, primary_outcome empty ∷ fallback_after empty ∷ [])
    else (
      some (elim fallback [ none ↦ primary | some rules ↦ merge rules primary ]),
      primary_outcome success ∷ [],
    )

-- Every field that the second has, the first has.
abbrev pub Covers : ClassificationResult → ClassificationResult → Type 0
Covers r s =
    (has s.project_type ≡ true → has r.project_type ≡ true)
    × (has s.seniority ≡ true → has r.seniority ≡ true)
    × (has s.technologies ≡ true → has r.technologies ≡ true)
    × (has s.complexity ≡ true → has r.complexity ≡ true)
    × (has s.budget_level ≡ true → has r.budget_level ≡ true)
    × (has s.is_spam ≡ true → has r.is_spam ≡ true)

-- Every field that the second has, the first has with that value.
abbrev pub Keeps : ClassificationResult → ClassificationResult → Type 0
Keeps r s =
    (has s.project_type ≡ true → r.project_type ≡ s.project_type)
    × (has s.seniority ≡ true → r.seniority ≡ s.seniority)
    × (has s.technologies ≡ true → r.technologies ≡ s.technologies)
    × (has s.complexity ≡ true → r.complexity ≡ s.complexity)
    × (has s.budget_level ≡ true → r.budget_level ≡ s.budget_level)
    × (has s.is_spam ≡ true → r.is_spam ≡ s.is_spam)

or_else-has : {A : Type 0} (x y : Option A) → has y ≡ true → has (or_else x y) ≡ true
or_else-has none y h = h
or_else-has (some x) y h = refl

or_else-keeps : {A : Type 0} (x y : Option A) → has x ≡ true → or_else x y ≡ x
or_else-keeps none y h = absurd (cc h)
or_else-keeps (some x) y h = refl

merge-Covers : (rules primary : ClassificationResult) → Covers (merge rules primary) rules
unfolding merge
merge-Covers rules primary = (
  or_else-has primary.project_type rules.project_type,
  or_else-has primary.seniority rules.seniority,
  or_else-has primary.technologies rules.technologies,
  or_else-has primary.complexity rules.complexity,
  or_else-has primary.budget_level rules.budget_level,
  or_else-has primary.is_spam rules.is_spam,
)

merge-Keeps : (rules primary : ClassificationResult) → Keeps (merge rules primary) primary
unfolding merge
merge-Keeps rules primary = (
  or_else-keeps primary.project_type rules.project_type,
  or_else-keeps primary.seniority rules.seniority,
  or_else-keeps primary.technologies rules.technologies,
  or_else-keeps primary.complexity rules.complexity,
  or_else-keeps primary.budget_level rules.budget_level,
  or_else-keeps primary.is_spam rules.is_spam,
)

-- With a fallback that does not raise, classifying does not raise, whatever the primary does, and the
-- result has every field of the fallback's; and where the primary's result has a project type, a
-- seniority or a complexity, its fields all stand in the result with their values.
pub classify-Complete :
    (primary : Option ClassificationResult) (rules : ClassificationResult)
    → (r : ClassificationResult) × ((classify primary (some rules)).0 ≡ some r)
      × Covers r rules
      × ((p : ClassificationResult) → primary ≡ some p → is_empty_result p ≡ false → Keeps r p)
unfolding classify
classify-Complete none rules = (
  rules,
  refl,
  ((λ h. h), (λ h. h), (λ h. h), (λ h. h), (λ h. h), (λ h. h)),
  λ p e. absurd (cc e),
)
classify-Complete (some primary) rules = elim (Bool-cases (is_empty_result primary)) [
  | inl h ↦ (
    rules,
    rw h refl,
    ((λ h. h), (λ h. h), (λ h. h), (λ h. h), (λ h. h), (λ h. h)),
    λ p e k. absurd (cc (h, eq_of_some e, k)),
  )
  | inr h ↦ (
    merge rules primary,
    rw h refl,
    merge-Covers rules primary,
    λ p e k. subst (Keeps (merge rules primary)) (eq_of_some e) (merge-Keeps rules primary),
  )
]
