-- ===== src/Preferences.antt =====
-- ai-service/src/ai_service/util/preference_filter.py, and the uses of its result in
-- usecase/process_user_rematch.py and usecase/process_job.py. The regular expressions, strip, lower
-- and the structured profile of a user are arguments. `S` is the type of the numbers.
pub mod Objections
pub mod Reasons
use Prim.Native.String.{String}
use text.Mathlib.Text.{◌==◌ as str_eq}
use site_parser_for_freelans.Common.{
  ℕ, Bool, true, false, not, ◌&&◌, ◌||◌, ◌==◌, Option, none, some, List, [], ◌∷◌, ◌++◌, map, any,
  is_empty, keep_if, if◌then◌else◌,
}
use site_parser_for_freelans.Common.Float.{Float, ◌≤?◌, ◌<?◌, lit}

pub record UserPreferences (S : Type 0) : Type 0 where
  pub include_keywords : List String
  pub exclude_keywords : List String
  pub min_budget : Option S
  pub max_budget : Option S
  pub preferred_sources : List String

-- What `extract_structured_profile` finds in the profile text.
pub record StructuredProfile (S : Type 0) : Type 0 where
  pub stack : List String
  pub work_type : Option String
  pub experience_years : Option S
  pub desired_budget_min : Option S

pub record User (S : Type 0) : Type 0 where
  pub id : ℕ
  pub preferences : UserPreferences S
  pub structured : StructuredProfile S

-- What the loop needs of the job.
pub record JobFacts (S : Type 0) : Type 0 where
  pub source : String
  pub job_stack : List String
  pub job_type : Option String
  pub required_experience_years : Option S
  pub budget_amount : Option S

pub record Classification : Type 0 where
  pub technologies : List String
  pub project_type : String
  pub seniority : String

pub data Reason : Type 0 where
  source work_type stack experience exclude_keyword include_keyword budget : Reason

abbrev pub reason_eq : Reason → Reason → Bool
reason_eq source source = true
reason_eq work_type work_type = true
reason_eq stack stack = true
reason_eq experience experience = true
reason_eq exclude_keyword exclude_keyword = true
reason_eq include_keyword include_keyword = true
reason_eq budget budget = true
reason_eq _ _ = false

unfoldable pub contains : String → List String → Bool
contains x xs = any (str_eq x) xs

-- `_extract_job_stack`, with the tokens whose expressions are found in the text.
unfoldable pub extract_job_stack :
    (String → String) → Option Classification → List String → List String
extract_job_stack clean none found = found
extract_job_stack clean (some c) found =
    keep_if (λ t. not (str_eq t "")) (map clean c.technologies) ++ found

-- `_extract_job_type`, with the words that the text contains.
unfoldable pub job_type_of_text : (String → Bool) → Option String
job_type_of_text has =
    if has "mobile" || has "android" || has "ios"
    then some "mobile"
    else if has "telegram" || has "бот" || has "bot"
    then some "bot"
    else if has "backend" || has "frontend" || has "web" || has "веб"
    then some "web"
    else none

unfoldable pub extract_job_type :
    (String → String) → (String → Bool) → Option Classification → Option String
unfolding job_type_of_text contains
extract_job_type clean has none = job_type_of_text has
extract_job_type clean has (some c) =
    if contains (clean c.project_type) ("web" ∷ "mobile" ∷ "bot" ∷ [])
    then some (clean c.project_type)
    else job_type_of_text has

-- Two optional values that are there and fail a test.
unfoldable pub clash {ℓ κ} : {A : Type ℓ} {B : Type κ} → (A → B → Bool) → Option A → Option B → Bool
clash test none y = false
clash test (some x) none = false
clash test (some x) (some y) = test x y

-- `set.add` and `filtered_user_reasons.setdefault(user_id, set()).add(reason)`.
unfoldable pub add : Reason → List Reason → List Reason
add r rs = if any (reason_eq r) rs then rs else rs ++ r ∷ []

unfoldable pub mark_filtered : ℕ → Reason → List (ℕ × List Reason) → List (ℕ × List Reason)
unfolding add
mark_filtered i r [] = (i, r ∷ []) ∷ []
mark_filtered i r ((j, rs) ∷ rest) =
    let marked = mark_filtered i r rest in if j == i then (j, add r rs) ∷ rest else (j, rs) ∷ marked

-- The users of `_record_budget_filtered_users`, in the order in which they were marked.
unfoldable pub budget_filtered_user_ids : List (ℕ × List Reason) → List ℕ
budget_filtered_user_ids [] = []
budget_filtered_user_ids ((i, rs) ∷ rest) =
    let others = budget_filtered_user_ids rest in
    if any (reason_eq budget) rs then i ∷ others else others

module _ {S : Type 0} ⦃f : Float S⦄ where
  -- The greatest of the years found in the text that are at most 30.
  unfoldable pub greatest : S → List S → S
  greatest best [] = best
  greatest best (x ∷ xs) = let better = if best <? x then x else best in greatest better xs

  unfoldable pub years_of_text : List S → Option S
  unfolding greatest
  years_of_text [] = none
  years_of_text (x ∷ xs) = some (greatest x xs)

  -- `_extract_required_experience_years`, with the numbers of years found in the text.
  unfoldable pub extract_required_experience_years :
      (String → String) → List S → Option Classification → Option S
  unfolding years_of_text
  extract_required_experience_years clean found none =
      years_of_text (keep_if (λ x. x ≤? lit 30) found)
  extract_required_experience_years clean found (some c) =
      if str_eq (clean c.seniority) "junior"
      then some (lit 1)
      else if str_eq (clean c.seniority) "middle"
      then some (lit 3)
      else if str_eq (clean c.seniority) "senior"
      then some (lit 5)
      else years_of_text (keep_if (λ x. x ≤? lit 30) found)

  unfoldable pub or_else : Option S → Option S → Option S
  or_else none y = y
  or_else (some x) y = some x

  module _ (clean strip : String → String) (keyword_matches : String → Bool) where
    unfoldable pub preferred : UserPreferences S → List String
    preferred prefs = map clean (keep_if (λ t. not (str_eq (strip t) "")) prefs.preferred_sources)

    unfoldable pub wanted : UserPreferences S → List String
    wanted prefs = keep_if (λ t. not (str_eq t "")) (map strip prefs.include_keywords)

    -- The body of the loop: the reason for which it marks the user, if it does.
    unfoldable pub reason_for : JobFacts S → User S → Option Reason
    unfolding contains preferred wanted clash or_else
    reason_for job user =
        let prefs = user.preferences in
        let structured = user.structured in
        let min_budget = or_else prefs.min_budget structured.desired_budget_min in
        if not (is_empty (preferred prefs)) && not (contains job.source (preferred prefs))
        then some source
        else if clash (λ x y. not (str_eq x y)) structured.work_type job.job_type
        then some work_type
        else if not (is_empty structured.stack)
            && not (is_empty job.job_stack)
            && not (any (λ t. contains t job.job_stack) structured.stack)
        then some stack
        else if clash (λ x y. x <? y) structured.experience_years job.required_experience_years
        then some experience
        else if any keyword_matches prefs.exclude_keywords
        then some exclude_keyword
        else if not (is_empty (wanted prefs)) && not (any keyword_matches (wanted prefs))
        then some include_keyword
        else if clash (λ x y. x <? y) job.budget_amount min_budget
        then some budget
        else if clash (λ x y. y <? x) job.budget_amount prefs.max_budget
        then some budget
        else none

    -- The loop over the users, after `filtered_user_reasons` of the users before.
    unfoldable pub evaluate_one :
        User S
        → Option Reason
        → (List (ℕ × List Reason) → List (User S) × List (ℕ × List Reason))
        → List (ℕ × List Reason)
        → List (User S) × List (ℕ × List Reason)
    unfolding mark_filtered
    evaluate_one u none next marked = let rest = next marked in (u ∷ rest.0, rest.1)
    evaluate_one u (some r) next marked = next (mark_filtered u.id r marked)

    unfoldable pub evaluate_each :
        JobFacts S → List (User S) → List (ℕ × List Reason) → List (User S) × List (ℕ × List Reason)
    unfolding reason_for evaluate_one
    evaluate_each job [] marked = ([], marked)
    evaluate_each job (u ∷ us) marked =
        evaluate_one u (reason_for job u) (λ m. evaluate_each job us m) marked

    unfoldable pub evaluate_preference_filter :
        JobFacts S → List (User S) → List (User S) × List (ℕ × List Reason)
    unfolding evaluate_each
    evaluate_preference_filter job users = evaluate_each job users []

    -- `_apply_preference_filter` of the rematch, with the facts of the jobs that are found.
    unfoldable pub keep_candidates :
        {C : Type 0} → (C → Option (JobFacts S)) → User S → List C → List C
    unfolding evaluate_preference_filter
    keep_candidates facts user cs = keep_if (λ c. passes (facts c)) cs
      where
        passes : Option (JobFacts S) → Bool
        passes none = false
        passes (some job) = not (is_empty (evaluate_preference_filter job (user ∷ [])).0)

    unfoldable pub apply_preference_filter :
        {C : Type 0} → (C → Option (JobFacts S)) → Option (User S) → List C → List C
    unfolding keep_candidates
    apply_preference_filter facts none cs = []
    apply_preference_filter facts (some user) cs = keep_candidates facts user cs
