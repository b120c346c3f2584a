-- ===== src/Preferences/Objections.antt =====
-- What a user objects to in a job, described without the order of the tests, and that the preference
-- filter names the first objection.
use Prim.Native.String.{String}
use text.Mathlib.Text.{◌==◌ as str_eq}
use site_parser_for_freelans.Common.{
  ◌≡◌, refl, sym, subst, inl, inr, ◌⊎◌, Bool, true, false, not, ◌&&◌, Option, none, some, List, [],
  ◌∷◌, any, All, is_empty, if◌then◌else◌, Bool-cases,
}
use site_parser_for_freelans.Common.Float.{Float, ◌<?◌}
use site_parser_for_freelans.Preferences.{
  User, JobFacts, Reason, source, work_type, stack, experience, exclude_keyword, include_keyword,
  budget, contains, preferred, wanted, clash, or_else, reason_for,
}

-- A test that tells whether `P` holds.
abbrev Decides : Bool → Type 0 → Type 0
Decides b P = (b ≡ true → P) × (b ≡ false → P → ⊥)

-- Both values are known and the test says that they do not go together.
abbrev pub Clash : {A B : Type 0} → (A → B → Bool) → Option A → Option B → Type 0
Clash {A} {B} test x y = (a : A) × (b : B) × (x ≡ some a) × (y ≡ some b) × (test a b ≡ true)

-- There are some, and none of them passes the test.
abbrev pub NoneOf : {A : Type 0} → (A → Bool) → List A → Type 0
NoneOf test xs = (is_empty xs ≡ false) × All (λ x. test x ≡ false) xs

clash-Decides :
    {A B : Type 0} (test : A → B → Bool) (x : Option A) (y : Option B)
    → Decides (clash test x y) (Clash test x y)
unfolding clash
clash-Decides test none y = (λ h. absurd (cc h), λ h (a, b, p, q, t). cc p)
clash-Decides test (some x) none = (λ h. absurd (cc h), λ h (a, b, p, q, t). cc q)
clash-Decides test (some x) (some y) =
    (λ h. (x, y, refl, refl, h), λ h (a, b, p, q, t). cc (h, p, q, t))

any-All :
    {A : Type 0} (test : A → Bool) (xs : List A)
    → any test xs ≡ false
    → All (λ x. test x ≡ false) xs
any-All test [] h = tt
any-All test (x ∷ xs) h = elim (Bool-cases (test x)) [
  | inl e ↦ absurd (cc (rw e at h))
  | inr e ↦ (e, any-All test xs (rw e at h))
]

All-any :
    {A : Type 0} (test : A → Bool) (xs : List A)
    → All (λ x. test x ≡ false) xs
    → any test xs ≡ false
All-any test [] h = refl
All-any test (x ∷ xs) h = rw h.0 (All-any test xs h.1)

NoneOf-Decides :
    {A : Type 0} (test : A → Bool) (xs : List A)
    → Decides (not (is_empty xs) && not (any test xs)) (NoneOf test xs)
NoneOf-Decides test [] = (λ h. absurd (cc h), λ h (e, a). cc e)
NoneOf-Decides test (x ∷ xs) = elim (Bool-cases (any test (x ∷ xs))) [
  | inl e ↦ rw e (λ h. absurd (cc h), λ h (q, a). cc (e, All-any test (x ∷ xs) a))
  | inr e ↦ rw e (λ h. (refl, any-All test (x ∷ xs) e), λ h. absurd (cc h))
]

and_swap : (a b c : Bool) → (a && b && c) ≡ ((a && c) && b)
and_swap true true true = refl
and_swap true true false = refl
and_swap true false true = refl
and_swap true false false = refl
and_swap false b c = refl

and-Decides : {P Q : Type 0} (a b : Bool) → Decides a P → Decides b Q → Decides (a && b) (P × Q)
and-Decides true true d e = (λ h. (d.0 refl, e.0 refl), λ h. absurd (cc h))
and-Decides true false d e = (λ h. absurd (cc h), λ h p. e.1 refl p.1)
and-Decides false b d e = (λ h. absurd (cc h), λ h p. d.1 refl p.0)

not-Decides : (b : Bool) → Decides (not b) (b ≡ false)
not-Decides true = (λ h. absurd (cc h), λ h q. cc q)
not-Decides false = (λ h. refl, λ h. absurd (cc h))

-- The reasons in the order in which they are looked at.
abbrev pub all_reasons : List Reason
all_reasons =
    source ∷ work_type ∷ stack ∷ experience ∷ exclude_keyword ∷ include_keyword ∷ budget ∷ []

module _ {S : Type 0} ⦃f : Float S⦄ (clean strip : String → String)
    (keyword_matches : String → Bool) where
  -- What each of the reasons says of a job and a user.
  unfoldable pub Objects : JobFacts S → User S → Reason → Type 0
  Objects job u source =
      NoneOf (str_eq job.source) (preferred clean strip keyword_matches u.preferences)
  Objects job u work_type = Clash (λ x y. not (str_eq x y)) u.structured.work_type job.job_type
  Objects job u stack =
      NoneOf (λ t. contains t job.job_stack) u.structured.stack × (is_empty job.job_stack ≡ false)
  Objects job u experience =
      Clash (λ x y. x <? y) u.structured.experience_years job.required_experience_years
  Objects job u exclude_keyword =
      All (λ k. keyword_matches k ≡ false) u.preferences.exclude_keywords → ⊥
  Objects job u include_keyword =
      NoneOf keyword_matches (wanted clean strip keyword_matches u.preferences)
  Objects job u budget =
      Clash (λ b m. b <? m) job.budget_amount
        (or_else u.preferences.min_budget u.structured.desired_budget_min)
      ⊎ Clash (λ b m. m <? b) job.budget_amount u.preferences.max_budget

  -- The first of the reasons for which the user objects to the job, or none if there is no objection.
  unfoldable pub IsFirst : JobFacts S → User S → List Reason → Option Reason → Type 0
  IsFirst job u [] o = o ≡ none
  IsFirst job u (r ∷ rs) o =
      (Objects job u r × (o ≡ some r)) ⊎ ((Objects job u r → ⊥) × IsFirst job u rs o)

  if-IsFirst :
      (job : JobFacts S) (u : User S) (b : Bool) (r : Reason) (rs : List Reason) (o : Option Reason)
      → Decides b (Objects job u r)
      → IsFirst job u rs o
      → IsFirst job u (r ∷ rs) (if b then some r else o)
  unfolding IsFirst
  if-IsFirst job u true r rs o d h = inl (d.0 refl, refl)
  if-IsFirst job u false r rs o d h = inr (d.1 refl, h)

  budget-IsFirst :
      (job : JobFacts S) (u : User S)
      → IsFirst job u (budget ∷ []) (
          if clash
            (λ x y. x <? y)
            job.budget_amount
            (or_else u.preferences.min_budget u.structured.desired_budget_min)
          then some budget
          else if clash (λ x y. y <? x) job.budget_amount u.preferences.max_budget
          then some budget
          else none)
  unfolding IsFirst Objects
  budget-IsFirst job u = from _ _ (clash-Decides _ _ _) (clash-Decides _ _ _)
    where
      from :
          (b c : Bool)
          → Decides b (
              Clash
                (λ x y. x <? y)
                job.budget_amount
                (or_else u.preferences.min_budget u.structured.desired_budget_min))
          → Decides c (Clash (λ x y. y <? x) job.budget_amount u.preferences.max_budget)
          → IsFirst job u (budget ∷ []) (if b then some budget else if c then some budget else none)
      from true c d e = inl (inl (d.0 refl), refl)
      from false true d e = inl (inr (e.0 refl), refl)
      from false false d e = inr (λ h. elim h [ inl p ↦ d.1 refl p | inr q ↦ e.1 refl q ], refl)

  stack-Decides :
      (job : JobFacts S) (u : User S)
      → Decides
          (not (is_empty u.structured.stack)
            && not (is_empty job.job_stack)
            && not (any (λ t. contains t job.job_stack) u.structured.stack))
          (Objects job u stack)
  unfolding Objects
  stack-Decides job u =
      let has : String → Bool = λ t. contains t job.job_stack in
      subst (λ b. Decides b (NoneOf has u.structured.stack × (is_empty job.job_stack ≡ false)))
        (sym (and_swap (not (is_empty u.structured.stack)) _ _))
        (and-Decides _ _ (NoneOf-Decides has u.structured.stack)
          (not-Decides (is_empty job.job_stack)))

  exclude-Decides :
      (job : JobFacts S) (u : User S)
      → Decides (any keyword_matches u.preferences.exclude_keywords) (Objects job u exclude_keyword)
  unfolding Objects
  exclude-Decides job u =
      let ks = u.preferences.exclude_keywords in
      (λ h a. cc (h, All-any keyword_matches ks a), λ h n. n (any-All keyword_matches ks h))

  -- `reason_for` names the first objection in this order.
  reason_for-IsFirst :
      (job : JobFacts S) (u : User S)
      → IsFirst job u all_reasons (reason_for clean strip keyword_matches job u)
  unfolding reason_for Objects contains
  reason_for-IsFirst job u =
      if-IsFirst job u _ source _ _
        (NoneOf-Decides (str_eq job.source) (preferred clean strip keyword_matches u.preferences))
        (if-IsFirst job u _ work_type _ _
          (clash-Decides (λ x y. not (str_eq x y)) u.structured.work_type job.job_type)
          (if-IsFirst job u _ stack _ _ (stack-Decides job u) (
            if-IsFirst job u _ experience _ _
              (clash-Decides (λ x y. x <? y) u.structured.experience_years
                job.required_experience_years)
              (if-IsFirst job u _ exclude_keyword _ _ (exclude-Decides job u) (
                if-IsFirst job u _ include_keyword _ _
                  (NoneOf-Decides keyword_matches
                    (wanted clean strip keyword_matches u.preferences))
                  (budget-IsFirst job u))))))

  pub every-IsFirst :
      (job : JobFacts S) (users : List (User S))
      → All (λ u. IsFirst job u all_reasons (reason_for clean strip keyword_matches job u)) users
  every-IsFirst job [] = tt
  every-IsFirst job (u ∷ us) = (reason_for-IsFirst job u, every-IsFirst job us)
