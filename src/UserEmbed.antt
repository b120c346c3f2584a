-- ===== src/UserEmbed.antt =====
-- ai-service/src/ai_service/usecase/process_user_embed.py and util/profile_embedding_text.py: the
-- embedding of a user's profile. What `extract_structured_profile` finds in the profile text, its
-- strip and lower, the text of a profile without structure, and the calls of the repository, the
-- encoder and the queue are arguments. `S` is the type of the numbers, `V` that of the embeddings.
-- Logging is left out.
pub mod Calls
pub mod Order
use Prim.Native.String.{String, ◌++◌ as str_append}
use text.Mathlib.Text.{◌==◌ as str_eq}
use site_parser_for_freelans.Common.{
  ℕ, Bool, true, false, not, ◌&&◌, ◌||◌, Option, none, some, List, [], ◌∷◌, ◌++◌, map, any,
  is_empty, keep_if, if◌then◌else◌,
}
use site_parser_for_freelans.Common.Float.{Float, lit, ◌≤?◌, ◌<?◌}
use site_parser_for_freelans.AcBatch.Scoring.{join}
use site_parser_for_freelans.Preferences.{StructuredProfile, contains}

-- The dict of a profile: `preferred_work_type` is never read.
pub record Profile (S : Type 0) : Type 0 where
  pub stack : List String
  pub specialization : Option String
  pub level : Option String
  pub min_budget_hint : Option S

-- What the profile parser gives: there may be none, and it may raise.
pub data Parsed (S : Type 0) : Type 0 where
  no_parser parse_failed : Parsed S
  parsed : Profile S → Parsed S

abbrev pub mobile_stack_hints : List String
mobile_stack_hints =
    "flutter" ∷ "dart" ∷ "kotlin" ∷ "swift" ∷ "react native" ∷ "android" ∷ "ios" ∷ []

abbrev pub is_none : {A : Type 0} → Option A → Bool
is_none none = true
is_none (some x) = false

abbrev pub is_text : String → Option String → Bool
is_text t none = false
is_text t (some u) = str_eq u t

-- `x or default`, for a text.
abbrev pub or_default : String → String → String
or_default x default = if str_eq x "" then default else x

abbrev pub if_some : Bool → String → List String
if_some wanted t = if wanted then t ∷ [] else []

module _ (strip lower : String → String) where
  -- `tuple(str(item).strip().lower() for item in items if str(item).strip())`.
  unfoldable pub clean_stack : List String → List String
  clean_stack items =
      map (λ item. lower (strip item)) (keep_if (λ item. not (str_eq (strip item) "")) items)

  -- `str(x or default).strip().lower() or default`.
  unfoldable pub clean_or : String → Option String → String
  clean_or default none = or_default (lower (strip default)) default
  clean_or default (some x) = or_default (lower (strip (or_default x default))) default

  -- `str(x or "").strip()`.
  abbrev pub stripped : Option String → String
  stripped none = strip ""
  stripped (some x) = strip x

-- The specialization of `_fallback_structured_profile`; `has` is whether a text is in the profile
-- text in lower case.
unfoldable pub fallback_specialization : (String → Bool) → Option String → String
fallback_specialization has work_type =
    if has "frontend"
    then "frontend"
    else if has "backend"
    then "backend"
    else if has "devops"
    then "devops"
    else if has "design"
    then "design"
    else if is_text "mobile" work_type
    then "mobile"
    else if is_text "web" work_type
    then "backend"
    else "other"

module _ {S : Type 0} ⦃f : Float S⦄ where
  unfoldable pub fallback_level : Option S → String
  fallback_level none = "не указан"
  fallback_level (some years) =
      if lit 6 ≤? years
      then "senior"
      else if lit 3 ≤? years
      then "middle"
      else if lit 0 <? years
      then "junior"
      else "не указан"

  -- `_fallback_structured_profile`.
  unfoldable pub fallback_structured_profile :
      (String → Bool) → StructuredProfile S → Option (Profile S)
  unfolding fallback_specialization fallback_level
  fallback_structured_profile has local =
      let nothing =
        is_empty local.stack
        && is_none local.experience_years
        && is_none local.desired_budget_min
        && is_none local.work_type in
      if nothing
      then none
      else some (record {
        stack = local.stack;
        specialization = some (fallback_specialization has local.work_type);
        level = some (fallback_level local.experience_years);
        min_budget_hint = local.desired_budget_min;
      })

  module _ (strip lower : String → String) where
    -- `_normalize_structured_profile`.
    unfoldable pub normalize_structured_profile : StructuredProfile S → Profile S → Profile S
    unfolding clean_stack clean_or contains
    normalize_structured_profile local p =
        let stack = clean_stack strip lower p.stack in
        let specialization = clean_or strip lower "other" p.specialization in
        let has_mobile_stack = any (λ item. contains item mobile_stack_hints) stack in
        let mobile =
          not (str_eq specialization "mobile")
          && (is_text "mobile" local.work_type || has_mobile_stack) in
        record p {
          stack = stack;
          specialization = some (if mobile then "mobile" else specialization);
        }

    -- The profile that is used: the parser's, normalized, or else the one of the rules.
    unfoldable pub structured_profile :
        (String → Bool) → StructuredProfile S → Parsed S → Option (Profile S)
    unfolding fallback_structured_profile normalize_structured_profile
    structured_profile has local no_parser = fallback_structured_profile has local
    structured_profile has local parse_failed = fallback_structured_profile has local
    structured_profile has local (parsed p) = some (normalize_structured_profile local p)

    -- `build_embedding_text`.
    unfoldable pub build_embedding_text : String → Profile S → String
    build_embedding_text profile_text p =
        let stack =
          map (λ item. strip item) (keep_if (λ item. not (str_eq (strip item) "")) p.stack) in
        let specialization = stripped strip lower p.specialization in
        let level = stripped strip lower p.level in
        let raw_profile = strip profile_text in
        join "\n" (
          if_some (not (is_empty stack)) (str_append "Технологии и стек: " (join ", " stack))
          ++ if_some (not (str_eq specialization "") && not (str_eq specialization "other"))
              (str_append "Специализация: " specialization)
          ++ if_some (not (str_eq level "") && not (str_eq level "не указан"))
              (str_append "Уровень: " level)
          ++ if_some (not (str_eq raw_profile "")) raw_profile)
