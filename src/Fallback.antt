-- ===== src/Fallback.antt =====
-- ai-service/src/ai_service/adapter: the agents that fall back from a language model to rules when
-- the model raises or gives nothing of use. An agent may keep state and raise, so it is a function of
-- the number of the call into an `Option`, where `none` is an exception.
pub mod Rules
pub mod Total
pub mod Explain
pub mod Classifier
pub mod Keywords
use Prim.Native.String.{String}
use text.Mathlib.Text.{◌==◌ as str_eq}
use site_parser_for_freelans.Common.{
  ℕ, Bool, true, false, not, ◌&&◌, ◌||◌, ◌==◌, Option, none, some, List, [], ◌∷◌, any, is_empty,
  length, if◌then◌else◌,
}
use site_parser_for_freelans.Common.Float.{Float, ◌≤?◌, lit}
use site_parser_for_freelans.Domain.{RankedJob, CriticResult}

-- What util/fallback_metrics.py counts under the name of a pipeline: the outcomes of the primary
-- agent (`record_primary_outcome`) and the fallbacks (`record_fallback`).
pub data Outcome : Type 0 where
  success error empty invalid : Outcome

pub data Count : Type 0 where
  primary_outcome : Outcome → Count
  fallback_after : Outcome → Count

-- The result of a call, `none` where it raises, and what was counted.
abbrev pub Counted : Type 0 → Type 0
Counted A = Option A × List Count

-- The two calls of a wrapper: the first result if it is usable, and the fallback's otherwise.
-- `unusable` is how the result is counted that is not.
unfoldable pub fall_back : {A : Type 0} → (A → Bool) → Outcome → Option A → Option A → Counted A
fall_back usable unusable none fallback =
    (fallback, primary_outcome error ∷ fallback_after error ∷ [])
fall_back usable unusable (some x) fallback =
    if usable x
    then (some x, primary_outcome success ∷ [])
    else (fallback, primary_outcome unusable ∷ fallback_after unusable ∷ [])

-- `select` and `explain_batch` of an actor, and `evaluate` of a critic, for one user.
pub record ActorAgent (Job S : Type 0) : Type 0 where
  pub select : ℕ → List Job → ℕ → Option String → Option (List (RankedJob S))
  pub explain_batch : ℕ → List Job → Option (List String)

pub record CriticAgent (S : Type 0) : Type 0 where
  pub evaluate : ℕ → List (RankedJob S) → Option (CriticResult S)

-- An explanation for each candidate, none blank; `strip` is `str.strip`.
unfoldable pub explains_all : {Job : Type 0} → (String → String) → List Job → List String → Bool
explains_all strip candidates explanations =
    (length explanations == length candidates)
    && not (any (λ item. str_eq (strip item) "") explanations)

module _ {Job S : Type 0} where
  -- FallbackActorAgent.
  unfoldable pub select :
      ActorAgent Job S
      → ActorAgent Job S
      → ℕ
      → List Job
      → ℕ
      → Option String
      → Counted (List (RankedJob S))
  unfolding fall_back
  select primary fallback call candidates max_jobs critique =
      fall_back (λ selection. not (is_empty selection)) empty
        (primary.select call candidates max_jobs critique)
        (fallback.select call candidates max_jobs critique)

  unfoldable pub explain_batch :
      (String → String) → ActorAgent Job S → ActorAgent Job S → ℕ → List Job → Counted (List String)
  unfolding fall_back explains_all
  explain_batch strip primary fallback call candidates =
      fall_back (explains_all strip candidates) empty (primary.explain_batch call candidates)
        (fallback.explain_batch call candidates)

module _ {S : Type 0} ⦃f : Float S⦄ where
  -- `_is_unusable_result`; `strip_lower` is `str.strip` and then `str.lower`.
  unfoldable pub is_unusable_result : (String → String) → CriticResult S → Bool
  is_unusable_result strip_lower result =
      let critique = strip_lower result.critique in
      (result.score ≤? lit 0)
      && (str_eq critique "parse error." || str_eq critique "circuit breaker open.")

  -- FallbackCriticAgent.
  unfoldable pub evaluate :
      (String → String)
      → CriticAgent S
      → CriticAgent S
      → ℕ
      → List (RankedJob S)
      → Counted (CriticResult S)
  unfolding fall_back is_unusable_result
  evaluate strip_lower primary fallback call selection =
      fall_back (λ result. not (is_unusable_result strip_lower result)) invalid
        (primary.evaluate call selection) (fallback.evaluate call selection)
