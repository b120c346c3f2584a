-- ===== src/Feedback.antt =====
-- ai-service/src/ai_service/util/feedback_adjuster.py and the signal of port/feedback_repository.py:
-- match scores are moved by a user's feedback. A decimal such as 0.15 is the quotient of its digits
-- by a power of ten, which rounds to the same number. What is logged is left out.
pub mod Bounds
use site_parser_for_freelans.Common.{
  ℕ, Bool, true, false, ◌&&◌, ◌==◌, Option, none, some, List, [], ◌∷◌, if◌then◌else◌,
}
use site_parser_for_freelans.Common.Float.{
  Float, lit, neg, ◌⊕◌, ◌⊖◌, ◌⊗◌, ◌⊘◌, ◌≤?◌, ◌<?◌, max_float, min_float,
}
use site_parser_for_freelans.Domain.{MatchCandidate}

pub record FeedbackSignal (S : Type 0) : Type 0 where
  pub good_ratio : S
  pub bad_ratio : S
  pub total : ℕ

module _ {S : Type 0} ⦃f : Float S⦄ where
  abbrev pub percent : ℕ → S
  percent n = lit n ⊘ lit 100

  abbrev pub max_multiplier : S
  max_multiplier = percent 115

  abbrev pub min_multiplier : S
  min_multiplier = percent 50

  abbrev pub signal_threshold : S
  signal_threshold = percent 20

  unfoldable pub net : FeedbackSignal S → S
  net s = s.good_ratio ⊖ s.bad_ratio

  abbrev pub clamped : S → S
  clamped multiplier = max_float min_multiplier (min_float max_multiplier multiplier)

  unfoldable pub adjust_score : S → S → S
  adjust_score base_score net =
      if (net ≤? lit 0) && (lit 0 ≤? net)
      then base_score
      else if signal_threshold <? net
      then base_score ⊗ clamped (lit 1 ⊕ net ⊗ percent 15)
      else if net <? neg signal_threshold
      then base_score ⊗ clamped (lit 1 ⊕ net ⊗ percent 50)
      else base_score

  unfoldable pub apply_signal : S → FeedbackSignal S → S
  unfolding adjust_score net
  apply_signal score signal = if signal.total == 0 then score else adjust_score score (net signal)

-- What `get_job_skills` and the repository answer; `none` is an exception.
pub record Lookup (Skills S : Type 0) : Type 0 where
  pub get_job_skills : ℕ → Option Skills
  pub get_feedback_signal : ℕ → Skills → Option (FeedbackSignal S)

module _ {Skills S : Type 0} (lookup : Lookup Skills S) where
  -- The calls in the `try` block.
  unfoldable pub signal_for : MatchCandidate S → Option (FeedbackSignal S)
  signal_for c = elim (lookup.get_job_skills c.job_id) [
    | none ↦ none
    | some skills ↦ lookup.get_feedback_signal c.user_id skills
  ]

module _ {S : Type 0} ⦃f : Float S⦄ where
  -- The body of the loop for one candidate; `rest` is the result for the later ones.
  unfoldable pub adjust_one :
      S
      → MatchCandidate S
      → Option (FeedbackSignal S)
      → List (MatchCandidate S)
      → List (MatchCandidate S)
  unfolding apply_signal
  adjust_one threshold c none rest = c ∷ rest
  adjust_one threshold c (some signal) rest =
      let new_score = apply_signal c.match_score signal in
      if threshold ≤? new_score then record c { match_score = new_score } ∷ rest else rest

  unfoldable pub adjust_candidates :
      {Skills : Type 0} → Lookup Skills S → S → List (MatchCandidate S) → List (MatchCandidate S)
  unfolding signal_for adjust_one
  adjust_candidates lookup threshold [] = []
  adjust_candidates lookup threshold (c ∷ cs) =
      adjust_one threshold c (signal_for lookup c) (adjust_candidates lookup threshold cs)
