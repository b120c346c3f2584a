-- ===== src/Tests/Ranking.antt =====
-- The rerank policy, the Actor-Critic loop and the feedback, with scores in hundredths.
use Prim.Native.String.{String}
use site_parser_for_freelans.Common.{
  ℕ, ◌≡◌, ◌≢◌, ◌↔◌, ◌<◌, ◌⊎◌, refl, Bool, true, false, Option, none, some, ◌==◌, if◌then◌else◌,
  List, [], ◌∷◌, length, All,
}
use site_parser_for_freelans.Common.Int.{pos}
use site_parser_for_freelans.Common.Float.{◌≤?◌, ◌⊗◌, neg}
use site_parser_for_freelans.Domain.{RankedJob, CriticResult, MatchCandidate}
use site_parser_for_freelans.Rerank.{apply_rerank_policy}
use site_parser_for_freelans.Common.Sort.{sort_by}
use site_parser_for_freelans.Rerank.Selection.{IsTopSelection}
use site_parser_for_freelans.Rerank.Policy.{decision, selects_top, falls_back_iff}
use site_parser_for_freelans.AcLoop.{ActorCriticResult, ActorCriticConfig, Agents, run}
use site_parser_for_freelans.AcLoop.Rounds.{
  FirstPassing, Beaten, ScoredIn, NoneScored, candidate_rounds, run-FirstPassing, run_not_passed,
}
use site_parser_for_freelans.Feedback.{FeedbackSignal, Lookup, signal_threshold, adjust_score}
use site_parser_for_freelans.Feedback.Bounds.{Capped, adjust_score_bounds}
use site_parser_for_freelans.Tests.{hundredths}

abbrev scores : List ℕ
scores = 40 ∷ 90 ∷ 60 ∷ []

abbrev itself : ℕ → ℕ
itself n = n

selects_top_example : IsTopSelection itself 50 2 scores (90 ∷ 60 ∷ [])
unfolding apply_rerank_policy sort_by
selects_top_example = selects_top itself 50 (pos 2) true "job" scores refl

falls_back_iff_example :
    ((decision itself 95 (pos 2) true "job" scores).used_fallback ≡ true)
    ↔ (true ≡ true) × (scores ≢ []) × (0 < 2) × All (λ x. (95 ≤? x) ≡ false) scores
falls_back_iff_example = falls_back_iff itself 95 (pos 2) true "job" scores

abbrev ranked : ℕ → RankedJob ℕ
ranked id = record {
  job_id = id;
  title = "bot";
  why_it_fits = "";
  rank = 1;
  actor_confidence = 50;
  final_score = 0;
  ranker_version = "";
  reason_codes = [];
}

abbrev verdict : ℕ → CriticResult ℕ
verdict score = record { score = score; critique = "again" }

abbrev score : ℕ → ℕ
score n = if n == 1 then 30 else if n == 2 then 40 else 80

-- The actor selects the job with the number of the attempt; the scores are 30, 40, 80, 80, …
abbrev agents : Agents ℕ ℕ
agents = record {
  select = λ number jobs max_jobs critique. some (ranked number ∷ []);
  evaluate = λ number selection. some (verdict (score number));
}

abbrev config : ℕ → ActorCriticConfig ℕ
config max_attempts = record {
  score_threshold = 70;
  max_attempts = max_attempts;
  max_jobs_per_selection = 3;
}

abbrev candidates : List (ℕ × ℕ)
candidates = (7, 60) ∷ (8, 50) ∷ []

abbrev outcome : List (RankedJob ℕ) → ℕ → ℕ → Bool → ActorCriticResult ℕ
outcome selection final_score attempts passed = record {
  selection = selection;
  final_score = final_score;
  attempts = attempts;
  passed = passed;
}

run-FirstPassing_example :
    FirstPassing 70 0
      (candidate_rounds agents (config 5) candidates)
      (outcome (ranked 3 ∷ []) 80 3 true)
unfolding run
run-FirstPassing_example =
    run-FirstPassing agents (config 5) candidates (outcome (ranked 3 ∷ []) 80 3 true) refl refl

run_not_passed_example :
    let played = candidate_rounds agents (config 2) candidates in
    All (Beaten 70 40) played
    × (2 ≡ length played)
    × (ScoredIn 70 (ranked 2 ∷ []) 40 played ⊎ (ranked 2 ∷ [] ≡ []) × NoneScored 70 played)
unfolding run
run_not_passed_example =
    run_not_passed agents (config 2) (7, 60) ((8, 50) ∷ []) (outcome (ranked 2 ∷ []) 40 2 false)
      refl refl

abbrev candidate : ℕ → ℕ → MatchCandidate ℕ
candidate user_id match_score = record {
  user_id = user_id;
  job_id = 9;
  match_score = match_score;
  trace_id = "";
  why_it_fits = "";
  raw_similarity = match_score;
  rerank_score = 0;
  final_score = 0;
  ranker_version = "";
  reason_codes = [];
  profile_text = "python";
}

abbrev signal : ℕ → Option (FeedbackSignal ℕ)
signal n =
    if n == 1
    then some (record { good_ratio = 100; bad_ratio = 0; total = 4 })
    else if n == 2
    then some (record { good_ratio = 0; bad_ratio = 0; total = 4 })
    else none

-- User 1 likes the jobs, user 2 gave no clear answer, and the signal of user 3 cannot be read.
abbrev lookup : Lookup (List String) ℕ
lookup = record {
  get_job_skills = λ job_id. some [];
  get_feedback_signal = λ user_id skills. signal user_id;
}

adjust_score_bounds_example :
    let moved : ℕ = adjust_score 80 90 in
    let net : ℕ = 90 in
    ((moved ≡ 80) ⊎ ((m : ℕ) × Capped m × (moved ≡ 80 ⊗ m)))
    × ((net ≤? signal_threshold) ≡ true → (neg signal_threshold ≤? net) ≡ true → moved ≡ 80)
adjust_score_bounds_example = adjust_score_bounds 80 90 refl
