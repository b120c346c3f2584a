-- ===== src/Tests/Fallbacks.antt =====
-- Runs of the agents with fallbacks, of the embedding of users and of the matching of a job.
use text.Mathlib.Text.{◌==◌ as str_eq}
use site_parser_for_freelans.Common.{◌||◌, ℕ, ◌≡◌, refl, true, false, none, some, [], ◌∷◌, is_empty}
use site_parser_for_freelans.AcLoop.{ActorCriticConfig, ActorCriticResult, run}
use site_parser_for_freelans.Fallback.{ActorAgent, CriticAgent}
use site_parser_for_freelans.Fallback.Rules.{Candidate}
use site_parser_for_freelans.Fallback.Total.{guarded, guarded-run_returns}
use site_parser_for_freelans.Fallback.Classifier.{
  ClassificationResult, classify, is_empty_result, Keeps,
}
use site_parser_for_freelans.Fallback.Keywords.{
  Normalized, rule_based_classify, Full, classify-rule_based_classify,
}
use site_parser_for_freelans.FeatureFlags.{FeatureFlag, get_variant, is_enabled}
use site_parser_for_freelans.UserEmbed.{parsed}
use site_parser_for_freelans.UserEmbed.Calls.{Answers, Input, execute as embed_user}
use site_parser_for_freelans.Tests.{hundredths}

-- Language models that are not there.
abbrev broken_actor : ActorAgent (Candidate ℕ) ℕ
broken_actor = record {
  select = λ call candidates max_jobs critique. none;
  explain_batch = λ call candidates. some ([]);
}

abbrev broken_critic : CriticAgent ℕ
broken_critic = record { evaluate = λ call selection. none }

abbrev a_candidate : Candidate ℕ
a_candidate = record {
  id = 7;
  title = "bot";
  match_score = 80;
  final_score = 0;
  ranker_version = "v1";
  reason_codes = [];
}

abbrev two_attempts : ActorCriticConfig ℕ
two_attempts = record { score_threshold = 700; max_attempts = 2; max_jobs_per_selection = 3 }

guarded-run_returns_example :
    (r : ActorCriticResult ℕ) × (run
        (guarded (λ t. t) broken_actor broken_critic)
        two_attempts
        ((a_candidate, 80) ∷ [])
      ≡ some r)
    × (is_empty r.selection ≡ false)
guarded-run_returns_example =
    guarded-run_returns (λ t. t) broken_actor broken_critic two_attempts (a_candidate, 80) [] 2 1
      refl refl

abbrev no_fields : ClassificationResult
no_fields = record {
  project_type = none;
  seniority = none;
  technologies = none;
  complexity = none;
  budget_level = none;
  is_spam = some false;
}

abbrev a_bot : ClassificationResult
a_bot = record no_fields { project_type = some "bot"; budget_level = some "low" }

abbrev a_user : Input ℕ
a_user = record {
  profile_text = some "Flutter";
  has = λ t. false;
  local_profile = record {
    stack = [];
    work_type = none;
    experience_years = none;
    desired_budget_min = none;
  };
  parsed_profile = parsed (record {
    stack = "flutter" ∷ [];
    specialization = some "web";
    level = none;
    min_budget_hint = none;
  });
  plain_text = "Flutter";
  has_queue = true;
}

abbrev all_answered : Answers ℕ
all_answered = record {
  upserts = true;
  backfills = true;
  embedding = some 5;
  saves = true;
  enqueues = true;
}

-- A flag with two variants, of which the second has the parts from thirty on.
abbrev a_flag : FeatureFlag ℕ
a_flag = record {
  name = "ranker";
  enabled = true;
  rollout_percentage = 5000;
  variants = ("old", 3000) ∷ ("new", 7000) ∷ [];
}

later_half : get_variant 30 "ranker" (a_flag ∷ []) ≡ some "new"
unfolding get_variant
later_half = refl

rolled_out :
    (is_enabled 4900 "ranker" (a_flag ∷ []) ≡ true)
    × (is_enabled 5000 "ranker" (a_flag ∷ []) ≡ false)
unfolding is_enabled
rolled_out = (refl, refl)

-- A text with these two words in it.
abbrev a_text : Normalized
a_text = record {
  is_blank = false;
  contains = λ w. str_eq w "bot" || str_eq w "senior";
  has_word = λ w. str_eq w "python";
  text_length = 40;
}

classified_text : (rule_based_classify 4 150 ("go" ∷ "python" ∷ []) a_text).complexity ≡ some "high"
unfolding rule_based_classify
classified_text = refl

classify-rule_based_classify_example :
    (r : ClassificationResult) × ((classify
        (some a_bot)
        (some (rule_based_classify 4 150 ("go" ∷ "python" ∷ []) a_text))).0
      ≡ some r)
    × Full r
    × ((p : ClassificationResult) → some a_bot ≡ some p → is_empty_result p ≡ false → Keeps r p)
classify-rule_based_classify_example =
    classify-rule_based_classify (some a_bot) 4 150 ("go" ∷ "python" ∷ []) a_text refl
