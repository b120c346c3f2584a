-- ===== src/Tests/Batches.antt =====
-- The batch use case and the matching of a job, with scores in hundredths.
use Prim.Native.String.{String}
use site_parser_for_freelans.Common.{
  ℕ, ◌≡◌, ◌==◌, refl, true, Option, none, some, List, [], ◌∷◌, map, All, if◌then◌else◌,
}
use site_parser_for_freelans.Common.Int.{pos}
use site_parser_for_freelans.Domain.{MatchCandidate}
use site_parser_for_freelans.AcBatch.Scoring.{Job, User, Texts, Clock}
use site_parser_for_freelans.AcBatch.{AcBatch, Services, Settings, execute}
use site_parser_for_freelans.AcBatch.Trace.{Trace, fresh, execute-Trace}
use site_parser_for_freelans.AcBatch.Completion.{Answering, execute-returns}
use site_parser_for_freelans.AcBatch.Sends.{Sends, selected_ids, execute-Sends}
use site_parser_for_freelans.JobMatch as Match
use site_parser_for_freelans.JobMatch.Selected.{Answered, pairs, rerank_candidates_lem}
use site_parser_for_freelans.Tests.{hundredths}

abbrev a_job : ℕ → ℕ → Job ℕ
a_job id rerank_score = record {
  id = id;
  title = "bot";
  raw_html = "";
  source = "fl";
  technologies = "python" ∷ [];
  posted_at = none;
  created_at = none;
  rerank_score = rerank_score;
  feedback_bonus = 0;
  preference_multiplier = 100;
  final_score = 0;
  ranker_version = "";
  reason_codes = [];
}

-- The user prefers the jobs' source.
abbrev a_user : User ℕ
a_user = record {
  id = 3;
  profile_text = "python";
  embedding = 1 ∷ [];
  preferred_sources = "fl" ∷ [];
  tag_affinity = [];
}

abbrev texts : Texts
texts = record { strip = λ s. s; lower = λ s. s; prefix = λ n s. s; found_numbers = λ s. [] }

abbrev clock : Clock ℕ
clock = record { now = 0; exp = λ n. n }

abbrev loaded : List (Job ℕ × ℕ)
loaded = (a_job 7 60, 50) ∷ (a_job 8 90, 50) ∷ (a_job 9 20, 50) ∷ []

-- All calls return.
abbrev services : Services ℕ
services = record {
  get_by_id = λ id. some (some a_user);
  get_with_scores = λ ids embedding id. some loaded;
  get_feedback_signal = none;
  explain_batch = none;
  has_save_scoring_components = true;
  has_enqueue_batch = true;
  has_release_claim = true;
  returns = λ call. true;
}

abbrev settings : Settings ℕ
settings = record { rerank_threshold = 55; rerank_fallback_enabled = true; max_jobs_to_send = 5 }

abbrev batch : AcBatch
batch = record { user_id = 3; job_ids = 7 ∷ 8 ∷ 9 ∷ [] }

execute-Trace_example :
    Trace services batch fresh
      (execute texts clock settings services batch).0
      (execute texts clock settings services batch).1
execute-Trace_example = execute-Trace services batch texts clock settings

answering : Answering services
answering = record {
  users = λ id e. cc;
  jobs = λ ids v id e. cc;
  signals = λ get e id skills g. cc;
  explanations = λ explain e js g. cc;
  calls = λ call. refl;
}

execute-returns_example : (execute texts clock settings services batch).1 ≡ true
execute-returns_example = execute-returns texts clock settings services answering batch

execute-Sends_example :
    All
      (Sends texts clock settings services 3 (selected_ids texts clock settings services loaded))
      (execute texts clock settings services batch).0
execute-Sends_example =
    execute-Sends texts clock settings services batch a_user loaded refl refl refl

abbrev found : ℕ → MatchCandidate ℕ
found user_id = record {
  user_id = user_id;
  job_id = 9;
  match_score = 70;
  trace_id = "";
  why_it_fits = "";
  raw_similarity = 70;
  rerank_score = 0;
  final_score = 0;
  ranker_version = "";
  reason_codes = [];
  profile_text = "python";
}

-- The reranker gives each pair 40.
abbrev score_pairs : List (String × String) → Option (List ℕ)
score_pairs ps = some (map (λ p. 40) ps)

abbrev match_services : Match.Services ℕ
match_services = record {
  find_users_for_job = λ limit. some (found 1 ∷ found 2 ∷ []);
  score_pairs = some score_pairs;
  get_feedback_signal = none;
  structured_profile = λ t. t;
}

abbrev match_settings : Match.Settings ℕ
match_settings = record {
  threshold = 70;
  limit = 20;
  rerank_threshold = 55;
  rerank_top_k = pos 10;
  rerank_fallback_enabled = true;
}

rerank_candidates_example :
    let cs = found 1 ∷ found 2 ∷ [] in
    Answered match_settings match_services
      (Match.profiled match_settings match_services cs)
      (score_pairs (pairs match_settings match_services "a bot" cs))
      (Match.rerank_candidates match_settings match_services "a bot" cs)
rerank_candidates_example =
    rerank_candidates_lem match_settings match_services "a bot" (found 1 ∷ found 2 ∷ []) score_pairs
      refl refl

-- Job 9 is missing, and there is room for two.
abbrev titles : ℕ → Option String
titles id = if id == 9 then none else some "bot"

abbrev for_job : ℕ → MatchCandidate ℕ
for_job id = record (found 3) { job_id = id }
