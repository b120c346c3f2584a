-- ===== src/Domain.antt =====
-- ai-service/src/ai_service/domain: the records that the use cases exchange. Texts are native
-- strings where the code only stores or compares them. `S` is the type of the scores.
use Prim.Native.String.{String}
use site_parser_for_freelans.Common.{ℕ, List}

-- domain/ranked_job.py.
pub record RankedJob (S : Type 0) : Type 0 where
  pub job_id : ℕ
  pub title : String
  pub why_it_fits : String
  pub rank : ℕ
  pub actor_confidence : S
  pub final_score : S
  pub ranker_version : String
  pub reason_codes : List String

-- domain/critic_result.py.
pub record CriticResult (S : Type 0) : Type 0 where
  pub score : S
  pub critique : String

-- port/match_repository.py: MatchCandidate.
pub record MatchCandidate (S : Type 0) : Type 0 where
  pub user_id : ℕ
  pub job_id : ℕ
  pub match_score : S
  pub trace_id : String
  pub why_it_fits : String
  pub raw_similarity : S
  pub rerank_score : S
  pub final_score : S
  pub ranker_version : String
  pub reason_codes : List String
  pub profile_text : String
