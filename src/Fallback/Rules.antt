-- ===== src/Fallback/Rules.antt =====
-- rule_based_actor.py and rule_based_critic.py of ai-service/src/ai_service/adapter: the agents that
-- need no language model and never raise.
use Prim.Native.String.{String}
use site_parser_for_freelans.Common.{
  ℕ, ◌+◌, ◌≡◌, refl, ◌&&◌, some, List, [], ◌∷◌, map, take, length, if◌then◌else◌, arith,
}
use site_parser_for_freelans.Common.Float.{Float, lit, ◌≤?◌, ◌⊖◌, ◌⊗◌, ◌⊘◌, max_float, min_float}
use site_parser_for_freelans.Domain.{RankedJob}
use site_parser_for_freelans.Fallback.{ActorAgent, CriticAgent}

-- What the rules read of a job.
pub record Candidate (S : Type 0) : Type 0 where
  pub id : ℕ
  pub title : String
  pub match_score : S
  pub final_score : S
  pub ranker_version : String
  pub reason_codes : List String

abbrev pub default_explanation : String
default_explanation = "Соответствует вашему профилю по схожести."

module _ {S : Type 0} ⦃f : Float S⦄ where
  -- `job.final_score or job.match_score`, where 0 counts as none.
  unfoldable pub score_of : Candidate S → S
  score_of job =
      if (job.final_score ≤? lit 0) && (lit 0 ≤? job.final_score)
      then job.match_score
      else job.final_score

  -- The loop of `select`, from an index on.
  unfoldable pub rank_from : ℕ → List (Candidate S) → List (RankedJob S)
  unfolding score_of
  rank_from index [] = []
  rank_from index (job ∷ jobs) =
      record {
        job_id = job.id;
        title = job.title;
        why_it_fits = default_explanation;
        rank = index + 1;
        actor_confidence = max_float (lit 0) (lit 1 ⊖ lit index ⊗ (lit 1 ⊘ lit 10));
        final_score = score_of job;
        ranker_version = job.ranker_version;
        reason_codes = job.reason_codes;
      }
      ∷ rank_from (index + 1) jobs

  -- RuleBasedActorAgent.
  unfoldable pub rule_based_actor : ActorAgent (Candidate S) S
  unfolding rank_from
  rule_based_actor = record {
    select = λ call candidates max_jobs critique. some (rank_from 0 (take max_jobs candidates));
    explain_batch = λ call candidates. some (map (λ job. default_explanation) candidates);
  }

  -- RuleBasedCriticAgent.
  unfoldable pub rule_based_critic : CriticAgent S
  rule_based_critic = record {
    evaluate = λ call selection.
        let score = min_float (lit (length selection) ⊗ lit 2) (lit 10) in
        some (record {
          score = score;
          critique =
              if lit 5 ≤? score
              then "Selection contains enough relevant options."
              else "Too few options, try broader criteria.";
        });
  }

  pub length-rank_from :
      (index : ℕ) (jobs : List (Candidate S)) → length (rank_from index jobs) ≡ length jobs
  unfolding rank_from
  length-rank_from index [] = refl
  length-rank_from index (job ∷ jobs) = omega (arith, length-rank_from (index + 1) jobs)
