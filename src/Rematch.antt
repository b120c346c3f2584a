-- ===== src/Rematch.antt =====
-- ai-service/src/ai_service/usecase/process_user_rematch.py: what ProcessUserRematchUseCase sends
-- once the candidates are filtered and adjusted, with `_build_ranked_jobs` and `_batch_score`.
-- `get` of the job repository gives the title of a job, and none for a missing one; `round` is
-- Python's `round(x, 2)`. Logging is left out.
pub mod Sent
use Prim.Native.String.{String}
use site_parser_for_freelans.Common.{
  ℕ, suc, ◌+◌, Bool, true, false, Option, none, some, List, [], ◌∷◌, map, length, take,
  if◌then◌else◌,
}
use site_parser_for_freelans.Common.Float.{Float, lit, ◌⊕◌, ◌⊗◌, ◌⊘◌, ◌<?◌}
use site_parser_for_freelans.Domain.{RankedJob, MatchCandidate}

-- What the notification queue is asked to do: a batch with its score, or the candidates at once, or
-- one by one.
pub data Sending (S : Type 0) : Type 0 where
  enqueue_batch : ℕ → List (RankedJob S) → S → Sending S
  enqueue_many : List (MatchCandidate S) → Sending S
  enqueue : MatchCandidate S → Sending S

-- The methods that the notification queue has.
pub data Methods : Type 0 where
  has_enqueue_batch has_enqueue_many has_enqueue : Methods

module _ {S : Type 0} ⦃f : Float S⦄ where
  -- The ranked job of a candidate, if its job is there; `count` are in the list so far.
  unfoldable pub append_ranked :
      ℕ → MatchCandidate S → Option String → (ℕ → List (RankedJob S)) → List (RankedJob S)
  append_ranked count c none next = next count
  append_ranked count c (some title) next =
      record {
        job_id = c.job_id;
        title = title;
        why_it_fits = c.why_it_fits;
        rank = count + 1;
        actor_confidence = c.match_score;
        final_score = if lit 0 <? c.final_score then c.final_score else c.match_score;
        ranker_version = c.ranker_version;
        reason_codes = c.reason_codes;
      }
      ∷ next (suc count)

  unfoldable pub build_ranked_jobs :
      (ℕ → Option String) → List (MatchCandidate S) → ℕ → List (RankedJob S)
  unfolding append_ranked
  build_ranked_jobs get [] count = []
  build_ranked_jobs get (c ∷ cs) count =
      append_ranked count c (get c.job_id) (build_ranked_jobs get cs)

  unfoldable pub add_final : S → List (RankedJob S) → S
  add_final total [] = total
  add_final total (r ∷ rs) = add_final (total ⊕ r.final_score) rs

  unfoldable pub batch_score : (S → S) → List (RankedJob S) → S
  unfolding add_final
  batch_score round [] = lit 0
  batch_score round (r ∷ rs) = round ((add_final (lit 0) (r ∷ rs) ⊘ lit (length (r ∷ rs))) ⊗ lit 10)

  -- The call for the ranked jobs, if there are any, and the number of them.
  unfoldable pub send_ranked : (S → S) → ℕ → List (RankedJob S) → List (Sending S) × ℕ
  unfolding batch_score
  send_ranked round user_id [] = ([], 0)
  send_ranked round user_id (r ∷ rs) =
      (enqueue_batch user_id (r ∷ rs) (batch_score round (r ∷ rs)) ∷ [], length (r ∷ rs))

  -- The end of `execute`: the calls, and the number that is returned.
  unfoldable pub send :
      Methods
      → (ℕ → Option String)
      → (S → S)
      → ℕ
      → ℕ
      → List (MatchCandidate S)
      → List (Sending S) × ℕ
  unfolding send_ranked build_ranked_jobs
  send has_enqueue_batch get round max_jobs user_id candidates =
      send_ranked round user_id (build_ranked_jobs get (take max_jobs candidates) 0)
  send has_enqueue_many get round max_jobs user_id candidates =
      (enqueue_many (take max_jobs candidates) ∷ [], length (take max_jobs candidates))
  send has_enqueue get round max_jobs user_id candidates =
      (map enqueue (take max_jobs candidates), length (take max_jobs candidates))
