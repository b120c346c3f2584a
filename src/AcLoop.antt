-- ===== src/AcLoop.antt =====
-- ai-service/src/ai_service/usecase/actor_critic_loop.py: the class ActorCriticLoop. The agents are
-- arguments: they may keep state and raise, so each is a function of the number of the attempt into
-- an `Option`, where `none` is an exception, which `run` lets through.
pub mod Rounds
use Prim.Native.String.{String}
use site_parser_for_freelans.Common.{
  ℕ, zero, suc, ◌+◌, Bool, true, false, ◌||◌, Option, none, some, List, [], ◌∷◌, is_empty, map,
  if◌then◌else◌,
}
use site_parser_for_freelans.Common.Float.{Float, lit, ◌≤?◌, ◌<?◌}
use site_parser_for_freelans.Domain.{RankedJob, CriticResult}

pub record ActorCriticResult (S : Type 0) : Type 0 where
  pub selection : List (RankedJob S)
  pub final_score : S
  pub attempts : ℕ
  pub passed : Bool

pub record ActorCriticConfig (S : Type 0) : Type 0 where
  pub score_threshold : S
  pub max_attempts : ℕ
  pub max_jobs_per_selection : ℕ

-- What the loop calls, for one user: `select` of the actor with the jobs, `max_jobs` and the last
-- critique, and `evaluate` of the critic.
pub record Agents (Job S : Type 0) : Type 0 where
  pub select : ℕ → List Job → ℕ → Option String → Option (List (RankedJob S))
  pub evaluate : ℕ → List (RankedJob S) → Option (CriticResult S)

-- What one attempt gives: a selection, which is not empty, with the critic's verdict on it, an empty selection, or an
-- exception of one of the agents.
pub data Round (S : Type 0) : Type 0 where
  scored : RankedJob S → List (RankedJob S) → CriticResult S → Round S
  nothing_selected raised : Round S

module _ {Job S : Type 0} (agents : Agents Job S) where
  unfoldable pub attempt : List Job → ℕ → ℕ → Option String → Round S
  attempt jobs max_jobs number critique = elim (agents.select number jobs max_jobs critique) [
    | none ↦ raised
    | some [] ↦ nothing_selected
    | some (j ∷ js) ↦ elim (agents.evaluate number (j ∷ js)) [
      | none ↦ raised
      | some verdict ↦ scored j js verdict
    ]
  ]

module _ {S : Type 0} ⦃f : Float S⦄ where
  -- What the body of the `for` loop does with a round; `next` is the rest of the loop.
  unfoldable pub judge :
      S
      → ℕ
      → List (RankedJob S)
      → S
      → (List (RankedJob S) → S → Option String → Option (ActorCriticResult S))
      → Round S
      → Option (ActorCriticResult S)
  judge threshold number best_selection best_score next raised = none
  judge threshold number best_selection best_score next nothing_selected = some (record {
    selection = best_selection;
    final_score = best_score;
    attempts = number;
    passed = false;
  })
  judge threshold number best_selection best_score next (scored j js verdict) =
      let selection : List (RankedJob S) = j ∷ js in
      let better = is_empty best_selection || best_score <? verdict.score in
      if threshold ≤? verdict.score
      then some (record {
        selection = selection;
        final_score = verdict.score;
        attempts = number;
        passed = true;
      })
      else next (if better then selection else best_selection)
          (if better then verdict.score else best_score) (some verdict.critique)

  module _ {Job : Type 0} (agents : Agents Job S) (config : ActorCriticConfig S)
      (jobs : List Job) where
    -- The `for` loop: `left` attempts remain, and `used` are spent.
    unfoldable pub loop :
        ℕ → ℕ → List (RankedJob S) → S → Option String → Option (ActorCriticResult S)
    unfolding attempt judge
    loop zero used best_selection best_score critique = some (record {
      selection = best_selection;
      final_score = best_score;
      attempts = used;
      passed = false;
    })
    loop (suc left) used best_selection best_score critique =
        judge config.score_threshold (suc used) best_selection best_score (loop left (suc used))
          (attempt agents jobs config.max_jobs_per_selection (suc used) critique)

module _ {S : Type 0} ⦃f : Float S⦄ {Job : Type 0} where
  unfoldable pub run :
      Agents Job S → ActorCriticConfig S → List (Job × S) → Option (ActorCriticResult S)
  unfolding loop
  run agents config [] =
      some (record { selection = []; final_score = lit 0; attempts = 0; passed = false })
  run agents config (c ∷ cs) =
      loop agents config (map (λ p. p.0) (c ∷ cs)) config.max_attempts 0 [] (lit 0) none
