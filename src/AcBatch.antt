-- ===== src/AcBatch.antt =====
-- ai-service/src/ai_service/usecase/process_ac_batch.py: the class ProcessACBatchUseCase. The
-- repositories, the actor and the notification queue are the environment; the result is the calls
-- that change something, in their order, and whether `execute` returns or an exception leaves it.
-- Logging is left out. `_diversify_selection` and its helpers, which nothing calls, are not modelled.
pub mod Scoring
pub mod Trace
pub mod Ranking
pub mod Sends
pub mod Completion
use Prim.Native.String.{String}
use text.Mathlib.Text.{◌==◌ as str_eq}
use site_parser_for_freelans.Common.{
  ℕ, suc, ◌+◌, Bool, true, false, ◌||◌, ◌==◌, not, Option, none, some, List, [], ◌∷◌, ◌++◌, map,
  length, is_empty, take, any, if◌then◌else◌, ltb, leb,
}
use site_parser_for_freelans.Common.Int.{ℤ, pos}
use site_parser_for_freelans.Common.Float.{
  Float, lit, ◌⊕◌, ◌⊖◌, ◌⊗◌, ◌⊘◌, ◌≤?◌, ◌<?◌, max_float, min_float,
}
use site_parser_for_freelans.Common.Lexicographic.{greater_first}
use site_parser_for_freelans.Common.Sort.{sort_by}
use site_parser_for_freelans.Domain.{RankedJob}
use site_parser_for_freelans.Rerank.{RerankPolicyDecision, apply_rerank_policy}
use site_parser_for_freelans.Feedback.{adjust_score}
use site_parser_for_freelans.AcBatch.Scoring.{
  Job, User, Texts, Clock, skills_key, time_decay_multiplier, competition_multiplier,
  preference_multiplier, tag_affinity_bonus, final_score, fallback_explanation, strings_eq,
}

pub record AcBatch : Type 0 where
  pub user_id : ℕ
  pub job_ids : List ℕ

-- The calls that change something outside. A row of scoring components has the job, the rerank
-- score, the feedback bonus, the preference multiplier and the final score.
pub data Call (S : Type 0) : Type 0 where
  save_scoring_components : ℕ → List (ℕ × S × S × S × S) → Call S
  enqueue_batch : ℕ → List (RankedJob S) → S → Call S
  mark_processed release_claim : ℕ → List ℕ → Call S

-- What the calls answer; `none` is an exception. A method that the object may lack is an `Option`,
-- or has a test.
pub record Services (S : Type 0) : Type 0 where
  pub get_by_id : ℕ → Option (Option (User S))
  pub get_with_scores : List ℕ → List S → ℕ → Option (List (Job S × S))
  pub get_feedback_signal : Option (ℕ → List String → Option S)
  pub explain_batch : Option (List (Job S) → Option (List String))
  pub has_save_scoring_components : Bool
  pub has_enqueue_batch : Bool
  pub has_release_claim : Bool
  pub returns : Call S → Bool

pub record Settings (S : Type 0) : Type 0 where
  pub rerank_threshold : S
  pub rerank_fallback_enabled : Bool
  pub max_jobs_to_send : ℕ

abbrev pub Cache : Type 0 → Type 0
Cache S = List (List String × S)

abbrev pub Run : Type 0 → Type 0
Run S = List (Call S) × Bool

module _ {S : Type 0} where
  -- `skills in cache` and `cache[skills]`.
  unfoldable pub cached : List String → Cache S → Option S
  cached skills [] = none
  cached skills (e ∷ es) =
      let rest = cached skills es in if strings_eq skills e.0 then some e.1 else rest

  -- Makes a call; `next` is what follows when it returns.
  unfoldable pub perform : Services S → Call S → Run S → Run S
  perform services call next =
      if services.returns call then (call ∷ next.0, next.1) else (call ∷ [], false)

  -- The body of the loop, for each job and its explanation.
  unfoldable pub number_jobs : ⦃f : Float S⦄ → ℕ → List (Job S) → List String → List (RankedJob S)
  number_jobs index [] texts = []
  number_jobs index (j ∷ js) [] = []
  number_jobs index (j ∷ js) (t ∷ ts) =
      record {
        job_id = j.id;
        title = j.title;
        why_it_fits = t;
        rank = index;
        actor_confidence = max_float (lit 0) (min_float (lit 1) j.final_score);
        final_score = j.final_score;
        ranker_version = j.ranker_version;
        reason_codes = j.reason_codes;
      }
      ∷ number_jobs (suc index) js ts

  -- The loop over `enumerate(zip(…, strict=True), start=1)`, which raises when the lengths differ.
  unfoldable pub enumerate_ranked :
      ⦃f : Float S⦄ → List (Job S) → List String → Option (List (RankedJob S))
  unfolding number_jobs
  enumerate_ranked js texts =
      if length js == length texts then some (number_jobs 1 js texts) else none

  module _ ⦃f : Float S⦄ where
    -- The order of `sorted(…, key=(final_score, rerank_score, id), reverse=True)`.
    abbrev pub ranks_higher : Job S → Job S → Bool
    ranks_higher =
        greater_first (λ j. j.final_score)
          (greater_first (λ j. j.rerank_score) (λ x y. leb y.id x.id))

    unfoldable pub sum_final : S → List (RankedJob S) → S
    sum_final acc [] = acc
    sum_final acc (r ∷ rs) = sum_final (acc ⊕ r.final_score) rs

    unfoldable pub batch_score : List (RankedJob S) → S
    unfolding sum_final
    batch_score [] = lit 0
    batch_score (r ∷ rs) = (sum_final (lit 0) (r ∷ rs) ⊘ lit (length (r ∷ rs))) ⊗ lit 10

    module _ (texts : Texts) (clock : Clock S) (settings : Settings S) (services : Services S) where
      -- `_feedback_signal`: the value, and the cache afterwards.
      unfoldable pub feedback_signal : ℕ → Job S → Cache S → Option (S × Cache S)
      unfolding cached
      feedback_signal user_id job cache = elim services.get_feedback_signal [
        | none ↦ some (lit 0, cache)
        | some get ↦
            let skills = skills_key texts job.technologies in
            elim (cached skills cache) [
              | some value ↦ some (value, cache)
              | none ↦ elim (get user_id skills) [
                | none ↦ none
                | some value ↦ some (value, (skills, value) ∷ cache)
              ]
            ]
      ]

      abbrev pub fallback_code : String
      fallback_code = "rerank_all_filtered_fallback"

      -- The loop's changes to a job that is allowed.
      unfoldable pub scored : User S → Bool → S → Job S → Job S
      scored user used_fallback feedback_net job =
          let adjusted = adjust_score job.rerank_score feedback_net in
          let codes =
            if used_fallback
            then (if any (str_eq fallback_code) job.reason_codes
                then job.reason_codes
                else job.reason_codes ++ fallback_code ∷ [])
            else job.reason_codes in
          record job {
            reason_codes = codes;
            feedback_bonus = adjusted ⊖ job.rerank_score;
            final_score =
                final_score adjusted (preference_multiplier texts user job.source)
                  (time_decay_multiplier clock job) (competition_multiplier texts job)
                  (tag_affinity_bonus texts user job);
          }

      unfoldable pub score_one :
          User S
          → Bool
          → Option (S × Cache S)
          → Job S
          → (Cache S → Option (List (Job S)))
          → Option (List (Job S))
      unfolding scored
      score_one user used_fallback none job rest = none
      score_one user used_fallback (some (feedback_net, cache)) job rest = elim (rest cache) [
        | none ↦ none
        | some js ↦ some (scored user used_fallback feedback_net job ∷ js)
      ]

      -- The loop over the jobs, which gives `eligible`.
      unfoldable pub score_jobs :
          User S → List ℕ → Bool → List (Job S) → Cache S → Option (List (Job S))
      unfolding score_one feedback_signal
      score_jobs user allowed used_fallback [] cache = some []
      score_jobs user allowed used_fallback (j ∷ js) cache =
          let rest = score_jobs user allowed used_fallback js in
          if any (◌==◌ j.id) allowed
          then score_one user used_fallback (feedback_signal user.id j cache) j rest
          else rest cache

      unfoldable pub components : List (Job S) → List (ℕ × S × S × S × S)
      components js =
          map
            (λ j. (j.id, j.rerank_score, j.feedback_bonus, j.preference_multiplier, j.final_score))
            js

      -- `_save_scoring_components`, and what follows it.
      unfoldable pub saved : ℕ → List (Job S) → Run S → Run S
      unfolding perform components
      saved user_id eligible next =
          if services.has_save_scoring_components
          then perform services (save_scoring_components user_id (components eligible)) next
          else next

      unfoldable pub generate_explanations : List (Job S) → Option (List String)
      generate_explanations jobs = elim services.explain_batch [
        | none ↦ some (map (fallback_explanation texts) jobs)
        | some explain ↦ elim (explain jobs) [
          | none ↦ none
          | some explanations ↦ some (
              if length explanations == length jobs
              then map (λ t. texts.prefix 500 (texts.strip t)) explanations
              else map (fallback_explanation texts) jobs)
        ]
      ]

      unfoldable pub ordered_jobs : List (Job S) → List (Job S)
      ordered_jobs eligible = take settings.max_jobs_to_send (sort_by ranks_higher eligible)

      unfoldable pub explained :
          Option (List String) → List (Job S) → (List (RankedJob S) → Run S) → Run S
      unfolding enumerate_ranked
      explained none ordered next = ([], false)
      explained (some explanations) ordered next = elim (enumerate_ranked ordered explanations) [
        | none ↦ ([], false)
        | some ranked ↦ next ranked
      ]

      -- `_rank_jobs` after the loop; `next` is what `execute` does with the result.
      unfoldable pub rank_eligible :
          ℕ → Option (List (Job S)) → (List (RankedJob S) → Run S) → Run S
      unfolding saved generate_explanations ordered_jobs explained
      rank_eligible user_id none next = ([], false)
      rank_eligible user_id (some []) next = next []
      rank_eligible user_id (some (j ∷ js)) next =
          let ordered = ordered_jobs (j ∷ js) in
          saved user_id (j ∷ js) (explained (generate_explanations ordered) ordered next)

      abbrev pub rerank : List (Job S) → RerankPolicyDecision (Job S) S
      rerank jobs =
          (apply_rerank_policy (λ j. j.rerank_score) jobs settings.rerank_threshold
            (pos (length jobs)) settings.rerank_fallback_enabled "ac_batch").0

      unfoldable pub eligible_jobs : User S → List (Job S) → Option (List (Job S))
      unfolding score_jobs
      eligible_jobs user jobs =
          score_jobs user (map (λ j. j.id) (rerank jobs).selected) (rerank jobs).used_fallback jobs
            []

      unfoldable pub finish : AcBatch → Run S
      unfolding perform
      finish batch = perform services (mark_processed batch.user_id batch.job_ids) ([], true)

      unfoldable pub release_batch : AcBatch → Run S
      unfolding perform
      release_batch batch =
          if services.has_release_claim
          then perform services (release_claim batch.user_id batch.job_ids) ([], true)
          else ([], true)

      -- The notification, if there is something to send, and the mark.
      unfoldable pub deliver : AcBatch → List (RankedJob S) → Run S
      unfolding perform finish batch_score
      deliver batch [] = finish batch
      deliver batch (r ∷ rs) =
          if services.has_enqueue_batch
          then perform services (enqueue_batch batch.user_id (r ∷ rs) (batch_score (r ∷ rs)))
              (finish batch)
          else finish batch

      unfoldable pub with_jobs : AcBatch → User S → Option (List (Job S × S)) → Run S
      unfolding finish deliver rank_eligible eligible_jobs
      with_jobs batch user none = ([], false)
      with_jobs batch user (some []) = finish batch
      with_jobs batch user (some (p ∷ ps)) =
          rank_eligible user.id (eligible_jobs user (map (λ q. q.0) (p ∷ ps))) (deliver batch)

      unfoldable pub with_user : AcBatch → Option (Option (User S)) → Run S
      unfolding finish release_batch with_jobs
      with_user batch none = ([], false)
      with_user batch (some none) = finish batch
      with_user batch (some (some user)) =
          if str_eq user.profile_text ""
          then finish batch
          else if is_empty user.embedding
          then release_batch batch
          else with_jobs batch user
              (services.get_with_scores batch.job_ids user.embedding batch.user_id)

      unfoldable pub execute : AcBatch → Run S
      unfolding with_user
      execute batch = with_user batch (services.get_by_id batch.user_id)
