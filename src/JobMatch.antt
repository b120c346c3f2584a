-- ===== src/JobMatch.antt =====
-- ai-service/src/ai_service/usecase/process_job.py: the part of ProcessJobUseCase.execute that finds,
-- reranks and adjusts the candidates of a job, with `_rerank_candidates`, and
-- ai-service/src/ai_service/usecase/accumulate_matches.py, which stores them. The texts that
-- util/text_cleaner.py and util/profile_structurer.py make are arguments: only whether a profile is
-- empty matters here. `none` is an exception, which leaves the function. Logging is left out.
pub mod Selected
pub mod Kept
pub mod Execute
pub mod Searches
use Prim.Native.String.{String}
use text.Mathlib.Text.{◌==◌ as str_eq}
use site_parser_for_freelans.Common.{
  ℕ, Bool, true, false, not, ◌==◌, Option, none, some, List, [], ◌∷◌, ◌++◌, map, length, is_empty,
  keep_if, any, max, if◌then◌else◌, leb,
}
use site_parser_for_freelans.Common.Int.{ℤ}
use site_parser_for_freelans.Common.Float.{Float, lit, ◌≤?◌, ◌<?◌}
use site_parser_for_freelans.Common.Lexicographic.{greater_first}
use site_parser_for_freelans.Common.Sort.{sort_by}
use site_parser_for_freelans.Domain.{MatchCandidate}
use site_parser_for_freelans.Rerank.{RerankPolicyDecision, apply_rerank_policy}
use site_parser_for_freelans.Feedback.{FeedbackSignal, Lookup, adjust_candidates}

pub record Settings (S : Type 0) : Type 0 where
  pub threshold : S
  pub limit : ℕ
  pub rerank_threshold : S
  pub rerank_top_k : ℤ
  pub rerank_fallback_enabled : Bool

-- `find_users_for_job` with its limit, `score_pairs` of the reranker with the profiles and the job's
-- text, `get_feedback_signal` with the user and the job's skills, and `build_structured_profile_text`
-- of the stripped profile.
pub record Services (S : Type 0) : Type 0 where
  pub find_users_for_job : ℕ → Option (List (MatchCandidate S))
  pub score_pairs : Option (List (String × String) → Option (List S))
  pub get_feedback_signal : Option (ℕ → List String → Option (FeedbackSignal S))
  pub structured_profile : String → String

-- A row of `pending_ac_jobs`, as `upsert_many` takes it.
pub record PendingRow (S : Type 0) : Type 0 where
  pub user_id : ℕ
  pub job_id : ℕ
  pub match_score : S
  pub rerank_score : S
  pub raw_similarity : S
  pub feedback_bonus : S
  pub preference_multiplier : S
  pub final_score : S
  pub ranker_version : String
  pub reason_codes : List String
  pub trace_id : String

abbrev pub fallback_code : String
fallback_code = "rerank_all_filtered_fallback"

module _ {S : Type 0} where
  abbrev pub with_score : S → MatchCandidate S → MatchCandidate S
  with_score s c = record c { rerank_score = s; final_score = s }

  -- The two loops that set the scores: a candidate without a profile has its raw similarity, the
  -- others have the reranker's scores in their order.
  unfoldable pub assign : List (MatchCandidate S × String) → List S → List (MatchCandidate S)
  assign [] scores = []
  assign ((c, profile) ∷ cs) [] =
      let rest = assign cs [] in
      (if str_eq profile "" then with_score c.raw_similarity c else c) ∷ rest
  assign ((c, profile) ∷ cs) (s ∷ scores) =
      let keep = assign cs (s ∷ scores) in
      let next = assign cs scores in
      if str_eq profile "" then with_score c.raw_similarity c ∷ keep else with_score s c ∷ next

  unfoldable pub mark_fallback : MatchCandidate S → MatchCandidate S
  mark_fallback c =
      if any (str_eq fallback_code) c.reason_codes
      then c
      else record c { reason_codes = c.reason_codes ++ fallback_code ∷ [] }

  module _ ⦃f : Float S⦄ where
    -- The order of `sorted(…, key=(rerank_score, raw_similarity, user_id), reverse=True)`.
    abbrev pub ranks_higher : MatchCandidate S → MatchCandidate S → Bool
    ranks_higher =
        greater_first (λ c. c.rerank_score)
          (greater_first (λ c. c.raw_similarity) (λ x y. leb y.user_id x.user_id))

    module _ (settings : Settings S) (services : Services S) where
      unfoldable pub mark_selected :
          RerankPolicyDecision (MatchCandidate S) S → List (MatchCandidate S)
      unfolding mark_fallback
      mark_selected decision =
          if decision.used_fallback then map mark_fallback decision.selected else decision.selected

      -- `_rerank_candidates` once the scores are set.
      unfoldable pub select_reranked : List (MatchCandidate S) → List (MatchCandidate S)
      unfolding mark_selected
      select_reranked candidates =
          mark_selected
            (apply_rerank_policy (λ c. c.rerank_score) (sort_by ranks_higher candidates)
              settings.rerank_threshold settings.rerank_top_k settings.rerank_fallback_enabled
              "job").0

      abbrev pub profiled : List (MatchCandidate S) → List (MatchCandidate S × String)
      profiled = map (λ c. (c, services.structured_profile c.profile_text))

      abbrev pub with_profile : List (MatchCandidate S × String) → List (MatchCandidate S × String)
      with_profile = keep_if (λ p. not (str_eq p.1 ""))

      -- The answer of `score_pairs`, whose length is checked.
      unfoldable pub use_scores :
          List (MatchCandidate S × String) → Option (List S) → Option (List (MatchCandidate S))
      unfolding assign select_reranked
      use_scores candidates none = none
      use_scores candidates (some scores) =
          if length scores == length (with_profile candidates)
          then some (select_reranked (assign candidates scores))
          else none

      unfoldable pub rerank_candidates :
          String → List (MatchCandidate S) → Option (List (MatchCandidate S))
      unfolding use_scores
      rerank_candidates job_text candidates = elim services.score_pairs [
        | none ↦ some candidates
        | some score_pairs ↦
            let pairs = map (λ p. (p.1, job_text)) (with_profile (profiled candidates)) in
            if is_empty pairs
            then some candidates
            else use_scores (profiled candidates) (score_pairs pairs)
      ]

      unfoldable pub adjusted : List String → List (MatchCandidate S) → List (MatchCandidate S)
      adjusted job_skills candidates = elim services.get_feedback_signal [
        | none ↦ candidates
        | some get ↦
            adjust_candidates
              (record { get_job_skills = λ _. some job_skills; get_feedback_signal = get })
              settings.threshold candidates
      ]

      abbrev label : String → String → MatchCandidate S → MatchCandidate S
      label why_it_fits trace_id c = record c {
        why_it_fits = why_it_fits;
        trace_id = if str_eq trace_id "" then c.trace_id else trace_id;
      }

      unfoldable pub labelled : String → String → List (MatchCandidate S) → List (MatchCandidate S)
      labelled why_it_fits trace_id candidates = map (label why_it_fits trace_id) candidates

      unfoldable pub reranked_and_labelled :
          List String
          → String
          → String
          → Option (List (MatchCandidate S))
          → Option (List (MatchCandidate S))
      unfolding adjusted labelled
      reranked_and_labelled job_skills why_it_fits trace_id none = none
      reranked_and_labelled job_skills why_it_fits trace_id (some candidates) =
          some (labelled why_it_fits trace_id (adjusted job_skills candidates))

      unfoldable pub after_search :
          String
          → List String
          → String
          → String
          → Option (List (MatchCandidate S))
          → Option (List (MatchCandidate S))
      unfolding rerank_candidates reranked_and_labelled
      after_search job_text job_skills why_it_fits trace_id none = none
      after_search job_text job_skills why_it_fits trace_id (some found) =
          reranked_and_labelled job_skills why_it_fits trace_id (rerank_candidates job_text found)

      abbrev pub search_limit : ℕ
      search_limit = elim services.score_pairs [
        | none ↦ settings.limit
        | some _ ↦ max settings.limit 50
      ]

      -- The candidates that are handed on to be stored.
      unfoldable pub match_job :
          String → List String → String → String → Option (List (MatchCandidate S))
      unfolding after_search
      match_job job_text job_skills why_it_fits trace_id =
          after_search job_text job_skills why_it_fits trace_id
            (services.find_users_for_job search_limit)

    abbrev pub or_match_score : MatchCandidate S → S → S
    or_match_score c s = if lit 0 <? s then s else c.match_score

    unfoldable pub pending_row : MatchCandidate S → PendingRow S
    pending_row c = record {
      user_id = c.user_id;
      job_id = c.job_id;
      match_score = c.match_score;
      rerank_score = or_match_score c c.rerank_score;
      raw_similarity = or_match_score c c.raw_similarity;
      feedback_bonus = lit 0;
      preference_multiplier = lit 1;
      final_score = or_match_score c c.final_score;
      ranker_version = c.ranker_version;
      reason_codes = c.reason_codes;
      trace_id = c.trace_id;
    }

    -- `AccumulateMatchesUseCase.execute`: the rows for `upsert_many`, which is not called without any.
    unfoldable pub accumulate : List (MatchCandidate S) → Option (List (PendingRow S))
    unfolding pending_row
    accumulate [] = none
    accumulate (c ∷ cs) = some (map pending_row (c ∷ cs))
