-- ===== src/JobMatch/Execute.antt =====
-- `execute` of ProcessJobUseCase, ai-service/src/ai_service/usecase/process_job.py: the calls that it
-- makes, in their order. What happens to the found candidates up to those that are handed on is
-- `match_job` of the parent. A classification is a value of the type `C`, of which the preference
-- filter and `_build_why_it_fits` read fields. Logging is left out.
use Prim.Native.String.{String, ◌++◌ as str_append}
use text.Mathlib.Text.{◌==◌ as str_eq}
use site_parser_for_freelans.Common.{
  ℕ, Bool, true, false, not, ◌&&◌, Option, none, some, List, [], ◌∷◌, ◌++◌, map, take, is_empty,
  if◌then◌else◌,
}
use site_parser_for_freelans.Common.Float.{Float}
use site_parser_for_freelans.Domain.{MatchCandidate}
use site_parser_for_freelans.Feedback.{FeedbackSignal}
use site_parser_for_freelans.AcBatch.Scoring.{join}
use site_parser_for_freelans.Fallback.Classifier.{ClassificationResult}
use site_parser_for_freelans.JobMatch.{Settings, match_job, search_limit}
use site_parser_for_freelans.JobMatch as Match
use site_parser_for_freelans.Preferences.{
  User, JobFacts, Reason, evaluate_preference_filter, budget_filtered_user_ids,
}

pub data Call (S C : Type 0) : Type 0 where
  encode classify : Call S C
  -- The embedding, and the classification in the metadata.
  save_embedding : List S → Option C → Call S C
  list_matchable_users : Call S C
  record_events : List ℕ → Call S C
  -- The search for an embedding among these users, or among all, with its limit.
  find_users : List S → Option (List ℕ) → ℕ → Call S C
  accumulate : List (MatchCandidate S) → Call S C

-- What the use case is built with and what its calls give, where the inner `none` is an exception.
pub record Services (S C : Type 0) : Type 0 where
  pub classifier : Option (Option C)
  pub encoder : Option (List S)
  pub saves : Bool
  pub has_match_repo : Bool
  pub users : Option (Option (List (User S)))
  pub has_filter_events : Bool
  -- The answers of the search, as `find_users` is called, of the reranker and of the repository of
  -- feedback, if there are any.
  pub found : List S → Option (List ℕ) → ℕ → Option (List (MatchCandidate S))
  pub score_pairs : Option (List (String × String) → Option (List S))
  pub get_feedback_signal : Option (ℕ → List String → Option (FeedbackSignal S))
  pub structured_profile : String → String
  pub settings : Settings S
  -- The job's text and skills, and the trace id.
  pub job_text : String
  pub job_skills : List String
  pub trace_id : String
  pub accumulates : Option Bool

-- The empty dict, the test for it, the facts of the job, and the fields that are read.
pub record Classes (S C : Type 0) : Type 0 where
  pub empty : C
  pub is_empty_dict : C → Bool
  pub facts : C → JobFacts S
  pub fields : C → ClassificationResult

-- `_PROJECT_TYPE_LABELS` and `_BUDGET_LABELS`. Each label of `_SENIORITY_LABELS` is its key.
unfoldable pub project_type_label : Option String → String
project_type_label none = "Проект"
project_type_label (some t) =
    if str_eq t "web"
    then "Веб-проект"
    else if str_eq t "mobile"
    then "Мобильное приложение"
    else if str_eq t "bot"
    then "Telegram-бот"
    else "Проект"

unfoldable pub budget_part : Option String → List String
budget_part none = []
budget_part (some b) =
    if str_eq b "low"
    then "небольшой бюджет" ∷ []
    else if str_eq b "medium"
    then "средний бюджет" ∷ []
    else if str_eq b "high"
    then "высокий бюджет" ∷ []
    else []

unfoldable pub seniority_part : Option String → List String
seniority_part none = []
seniority_part (some t) =
    if str_eq t "" then [] else if str_eq t "unknown" then [] else str_append "уровень: " t ∷ []

abbrev technologies_of : Option (List String) → List String
technologies_of none = []
technologies_of (some ts) = ts

-- `_build_why_it_fits` of a classification that is not empty.
unfoldable pub build_why_it_fits : ClassificationResult → String
unfolding project_type_label budget_part seniority_part
build_why_it_fits c =
    let label = project_type_label c.project_type in
    let techs = technologies_of c.technologies in
    let first_part =
      if is_empty techs
      then label
      else str_append label (str_append " со стеком " (join ", " (take 3 techs))) in
    let sub_parts = seniority_part c.seniority ++ budget_part c.budget_level in
    let parts = first_part ∷ (if is_empty sub_parts then [] else join ", " sub_parts ∷ []) in
    str_append (join ". " parts) "."

abbrev pub Run : (S C : Type 0) → Type 0
Run S C = List (Call S C) × Option Bool

module _ {S C : Type 0} where
  -- The call, and then the rest.
  abbrev pub calls : Call S C → Run S C → Run S C
  calls c rest = (c ∷ rest.0, rest.1)

  unfoldable pub hand_on : Option Bool → List (MatchCandidate S) → Run S C
  hand_on accumulates [] = ([], some true)
  hand_on none (c ∷ cs) = ([], some true)
  hand_on (some returns) (c ∷ cs) = (accumulate (c ∷ cs) ∷ [], if returns then some true else none)

-- The first two arguments and the test for the keywords are those of the preference filter.
module _ {S C : Type 0} ⦃f : Float S⦄ (clean strip : String → String)
    (keyword_matches : String → Bool) (classes : Classes S C) (s : Services S C) where
  unfoldable pub why_it_fits : C → String
  unfolding build_why_it_fits
  why_it_fits classification =
      if classes.is_empty_dict classification
      then ""
      else build_why_it_fits (classes.fields classification)

  -- What `match_job` is run with after a search.
  abbrev pub matching : List S → Option (List ℕ) → Match.Services S
  matching embedding allowed = record {
    find_users_for_job = s.found embedding allowed;
    score_pairs = s.score_pairs;
    get_feedback_signal = s.get_feedback_signal;
    structured_profile = s.structured_profile;
  }

  -- The candidates after the reranking, the adjustment and the labelling; `none` is an exception.
  abbrev pub matched : List S → Option (List ℕ) → C → Option (List (MatchCandidate S))
  matched embedding allowed classification =
      match_job s.settings (matching embedding allowed) s.job_text s.job_skills
        (why_it_fits classification) s.trace_id

  unfoldable pub search : List S → C → Option (List ℕ) → Run S C
  unfolding hand_on why_it_fits
  search embedding classification allowed =
      calls (find_users embedding allowed (search_limit s.settings (matching embedding allowed)))
        (elim (matched embedding allowed classification) [
          | none ↦ ([], none)
          | some candidates ↦ hand_on s.accumulates candidates
        ])

  -- The users who pass the filter, and those that it marked.
  abbrev pub filtered : C → List (User S) → List (User S) × List (ℕ × List Reason)
  filtered classification users =
      evaluate_preference_filter clean strip keyword_matches (classes.facts classification) users

  abbrev pub allowed_user_ids : C → List (User S) → List ℕ
  allowed_user_ids classification users = map (λ u. u.id) (filtered classification users).0

  -- `_record_budget_filtered_users`, which lets no exception through, and then the rest.
  unfoldable pub record_filtered : List (ℕ × List Reason) → Run S C → Run S C
  unfolding budget_filtered_user_ids
  record_filtered marked rest =
      let ids = budget_filtered_user_ids marked in
      if s.has_filter_events && not (is_empty ids) then calls (record_events ids) rest else rest

  unfoldable pub search_allowed : List S → C → List ℕ → Run S C
  unfolding search
  search_allowed embedding classification ids =
      if is_empty ids then ([], some true) else search embedding classification (some ids)

  unfoldable pub match_users : Option (Option (List (User S))) → List S → C → Run S C
  unfolding evaluate_preference_filter record_filtered search_allowed search
  match_users none embedding classification = search embedding classification none
  match_users (some none) embedding classification = (list_matchable_users ∷ [], none)
  match_users (some (some users)) embedding classification = calls list_matchable_users (
      record_filtered (filtered classification users).1
        (search_allowed embedding classification (allowed_user_ids classification users)))

  unfoldable pub match_embedding : List S → C → Run S C
  unfolding match_users
  match_embedding embedding classification =
      if is_empty embedding
      then ([], some false)
      else if s.has_match_repo
      then match_users s.users embedding classification
      else ([], some true)

  unfoldable pub save_and_match : List S → C → Option C → Run S C
  unfolding match_embedding
  save_and_match embedding classification metadata =
      calls (save_embedding embedding metadata)
        (if s.saves then match_embedding embedding classification else ([], none))

  unfoldable pub classify_and_save : Option (Option C) → List S → Run S C
  unfolding save_and_match
  classify_and_save none embedding = save_and_match embedding classes.empty none
  classify_and_save (some none) embedding = (classify ∷ [], none)
  classify_and_save (some (some classification)) embedding = calls classify (
      save_and_match embedding classification
        (if classes.is_empty_dict classification then none else some classification))

  unfoldable pub encode_and_match : Option (List S) → Run S C
  unfolding classify_and_save
  encode_and_match none = (encode ∷ [], none)
  encode_and_match (some embedding) = calls encode (classify_and_save s.classifier embedding)

  -- `execute`, for whether the job is found, and what is saved for it: an embedding and, in the
  -- metadata, a classification.
  unfoldable pub execute : Bool → Option (List S × Option C) → Run S C
  unfolding encode_and_match match_embedding
  execute false saved = ([], some false)
  execute true none = encode_and_match s.encoder
  execute true (some (embedding, none)) = match_embedding embedding classes.empty
  execute true (some (embedding, some classification)) = match_embedding embedding classification
