-- ===== src/AcBatch/Completion.antt =====
-- When the batch use case returns.
use Prim.Native.String.{String}
use text.Mathlib.Text.{◌==◌ as str_eq}
use site_parser_for_freelans.Common.{
  ℕ, suc, ◌≡◌, ◌≢◌, refl, sym, ap, ◌∙◌, inl, inr, Bool, true, false, Option, none, some, List, [],
  ◌∷◌, ◌==◌, ==_iff, map, length, any, Bool-cases, Option-cases, is_empty, if◌then◌else◌,
}
use site_parser_for_freelans.Common.Float.{Float}
use site_parser_for_freelans.Domain.{RankedJob}
use site_parser_for_freelans.AcBatch.Scoring.{
  Job, User, Texts, Clock, skills_key, fallback_explanation,
}
use site_parser_for_freelans.AcBatch.{
  AcBatch, Call, Services, Settings, Run, Cache, perform, saved, explained, generate_explanations,
  enumerate_ranked, number_jobs, rank_eligible, eligible_jobs, finish, release_batch, deliver,
  with_jobs, with_user, execute, cached, feedback_signal, score_one, score_jobs, rerank,
}

-- Every call answers, and none raises.
pub record Answering {S : Type 0} (services : Services S) : Type 0 where
  pub users : (id : ℕ) → services.get_by_id id ≢ none
  pub jobs : (ids : List ℕ) (v : List S) (id : ℕ) → services.get_with_scores ids v id ≢ none
  pub signals :
      (get : ℕ → List String → Option S)
      → services.get_feedback_signal ≡ some get
      → (id : ℕ) (skills : List String) → get id skills ≢ none
  pub explanations :
      (explain : List (Job S) → Option (List String))
      → services.explain_batch ≡ some explain
      → (js : List (Job S)) → explain js ≢ none
  pub calls : (call : Call S) → services.returns call ≡ true

length-map : {A B : Type 0} (g : A → B) (xs : List A) → length (map g xs) ≡ length xs
length-map g [] = refl
length-map g (x ∷ xs) = ap suc (length-map g xs)

enumerate-given :
    {S : Type 0} ⦃f : Float S⦄ (js : List (Job S)) (ts : List String)
    → length ts ≡ length js
    → enumerate_ranked js ts ≡ some (number_jobs 1 js ts)
unfolding enumerate_ranked
enumerate-given js ts n =
    let same : (length js == length ts) ≡ true = (==_iff _ _).1 (sym n) in rw same refl

module _ {S : Type 0} ⦃f : Float S⦄ (texts : Texts) (clock : Clock S) (settings : Settings S)
    (services : Services S) (answering : Answering services) where
  perform-returns :
      (call : Call S) (next : Run S) → next.1 ≡ true → (perform services call next).1 ≡ true
  unfolding perform
  perform-returns call next h = rw (answering.calls call) h

  if_returns :
      (test : Bool) (x y : Run S) → x.1 ≡ true → y.1 ≡ true → (if test then x else y).1 ≡ true
  if_returns true x y h k = h
  if_returns false x y h k = k

  signal_given :
      (user_id : ℕ) (j : Job S) (cache : Cache S)
      → feedback_signal texts clock settings services user_id j cache ≢ none
  unfolding feedback_signal
  signal_given user_id j cache = by_repository services.get_feedback_signal refl
    where
      by_repository :
          (o : Option (ℕ → List String → Option S))
          → services.get_feedback_signal ≡ o
          → feedback_signal texts clock settings services user_id j cache ≢ none
      by_repository none e h = cc (rw (e, feedback_signal) at h)
      by_repository (some get) e h =
          elim (Option-cases (cached (skills_key texts j.technologies) cache)) [
            | inr (value, c) ↦ cc (rw (e, c, feedback_signal) at h)
            | inl c ↦ elim (Option-cases (get user_id (skills_key texts j.technologies))) [
              | inl g ↦ answering.signals get e user_id (skills_key texts j.technologies) g
              | inr (value, g) ↦ cc (rw (e, c, g, feedback_signal) at h)
            ]
          ]

  module _ (user : User S) (allowed : List ℕ) (used_fallback : Bool) where
    one_given :
        (o : Option (S × Cache S)) (j : Job S) (rest : Cache S → Option (List (Job S)))
        → o ≢ none
        → ((cache : Cache S) → rest cache ≢ none)
        → score_one texts clock settings services user used_fallback o j rest ≢ none
    unfolding score_one
    one_given none j rest n h e = n refl
    one_given (some (net, cache)) j rest n h e = elim (Option-cases (rest cache)) [
      | inl r ↦ h cache r
      | inr (js, r) ↦ cc (rw (r, score_one) at e)
    ]

    jobs_given :
        (jobs : List (Job S)) (cache : Cache S)
        → score_jobs texts clock settings services user allowed used_fallback jobs cache ≢ none
    unfolding score_jobs
    jobs_given [] cache e = cc
    jobs_given (j ∷ jobs) cache e = elim (Bool-cases (any (◌==◌ j.id) allowed)) [
      | inl a ↦ one_given _ j _ (signal_given user.id j cache) (λ c. jobs_given jobs c) (rw a at e)
      | inr a ↦ jobs_given jobs cache (rw a at e)
    ]

  eligible_given :
      (user : User S) (jobs : List (Job S))
      → eligible_jobs texts clock settings services user jobs ≢ none
  unfolding eligible_jobs
  eligible_given user jobs =
      let decision = rerank texts clock settings services jobs in
      jobs_given user (map (λ j. j.id) decision.selected) decision.used_fallback jobs []

  -- There is an explanation for each job.
  explanations_given :
      (js : List (Job S))
      → (ts : List String) × (generate_explanations texts clock settings services js ≡ some ts)
        × (length ts ≡ length js)
  unfolding generate_explanations
  explanations_given js = by_actor services.explain_batch refl
    where
      fallback : List (Job S) → List String
      fallback xs = map (fallback_explanation texts) xs

      by_actor :
          (o : Option (List (Job S) → Option (List String)))
          → services.explain_batch ≡ o
          → (ts : List String) × (generate_explanations texts clock settings services js ≡ some ts)
            × (length ts ≡ length js)
      by_actor none h = (fallback js, rw (h, generate_explanations) refl, length-map _ js)
      by_actor (some explain) h = elim (Option-cases (explain js)) [
        | inl g ↦ absurd (answering.explanations explain h js g)
        | inr (ts, g) ↦ elim (Bool-cases (length ts == length js)) [
          | inl q ↦ (
            map (λ t. texts.prefix 500 (texts.strip t)) ts,
            rw (h, generate_explanations) (rw g (rw q refl)),
            length-map _ ts ∙ (==_iff _ _).0 q,
          )
          | inr q ↦ (fallback js, rw (h, generate_explanations) (rw g (rw q refl)), length-map _ js)
        ]
      ]

  module _ (batch : AcBatch) where
    finish-returns : (finish texts clock settings services batch).1 ≡ true
    unfolding finish
    finish-returns = perform-returns _ ([], true) refl

    release-returns : (release_batch texts clock settings services batch).1 ≡ true
    unfolding release_batch
    release-returns =
        if_returns services.has_release_claim _ _ (perform-returns _ ([], true) refl) refl

    deliver-returns :
        (ranked : List (RankedJob S))
        → (deliver texts clock settings services batch ranked).1 ≡ true
    unfolding deliver
    deliver-returns [] = finish-returns
    deliver-returns (r ∷ rs) =
        if_returns services.has_enqueue_batch _ _ (perform-returns _ _ finish-returns)
          finish-returns

    explained-returns :
        (o : Option (List String)) (js : List (Job S))
        → ((ts : List String) × (o ≡ some ts) × (length ts ≡ length js))
        → (explained texts clock settings services o js
            (deliver texts clock settings services batch)).1
          ≡ true
    unfolding explained
    explained-returns o js (ts, e, n) =
        rw e (rw (enumerate-given js ts n, explained) (deliver-returns (number_jobs 1 js ts)))

    rank-returns :
        (user_id : ℕ) (o : Option (List (Job S)))
        → o ≢ none
        → (rank_eligible texts clock settings services user_id o
            (deliver texts clock settings services batch)).1
          ≡ true
    unfolding rank_eligible saved
    rank-returns user_id none n = absurd (n refl)
    rank-returns user_id (some []) n = deliver-returns []
    rank-returns user_id (some (j ∷ js)) n =
        let given = explained-returns _ _ (explanations_given _) in
        if_returns services.has_save_scoring_components _ _ (perform-returns _ _ given) given

    jobs-returns :
        (user : User S) (o : Option (List (Job S × S)))
        → o ≢ none
        → (with_jobs texts clock settings services batch user o).1 ≡ true
    unfolding with_jobs
    jobs-returns user none n = absurd (n refl)
    jobs-returns user (some []) n = finish-returns
    jobs-returns user (some (p ∷ ps)) n =
        rank-returns user.id _ (eligible_given user (map (λ q. q.0) (p ∷ ps)))

    user-returns :
        (o : Option (Option (User S)))
        → o ≢ none
        → (with_user texts clock settings services batch o).1 ≡ true
    unfolding with_user
    user-returns none n = absurd (n refl)
    user-returns (some none) n = finish-returns
    user-returns (some (some user)) n =
        if_returns (str_eq user.profile_text "") _ _ finish-returns (
          if_returns (is_empty user.embedding) _ _ release-returns
            (jobs-returns user _ (answering.jobs batch.job_ids user.embedding batch.user_id)))

    -- If every call of the environment answers and none raises, `execute` returns, whatever the
    -- user, the jobs and the settings are, and however many explanations the actor gives.
    pub execute-returns : (execute texts clock settings services batch).1 ≡ true
    unfolding execute
    execute-returns = user-returns _ (answering.users batch.user_id)
