-- ===== src/AcBatch/Trace.antt =====
-- The order of the calls that the batch use case makes, and when a batch is settled.
use site_parser_for_freelans.Common.{
  ℕ, ◌+◌, ◌≡◌, refl, inl, inr, Bool, true, false, Option, none, some, List, [], ◌∷◌, Bool-cases,
  if◌then◌else◌, is_empty,
}
use text.Mathlib.Text.{◌==◌ as str_eq}
use site_parser_for_freelans.Common.Float.{Float}
use site_parser_for_freelans.Domain.{RankedJob}
use site_parser_for_freelans.AcBatch.Scoring.{Job, User, Texts, Clock}
use site_parser_for_freelans.AcBatch.{
  AcBatch, Call, save_scoring_components, enqueue_batch, mark_processed, release_claim, Services,
  Settings, Run, perform, saved, explained, rank_eligible, finish, release_batch, deliver,
  enumerate_ranked, generate_explanations, ordered_jobs, with_jobs, with_user, execute,
}

-- How far a run has come: nothing done, the scoring components saved, the notification queued.
pub data Stage : Type 0 where
  fresh components_saved notified : Stage

module _ {S : Type 0} (services : Services S) (batch : AcBatch) where
  -- The runs from a stage on: their calls, and whether they return. A call that raises is the last.
  pub data Trace : Stage → List (Call S) → Bool → Type 0 where
    breaks : {stage : Stage} → Trace stage [] false
    fails :
        {stage : Stage} {call : Call S}
        → services.returns call ≡ false
        → Trace stage (call ∷ []) false
    saves :
        {user_id : ℕ} {rows : List (ℕ × S × S × S × S)} {calls : List (Call S)} {r : Bool}
        → services.returns (save_scoring_components user_id rows) ≡ true
        → Trace components_saved calls r
        → Trace fresh (save_scoring_components user_id rows ∷ calls) r
    skips :
        {calls : List (Call S)} {r : Bool} → Trace components_saved calls r → Trace fresh calls r
    notifies :
        {j : RankedJob S} {js : List (RankedJob S)} {score : S} {calls : List (Call S)} {r : Bool}
        → services.returns (enqueue_batch batch.user_id (j ∷ js) score) ≡ true
        → Trace notified calls r
        → Trace components_saved (enqueue_batch batch.user_id (j ∷ js) score ∷ calls) r
    marks :
        {stage : Stage}
        → services.returns (mark_processed batch.user_id batch.job_ids) ≡ true
        → Trace stage (mark_processed batch.user_id batch.job_ids ∷ []) true
    releases :
        services.returns (release_claim batch.user_id batch.job_ids) ≡ true
        → Trace fresh (release_claim batch.user_id batch.job_ids ∷ []) true
    keeps : services.has_release_claim ≡ false → Trace fresh [] true

  abbrev pub RunTrace : Stage → Run S → Type 0
  RunTrace stage run = Trace stage run.0 run.1

  -- A call, and what follows it when it returns.
  perform-Trace :
      {stage : Stage} (call : Call S) (next : Run S)
      → (services.returns call ≡ true → Trace stage (call ∷ next.0) next.1)
      → RunTrace stage (perform services call next)
  unfolding perform
  perform-Trace call next go = elim (Bool-cases (services.returns call)) [
    | inl e ↦ rw e (go e)
    | inr e ↦ rw e (fails e)
  ]

  -- A test, where each branch is a trace.
  if-Trace :
      {stage : Stage} (test : Bool) (x y : Run S)
      → (test ≡ true → RunTrace stage x)
      → (test ≡ false → RunTrace stage y)
      → RunTrace stage (if test then x else y)
  if-Trace true x y h k = h refl
  if-Trace false x y h k = k refl

  module _ ⦃f : Float S⦄ (texts : Texts) (clock : Clock S) (settings : Settings S) where
    finish-Trace : {stage : Stage} → RunTrace stage (finish texts clock settings services batch)
    unfolding finish
    finish-Trace = perform-Trace _ ([], true) (λ e. marks e)

    release-Trace : RunTrace fresh (release_batch texts clock settings services batch)
    unfolding release_batch
    release-Trace =
        if-Trace services.has_release_claim _ _ (λ e. perform-Trace _ ([], true) (λ q. releases q))
          (λ e. keeps e)

    deliver-Trace :
        (ranked : List (RankedJob S))
        → RunTrace components_saved (deliver texts clock settings services batch ranked)
    unfolding deliver
    deliver-Trace [] = finish-Trace
    deliver-Trace (j ∷ js) =
        if-Trace services.has_enqueue_batch _ _
          (λ e.
            perform-Trace _ (finish texts clock settings services batch)
              (λ q. notifies q finish-Trace))
          (λ e. finish-Trace)

    explained-Trace :
        (o : Option (List _)) (ordered : List (Job S)) (next : List (RankedJob S) → Run S)
        → ((ranked : List (RankedJob S)) → RunTrace components_saved (next ranked))
        → RunTrace components_saved (explained texts clock settings services o ordered next)
    unfolding explained
    explained-Trace none ordered next go = breaks
    explained-Trace (some texts') ordered next go = from (enumerate_ranked ordered texts')
      where
        from :
            (o : Option (List (RankedJob S)))
            → RunTrace components_saved
                (elim o as (λ x. Run S) [ none ↦ ([], false) | some ranked ↦ next ranked ])
        from none = breaks
        from (some ranked) = go ranked

    saved-Trace :
        (user_id : ℕ) (eligible : List (Job S)) (next : Run S)
        → RunTrace components_saved next
        → RunTrace fresh (saved texts clock settings services user_id eligible next)
    unfolding saved
    saved-Trace user_id eligible next go =
        if-Trace services.has_save_scoring_components _ _
          (λ e. perform-Trace _ next (λ q. saves q go)) (λ e. skips go)

    rank-Trace :
        (user_id : ℕ) (o : Option (List (Job S))) (next : List (RankedJob S) → Run S)
        → ((ranked : List (RankedJob S)) → RunTrace components_saved (next ranked))
        → RunTrace fresh (rank_eligible texts clock settings services user_id o next)
    unfolding rank_eligible
    rank-Trace user_id none next go = breaks
    rank-Trace user_id (some []) next go = skips (go [])
    rank-Trace user_id (some (j ∷ js)) next go = saved-Trace user_id (j ∷ js) _ (
        explained-Trace
          (generate_explanations texts clock settings services
            (ordered_jobs texts clock settings services (j ∷ js)))
          (ordered_jobs texts clock settings services (j ∷ js)) next go)

    jobs-Trace :
        (user : User S) (o : Option (List (Job S × S)))
        → RunTrace fresh (with_jobs texts clock settings services batch user o)
    unfolding with_jobs
    jobs-Trace user none = breaks
    jobs-Trace user (some []) = finish-Trace
    jobs-Trace user (some (p ∷ ps)) = rank-Trace user.id _ _ deliver-Trace

    user-Trace :
        (o : Option (Option (User S)))
        → RunTrace fresh (with_user texts clock settings services batch o)
    unfolding with_user
    user-Trace none = breaks
    user-Trace (some none) = finish-Trace
    user-Trace (some (some user)) = elim (Bool-cases (str_eq user.profile_text "")) [
      | inl e ↦ rw e finish-Trace
      | inr e ↦ elim (Bool-cases (is_empty user.embedding)) [
        | inl q ↦ rw (e, q) release-Trace
        | inr q ↦ rw (e, q) (jobs-Trace user _)
      ]
    ]

    -- Every run of `execute`, whatever raises, keeps to the order of `Trace`: the scoring components
    -- are saved first, then at most one notification is queued, which is not empty, and only after
    -- it has been queued the batch is marked; a claim is released only if nothing was done before;
    -- and the call that raises is the last one.
    pub execute-Trace :
        Trace fresh
          (execute texts clock settings services batch).0
          (execute texts clock settings services batch).1
    unfolding execute
    execute-Trace = user-Trace (services.get_by_id batch.user_id)

  -- How many calls settled the batch: it was marked or released, and the call returned.
  abbrev pub settled : List (Call S) → ℕ
  settled [] = 0
  settled (mark_processed user_id job_ids ∷ calls) =
      (if services.returns (mark_processed user_id job_ids) then 1 else 0) + settled calls
  settled (release_claim user_id job_ids ∷ calls) =
      (if services.returns (release_claim user_id job_ids) then 1 else 0) + settled calls
  settled (_ ∷ calls) = settled calls
