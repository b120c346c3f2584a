-- ===== src/AcBatch/Sends.antt =====
-- Which calls the batch use case makes with the ranked jobs and with the scoring components.
use Prim.Native.String.{String}
use text.Mathlib.Text.{◌==◌ as str_eq}
use site_parser_for_freelans.Common.{
  ℕ, ◌≡◌, refl, sym, subst, inl, inr, Bool, true, false, Option, none, some, List, [], ◌∷◌, map,
  take, any, length, All, All-take, length-take, Bool-cases, Option-cases, eq_of_some,
  if◌then◌else◌, ◌==◌, is_empty, arith,
}
use site_parser_for_freelans.Common.Float.{Float, lit, ◌≤?◌}
use site_parser_for_freelans.Common.Sort.{sort_by, All-sort_by, Sorted-take}
use site_parser_for_freelans.Domain.{RankedJob}
use site_parser_for_freelans.AcBatch.Scoring.{Job, User, Texts, Clock}
use site_parser_for_freelans.AcBatch.{
  AcBatch, Call, save_scoring_components, enqueue_batch, mark_processed, release_claim, Services,
  Settings, Run, perform, saved, explained, ordered_jobs, rank_eligible, eligible_jobs, finish,
  release_batch, deliver, with_jobs, with_user, execute, Cache, score_jobs, score_one, scored,
  components, number_jobs, enumerate_ranked, ranks_higher, rerank,
}
use site_parser_for_freelans.AcBatch.Ranking.{
  IsRanking, Allowed, enumerate-Enumerated, ranks_higher-Sorted,
}

module _ {S : Type 0} ⦃f : Float S⦄ where
  module _ (texts : Texts) (clock : Clock S) (settings : Settings S) (services : Services S) where
    module _ (user : User S) (allowed : List ℕ) (used_fallback : Bool) where
      one_All :
          (P : Job S → Type 0) (o : Option (S × Cache S)) (j : Job S)
          (rest : Cache S → Option (List (Job S))) (js : List (Job S))
          → ((net : S) → P (scored texts clock settings services user used_fallback net j))
          → ((cache : Cache S) (ks : List (Job S)) → rest cache ≡ some ks → All P ks)
          → score_one texts clock settings services user used_fallback o j rest ≡ some js
          → All P js
      unfolding score_one
      one_All P none j rest js p go h = cc
      one_All P (some (net, cache)) j rest js p go h = elim (Option-cases (rest cache)) [
        | inl e ↦ cc (rw (e, score_one) at h)
        | inr (ks, e) ↦ subst (All P) (eq_of_some (rw (e, score_one) at h)) (p net, go cache ks e)
      ]

      -- What holds of each allowed job once it is scored holds of all that `score_jobs` gives.
      score_jobs-All :
          (P Q : Job S → Type 0) (jobs : List (Job S)) (cache : Cache S) (js : List (Job S))
          → ((j : Job S) (net : S)
              → Allowed allowed j
              → P j
              → Q (scored texts clock settings services user used_fallback net j))
          → All P jobs
          → score_jobs texts clock settings services user allowed used_fallback jobs cache ≡ some js
          → All Q js
      unfolding score_jobs
      score_jobs-All P Q [] cache js q p h = subst (All Q) (eq_of_some h) tt
      score_jobs-All P Q (j ∷ jobs) cache js q p h = elim (Bool-cases (any (◌==◌ j.id) allowed)) [
        | inl e ↦
            one_All Q _ j _ js (λ net. q j net e p.0) (λ c ks. score_jobs-All P Q jobs c ks q p.1)
              (rw e at h)
        | inr e ↦ score_jobs-All P Q jobs cache js q p.1 (rw e at h)
      ]

      score_jobs-Allowed :
          (jobs : List (Job S)) (cache : Cache S) (js : List (Job S))
          → score_jobs texts clock settings services user allowed used_fallback jobs cache ≡ some js
          → All (Allowed allowed) js
      unfolding scored
      score_jobs-Allowed jobs cache js =
          score_jobs-All (λ _. Unit {0}) (Allowed allowed) jobs cache js (λ j net a _. a)
            (anything jobs)
        where
          anything : (ks : List (Job S)) → All (λ _. Unit {0}) ks
          anything [] = tt
          anything (k ∷ ks) = (tt, anything ks)

    -- A notification for the batch's user carries a ranking.
    abbrev pub Sends : ℕ → List ℕ → Call S → Type 0
    Sends user_id allowed (enqueue_batch u ranked score) =
        (u ≡ user_id) × IsRanking settings.max_jobs_to_send allowed ranked
    Sends user_id allowed (save_scoring_components u rows) = Unit
    Sends user_id allowed (mark_processed u ids) = Unit
    Sends user_id allowed (release_claim u ids) = Unit

    module _ (batch : AcBatch) (allowed : List ℕ) where
      abbrev AllSend : Run S → Type 0
      AllSend run = All (Sends batch.user_id allowed) run.0

      perform-AllSend :
          (call : Call S) (next : Run S)
          → Sends batch.user_id allowed call
          → AllSend next
          → AllSend (perform services call next)
      unfolding perform
      perform-AllSend call next s h = elim (Bool-cases (services.returns call)) [
        | inl e ↦ rw e (s, h)
        | inr e ↦ rw e (s, tt)
      ]

      if-AllSend :
          (test : Bool) (x y : Run S) → AllSend x → AllSend y → AllSend (if test then x else y)
      if-AllSend true x y h k = h
      if-AllSend false x y h k = k

      finish-AllSend : AllSend (finish texts clock settings services batch)
      unfolding finish
      finish-AllSend = perform-AllSend _ ([], true) tt tt

      deliver-AllSend :
          (ranked : List (RankedJob S))
          → IsRanking settings.max_jobs_to_send allowed ranked
          → AllSend (deliver texts clock settings services batch ranked)
      unfolding deliver
      deliver-AllSend [] h = finish-AllSend
      deliver-AllSend (r ∷ rs) h =
          if-AllSend services.has_enqueue_batch _ _
            (perform-AllSend _ (finish texts clock settings services batch) (refl, h)
              finish-AllSend)
            finish-AllSend

      explained-AllSend :
          (o : Option (List String)) (js : List (Job S)) (next : List (RankedJob S) → Run S)
          → ((texts' : List String) → AllSend (next (number_jobs 1 js texts')))
          → AllSend (explained texts clock settings services o js next)
      unfolding explained enumerate_ranked
      explained-AllSend none js next go = tt
      explained-AllSend (some texts') js next go = from (length js == length texts')
        where
          from :
              (b : Bool)
              → AllSend (elim (if b then some (number_jobs 1 js texts') else none) as (λ x. Run S) [
                | none ↦ ([], false)
                | some ranked ↦ next ranked
              ])
          from true = go texts'
          from false = tt

      saved-AllSend :
          (user_id : ℕ) (js : List (Job S)) (next : Run S)
          → AllSend next
          → AllSend (saved texts clock settings services user_id js next)
      unfolding saved
      saved-AllSend user_id js next h =
          if-AllSend services.has_save_scoring_components _ _ (perform-AllSend _ next tt h) h

      -- The ordered jobs, numbered and explained.
      ordered-IsRanking :
          (js : List (Job S)) (ts : List String)
          → (lit 0 ≤? lit {S = S} 1) ≡ true
          → All (Allowed allowed) js
          → IsRanking settings.max_jobs_to_send allowed
              (number_jobs 1 (ordered_jobs texts clock settings services js) ts)
      unfolding ordered_jobs
      ordered-IsRanking js ts h a =
          let sorted = sort_by ranks_higher js in
          let all =
            enumerate-Enumerated allowed 1 (take settings.max_jobs_to_send sorted) ts h
              (Sorted-take ranks_higher settings.max_jobs_to_send sorted (ranks_higher-Sorted js))
              (All-take _ settings.max_jobs_to_send sorted (All-sort_by ranks_higher _ js a)) in
          record {
            numbered = all.numbered;
            few = omega (arith, all.few, length-take settings.max_jobs_to_send sorted);
            falling = all.falling;
            confident = all.confident;
            known = all.known;
          }

      rank-AllSend :
          (user_id : ℕ) (o : Option (List (Job S)))
          → (lit 0 ≤? lit {S = S} 1) ≡ true
          → ((js : List (Job S)) → o ≡ some js → All (Allowed allowed) js)
          → AllSend (
              rank_eligible texts clock settings services user_id o
                (deliver texts clock settings services batch))
      unfolding rank_eligible deliver
      rank-AllSend user_id none h a = tt
      rank-AllSend user_id (some []) h a = finish-AllSend
      rank-AllSend user_id (some (j ∷ js)) h a = saved-AllSend user_id (j ∷ js) _ (
          explained-AllSend _ _ (deliver texts clock settings services batch)
            (λ ts. deliver-AllSend _ (ordered-IsRanking (j ∷ js) ts h (a (j ∷ js) refl))))

    -- The jobs that the rerank policy selects from what was loaded.
    abbrev pub selected_ids : List (Job S × S) → List ℕ
    selected_ids loaded =
        map (λ j. j.id) (rerank texts clock settings services (map (λ p. p.0) loaded)).selected

    jobs-AllSend :
        (batch : AcBatch) (user : User S) (loaded : List (Job S × S))
        → (lit 0 ≤? lit {S = S} 1) ≡ true
        → AllSend batch
            (selected_ids loaded)
            (with_jobs texts clock settings services batch user (some loaded))
    unfolding with_jobs eligible_jobs
    jobs-AllSend batch user [] h = finish-AllSend batch _
    jobs-AllSend batch user (p ∷ ps) h = rank-AllSend batch _ user.id _ h (λ js.
        score_jobs-Allowed user (selected_ids (p ∷ ps))
          (rerank texts clock settings services (map (λ q. q.0) (p ∷ ps))).used_fallback
          (map (λ q. q.0) (p ∷ ps)) [] js)

    -- Whatever raises, each notification that `execute` queues for a user that was found and the
    -- jobs that were loaded is for the batch's user and carries a ranking: at most
    -- `max_jobs_to_send` jobs, all selected by the rerank policy, numbered from 1 by falling final
    -- score, with confidences between 0 and 1. The assumption on the numbers says that 0 is at most 1.
    pub execute-Sends :
        (batch : AcBatch) (user : User S) (loaded : List (Job S × S))
        → (lit 0 ≤? lit {S = S} 1) ≡ true
        → services.get_by_id batch.user_id ≡ some (some user)
        → services.get_with_scores batch.job_ids user.embedding batch.user_id ≡ some loaded
        → All
            (Sends batch.user_id (selected_ids loaded))
            (execute texts clock settings services batch).0
    unfolding execute with_user release_batch
    execute-Sends batch user loaded h found got =
        subst
          (λ o.
            All (Sends batch.user_id (selected_ids loaded))
              (with_user texts clock settings services batch o).0)
          (sym found)
          (if-AllSend batch (selected_ids loaded) (str_eq user.profile_text "") _ _
            (finish-AllSend batch (selected_ids loaded))
            (if-AllSend batch (selected_ids loaded) (is_empty user.embedding) _ _
              (if-AllSend batch (selected_ids loaded) services.has_release_claim _ _
                (perform-AllSend batch (selected_ids loaded) _ ([], true) tt tt) tt)
              (subst
                (λ o.
                  All (Sends batch.user_id (selected_ids loaded))
                    (with_jobs texts clock settings services batch user o).0)
                (sym got) (jobs-AllSend batch user loaded h))))

    rows-All :
        (m : S) (js : List (Job S))
        → All (λ j. j.preference_multiplier ≡ m) js
        → All (λ row. row.3 ≡ m) (components texts clock settings services js)
    unfolding components
    rows-All m [] h = tt
    rows-All m (j ∷ js) h = (h.0, rows-All m js h.1)

    -- The rows of scoring components that are saved for the jobs that `_rank_jobs` finds eligible
    -- carry the preference multiplier with which the jobs were loaded: if that is one number for all
    -- of them, it is the one in every row, whatever sources the user prefers.
    pub saved_multiplier_is_loaded :
        (user : User S) (jobs js : List (Job S)) (m : S)
        → eligible_jobs texts clock settings services user jobs ≡ some js
        → All (λ j. j.preference_multiplier ≡ m) jobs
        → All (λ row. row.3 ≡ m) (components texts clock settings services js)
    unfolding eligible_jobs scored
    saved_multiplier_is_loaded user jobs js m e h = rows-All m js (
        score_jobs-All user (map (λ j. j.id) (rerank texts clock settings services jobs).selected)
          (rerank texts clock settings services jobs).used_fallback
          (λ j. j.preference_multiplier ≡ m) (λ j. j.preference_multiplier ≡ m) jobs [] js
          (λ j net a p. p) h e)
