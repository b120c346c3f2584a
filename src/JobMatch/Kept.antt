-- ===== src/JobMatch/Kept.antt =====
-- The candidates that `match_job` hands on are of users that the search found.
use Prim.Native.String.{String}
use text.Mathlib.Text.{◌==◌ as str_eq}
use site_parser_for_freelans.Common.{
  ℕ, ◌≡◌, refl, sym, subst, inl, inr, Bool, true, Option, none, some, List, [], ◌∷◌, ◌==◌, ◌||◌,
  map, keep_if, length, any, is_empty, All, All-take, if_either, if◌then◌else◌, Bool-cases,
  Option-cases, arith,
}
use site_parser_for_freelans.Common.Int.{ℤ, pos_part}
use site_parser_for_freelans.Common.Float.{Float, ◌≤?◌}
use site_parser_for_freelans.Common.Sort.{sort_by, All-sort_by}
use site_parser_for_freelans.Domain.{MatchCandidate}
use site_parser_for_freelans.Rerank.{
  RerankPolicyDecision, Counter, higher_first, apply_rerank_policy, decide_ranked, decide,
  nothing_to_rank,
}
use site_parser_for_freelans.Feedback.{
  FeedbackSignal, Lookup, adjust_candidates, adjust_one, apply_signal, signal_for,
}
use site_parser_for_freelans.JobMatch.{
  Settings, Services, assign, mark_fallback, mark_selected, select_reranked, profiled, with_profile,
  use_scores, rerank_candidates, ranks_higher, adjusted, labelled, search_limit,
  reranked_and_labelled, after_search, match_job,
}

All-keep_if :
    {A : Type 0} (P : A → Type 0) (p : A → Bool) (xs : List A) → All P xs → All P (keep_if p xs)
All-keep_if P p [] h = tt
All-keep_if P p (x ∷ xs) h = elim (Bool-cases (p x)) [
  | inl e ↦ rw e (h.0, All-keep_if P p xs h.1)
  | inr e ↦ rw e (All-keep_if P p xs h.1)
]

module _ {S : Type 0} ⦃f : Float S⦄ (P : ℕ → Type 0) where
  abbrev Of : MatchCandidate S → Type 0
  Of c = P c.user_id

  selected-All :
      (cs : List (MatchCandidate S)) (threshold : S) (top_k : ℤ) (fallback : Bool)
      → All Of cs
      → All Of
          (apply_rerank_policy (λ c. c.rerank_score) cs threshold top_k fallback "job").0.selected
  unfolding apply_rerank_policy decide_ranked decide nothing_to_rank
  selected-All cs threshold top_k fallback h =
      if_either
        (λ (d : RerankPolicyDecision (MatchCandidate S) S × List Counter). All Of d.0.selected)
        (is_empty cs || pos_part top_k == 0) _ _ tt
        (decided (sort_by (higher_first (λ c. c.rerank_score)) cs)
          (All-sort_by (higher_first (λ c. c.rerank_score)) Of cs h))
    where
      decided :
          (ranked : List (MatchCandidate S))
          → All Of ranked
          → All Of
              (decide_ranked
                (λ c. c.rerank_score)
                threshold
                (pos_part top_k)
                fallback
                "job"
                ranked).0.selected
      decided [] g = tt
      decided (best ∷ others) g =
          if_either (λ xs. All Of xs) _ (best ∷ []) _ (g.0, tt)
            (All-take Of (pos_part top_k) _
              (All-keep_if Of (λ x. threshold ≤? x.rerank_score) (best ∷ others) g))

  mark-All :
      (settings : Settings S) (services : Services S) (cs : List (MatchCandidate S))
      → All Of cs
      → All Of (map mark_fallback cs)
  unfolding mark_fallback
  mark-All settings services [] h = tt
  mark-All settings services (c ∷ cs) h = (
    if_either (λ x. Of x) (any (str_eq "rerank_all_filtered_fallback") c.reason_codes) _ _ h.0 h.0,
    mark-All settings services cs h.1,
  )

  assign-All :
      (cs : List (MatchCandidate S × String)) (scores : List S)
      → All (λ p. Of p.0) cs
      → All Of (assign cs scores)
  unfolding assign
  assign-All [] scores h = tt
  assign-All ((c, profile) ∷ cs) [] h =
      (if_either (λ x. Of x) (str_eq profile "") _ _ h.0 h.0, assign-All cs [] h.1)
  assign-All ((c, profile) ∷ cs) (s ∷ scores) h =
      if_either (λ xs. All Of xs) (str_eq profile "") _ _ (h.0, assign-All cs (s ∷ scores) h.1)
        (h.0, assign-All cs scores h.1)

  profiled-All :
      (settings : Settings S) (services : Services S) (cs : List (MatchCandidate S))
      → All Of cs
      → All (λ p. Of p.0) (profiled settings services cs)
  profiled-All settings services [] h = tt
  profiled-All settings services (c ∷ cs) h = (h.0, profiled-All settings services cs h.1)

  adjust-All :
      (lookup : Lookup (List String) S) (threshold : S) (cs : List (MatchCandidate S))
      → All Of cs
      → All Of (adjust_candidates lookup threshold cs)
  unfolding adjust_candidates adjust_one
  adjust-All lookup threshold [] h = tt
  adjust-All lookup threshold (c ∷ cs) h =
      from (signal_for lookup c) (adjust-All lookup threshold cs h.1)
    where
      from :
          (o : Option (FeedbackSignal S))
          → All Of (adjust_candidates lookup threshold cs)
          → All Of (adjust_one threshold c o (adjust_candidates lookup threshold cs))
      from none rest = (h.0, rest)
      from (some signal) rest =
          let kept : All Of (
              record c { match_score = apply_signal c.match_score signal }
              ∷ adjust_candidates lookup threshold cs) =
            (h.0, rest) in
          if_either (λ xs. All Of xs) (threshold ≤? apply_signal c.match_score signal) _ _ kept rest

  module _ (settings : Settings S) (services : Services S) where
    select-All :
        (cs : List (MatchCandidate S)) → All Of cs → All Of (select_reranked settings services cs)
    unfolding select_reranked mark_selected
    select-All cs h =
        let chosen =
          selected-All (sort_by ranks_higher cs) settings.rerank_threshold settings.rerank_top_k
            settings.rerank_fallback_enabled (All-sort_by ranks_higher Of cs h) in
        if_either (λ xs. All Of xs) _ _ _ (mark-All settings services _ chosen) chosen

    label-All :
        (why trace : String) (cs : List (MatchCandidate S))
        → All Of cs
        → All Of (labelled settings services why trace cs)
    unfolding labelled
    label-All why trace [] h = tt
    label-All why trace (c ∷ cs) h = (h.0, label-All why trace cs h.1)

    adjusted-All :
        (skills : List String) (cs : List (MatchCandidate S))
        → All Of cs
        → All Of (adjusted settings services skills cs)
    unfolding adjusted
    adjusted-All skills cs h = from services.get_feedback_signal
      where
        from :
            (o : Option (ℕ → List String → Option (FeedbackSignal S)))
            → All Of (elim o as (λ x. List (MatchCandidate S)) [
              | none ↦ cs
              | some get ↦
                  adjust_candidates
                    (record { get_job_skills = λ _. some skills; get_feedback_signal = get })
                    settings.threshold
                    cs
            ])
        from none = h
        from (some get) = adjust-All _ settings.threshold cs h

    -- What is said of a result that may be missing.
    abbrev Given : Option (List (MatchCandidate S)) → Type 0
    Given none = Unit
    Given (some cs) = All Of cs

    rerank-Given :
        (text : String) (cs : List (MatchCandidate S))
        → All Of cs
        → Given (rerank_candidates settings services text cs)
    unfolding rerank_candidates use_scores
    rerank-Given text cs h = from services.score_pairs
      where
        scored :
            (o : Option (List S))
            → Given (use_scores settings services (profiled settings services cs) o)
        scored none = tt
        scored (some scores) =
            if_either Given
              (length scores
                == length (with_profile settings services (profiled settings services cs)))
              (some
                (select_reranked settings services (assign (profiled settings services cs) scores)))
              none
              (select-All _ (
                assign-All (profiled settings services cs) scores
                  (profiled-All settings services cs h)))
              tt

        from :
            (o : Option (List (String × String) → Option (List S)))
            → Given (elim o as (λ x. Option (List (MatchCandidate S))) [
              | none ↦ some cs
              | some score_pairs ↦
                  let pairs =
                    map
                      (λ p. (p.1, text))
                      (with_profile settings services (profiled settings services cs)) in
                  if is_empty pairs
                  then some cs
                  else use_scores settings services
                      (profiled settings services cs)
                      (score_pairs pairs)
            ])
        from none = h
        from (some score_pairs) =
            let ps =
              map (λ p. (p.1, text))
                (with_profile settings services (profiled settings services cs)) in
            if_either Given (is_empty ps) (some cs) _ h (scored (score_pairs ps))

    -- If all users that the search finds have a property, so have all that are handed on.
    match_job-Given :
        (text : String) (skills : List String) (why trace : String)
        → Given (services.find_users_for_job (search_limit settings services))
        → Given (match_job settings services text skills why trace)
    unfolding match_job after_search reranked_and_labelled
    match_job-Given text skills why trace h =
        searched (services.find_users_for_job (search_limit settings services)) h
      where
        reranked :
            (o : Option (List (MatchCandidate S)))
            → Given o
            → Given (reranked_and_labelled settings services skills why trace o)
        reranked none g = tt
        reranked (some cs) g = label-All why trace _ (adjusted-All skills cs g)

        searched :
            (o : Option (List (MatchCandidate S)))
            → Given o
            → Given (after_search settings services text skills why trace o)
        searched none g = tt
        searched (some cs) g = reranked _ (rerank-Given text cs g)

module _ {S : Type 0} where
  -- Some of these candidates is of the user.
  abbrev pub IsOf : List (MatchCandidate S) → ℕ → Type 0
  IsOf found user_id = any (λ c. c.user_id == user_id) found ≡ true

  found-IsOf : (found : List (MatchCandidate S)) → All (λ c. IsOf found c.user_id) found
  found-IsOf found = within found (λ i h. h)
    where
      within :
          (cs : List (MatchCandidate S))
          → ((i : ℕ) → IsOf cs i → IsOf found i)
          → All (λ c. IsOf found c.user_id) cs
      within [] h = tt
      within (c ∷ cs) h =
          (h c.user_id (first c.user_id cs), within cs (λ i q. h i (later c i cs q)))
        where
          first :
              (i : ℕ) (ds : List (MatchCandidate S))
              → any (λ d. d.user_id == i) (record c { user_id = i } ∷ ds) ≡ true
          first i ds = ground arith

          later :
              (d : MatchCandidate S) (i : ℕ) (ds : List (MatchCandidate S))
              → IsOf ds i
              → IsOf (d ∷ ds) i
          later d i ds q = elim (Bool-cases (d.user_id == i)) [ inl e ↦ rw e refl | inr e ↦ rw e q ]

  -- All candidates that are handed on are of users that the search found.
  pub match_job-IsOf :
      ⦃f : Float S⦄ (settings : Settings S) (services : Services S) (text : String)
      (skills : List String) (why trace : String) (cs : List (MatchCandidate S))
      → match_job settings services text skills why trace ≡ some cs
      → (found : List (MatchCandidate S)) × (services.find_users_for_job
            (search_limit settings services)
          ≡ some found)
        × All (λ c. IsOf found c.user_id) cs
  unfolding match_job
  match_job-IsOf settings services text skills why trace cs h =
      elim (Option-cases (services.find_users_for_job (search_limit settings services))) [
        | inl e ↦ absurd (cc (rw (e, after_search) at h))
        | inr (found, e) ↦ (
          found,
          e,
          subst (Given (IsOf found) settings services) h (
              match_job-Given (IsOf found) settings services text skills why trace
                (subst (Given (IsOf found) settings services) (sym e) (found-IsOf found))),
        )
      ]
