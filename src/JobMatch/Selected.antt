-- ===== src/JobMatch/Selected.antt =====
-- Which candidates of a job go on after the reranking.
use Prim.Native.String.{String}
use text.Mathlib.Text.{◌==◌ as str_eq}
use site_parser_for_freelans.Common.{
  ◌≤◌, ◌≡◌, ◌≢◌, refl, sym, subst, ◌⊎◌, inl, inr, Bool, true, false, ◌==◌, Option, none, some, List,
  [], ◌∷◌, ◌++◌, map, length, any, All, Bool-cases, ==_iff, is_empty,
}
use site_parser_for_freelans.Common.Int.{pos_part}
use site_parser_for_freelans.Common.Float.{Float, ◌≤?◌}
use site_parser_for_freelans.Common.Sort.{sort_by}
use site_parser_for_freelans.Domain.{MatchCandidate}
use site_parser_for_freelans.Rerank.Policy.{decision, selects_top, fallback_is_best}
use site_parser_for_freelans.JobMatch.{
  Settings, Services, fallback_code, assign, mark_fallback, mark_selected, select_reranked,
  profiled, with_profile, use_scores, rerank_candidates, ranks_higher,
}

any-append :
    {A : Type 0} (p : A → Bool) (xs : List A) (x : A) → p x ≡ true → any p (xs ++ x ∷ []) ≡ true
any-append p [] x h = rw h refl
any-append p (y ∷ ys) x h = elim (Bool-cases (p y)) [
  | inl e ↦ rw e refl
  | inr e ↦ rw e (any-append p ys x h)
]

module _ {S : Type 0} ⦃f : Float S⦄ (settings : Settings S) (services : Services S) where
  mark_fallback-marked :
      (c : MatchCandidate S) → any (str_eq fallback_code) (mark_fallback c).reason_codes ≡ true
  unfolding mark_fallback
  mark_fallback-marked c = elim (Bool-cases (any (str_eq fallback_code) c.reason_codes)) [
    | inl e ↦ rw e e
    | inr e ↦ rw e (any-append (str_eq fallback_code) c.reason_codes fallback_code refl)
  ]

  -- What may go on: at most `rerank_top_k` candidates that reach the threshold, or one that is marked.
  abbrev pub GoesOn : List (MatchCandidate S) → Type 0
  GoesOn out =
      (All (λ c. (settings.rerank_threshold ≤? c.rerank_score) ≡ true) out
        × (length out ≤ pos_part settings.rerank_top_k))
      ⊎ ((c : MatchCandidate S) × (out ≡ c ∷ [])
          × (any (str_eq fallback_code) c.reason_codes ≡ true))

  select_GoesOn : (cs : List (MatchCandidate S)) → GoesOn (select_reranked settings services cs)
  unfolding select_reranked mark_selected
  select_GoesOn cs =
      let items = sort_by ranks_higher cs in
      let d =
        decision (λ (c : MatchCandidate S). c.rerank_score) settings.rerank_threshold
          settings.rerank_top_k settings.rerank_fallback_enabled "job" items in
      elim (Bool-cases d.used_fallback) [
        | inl e ↦
            let (best, _, only, _, _) =
              fallback_is_best (λ (c : MatchCandidate S). c.rerank_score) settings.rerank_threshold
                settings.rerank_top_k settings.rerank_fallback_enabled "job" items e in
            inr (mark_fallback best, rw (e, only) refl, mark_fallback-marked best)
        | inr e ↦
            let top =
              selects_top (λ (c : MatchCandidate S). c.rerank_score) settings.rerank_threshold
                settings.rerank_top_k settings.rerank_fallback_enabled "job" items e in
            inl (rw e (top.above, top.bounded))
      ]

  -- What becomes of the answer of `score_pairs`.
  abbrev pub Answered :
      List (MatchCandidate S × String) → Option (List S) → Option (List (MatchCandidate S)) → Type 0
  Answered cs none result = result ≡ none
  Answered cs (some scores) result =
      (length scores ≢ length (with_profile settings services cs) → result ≡ none)
      × (length scores ≡ length (with_profile settings services cs)
          → (result ≡ some (select_reranked settings services (assign cs scores)))
            × GoesOn (select_reranked settings services (assign cs scores)))

  use_scores-Answered :
      (cs : List (MatchCandidate S × String)) (o : Option (List S))
      → Answered cs o (use_scores settings services cs o)
  unfolding use_scores
  use_scores-Answered cs none = refl
  use_scores-Answered cs (some scores) =
      elim (Bool-cases (length scores == length (with_profile settings services cs))) [
        | inl e ↦
            (λ n. absurd (n ((==_iff _ _).0 e)), λ h. (rw e refl, select_GoesOn (assign cs scores)))
        | inr e ↦ (λ n. rw e refl, λ h. absurd (cc ((==_iff _ _).1 h)))
      ]

  abbrev pub pairs : String → List (MatchCandidate S) → List (String × String)
  pairs job_text cs =
      map (λ p. (p.1, job_text)) (with_profile settings services (profiled settings services cs))

  -- With a reranker and a candidate that has a profile, `_rerank_candidates` raises if `score_pairs`
  -- raises, and if it gives another number of scores than there are candidates with a profile. With
  -- as many scores it returns the selection of the candidates with these scores: at most
  -- `rerank_top_k` candidates whose rerank scores reach the threshold, or one candidate that is
  -- marked as the fallback.
  pub rerank_candidates_lem :
      (job_text : String) (cs : List (MatchCandidate S))
      (score_pairs : List (String × String) → Option (List S))
      → services.score_pairs ≡ some score_pairs
      → is_empty (pairs job_text cs) ≡ false
      → Answered
          (profiled settings services cs)
          (score_pairs (pairs job_text cs))
          (rerank_candidates settings services job_text cs)
  unfolding rerank_candidates
  rerank_candidates_lem job_text cs score_pairs h n =
      let p = profiled settings services cs in
      subst (Answered p (score_pairs (pairs job_text cs))) (sym (rw (h, n) refl))
        (use_scores-Answered p (score_pairs (pairs job_text cs)))
