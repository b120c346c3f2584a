-- ===== src/Rerank.antt =====
-- ai-service/src/ai_service/usecase/rerank_policy.py: which reranked candidates go on. The metric
-- counters that the function increments are returned beside the decision, in their order.
pub mod Selection
pub mod Policy
use Prim.Native.String.{String}
use site_parser_for_freelans.Common.{
  ℕ, Bool, true, false, ◌&&◌, ◌||◌, ◌==◌, List, [], ◌∷◌, map, length, is_empty, take, keep_if,
  if◌then◌else◌,
}
use site_parser_for_freelans.Common.Int.{ℤ, pos_part}
use site_parser_for_freelans.Common.Float.{Float, lit, ◌⊕◌, ◌⊘◌, ◌≤?◌}
use site_parser_for_freelans.Common.Sort.{sort_by}

pub record RerankPolicyDecision (Item S : Type 0) : Type 0 where
  pub selected : List Item
  pub ranked : List Item
  pub candidate_count : ℕ
  pub selected_count : ℕ
  pub best_score_before_filter : S
  pub min_score_before_filter : S
  pub mean_score_before_filter : S
  pub threshold : S
  pub used_fallback : Bool
  pub all_filtered : Bool

-- `siteparser_rerank_all_filtered_total` and `siteparser_rerank_fallback_total`, with the label
-- `pipeline`.
pub data Counter : Type 0 where
  all_filtered_total fallback_total : String → Counter

module _ {S : Type 0} ⦃f : Float S⦄ where
  -- `sum(scores)`.
  unfoldable pub sum_scores : S → List S → S
  sum_scores acc [] = acc
  sum_scores acc (x ∷ xs) = sum_scores (acc ⊕ x) xs

  -- `scores[-1]`, of the list that begins with `x`.
  unfoldable pub last_score : S → List S → S
  last_score x [] = x
  last_score x (y ∷ ys) = last_score y ys

module _ {S : Type 0} ⦃f : Float S⦄ {Item : Type 0} where
  unfoldable pub nothing_to_rank : S → ℕ → RerankPolicyDecision Item S
  nothing_to_rank threshold count = record {
    selected = [];
    ranked = [];
    candidate_count = count;
    selected_count = 0;
    best_score_before_filter = lit 0;
    min_score_before_filter = lit 0;
    mean_score_before_filter = lit 0;
    threshold = threshold;
    used_fallback = false;
    all_filtered = false;
  }

module _ {S : Type 0} ⦃f : Float S⦄ {Item : Type 0} (score_getter : Item → S) where
  -- The order of `sorted(…, key=score, reverse=True)`.
  abbrev pub higher_first : Item → Item → Bool
  higher_first x y = score_getter y ≤? score_getter x

  -- The part after the sort: the ranked items are `best ∷ others`.
  unfoldable pub decide :
      S → ℕ → Bool → String → Item → List Item → RerankPolicyDecision Item S × List Counter
  unfolding sum_scores last_score
  decide threshold top_k fallback_enabled pipeline best others =
      let ranked : List Item = best ∷ others in
      let kept : List Item = take top_k (keep_if (λ x. threshold ≤? score_getter x) ranked) in
      let all_filtered = is_empty kept in
      let used_fallback = all_filtered && fallback_enabled in
      let selected : List Item = if used_fallback then best ∷ [] else kept in
      let fell_back : List Counter =
        if fallback_enabled then fallback_total pipeline ∷ [] else [] in
      (
        record {
          selected = selected;
          ranked = ranked;
          candidate_count = length ranked;
          selected_count = length selected;
          best_score_before_filter = score_getter best;
          min_score_before_filter = last_score (score_getter best) (map score_getter others);
          mean_score_before_filter =
              sum_scores (lit 0) (map score_getter ranked) ⊘ lit (length ranked);
          threshold = threshold;
          used_fallback = used_fallback;
          all_filtered = all_filtered;
        },
        if all_filtered then all_filtered_total pipeline ∷ fell_back else [],
      )

  -- `sorted` of a list that is not empty is not empty: the first case does not arise there.
  unfoldable pub decide_ranked :
      S → ℕ → Bool → String → List Item → RerankPolicyDecision Item S × List Counter
  unfolding decide nothing_to_rank
  decide_ranked threshold top_k fallback_enabled pipeline [] = (nothing_to_rank threshold 0, [])
  decide_ranked threshold top_k fallback_enabled pipeline (best ∷ others) =
      decide threshold top_k fallback_enabled pipeline best others

  unfoldable pub apply_rerank_policy :
      List Item → S → ℤ → Bool → String → RerankPolicyDecision Item S × List Counter
  unfolding decide_ranked nothing_to_rank
  apply_rerank_policy items threshold top_k fallback_enabled pipeline =
      let normalized_top_k = pos_part top_k in
      if is_empty items || normalized_top_k == 0
      then (nothing_to_rank threshold (length items), [])
      else decide_ranked threshold normalized_top_k fallback_enabled pipeline
          (sort_by higher_first items)
