-- ===== src/Rerank/Policy.antt =====
-- The decisions of `apply_rerank_policy`, on all of its branches.
use mathlib.Core.List.{Perm}
use mathlib.Core.List.Perm
use Prim.Native.String.{String}
use site_parser_for_freelans.Common.{
  ℕ, ◌<◌, ◌≡◌, ◌≢◌, ◌↔◌, refl, sym, ap, ◌∙◌, ◌⊎◌, inl, inr, Bool, true, false, List, [], ◌∷◌, take,
  keep_if, All, Bool-cases, List-cases, keep_if-eq-nil, is_empty, length, subst, ◌==◌, ◌&&◌, ◌-◌,
  zero, suc, arith,
}
use site_parser_for_freelans.Common.Int.{ℤ, pos_part}
use site_parser_for_freelans.Common.Float.{Float, ◌≤?◌}
use site_parser_for_freelans.Common.Sort.{
  sort_by, Sorted, sort_by-Sorted, sort_by-perm, sort_by-eq-nil, All-sort_by, All-sort_inv,
}
use site_parser_for_freelans.Rerank.{
  RerankPolicyDecision, Counter, higher_first, decide, apply_rerank_policy, nothing_to_rank,
}
use site_parser_for_freelans.Rerank.Selection.{
  IsTopSelection, Splits, kept-Splits, none_kept, Fails,
}

module _ {S : Type 0} ⦃f : Float S⦄ {Item : Type 0} (score : Item → S) where
  ranked_Sorted :
      (items : List Item) → Sorted (higher_first score) (sort_by (higher_first score) items)
  ranked_Sorted =
      sort_by-Sorted (higher_first score) (λ x y. f.leb_total (score y) (score x))
        (λ x y z p q. f.leb_trans (score z) (score y) (score x) q p)

  module _ (threshold : S) (top_k : ℤ) (fallback_enabled : Bool) (pipeline : String) where
    abbrev pub decision : List Item → RerankPolicyDecision Item S
    decision items = (apply_rerank_policy score items threshold top_k fallback_enabled pipeline).0

    record Ranked (items : List Item) (best : Item) (others : List Item) : Type 0 where
      sorted_eq : sort_by (higher_first score) items ≡ best ∷ others
      room : 0 < pos_part top_k
      nonempty : items ≢ []
      decided :
          apply_rerank_policy score items threshold top_k fallback_enabled pipeline
          ≡ decide score threshold (pos_part top_k) fallback_enabled pipeline best others

    abbrev Idle : List Item → Type 0
    Idle items =
        ((items ≡ []) ⊎ (pos_part top_k ≡ 0))
        × (apply_rerank_policy score items threshold top_k fallback_enabled pipeline
            ≡ (nothing_to_rank threshold (length items), []))

    policy_cases :
        (items : List Item)
        → Idle items ⊎ ((best : Item) × (others : List Item) × Ranked items best others)
    unfolding apply_rerank_policy
    policy_cases [] = inl (inl refl, refl)
    policy_cases (x ∷ xs) = elim (Bool-cases (pos_part top_k == 0)) [
      | inl z ↦ inl (inr (ground arith), rw z)
      | inr z ↦ elim (List-cases (sort_by (higher_first score) (x ∷ xs))) [
        | inl e ↦ absurd (cc (sort_by-eq-nil (higher_first score) (x ∷ xs) e))
        | inr (best, others, e) ↦ inr (
          best,
          others,
          record { sorted_eq = e; room = ground arith; nonempty = λ n. cc; decided = rw (z, e) },
        )
      ]
    ]

    abbrev passing : List Item → List Item
    passing l = take (pos_part top_k) (keep_if (λ x. threshold ≤? score x) l)

    top_of_Ranked :
        (items : List Item) (best : Item) (others : List Item)
        → Ranked items best others
        → IsTopSelection score threshold (pos_part top_k) items (passing (best ∷ others))
    top_of_Ranked items best others r = record {
      rest = s.rest;
      split =
          subst (λ l. Perm l items) (r.sorted_eq ∙ sym s.parts)
            (sort_by-perm (higher_first score) items);
      above = s.passes;
      dominated = s.dominates;
      ordered = s.in_order;
      bounded = s.few;
      full = s.filled;
    }
      where
        s : Splits score threshold (pos_part top_k) (best ∷ others) (passing (best ∷ others))
        s =
            kept-Splits score threshold (pos_part top_k) (best ∷ others)
              (subst (Sorted (higher_first score)) r.sorted_eq (ranked_Sorted items))

    none_selected :
        (items : List Item)
        → (items ≡ []) ⊎ (pos_part top_k ≡ 0)
        → IsTopSelection score threshold (pos_part top_k) items []
    none_selected items why = record {
      rest = items;
      split = Perm.refl items;
      above = tt;
      dominated = tt;
      ordered = tt;
      bounded = omega arith;
      full = elim why [ inl e ↦ inr (rw e tt) | inr e ↦ inl (sym e) ];
    }

    -- Unless the fallback is used, the selected items are a best choice of at most `top_k` items
    -- that pass the threshold: with the items left out they make up the candidates, they stand by
    -- falling score, no item left out scores higher, and there are `top_k` of them or every item
    -- left out fails the threshold.
    pub selects_top :
        (items : List Item)
        → (decision items).used_fallback ≡ false
        → IsTopSelection score threshold (pos_part top_k) items (decision items).selected
    unfolding decide nothing_to_rank
    selects_top items h = elim (policy_cases items) [
      | inl (why, e) ↦ subst Good (sym e) (λ _. none_selected items why) h
      | inr (best, others, r) ↦
          subst Good (sym r.decided) (λ k. rw k (top_of_Ranked items best others r)) h
    ]
      where
        Good : RerankPolicyDecision Item S × List Counter → Type 0
        Good d =
            d.0.used_fallback ≡ false
            → IsTopSelection score threshold (pos_part top_k) items d.0.selected

    take-IsEmpty :
        (l : List Item) → 0 < pos_part top_k → is_empty (take (pos_part top_k) l) ≡ true → l ≡ []
    take-IsEmpty [] h e = refl
    take-IsEmpty (x ∷ xs) h e =
        let k : pos_part top_k ≡ suc (pos_part top_k - 1) = omega arith in cc (rw k at e)

    -- The fallback is used exactly when it is enabled, there is a candidate, `top_k` is positive
    -- and no candidate reaches the threshold.
    pub falls_back_iff :
        (items : List Item)
        → ((decision items).used_fallback ≡ true)
          ↔ (fallback_enabled ≡ true)
            × (items ≢ [])
            × (0 < pos_part top_k)
            × All (λ x. (threshold ≤? score x) ≡ false) items
    unfolding decide nothing_to_rank
    falls_back_iff items = elim (policy_cases items) [
      | inl (why, e) ↦ (
        λ h. cc (ap (λ d. d.0.used_fallback) e),
        λ h. elim why [ inl n ↦ absurd (h.1 n) | inr z ↦ absurd (omega arith) ],
      )
      | inr (best, others, r) ↦ subst Good (sym r.decided) (
        λ h. (
          (and_true _ _ h).1,
          r.nonempty,
          r.room,
          All-sort_inv (higher_first score) (Fails score threshold) items (
              rw (r.sorted_eq) (
                keep_if-eq-nil (λ x. threshold ≤? score x) (best ∷ others)
                  (take-IsEmpty _ r.room (and_true _ _ h).0))),
        ),
        λ h.
            rw
              (
                h.0,
                none_kept score threshold (best ∷ others) (
                    subst (All (Fails score threshold)) r.sorted_eq
                      (All-sort_by (higher_first score) (Fails score threshold) items h.3)),
              )
              (take_nil (pos_part top_k)),
      )
    ]
      where
        Good : RerankPolicyDecision Item S × List Counter → Type 0
        Good d =
            (d.0.used_fallback ≡ true)
            ↔ (fallback_enabled ≡ true)
              × (items ≢ [])
              × (0 < pos_part top_k)
              × All (λ x. (threshold ≤? score x) ≡ false) items

        and_true : (a b : Bool) → (a && b) ≡ true → (a ≡ true) × (b ≡ true)
        and_true a b h = ground arith

        take_nil : (n : ℕ) → (is_empty {A = Item} (take n []) && true) ≡ true
        take_nil zero = refl
        take_nil (suc n) = refl

    -- When the fallback is used, one candidate is selected, and none of the others scores higher.
    pub fallback_is_best :
        (items : List Item)
        → (decision items).used_fallback ≡ true
        → (best : Item) × (rest : List Item) × ((decision items).selected ≡ best ∷ [])
          × Perm (best ∷ rest) items
          × All (λ y. (score y ≤? score best) ≡ true) rest
    unfolding decide nothing_to_rank
    fallback_is_best items h = elim (policy_cases items) [
      | inl (why, e) ↦ absurd (cc (ap (λ d. d.0.used_fallback) e))
      | inr (best, others, r) ↦ (
        best,
        others,
        subst (λ d. d.0.used_fallback ≡ true → d.0.selected ≡ best ∷ []) (sym r.decided) (λ k. rw k)
            h,
        subst (λ l. Perm l items) r.sorted_eq (sort_by-perm (higher_first score) items),
        (subst (Sorted (higher_first score)) r.sorted_eq (ranked_Sorted items)).0,
      )
    ]
