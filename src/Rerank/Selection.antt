-- ===== src/Rerank/Selection.antt =====
-- Which candidates the rerank policy selects.
use mathlib.Core.List.{Perm}
use site_parser_for_freelans.Common.{
  ℕ, zero, suc, ◌≤◌, ◌≡◌, refl, sym, ap, ◌⊎◌, inl, inr, true, false, List, [], ◌∷◌, ◌++◌, length,
  take, keep_if, All, All-append, subst, Bool-cases, arith,
}
use site_parser_for_freelans.Common.Float.{Float, ◌≤?◌, not-≤?_mono}
use site_parser_for_freelans.Common.Sort.{Sorted}
use site_parser_for_freelans.Rerank.{higher_first}

module _ {S : Type 0} ⦃f : Float S⦄ {Item : Type 0} (score : Item → S) where
  abbrev pub Passes : S → Item → Type 0
  Passes threshold x = (threshold ≤? score x) ≡ true

  abbrev pub Fails : S → Item → Type 0
  Fails threshold x = (threshold ≤? score x) ≡ false

  abbrev pub AtMost : Item → Item → Type 0
  AtMost y x = (score y ≤? score x) ≡ true

  -- `selected` is a best choice of at most `top_k` items that pass the threshold.
  pub record IsTopSelection (threshold : S) (top_k : ℕ) (items selected : List Item) : Type 0 where
    pub rest : List Item
    pub split : Perm (selected ++ rest) items
    pub above : All (λ x. (threshold ≤? score x) ≡ true) selected
    pub dominated : All (λ x. All (λ y. (score y ≤? score x) ≡ true) rest) selected
    pub ordered : Sorted (higher_first score) selected
    pub bounded : length selected ≤ top_k
    pub full : (length selected ≡ top_k) ⊎ All (λ y. (threshold ≤? score y) ≡ false) rest

  -- Behind an item that fails the threshold, in a list by falling score, all fail it.
  fail_behind :
      (t : S) (x : Item) (xs : List Item)
      → Fails t x
      → All (λ y. higher_first score x y ≡ true) xs
      → All (Fails t) xs
  fail_behind t x [] h s = tt
  fail_behind t x (y ∷ ys) h s = (not-≤?_mono (score y) (score x) t s.0 h, fail_behind t x ys h s.1)

  pub none_kept : (t : S) (xs : List Item) → All (Fails t) xs → keep_if (λ x. t ≤? score x) xs ≡ []
  none_kept t [] h = refl
  none_kept t (x ∷ xs) h = rw (h.0) (none_kept t xs h.1)

  -- `sel` is the part of the ranked list `l` that is selected.
  pub record Splits (t : S) (k : ℕ) (l sel : List Item) : Type 0 where
    pub rest : List Item
    pub parts : sel ++ rest ≡ l
    pub passes : All (Passes t) sel
    pub dominates : All (λ x. All (λ y. AtMost y x) rest) sel
    pub in_order : Sorted (higher_first score) sel
    pub few : length sel ≤ k
    pub filled : (length sel ≡ k) ⊎ All (Fails t) rest

  Splits-cons :
      (t : S) (k : ℕ) (x : Item) (xs sel : List Item)
      → Passes t x
      → All (λ y. higher_first score x y ≡ true) xs
      → Splits t k xs sel
      → Splits t (suc k) (x ∷ xs) (x ∷ sel)
  Splits-cons t k x xs sel p s h = record {
    rest = h.rest;
    parts = ap (◌∷◌ x) h.parts;
    passes = (p, h.passes);
    dominates = (both.1, h.dominates);
    in_order = (both.0, h.in_order);
    few = omega (arith, h.few);
    filled = elim (h.filled) [ inl e ↦ inl (ap suc e) | inr e ↦ inr e ];
  }
    where
      both : All (λ y. AtMost y x) sel × All (λ y. AtMost y x) h.rest
      both = All-append _ sel h.rest (subst (All (λ y. AtMost y x)) (sym h.parts) s)

  pub kept-Splits :
      (t : S) (k : ℕ) (l : List Item)
      → Sorted (higher_first score) l
      → Splits t k l (take k (keep_if (λ x. t ≤? score x) l))
  kept-Splits t zero l s = record {
    rest = l;
    parts = refl;
    passes = tt;
    dominates = tt;
    in_order = tt;
    few = omega arith;
    filled = inl refl;
  }
  kept-Splits t (suc k) [] s = record {
    rest = [];
    parts = refl;
    passes = tt;
    dominates = tt;
    in_order = tt;
    few = omega arith;
    filled = inr tt;
  }
  kept-Splits t (suc k) (x ∷ xs) s = elim (Bool-cases (t ≤? score x)) [
    | inl p ↦ rw p (Splits-cons t k x xs _ p s.0 (kept-Splits t k xs s.1))
    | inr p ↦
        rw (p, none_kept t xs (fail_behind t x xs p s.0))
          (record {
            rest = x ∷ xs;
            parts = refl;
            passes = tt;
            dominates = tt;
            in_order = tt;
            few = omega arith;
            filled = inr (p, fail_behind t x xs p s.0);
          })
  ]
