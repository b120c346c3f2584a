-- ===== src/Feedback/Bounds.antt =====
-- How far feedback moves a score, and which candidates it drops.
use site_parser_for_freelans.Common.{
  ◌≡◌, refl, ◌⊎◌, inl, inr, Bool, true, ◌&&◌, Option, none, some, List, [], ◌∷◌, map, keep_if,
  Bool-cases,
}
use site_parser_for_freelans.Common.Float.{Float, lit, neg, ◌⊗◌, ◌≤?◌, clamp_between}
use site_parser_for_freelans.Domain.{MatchCandidate}
use site_parser_for_freelans.Feedback.{
  FeedbackSignal, max_multiplier, min_multiplier, signal_threshold, clamped, adjust_score,
  apply_signal, Lookup, signal_for, adjust_one, adjust_candidates,
}

module _ {S : Type 0} ⦃f : Float S⦄ where
  -- A multiplier within the caps of the penalty and of the boost.
  abbrev pub Capped : S → Type 0
  Capped m = ((min_multiplier ≤? m) ≡ true) × ((m ≤? max_multiplier) ≡ true)

  clamped-Capped : (m : S) → (min_multiplier {S = S} ≤? max_multiplier) ≡ true → Capped (clamped m)
  clamped-Capped m h = clamp_between min_multiplier max_multiplier m h

  -- Feedback leaves a score as it is, or multiplies it by a factor between 0.5 and 1.15, and it
  -- leaves the score as it is whenever the net signal is between -0.2 and 0.2. The
  -- assumption says that 0.5 is at most 1.15.
  pub adjust_score_bounds :
      (base_score signal_net : S)
      → (min_multiplier {S = S} ≤? max_multiplier) ≡ true
      → ((adjust_score base_score signal_net ≡ base_score)
          ⊎ ((m : S) × Capped m × (adjust_score base_score signal_net ≡ base_score ⊗ m)))
        × ((signal_net ≤? signal_threshold) ≡ true
            → (neg signal_threshold ≤? signal_net) ≡ true
            → adjust_score base_score signal_net ≡ base_score)
  unfolding adjust_score
  adjust_score_bounds base_score signal_net h =
      elim (Bool-cases ((signal_net ≤? lit 0) && (lit 0 ≤? signal_net))) [
        | inl z ↦ rw z (inl refl, λ _ _. refl)
        | inr z ↦ elim (Bool-cases (signal_net ≤? signal_threshold)) [
          | inr p ↦ rw (z, p) (inr (_, clamped-Capped _ h, refl), λ q _. cc)
          | inl p ↦ elim (Bool-cases (neg signal_threshold ≤? signal_net)) [
            | inr n ↦ rw (z, p, n) (inr (_, clamped-Capped _ h, refl), λ _ q. cc)
            | inl n ↦ rw (z, p, n) (inl refl, λ _ _. refl)
          ]
        ]
      ]

  -- The candidates that stay: those without a signal, because a call raised, and those whose
  -- adjusted score is at least the threshold.
  abbrev pub stays : S → Option (FeedbackSignal S) → MatchCandidate S → Bool
  stays threshold none c = true
  stays threshold (some signal) c = threshold ≤? apply_signal c.match_score signal

  -- The candidate that stands for `c` afterwards.
  abbrev pub rescored : Option (FeedbackSignal S) → MatchCandidate S → MatchCandidate S
  rescored none c = c
  rescored (some signal) c = record c { match_score = apply_signal c.match_score signal }

  module _ {Skills : Type 0} (lookup : Lookup Skills S) (threshold : S) where
    -- Candidate by candidate: does it stay, and what stands for it.
    abbrev pub kept_and_rescored : List (MatchCandidate S) → List (MatchCandidate S)
    kept_and_rescored cs =
        map (λ c. rescored (signal_for lookup c) c)
          (keep_if (λ c. stays threshold (signal_for lookup c) c) cs)

    one_kept :
        (c : MatchCandidate S) (cs rest : List (MatchCandidate S)) (o : Option (FeedbackSignal S))
        → signal_for lookup c ≡ o
        → rest ≡ kept_and_rescored cs
        → adjust_one threshold c o rest ≡ kept_and_rescored (c ∷ cs)
    unfolding adjust_one
    one_kept c cs rest none e h = rw (e, h) (rw e refl)
    one_kept c cs rest (some signal) e h =
        elim (Bool-cases (threshold ≤? apply_signal c.match_score signal)) [
          | inl p ↦ rw (e, p, h) (rw e refl)
          | inr p ↦ rw (e, p, h) refl
        ]

    -- The candidates that stay are those whose signal could not be read and those whose adjusted
    -- score is at least the threshold. They keep their order and all fields but the score, and the
    -- score of a candidate without a signal is the one it had.
    pub adjust_candidates-kept :
        (cs : List (MatchCandidate S))
        → adjust_candidates lookup threshold cs ≡ kept_and_rescored cs
    unfolding adjust_candidates
    adjust_candidates-kept [] = refl
    adjust_candidates-kept (c ∷ cs) =
        one_kept c cs (adjust_candidates lookup threshold cs) (signal_for lookup c) refl
          (adjust_candidates-kept cs)
