-- ===== src/Fallback/Total.antt =====
-- The Actor-Critic loop with agents that fall back to the rules.
use Prim.Native.String.{String}
use site_parser_for_freelans.Common.{
  ℕ, zero, suc, ◌<◌, ◌≡◌, refl, inl, inr, Bool, true, false, not, Bool-cases, Option, none, some,
  List, [], ◌∷◌, is_empty, length, map, All, All-map_fun, arith,
}
use site_parser_for_freelans.Common.Float.{Float}
use site_parser_for_freelans.Domain.{RankedJob, CriticResult}
use site_parser_for_freelans.AcLoop.{
  Agents, ActorCriticConfig, ActorCriticResult, Round, scored, nothing_selected, raised, attempt,
  run,
}
use site_parser_for_freelans.AcLoop.Rounds.{
  play, rounds, candidate_rounds, Answered, ScoredIn, NoneScored, FirstPassing, run_returns,
  run_not_passed, run-FirstPassing,
}
use site_parser_for_freelans.Fallback.{
  Outcome, fall_back, ActorAgent, CriticAgent, select, evaluate,
}
use site_parser_for_freelans.Fallback.Rules.{
  Candidate, rank_from, rule_based_actor, rule_based_critic,
}

-- A fallback that gives something makes sure that something is given: the first result, if it is
-- usable, or the fallback's.
fall_back_gives :
    {A : Type 0} (usable : A → Bool) (unusable : Outcome) (first : Option A) (y : A)
    → usable y ≡ true
    → (x : A) × ((fall_back usable unusable first (some y)).0 ≡ some x) × (usable x ≡ true)
unfolding fall_back
fall_back_gives usable unusable none y h = (y, refl, h)
fall_back_gives usable unusable (some x) y h = elim (Bool-cases (usable x)) [
  | inl p ↦ (x, rw p refl, p)
  | inr p ↦ (y, rw p refl, h)
]

fall_back_returns :
    {A : Type 0} (usable : A → Bool) (unusable : Outcome) (first : Option A) (y : A)
    → (x : A) × ((fall_back usable unusable first (some y)).0 ≡ some x)
unfolding fall_back
fall_back_returns usable unusable none y = (y, refl)
fall_back_returns usable unusable (some x) y = elim (Bool-cases (usable x)) [
  | inl p ↦ (x, rw p refl)
  | inr p ↦ (y, rw p refl)
]

abbrev IsScored : {S : Type 0} → Round S → Type 0
IsScored (scored j js verdict) = Unit
IsScored nothing_selected = ⊥
IsScored raised = ⊥

attempt_answers :
    {Job S : Type 0} (agents : Agents Job S) (jobs : List Job) (max_jobs number : ℕ)
    (critique : Option String) (x : List (RankedJob S))
    → agents.select number jobs max_jobs critique ≡ some x
    → not (is_empty x) ≡ true
    → ((selection : List (RankedJob S))
        → (v : CriticResult S) × (agents.evaluate number selection ≡ some v))
    → IsScored (attempt agents jobs max_jobs number critique)
unfolding attempt
attempt_answers agents jobs max_jobs number critique [] e n h = absurd (cc n)
attempt_answers agents jobs max_jobs number critique (j ∷ js) e n h =
    rw (attempt, e, (h (j ∷ js)).1) tt

module _ {S : Type 0} ⦃f : Float S⦄ (strip_lower : String → String)
    (actor : ActorAgent (Candidate S) S) (critic : CriticAgent S) where
  -- The agents of the loop: language models of any behaviour, with the rules as their fallbacks.
  unfoldable pub guarded : Agents (Candidate S) S
  unfolding select evaluate
  guarded = record {
    select = λ number jobs max_jobs critique.
        (select actor rule_based_actor number jobs max_jobs critique).0;
    evaluate =
        λ number selection. (evaluate strip_lower critic rule_based_critic number selection).0;
  }

  guarded_selects :
      (job : Candidate S) (jobs : List (Candidate S)) (m number : ℕ) (critique : Option String)
      → (x : List (RankedJob S)) × (guarded.select number (job ∷ jobs) (suc m) critique ≡ some x)
        × (not (is_empty x) ≡ true)
  unfolding guarded select rule_based_actor rank_from
  guarded_selects job jobs m number critique =
      fall_back_gives (λ x. not (is_empty x)) _ (actor.select number (job ∷ jobs) (suc m) critique)
        _ refl

  guarded_evaluates :
      (number : ℕ) (selection : List (RankedJob S))
      → (v : CriticResult S) × (guarded.evaluate number selection ≡ some v)
  unfolding guarded evaluate rule_based_critic
  guarded_evaluates number selection = fall_back_returns _ _ (critic.evaluate number selection) _

  attempt-IsScored :
      (job : Candidate S) (jobs : List (Candidate S)) (m number : ℕ) (critique : Option String)
      → IsScored (attempt guarded (job ∷ jobs) (suc m) number critique)
  attempt-IsScored job jobs m number critique =
      let (x, e, n) = guarded_selects job jobs m number critique in
      attempt_answers guarded (job ∷ jobs) (suc m) number critique x e n (guarded_evaluates number)

  play-IsScored :
      (later : Option String → List (Round S)) (round : Round S)
      → IsScored round
      → ((c : Option String) → All IsScored (later c))
      → All IsScored (play later round)
  unfolding play
  play-IsScored later (scored j js verdict) h ih = (tt, ih (some verdict.critique))
  play-IsScored later nothing_selected h ih = elim h [ ]
  play-IsScored later raised h ih = elim h [ ]

  rounds-IsScored :
      (job : Candidate S) (jobs : List (Candidate S)) (m left used : ℕ) (critique : Option String)
      → All IsScored (rounds guarded (job ∷ jobs) (suc m) left used critique)
  unfolding rounds
  rounds-IsScored job jobs m zero used critique = tt
  rounds-IsScored job jobs m (suc left) used critique =
      play-IsScored (rounds guarded (job ∷ jobs) (suc m) left (suc used))
        (attempt guarded (job ∷ jobs) (suc m) (suc used) critique)
        (attempt-IsScored job jobs m (suc used) critique)
        (λ c. rounds-IsScored job jobs m left (suc used) c)

  ScoredIn-nonempty :
      (t : S) (sel : List (RankedJob S)) (s : S) (rs : List (Round S))
      → ScoredIn t sel s rs
      → is_empty sel ≡ false
  ScoredIn-nonempty t sel s [] h = elim h [ ]
  ScoredIn-nonempty t sel s (scored j js verdict ∷ rs) (inl h) = rw⁻¹ h.0 refl
  ScoredIn-nonempty t sel s (scored j js verdict ∷ rs) (inr h) = ScoredIn-nonempty t sel s rs h
  ScoredIn-nonempty t sel s (nothing_selected ∷ rs) h = ScoredIn-nonempty t sel s rs h
  ScoredIn-nonempty t sel s (raised ∷ rs) h = ScoredIn-nonempty t sel s rs h

  FirstPassing-nonempty :
      (t : S) (used : ℕ) (rs : List (Round S)) (r : ActorCriticResult S)
      → FirstPassing t used rs r
      → is_empty r.selection ≡ false
  FirstPassing-nonempty t used [] r h = elim h [ ]
  FirstPassing-nonempty t used (nothing_selected ∷ rs) r h = elim h [ ]
  FirstPassing-nonempty t used (raised ∷ rs) r h = elim h [ ]
  FirstPassing-nonempty t used (scored j js verdict ∷ rs) r (inl h) = rw h.1 refl
  FirstPassing-nonempty t used (scored j js verdict ∷ rs) r (inr h) =
      FirstPassing-nonempty t (suc used) rs r h.1

  NoneScored-none :
      (t : S) (rs : List (Round S)) → All IsScored rs → NoneScored t rs → length rs ≡ 0
  NoneScored-none t [] h k = refl
  NoneScored-none t (scored j js verdict ∷ rs) h k = elim k [ ]
  NoneScored-none t (nothing_selected ∷ rs) h k = elim h.0 [ ]
  NoneScored-none t (raised ∷ rs) h k = elim h.0 [ ]

  length-play :
      (later : Option String → List (Round S)) (round : Round S) → 0 < length (play later round)
  unfolding play
  length-play later (scored j js verdict) = omega arith
  length-play later nothing_selected = omega arith
  length-play later raised = omega arith

  module _ (config : ActorCriticConfig S) (job : Candidate S × S)
      (jobs : List (Candidate S × S)) where
    candidate_rounds-IsScored :
        (m : ℕ)
        → config.max_jobs_per_selection ≡ suc m
        → All IsScored (candidate_rounds guarded config (job ∷ jobs))
    candidate_rounds-IsScored m e =
        rw e (rounds-IsScored job.0 (map (λ p. p.0) jobs) m config.max_attempts 0 none)

    all_answered :
        (m : ℕ)
        → config.max_jobs_per_selection ≡ suc m
        → All (Answered guarded config) (candidate_rounds guarded config (job ∷ jobs))
    all_answered m e =
        All-map_fun IsScored (Answered guarded config) answers
          (candidate_rounds guarded config (job ∷ jobs)) (candidate_rounds-IsScored m e)
      where
        answers : (r : Round S) → IsScored r → Answered guarded config r
        answers (scored j js verdict) h = tt
        answers nothing_selected h = tt
        answers raised h = h

    rounds_played :
        (n : ℕ)
        → config.max_attempts ≡ suc n
        → 0 < length (candidate_rounds guarded config (job ∷ jobs))
    unfolding rounds
    rounds_played n k = rw k (
        length-play (rounds guarded (map (λ p. p.0) (job ∷ jobs)) config.max_jobs_per_selection n 1)
          _)

    -- With the rules to fall back to, the loop always returns a result, whatever the language models
    -- do in any round, raising included. For candidates that are not empty, at least one job to select
    -- and at least one attempt, its selection is not empty.
    pub guarded-run_returns :
        (m n : ℕ)
        → config.max_jobs_per_selection ≡ suc m
        → config.max_attempts ≡ suc n
        → (r : ActorCriticResult S) × (run guarded config (job ∷ jobs) ≡ some r)
          × (is_empty r.selection ≡ false)
    guarded-run_returns m n e k =
        let (r, h) = run_returns guarded config (job ∷ jobs) (all_answered m e) in
        (r, h, nonempty r h)
      where
        nonempty :
            (r : ActorCriticResult S)
            → run guarded config (job ∷ jobs) ≡ some r
            → is_empty r.selection ≡ false
        nonempty r h = elim (Bool-cases r.passed) [
          | inl p ↦
              FirstPassing-nonempty config.score_threshold 0
                (candidate_rounds guarded config (job ∷ jobs)) r
                (run-FirstPassing guarded config (job ∷ jobs) r h p)
          | inr p ↦ elim ((run_not_passed guarded config job jobs r h p).2) [
            | inl o ↦
                ScoredIn-nonempty config.score_threshold r.selection r.final_score
                  (candidate_rounds guarded config (job ∷ jobs)) o
            | inr o ↦
                let none_played : length (candidate_rounds guarded config (job ∷ jobs)) ≡ 0 =
                  NoneScored-none config.score_threshold
                    (candidate_rounds guarded config (job ∷ jobs)) (candidate_rounds-IsScored m e)
                    o.1 in
                let no : ⊥ = omega (arith, none_played, rounds_played n k) in elim no [ ]
          ]
        ]
