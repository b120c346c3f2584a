-- ===== src/AcLoop/Rounds.antt =====
-- The Actor-Critic loop against the list of the rounds that its agents would play.
use Prim.Native.String.{String}
use site_parser_for_freelans.Common.{
  ℕ, zero, suc, ◌+◌, ◌≡◌, ◌≢◌, refl, sym, subst, ◌⊎◌, inl, inr, true, false, ◌||◌, Option, none,
  some, List, [], ◌∷◌, map, length, is_empty, All, Bool-cases, eq_of_some, if◌then◌else◌, arith,
}
use site_parser_for_freelans.Common.Float.{Float, lit, ◌≤?◌, ◌<?◌, ≤?_refl, ≤?_of_not}
use site_parser_for_freelans.Domain.{RankedJob, CriticResult}
use site_parser_for_freelans.AcLoop.{
  ActorCriticResult, ActorCriticConfig, Agents, Round, scored, nothing_selected, raised, attempt,
  judge, loop, run,
}

module _ {S : Type 0} where
  unfoldable pub play : (Option String → List (Round S)) → Round S → List (Round S)
  play next (scored j js verdict) = scored j js verdict ∷ next (some verdict.critique)
  play next nothing_selected = nothing_selected ∷ []
  play next raised = raised ∷ []

  -- All that the agents would do in `left` more attempts, were no score good enough: each attempt
  -- gets the critique of the one before it. Nothing follows an empty selection or an exception.
  unfoldable pub rounds :
      {Job : Type 0} → Agents Job S → List Job → ℕ → ℕ → ℕ → Option String → List (Round S)
  unfolding play
  rounds agents jobs max_jobs zero used critique = []
  rounds agents jobs max_jobs (suc left) used critique =
      play (rounds agents jobs max_jobs left (suc used))
        (attempt agents jobs max_jobs (suc used) critique)

module _ {S : Type 0} ⦃f : Float S⦄ (threshold : S) where
  -- The result is that of the first round whose score reaches the threshold; the rounds before it
  -- have scores below it.
  abbrev pub FirstPassing : ℕ → List (Round S) → ActorCriticResult S → Type 0
  FirstPassing used (scored j js verdict ∷ rs) r =
      (((threshold ≤? verdict.score) ≡ true)
        × (r ≡ record {
          selection = j ∷ js;
          final_score = verdict.score;
          attempts = suc used;
          passed = true;
        }))
      ⊎ (((threshold ≤? verdict.score) ≡ false) × FirstPassing (suc used) rs r)
  FirstPassing used _ r = ⊥

  -- The round has a score, and it is at most `s` and below the threshold; or nothing was selected.
  abbrev pub Beaten : S → Round S → Type 0
  Beaten s (scored j js verdict) =
      ((verdict.score ≤? s) ≡ true) × ((threshold ≤? verdict.score) ≡ false)
  Beaten s nothing_selected = Unit
  Beaten s raised = ⊥

  -- Some round gave this selection with this score.
  abbrev pub ScoredIn : List (RankedJob S) → S → List (Round S) → Type 0
  ScoredIn sel s [] = ⊥
  ScoredIn sel s (scored j js verdict ∷ rs) =
      ((j ∷ js ≡ sel) × (verdict.score ≡ s)) ⊎ ScoredIn sel s rs
  ScoredIn sel s (_ ∷ rs) = ScoredIn sel s rs

  abbrev pub NoneScored : List (Round S) → Type 0
  NoneScored [] = Unit
  NoneScored (scored j js verdict ∷ rs) = ⊥
  NoneScored (_ ∷ rs) = NoneScored rs

  record Best (used : ℕ) (best : List (RankedJob S)) (score : S) (rs : List (Round S))
      (r : ActorCriticResult S) : Type 0 where
    beaten : All (Beaten r.final_score) rs
    grown : best ≢ [] → (score ≤? r.final_score) ≡ true
    played : r.attempts ≡ used + length rs
    origin :
        ScoredIn r.selection r.final_score rs
        ⊎ ((r.selection ≡ best) × (r.final_score ≡ score) × (best ≡ [] → NoneScored rs))

  abbrev Explained : ℕ → List (RankedJob S) → S → List (Round S) → ActorCriticResult S → Type 0
  Explained used best score rs r =
      (r.passed ≡ true → FirstPassing used rs r) × (r.passed ≡ false → Best used best score rs r)

  Best-cons :
      (used : ℕ) (best : List (RankedJob S)) (score : S) (r : ActorCriticResult S) (j : RankedJob S)
      (js : List (RankedJob S)) (verdict : CriticResult S) (rs : List (Round S))
      → (threshold ≤? verdict.score) ≡ false
      → (let better = is_empty best || score <? verdict.score in
          Best
            (suc used)
            (if better then j ∷ js else best)
            (if better then verdict.score else score)
            rs
            r)
      → Best used best score (scored j js verdict ∷ rs) r
  Best-cons used [] score r j js verdict rs p b = record {
    beaten = ((b.grown (λ e. cc), p), b.beaten);
    grown = λ n. absurd (n refl);
    played = omega (arith, b.played);
    origin = elim (b.origin) [ inl o ↦ inl (inr o) | inr o ↦ inl (inl (sym o.0, sym o.1)) ];
  }
  Best-cons used (x ∷ xs) score r j js verdict rs p b = elim (Bool-cases (verdict.score ≤? score)) [
    | inl le ↦
        let c : Best (suc used) (x ∷ xs) score rs r = rw le at b in
        record {
          beaten = ((f.leb_trans _ _ _ le (c.grown (λ e. cc)), p), c.beaten);
          grown = c.grown;
          played = omega (arith, c.played);
          origin = elim (c.origin) [ inl o ↦ inl (inr o) | inr o ↦ inr (o.0, o.1, λ e. cc) ];
        }
    | inr gt ↦
        let c : Best (suc used) (j ∷ js) verdict.score rs r = rw gt at b in
        record {
          beaten = ((c.grown (λ e. cc), p), c.beaten);
          grown = λ n. f.leb_trans _ _ _ (≤?_of_not verdict.score score gt) (c.grown (λ e. cc));
          played = omega (arith, c.played);
          origin = elim (c.origin) [ inl o ↦ inl (inr o) | inr o ↦ inl (inl (sym o.0, sym o.1)) ];
        }
  ]

  judge-Explained :
      (used : ℕ) (best : List (RankedJob S)) (score : S) (r : ActorCriticResult S)
      (next : List (RankedJob S) → S → Option String → Option (ActorCriticResult S))
      (later : Option String → List (Round S))
      → ((b : List (RankedJob S)) (s : S) (c : Option String)
          → next b s c ≡ some r
          → Explained (suc used) b s (later c) r)
      → (round : Round S) → judge threshold (suc used) best score next round ≡ some r
      → Explained used best score (play later round) r
  unfolding judge play
  judge-Explained used best score r next later ih raised h = cc
  judge-Explained used best score r next later ih nothing_selected h =
      subst (Explained used best score (nothing_selected ∷ [])) (eq_of_some h) (
        λ e. cc,
        λ e. record {
          beaten = (tt, tt);
          grown = λ n. ≤?_refl score;
          played = omega arith;
          origin = inr (refl, refl, λ n. tt);
        },
      )
  judge-Explained used best score r next later ih (scored j js verdict) h =
      elim (Bool-cases (threshold ≤? verdict.score)) [
        | inl p ↦
            let k : some (record {
              selection = j ∷ js;
              final_score = verdict.score;
              attempts = suc used;
              passed = true;
            })
                ≡ some r =
              rw p at h in
            subst (Explained used best score (play later (scored j js verdict))) (eq_of_some k)
              (λ e. inl (p, refl), λ e. cc)
        | inr p ↦
            let better = is_empty best || score <? verdict.score in
            let k : next (if better then j ∷ js else best) (if better then verdict.score else score)
                  (some verdict.critique)
                ≡ some r =
              rw p at h in
            let (first, rest) = ih _ _ _ k in
            (λ e. inr (p, first e), λ e. Best-cons used best score r j js verdict _ p (rest e))
      ]

module _ {S : Type 0} ⦃f : Float S⦄ {Job : Type 0} (agents : Agents Job S)
    (config : ActorCriticConfig S) where
  loop-Explained :
      (jobs : List Job) (left used : ℕ) (best : List (RankedJob S)) (score : S)
      (critique : Option String) (r : ActorCriticResult S)
      → loop agents config jobs left used best score critique ≡ some r
      → Explained config.score_threshold used best score
          (rounds agents jobs config.max_jobs_per_selection left used critique)
          r
  unfolding loop rounds
  loop-Explained jobs zero used best score critique r h =
      subst (Explained config.score_threshold used best score []) (eq_of_some h) (
        λ e. cc,
        λ e. record {
          beaten = tt;
          grown = λ n. ≤?_refl score;
          played = omega arith;
          origin = inr (refl, refl, λ n. tt);
        },
      )
  loop-Explained jobs (suc left) used best score critique r h =
      judge-Explained config.score_threshold used best score r
        (loop agents config jobs left (suc used))
        (rounds agents jobs config.max_jobs_per_selection left (suc used))
        (λ b s c. loop-Explained jobs left (suc used) b s c r)
        (attempt agents jobs config.max_jobs_per_selection (suc used) critique) h

  abbrev pub candidate_rounds : List (Job × S) → List (Round S)
  candidate_rounds cs =
      rounds agents (map (λ p. p.0) cs) config.max_jobs_per_selection config.max_attempts 0 none

  -- If the loop passes, its result is that of the first round whose score reaches the threshold,
  -- with the number of that round; the rounds before it fell short.
  pub run-FirstPassing :
      (cs : List (Job × S)) (r : ActorCriticResult S)
      → run agents config cs ≡ some r
      → r.passed ≡ true
      → FirstPassing config.score_threshold 0 (candidate_rounds cs) r
  unfolding run
  run-FirstPassing [] r h e = cc
  run-FirstPassing (c ∷ cs) r h e =
      (loop-Explained (map (λ p. p.0) (c ∷ cs)) config.max_attempts 0 [] (lit 0) none r h).0 e

  -- If the loop does not pass, then for candidates that are not empty: every round that it played
  -- fell short of the threshold and none scored higher than the result, no agent raised, it counts
  -- every round that it played, and the result's selection and score are those of some round, or
  -- no round had a score, and the selection is empty.
  pub run_not_passed :
      (c : Job × S) (cs : List (Job × S)) (r : ActorCriticResult S)
      → run agents config (c ∷ cs) ≡ some r
      → r.passed ≡ false
      → All (Beaten config.score_threshold r.final_score) (candidate_rounds (c ∷ cs))
        × (r.attempts ≡ length (candidate_rounds (c ∷ cs)))
        × (ScoredIn config.score_threshold r.selection r.final_score (candidate_rounds (c ∷ cs))
            ⊎ (r.selection ≡ []) × NoneScored config.score_threshold (candidate_rounds (c ∷ cs)))
  unfolding run
  run_not_passed c cs r h e =
      let b =
        (loop-Explained (map (λ p. p.0) (c ∷ cs)) config.max_attempts 0 [] (lit 0) none r h).1 e in
      (
        b.beaten,
        omega (arith, b.played),
        elim (b.origin) [ inl o ↦ inl o | inr o ↦ inr (o.0, o.2 refl) ],
      )

  abbrev pub Answered : Round S → Type 0
  Answered (scored j js verdict) = Unit
  Answered nothing_selected = Unit
  Answered raised = ⊥

  judge_returns :
      (number : ℕ) (best : List (RankedJob S)) (score : S)
      (next : List (RankedJob S) → S → Option String → Option (ActorCriticResult S))
      (later : Option String → List (Round S))
      → ((b : List (RankedJob S)) (s : S) (c : Option String)
          → All Answered (later c)
          → (r : ActorCriticResult S) × (next b s c ≡ some r))
      → (round : Round S) → All Answered (play later round)
      → (r : ActorCriticResult S) × (judge config.score_threshold number best score next round
          ≡ some r)
  unfolding judge play
  judge_returns number best score next later ih raised h = elim h.0 [ ]
  judge_returns number best score next later ih nothing_selected h = (_, refl)
  judge_returns number best score next later ih (scored j js verdict) h =
      elim (Bool-cases (config.score_threshold ≤? verdict.score)) [
        | inl p ↦ (
          record {
            selection = j ∷ js;
            final_score = verdict.score;
            attempts = number;
            passed = true;
          },
          rw p refl,
        )
        | inr p ↦
            let better = is_empty best || score <? verdict.score in
            let (r, e) =
              ih (if better then j ∷ js else best) (if better then verdict.score else score)
                (some verdict.critique) h.1 in
            (r, rw p e)
      ]

  loop_returns :
      (jobs : List Job) (left used : ℕ) (best : List (RankedJob S)) (score : S)
      (critique : Option String)
      → All Answered (rounds agents jobs config.max_jobs_per_selection left used critique)
      → (r : ActorCriticResult S) × (loop agents config jobs left used best score critique ≡ some r)
  unfolding loop rounds
  loop_returns jobs zero used best score critique h = (_, refl)
  loop_returns jobs (suc left) used best score critique h =
      judge_returns (suc used) best score (loop agents config jobs left (suc used))
        (rounds agents jobs config.max_jobs_per_selection left (suc used))
        (λ b s c. loop_returns jobs left (suc used) b s c)
        (attempt agents jobs config.max_jobs_per_selection (suc used) critique) h

  -- If no agent raises in the rounds that the candidates give, the loop returns a result.
  pub run_returns :
      (cs : List (Job × S))
      → All Answered (candidate_rounds cs)
      → (r : ActorCriticResult S) × (run agents config cs ≡ some r)
  unfolding run
  run_returns [] h = (_, refl)
  run_returns (c ∷ cs) h =
      loop_returns (map (λ p. p.0) (c ∷ cs)) config.max_attempts 0 [] (lit 0) none h
