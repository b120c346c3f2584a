-- ===== src/AcBatch/Ranking.antt =====
-- The ranked jobs of the notification of the batch use case: their order and numbers.
use Prim.Native.String.{String}
use site_parser_for_freelans.Common.{
  ℕ, suc, ◌≤◌, ◌≡◌, refl, ◌⊎◌, inl, inr, true, List, [], ◌∷◌, length, any, All, Bool-cases, leb,
  ◌==◌, leb→le, le→leb, arith,
}
use site_parser_for_freelans.Common.Float.{Float, lit, ◌≤?◌, max_float, min_float, clamp_between}
use site_parser_for_freelans.Common.Lexicographic.{
  greater_first-key, greater_first_total, greater_first_trans,
}
use site_parser_for_freelans.Common.Sort.{sort_by, Sorted, sort_by-Sorted}
use site_parser_for_freelans.Domain.{RankedJob}
use site_parser_for_freelans.AcBatch.Scoring.{Job}
use site_parser_for_freelans.AcBatch.{number_jobs, ranks_higher}

module _ {S : Type 0} ⦃f : Float S⦄ where
  abbrev pub RanksFrom : ℕ → List (RankedJob S) → Type 0
  RanksFrom n [] = Unit
  RanksFrom n (r ∷ rs) = (r.rank ≡ n) × RanksFrom (suc n) rs

  abbrev pub Confident : RankedJob S → Type 0
  Confident r = ((lit 0 ≤? r.actor_confidence) ≡ true) × ((r.actor_confidence ≤? lit 1) ≡ true)

  -- At most `limit` jobs, numbered from 1 by falling final score, each of them one of `allowed`,
  -- with a confidence between 0 and 1.
  pub record IsRanking (limit : ℕ) (allowed : List ℕ) (ranked : List (RankedJob S)) : Type 0 where
    pub numbered : RanksFrom 1 ranked
    pub few : length ranked ≤ limit
    pub falling : Sorted (λ x y. y.final_score ≤? x.final_score) ranked
    pub confident : All Confident ranked
    pub known : All (λ r. any (◌==◌ r.job_id) allowed ≡ true) ranked

  id_total : (x y : Job S) → (leb y.id x.id ≡ true) ⊎ (leb x.id y.id ≡ true)
  id_total x y = elim (Bool-cases (leb y.id x.id)) [
    | inl e ↦ inl e
    | inr e ↦ inr (le→leb x.id y.id (ground arith))
  ]

  id_trans : (x y z : Job S) → leb y.id x.id ≡ true → leb z.id y.id ≡ true → leb z.id x.id ≡ true
  id_trans x y z h k = le→leb z.id x.id (omega (arith, leb→le y.id x.id h, leb→le z.id y.id k))

  pub ranks_higher-Sorted : (js : List (Job S)) → Sorted ranks_higher (sort_by ranks_higher js)
  ranks_higher-Sorted =
      sort_by-Sorted ranks_higher (greater_first_total _ _ (greater_first_total _ _ id_total))
        (greater_first_trans _ _ (greater_first_trans _ _ id_trans))

  unit_clamp :
      (x : S)
      → (lit 0 ≤? lit {S = S} 1) ≡ true
      → ((lit 0 ≤? max_float (lit 0) (min_float (lit 1) x)) ≡ true)
        × ((max_float (lit 0) (min_float (lit 1) x) ≤? lit 1) ≡ true)
  unit_clamp x h = clamp_between (lit 0) (lit 1) x h

  enumerate-Falling :
      (n : ℕ) (x : Job S) (js : List (Job S)) (ts : List String)
      → All (λ y. ranks_higher x y ≡ true) js
      → All (λ r. (r.final_score ≤? x.final_score) ≡ true) (number_jobs n js ts)
  unfolding number_jobs
  enumerate-Falling n x [] ts h = tt
  enumerate-Falling n x (j ∷ js) [] h = tt
  enumerate-Falling n x (j ∷ js) (t ∷ ts) h =
      (greater_first-key _ _ x j h.0, enumerate-Falling (suc n) x js ts h.1)

  module _ (allowed : List ℕ) where
    abbrev pub Allowed : Job S → Type 0
    Allowed j = any (◌==◌ j.id) allowed ≡ true

    pub record Enumerated (n : ℕ) (js : List (Job S)) (ranked : List (RankedJob S)) : Type 0 where
      pub numbered : RanksFrom n ranked
      pub few : length ranked ≤ length js
      pub falling : Sorted (λ x y. y.final_score ≤? x.final_score) ranked
      pub confident : All Confident ranked
      pub known : All (λ r. any (◌==◌ r.job_id) allowed ≡ true) ranked

    pub enumerate-Enumerated :
        (n : ℕ) (js : List (Job S)) (ts : List String)
        → (lit 0 ≤? lit {S = S} 1) ≡ true
        → Sorted ranks_higher js
        → All Allowed js
        → Enumerated n js (number_jobs n js ts)
    unfolding number_jobs
    enumerate-Enumerated n [] ts h s a = record {
      numbered = tt;
      few = omega arith;
      falling = tt;
      confident = tt;
      known = tt;
    }
    enumerate-Enumerated n (j ∷ js) [] h s a = record {
      numbered = tt;
      few = omega arith;
      falling = tt;
      confident = tt;
      known = tt;
    }
    enumerate-Enumerated n (j ∷ js) (t ∷ ts) h s a =
        let all = enumerate-Enumerated (suc n) js ts h s.1 a.1 in
        record {
          numbered = (refl, all.numbered);
          few = omega (arith, all.few);
          falling = (enumerate-Falling (suc n) j js ts s.0, all.falling);
          confident = (unit_clamp j.final_score h, all.confident);
          known = (a.0, all.known);
        }
