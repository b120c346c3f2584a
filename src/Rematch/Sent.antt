-- ===== src/Rematch/Sent.antt =====
-- How much the rematch use case sends.
use Prim.Native.String.{String}
use site_parser_for_freelans.Common.{
  ℕ, suc, ◌+◌, ◌≤◌, ◌≡◌, refl, inl, inr, Option, List, [], ◌∷◌, map, length, take, All,
  Option-cases, length-take, arith,
}
use site_parser_for_freelans.Common.Float.{Float}
use site_parser_for_freelans.Domain.{RankedJob, MatchCandidate}
use site_parser_for_freelans.AcBatch.Ranking.{RanksFrom}
use site_parser_for_freelans.Rematch.{
  Sending, enqueue_batch, enqueue_many, enqueue, Methods, has_enqueue_batch, has_enqueue_many,
  has_enqueue, append_ranked, build_ranked_jobs, send_ranked, send,
}

module _ {S : Type 0} ⦃f : Float S⦄ where
  -- How many jobs a call sends.
  abbrev pub sent : List (Sending S) → ℕ
  sent [] = 0
  sent (enqueue_batch user_id ranked score ∷ calls) = length ranked + sent calls
  sent (enqueue_many cs ∷ calls) = length cs + sent calls
  sent (enqueue c ∷ calls) = 1 + sent calls

  -- A batch is for the user and numbered from 1.
  abbrev pub Numbered : ℕ → Sending S → Type 0
  Numbered user_id (enqueue_batch u ranked score) = (u ≡ user_id) × RanksFrom 1 ranked
  Numbered user_id (enqueue_many cs) = Unit
  Numbered user_id (enqueue c) = Unit

  build_lem :
      (get : ℕ → Option String) (cs : List (MatchCandidate S)) (count : ℕ)
      → RanksFrom (suc count) (build_ranked_jobs get cs count)
        × (length (build_ranked_jobs get cs count) ≤ length cs)
  unfolding build_ranked_jobs
  build_lem get [] count = (tt, omega arith)
  build_lem get (c ∷ cs) count = elim (Option-cases (get c.job_id)) [
    | inl e ↦
        let (ranks, few) = build_lem get cs count in
        rw (e, append_ranked) (ranks, omega (arith, few))
    | inr (title, e) ↦
        let (ranks, few) = build_lem get cs (suc count) in
        rw (e, append_ranked) ((omega arith, ranks), omega (arith, few))
  ]

  sent-enqueue : (cs : List (MatchCandidate S)) → sent (map enqueue cs) ≡ length cs
  sent-enqueue [] = refl
  sent-enqueue (c ∷ cs) = omega (arith, sent-enqueue cs)

  Numbered-enqueue :
      (user_id : ℕ) (cs : List (MatchCandidate S)) → All (Numbered user_id) (map enqueue cs)
  Numbered-enqueue user_id [] = tt
  Numbered-enqueue user_id (c ∷ cs) = (tt, Numbered-enqueue user_id cs)

  ranked_sent :
      (round : S → S) (user_id : ℕ) (ranked : List (RankedJob S))
      → RanksFrom 1 ranked
      → let r = send_ranked round user_id ranked in
        (r.1 ≡ length ranked) × (sent r.0 ≡ r.1) × All (Numbered user_id) r.0
  unfolding send_ranked
  ranked_sent round user_id [] h = (refl, refl, tt)
  ranked_sent round user_id (r ∷ rs) h = (refl, omega arith, ((refl, h), tt))

  -- Whatever methods the queue has, the number that `execute` returns is the number of jobs that it
  -- sends, at most `max_jobs` and at most the number of the candidates, and a batch is for the user
  -- and numbered from 1 without gaps, though the jobs of some candidates are missing.
  pub send_counts :
      (methods : Methods) (get : ℕ → Option String) (round : S → S) (max_jobs user_id : ℕ)
      (cs : List (MatchCandidate S))
      → let r = send methods get round max_jobs user_id cs in
        (sent r.0 ≡ r.1) × (r.1 ≤ max_jobs) × (r.1 ≤ length cs) × All (Numbered user_id) r.0
  unfolding send
  send_counts has_enqueue_batch get round max_jobs user_id cs =
      let (ranks, few) = build_lem get (take max_jobs cs) 0 in
      let (size, same, numbered) = ranked_sent round user_id _ ranks in
      (
        same,
        omega (arith, size, few, length-take max_jobs cs),
        omega (arith, size, few, length-take max_jobs cs),
        numbered,
      )
  send_counts has_enqueue_many get round max_jobs user_id cs = (
    omega arith,
    omega (arith, length-take max_jobs cs),
    omega (arith, length-take max_jobs cs),
    (tt, tt),
  )
  send_counts has_enqueue get round max_jobs user_id cs = (
    sent-enqueue (take max_jobs cs),
    omega (arith, length-take max_jobs cs),
    omega (arith, length-take max_jobs cs),
    Numbered-enqueue user_id (take max_jobs cs),
  )
