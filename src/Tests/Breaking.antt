-- ===== src/Tests/Breaking.antt =====
-- Histories of a circuit breaker with the threshold 2 and an open interval of one second.
use site_parser_for_freelans.Common.{◌≡◌, [], ◌∷◌}
use site_parser_for_freelans.Breaker.{init}
use site_parser_for_freelans.Breaker.Machine.{
  allow, failure, run, closed, settings, phase, spec_run,
}
use site_parser_for_freelans.Breaker.History.{run-init_refines}

run-init_refines_example :
    let b = init 2 1000 in
    let calls = failure 10 ∷ failure 20 ∷ allow 30 ∷ allow 1500 ∷ allow 1600 ∷ [] in
    spec_run (settings b) (closed 0) calls ≡ (phase (run b calls).0, (run b calls).1)
run-init_refines_example =
    run-init_refines 2 1000 (failure 10 ∷ failure 20 ∷ allow 30 ∷ allow 1500 ∷ allow 1600 ∷ [])
