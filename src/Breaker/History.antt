-- ===== src/Breaker/History.antt =====
-- What holds of the circuit breaker over whole histories of calls.
use site_parser_for_freelans.Common.{
  ℕ, suc, ◌+◌, ◌≤◌, ◌<◌, ◌≡◌, refl, ap, sym, subst, ◌∙◌, true, false, List, [], ◌∷◌, some, ◌++◌,
  max, map, arith, length, All,
}
use site_parser_for_freelans.Breaker.{CircuitBreaker, init}
use site_parser_for_freelans.Breaker.Machine.{
  Call, allow, failure, step, run, IsValid, init-IsValid, step-IsValid, closed, opened, probing,
  Settings, settings, phase, spec_step, spec_run, step_refines, step-settings,
}

run_refines :
    (b : CircuitBreaker) (cs : List Call)
    → IsValid b
    → spec_run (settings b) (phase b) cs ≡ (phase (run b cs).0, (run b cs).1)
unfolding run spec_run
run_refines b [] v = refl
run_refines b (c ∷ cs) v = rw (step_refines b c v) (
    ap (λ p. (p.0, (step b c).1 ∷ p.1))
      (subst
        (λ s.
          spec_run s (phase (step b c).0) cs
          ≡ (phase (run (step b c).0 cs).0, (run (step b c).0 cs).1))
        (step-settings b c) (run_refines (step b c).0 cs (step-IsValid b c v))))

-- For any settings and any sequence of calls, a new circuit breaker gives the replies of the
-- machine started closed with no failure, and is left in the phase in which the machine is left.
pub run-init_refines :
    (threshold interval : ℕ) (cs : List Call)
    → let b = init threshold interval in
      spec_run (settings b) (closed 0) cs ≡ (phase (run b cs).0, (run b cs).1)
unfolding init
run-init_refines threshold interval cs =
    run_refines (init threshold interval) cs (init-IsValid threshold interval)

spec_failures :
    (s : Settings) (n : ℕ) (times : List ℕ)
    → n + length times < s.threshold
    → (spec_run s (closed n) (map failure times)).0 ≡ closed (n + length times)
unfolding spec_run spec_step
spec_failures s n [] h = ground arith
spec_failures s n (t ∷ ts) h = ground (arith, spec_failures s (suc n) ts)

spec_failures_open :
    (s : Settings) (n now : ℕ) (times : List ℕ)
    → n + length times + 1 ≡ s.threshold
    → (spec_run s (closed n) (map failure (times ++ now ∷ []))).0 ≡ opened (now + s.interval)
unfolding spec_run spec_step
spec_failures_open s n now [] h = ground arith
spec_failures_open s n now (t ∷ ts) h = ground (arith, spec_failures_open s (suc n) now ts)

-- A new circuit breaker that only sees failures stays closed and counts them while they are fewer
-- than the threshold (at least 1), and the failure that reaches the threshold opens it until the
-- open interval (at least 100 ms) after that failure.
pub opens_at_threshold :
    (threshold interval now : ℕ) (times : List ℕ)
    → let b = init threshold interval in
      (length times < max 1 threshold → phase (run b (map failure times)).0 ≡ closed (length times))
      × (length times + 1 ≡ max 1 threshold
          → phase (run b (map failure (times ++ now ∷ []))).0 ≡ opened (now + max 100 interval))
unfolding init
opens_at_threshold threshold interval now times = (
  λ h.
      ap (λ r. r.0) (sym (run-init_refines threshold interval (map failure times)))
      ∙ (spec_failures (settings (init threshold interval)) 0 times (omega arith)
          ∙ ap closed (omega arith)),
  λ h.
      ap (λ r. r.0) (sym (run-init_refines threshold interval (map failure (times ++ now ∷ []))))
      ∙ spec_failures_open (settings (init threshold interval)) 0 now times (omega arith),
)

spec_denied_probing :
    (s : Settings) (u : ℕ) (ts : List ℕ)
    → spec_run s (probing u) (map allow ts) ≡ (probing u, map (λ _. some false) ts)
unfolding spec_run spec_step
spec_denied_probing s u [] = refl
spec_denied_probing s u (t ∷ ts) = rw (spec_denied_probing s u ts)

spec_allow_due :
    (s : Settings) (u now : ℕ)
    → u ≤ now
    → spec_step s (opened u) (allow now) ≡ (probing u, some true)
unfolding spec_step
spec_allow_due s u now h = ground arith

-- While the breaker is open and its time is over, the first request is let through as the probe,
-- and of any further requests before an outcome is recorded none is.
pub probe_is_single :
    (b : CircuitBreaker) (u now : ℕ) (ts : List ℕ)
    → IsValid b
    → phase b ≡ opened u
    → u ≤ now
    → (run b (allow now ∷ map allow ts)).1 ≡ some true ∷ map (λ _. some false) ts
unfolding spec_run
probe_is_single b u now ts v e h =
    ap (λ r. r.1) (sym (run_refines b (allow now ∷ map allow ts) v))
    ∙ rw (e, spec_allow_due (settings b) u now h, spec_denied_probing (settings b) u ts) refl

spec_denied_open :
    (s : Settings) (u : ℕ) (ts : List ℕ)
    → All (λ t. t < u) ts
    → spec_run s (opened u) (map allow ts) ≡ (opened u, map (λ _. some false) ts)
unfolding spec_run spec_step
spec_denied_open s u [] h = refl
spec_denied_open s u (t ∷ ts) h = ground (arith, spec_denied_open s u ts)

-- While the breaker is open, every request before its time is denied, and it stays open until then.
pub open_denies :
    (b : CircuitBreaker) (u : ℕ) (ts : List ℕ)
    → IsValid b
    → phase b ≡ opened u
    → All (λ t. t < u) ts
    → ((run b (map allow ts)).1 ≡ map (λ _. some false) ts)
      × (phase (run b (map allow ts)).0 ≡ opened u)
open_denies b u ts v e h =
    let r = sym (run_refines b (map allow ts) v) ∙ rw e (spec_denied_open (settings b) u ts h) in
    (ap (λ x. x.1) r, ap (λ x. x.0) r)
