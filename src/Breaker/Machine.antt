-- ===== src/Breaker/Machine.antt =====
-- The circuit breaker against the three-phase machine that its docstring describes: closed with a
-- number of failures in a row, opened until a time, or waiting for the one recovery probe.
use site_parser_for_freelans.Common.{
  ℕ, suc, ◌+◌, ◌≤◌, ◌<◌, ◌≡◌, Bool, true, false, List, [], ◌∷◌, Option, none, some, ltb, leb,
  if◌then◌else◌, arith,
}
use site_parser_for_freelans.Breaker.{
  CircuitBreaker, init, allow_request, record_success, record_failure,
}

pub data Call : Type 0 where
  allow : ℕ → Call
  success : Call
  failure : ℕ → Call

-- A call and what it returns; only `allow_request` returns anything.
unfoldable pub step : CircuitBreaker → Call → CircuitBreaker × Option Bool
unfolding allow_request record_success record_failure
step b (allow now) = let (c, r) = allow_request now b in (c, some r)
step b success = (record_success b, none)
step b (failure now) = (record_failure now b, none)

unfoldable pub run : CircuitBreaker → List Call → CircuitBreaker × List (Option Bool)
run b [] = (b, [])
run b (c ∷ cs) = let (b', r) = step b c in let (b'', rs) = run b' cs in (b'', r ∷ rs)

-- What the calls leave true of the fields. A breaker is open, or has failed less than the
-- threshold; a probe is out only while it is open.
pub record IsValid (b : CircuitBreaker) : Type 0 where
  pub threshold_pos : 1 ≤ b.failure_threshold
  pub interval_pos : 1 ≤ b.open_interval
  pub closed_below : b.opened_until ≡ 0 → b.consecutive_failures < b.failure_threshold
  pub probe_open : b.probe_in_flight ≡ true → 0 < b.opened_until

pub init-IsValid : (threshold interval : ℕ) → IsValid (init threshold interval)
unfolding init
init-IsValid threshold interval = ground arith

pub step-IsValid : (b : CircuitBreaker) (c : Call) → IsValid b → IsValid (step b c).0
unfolding step
step-IsValid b (allow now) v = ground arith
step-IsValid b success v = ground arith
step-IsValid b (failure now) v = ground arith

pub data Phase : Type 0 where
  closed : ℕ → Phase
  opened : ℕ → Phase
  probing : ℕ → Phase

pub record Settings : Type 0 where
  pub threshold : ℕ
  pub interval : ℕ

abbrev pub settings : CircuitBreaker → Settings
settings b = record { threshold = b.failure_threshold; interval = b.open_interval }

abbrev pub phase : CircuitBreaker → Phase
phase b =
    if leb b.opened_until 0
    then closed b.consecutive_failures
    else (if b.probe_in_flight then probing b.opened_until else opened b.opened_until)

-- The machine. Only time opens the way to a probe, and only an outcome ends one.
unfoldable pub spec_step : Settings → Phase → Call → Phase × Option Bool
spec_step s (closed n) (allow now) = (closed n, some true)
spec_step s (opened u) (allow now) =
    if ltb now u then (opened u, some false) else (probing u, some true)
spec_step s (probing u) (allow now) = (probing u, some false)
spec_step s p success = (closed 0, none)
spec_step s (closed n) (failure now) =
    (if leb s.threshold (suc n) then opened (now + s.interval) else closed (suc n), none)
spec_step s (opened u) (failure now) = (opened (now + s.interval), none)
spec_step s (probing u) (failure now) = (opened (now + s.interval), none)

unfoldable pub spec_run : Settings → Phase → List Call → Phase × List (Option Bool)
spec_run s p [] = (p, [])
spec_run s p (c ∷ cs) =
    let (p', r) = spec_step s p c in let (p'', rs) = spec_run s p' cs in (p'', r ∷ rs)

pub step_refines :
    (b : CircuitBreaker) (c : Call)
    → IsValid b
    → spec_step (settings b) (phase b) c ≡ (phase (step b c).0, (step b c).1)
unfolding step spec_step
step_refines b (allow now) v = ground arith
step_refines b success v = ground arith
step_refines b (failure now) v = ground arith

pub step-settings : (b : CircuitBreaker) (c : Call) → settings (step b c).0 ≡ settings b
unfolding step
step-settings b (allow now) = ground arith
step-settings b success = ground arith
step-settings b (failure now) = ground arith
