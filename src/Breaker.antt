-- ===== src/Breaker.antt =====
-- ai-service/src/ai_service/util/circuit_breaker.py: the class CircuitBreaker. Times are counted in
-- milliseconds of the monotonic clock; a call takes the time that the clock shows. The lock makes
-- each method atomic, so a history of calls from any threads is a sequence of calls.
pub mod Machine
pub mod History
use site_parser_for_freelans.Common.{
  ℕ, ◌+◌, max, Bool, true, false, ◌||◌, List, [], ◌∷◌, ltb, leb, ◌==◌, if◌then◌else◌,
}

pub record CircuitBreaker : Type 0 where
  pub failure_threshold : ℕ
  pub open_interval : ℕ
  pub consecutive_failures : ℕ
  pub opened_until : ℕ
  pub probe_in_flight : Bool

-- The least open interval is 0.1 s.
unfoldable pub init : ℕ → ℕ → CircuitBreaker
init failure_threshold open_interval = record {
  failure_threshold = max 1 failure_threshold;
  open_interval = max 100 open_interval;
  consecutive_failures = 0;
  opened_until = 0;
  probe_in_flight = false;
}

unfoldable pub allow_request : ℕ → CircuitBreaker → CircuitBreaker × Bool
allow_request now b =
    if leb b.opened_until 0
    then (b, true)
    else if ltb now b.opened_until
    then (b, false)
    else if b.probe_in_flight
    then (b, false)
    else (record b { probe_in_flight = true }, true)

unfoldable pub record_success : CircuitBreaker → CircuitBreaker
record_success b = record b { consecutive_failures = 0; opened_until = 0; probe_in_flight = false }

unfoldable pub record_failure : ℕ → CircuitBreaker → CircuitBreaker
record_failure now b =
    let failures =
      if ltb 0 b.opened_until || b.probe_in_flight
      then b.failure_threshold
      else b.consecutive_failures + 1 in
    let c = record b { consecutive_failures = failures; probe_in_flight = false } in
    if leb b.failure_threshold failures
    then record c { opened_until = now + b.open_interval }
    else c
