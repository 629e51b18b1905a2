-- ===== src/Breaker/Tests.antt =====
-- Inputs for the theorems about circuit breakers, and runs of the code.
use eka_ci.Prelude.{
  ℕ, ◌≤◌, true, false, some, ◌≡◌, refl, ◌↔◌, ◌⊎◌, List, [], ◌∷◌, arith, any, eq_list, get, retain,
}
use eka_ci.Prelude.Text.{text, Text_eq, to_ascii_lowercase, contains_text}
use eka_ci.Breaker
use eka_ci.Breaker.{
  BreakerState, closed, open_until, half_open, BuilderBreaker, new, from_secs, record_failure,
  record_success, try_half_open, failure_threshold, max_backoff, is_connection_failure,
}
use eka_ci.Breaker.Registry.{CircuitBreakerRegistry, is_available, returned, try_recover_begin}
use eka_ci.Breaker.Tripping.{failures_in_window, record_failure_trips}
use eka_ci.Breaker.Probes.{Event, registers, recovers, run, probe_excludes}

-- Two failures on record.
abbrev shaky : BuilderBreaker
shaky = record {
  state = closed;
  recent_failures = from_secs 100 ∷ from_secs 110 ∷ [];
  backoff = from_secs 30;
}

abbrev tripped : BuilderBreaker
tripped = record {
  state = open_until (from_secs 150);
  recent_failures = from_secs 100 ∷ from_secs 110 ∷ from_secs 120 ∷ [];
  backoff = from_secs 30;
}

abbrev probed : BuilderBreaker
probed = record tripped { state = half_open }

trips_at_threshold : record_failure (from_secs 120) shaky ≡ (tripped, true)
unfolding record_failure Breaker.recent retain
trips_at_threshold = refl

old_failures_expire : (record_failure (from_secs 300) shaky).1 ≡ false
unfolding record_failure Breaker.recent retain
old_failures_expire = refl

ssh_failure : is_connection_failure (some 1) (text "ssh: Connection Refused") ≡ true
unfolding is_connection_failure to_ascii_lowercase any contains_text
ssh_failure = refl

build_failure : is_connection_failure (some 1) (text "build failed") ≡ false
unfolding is_connection_failure to_ascii_lowercase any contains_text
build_failure = refl

record_failure_trips_example : ((record_failure (from_secs 120) shaky).1 ≡ true) ↔ (
    (shaky.state ≡ half_open)
    ⊎ (shaky.state ≡ closed) × (failure_threshold ≤ failures_in_window (from_secs 120) shaky))
record_failure_trips_example = record_failure_trips shaky (from_secs 120)

abbrev two_probes : List (ℕ × ℕ)
two_probes = (1, 2) ∷ (3, 4) ∷ []

abbrev builders : CircuitBreakerRegistry
builders = (text "a", probed) ∷ (text "b", shaky) ∷ []

abbrev others : List Event
others = recovers 7 (text "a") ∷ registers (text "c") ∷ recovers 9 (text "b") ∷ []

probe_excludes_example :
    (is_available 9 (text "a") (run builders others) ≡ false)
    × ((try_recover_begin 9 (text "a") (run builders others)).1 ≡ returned false)
unfolding get eq_list
probe_excludes_example = probe_excludes builders (text "a") probed others 9 refl refl (omega arith)
