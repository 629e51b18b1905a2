-- ===== src/Breaker/Registry.antt =====
-- `CircuitBreakerRegistry` of backend/server/src/scheduler/build/circuit_breaker.rs.
use eka_ci.Breaker
use eka_ci.Breaker.{BuilderBreaker, BreakerState, closed, new, is_closed}
use eka_ci.Prelude.{ℕ, Bool, true, false, none, some, if◌then◌else◌, HashMap, get, insert}
use eka_ci.Prelude.Text.{Text, Text_eq}

-- The breakers by the name of the builder.
abbrev pub CircuitBreakerRegistry : Type 0
CircuitBreakerRegistry = HashMap Text BuilderBreaker

unfoldable pub register : Text → CircuitBreakerRegistry → CircuitBreakerRegistry
register name m = elim (get name m) [ some _ ↦ m | none ↦ insert name new m ]

unfoldable pub record_failure : ℕ → Text → CircuitBreakerRegistry → CircuitBreakerRegistry × Bool
record_failure now name m = elim (get name m) [
  | some b ↦ let (b', tripped) = Breaker.record_failure now b in (insert name b' m, tripped)
  | none ↦ (m, false)
]

unfoldable pub record_success : Text → CircuitBreakerRegistry → CircuitBreakerRegistry
record_success name m = elim (get name m) [
  | some b ↦ insert name (Breaker.record_success b) m
  | none ↦ m
]

unfoldable pub is_available : ℕ → Text → CircuitBreakerRegistry → Bool
is_available now name m = elim (get name m) [ some b ↦ Breaker.is_available now b | none ↦ true ]

-- `try_recover` up to the release of the lock: its result, or the probe that is to be run.
pub data Recovery : Type 0 where
  returned : Bool → Recovery
  probing : Recovery

unfoldable pub try_recover_begin :
    ℕ → Text → CircuitBreakerRegistry → CircuitBreakerRegistry × Recovery
try_recover_begin now name m = elim (get name m) [
  | some b ↦
      if is_closed b.state
      then (m, returned true)
      else (let (b', moved) = Breaker.try_half_open now b in
          if moved then (insert name b' m, probing) else (insert name b' m, returned false))
  | none ↦ (m, returned true)
]

-- `try_recover` from the end of the probe on.
unfoldable pub try_recover_finish :
    ℕ → Bool → Text → CircuitBreakerRegistry → CircuitBreakerRegistry × Bool
try_recover_finish now probe_ok name m = elim (get name m) [
  | some b ↦
      if probe_ok
      then (insert name (Breaker.record_success b) m, true)
      else (insert name (Breaker.record_failure now b).0 m, false)
  | none ↦ (m, probe_ok)
]
