-- ===== src/Breaker/Overrun.antt =====
-- What an open breaker does once its cooldown has passed
-- (backend/server/src/scheduler/build/circuit_breaker.rs, and its call in system_queue.rs).
use eka_ci.Prelude.{
  ℕ, ◌≤◌, Bool, true, false, ◌≡◌, List, [], ◌∷◌, arith, get, Option-cases, inl, inr, ◌⊎◌,
  if◌then◌else◌,
}
use eka_ci.Prelude.Text.{Text, Text_eq}
use eka_ci.Breaker
use eka_ci.Breaker.{BreakerState, closed, open_until, half_open, BuilderBreaker, record_failure}
use eka_ci.Breaker.Registry.{
  CircuitBreakerRegistry, Recovery, is_available, returned, try_recover_begin,
}

-- Builds that fail one after the other.
pub record_failures : List ℕ → BuilderBreaker → BuilderBreaker
record_failures [] b = b
record_failures (now ∷ ts) b = record_failures ts (record_failure now b).0

record_failures-state :
    (ts : List ℕ) (b : BuilderBreaker) (r : ℕ)
    → b.state ≡ open_until r
    → (record_failures ts b).state ≡ open_until r
unfolding record_failures record_failure
record_failures-state [] b r e = e
record_failures-state (now ∷ ts) b r e =
    record_failures-state ts (record_failure now b).0 r (ground arith)

-- A breaker that is open offers its builder to every build once the cooldown has passed, however
-- many builds have failed since it opened, before or after the end of the cooldown: no number of
-- failures trips it again.
pub open_never_trips :
    (b : BuilderBreaker) (r later : ℕ) (ts : List ℕ) (last : ℕ)
    → b.state ≡ open_until r
    → r ≤ later
    → (Breaker.is_available later (record_failures ts b) ≡ true)
      × ((record_failure last (record_failures ts b)).1 ≡ false)
unfolding Breaker.is_available record_failure
open_never_trips b r later ts last e h = ground (arith, record_failures-state ts b r e)

-- The two calls of `loop_builds` for a remote builder at one instant: whether the builder may
-- take the build, and whether a probe was started.
unfoldable pub offer : ℕ → Text → CircuitBreakerRegistry → Bool × Recovery
offer now name m =
    if is_available now name m
    then (true, returned true)
    else (false, (try_recover_begin now name m).1)

-- A recovery probe starts only if the clock passes the end of the cooldown between the two calls of
-- `loop_builds`: at one instant, a builder is either available, or the recovery of its breaker is
-- refused without a probe.
pub offer-ne-probing :
    (now : ℕ) (name : Text) (m : CircuitBreakerRegistry)
    → ((is_available now name m ≡ true) × (offer now name m ≡ (true, returned true)))
      ⊎ ((is_available now name m ≡ false) × (offer now name m ≡ (false, returned false)))
unfolding offer is_available Breaker.is_available try_recover_begin Breaker.try_half_open
offer-ne-probing now name m = elim (Option-cases (get name m)) [
  | inl e ↦ ground arith
  | inr (b, e) ↦ ground arith
]
