-- ===== src/Breaker/Backoff.antt =====
-- The backoff of a breaker over a run of failed recovery probes
-- (backend/server/src/scheduler/build/circuit_breaker.rs).
use native.Mathlib.Nat.{pow-suc, mul-le-mul_right, mul-le-mul_left}
use native.Mathlib.Decide.{dec_le}
use eka_ci.Prelude.{ℕ, zero, suc, ◌+◌, ◌*◌, ◌^◌, ◌≤◌, min, ◌≡◌, List, [], ◌∷◌, arith, length}
use eka_ci.Breaker.{
  BreakerState, open_until, BuilderBreaker, max_backoff, record_failure, try_half_open,
}

-- One probe that fails: it starts a while after the cooldown has passed, and runs for a while.
probe_from : BreakerState → ℕ × ℕ → BuilderBreaker → BuilderBreaker
probe_from (open_until recover_at) (wait, run) b =
    (record_failure (recover_at + wait + run) (try_half_open (recover_at + wait) b).0).0
probe_from _ _ b = b

pub failed_probes : List (ℕ × ℕ) → BuilderBreaker → BuilderBreaker
failed_probes [] b = b
failed_probes (p ∷ ps) b = failed_probes ps (probe_from b.state p b)

probe_from_lem :
    (b : BuilderBreaker) (r wait run : ℕ)
    → b.state ≡ open_until r
    → let b' = probe_from b.state (wait, run) b in
      (b'.backoff ≡ min (b.backoff * 2) max_backoff)
      × (b'.state ≡ open_until (r + wait + run + b'.backoff))
unfolding probe_from record_failure try_half_open
probe_from_lem b r wait run e = ground arith

one-le-pow : (n : ℕ) → 1 ≤ 2 ^ n
one-le-pow zero = omega arith
one-le-pow (suc n) = omega (arith, pow-suc 2 n, one-le-pow n)

min-double : (x p m : ℕ) → 1 ≤ p → min (min (x * 2) m * p) m ≡ min (x * (p * 2)) m
min-double x p m h = elim (dec_le (x * 2) m) [
  | yes small ↦ let e : min (x * 2) m ≡ x * 2 = omega arith in rw e (omega arith)
  | no large ↦
      let e : min (x * 2) m ≡ m = omega arith in
      rw e (
        omega (
          arith,
          mul-le-mul_right {m = m} {n = x * 2} p (omega arith),
          mul-le-mul_left {m = 1} {n = p} m h,
        ))
]

-- Every failed probe doubles the backoff, up to the maximum, and leaves the breaker open.
pub failed_probes_backoff :
    (b : BuilderBreaker) (r : ℕ) (ps : List (ℕ × ℕ))
    → b.state ≡ open_until r
    → b.backoff ≤ max_backoff
    → ((failed_probes ps b).backoff ≡ min (b.backoff * 2 ^ length ps) max_backoff)
      × ((end : ℕ) × ((failed_probes ps b).state ≡ open_until end))
unfolding failed_probes
failed_probes_backoff b r [] e h = (omega arith, (r, e))
failed_probes_backoff b r ((wait, run) ∷ ps) e h =
    let b' = probe_from b.state (wait, run) b in
    let (longer, reopened) = probe_from_lem b r wait run e in
    let (total, still_open) =
      failed_probes_backoff b' (r + wait + run + b'.backoff) ps reopened (omega (arith, longer)) in
    (
      rw (total, longer, pow-suc 2 (length ps))
          (min-double b.backoff (2 ^ length ps) max_backoff (one-le-pow (length ps))),
      still_open,
    )
