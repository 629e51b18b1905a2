-- ===== src/Breaker/Tripping.antt =====
-- When a breaker of backend/server/src/scheduler/build/circuit_breaker.rs trips, and what it
-- then lets through.
use eka_ci.Prelude.{
  ℕ, ◌+◌, ◌-◌, ◌*◌, ◌≤◌, ◌<◌, min, true, ◌≡◌, ◌↔◌, ◌⊎◌, [], ◌∷◌, arith, length, retain, ltb,
  length-append,
}
use eka_ci.Breaker.{
  closed, half_open, BuilderBreaker, failure_threshold, failure_window, initial_backoff,
  max_backoff, recent, record_failure, is_available, try_half_open, new, record_success,
}

pub record IsValid (b : BuilderBreaker) : Type 0 where
  pub at_least : initial_backoff ≤ b.backoff
  pub at_most : b.backoff ≤ max_backoff
  pub below_threshold : b.state ≡ closed → length b.recent_failures < failure_threshold

-- A fresh breaker is valid, and so is a valid one after a failure, after a success and after the
-- start of a probe: its backoff stays between the initial and the maximal one, and a closed breaker
-- has fewer failures on record than the threshold.
pub record_failure-IsValid :
    (b : BuilderBreaker) (now : ℕ)
    → IsValid b
    → IsValid new
      × IsValid (record_success b)
      × IsValid (record_failure now b).0
      × IsValid (try_half_open now b).0
unfolding record_failure recent record_success try_half_open
record_failure-IsValid b now v =
    ground (
      arith,
      length-append (retain (λ t. ltb (now - t) failure_window) b.recent_failures) (now ∷ []),
    )

-- The failures of the last two minutes, this one included.
abbrev pub failures_in_window : ℕ → BuilderBreaker → ℕ
failures_in_window now b = length (retain (λ t. ltb (now - t) failure_window) b.recent_failures) + 1

-- A failure trips the breaker exactly when a probe was under way, or the breaker was closed and
-- this is at least the third failure within the window.
pub record_failure_trips :
    (b : BuilderBreaker) (now : ℕ)
    → ((record_failure now b).1 ≡ true) ↔ (
        (b.state ≡ half_open) ⊎ (b.state ≡ closed) × (failure_threshold ≤ failures_in_window now b))
unfolding record_failure recent
record_failure_trips b now =
    ground (
      arith,
      length-append (retain (λ t. ltb (now - t) failure_window) b.recent_failures) (now ∷ []),
    )

-- A breaker that has tripped is available from the time on at which its backoff ends, and not
-- before. The backoff is the one that a closed breaker had, and after a failed probe twice the old
-- one, up to the maximum.
pub tripped-is_available :
    (b : BuilderBreaker) (now later : ℕ)
    → (record_failure now b).1 ≡ true
    → let b' = (record_failure now b).0 in
      ((is_available later b' ≡ true) ↔ (now + b'.backoff ≤ later))
      × ((b.state ≡ closed) × (b'.backoff ≡ b.backoff)
          ⊎ (b.state ≡ half_open) × (b'.backoff ≡ min (b.backoff * 2) max_backoff))
unfolding record_failure is_available
tripped-is_available b now later h = ground arith
