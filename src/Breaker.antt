-- ===== src/Breaker.antt =====
-- backend/server/src/scheduler/build/circuit_breaker.rs: the circuit breakers of remote builders.
-- An `Instant` and a `Duration` are a number of nanoseconds; `Instant::now()` is an argument. The
-- mutex makes each function an atomic step on the map, but for `try_recover`, which gives the lock
-- back while the probe runs: it is the two steps `try_recover_begin` and `try_recover_finish`.
pub mod Registry
pub mod Tripping
pub mod Backoff
pub mod Probes
pub mod Overrun
mod Tests
use eka_ci.Prelude.{
  ℕ, ◌+◌, ◌-◌, ◌*◌, min, ltb, leb, Bool, true, false, ◌&&◌, ◌||◌, Option, none, some, List, [], ◌∷◌,
  ◌++◌, if◌then◌else◌, length, retain, HashMap, get, insert, modify, ◌==◌, any,
}
use eka_ci.Prelude.Text.{Text, text, Text_eq, to_ascii_lowercase, contains_text}

pub data BreakerState : Type 0 where
  closed : BreakerState
  open_until : (recover_at : ℕ) → BreakerState
  half_open : BreakerState

pub record BuilderBreaker : Type 0 where
  pub state : BreakerState
  pub recent_failures : List ℕ
  pub backoff : ℕ

abbrev pub from_secs : ℕ → ℕ
from_secs n = n * 1_000_000_000

abbrev pub failure_threshold : ℕ
failure_threshold = 3

abbrev pub failure_window : ℕ
failure_window = from_secs 120

abbrev pub initial_backoff : ℕ
initial_backoff = from_secs 30

abbrev pub max_backoff : ℕ
max_backoff = from_secs 600

abbrev pub new : BuilderBreaker
new = record { state = closed; recent_failures = []; backoff = initial_backoff }

abbrev pub is_closed : BreakerState → Bool
is_closed closed = true
is_closed _ = false

abbrev pub is_half_open : BreakerState → Bool
is_half_open half_open = true
is_half_open _ = false

-- `duration_since` stops at 0, as `-` does.
unfoldable pub recent : ℕ → BuilderBreaker → List ℕ
recent now b = retain (λ t. ltb (now - t) failure_window) b.recent_failures ++ now ∷ []

-- Whether the breaker just tripped comes second.
unfoldable pub record_failure : ℕ → BuilderBreaker → BuilderBreaker × Bool
record_failure now b =
    let b' = record b { recent_failures = recent now b } in
    if leb failure_threshold (length (recent now b)) && is_closed b.state
    then (record b' { state = open_until (now + b.backoff) }, true)
    else if is_half_open b.state
    then (let longer : ℕ = min (b.backoff * 2) max_backoff in
        (record b' { backoff = longer; state = open_until (now + longer) }, true))
    else (b', false)

unfoldable pub record_success : BuilderBreaker → BuilderBreaker
record_success b = new

abbrev available_in : ℕ → BreakerState → Bool
available_in now closed = true
available_in now half_open = false
available_in now (open_until recover_at) = leb recover_at now

unfoldable pub is_available : ℕ → BuilderBreaker → Bool
is_available now b = available_in now b.state

abbrev elapsed : ℕ → BreakerState → Bool
elapsed now (open_until recover_at) = leb recover_at now
elapsed now _ = false

unfoldable pub try_half_open : ℕ → BuilderBreaker → BuilderBreaker × Bool
try_half_open now b =
    if elapsed now b.state then (record b { state = half_open }, true) else (b, false)

abbrev patterns : List Text
patterns =
    text "connection refused"
    ∷ text "connection timed out"
    ∷ text "connection reset"
    ∷ text "no route to host"
    ∷ text "host is unreachable"
    ∷ text "name or service not known"
    ∷ text "ssh_exchange_identification"
    ∷ text "permission denied (publickey"
    ∷ text "broken pipe"
    ∷ text "failed to connect to"
    ∷ text "cannot connect to"
    ∷ []

abbrev exited_with_255 : Option ℕ → Bool
exited_with_255 none = false
exited_with_255 (some c) = c == 255

-- Whether the output of a failed build shows a transport error.
unfoldable pub is_connection_failure : Option ℕ → Text → Bool
is_connection_failure exit_code stderr =
    let lower = to_ascii_lowercase stderr in
    if exited_with_255 exit_code then true else any (contains_text lower) patterns
